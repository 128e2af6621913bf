-- ===== src/Infer/Output.antt =====
-- The output of `buildInferredTripleBuffer`: the string table and the triples, and the parts that need
-- nothing of Konclude: disjoint unions, sameAs pairs and the types for owl:someValuesFrom.
use rdf_reasoner_konclude.Base.{
  ℕ, List, [], ◌∷◌, ◌&&◌, if◌then◌else◌, ltb, length, nat_eq, list_eq, pair_eq, ◌==◌,
}
use rdf_reasoner_konclude.Base.Sets.{insert}
use rdf_reasoner_konclude.Base.Loops.{for_each}
use rdf_reasoner_konclude.Wire.Table.{Text}
use rdf_reasoner_konclude.Wire.Intern.{InternTable, intern, id_index}
use rdf_reasoner_konclude.Wire.Emit.{Triple, Emitted, emit_triple}
use rdf_reasoner_konclude.Scan.Terms.{bytes, text_at, triples_of}
use rdf_reasoner_konclude.Scan.Lines.{rdf_type_iri, sub_class_of_iri}
use rdf_reasoner_konclude.Scan.Functional.{Functional}
use rdf_reasoner_konclude.Scan.Batch.{Batch}
use rdf_reasoner_konclude.Infer.Spread.{Spread, spread}

pub record Output : Type 0 where
  pub table : InternTable
  pub emitted : Emitted

-- emitTriple(intern.intern(s), p, intern.intern(o)); the subject is interned first, where C++ leaves the
-- order open
unfoldable pub emit_named : ℕ → Text → Text → Output → Output
unfolding intern emit_triple
emit_named p s o out =
    let subject = intern s 0 out.table in
    let object = intern o 0 subject.1 in
    record { table = object.1; emitted = (emit_triple (subject.0, (p, object.0)) out.emitted).1 }

-- One triple for each pair; nothing is interned without a pair.
abbrev emit_pairs : Text → List (Text × Text) → Output → Output
emit_pairs p pairs out =
    if length pairs == 0
    then out
    else (let predicate = intern p 0 out.table in
        for_each (λ (x : Text × Text). emit_named predicate.0 x.0 x.1) pairs
          record out { table = predicate.1 })

abbrev swap : Text × Text → List (Text × Text) → List (Text × Text)
swap (class, member) rest = (member, class) ∷ rest

abbrev swap_all : List (Text × Text) → List (Text × Text)
swap_all [] = []
swap_all (x ∷ xs) = swap x (swap_all xs)

unfoldable pub emit_disjoint_unions : Batch → Output → Output
unfolding emit_named intern
emit_disjoint_unions b out = emit_pairs sub_class_of_iri (swap_all b.disjoint_union_of) out

unfoldable pub emit_same_as : Functional → Output → Output
unfolding emit_named intern
emit_same_as f out = emit_pairs (bytes "http://www.w3.org/2002/07/owl#sameAs") f.same_as_pairs out

-- The types in the output so far.
abbrev add_emitted_type : List Text → ℕ → Triple → List (Text × Text) → List (Text × Text)
add_emitted_type strings type_id (s, (p, o)) types =
    if (p == type_id) && ltb (id_index s) (length strings) && ltb (id_index o) (length strings)
    then insert (text_at strings (id_index s), text_at strings (id_index o)) types
    else types

unfoldable pub known_types : List (Text × Text) → ℕ → Output → List (Text × Text)
unfolding triples_of
known_types abox_types type_id out =
    for_each (add_emitted_type out.table.strings type_id) (triples_of out.emitted.triple_ids)
      (for_each insert abox_types [])

unfoldable pub emit_spread : Batch → Output → Output
unfolding spread known_types emit_named intern
emit_spread b out =
    if length b.svf_index == 0
    then out
    else (let type_id = intern rdf_type_iri 0 out.table in
        let first = record out { table = type_id.1 } in
        let last : Spread Output =
          spread b.svf_index b.svf_role_assertions (λ value class. emit_named type_id.0 value class)
            (known_types b.svf_abox_types type_id.0 first) first in
        last.out)

unfoldable pub emit_own : Functional → Batch → Output → Output
unfolding emit_disjoint_unions emit_same_as emit_spread
emit_own f b out = emit_spread b (emit_same_as f (emit_disjoint_unions b out))
