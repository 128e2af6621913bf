-- ===== src/Scan/Batch/Lists.antt =====
-- Memberships from the lists of owl:oneOf and owl:disjointUnionOf.
pub mod Walk
use rdf_reasoner_konclude.Base.{
  ℕ, zero, suc, List, [], ◌∷◌, ◌++◌, ◌&&◌, ◌||◌, if◌then◌else◌, none, some, nat_eq, list_eq,
  pair_eq, length,
}
use rdf_reasoner_konclude.Base.Dicts.{lookup, assign}
use rdf_reasoner_konclude.Base.Sets.{contains}
use rdf_reasoner_konclude.Base.Loops.{for_each}
use rdf_reasoner_konclude.Wire.Table.{Text}
use rdf_reasoner_konclude.Wire.Intern.{id_index}
use rdf_reasoner_konclude.Wire.Emit.{Triple}
use rdf_reasoner_konclude.Scan.Terms.{text_at, is_named, is_term}
use rdf_reasoner_konclude.Scan.Lines.{nt_line, work_key, rdf_type_iri}
use rdf_reasoner_konclude.Base.{ltb}
use rdf_reasoner_konclude.Scan.Batch.{BatchVocabulary, BatchMaps, Batch}
use rdf_reasoner_konclude.Scan.Lines.{one_of_iri, disjoint_union_of_iri, sub_class_of_iri}

module _ (terms : List Text) (m : BatchMaps) where
  -- members.push_back(terms[memberIdx]) if it is in the table
  abbrev pub with_member : ℕ → List Text → List Text
  with_member i members = if ltb i (length terms) then text_at terms i ∷ members else members

  -- The walk along an RDF list, with the rounds that are left, `seen` and `curr`. A round goes on
  -- from a cell that was not seen yet and has an entry in rdfFirstMap.
  unfoldable pub walk_cells : ℕ → List ℕ → ℕ → List Text
  unfolding is_named
  walk_cells zero seen curr = []
  walk_cells (suc rounds) seen curr =
      if contains seen curr || is_named curr then [] else elim (lookup curr m.firsts) [
        | none ↦ []
        | some i ↦ with_member i (elim (lookup curr m.rests) [
          | none ↦ []
          | some next ↦ walk_cells rounds (curr ∷ seen) next
        ])
      ]

  unfoldable pub list_members : ℕ → List Text
  unfolding walk_cells
  list_members head = walk_cells (suc (length m.firsts)) [] head

-- justNT: one line for each member
unfoldable pub list_lines : Text → Text → List Text → Text
unfolding nt_line
list_lines class relation [] = []
list_lines class relation (x ∷ members) =
    nt_line class relation x ++ list_lines class relation members

-- The membership of one member of owl:oneOf, and of one of owl:disjointUnionOf.
abbrev pub add_one_of : Text → Text → Text → Batch → Batch
add_one_of class just member d = record d {
  one_of_memberships = d.one_of_memberships ++ ((class, member) ∷ []);
  justifications = assign (work_key member rdf_type_iri class) just d.justifications;
}

abbrev pub add_disjoint_union : Text → Text → Text → Batch → Batch
add_disjoint_union class just member d = record d {
  disjoint_union_of = d.disjoint_union_of ++ ((class, member) ∷ []);
  justifications = assign (work_key member sub_class_of_iri class) just d.justifications;
}

module _ (terms : List Text) (m : BatchMaps) where
  abbrev pub scan_one_of_head : ℕ × ℕ → Batch → Batch
  scan_one_of_head (class, head) d =
      if ltb class (length terms)
      then (let members = list_members terms m head in
          for_each
            (add_one_of (text_at terms class) (list_lines (text_at terms class) one_of_iri members))
            members d)
      else d

  unfoldable pub scan_one_of : Batch → Batch
  unfolding list_members list_lines work_key
  scan_one_of d = for_each scan_one_of_head m.one_of_heads d

  abbrev pub scan_disjoint_union_triple : BatchVocabulary → Triple → Batch → Batch
  scan_disjoint_union_triple v (s, (p, o)) d =
      if is_term v.disjoint_union_of p && is_named s && ltb (id_index s) (length terms)
      then (let class = text_at terms (id_index s) in
          let members = list_members terms m o in
          for_each (add_disjoint_union class (list_lines class disjoint_union_of_iri members))
            members d)
      else d

  unfoldable pub scan_disjoint_unions : BatchVocabulary → List Triple → Batch → Batch
  unfolding list_members list_lines work_key is_term is_named
  scan_disjoint_unions v ts d = for_each (scan_disjoint_union_triple v) ts d
