-- ===== src/Infer/Memberships.antt =====
-- The part of `buildInferredTripleBuffer` for owl:oneOf, owl:intersectionOf and owl:hasSelf: types that
-- the scans have found, with their justifications.
pub mod Range
use rdf_reasoner_konclude.Base.{
  ℕ, ◌%◌, ◌^◌, List, [], ◌∷◌, ◌++◌, Bool, true, false, not, if◌then◌else◌, Option, none, some,
  length, nat_eq, list_eq, pair_eq, ◌==◌,
}
use rdf_reasoner_konclude.Base.Dicts.{lookup, assign}
use rdf_reasoner_konclude.Base.Loops.{for_each}
use rdf_reasoner_konclude.Base.Words.{mul64, xor64}
use rdf_reasoner_konclude.Wire.Table.{Text}
use rdf_reasoner_konclude.Wire.Intern.{intern}
use rdf_reasoner_konclude.Wire.Emit.{Triple, emit_triple}
use rdf_reasoner_konclude.Wire.Buffer.{JustEntry, Explanations}
use rdf_reasoner_konclude.Scan.Lines.{work_key, rdf_type_iri, Justifications}
use rdf_reasoner_konclude.Scan.Batch.{Batch}
use rdf_reasoner_konclude.Scan.Prescan.{Derived}
use rdf_reasoner_konclude.Infer.Output.{Output}
use rdf_reasoner_konclude.Infer.Axioms.{axiom_indices}

-- axiomTriples, justEntries, tripleMappings; justDedup and axiomDedupMap
pub record Explained : Type 0 where
  pub parts : Explanations
  pub just_dedup : List (ℕ × ℕ)
  pub axiom_dedup : List (Triple × ℕ)

abbrev pub push_axiom : Triple → ℕ → Explained → Explained
push_axiom t i ex = record ex {
  parts = record ex.parts { axiom_triples = ex.parts.axiom_triples ++ (t ∷ []) };
  axiom_dedup = assign t i ex.axiom_dedup;
}

-- axiomDedupMap.emplace: the index of an axiom, which is pushed when it is new
abbrev pub place_at : Option ℕ → Triple → Explained → ℕ × Explained
place_at (some i) t ex = (i, ex)
place_at none t ex = (
  length ex.parts.axiom_triples % 2 ^ 32,
  push_axiom t (length ex.parts.axiom_triples % 2 ^ 32) ex,
)

abbrev pub place_axiom : Triple → Explained → ℕ × Explained
place_axiom t ex = place_at (lookup t ex.axiom_dedup) t ex

abbrev pub place_axioms : List Triple → Explained → List ℕ × Explained
place_axioms [] ex = ([], ex)
place_axioms (t ∷ ts) ex =
    let first = place_axiom t ex in let rest = place_axioms ts first.1 in (first.0 ∷ rest.0, rest.1)

-- One round of the hash over the axioms' ids.
abbrev axiom_hash_step : Triple → ℕ → ℕ
axiom_hash_step (s, (p, o)) hash =
    mul64 (xor64 hash (xor64 (xor64 (mul64 s 2654435761) (mul64 p 40503)) o)) 0x100000001b3

unfoldable pub axiom_hash : List Triple → ℕ
unfolding mul64 xor64
axiom_hash axioms = for_each axiom_hash_step axioms 0xcbf29ce484222325

abbrev pub push_entry : ℕ → List ℕ → ℕ → Explained → Explained
push_entry hash indices j ex = record ex {
  parts = record ex.parts {
    just_entries = ex.parts.just_entries ++ (record { hash = hash; axiom_indices = indices } ∷ []);
  };
  just_dedup = assign hash j ex.just_dedup;
}

abbrev pub push_mapping : ℕ → ℕ → Explained → Explained
push_mapping triple j ex = record ex {
  parts = record ex.parts { triple_mappings = ex.parts.triple_mappings ++ ((triple, j) ∷ []) };
}

-- justDedup.emplace: an entry of the same hash is used again.
abbrev pub explain_at : Option ℕ → ℕ → List Triple → ℕ → Explained → Explained
explain_at (some j) hash axioms triple ex = push_mapping triple j ex
explain_at none hash axioms triple ex =
    let placed = place_axioms axioms ex in
    push_mapping triple (length ex.parts.just_entries % 2 ^ 32)
      (push_entry hash placed.0 (length ex.parts.just_entries % 2 ^ 32) placed.1)

unfoldable pub explain : ℕ → List Triple → ℕ → Explained → Explained
explain hash axioms triple ex = explain_at (lookup hash ex.just_dedup) hash axioms triple ex

-- The output with its explanations.
pub record Report : Type 0 where
  pub output : Output
  pub explained : Explained

-- A text that gives no axiom leaves everything as it is.
abbrev pub explain_axioms : List Triple → ℕ → Explained → Explained
explain_axioms [] triple ex = ex
explain_axioms (t ∷ ts) triple ex = explain (axiom_hash (t ∷ ts)) (t ∷ ts) triple ex

abbrev pub explain_text : Option Text → ℕ → Report → Report
explain_text none triple r = r
explain_text (some text) triple r =
    let axioms = axiom_indices text r.output.table in
    record {
      output = record r.output { table = axioms.1 };
      explained = explain_axioms axioms.0 triple r.explained;
    }

module _ (with_explanations : Bool) (justifications : Justifications) where
  -- emitWorkaroundJust
  abbrev pub explain_type : ℕ → Text → Text → Report → Report
  explain_type triple indi class r =
      if with_explanations
      then explain_text (lookup (work_key indi rdf_type_iri class) justifications) triple r
      else r

  -- The individual is interned before the class, where C++ leaves the order open.
  unfoldable pub emit_type : ℕ → Text → Text → Report → Report
  unfolding intern emit_triple axiom_indices axiom_hash explain work_key
  emit_type type_id indi class r =
      let subject = intern indi 0 r.output.table in
      let object = intern class 0 subject.1 in
      let emitted = emit_triple (subject.0, (type_id, object.0)) r.output.emitted in
      explain_type emitted.0 indi class
        (record r { output = record { table = object.1; emitted = emitted.1 } })

  -- Nothing is interned without a pair.
  abbrev pub emit_types : (Text × Text → ℕ → Report → Report) → List (Text × Text) → Report → Report
  emit_types f pairs r =
      if length pairs == 0
      then r
      else (let type_id = intern rdf_type_iri 0 r.output.table in
          for_each (λ x. f x type_id.0) pairs
            record r { output = record r.output { table = type_id.1 } })

  abbrev pub emit_member : Text × Text → ℕ → Report → Report
  emit_member (class, member) type_id = emit_type type_id member class

  abbrev pub emit_instance : Text × Text → ℕ → Report → Report
  emit_instance (indi, class) type_id = emit_type type_id indi class

  unfoldable pub emit_memberships : Derived → Batch → Report → Report
  unfolding emit_type intern
  emit_memberships d b r = emit_types emit_instance d.self_types (
      emit_types emit_instance d.intersection_types (emit_types emit_member b.one_of_memberships r))
