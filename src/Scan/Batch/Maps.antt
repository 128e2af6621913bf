-- ===== src/Scan/Batch/Maps.antt =====
-- What the maps of the scan hold, and the triples.
pub mod Taken
use rdf_reasoner_konclude.Base.{
  ℕ, ◌≡◌, List, [], ◌∷◌, Bool, true, Option, nat_eq, list_eq, pair_eq, ◌==◌,
}
use rdf_reasoner_konclude.Base.Sets.{insert}
use native.Mathlib.Omega.{arith}
use mathlib.Core.Path.{refl, subst}
use mathlib.Core.Logic.{inl, inr}
use mathlib.Core.List.{Memᴰ}
use mathlib.Core.List.Memᴰ
use rdf_reasoner_konclude.Base.Loops.{for_each-keeps, if_keeps}
use rdf_reasoner_konclude.Base.Entries.{Entries, assign-Entries}
use rdf_reasoner_konclude.Base.{Bool-cases, nat_beq_iff}
use rdf_reasoner_konclude.Base.Sets.{Mem-contains, contains_of_Mem, contains-insert}
use rdf_reasoner_konclude.Wire.Intern.{id_index}
use rdf_reasoner_konclude.Wire.Emit.{Triple}
use rdf_reasoner_konclude.Scan.Terms.{is_named, is_term}
use rdf_reasoner_konclude.Scan.Batch.{
  BatchVocabulary, BatchMaps, no_maps, batch_maps, add_to_maps, take_branch, branch, branch_tests,
  first_of, Branch, a_node, a_property, a_filler, a_first, a_rest, a_head, a_min, a_min_qualified,
  a_class, nothing,
}

module _ (ts : List Triple) where
  -- The triples have one with this subject, this object and a predicate of the given kind.
  pub record TripleBy (kind : Option ℕ) (s o : ℕ) : Type 0 where
    pub predicate : ℕ
    pub is_triple : Memᴰ (s, (predicate, o)) ts
    pub is_kind : is_term kind predicate ≡ true

  -- Such a triple for a named object with the given index.
  abbrev pub IndexBy : Option ℕ → ℕ → ℕ → Type 0
  IndexBy kind s i = (o : ℕ) × (TripleBy kind s o × (id_index o ≡ i))

  -- Such a triple for a named subject with the given index.
  abbrev pub SubjectBy : Option ℕ → ℕ → ℕ → Type 0
  SubjectBy kind i o = (s : ℕ) × (TripleBy kind s o × ((is_named s ≡ true) × (id_index s ≡ i)))

module _ (v : BatchVocabulary) (ts : List Triple) where
  -- The triples say what the maps hold.
  pub record MapsSaid (m : BatchMaps) : Type 0 where
    pub nodes :
        (b : ℕ)
        → Memᴰ b m.nodes
        → (o : ℕ) × (TripleBy ts v.rdf_type b o × (is_term v.restriction (id_index o) ≡ true))
    pub properties : Entries (IndexBy ts v.on_property) m.properties
    pub fillers : Entries (IndexBy ts v.some_values_from) m.fillers
    pub firsts : Entries (IndexBy ts v.rdf_first) m.firsts
    pub rests : Entries (TripleBy ts v.rdf_rest) m.rests
    pub one_of_heads : Entries (SubjectBy ts v.one_of) m.one_of_heads
    pub min_values : Entries (TripleBy ts v.min_cardinality) m.min_values
    pub min_qualified_values :
        Entries (TripleBy ts v.min_qualified_cardinality) m.min_qualified_values
    pub on_classes : Entries (IndexBy ts v.on_class) m.on_classes

  -- What a branch of the chain has tested.
  abbrev pub Fits : ℕ → ℕ → ℕ → Branch → Type 0
  Fits s p o a_node = is_term v.rdf_type p ≡ true
  Fits s p o a_property = is_term v.on_property p ≡ true
  Fits s p o a_filler = is_term v.some_values_from p ≡ true
  Fits s p o a_first = is_term v.rdf_first p ≡ true
  Fits s p o a_rest = is_term v.rdf_rest p ≡ true
  Fits s p o a_head = (is_term v.one_of p ≡ true) × (is_named s ≡ true)
  Fits s p o a_min = is_term v.min_cardinality p ≡ true
  Fits s p o a_min_qualified = is_term v.min_qualified_cardinality p ≡ true
  Fits s p o a_class = is_term v.on_class p ≡ true
  Fits s p o nothing = Unit

  abbrev AllFit : (Branch → Type 0) → List (Bool × Branch) → Type 0
  AllFit F [] = F nothing
  AllFit F ((test, b) ∷ tests) = ((test ≡ true) → F b) × AllFit F tests

  first_of-Fits :
      (F : Branch → Type 0) (tests : List (Bool × Branch)) → AllFit F tests → F (first_of tests)
  first_of-Fits F [] h = h
  first_of-Fits F ((test, b) ∷ tests) h = if_keeps F test h.0 (first_of-Fits F tests h.1)

  pub branch-Fits : (s p o : ℕ) → Fits s p o (branch v (s, (p, o)))
  branch-Fits s p o = first_of-Fits (Fits s p o) (branch_tests v (s, (p, o))) (
    (λ q. ground (arith, q)),
    (
      (λ q. ground (arith, q)),
      (
        (λ q. ground (arith, q)),
        (
          (λ q. ground (arith, q)),
          (
            (λ q. ground (arith, q)),
            (
              (λ q. (ground (arith, q), ground (arith, q))),
              (
                (λ q. ground (arith, q)),
                ((λ q. ground (arith, q)), ((λ q. ground (arith, q)), tt)),
              ),
            ),
          ),
        ),
      ),
    ),
  )
