-- ===== src/Scan/Functional/Symmetric.antt =====
-- The sameAs pairs that the scan for functional properties finds.
use rdf_reasoner_konclude.Base.{
  ℕ, ◌≡◌, List, [], ◌∷◌, Bool, true, false, ◌&&◌, ltb, Option, none, some, length, nat_eq, list_eq,
  pair_eq, arith, Bool-cases, inl, inr,
}
use rdf_reasoner_konclude.Base.Sets.{contains, contains-append}
use rdf_reasoner_konclude.Wire.Table.{Text}
use rdf_reasoner_konclude.Wire.Emit.{Triple}
use rdf_reasoner_konclude.Scan.Terms.{find_term, text_at}
use rdf_reasoner_konclude.Scan.Functional.{
  scan_kinds, declared, functional_iri, inverse_functional_iri, Functional, add_same_as, pair_with,
  pair_up, pair_groups, scan_prop_pairs, scan_props, scan_kind, scan_functional, by_group,
  has_multi,
}
use rdf_reasoner_konclude.Scan.Lines.{nt_line, rdf_type_iri}

-- With each pair its converse.
abbrev pub IsSymmetric : Functional → Type 0
IsSymmetric f = (a b : Text) → contains f.same_as_pairs (a, b) ≡ contains f.same_as_pairs (b, a)

module _ (prop_iri declaration : Text) (by_subj : Bool) where
  add_same_as-IsSymmetric :
      (individual a b : Text) (f : Functional)
      → IsSymmetric f
      → IsSymmetric (add_same_as prop_iri declaration individual by_subj a b f)
  unfolding add_same_as
  add_same_as-IsSymmetric individual a b f h c d = ground (
    arith,
    h c d,
    contains-append f.same_as_pairs ((a, b) ∷ (b, a) ∷ []) (c, d),
    contains-append f.same_as_pairs ((a, b) ∷ (b, a) ∷ []) (d, c),
  )

  module _ (terms : List Text) where
    pair_with-IsSymmetric :
        (k v : ℕ) (ws : List ℕ) (f : Functional)
        → IsSymmetric f
        → IsSymmetric (pair_with terms prop_iri declaration by_subj k v ws f)
    unfolding pair_with
    pair_with-IsSymmetric k v [] f h = h
    pair_with-IsSymmetric k v (w ∷ ws) f h =
        elim (Bool-cases (ltb v (length terms) && ltb w (length terms))) [
          | inl q ↦ simp (q) (pair_with-IsSymmetric k v ws _ (add_same_as-IsSymmetric _ _ _ f h))
          | inr q ↦ simp (q) (pair_with-IsSymmetric k v ws f h)
        ]

    pair_up-IsSymmetric :
        (k : ℕ) (vs : List ℕ) (f : Functional)
        → IsSymmetric f
        → IsSymmetric (pair_up terms prop_iri declaration by_subj k vs f)
    unfolding pair_up
    pair_up-IsSymmetric k [] f h = h
    pair_up-IsSymmetric k (v ∷ vs) f h =
        pair_up-IsSymmetric k vs (pair_with terms prop_iri declaration by_subj k v vs f)
          (pair_with-IsSymmetric k v vs f h)

    pair_groups-IsSymmetric :
        (m : List (ℕ × List ℕ)) (f : Functional)
        → IsSymmetric f
        → IsSymmetric (pair_groups terms prop_iri declaration by_subj m f)
    unfolding pair_groups
    pair_groups-IsSymmetric [] f h = h
    pair_groups-IsSymmetric ((k, vs) ∷ m) f h = elim (Bool-cases (ltb (length vs) 2)) [
      | inl q ↦ simp (q) (pair_groups-IsSymmetric m f h)
      | inr q ↦ simp (q) (
          pair_groups-IsSymmetric m (pair_up terms prop_iri declaration by_subj k vs f)
            (pair_up-IsSymmetric k vs f h))
    ]

module _ (terms : List Text) (ts : List Triple) (by_subj : Bool) (type_iri : Text) where
  scan_prop_pairs-IsSymmetric :
      (kind prop : ℕ) (f : Functional)
      → IsSymmetric f
      → IsSymmetric (scan_prop_pairs terms ts by_subj type_iri kind prop f)
  unfolding scan_prop_pairs
  scan_prop_pairs-IsSymmetric kind prop f h =
      let groups = by_group (length terms) prop by_subj ts [] in
      let declaration = nt_line (text_at terms prop) rdf_type_iri type_iri in
      let paired =
        pair_groups-IsSymmetric (text_at terms prop) declaration by_subj terms groups f h in
      elim (Bool-cases (has_multi groups)) [ inl q ↦ simp (q) paired | inr q ↦ simp (q) paired ]

  scan_props-IsSymmetric :
      (kind : ℕ) (props : List ℕ) (f : Functional)
      → IsSymmetric f
      → IsSymmetric (scan_props terms ts by_subj type_iri kind props f)
  unfolding scan_props
  scan_props-IsSymmetric kind [] f h = h
  scan_props-IsSymmetric kind (p ∷ ps) f h =
      scan_props-IsSymmetric kind ps (scan_prop_pairs terms ts by_subj type_iri kind p f)
        (scan_prop_pairs-IsSymmetric kind p f h)

  scan_kind-IsSymmetric :
      (rdf_type kind : Option ℕ) (f : Functional)
      → IsSymmetric f
      → IsSymmetric (scan_kind terms ts rdf_type by_subj type_iri kind f)
  unfolding scan_kind
  scan_kind-IsSymmetric rdf_type none f h = h
  scan_kind-IsSymmetric rdf_type (some kind) f h =
      scan_props-IsSymmetric kind (declared rdf_type (some kind) ts []) f h

scan_kinds-IsSymmetric :
    (terms : List Text) (ts : List Triple) (rdf_type : Option ℕ) (f : Functional)
    → IsSymmetric f
    → IsSymmetric (scan_kinds terms ts rdf_type f)
unfolding scan_kinds
scan_kinds-IsSymmetric terms ts none f h = h
scan_kinds-IsSymmetric terms ts (some t) f h =
    let first =
      scan_kind terms ts (some t) true functional_iri (find_term functional_iri terms 0) f in
    scan_kind-IsSymmetric terms ts false inverse_functional_iri (some t)
      (find_term inverse_functional_iri terms 0) first
      (scan_kind-IsSymmetric terms ts true functional_iri (some t)
        (find_term functional_iri terms 0) f h)

-- The scan keeps the sameAs pairs symmetric: with each pair that it finds for functional and inverse
-- functional properties it records the converse, so that a pair is in the list just when its converse
-- is, provided that this held before.
pub scan_functional-IsSymmetric :
    (for_realization : Bool) (terms : List Text) (ts : List Triple) (f : Functional)
    → IsSymmetric f
    → IsSymmetric (scan_functional for_realization terms ts f)
unfolding scan_functional
scan_functional-IsSymmetric false terms ts f h = h
scan_functional-IsSymmetric true terms ts f h =
    scan_kinds-IsSymmetric terms ts (find_term rdf_type_iri terms 0) f h
