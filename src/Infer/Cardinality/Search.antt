-- ===== src/Infer/Cardinality/Search.antt =====
-- What the search for fillers that differ pairwise finds.
use native.Mathlib.Omega.{arith}
use mathlib.Core.Path.{refl, sym, ap, ap₂, subst, ◌∙◌}
use mathlib.Core.Logic.{inl, inr, ◌↔◌}
use rdf_reasoner_konclude.Base.{
  ℕ, zero, suc, ◌+◌, ◌*◌, ◌/◌, ◌^◌, ◌<◌, ◌≤◌, ◌≡◌, List, [], ◌∷◌, Bool, true, false, ◌&&◌,
  if◌then◌else◌, ltb, length, take, nat_eq, list_eq, ◌==◌, Bool-cases, nat_beq_iff,
}
use rdf_reasoner_konclude.Wire.Table.{Text}
use rdf_reasoner_konclude.Infer.Cardinality.{
  Differences, differ, is_odd, others_differ, pairs_differ, count_bits, mask_fits, search_masks,
  is_satisfied,
}

-- Some elements of a list, in their order.
pub data Among : List Text → List Text → Type 0 where
  none_left : Among [] []
  left_out : {xs ys : List Text} (y : Text) → Among xs ys → Among xs (y ∷ ys)
  taken : {xs ys : List Text} (y : Text) → Among xs ys → Among (y ∷ xs) (y ∷ ys)

module _ (d : Differences) where
  abbrev pub differs_from : Text → List Text → Bool
  differs_from f [] = true
  differs_from f (g ∷ gs) = differ d f g && differs_from f gs

  -- Every element differs from those behind it.
  abbrev pub all_differ : List Text → Bool
  all_differ [] = true
  all_differ (f ∷ fs) = differs_from f fs && all_differ fs

  abbrev chosen : ℕ → List Text → List Text
  chosen mask [] = []
  chosen mask (f ∷ fs) = let rest = chosen (mask / 2) fs in if is_odd mask then f ∷ rest else rest

  chosen-Among : (mask : ℕ) (fs : List Text) → Among (chosen mask fs) fs
  chosen-Among mask [] = none_left
  chosen-Among mask (f ∷ fs) = elim (Bool-cases (is_odd mask)) [
    | inl q ↦ rw q (taken f (chosen-Among (mask / 2) fs))
    | inr q ↦ rw q (left_out f (chosen-Among (mask / 2) fs))
  ]

  others_differ-chosen :
      (mask : ℕ) (f : Text) (gs : List Text)
      → others_differ d mask f gs ≡ differs_from f (chosen mask gs)
  others_differ-chosen mask f [] = refl
  others_differ-chosen mask f (g ∷ gs) = elim (Bool-cases (is_odd mask)) [
    | inl q ↦ rw q (ap (λ b. differ d f g && b) (others_differ-chosen (mask / 2) f gs))
    | inr q ↦ rw q (others_differ-chosen (mask / 2) f gs)
  ]

  pairs_differ-chosen :
      (mask : ℕ) (fs : List Text) → pairs_differ d mask fs ≡ all_differ (chosen mask fs)
  pairs_differ-chosen mask [] = refl
  pairs_differ-chosen mask (f ∷ fs) = elim (Bool-cases (is_odd mask)) [
    | inl q ↦ rw q (
        ap₂ (λ a b. a && b) (others_differ-chosen (mask / 2) f fs)
          (pairs_differ-chosen (mask / 2) fs))
    | inr q ↦ rw q (pairs_differ-chosen (mask / 2) fs)
  ]

  count_bits-chosen : (mask : ℕ) (fs : List Text) → count_bits d mask fs ≡ length (chosen mask fs)
  count_bits-chosen mask [] = refl
  count_bits-chosen mask (f ∷ fs) = elim (Bool-cases (is_odd mask)) [
    | inl q ↦ rw q (ap suc (count_bits-chosen (mask / 2) fs))
    | inr q ↦ rw q (count_bits-chosen (mask / 2) fs)
  ]

  chosen-even : (m : ℕ) (y : Text) (ys : List Text) → chosen (2 * m) (y ∷ ys) ≡ chosen m ys
  chosen-even m y ys =
      let even : is_odd (2 * m) ≡ false = ground arith in
      let half : 2 * m / 2 ≡ m = omega arith in rw even (ap (λ n. chosen n ys) half)

  chosen-odd : (m : ℕ) (y : Text) (ys : List Text) → chosen (2 * m + 1) (y ∷ ys) ≡ y ∷ chosen m ys
  chosen-odd m y ys =
      let odd : is_odd (2 * m + 1) ≡ true = ground arith in
      let half : (2 * m + 1) / 2 ≡ m = omega arith in rw odd (ap (λ n. y ∷ chosen n ys) half)

  twice : (n : ℕ) → 2 ^ suc n ≡ 2 * 2 ^ n
  twice n = omega arith

  -- Every choice is that of a mask.
  mask_of :
      {xs fs : List Text}
      → Among xs fs
      → (mask : ℕ) × ((mask < 2 ^ length fs) × (chosen mask fs ≡ xs))
  mask_of none_left = (0, (omega arith, refl))
  mask_of {fs} (left_out {ys = zs} y a) =
      let m = mask_of a in
      (
        2 * m.0,
        (
          subst (λ n. 2 * m.0 < n) (sym (twice (length zs))) (omega (arith, m.1.0)),
          chosen-even m.0 y zs ∙ m.1.1,
        ),
      )
  mask_of (taken {ys = zs} y a) =
      let m = mask_of a in
      (
        2 * m.0 + 1,
        (
          subst (λ n. 2 * m.0 + 1 < n) (sym (twice (length zs))) (omega (arith, m.1.0)),
          chosen-odd m.0 y zs ∙ ap (λ us. y ∷ us) m.1.1,
        ),
      )

  true-ne-false : true ≡ false → ⊥
  true-ne-false e = cc

  search_masks-finds :
      (need : ℕ) (fs : List Text) (n mask : ℕ)
      → mask < n
      → mask_fits d need fs mask ≡ true
      → search_masks d need fs n ≡ true
  unfolding search_masks
  search_masks-finds need fs zero mask h q = absurd (omega arith)
  search_masks-finds need fs (suc n) mask h q = elim (Bool-cases (mask_fits d need fs n)) [
    | inl r ↦ rw r refl
    | inr r ↦ elim (Bool-cases (mask == n)) [
      | inl e ↦ absurd (
          true-ne-false
            (sym (subst (λ k. mask_fits d need fs k ≡ true) ((nat_beq_iff mask n).0 e) q) ∙ r))
      | inr e ↦ rw r (search_masks-finds need fs n mask (ground (arith, h, e)) q)
    ]
  ]

  search_masks-found :
      (need : ℕ) (fs : List Text) (n : ℕ)
      → search_masks d need fs n ≡ true
      → (mask : ℕ) × (mask_fits d need fs mask ≡ true)
  unfolding search_masks
  search_masks-found need fs zero h = absurd (cc)
  search_masks-found need fs (suc n) h = elim (Bool-cases (mask_fits d need fs n)) [
    | inl r ↦ (n, r)
    | inr r ↦ search_masks-found need fs n (ground (arith, h, r))
  ]

  length-Among : {xs ys : List Text} → Among xs ys → length xs ≤ length ys
  length-Among none_left = omega arith
  length-Among (left_out y a) = omega (arith, length-Among a)
  length-Among (taken y a) = omega (arith, length-Among a)

  length-take : (n : ℕ) (xs : List Text) → length (take n xs) ≤ length xs
  length-take zero xs = omega arith
  length-take (suc n) [] = omega arith
  length-take (suc n) (x ∷ xs) = omega (arith, length-take n xs)

  both : (a b : Bool) → (a && b) ≡ true → (a ≡ true) × (b ≡ true)
  both true b h = (refl, h)
  both false b h = absurd (cc)

  -- With a cardinality of two or more and enough fillers the masks decide.
  is_satisfied-search_masks :
      (need : ℕ) (fillers : List Text)
      → 2 ≤ need
      → need ≤ length fillers
      → is_satisfied d need fillers
        ≡ search_masks d need (take 16 fillers) (2 ^ length (take 16 fillers))
  unfolding is_satisfied
  is_satisfied-search_masks need fillers h long =
      let enough : ltb (length fillers) need ≡ false = ground (arith, long) in
      let many : (need == 1) ≡ false = ground (arith, h) in rw enough (rw many refl)

  is_satisfied-length :
      (need : ℕ) (fillers : List Text) → is_satisfied d need fillers ≡ true → need ≤ length fillers
  unfolding is_satisfied
  is_satisfied-length need fillers q = elim (Bool-cases (ltb (length fillers) need)) [
    | inl few ↦ absurd (
        true-ne-false (
          sym (
            subst
              (λ b.
                (if b
                  then false
                  else if need == 1
                  then true
                  else search_masks d need (take 16 fillers) (2 ^ length (take 16 fillers)))
                ≡ true)
              few q)))
    | inr many ↦ ground (arith, many)
  ]

  -- For a cardinality of two or more, the search succeeds exactly when among the first 16 fillers there
  -- are as many as needed that differ pairwise, each from those behind it.
  pub is_satisfied-Among :
      (need : ℕ) (fillers : List Text)
      → 2 ≤ need
      → (is_satisfied d need fillers ≡ true) ↔ (
          (xs : List Text) × (Among xs (take 16 fillers)
            × ((length xs ≡ need) × (all_differ xs ≡ true))))
  is_satisfied-Among need fillers h = (sound, complete)
    where
      fs : List Text
      fs = take 16 fillers

      sound :
          is_satisfied d need fillers ≡ true
          → (xs : List Text) × (Among xs fs × ((length xs ≡ need) × (all_differ xs ≡ true)))
      sound q =
          let long = is_satisfied-length need fillers q in
          let found =
            search_masks-found need fs (2 ^ length fs)
              (sym (is_satisfied-search_masks need fillers h long) ∙ q) in
          let parts = both (count_bits d found.0 fs == need) (pairs_differ d found.0 fs) found.1 in
          (
            chosen found.0 fs,
            (
              chosen-Among found.0 fs,
              (
                sym (count_bits-chosen found.0 fs)
                    ∙ (nat_beq_iff (count_bits d found.0 fs) need).0 parts.0,
                sym (pairs_differ-chosen found.0 fs) ∙ parts.1,
              ),
            ),
          )

      complete :
          (xs : List Text) × (Among xs fs × ((length xs ≡ need) × (all_differ xs ≡ true)))
          → is_satisfied d need fillers ≡ true
      complete (xs, (a, (l, q))) =
          let m = mask_of a in
          let count : (count_bits d m.0 fs == need) ≡ true =
            (nat_beq_iff (count_bits d m.0 fs) need).1
              (count_bits-chosen m.0 fs ∙ (ap length m.1.1 ∙ l)) in
          let fine : pairs_differ d m.0 fs ≡ true =
            pairs_differ-chosen m.0 fs ∙ (ap all_differ m.1.1 ∙ q) in
          let fits : mask_fits d need fs m.0 ≡ true = ap₂ (λ a b. a && b) count fine in
          is_satisfied-search_masks need fillers h
            (omega (arith, l, length-Among a, length-take 16 fillers))
          ∙ search_masks-finds need fs (2 ^ length fs) m.0 m.1.0 fits
