-- ===== src/Scan/Batch/Roles/Properties.antt =====
-- Which properties are asked for: `property_indices` and the strings of the table.
use rdf_reasoner_konclude.Base.{
  ℕ, ◌+◌, ◌<◌, ◌≡◌, zero, suc, List, [], ◌∷◌, true, ◌&&◌, some, nat_eq, list_eq, ◌==◌, length,
  get_or, ltb, arith, Bool-cases, list_beq_iff, nat_beq_iff,
}
use mathlib.Core.Path.{refl, sym, ap, subst, ◌∙◌}
use mathlib.Core.Logic.{inl, inr}
use mathlib.Core.List.{Memᴰ}
use rdf_reasoner_konclude.Base.Sets.{
  Distinct, contains, Mem-contains, contains_of_Mem, contains-insert, insert,
}
use rdf_reasoner_konclude.Base.Loops.{when_some, for_each-keeps, when_some-keeps, for_each-reaches}
use rdf_reasoner_konclude.Wire.Table.{Text}
use rdf_reasoner_konclude.Scan.Terms.{find_term, text_at}
use rdf_reasoner_konclude.Scan.Batch.{add_property, property_indices}

-- The found index is that of the string.
find_term-found :
    (iri : Text) (xs : List Text) (from i : ℕ)
    → find_term iri xs from ≡ some i
    → (j : ℕ) × ((i ≡ from + j) × ((j < length xs) × (get_or xs j [] ≡ iri)))
unfolding find_term
find_term-found iri [] from i h = absurd (cc)
find_term-found iri (x ∷ xs) from i h = elim (Bool-cases (x == iri)) [
  | inl q ↦ (0, (ground (arith, h, q), (omega arith, (list_beq_iff x iri).0 q)))
  | inr q ↦
      let (j, (e, (l, t))) = find_term-found iri xs (from + 1) i (ground (arith, h, q)) in
      (suc j, (omega (arith, e), (omega (arith, l), t)))
]

get_or-Mem : (xs : List Text) (j : ℕ) → j < length xs → Memᴰ (get_or xs j []) xs
get_or-Mem [] j h = absurd (omega arith)
get_or-Mem (x ∷ xs) zero h = Memᴰ.head refl
get_or-Mem (x ∷ xs) (suc j) h = Memᴰ.tail (get_or-Mem xs j (omega arith))

-- In a table without repetitions each string is found at its place.
find_term-get_or :
    (xs : List Text) (from j : ℕ)
    → Distinct xs
    → j < length xs
    → find_term (get_or xs j []) xs from ≡ some (from + j)
unfolding find_term
find_term-get_or [] from j d h = absurd (omega arith)
find_term-get_or (x ∷ xs) from zero d h = ground (arith, list_beq_iff x x)
find_term-get_or (x ∷ xs) from (suc j) d h =
    let iri = get_or xs j [] in
    elim (Bool-cases (x == iri)) [
      | inl q ↦
          let same : x ≡ iri = (list_beq_iff x iri).0 q in
          let inside : contains xs iri ≡ true =
            contains_of_Mem iri xs (get_or-Mem xs j (omega arith)) in
          absurd (ground (arith, ap (contains xs) same, inside, d.0))
      | inr q ↦ ground (arith, q, find_term-get_or xs (from + 1) j d.1 (omega arith))
    ]

module _ (terms : List Text) where
  -- Each property that is asked for is one of the strings.
  pub property_indices-Mem :
      (iris : List Text) (p : ℕ)
      → contains (property_indices terms iris) p ≡ true
      → (p < length terms) × Memᴰ (text_at terms p) iris
  unfolding property_indices
  property_indices-Mem iris p =
      for_each-keeps I (add_property terms) iris
        (λ iri mem props h.
          when_some-keeps I insert (find_term iri terms 0) props
            (λ i found inside. elim (Bool-cases (i == p)) [
              | inl q ↦
                  let (j, (e, (l, t))) = find_term-found iri terms 0 i found in
                  let at : j ≡ p = omega (arith, e, (nat_beq_iff i p).0 q) in
                  (
                    omega (arith, l, at),
                    subst (λ y. Memᴰ y iris) (sym t ∙ ap (text_at terms) at) mem,
                  )
              | inr q ↦ h (ground (arith, q, contains-insert i props p, inside))
            ])
            h)
        [] (λ h. absurd (cc))
    where
      I : List ℕ → Type 0
      I props = contains props p ≡ true → (p < length terms) × Memᴰ (text_at terms p) iris

  -- In a table without repetitions the properties are just those with one of the strings.
  property_indices-contains :
      (iris : List Text) (p : ℕ)
      → Distinct terms
      → p < length terms
      → Memᴰ (text_at terms p) iris
      → contains (property_indices terms iris) p ≡ true
  unfolding property_indices
  property_indices-contains iris p d h mem =
      for_each-reaches Q (add_property terms)
        (λ iri props held.
          when_some-keeps Q insert (find_term iri terms 0) props
            (λ i found. ground (arith, contains-insert i props p, held)) held)
        (text_at terms p)
        (λ props.
          subst (λ o. Q (when_some insert o props)) (sym (find_term-get_or terms 0 p d h))
            (ground (arith, contains-insert p props p, nat_beq_iff p p)))
        iris mem []
    where
      Q : List ℕ → Type 0
      Q props = contains props p ≡ true

  pub property_indices-eq :
      (iris : List Text) (p : ℕ)
      → Distinct terms
      → contains (property_indices terms iris) p
        ≡ (ltb p (length terms) && contains iris (text_at terms p))
  property_indices-eq iris p d = elim (Bool-cases (contains (property_indices terms iris) p)) [
    | inl q ↦
        let (l, mem) = property_indices-Mem iris p q in
        ground (arith, q, l, contains_of_Mem (text_at terms p) iris mem)
    | inr q ↦ elim (Bool-cases (ltb p (length terms) && contains iris (text_at terms p))) [
      | inr r ↦ q ∙ sym r
      | inl r ↦
          let asked : contains iris (text_at terms p) ≡ true = ground (arith, r) in
          absurd (
            ground (
              arith,
              q,
              property_indices-contains iris p d (ground (arith, r))
                  (Mem-contains (text_at terms p) iris asked),
            ))
    ]
  ]
