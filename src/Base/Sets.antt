-- ===== src/Base/Sets.antt =====
-- `std::unordered_set` as a list without repetitions. The order of the list stands for the order of
-- iteration, of which no client may make anything: `SameSet` is equality of sets.
use rdf_reasoner_konclude.Base.Tests.{Bool-cases, Eq, if◌then◌else◌}
use rdf_reasoner_konclude.Base.Lists.{length}
use Prim.Native.Nat.{ℕ, suc, ◌+◌, ◌-◌, ◌≤◌, ◌<◌}
use mathlib.Core.Path.{◌≡◌, refl, sym, subst, ◌∙◌}
use mathlib.Core.Logic.{inl, inr}
use mathlib.Core.Bool.{Bool, true, false, ◌||◌}
use mathlib.Core.List.Memᴰ
use mathlib.Core.List.{Memᴰ, List, [], ◌∷◌, ◌++◌, map}
use native.Mathlib.Omega.{arith}

module _ {ℓ} {A : Type ℓ} ⦃e : Eq A⦄ where
  -- s.count(a)
  abbrev pub contains : List A → A → Bool
  contains [] a = false
  contains (x ∷ xs) a = e.beq x a || contains xs a

  -- s.insert(a)
  abbrev pub insert : A → List A → List A
  insert a xs = if contains xs a then xs else a ∷ xs

  -- How many of `xs` are not in `ys`, and how many are.
  abbrev pub count_missing : List A → List A → ℕ
  count_missing [] ys = 0
  count_missing (x ∷ xs) ys =
      if contains ys x then count_missing xs ys else suc (count_missing xs ys)

  abbrev pub count_shared : List A → List A → ℕ
  count_shared [] ys = 0
  count_shared (x ∷ xs) ys = if contains ys x then suc (count_shared xs ys) else count_shared xs ys

  abbrev pub Distinct : List A → Type 0
  Distinct [] = Unit
  Distinct (x ∷ xs) = (contains xs x ≡ false) × Distinct xs

  abbrev pub SameSet : List A → List A → Type ℓ
  SameSet xs ys = (a : A) → contains xs a ≡ contains ys a

  pub Mem-contains : (a : A) (xs : List A) → contains xs a ≡ true → Memᴰ a xs
  Mem-contains a [] h = absurd (cc)
  Mem-contains a (x ∷ xs) h = elim (Bool-cases (e.beq x a)) [
    | inl q ↦ Memᴰ.head (sym ((e.beq_iff x a).0 q))
    | inr q ↦ Memᴰ.tail (Mem-contains a xs (ground (arith, h, q)))
  ]

  pub contains_of_Mem : (a : A) (xs : List A) → Memᴰ a xs → contains xs a ≡ true
  contains_of_Mem a [] p = absurd (Memᴰ.not-nil p)
  contains_of_Mem a (x ∷ xs) p = elim (Memᴰ.cases_cons p) [
    | inl q ↦ ground (arith, (e.beq_iff x a).1 (sym q))
    | inr q ↦ ground (arith, contains_of_Mem a xs q)
  ]

  pub insert-Distinct : (a : A) (xs : List A) → Distinct xs → Distinct (insert a xs)
  insert-Distinct a xs d = ground arith

  pub contains-insert :
      (a : A) (xs : List A) (b : A) → contains (insert a xs) b ≡ (e.beq a b || contains xs b)
  contains-insert a xs b = ground (arith, e.beq_iff a b)

  pub contains-append :
      (xs ys : List A) (a : A) → contains (xs ++ ys) a ≡ (contains xs a || contains ys a)
  contains-append [] ys a = refl
  contains-append (x ∷ xs) ys a = ground (arith, contains-append xs ys a)

  pub append-Distinct :
      (xs : List A) (a : A) → contains xs a ≡ false → Distinct xs → Distinct (xs ++ (a ∷ []))
  append-Distinct [] a h d = (refl, tt)
  append-Distinct (x ∷ xs) a h d = (
    ground (arith, contains-append xs (a ∷ []) x, e.beq_iff x a, e.beq_iff a x, h, d.0),
    append-Distinct xs a (ground (arith, h)) d.1,
  )

  pub missing-add-shared : (xs ys : List A) → count_missing xs ys + count_shared xs ys ≡ length xs
  missing-add-shared [] ys = refl
  missing-add-shared (x ∷ xs) ys = ground (arith, missing-add-shared xs ys)

  -- the members of `ys` that equal `x` count as one, `ys` being distinct
  shared-cons :
      (x : A) (xs ys : List A)
      → contains xs x ≡ false
      → Distinct ys
      → count_shared ys (x ∷ xs)
        ≡ (if contains ys x then suc (count_shared ys xs) else count_shared ys xs)
  shared-cons x xs [] h d = refl
  shared-cons x xs (y ∷ ys) h d =
      ground (arith, shared-cons x xs ys h d.1, e.beq_iff x y, e.beq_iff y x)

  shared-nil : (ys : List A) → count_shared ys [] ≡ 0
  shared-nil [] = refl
  shared-nil (y ∷ ys) = shared-nil ys

  pub shared_comm :
      (xs ys : List A) → Distinct xs → Distinct ys → count_shared xs ys ≡ count_shared ys xs
  shared_comm [] ys dx dy = sym (shared-nil ys)
  shared_comm (x ∷ xs) ys dx dy =
      ground (arith, shared_comm xs ys dx.1 dy, shared-cons x xs ys dx.0 dy)

  -- With nothing of `xs` missing from `ys`, every member of `xs` is one of `ys`.
  pub contains_of_missing_zero :
      (xs ys : List A) (a : A)
      → count_missing xs ys ≡ 0
      → contains xs a ≡ true
      → contains ys a ≡ true
  contains_of_missing_zero [] ys a h m = ground arith
  contains_of_missing_zero (x ∷ xs) ys a h m =
      ground (arith, contains_of_missing_zero xs ys a, e.beq_iff x a)

  pub missing_zero_of_contains :
      (xs ys : List A)
      → ((a : A) → contains xs a ≡ true → contains ys a ≡ true)
      → count_missing xs ys ≡ 0
  missing_zero_of_contains [] ys h = refl
  missing_zero_of_contains (x ∷ xs) ys h = ground (
    arith,
    h x (rw ((e.beq_iff x x).1 refl)),
    missing_zero_of_contains xs ys (λ a m. h a (ground (arith, m))),
  )

  pub SameSet-of_missing :
      (xs ys : List A) → count_missing xs ys ≡ 0 → count_missing ys xs ≡ 0 → SameSet xs ys
  SameSet-of_missing xs ys h k a =
      ground (arith, contains_of_missing_zero xs ys a, contains_of_missing_zero ys xs a)

  -- How many are missing the other way, from the sizes of the sets.
  pub missing_other :
      (xs ys : List A)
      → Distinct xs
      → Distinct ys
      → length ys - (length xs - count_missing xs ys) ≡ count_missing ys xs
  missing_other xs ys dx dy =
      ground (arith, missing-add-shared xs ys, missing-add-shared ys xs, shared_comm xs ys dx dy)

  -- Sets of one size are equal when one has all members of the other.
  pub SameSet-of_size :
      (xs ys : List A)
      → Distinct xs
      → Distinct ys
      → length xs ≡ length ys
      → count_missing xs ys ≡ 0
      → SameSet xs ys
  SameSet-of_size xs ys dx dy l h =
      SameSet-of_missing xs ys h (
        ground (arith, missing-add-shared xs ys, missing-add-shared ys xs, shared_comm xs ys dx dy))

  shared-cons_old :
      (x : A) (xs ys : List A)
      → contains xs x ≡ true
      → count_shared ys (x ∷ xs) ≡ count_shared ys xs
  shared-cons_old x xs [] h = refl
  shared-cons_old x xs (y ∷ ys) h = ground (arith, shared-cons_old x xs ys h, e.beq_iff x y)

  shared_le : (xs ys : List A) → Distinct ys → count_shared ys xs ≤ count_shared xs ys
  shared_le [] ys d = rw (shared-nil ys) (omega arith)
  shared_le (x ∷ xs) ys d = elim (Bool-cases (contains xs x)) [
    | inl old ↦ ground (arith, shared_le xs ys d, shared-cons_old x xs ys old)
    | inr new ↦ ground (arith, shared_le xs ys d, shared-cons x xs ys new d)
  ]

  pub length_le_of_missing :
      (xs ys : List A) → Distinct ys → count_missing ys xs ≡ 0 → length ys ≤ length xs
  length_le_of_missing xs ys d h =
      ground (arith, shared_le xs ys d, missing-add-shared xs ys, missing-add-shared ys xs)

  -- The pigeonhole principle: a set inside a list that is as long as it has all of the list.
  pub missing_zero_of_length :
      (xs ys : List A)
      → Distinct ys
      → count_missing ys xs ≡ 0
      → length ys ≡ length xs
      → count_missing xs ys ≡ 0
  missing_zero_of_length xs ys d h l =
      ground (arith, shared_le xs ys d, missing-add-shared xs ys, missing-add-shared ys xs)

  missing_le : (us xs : List A) (a : A) → count_missing us (a ∷ xs) ≤ count_missing us xs
  missing_le [] xs a = omega arith
  missing_le (u ∷ us) xs a = ground (arith, missing_le us xs a)

  -- A new element of the list that is counted against makes the count smaller.
  pub missing_lt :
      (us xs : List A) (a : A)
      → contains us a ≡ true
      → contains xs a ≡ false
      → count_missing us (a ∷ xs) < count_missing us xs
  missing_lt [] xs a h k = absurd (cc)
  missing_lt (u ∷ us) xs a h k =
      ground (arith, missing_lt us xs a, missing_le us xs a, e.beq_iff u a, e.beq_iff a u, h, k)

  pub missing_of_SameSet : (xs ys : List A) → SameSet xs ys → count_missing xs ys ≡ 0
  missing_of_SameSet xs ys s = missing_zero_of_contains xs ys (λ a m. sym (s a) ∙ m)

-- The image of a set.
module _ {ℓ κ} {A : Type ℓ} {B : Type κ} ⦃e : Eq A⦄ ⦃d : Eq B⦄ (f : A → B) where
  pub contains-map : (xs : List A) (a : A) → contains xs a ≡ true → contains (map f xs) (f a) ≡ true
  contains-map [] a h = absurd (cc)
  contains-map (x ∷ xs) a h =
      ground (arith, e.beq_iff x a, d.beq_iff (f x) (f a), contains-map xs a)

  map-subset :
      (xs ys : List A) (y : B)
      → ((a : A) → contains xs a ≡ true → contains ys a ≡ true)
      → contains (map f xs) y ≡ true
      → contains (map f ys) y ≡ true
  map-subset [] ys y sub h = absurd (cc)
  map-subset (x ∷ xs) ys y sub h = elim (Bool-cases (d.beq (f x) y)) [
    | inl same ↦
        subst (λ (z : B). contains (map f ys) z ≡ true) ((d.beq_iff (f x) y).0 same)
          (contains-map ys x (sub x (ground (arith, e.beq_iff x x))))
    | inr differs ↦
        map-subset xs ys y (λ a m. sub a (ground (arith, m))) (ground (arith, differs, h))
  ]

  pub map-SameSet : (xs ys : List A) → SameSet xs ys → SameSet (map f xs) (map f ys)
  map-SameSet xs ys s y =
      ground (arith, map-subset xs ys y (λ a m. sym (s a) ∙ m), map-subset ys xs y (λ a m. s a ∙ m))
