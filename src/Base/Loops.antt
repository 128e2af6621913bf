-- ===== src/Base/Loops.antt =====
-- Loops over a container, searches in a map, and what they keep.
use rdf_reasoner_konclude.Base.Tests.{if◌then◌else◌}
use mathlib.Core.Path.{◌≡◌, refl, subst}
use mathlib.Core.Logic.{inl, inr}
use mathlib.Core.Bool.{Bool, true, false}
use mathlib.Core.Option.{Option, none, some}
use mathlib.Core.List.{Memᴰ, List, [], ◌∷◌, ◌++◌}
use mathlib.Core.List.Memᴰ

module _ {ℓ κ} {A : Type ℓ} {M : Type κ} where
  -- for (a : xs) m = f(a, m)
  abbrev pub for_each : (A → M → M) → List A → M → M
  for_each f [] m = m
  for_each f (x ∷ xs) m = for_each f xs (f x m)

  -- if (o) m = f(*o, m)
  abbrev pub when_some : (A → M → M) → Option A → M → M
  when_some f none m = m
  when_some f (some a) m = f a m

  module _ {μ} (I : M → Type μ) (f : A → M → M) where
    pub for_each-keeps :
        (xs : List A)
        → ((a : A) → Memᴰ a xs → (m : M) → I m → I (f a m))
        → (m : M) → I m
        → I (for_each f xs m)
    for_each-keeps [] step m h = h
    for_each-keeps (x ∷ xs) step m h =
        for_each-keeps xs (λ a p. step a (Memᴰ.tail p)) (f x m) (step x (Memᴰ.head refl) m h)

    pub when_some-keeps :
        (o : Option A) (m : M) → ((a : A) → o ≡ some a → I (f a m)) → I m → I (when_some f o m)
    when_some-keeps none m step h = h
    when_some-keeps (some a) m step h = step a refl

module _ {ℓ κ} {A : Type ℓ} {M : Type κ} where
  pub for_each-append :
      (f : A → M → M) (xs ys : List A) (m : M)
      → for_each f (xs ++ ys) m ≡ for_each f ys (for_each f xs m)
  for_each-append f [] ys m = refl
  for_each-append f (x ∷ xs) ys m = for_each-append f xs ys (f x m)

module _ {κ μ} {M : Type κ} (I : M → Type μ) where
  pub if_keeps : (c : Bool) {m n : M} → (c ≡ true → I n) → I m → I (if c then n else m)
  if_keeps true step h = step refl
  if_keeps false step h = h

  pub unless_keeps : (c : Bool) {m n : M} → I m → I n → I (if c then m else n)
  unless_keeps true kept changed = kept
  unless_keeps false kept changed = changed

-- What a loop reaches at one element, and keeps from there on.
module _ {ℓ κ μ} {A : Type ℓ} {M : Type κ} (Q : M → Type μ) (f : A → M → M)
    (keep : (b : A) (m : M) → Q m → Q (f b m)) where
  for_each-stays : (xs : List A) (m : M) → Q m → Q (for_each f xs m)
  for_each-stays [] m h = h
  for_each-stays (x ∷ xs) m h = for_each-stays xs (f x m) (keep x m h)

  pub for_each-reaches :
      (a : A) → ((m : M) → Q (f a m)) → (xs : List A) → Memᴰ a xs → (m : M) → Q (for_each f xs m)
  for_each-reaches a reach [] p m = absurd (Memᴰ.not-nil p)
  for_each-reaches a reach (x ∷ xs) p m = elim (Memᴰ.cases_cons p) [
    | inl q ↦ for_each-stays xs (f x m) (subst (λ b. Q (f b m)) q (reach m))
    | inr later ↦ for_each-reaches a reach xs later (f x m)
  ]
