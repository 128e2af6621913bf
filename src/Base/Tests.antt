-- ===== src/Base/Tests.antt =====
-- Boolean tests on the native numbers, the conditional, and equality as an interface.
use Prim.Native.Nat.{ℕ, ◌≤◌, ◌<◌, compare, Ordering}
use mathlib.Core.Path.{◌≡◌, refl}
use mathlib.Core.Logic.{◌↔◌, ◌⊎◌, inl, inr}
use mathlib.Core.Bool.{Bool, true, false, ◌&&◌}
use mathlib.Core.Option.{Option, none, some}
use mathlib.Core.List.{List, [], ◌∷◌}
use native.Mathlib.Omega.{arith}

abbrev pub ltb : ℕ → ℕ → Bool
ltb a b = elim (compare a b) [ Ordering.lt ↦ true | _ ↦ false ]

abbrev pub leb : ℕ → ℕ → Bool
leb a b = elim (compare a b) [ Ordering.gt ↦ false | _ ↦ true ]

abbrev pub nat_beq : ℕ → ℕ → Bool
nat_beq a b = elim (compare a b) [ Ordering.eq ↦ true | _ ↦ false ]

infix 1 if◌then◌else◌
abbrev pub if◌then◌else◌ {ℓ} : {A : Type ℓ} → Bool → A → A → A
if true then x else y = x
if false then x else y = y

pub ltb→lt : (a b : ℕ) → ltb a b ≡ true → a < b
ltb→lt a b h = ground arith

pub lt→ltb : (a b : ℕ) → a < b → ltb a b ≡ true
lt→ltb a b h = ground arith

pub leb→le : (a b : ℕ) → leb a b ≡ true → a ≤ b
leb→le a b h = ground arith

pub nat_beq_iff : (a b : ℕ) → (nat_beq a b ≡ true) ↔ (a ≡ b)
nat_beq_iff a b = ground arith

pub Bool-cases : (b : Bool) → (b ≡ true) ⊎ (b ≡ false)
Bool-cases true = inl refl
Bool-cases false = inr refl

pub Option-cases {ℓ} : {A : Type ℓ} (o : Option A) → (o ≡ none) ⊎ ((a : A) × (o ≡ some a))
Option-cases none = inl refl
Option-cases (some a) = inr (a, refl)

-- The `operator==` of a C++ type, with what it decides.
pub record Eq {ℓ} (Key : Type ℓ) : Type ℓ where
  pub beq : Key → Key → Bool
  pub beq_iff : (left right : Key) → (beq left right ≡ true) ↔ (left ≡ right)

-- std::vector and std::string
module _ {ℓ} {Item : Type ℓ} ⦃q : Eq Item⦄ where
  abbrev list_beq : List Item → List Item → Bool
  list_beq (i ∷ is) (j ∷ js) = q.beq i j && list_beq is js
  list_beq [] [] = true
  list_beq _ _ = false

  pub list_beq_iff : (is js : List Item) → (list_beq is js ≡ true) ↔ (is ≡ js)
  list_beq_iff (i ∷ is) (j ∷ js) = ground (arith, list_beq_iff is js, q.beq_iff i j)
  list_beq_iff (i ∷ is) [] = ground arith
  list_beq_iff [] (j ∷ js) = ground arith
  list_beq_iff [] [] = ground arith

  instance abbrev pub list_eq : Eq (List Item)
  list_eq = record { beq = list_beq; beq_iff = list_beq_iff }

-- std::pair and std::tuple
module _ {ℓ κ} {First : Type ℓ} {Second : Type κ} ⦃q : Eq First⦄ ⦃r : Eq Second⦄ where
  abbrev pair_beq : First × Second → First × Second → Bool
  pair_beq p u = q.beq p.0 u.0 && r.beq p.1 u.1

  pub pair_beq_iff : (p u : First × Second) → (pair_beq p u ≡ true) ↔ (p ≡ u)
  pair_beq_iff (x, y) (v, w) = ground (arith, r.beq_iff y w, q.beq_iff x v)

  instance abbrev pub pair_eq : Eq (First × Second)
  pair_eq = record { beq = pair_beq; beq_iff = pair_beq_iff }

pub some_injective {ℓ} : {A : Type ℓ} {a b : A} → some a ≡ some b → a ≡ b
some_injective e = cc

abbrev bool_beq : Bool → Bool → Bool
bool_beq true b = b
bool_beq false true = false
bool_beq false false = true

pub bool_beq_iff : (a b : Bool) → (bool_beq a b ≡ true) ↔ (a ≡ b)
bool_beq_iff a b = ground arith

instance abbrev pub bool_eq : Eq Bool
bool_eq = record { beq = bool_beq; beq_iff = bool_beq_iff }

instance abbrev pub nat_eq : Eq ℕ
nat_eq = record { beq = nat_beq; beq_iff = nat_beq_iff }

infix 50 ◌==◌
abbrev pub ◌==◌ {ℓ} : {Key : Type ℓ} ⦃q : Eq Key⦄ → Key → Key → Bool
◌==◌ ⦃q⦄ left right = q.beq left right
