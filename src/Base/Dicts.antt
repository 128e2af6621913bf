-- ===== src/Base/Dicts.antt =====
-- `std::unordered_map` as an association list, one entry to a key.
use mathlib.Core.Path.{◌≡◌, refl}
use mathlib.Core.Bool.{false}
use mathlib.Core.List.{List, [], ◌∷◌}
use mathlib.Core.Option.{Option, none, some}
use native.Mathlib.Omega.{arith}
use rdf_reasoner_konclude.Base.Tests.{Eq, if◌then◌else◌}

module _ {ℓ κ} {K : Type ℓ} {V : Type κ} ⦃e : Eq K⦄ where
  -- m.find(k)
  abbrev pub lookup : K → List (K × V) → Option V
  lookup k [] = none
  lookup k ((j, v) ∷ m) = if e.beq j k then some v else lookup k m

  -- m[k] = v: an old value is overwritten where it stands
  abbrev pub assign : K → V → List (K × V) → List (K × V)
  assign k v [] = (k, v) ∷ []
  assign k v ((j, w) ∷ m) = if e.beq j k then (j, v) ∷ m else (j, w) ∷ assign k v m

  pub lookup-assign :
      (k j : K) (v : V) (m : List (K × V))
      → lookup j (assign k v m) ≡ (if e.beq k j then some v else lookup j m)
  lookup-assign k j v [] = refl
  lookup-assign k j v ((i, w) ∷ m) =
      ground (arith, e.beq_iff k j, e.beq_iff i k, e.beq_iff i j, lookup-assign k j v m)

  pub lookup-assign_self : (k : K) (v : V) (m : List (K × V)) → lookup k (assign k v m) ≡ some v
  lookup-assign_self k v m = ground (arith, lookup-assign k k v m, e.beq_iff k k)

  pub lookup-assign_ne :
      (k j : K) (v : V) (m : List (K × V))
      → e.beq k j ≡ false
      → lookup j (assign k v m) ≡ lookup j m
  lookup-assign_ne k j v m h = ground (arith, lookup-assign k j v m)
