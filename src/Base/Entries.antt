-- ===== src/Base/Entries.antt =====
-- What holds of all entries of a map.
use rdf_reasoner_konclude.Base.Tests.{Eq, if◌then◌else◌, Bool-cases}
use rdf_reasoner_konclude.Base.Dicts.{lookup, assign, lookup-assign}
use mathlib.Core.Path.{◌≡◌, refl, sym, ap, ap₂, subst, ◌∙◌}
use mathlib.Core.Logic.{◌⊎◌, inl, inr}
use mathlib.Core.Bool.{Bool}
use mathlib.Core.Option.{Option, none, some}
use mathlib.Core.List.{Memᴰ, List, [], ◌∷◌, ◌++◌}
use mathlib.Core.List.Memᴰ
use native.Mathlib.Omega.{arith}

module _ {ℓ κ} {K : Type ℓ} {V : Type κ} where
  abbrev pub Entries {μ} : (K → V → Type μ) → List (K × V) → Type (ℓ ⊔ κ ⊔ μ)
  Entries R m = (k : K) (v : V) → Memᴰ (k, v) m → R k v

  abbrev pub Groups {μ} : (K → V → Type μ) → List (K × List V) → Type (ℓ ⊔ κ ⊔ μ)
  Groups R m = (k : K) (vs : List V) (v : V) → Memᴰ (k, vs) m → Memᴰ v vs → R k v

  module _ ⦃e : Eq K⦄ where
    -- m[k].push_back(v)
    abbrev pub push_value : K → V → List (K × List V) → List (K × List V)
    push_value k v m = assign k (elim (lookup k m) [ none ↦ v ∷ [] | some vs ↦ vs ++ (v ∷ []) ]) m

module _ {ℓ κ} {K : Type ℓ} {V : Type κ} ⦃e : Eq K⦄ where
  pub Mem-lookup : (k : K) (v : V) (m : List (K × V)) → lookup k m ≡ some v → Memᴰ (k, v) m
  Mem-lookup k v [] h = absurd (cc)
  Mem-lookup k v ((j, w) ∷ m) h = elim (Bool-cases (e.beq j k)) [
    | inl q ↦ Memᴰ.head (ap₂ (λ a b. (a, b)) (sym ((e.beq_iff j k).0 q)) (ground (arith, h, q)))
    | inr q ↦ Memᴰ.tail (Mem-lookup k v m (ground (arith, h, q)))
  ]

  -- An entry of the new map is the new one or an old one.
  Mem-assign :
      (k : K) (v : V) (m : List (K × V)) (p : K × V)
      → Memᴰ p (assign k v m)
      → (p ≡ (k, v)) ⊎ Memᴰ p m
  Mem-assign k v [] p h = inl (Memᴰ.eq_of_singleton h)
  Mem-assign k v ((j, w) ∷ m) p h =
      let split = λ (c : Bool). Memᴰ p (if c then (j, v) ∷ m else (j, w) ∷ assign k v m) in
      elim (Bool-cases (e.beq j k)) [
        | inl q ↦ elim (Memᴰ.cases_cons (subst split q h)) [
          | inl new ↦ inl (new ∙ ap (λ a. (a, v)) ((e.beq_iff j k).0 q))
          | inr old ↦ inr (Memᴰ.tail old)
        ]
        | inr q ↦ elim (Memᴰ.cases_cons (subst split q h)) [
          | inl first ↦ inr (Memᴰ.head first)
          | inr later ↦ elim (Mem-assign k v m p later) [
            | inl new ↦ inl new
            | inr old ↦ inr (Memᴰ.tail old)
          ]
        ]
      ]

  pub assign-Entries {μ} :
      (R : K → V → Type μ) (k : K) (v : V) (m : List (K × V))
      → R k v
      → Entries R m
      → Entries R (assign k v m)
  assign-Entries R k v m new h j w p = elim (Mem-assign k v m (j, w) p) [
    | inl q ↦ subst (λ (x : K × V). R x.0 x.1) (sym q) new
    | inr old ↦ h j w old
  ]

module _ {ℓ κ} {K : Type ℓ} {V : Type κ} ⦃e : Eq K⦄ where
  pub push_value-Groups {μ} :
      (R : K → V → Type μ) (k : K) (v : V) (m : List (K × List V))
      → R k v
      → Groups R m
      → Groups R (push_value k v m)
  push_value-Groups R k v m new h j ws w p q =
      elim (Mem-assign k (elim (lookup k m) [ none ↦ v ∷ [] | some vs ↦ vs ++ (v ∷ []) ]) m (j, ws)
        p) [
          | inr old ↦ h j ws w old q
          | inl s ↦
              subst (λ i. R i w) (sym (ap (λ (x : K × List V). x.0) s))
                (member (lookup k m) refl (subst (Memᴰ w) (ap (λ (x : K × List V). x.1) s) q))
        ]
    where
      member :
          (o : Option (List V))
          → lookup k m ≡ o
          → Memᴰ w (elim o [ none ↦ v ∷ [] | some vs ↦ vs ++ (v ∷ []) ])
          → R k w
      member none s r = subst (R k) (sym (Memᴰ.eq_of_singleton r)) new
      member (some vs) s r = elim (Memᴰ.append_cases vs r) [
        | inl old ↦ h k vs w (Mem-lookup k vs m s) old
        | inr last ↦ subst (R k) (sym (Memᴰ.eq_of_singleton last)) new
      ]

module _ {κ} {V : Type κ} where
  abbrev pub stored : Option (List V) → List V
  stored none = []
  stored (some vs) = vs

  stored-pushed :
      (v : V) (o : Option (List V))
      → (elim o [ none ↦ v ∷ [] | some vs ↦ vs ++ (v ∷ []) ]) ≡ stored o ++ (v ∷ [])
  stored-pushed v none = refl
  stored-pushed v (some vs) = refl

-- The values of a key in a map of lists; a key without an entry has none.
module _ {ℓ κ} {K : Type ℓ} {V : Type κ} ⦃e : Eq K⦄ where
  abbrev pub values_of : K → List (K × List V) → List V
  values_of key m = stored (lookup key m)

  pub values_of-push_value :
      (k key : K) (v : V) (m : List (K × List V))
      → values_of key (push_value k v m)
        ≡ (if e.beq k key then values_of key m ++ (v ∷ []) else values_of key m)
  values_of-push_value k key v m =
      let w : List V = elim (lookup k m) [ none ↦ v ∷ [] | some vs ↦ vs ++ (v ∷ []) ] in
      elim (Bool-cases (e.beq k key)) [
        | inl q ↦
            ap stored (lookup-assign k key w m ∙ ap (λ b. if b then some w else lookup key m) q)
            ∙ (stored-pushed v (lookup k m)
                ∙ (ap (λ j. values_of j m ++ (v ∷ [])) ((e.beq_iff k key).0 q)
                    ∙ sym (ap (λ b. if b then values_of key m ++ (v ∷ []) else values_of key m) q)))
        | inr q ↦
            ap stored (lookup-assign k key w m ∙ ap (λ b. if b then some w else lookup key m) q)
            ∙ sym (ap (λ b. if b then values_of key m ++ (v ∷ []) else values_of key m) q)
      ]
