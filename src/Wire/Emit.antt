-- ===== src/Wire/Emit.antt =====
-- `emitTriple` of `buildInferredTripleBuffer` and `buildPropertyTripleBuffer`: each triple of ids is
-- written once, and the caller learns at which position.
use rdf_reasoner_konclude.Base.{
  some_injective, ℕ, zero, suc, ◌*◌, ◌/◌, ◌%◌, ◌^◌, ◌<◌, ◌≡◌, refl, sym, ap, ◌∙◌, List, [], ◌∷◌,
  ◌++◌, arith, length, get_elem?, none, some, nat_eq, pair_eq, list_eq, pair_beq_iff, ◌==◌,
  Option-cases, Bool-cases, ◌⊎◌, inl, inr,
}
use rdf_reasoner_konclude.Base.Dicts.{lookup, assign, lookup-assign_self, lookup-assign_ne}

abbrev pub Triple : Type 0
Triple = ℕ × (ℕ × ℕ)

pub record Emitted : Type 0 where
  -- tripleIds, flat; emittedTriples, from a triple to its position
  pub triple_ids : List ℕ
  pub positions : List (Triple × ℕ)

abbrev pub nothing_emitted : Emitted
nothing_emitted = record { triple_ids = []; positions = [] }

unfoldable pub emit_triple : Triple → Emitted → ℕ × Emitted
emit_triple (s, (p, o)) e = elim (lookup (s, (p, o)) e.positions) [
  | some at ↦ (at, e)
  | none ↦
      let at = length e.triple_ids / 3 % 2 ^ 32 in
      (
        at,
        record {
          triple_ids = e.triple_ids ++ (s ∷ p ∷ o ∷ []);
          positions = assign (s, (p, o)) at e.positions;
        },
      )
]

-- The flat array of ids that a list of triples makes.
abbrev pub flatten : List Triple → List ℕ
flatten [] = []
flatten ((s, (p, o)) ∷ ts) = s ∷ p ∷ o ∷ flatten ts

pub flatten-append : (ts us : List Triple) → flatten (ts ++ us) ≡ flatten ts ++ flatten us
flatten-append [] us = refl
flatten-append ((s, (p, o)) ∷ ts) us = rw (flatten-append ts us)

pub length-flatten : (ts : List Triple) → length (flatten ts) ≡ 3 * length ts
length-flatten [] = refl
length-flatten ((s, (p, o)) ∷ ts) = omega (arith, length-flatten ts)

-- The array holds `ts`, and the map gives exactly the positions at which they stand.
pub record Holds (ts : List Triple) (e : Emitted) : Type 0 where
  pub flat : e.triple_ids ≡ flatten ts
  pub sound : (t : Triple) (i : ℕ) → lookup t e.positions ≡ some i → get_elem? ts i ≡ some t
  pub complete : (t : Triple) (i : ℕ) → get_elem? ts i ≡ some t → lookup t e.positions ≡ some i

pub nothing-Holds : Holds [] nothing_emitted
nothing-Holds = record { flat = refl; sound = λ t i h. cc; complete = λ t i h. cc }

get_elem?-append_left :
    (ts us : List Triple) (i : ℕ) (t : Triple)
    → get_elem? ts i ≡ some t
    → get_elem? (ts ++ us) i ≡ some t
get_elem?-append_left [] us i t h = absurd (cc)
get_elem?-append_left (x ∷ ts) us zero t h = h
get_elem?-append_left (x ∷ ts) us (suc i) t h = get_elem?-append_left ts us i t h

get_elem?-last :
    (ts : List Triple) (t : Triple) (i : ℕ) → i ≡ length ts → get_elem? (ts ++ t ∷ []) i ≡ some t
get_elem?-last [] t zero e = refl
get_elem?-last [] t (suc i) e = absurd (omega arith)
get_elem?-last (x ∷ ts) t zero e = absurd (omega arith)
get_elem?-last (x ∷ ts) t (suc i) e = get_elem?-last ts t i (omega arith)

-- A member of the longer array is an old one, or the new one at the end.
get_elem?-snoc :
    (ts : List Triple) (t u : Triple) (i : ℕ)
    → get_elem? (ts ++ t ∷ []) i ≡ some u
    → (get_elem? ts i ≡ some u) ⊎ ((u ≡ t) × (i ≡ length ts))
get_elem?-snoc [] t u zero h = inr (cc, refl)
get_elem?-snoc [] t u (suc i) h = absurd (cc)
get_elem?-snoc (x ∷ ts) t u zero h = inl h
get_elem?-snoc (x ∷ ts) t u (suc i) h = elim (get_elem?-snoc ts t u i h) [
  | inl old ↦ inl old
  | inr (e, q) ↦ inr (e, ap suc q)
]

emit_old :
    (t : Triple) (e : Emitted) (i : ℕ) → lookup t e.positions ≡ some i → emit_triple t e ≡ (i, e)
unfolding emit_triple
emit_old t e i h = rw (h, emit_triple)

-- What the array and the map become when the triple is new.
abbrev appended : Triple → ℕ → Emitted → Emitted
appended t i e = record {
  triple_ids = e.triple_ids ++ (t.0 ∷ t.1.0 ∷ t.1.1 ∷ []);
  positions = assign t i e.positions;
}

emit_new :
    (t : Triple) (e : Emitted) (i : ℕ)
    → lookup t e.positions ≡ none
    → length e.triple_ids / 3 % 2 ^ 32 ≡ i
    → emit_triple t e ≡ (i, appended t i e)
unfolding emit_triple
emit_new t e i h p = rw (h, p, emit_triple)

-- The triples in the array after one more call.
abbrev pub added : List Triple → Triple → Emitted → List Triple
added ts t e = elim (lookup t e.positions) [ some _ ↦ ts | none ↦ ts ++ t ∷ [] ]

module _ (ts : List Triple) (t : Triple) (e : Emitted) (h : Holds ts e)
    (small : length ts < 2 ^ 32) where
  position : length e.triple_ids / 3 % 2 ^ 32 ≡ length ts
  position = rw h.flat (omega (arith, length-flatten ts))

  module _ (new : lookup t e.positions ≡ none) where
    appended_sound :
        (u : Triple) (i : ℕ)
        → lookup u (assign t (length ts) e.positions) ≡ some i
        → get_elem? (ts ++ t ∷ []) i ≡ some u
    appended_sound u i q = elim (Bool-cases (t == u)) [
      | inl same ↦
          let eq : t ≡ u = (pair_beq_iff t u).0 same in
          let at : length ts ≡ i = some_injective (
            sym (lookup-assign_self t (length ts) e.positions)
            ∙ (ap (λ (v : Triple). lookup v (assign t (length ts) e.positions)) eq ∙ q)) in
          get_elem?-last ts t i (sym at) ∙ ap some eq
      | inr differs ↦
          get_elem?-append_left ts (t ∷ []) i u
            (h.sound u i (sym (lookup-assign_ne t u (length ts) e.positions differs) ∙ q))
    ]

    appended_complete :
        (u : Triple) (i : ℕ)
        → get_elem? (ts ++ t ∷ []) i ≡ some u
        → lookup u (assign t (length ts) e.positions) ≡ some i
    appended_complete u i q = elim (get_elem?-snoc ts t u i q) [
      | inl old ↦
          let there : lookup u e.positions ≡ some i = h.complete u i old in
          elim (Bool-cases (t == u)) [
            | inl same ↦ absurd (cc (new, there, (pair_beq_iff t u).0 same))
            | inr differs ↦ lookup-assign_ne t u (length ts) e.positions differs ∙ there
          ]
      | inr (eq, at) ↦ rw (eq, at) (lookup-assign_self t (length ts) e.positions)
    ]

    appended-Holds : Holds (ts ++ t ∷ []) (appended t (length ts) e)
    appended-Holds = record {
      flat = rw (flatten-append ts (t ∷ []), h.flat);
      sound = appended_sound;
      complete = appended_complete;
    }

  -- The call returns the position at which the triple stands, old or new, and the rest is kept.
  pub emit_triple-Holds :
      Holds (added ts t e) (emit_triple t e).1
      × (get_elem? (added ts t e) (emit_triple t e).0 ≡ some t)
  emit_triple-Holds = elim (Option-cases (lookup t e.positions)) [
    | inl new ↦
        rw (emit_new t e (length ts) new position, new, added)
          (appended-Holds new, get_elem?-last ts t (length ts) refl)
    | inr (i, old) ↦ rw (emit_old t e i old, old, added) (h, h.sound t i old)
  ]
