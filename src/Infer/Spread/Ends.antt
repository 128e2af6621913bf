-- ===== src/Infer/Spread/Ends.antt =====
-- The loop for owl:someValuesFrom: that it ends, and what it finds and emits.
use native.Mathlib.Omega.{arith}
use mathlib.Core.Path.{refl, sym, ap, subst, ◌∙◌}
use mathlib.Core.Logic.{inl, inr, ◌↔◌}
use rdf_reasoner_konclude.Base.{
  ◌||◌, ℕ, zero, suc, ◌<◌, ◌≡◌, List, [], ◌∷◌, ◌++◌, Bool, true, false, nat_eq, ◌==◌, list_eq,
  pair_eq, Bool-cases, length, pair_beq_iff,
}
use rdf_reasoner_konclude.Base.Sets.{contains, count_missing, missing-add-shared}
use rdf_reasoner_konclude.Base.Loops.{for_each, unless_keeps, for_each-append}
use rdf_reasoner_konclude.Wire.Table.{Text}
use rdf_reasoner_konclude.Infer.Spread.{Spread, give, spread_round, spread_rounds}
use rdf_reasoner_konclude.Base.Sets.{contains-append}
use rdf_reasoner_konclude.Infer.Spread.{spread}
use rdf_reasoner_konclude.Infer.Spread.Closure.{
  Follows, given, step, spread_round-keeps, spread_rounds-AllFollow,
}
use rdf_reasoner_konclude.Base.Sets.{append-Distinct, Distinct, contains-append}
use rdf_reasoner_konclude.Infer.Spread.Rounds.{
  universe, Closed, spread_round-reaches, spread_round-Progress,
}

module _ {ℓ} {Out : Type ℓ} (index : List (Text × List (Text × Text)))
    (roles : List (Text × List Text)) (emit : Text → Text → Out → Out) where
  spread_round-Closed :
      (st : Spread Out)
      → (spread_round index roles emit st).changed ≡ false
      → Closed index roles (spread_round index roles emit st).types
  spread_round-Closed st h x y inside by =
      spread_round-reaches index roles emit x y st
        (subst (λ ts. contains ts x ≡ true)
          ((spread_round-Progress index roles emit st).unchanged h) inside)
        by

  spread_rounds-ends :
      (rounds : ℕ) (st : Spread Out)
      → count_missing (universe index roles) st.types < rounds
      → ((spread_rounds index roles emit rounds st).changed ≡ false)
        × Closed index roles (spread_rounds index roles emit rounds st).types
  unfolding spread_rounds
  spread_rounds-ends zero st h = absurd (omega arith)
  spread_rounds-ends (suc rounds) st h =
      elim (Bool-cases (spread_round index roles emit st).changed) [
        | inl q ↦ rw q (
            spread_rounds-ends rounds (spread_round index roles emit st)
              (omega (arith, h, (spread_round-Progress index roles emit st).fewer q)))
        | inr q ↦ rw q (q, spread_round-Closed st q)
      ]

  -- From all types at the start, the loop is left because a round finds nothing new, not because the
  -- rounds of the model are used up.
  pub spread-ends :
      (start : List (Text × Text)) (out : Out) → (spread index roles emit start out).changed ≡ false
  unfolding spread
  spread-ends start out =
      (spread_rounds-ends (suc (length (universe index roles)))
        record { types = start; changed = true; out = out }
        (omega (arith, missing-add-shared (universe index roles) start))).0

  spread-Closed :
      (start : List (Text × Text)) (out : Out)
      → Closed index roles (spread index roles emit start out).types
  unfolding spread
  spread-Closed start out =
      (spread_rounds-ends (suc (length (universe index roles)))
        record { types = start; changed = true; out = out }
        (omega (arith, missing-add-shared (universe index roles) start))).1

  -- What the rounds have found and emitted since a state.
  pub record Emits (st m : Spread Out) : Type ℓ where
    pub found : List (Text × Text)
    pub types : (z : Text × Text) → contains m.types z ≡ (contains found z || contains st.types z)
    pub out : m.out ≡ for_each (λ (x : Text × Text) o. emit x.0 x.1 o) found st.out
    pub distinct : Distinct found
    pub apart : (z : Text × Text) → contains found z ≡ true → contains st.types z ≡ false

  nothing-Emits : (st : Spread Out) (changed : Bool) → Emits st record st { changed = changed }
  nothing-Emits st changed = record {
    found = [];
    types = λ z. refl;
    out = refl;
    distinct = tt;
    apart = λ z e. absurd (cc);
  }

  give-Emits :
      (st m : Spread Out) (y : Text × Text)
      → Emits st m
      → Emits st (give index roles emit y.1 y.0 m)
  give-Emits st m y h = elim (Bool-cases (contains m.types (y.0, y.1))) [
    | inl q ↦ rw q h
    | inr q ↦ rw q record {
      found = h.found ++ (y ∷ []);
      types = λ z. ground (arith, h.types z, contains-append h.found (y ∷ []) z);
      out = ap (emit y.0 y.1) h.out ∙ sym (for_each-append _ h.found (y ∷ []) st.out);
      distinct = append-Distinct h.found y (ground (arith, h.types y, q)) h.distinct;
      apart = λ z e. elim (Bool-cases (y == z)) [
        | inl same ↦
            subst (λ u. contains st.types u ≡ false) ((pair_beq_iff y z).0 same)
              (ground (arith, h.types y, q))
        | inr other ↦ h.apart z (ground (arith, e, other, contains-append h.found (y ∷ []) z))
      ];
    }
  ]

  spread_rounds-Emits :
      (first : Spread Out) (rounds : ℕ) (st : Spread Out)
      → Emits first st
      → Emits first (spread_rounds index roles emit rounds st)
  unfolding spread_rounds
  spread_rounds-Emits first zero st h = h
  spread_rounds-Emits first (suc rounds) st h =
      let next : Emits first (spread_round index roles emit st) =
        spread_round-keeps index roles emit (Emits first) st
          (λ x y m inside by held. give-Emits first m y held)
          record {
            found = h.found;
            types = h.types;
            out = h.out;
            distinct = h.distinct;
            apart = h.apart;
          } in
      unless_keeps (Emits first) (spread_round index roles emit st).changed
        (spread_rounds-Emits first rounds (spread_round index roles emit st) next) next

  -- The first state of the loop.
  abbrev pub first_state : List (Text × Text) → Out → Spread Out
  first_state start out = record { types = start; changed = true; out = out }

  -- The types that the loop adds to the given ones are distinct and not among them, and the output
  -- comes from one call of emitTriple for each of them.
  pub spread-Emits :
      (start : List (Text × Text)) (out : Out)
      → Emits (first_state start out) (spread index roles emit start out)
  unfolding spread
  spread-Emits start out =
      spread_rounds-Emits (first_state start out) (suc (length (universe index roles)))
        (first_state start out) (nothing-Emits (first_state start out) true)

  -- At the end of the loop a type is there exactly when it follows from the given types by any number
  -- of steps, each by an entry of the class and a role assertion.
  pub spread-Follows :
      (start : List (Text × Text)) (out : Out) (x : Text × Text)
      → (contains (spread index roles emit start out).types x ≡ true) ↔ Follows index roles start x
  unfolding spread
  spread-Follows start out x = (
    spread_rounds-AllFollow index roles emit start (suc (length (universe index roles)))
        (first_state start out) (λ z q. given z q) x,
    finds x,
  )
    where
      finds :
          (z : Text × Text)
          → Follows index roles start z
          → contains (spread index roles emit start out).types z ≡ true
      finds z (given _ q) = ground (arith, q, (spread-Emits start out).types z)
      finds z (step w _ f by) = spread-Closed start out w z (finds w f) by

  -- Every type that follows and is not given is emitted: the output comes from one call of emitTriple
  -- for each of some types, of which it is one.
  pub spread-emits :
      (start : List (Text × Text)) (out : Out) (x : Text × Text)
      → Follows index roles start x
      → contains start x ≡ false
      → (found : List (Text × Text)) × (((spread index roles emit start out).out
            ≡ for_each (λ (y : Text × Text) o. emit y.0 y.1 o) found out)
          × (Distinct found × (contains found x ≡ true)))
  spread-emits start out x f new =
      let e = spread-Emits start out in
      (
        e.found,
        (e.out, (e.distinct, ground (arith, new, e.types x, (spread-Follows start out x).1 f))),
      )
