-- ===== src/Infer/Spread/Closure.antt =====
-- What the loop reaches: the types that follow from those at its start.
use native.Mathlib.Omega.{arith}
use mathlib.Core.Path.{refl, subst}
use mathlib.Core.Logic.{inl, inr}
use mathlib.Core.List.{Memᴰ}
use rdf_reasoner_konclude.Base.{
  ℕ, zero, suc, ◌≡◌, List, ◌∷◌, true, false, some, nat_eq, ◌==◌, list_eq, pair_eq, Bool-cases,
  pair_beq_iff,
}
use rdf_reasoner_konclude.Base.Dicts.{lookup}
use rdf_reasoner_konclude.Base.Sets.{contains, contains_of_Mem}
use rdf_reasoner_konclude.Base.Loops.{for_each, for_each-keeps, when_some-keeps, unless_keeps}
use rdf_reasoner_konclude.Wire.Table.{Text}
use rdf_reasoner_konclude.Scan.Batch.{role_key}
use rdf_reasoner_konclude.Infer.Spread.{
  Spread, give, spread_entry, spread_type, spread_round, spread_rounds,
}

module _ (index : List (Text × List (Text × Text))) (roles : List (Text × List Text)) where
  -- A type follows from another by an entry of the class and a role assertion.
  pub record StepFrom (from to : Text × Text) : Type 0 where
    pub entries : List (Text × Text)
    pub prop : Text
    pub values : List Text
    pub has_class : lookup from.1 index ≡ some entries
    pub is_entry : Memᴰ (prop, to.1) entries
    pub has_values : lookup (role_key from.0 prop) roles ≡ some values
    pub is_value : Memᴰ to.0 values

  pub data Follows (start : List (Text × Text)) : Text × Text → Type 0 where
    given : (x : Text × Text) → contains start x ≡ true → Follows start x
    step : (x y : Text × Text) → Follows start x → StepFrom x y → Follows start y

  module _ {ℓ} {Out : Type ℓ} (emit : Text → Text → Out → Out) where
    -- What holds at the start of a round and is kept by each type that follows from one of the
    -- types then, holds at its end.
    pub spread_round-keeps {μ} :
        (I : Spread Out → Type μ) (st : Spread Out)
        → ((x y : Text × Text) (m : Spread Out)
            → contains st.types x ≡ true
            → StepFrom x y
            → I m
            → I (give index roles emit y.1 y.0 m))
        → I (record st { changed = false })
        → I (spread_round index roles emit st)
    unfolding spread_round
    spread_round-keeps I st keep h =
        for_each-keeps I (spread_type index roles emit) st.types
          (λ x mem m held.
            when_some-keeps I (for_each (spread_entry index roles emit x.0)) (lookup x.1 index) m
              (λ entries has_class.
                for_each-keeps I (spread_entry index roles emit x.0) entries
                  (λ e is_entry m' held'.
                    when_some-keeps I (for_each (give index roles emit e.1))
                      (lookup (role_key x.0 e.0) roles) m'
                      (λ values has_values.
                        for_each-keeps I (give index roles emit e.1) values
                          (λ v is_value m'' held''.
                            keep x (v, e.1) m'' (contains_of_Mem x st.types mem)
                              record {
                                entries = entries;
                                prop = e.0;
                                values = values;
                                has_class = has_class;
                                is_entry = is_entry;
                                has_values = has_values;
                                is_value = is_value;
                              }
                              held'')
                          m' held')
                      held')
                  m held)
              held)
          record st { changed = false } h

    abbrev pub AllFollow : List (Text × Text) → Spread Out → Type 0
    AllFollow start st = (x : Text × Text) → contains st.types x ≡ true → Follows start x

    give-AllFollow :
        (start : List (Text × Text)) (x y : Text × Text) (m : Spread Out)
        → Follows start x
        → StepFrom x y
        → AllFollow start m
        → AllFollow start (give index roles emit y.1 y.0 m)
    give-AllFollow start x y m from by h =
        unless_keeps (AllFollow start) (contains m.types (y.0, y.1)) h (λ z q.
          elim (Bool-cases ((y.0, y.1) == z)) [
            | inl e ↦ subst (Follows start) ((pair_beq_iff y z).0 e) (step x y from by)
            | inr e ↦ h z (ground (arith, q, e))
          ])

    spread_round-AllFollow :
        (start : List (Text × Text)) (st : Spread Out)
        → AllFollow start st
        → AllFollow start (spread_round index roles emit st)
    spread_round-AllFollow start st h =
        spread_round-keeps (AllFollow start) st
          (λ x y m inside by held. give-AllFollow start x y m (h x inside) by held) h

    pub spread_rounds-AllFollow :
        (start : List (Text × Text)) (rounds : ℕ) (st : Spread Out)
        → AllFollow start st
        → AllFollow start (spread_rounds index roles emit rounds st)
    unfolding spread_rounds
    spread_rounds-AllFollow start zero st h = h
    spread_rounds-AllFollow start (suc rounds) st h =
        let next = spread_round-AllFollow start st h in
        unless_keeps (AllFollow start) (spread_round index roles emit st).changed
          (spread_rounds-AllFollow start rounds (spread_round index roles emit st) next) next

    pub give-keeps_type :
        (z : Text × Text) (class value : Text) (m : Spread Out)
        → contains m.types z ≡ true
        → contains (give index roles emit class value m).types z ≡ true
    give-keeps_type z class value m h =
        unless_keeps (λ (m' : Spread Out). contains m'.types z ≡ true)
          (contains m.types (value, class)) {m = m}
          {n = record {
            types = (value, class) ∷ m.types;
            changed = true;
            out = emit value class m.out;
          }}
          h (ground (arith, h))

    pub give-gives :
        (class value : Text) (m : Spread Out)
        → contains (give index roles emit class value m).types (value, class) ≡ true
    give-gives class value m = elim (Bool-cases (contains m.types (value, class))) [
      | inl q ↦ rw q q
      | inr q ↦ rw q (ground (arith, (pair_beq_iff (value, class) (value, class)).1 refl))
    ]
