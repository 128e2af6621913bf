-- ===== src/Infer/Spread/Rounds.antt =====
-- What a round reaches, and how often a round can change something.
use native.Mathlib.Omega.{arith}
use mathlib.Core.Path.{refl, ap, subst}
use mathlib.Core.Logic.{inl, inr}
use mathlib.Core.List.{Memᴰ}
use mathlib.Core.List.Memᴰ
use rdf_reasoner_konclude.Base.{
  list_beq_iff, ◌<◌, ◌≤◌, ◌≡◌, List, [], ◌∷◌, true, false, nat_eq, ◌==◌, list_eq, pair_eq,
  Bool-cases, map,
}
use rdf_reasoner_konclude.Base.Dicts.{lookup}
use rdf_reasoner_konclude.Base.Entries.{Mem-lookup}
use rdf_reasoner_konclude.Base.Sets.{contains, count_missing, Mem-contains, contains_of_Mem}
use rdf_reasoner_konclude.Base.Loops.{for_each, for_each-keeps, when_some-keeps, for_each-reaches}
use rdf_reasoner_konclude.Wire.Table.{Text}
use rdf_reasoner_konclude.Scan.Batch.{role_key}
use rdf_reasoner_konclude.Infer.Spread.{Spread, give, spread_entry, spread_type, spread_round}
use rdf_reasoner_konclude.Base.Sets.{missing_lt, contains-append, contains-map}
use rdf_reasoner_konclude.Infer.Spread.{filler_classes, role_values, all_pairs}
use rdf_reasoner_konclude.Infer.Spread.Closure.{
  StepFrom, spread_round-keeps, give-keeps_type, give-gives,
}

contains-all_pairs :
    (vs classes : List Text) (v c : Text)
    → contains vs v ≡ true
    → contains classes c ≡ true
    → contains (all_pairs vs classes) (v, c) ≡ true
contains-all_pairs [] classes v c h k = absurd (cc)
contains-all_pairs (w ∷ vs) classes v c h k = elim (Bool-cases (w == v)) [
  | inl q ↦
      let here : contains {A = Text × Text} (map (λ (d : Text). (w, d)) classes) (v, c) ≡ true =
        subst (λ u. contains {A = Text × Text} (map (λ (d : Text). (w, d)) classes) (u, c) ≡ true)
          ((list_beq_iff w v).0 q) (contains-map (λ (d : Text). (w, d)) classes c k) in
      ground
        (arith, here, contains-append (map (λ d. (w, d)) classes) (all_pairs vs classes) (v, c))
  | inr q ↦ ground (
    arith,
    contains-append (map (λ d. (w, d)) classes) (all_pairs vs classes) (v, c),
    contains-all_pairs vs classes v c (ground (arith, h, q)) k,
  )
]

contains-role_values :
    (roles : List (Text × List Text)) (key : Text) (vs : List Text) (v : Text)
    → Memᴰ (key, vs) roles
    → Memᴰ v vs
    → contains (role_values roles) v ≡ true
contains-role_values [] key vs v p q = absurd (Memᴰ.not-nil p)
contains-role_values ((k, ws) ∷ roles) key vs v p q = elim (Memᴰ.cases_cons p) [
  | inl e ↦ ground (
    arith,
    contains-append ws (role_values roles) v,
    contains_of_Mem v ws (subst (Memᴰ v) (ap (λ (x : Text × List Text). x.1) e) q),
  )
  | inr later ↦
      ground (
        arith,
        contains-append ws (role_values roles) v,
        contains-role_values roles key vs v later q,
      )
]

contains-filler_classes :
    (index : List (Text × List (Text × Text))) (class : Text) (es : List (Text × Text))
    (e : Text × Text)
    → Memᴰ (class, es) index
    → Memᴰ e es
    → contains (filler_classes index) e.1 ≡ true
contains-filler_classes [] class es e p q = absurd (Memᴰ.not-nil p)
contains-filler_classes ((k, fs) ∷ index) class es e p q = elim (Memᴰ.cases_cons p) [
  | inl r ↦ ground (
    arith,
    contains-append (map (λ (e : Text × Text). e.1) fs) (filler_classes index) e.1,
    contains-map (λ (e : Text × Text). e.1) fs e
        (contains_of_Mem e fs (subst (Memᴰ e) (ap (λ (x : Text × List (Text × Text)). x.1) r) q)),
  )
  | inr later ↦ ground (
    arith,
    contains-append (map (λ (e : Text × Text). e.1) fs) (filler_classes index) e.1,
    contains-filler_classes index class es e later q,
  )
]

module _ (index : List (Text × List (Text × Text))) (roles : List (Text × List Text)) where
  abbrev pub universe : List (Text × Text)
  universe = all_pairs (role_values roles) (filler_classes index)

  universe-StepFrom : (x y : Text × Text) → StepFrom index roles x y → contains universe y ≡ true
  universe-StepFrom x y by =
      contains-all_pairs (role_values roles) (filler_classes index) y.0 y.1
        (contains-role_values roles (role_key x.0 by.prop) by.values y.0
          (Mem-lookup (role_key x.0 by.prop) by.values roles by.has_values) by.is_value)
        (contains-filler_classes index x.1 by.entries (by.prop, y.1)
          (Mem-lookup x.1 by.entries index by.has_class) by.is_entry)

  -- A set of types from which nothing new follows.
  abbrev pub Closed : List (Text × Text) → Type 0
  Closed types =
      (x y : Text × Text)
      → contains types x ≡ true
      → StepFrom index roles x y
      → contains types y ≡ true

  module _ {ℓ} {Out : Type ℓ} (emit : Text → Text → Out → Out) where
    entry-keeps_type :
        (z : Text × Text) (indi : Text) (e : Text × Text) (m : Spread Out)
        → contains m.types z ≡ true
        → contains (spread_entry index roles emit indi e m).types z ≡ true
    entry-keeps_type z indi e m h =
        when_some-keeps (λ (m' : Spread Out). contains m'.types z ≡ true)
          (for_each (give index roles emit e.1)) (lookup (role_key indi e.0) roles) m
          (λ vs q.
            for_each-keeps (λ (m' : Spread Out). contains m'.types z ≡ true)
              (give index roles emit e.1) vs
              (λ v p m' h'. give-keeps_type index roles emit z e.1 v m' h') m h)
          h

    type-keeps_type :
        (z x : Text × Text) (m : Spread Out)
        → contains m.types z ≡ true
        → contains (spread_type index roles emit x m).types z ≡ true
    type-keeps_type z x m h =
        when_some-keeps (λ (m' : Spread Out). contains m'.types z ≡ true)
          (for_each (spread_entry index roles emit x.0)) (lookup x.1 index) m
          (λ es q.
            for_each-keeps (λ (m' : Spread Out). contains m'.types z ≡ true)
              (spread_entry index roles emit x.0) es (λ e p m' h'. entry-keeps_type z x.0 e m' h') m
              h)
          h

    -- What follows from a type at the start of a round is there at its end.
    pub spread_round-reaches :
        (x y : Text × Text) (st : Spread Out)
        → contains st.types x ≡ true
        → StepFrom index roles x y
        → contains (spread_round index roles emit st).types y ≡ true
    unfolding spread_round
    spread_round-reaches x y st inside by =
        for_each-reaches (λ (m : Spread Out). contains m.types y ≡ true)
          (spread_type index roles emit) (type-keeps_type y) x reach_type st.types
          (Mem-contains x st.types inside) record st { changed = false }
      where
        reach_entry :
            (m : Spread Out)
            → contains (spread_entry index roles emit x.0 (by.prop, y.1) m).types y ≡ true
        reach_entry m = rw by.has_values (
            for_each-reaches (λ (m : Spread Out). contains m.types y ≡ true)
              (give index roles emit y.1) (λ v m h. give-keeps_type index roles emit y y.1 v m h)
              y.0 (give-gives index roles emit y.1 y.0) by.values by.is_value m)

        reach_type : (m : Spread Out) → contains (spread_type index roles emit x m).types y ≡ true
        reach_type m = rw by.has_class (
            for_each-reaches (λ (m : Spread Out). contains m.types y ≡ true)
              (spread_entry index roles emit x.0) (λ e m h. entry-keeps_type y x.0 e m h)
              (by.prop, y.1) reach_entry by.entries by.is_entry m)

    -- A round that changes nothing leaves the types as they are; another one leaves fewer to come.
    pub record Progress (st m : Spread Out) : Type 0 where
      pub unchanged : m.changed ≡ false → m.types ≡ st.types
      pub fewer :
          m.changed ≡ true → count_missing universe m.types < count_missing universe st.types
      pub no_more : count_missing universe m.types ≤ count_missing universe st.types

    give-Progress :
        (st : Spread Out) (y : Text × Text) (m : Spread Out)
        → contains universe y ≡ true
        → Progress st m
        → Progress st (give index roles emit y.1 y.0 m)
    give-Progress st y m known h = elim (Bool-cases (contains m.types (y.0, y.1))) [
      | inl q ↦ rw q h
      | inr q ↦
          let less = missing_lt universe m.types y known q in
          rw q record {
            unchanged = λ e. absurd (cc);
            fewer = λ e. omega (arith, less, h.no_more);
            no_more = omega (arith, less, h.no_more);
          }
    ]

    pub spread_round-Progress : (st : Spread Out) → Progress st (spread_round index roles emit st)
    spread_round-Progress st =
        spread_round-keeps index roles emit (Progress st) st
          (λ x y m inside by held. give-Progress st y m (universe-StepFrom x y by) held)
          record { unchanged = λ e. refl; fewer = λ e. absurd (cc); no_more = omega arith }
