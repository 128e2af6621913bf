-- ===== src/Examples/Spreads.antt =====
-- The loop for owl:someValuesFrom, at small inputs.
use mathlib.Core.List.{Memᴰ}
use mathlib.Core.Logic.{◌↔◌}
use rdf_reasoner_konclude.Base.{
  ◌≡◌, refl, List, [], ◌∷◌, ◌++◌, true, false, nat_eq, list_eq, pair_eq,
}
use rdf_reasoner_konclude.Base.Sets.{contains, Distinct}
use rdf_reasoner_konclude.Base.Loops.{for_each}
use rdf_reasoner_konclude.Wire.Table.{Text}
use rdf_reasoner_konclude.Scan.Terms.{bytes}
use rdf_reasoner_konclude.Scan.Batch.{role_key}
use rdf_reasoner_konclude.Infer.Spread.{spread, spread_rounds, spread_round}
use rdf_reasoner_konclude.Infer.Spread.Closure.{Follows, given, step}
use rdf_reasoner_konclude.Infer.Spread.Ends.{
  Emits, first_state, spread-ends, spread-Follows, spread-emits, spread-Emits,
}

-- c has a restriction to some d by p, and d one to some c; x has p to y and y has p to x.
abbrev index : List (Text × List (Text × Text))
index = (bytes "c", (bytes "p", bytes "d") ∷ []) ∷ (bytes "d", (bytes "p", bytes "c") ∷ []) ∷ []

abbrev roles : List (Text × List Text)
roles =
    (bytes "x" ++ (0 ∷ bytes "p"), bytes "y" ∷ [])
    ∷ (bytes "y" ++ (0 ∷ bytes "p"), bytes "x" ∷ [])
    ∷ []

abbrev start : List (Text × Text)
start = (bytes "x", bytes "c") ∷ []

abbrev note : Text → Text → List (Text × Text) → List (Text × Text)
note value class out = out ++ ((value, class) ∷ [])

spread-ends_example : (spread index roles note start []).changed ≡ false
spread-ends_example = spread-ends index roles note start []

spread-Follows_example :
    (contains (spread index roles note start []).types (bytes "y", bytes "d") ≡ true)
    ↔ Follows index roles start (bytes "y", bytes "d")
spread-Follows_example = spread-Follows index roles note start [] (bytes "y", bytes "d")

y_is_d : Follows index roles start (bytes "y", bytes "d")
unfolding role_key
y_is_d =
    step (bytes "x", bytes "c") (bytes "y", bytes "d") (given (bytes "x", bytes "c") refl)
      record {
        entries = (bytes "p", bytes "d") ∷ [];
        prop = bytes "p";
        values = bytes "y" ∷ [];
        has_class = refl;
        is_entry = Memᴰ.head refl;
        has_values = refl;
        is_value = Memᴰ.head refl;
      }

spread-emits_example :
    (found : List (Text × Text)) × (((spread index roles note start []).out
        ≡ for_each (λ (y : Text × Text) o. note y.0 y.1 o) found [])
      × (Distinct found × (contains found (bytes "y", bytes "d") ≡ true)))
spread-emits_example = spread-emits index roles note start [] (bytes "y", bytes "d") y_is_d refl

spread-Emits_example :
    Emits index roles note
      (first_state index roles note start [])
      (spread index roles note start [])
spread-Emits_example = spread-Emits index roles note start []

found_types : (spread index roles note start []).out ≡ (bytes "y", bytes "d") ∷ []
unfolding spread spread_rounds spread_round role_key
found_types = refl
