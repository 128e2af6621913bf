-- ===== src/Examples/Cardinalities.antt =====
-- The search for fillers that differ pairwise, at small inputs.
use mathlib.Core.Logic.{◌↔◌}
use rdf_reasoner_konclude.Base.{◌≡◌, refl, arith, List, [], ◌∷◌, true, false, take, length}
use rdf_reasoner_konclude.Wire.Table.{Text}
use rdf_reasoner_konclude.Scan.Terms.{bytes}
use rdf_reasoner_konclude.Infer.Cardinality.{Differences, is_satisfied, search_masks}
use rdf_reasoner_konclude.Infer.Cardinality.Search.{Among, all_differ, is_satisfied-Among}

abbrev differences : Differences
differences = (bytes "a", bytes "c" ∷ []) ∷ (bytes "c", bytes "a" ∷ []) ∷ []

abbrev fillers : List Text
fillers = bytes "a" ∷ bytes "b" ∷ bytes "c" ∷ []

is_satisfied-Among_example : (is_satisfied differences 2 fillers ≡ true) ↔ (
    (xs : List Text) × (Among xs (take 16 fillers)
      × ((length xs ≡ 2) × (all_differ differences xs ≡ true))))
is_satisfied-Among_example = is_satisfied-Among differences 2 fillers (omega arith)

two_of_three : is_satisfied differences 2 fillers ≡ true
unfolding is_satisfied search_masks
two_of_three = refl

not_three : is_satisfied differences 3 fillers ≡ false
unfolding is_satisfied search_masks
not_three = refl
