-- ===== src/Infer/Spread.antt =====
-- The loop of `buildInferredTripleBuffer` for owl:someValuesFrom: it spreads types along role
-- assertions until nothing new is found.
pub mod Closure
pub mod Rounds
pub mod Ends
use rdf_reasoner_konclude.Base.{
  map, ◌++◌, length, ℕ, zero, suc, List, [], ◌∷◌, Bool, true, false, if◌then◌else◌, nat_eq, list_eq,
  pair_eq,
}
use rdf_reasoner_konclude.Base.Dicts.{lookup}
use rdf_reasoner_konclude.Base.Sets.{contains}
use rdf_reasoner_konclude.Base.Loops.{for_each, when_some}
use rdf_reasoner_konclude.Wire.Table.{Text}
use rdf_reasoner_konclude.Scan.Batch.{role_key}

-- allTypes, as a set of pairs of an individual and a class; `changed`; and what the calls of
-- emitTriple have made of the output
pub record Spread {ℓ} (Out : Type ℓ) : Type ℓ where
  pub types : List (Text × Text)
  pub changed : Bool
  pub out : Out

-- mSvfIndex, mSvfRoleAssertions, and the call of emitTriple for a type
module _ {ℓ} {Out : Type ℓ} (index : List (Text × List (Text × Text)))
    (roles : List (Text × List Text)) (emit : Text → Text → Out → Out) where
  -- `if (allTypes[fillerIri].insert(filler).second)`
  abbrev pub give : Text → Text → Spread Out → Spread Out
  give class value st = if contains st.types (value, class) then st else record {
    types = (value, class) ∷ st.types;
    changed = true;
    out = emit value class st.out;
  }

  abbrev pub spread_entry : Text → Text × Text → Spread Out → Spread Out
  spread_entry indi (prop, class) st =
      when_some (for_each (give class)) (lookup (role_key indi prop) roles) st

  abbrev pub spread_type : Text × Text → Spread Out → Spread Out
  spread_type (indi, class) st = when_some (for_each (spread_entry indi)) (lookup class index) st

  -- One round, over the types that there are at its start.
  unfoldable pub spread_round : Spread Out → Spread Out
  unfolding role_key
  spread_round st = for_each spread_type st.types record st { changed = false }

  -- `while (changed)`, with the number of rounds that are left
  unfoldable pub spread_rounds : ℕ → Spread Out → Spread Out
  unfolding spread_round
  spread_rounds zero st = st
  spread_rounds (suc rounds) st =
      let next = spread_round st in
      let rest = spread_rounds rounds next in if next.changed then rest else next

-- What a role assertion can give: each of the values with each of the filler classes.
abbrev pub filler_classes : List (Text × List (Text × Text)) → List Text
filler_classes [] = []
filler_classes ((class, es) ∷ index) = map (λ (e : Text × Text). e.1) es ++ filler_classes index

abbrev pub role_values : List (Text × List Text) → List Text
role_values [] = []
role_values ((key, vs) ∷ roles) = vs ++ role_values roles

abbrev pub all_pairs : List Text → List Text → List (Text × Text)
all_pairs [] classes = []
all_pairs (v ∷ vs) classes = map (λ c. (v, c)) classes ++ all_pairs vs classes

-- The loop from the first types on, with one round more than there are types that a round could add.
unfoldable pub spread {ℓ} :
    {Out : Type ℓ}
    → List (Text × List (Text × Text))
    → List (Text × List Text)
    → (Text → Text → Out → Out)
    → List (Text × Text)
    → Out
    → Spread Out
unfolding spread_rounds
spread index roles emit start out =
    spread_rounds index roles emit
      (suc (length (all_pairs (role_values roles) (filler_classes index))))
      record { types = start; changed = true; out = out }
