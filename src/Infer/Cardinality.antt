-- ===== src/Infer/Cardinality.antt =====
-- The part of `buildInferredTripleBuffer` that types individuals by minimal cardinalities, with its
-- search for fillers that differ pairwise.
pub mod Search
use rdf_reasoner_konclude.Base.{
  ℕ, zero, suc, ◌+◌, ◌*◌, ◌/◌, ◌%◌, ◌^◌, List, [], ◌∷◌, Bool, true, false, ◌&&◌, ◌||◌,
  if◌then◌else◌, ltb, Option, none, some, length, take, nat_eq, list_eq, ◌==◌,
}
use rdf_reasoner_konclude.Base.Dicts.{lookup}
use rdf_reasoner_konclude.Base.Sets.{contains}
use rdf_reasoner_konclude.Base.Loops.{for_each, when_some}
use rdf_reasoner_konclude.Wire.Table.{Text}
use rdf_reasoner_konclude.Wire.Intern.{intern}
use rdf_reasoner_konclude.Scan.Lines.{rdf_type_iri}
use rdf_reasoner_konclude.Scan.Batch.{MinCardinality, Batch, role_key}
use rdf_reasoner_konclude.Infer.Output.{Output, emit_named}

-- mDifferentFromPairs
abbrev pub Differences : Type 0
Differences = List (Text × List Text)

abbrev pub in_set : Option (List Text) → Text → Bool
in_set none g = false
in_set (some gs) g = contains gs g

abbrev pub differ : Differences → Text → Text → Bool
differ d f g = in_set (lookup f d) g

-- mask & 1; the next bits are those of mask / 2
abbrev pub is_odd : ℕ → Bool
is_odd mask = mask % 2 == 1

module _ (d : Differences) where
  -- the inner loop: a chosen filler with the chosen ones behind it
  abbrev pub others_differ : ℕ → Text → List Text → Bool
  others_differ mask f [] = true
  others_differ mask f (g ∷ gs) =
      let rest = others_differ (mask / 2) f gs in if is_odd mask then differ d f g && rest else rest

  -- allDistinct
  abbrev pub pairs_differ : ℕ → List Text → Bool
  pairs_differ mask [] = true
  pairs_differ mask (f ∷ fs) =
      let rest = pairs_differ (mask / 2) fs in
      if is_odd mask then others_differ (mask / 2) f fs && rest else rest

  -- __builtin_popcount, of a mask with a bit for each filler
  abbrev pub count_bits : ℕ → List Text → ℕ
  count_bits mask [] = 0
  count_bits mask (f ∷ fs) =
      let rest = count_bits (mask / 2) fs in if is_odd mask then suc rest else rest

  abbrev pub mask_fits : ℕ → List Text → ℕ → Bool
  mask_fits need fs mask = (count_bits mask fs == need) && pairs_differ mask fs

  -- the loop over the masks, downwards
  unfoldable pub search_masks : ℕ → List Text → ℕ → Bool
  search_masks need fs zero = false
  search_masks need fs (suc mask) =
      let rest = search_masks need fs mask in if mask_fits need fs mask then true else rest

  unfoldable pub is_satisfied : ℕ → List Text → Bool
  unfolding search_masks
  is_satisfied need fillers =
      if ltb (length fillers) need
      then false
      else if need == 1
      then true
      else search_masks need (take 16 fillers) (2 ^ length (take 16 fillers))

  -- One restriction and one individual.
  abbrev pub add_member_type : ℕ → MinCardinality → Text → List Text → Output → Output
  add_member_type type_id r indi fillers out =
      if is_satisfied r.least fillers then emit_named type_id indi r.class_iri out else out

  abbrev pub try_individual : ℕ → Batch → MinCardinality → Text → Output → Output
  try_individual type_id b r indi out =
      when_some (add_member_type type_id r indi)
        (lookup (role_key indi r.property_iri) b.min_card_role_assertions) out

  -- `individuals`: the names in Konclude's vector of individuals
  unfoldable pub emit_min_cards : List Text → Batch → Output → Output
  unfolding is_satisfied role_key emit_named intern
  emit_min_cards individuals b out =
      if (length b.min_card_restrictions == 0) || (length b.min_card_role_assertions == 0)
      then out
      else (let type_id = intern rdf_type_iri 0 out.table in
          for_each (λ r. for_each (try_individual type_id.0 b r) individuals)
            b.min_card_restrictions record out { table = type_id.1 })
