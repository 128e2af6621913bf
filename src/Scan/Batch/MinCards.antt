-- ===== src/Scan/Batch/MinCards.antt =====
-- The restrictions of minimal cardinality, and the assertions that they need.
use rdf_reasoner_konclude.Base.{
  ℕ, List, [], ◌∷◌, ◌++◌, Bool, ◌&&◌, ◌||◌, if◌then◌else◌, Option, none, some, nat_eq, list_eq,
  pair_eq, ◌==◌, length,
}
use rdf_reasoner_konclude.Base.Dicts.{lookup, assign}
use rdf_reasoner_konclude.Base.Loops.{for_each, when_some}
use rdf_reasoner_konclude.Wire.Table.{Text}
use rdf_reasoner_konclude.Wire.Intern.{id_index}
use rdf_reasoner_konclude.Wire.Emit.{Triple}
use rdf_reasoner_konclude.Scan.Terms.{text_at, is_named, is_term}
use rdf_reasoner_konclude.Base.{ltb, ◌+◌}
use rdf_reasoner_konclude.Scan.Batch.{
  BatchVocabulary, BatchMaps, Batch, on_class_axiom, property_indices, role_assertions, is_blank,
  MinCardinality,
}
use rdf_reasoner_konclude.Base.{map, leb, ◌-◌, ◌*◌, ◌^◌}

-- std::stoi on a null-terminated string: spaces, a sign, then at least one digit; `none` for the
-- exception, which is also thrown outside of the 32-bit int
abbrev pub is_digit : ℕ → Bool
is_digit c = leb 48 c && leb c 57

abbrev is_space : ℕ → Bool
is_space c = (c == 32) || (leb 9 c && leb c 13)

unfoldable pub skip_spaces : Text → Text
skip_spaces [] = []
skip_spaces (c ∷ cs) = let rest = skip_spaces cs in if is_space c then rest else c ∷ cs

unfoldable pub digits_value : ℕ → Text → ℕ
digits_value n [] = n
digits_value n (c ∷ cs) =
    let value = digits_value (10 * n + (c - 48)) cs in if is_digit c then value else n

abbrev pub unsigned_value : Text → Option ℕ
unsigned_value [] = none
unsigned_value (c ∷ cs) = if is_digit c then some (digits_value 0 (c ∷ cs)) else none

-- What the caller asks of the value: whether it is a positive int, and which.
abbrev pub positive_int : Option ℕ → Option ℕ
positive_int none = none
positive_int (some n) = if ltb 0 n && ltb n (2 ^ 31) then some n else none

abbrev pub after_spaces : Text → Option ℕ
after_spaces [] = none
after_spaces (c ∷ cs) =
    if c == 45 then none else if c == 43 then unsigned_value cs else unsigned_value (c ∷ cs)

unfoldable pub positive_stoi : Text → Option ℕ
unfolding skip_spaces digits_value
positive_stoi cs = positive_int (after_spaces (skip_spaces cs))

-- The literal of a node: owl:minCardinality before owl:minQualifiedCardinality.
abbrev pub min_literal : BatchMaps → ℕ → Option ℕ
min_literal m node = elim (lookup node m.min_values) [
  | some l ↦ some l
  | none ↦ lookup node m.min_qualified_values
]

-- confirmedMinCards
abbrev pub confirm_min : BatchMaps → ℕ → List (ℕ × (ℕ × ℕ)) → List (ℕ × (ℕ × ℕ))
confirm_min m node confirmed =
    when_some (λ prop. when_some (λ literal. assign node (prop, literal)) (min_literal m node))
      (lookup node m.properties) confirmed

unfoldable pub confirmed_mins : BatchMaps → List (ℕ × (ℕ × ℕ))
confirmed_mins m = for_each (confirm_min m) m.nodes []

-- `chars` gives the null-terminated string that starts with the entry of the table.
module _ (terms : List Text) (chars : ℕ → Text) (m : BatchMaps) where
  -- the class of owl:onClass, or the empty string
  abbrev pub on_class_of : ℕ → Text
  on_class_of node = elim (lookup node m.on_classes) [
    | none ↦ []
    | some c ↦ if ltb c (length terms) then text_at terms c else []
  ]

  abbrev pub push_min : MinCardinality → Batch → Batch
  push_min r d = record d { min_card_restrictions = d.min_card_restrictions ++ (r ∷ []) }

  abbrev pub add_min : ℕ → ℕ → ℕ × ℕ → Batch → Batch
  add_min class node (prop, literal) d =
      if ltb (id_index class) (length terms)
        && ltb prop (length terms)
        && ltb (id_index literal) (length terms)
      then when_some
          (λ n. push_min record {
            class_iri = text_at terms (id_index class);
            property_iri = text_at terms prop;
            least = n;
            on_class_iri = on_class_of node;
          })
          (positive_stoi (chars (id_index literal))) d
      else d

  abbrev pub add_min_node : List (ℕ × (ℕ × ℕ)) → ℕ → ℕ → Batch → Batch
  add_min_node confirmed class node d = when_some (add_min class node) (lookup node confirmed) d

  unfoldable pub index_mins : BatchVocabulary → List (ℕ × (ℕ × ℕ)) → List Triple → Batch → Batch
  unfolding is_term is_named is_blank positive_stoi
  index_mins v confirmed ts d =
      if length confirmed == 0 then d else for_each (on_class_axiom v (add_min_node confirmed)) ts d

  abbrev pub keep_min_roles : List Triple → Batch → Batch
  keep_min_roles ts d =
      if length d.min_card_restrictions == 0
      then d
      else (let props =
            property_indices terms (map (λ r. r.property_iri) d.min_card_restrictions) in
          if length props == 0 then d else record d {
            min_card_role_assertions = role_assertions terms props ts d.min_card_role_assertions;
          })

  unfoldable pub scan_mins : BatchVocabulary → List Triple → Batch → Batch
  unfolding index_mins confirmed_mins property_indices role_assertions
  scan_mins v ts d = keep_min_roles ts (index_mins v (confirmed_mins m) ts d)
