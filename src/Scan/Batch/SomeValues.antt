-- ===== src/Scan/Batch/SomeValues.antt =====
-- The restrictions of owl:someValuesFrom by class, and the assertions that they need.
use rdf_reasoner_konclude.Base.{
  ℕ, List, [], ◌∷◌, ◌++◌, ◌&&◌, if◌then◌else◌, none, some, nat_eq, list_eq, pair_eq, ◌==◌, length,
}
use rdf_reasoner_konclude.Base.Dicts.{lookup, assign}
use rdf_reasoner_konclude.Base.Sets.{contains}
use rdf_reasoner_konclude.Base.Loops.{for_each, when_some}
use rdf_reasoner_konclude.Base.Entries.{push_value}
use rdf_reasoner_konclude.Wire.Table.{Text}
use rdf_reasoner_konclude.Wire.Intern.{id_index}
use rdf_reasoner_konclude.Wire.Emit.{Triple}
use rdf_reasoner_konclude.Scan.Terms.{text_at, is_named, is_term}
use rdf_reasoner_konclude.Base.{ltb}
use rdf_reasoner_konclude.Scan.Batch.{
  BatchVocabulary, BatchMaps, Batch, on_class_axiom, property_indices, role_assertions, is_blank,
}
use rdf_reasoner_konclude.Base.{map}

-- confirmedRestrictions: the property and the filler of each node that has both
abbrev pub confirm_some : BatchMaps → ℕ → List (ℕ × (ℕ × ℕ)) → List (ℕ × (ℕ × ℕ))
confirm_some m node confirmed =
    when_some (λ prop. when_some (λ filler. assign node (prop, filler)) (lookup node m.fillers))
      (lookup node m.properties) confirmed

unfoldable pub confirmed_some : BatchMaps → List (ℕ × (ℕ × ℕ))
confirmed_some m = for_each (confirm_some m) m.nodes []

-- An entry of a class is pushed unless it is there.
abbrev pub add_entry :
    Text → Text × Text → List (Text × List (Text × Text)) → List (Text × List (Text × Text))
add_entry class e index =
    if contains (elim (lookup class index) [ none ↦ [] | some es ↦ es ]) e
    then index
    else push_value class e index

module _ (terms : List Text) where
  abbrev pub add_some : ℕ → ℕ × ℕ → Batch → Batch
  add_some class (prop, filler) d =
      if ltb (id_index class) (length terms) && ltb prop (length terms) && ltb filler (length terms)
      then record d {
        svf_index =
            add_entry (text_at terms (id_index class)) (text_at terms prop, text_at terms filler)
              d.svf_index;
      }
      else d

  abbrev pub add_some_node : List (ℕ × (ℕ × ℕ)) → ℕ → ℕ → Batch → Batch
  add_some_node confirmed class node d = when_some (add_some class) (lookup node confirmed) d

  unfoldable pub index_some : BatchVocabulary → List (ℕ × (ℕ × ℕ)) → List Triple → Batch → Batch
  unfolding is_term is_named is_blank
  index_some v confirmed ts d =
      if length confirmed == 0
      then d
      else for_each (on_class_axiom v (add_some_node confirmed)) ts d

  -- The properties of all entries.
  unfoldable pub entry_properties : List (Text × List (Text × Text)) → List Text
  entry_properties [] = []
  entry_properties ((class, es) ∷ index) =
      map (λ (e : Text × Text). e.0) es ++ entry_properties index

  abbrev pub keep_some_roles : List Triple → Batch → Batch
  keep_some_roles ts d =
      if length d.svf_index == 0
      then d
      else (let props = property_indices terms (entry_properties d.svf_index) in
          if length props == 0 then d else record d {
            svf_role_assertions = role_assertions terms props ts d.svf_role_assertions;
          })

  abbrev pub add_type : BatchVocabulary → Triple → List (Text × Text) → List (Text × Text)
  add_type v (s, (p, o)) types =
      if is_term v.rdf_type p
        && is_named s
        && is_named o
        && ltb (id_index s) (length terms)
        && ltb (id_index o) (length terms)
      then types ++ ((text_at terms (id_index s), text_at terms (id_index o)) ∷ [])
      else types

  abbrev pub keep_types : BatchVocabulary → List Triple → Batch → Batch
  keep_types v ts d =
      if length d.svf_index == 0
      then d
      else record d { svf_abox_types = for_each (add_type v) ts d.svf_abox_types }

  unfoldable pub scan_some : BatchVocabulary → BatchMaps → List Triple → Batch → Batch
  unfolding index_some confirmed_some entry_properties property_indices role_assertions is_term
      is_named
  scan_some v m ts d = keep_types v ts (keep_some_roles ts (index_some v (confirmed_some m) ts d))
