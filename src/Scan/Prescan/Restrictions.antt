-- ===== src/Scan/Prescan/Restrictions.antt =====
-- Types from owl:hasValue, owl:hasSelf, owl:allValuesFrom and owl:someValuesFrom.
use rdf_reasoner_konclude.Base.{
  ℕ, List, [], ◌∷◌, ◌++◌, Bool, true, false, ◌&&◌, ◌||◌, if◌then◌else◌, Option, none, some, nat_eq,
  list_eq, pair_eq, ◌==◌, length,
}
use rdf_reasoner_konclude.Base.Dicts.{lookup, assign}
use rdf_reasoner_konclude.Base.Sets.{contains}
use rdf_reasoner_konclude.Base.Loops.{for_each, when_some}
use rdf_reasoner_konclude.Base.Entries.{push_value}
use rdf_reasoner_konclude.Wire.Table.{Text}
use rdf_reasoner_konclude.Wire.Intern.{id_index}
use rdf_reasoner_konclude.Wire.Emit.{Triple}
use rdf_reasoner_konclude.Scan.Terms.{text_at, is_named, is_term}
use rdf_reasoner_konclude.Scan.Lines.{
  nt_line, work_key, rdf_type_iri, has_value_iri, inverse_of_iri,
}
use rdf_reasoner_konclude.Scan.Prescan.{
  is_present, PreVocabulary, Derived, justify, Index, inverse_map, triples_by_subject,
}
use rdf_reasoner_konclude.Scan.Prescan.Domains.{iri}

-- RestrInfo; `none` is UINT32_MAX
pub record Restriction : Type 0 where
  pub property : Option ℕ
  pub value : Option ℕ
  pub all_class : Option ℕ
  pub self : Bool
  pub some_class : Option ℕ

abbrev pub blank_restriction : Restriction
blank_restriction = record {
  property = none;
  value = none;
  all_class = none;
  self = false;
  some_class = none;
}

-- What one triple sets: onProperty, hasValue, allValuesFrom, hasSelf, someValuesFrom.
abbrev pub set_property : PreVocabulary → ℕ → ℕ → Restriction → Restriction
set_property v p o r =
    if is_term v.on_property p && is_named o then record r { property = some (id_index o) } else r

abbrev pub set_value : PreVocabulary → ℕ → ℕ → Restriction → Restriction
set_value v p o r = if is_term v.has_value p then record r { value = some (id_index o) } else r

abbrev pub set_all_class : PreVocabulary → ℕ → ℕ → Restriction → Restriction
set_all_class v p o r =
    if is_term v.all_values_from p && is_named o
    then record r { all_class = some (id_index o) }
    else r

abbrev pub set_self : PreVocabulary → ℕ → Restriction → Restriction
set_self v p r = if is_term v.has_self p then record r { self = true } else r

abbrev pub set_some_class : PreVocabulary → ℕ → ℕ → Restriction → Restriction
set_some_class v p o r =
    if is_term v.some_values_from p && is_named o
    then record r { some_class = some (id_index o) }
    else r

abbrev pub describe : PreVocabulary → ℕ → ℕ → Restriction → Restriction
describe v p o r =
    set_some_class v p o
      (set_self v p (set_all_class v p o (set_value v p o (set_property v p o r))))

-- Whether a triple makes an entry of restrMap.
abbrev pub is_description : PreVocabulary → ℕ → ℕ → Bool
is_description v p o =
    (is_term v.on_property p && is_named o)
    || is_term v.has_value p
    || (is_term v.all_values_from p && is_named o)
    || is_term v.has_self p
    || (is_term v.some_values_from p && is_named o)

abbrev pub info : Option Restriction → Restriction
info none = blank_restriction
info (some r) = r

-- restrMap
abbrev pub add_restriction :
    PreVocabulary → Triple → List (ℕ × Restriction) → List (ℕ × Restriction)
add_restriction v (s, (p, o)) m =
    if is_description v p o
    then assign (id_index s) (describe v p o (info (lookup (id_index s) m))) m
    else m

unfoldable pub restrictions : PreVocabulary → List Triple → List (ℕ × Restriction)
restrictions v ts = for_each (add_restriction v) ts []

-- classToRestr
abbrev pub add_class_restriction :
    PreVocabulary → List (ℕ × Restriction) → Triple → List (ℕ × List ℕ) → List (ℕ × List ℕ)
add_class_restriction v rs (s, (p, o)) m =
    if is_term v.equivalent_class p || is_term v.sub_class_of p
    then when_some (λ r. push_value (id_index s) (id_index o)) (lookup (id_index o) rs) m
    else m

unfoldable pub class_restrictions :
    PreVocabulary → List (ℕ × Restriction) → List Triple → List (ℕ × List ℕ)
class_restrictions v rs ts = for_each (add_class_restriction v rs) ts []

-- typedIndis, and fillerTyped as a list, of which only the members count
abbrev pub add_typed : PreVocabulary → ℕ → Triple → List ℕ → List ℕ
add_typed v class (s, (p, o)) indis =
    if is_term v.rdf_type p && is_named s && (id_index o == class)
    then indis ++ (id_index s ∷ [])
    else indis

unfoldable pub typed_as : PreVocabulary → ℕ → List Triple → List ℕ
typed_as v class ts = for_each (add_typed v class) ts []

-- A type by owl:hasSelf is emitted too.
abbrev pub add_self : Text → Text → Text → Derived → Derived
add_self indi class just d = elim (lookup (work_key indi rdf_type_iri class) d.justifications) [
  | some old ↦ d
  | none ↦ record d {
    justifications = assign (work_key indi rdf_type_iri class) just d.justifications;
    self_types = d.self_types ++ ((indi, class) ∷ []);
  }
]

module _ (terms : List Text) (ts : List Triple) where
  -- indi <prop> value, for one class and one restriction
  abbrev pub value_direct : ℕ → ℕ → ℕ → Triple → Derived → Derived
  value_direct class prop value (s, (p, o)) d =
      if is_named s && (id_index p == prop) && (id_index o == value)
      then justify (iri terms s) (text_at terms class)
          (nt_line (text_at terms prop) has_value_iri (text_at terms value)
            ++ nt_line (iri terms s) (text_at terms prop) (text_at terms value))
          d
      else d

  -- value <invProp> indi
  abbrev pub value_inverse : ℕ → ℕ → ℕ → ℕ → Triple → Derived → Derived
  value_inverse class prop value inverse (s, (p, o)) d =
      if (id_index p == inverse) && (id_index s == value) && is_named o
      then justify (iri terms o) (text_at terms class)
          (nt_line (text_at terms prop) inverse_of_iri (text_at terms inverse)
            ++ nt_line (text_at terms value) (text_at terms inverse) (iri terms o))
          d
      else d

  abbrev pub scan_value : List (ℕ × ℕ) → ℕ → ℕ → ℕ → Derived → Derived
  scan_value inverses class prop value d =
      when_some (λ inverse. for_each (value_inverse class prop value inverse) ts)
        (lookup prop inverses) (for_each (value_direct class prop value) ts d)

  abbrev pub self_direct : ℕ → ℕ → Triple → Derived → Derived
  self_direct class prop (s, (p, o)) d =
      if is_named s && (id_index p == prop) && (s == o)
      then add_self (iri terms s) (text_at terms class)
          (nt_line (iri terms s) (text_at terms prop) (iri terms s)) d
      else d

  -- x <prop> indi, of an x of the class
  abbrev pub all_filler : ℕ → ℕ → ℕ → ℕ → ℕ × ℕ → Derived → Derived
  all_filler class prop filler_class source (p, o) d =
      if (id_index p == prop) && is_named o
      then justify (iri terms o) (text_at terms filler_class)
          (nt_line (text_at terms source) rdf_type_iri (text_at terms class)
            ++ nt_line (text_at terms source) (text_at terms prop) (iri terms o))
          d
      else d

  abbrev pub scan_source : Index → ℕ → ℕ → ℕ → ℕ → Derived → Derived
  scan_source spo class prop filler_class source d =
      when_some (for_each (all_filler class prop filler_class source)) (lookup source spo) d

  -- indi <prop> target, of a target in the filler class
  abbrev pub some_direct : List ℕ → ℕ → ℕ → ℕ → Triple → Derived → Derived
  some_direct typed class prop filler_class (s, (p, o)) d =
      if is_named s && (id_index p == prop) && is_named o && contains typed (id_index o)
      then justify (iri terms s) (text_at terms class)
          (nt_line (iri terms s) (text_at terms prop) (iri terms o)
            ++ nt_line (iri terms o) rdf_type_iri (text_at terms filler_class))
          d
      else d

  -- target <invProp> indi
  abbrev pub some_inverse : List ℕ → ℕ → ℕ → ℕ → ℕ → Triple → Derived → Derived
  some_inverse typed class prop filler_class inverse (s, (p, o)) d =
      if (id_index p == inverse) && is_named s && is_named o && contains typed (id_index s)
      then justify (iri terms o) (text_at terms class)
          (nt_line (text_at terms prop) inverse_of_iri (text_at terms inverse)
            ++ (nt_line (iri terms s) (text_at terms inverse) (iri terms o)
                ++ nt_line (iri terms s) rdf_type_iri (text_at terms filler_class)))
          d
      else d

  abbrev pub scan_some : List (ℕ × ℕ) → List ℕ → ℕ → ℕ → ℕ → Derived → Derived
  scan_some inverses typed class prop filler_class d =
      if length typed == 0
      then d
      else when_some (λ inverse. for_each (some_inverse typed class prop filler_class inverse) ts)
          (lookup prop inverses) (for_each (some_direct typed class prop filler_class) ts d)

  module _ (v : PreVocabulary) where
    abbrev pub scan_all_values : ℕ → ℕ → ℕ → Derived → Derived
    scan_all_values class prop filler_class d =
        if is_present v.rdf_type
        then for_each (scan_source (triples_by_subject ts) class prop filler_class)
            (typed_as v class ts) d
        else d

    abbrev pub scan_some_values : ℕ → ℕ → ℕ → Derived → Derived
    scan_some_values class prop filler_class d =
        if is_present v.rdf_type
        then scan_some (inverse_map v ts) (typed_as v filler_class ts) class prop filler_class d
        else d

    abbrev pub scan_restriction : ℕ → Restriction → ℕ → Derived → Derived
    scan_restriction class r prop d = when_some (scan_some_values class prop) r.some_class (
        when_some (scan_all_values class prop) r.all_class (
          if r.self
          then for_each (self_direct class prop) ts
              (when_some (scan_value (inverse_map v ts) class prop) r.value d)
          else when_some (scan_value (inverse_map v ts) class prop) r.value d))

    abbrev pub scan_node : ℕ → ℕ → Derived → Derived
    scan_node class node d =
        let r = info (lookup node (restrictions v ts)) in
        when_some (scan_restriction class r) r.property d

    abbrev pub scan_class : ℕ × List ℕ → Derived → Derived
    scan_class (class, nodes) d = for_each (scan_node class) nodes d

    unfoldable pub scan_restrictions : Derived → Derived
    unfolding restrictions class_restrictions typed_as inverse_map triples_by_subject nt_line
        work_key
    scan_restrictions d =
        if is_present v.on_property
        then for_each scan_class (class_restrictions v (restrictions v ts) ts) d
        else d
