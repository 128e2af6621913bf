-- ===== src/Scan/Prescan/Intersections.antt =====
-- Types from owl:intersectionOf.
use rdf_reasoner_konclude.Base.{
  ℕ, zero, suc, List, [], ◌∷◌, ◌++◌, ◌&&◌, if◌then◌else◌, Option, none, some, nat_eq, list_eq,
  pair_eq, ◌==◌, length,
}
use rdf_reasoner_konclude.Base.Dicts.{lookup, assign}
use rdf_reasoner_konclude.Base.Sets.{insert}
use rdf_reasoner_konclude.Base.Loops.{for_each}
use rdf_reasoner_konclude.Wire.Table.{Text}
use rdf_reasoner_konclude.Wire.Intern.{id_index}
use rdf_reasoner_konclude.Wire.Emit.{Triple}
use rdf_reasoner_konclude.Scan.Terms.{text_at, is_named, is_term}
use rdf_reasoner_konclude.Scan.Lines.{nt_line, work_key, rdf_type_iri}
use rdf_reasoner_konclude.Scan.Prescan.{
  is_present, PreVocabulary, Derived, Index, triples_by_subject,
}

-- intOfMap: the list of each class
abbrev pub add_intersection : PreVocabulary → Triple → List (ℕ × ℕ) → List (ℕ × ℕ)
add_intersection v (s, (p, o)) m =
    if is_term v.intersection_of p then assign (id_index s) o m else m

unfoldable pub intersection_lists : PreVocabulary → List Triple → List (ℕ × ℕ)
intersection_lists v ts = for_each (add_intersection v) ts []

-- firstVal and nextVal of a list node: what its last rdf:first and its last rdf:rest say
abbrev pub first_value : Option ℕ → List (ℕ × ℕ) → Option ℕ → Option ℕ
first_value rdf_first [] found = found
first_value rdf_first ((p, o) ∷ pos) found =
    first_value rdf_first pos (if is_term rdf_first p then some (id_index o) else found)

abbrev pub next_value : Option ℕ → List (ℕ × ℕ) → Option ℕ → Option ℕ
next_value rdf_rest [] found = found
next_value rdf_rest ((p, o) ∷ pos) found =
    next_value rdf_rest pos (if is_term rdf_rest p then some o else found)

abbrev pub with_first : Option ℕ → List ℕ → List ℕ
with_first none members = members
with_first (some m) members = m ∷ members

-- walkList, with the number of rounds that are left
unfoldable pub walk_list : PreVocabulary → Index → ℕ → ℕ → List ℕ
walk_list v spo zero cur = []
walk_list v spo (suc rounds) cur = if is_term v.rdf_nil cur then [] else elim (lookup cur spo) [
  | none ↦ []
  | some pos ↦
      with_first (first_value v.rdf_first pos none) (elim (next_value v.rdf_rest pos none) [
        | none ↦ []
        | some next ↦ walk_list v spo rounds next
      ])
]

abbrev pub walk_rounds : ℕ
walk_rounds = 100

-- indiTypes: the members that each individual is typed with
abbrev pub add_member : ℕ → ℕ → List (ℕ × List ℕ) → List (ℕ × List ℕ)
add_member indi m types =
    assign indi (insert m (elim (lookup indi types) [ none ↦ [] | some ms ↦ ms ])) types

abbrev pub add_if_member : ℕ → ℕ → ℕ → List (ℕ × List ℕ) → List (ℕ × List ℕ)
add_if_member s class m types = if class == m then add_member (id_index s) m types else types

abbrev pub add_typing : PreVocabulary → List ℕ → Triple → List (ℕ × List ℕ) → List (ℕ × List ℕ)
add_typing v members (s, (p, o)) types =
    if is_term v.rdf_type p && is_named s
    then for_each (add_if_member s (id_index o)) members types
    else types

unfoldable pub typed_members : PreVocabulary → List Triple → List ℕ → List (ℕ × List ℕ)
typed_members v ts members = for_each (add_typing v members) ts []

module _ (terms : List Text) where
  -- One line for each member.
  abbrev pub member_lines : ℕ → List ℕ → Text
  member_lines indi [] = []
  member_lines indi (m ∷ ms) =
      nt_line (text_at terms indi) rdf_type_iri (text_at terms m) ++ member_lines indi ms

  abbrev pub add_intersection_type : ℕ → ℕ → Text → Derived → Derived
  add_intersection_type indi class just d =
      elim (lookup (work_key (text_at terms indi) rdf_type_iri (text_at terms class))
        d.justifications) [
          | some old ↦ d
          | none ↦ record d {
            justifications =
                assign (work_key (text_at terms indi) rdf_type_iri (text_at terms class)) just
                  d.justifications;
            intersection_types =
                d.intersection_types ++ ((text_at terms indi, text_at terms class) ∷ []);
          }
        ]

  abbrev pub scan_individual : ℕ → List ℕ → ℕ × List ℕ → Derived → Derived
  scan_individual class members (indi, typed) d =
      if length typed == length members
      then add_intersection_type indi class (member_lines indi members) d
      else d

  module _ (v : PreVocabulary) (ts : List Triple) where
    abbrev pub scan_intersection : ℕ × ℕ → Derived → Derived
    scan_intersection (class, head) d =
        let members = walk_list v (triples_by_subject ts) walk_rounds head in
        if length members == 0
        then d
        else for_each (scan_individual class members) (typed_members v ts members) d

    unfoldable pub scan_intersections : Derived → Derived
    unfolding walk_list typed_members intersection_lists triples_by_subject nt_line work_key
    scan_intersections d =
        if is_present v.intersection_of && is_present v.rdf_type
        then for_each scan_intersection (intersection_lists v ts) d
        else d
