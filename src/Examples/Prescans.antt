-- ===== src/Examples/Prescans.antt =====
-- The pre-scan, at small inputs.
use rdf_reasoner_konclude.Base.{
  ℕ, ◌+◌, ◌≡◌, refl, List, [], ◌∷◌, none, some, nat_eq, list_eq, pair_eq,
}
use rdf_reasoner_konclude.Base.Dicts.{lookup}
use rdf_reasoner_konclude.Wire.Table.{Text}
use rdf_reasoner_konclude.Wire.Emit.{Triple}
use rdf_reasoner_konclude.Wire.Intern.{id_index, id_tag}
use rdf_reasoner_konclude.Scan.Terms.{bytes, is_named, is_term, find_term}
use rdf_reasoner_konclude.Scan.Lines.{nt_line, work_key, rdf_type_iri, domain_iri}
use rdf_reasoner_konclude.Scan.Prescan.{
  PreVocabulary, pre_vocabulary, Derived, triples_by_subject, inverse_map,
}
use rdf_reasoner_konclude.Scan.Prescan.Domains.{declarations, scan_domains}
use rdf_reasoner_konclude.Scan.Prescan.Restrictions.{
  restrictions, class_restrictions, typed_as, scan_restrictions,
}
use rdf_reasoner_konclude.Scan.Prescan.Intersections.{
  walk_list, typed_members, intersection_lists, scan_intersections,
}
use mathlib.Core.List.{Memᴰ}
use rdf_reasoner_konclude.Base.{some_injective, arith}
use rdf_reasoner_konclude.Base.Sets.{contains_of_Mem, Mem-contains}
use rdf_reasoner_konclude.Scan.Prescan.Intersections.{walk_rounds}
use rdf_reasoner_konclude.Scan.Prescan.Walk.{ListOf, end, cell, walk_list-take}
use rdf_reasoner_konclude.Scan.Prescan.Backed.{Backed}
use rdf_reasoner_konclude.Scan.Prescan.Whole.{prescan, prescan-Backed, prescan-keeps_justification}

abbrev owl_has_self : Text
owl_has_self = bytes "http://www.w3.org/2002/07/owl#hasSelf"

abbrev on_property_iri : Text
on_property_iri = bytes "http://www.w3.org/2002/07/owl#onProperty"

abbrev equivalent_class_iri : Text
equivalent_class_iri = bytes "http://www.w3.org/2002/07/owl#equivalentClass"

-- p (3) has the domain c (4); d (5) is what has p to itself, by the blank node 9; x is 6 and y is 7.
abbrev names : List Text
names =
    rdf_type_iri
    ∷ domain_iri
    ∷ on_property_iri
    ∷ bytes "p"
    ∷ bytes "c"
    ∷ bytes "d"
    ∷ bytes "x"
    ∷ bytes "y"
    ∷ owl_has_self
    ∷ bytes "r"
    ∷ equivalent_class_iri
    ∷ bytes "true"
    ∷ []

-- The node has the type tag of blank nodes, the literal that of literals.
abbrev blank_node : ℕ
blank_node = 1073741824 + 9

abbrev truth : ℕ
truth = 2147483648 + 11

abbrev statements : List Triple
statements =
    (3, (1, 4))
    ∷ (blank_node, (2, 3))
    ∷ (blank_node, (8, truth))
    ∷ (5, (10, blank_node))
    ∷ (6, (3, 7))
    ∷ (7, (3, 7))
    ∷ []

abbrev nothing_derived : Derived
nothing_derived = record { justifications = []; self_types = []; intersection_types = [] }

abbrev x_justified : Derived
x_justified = record nothing_derived {
  justifications = (work_key (bytes "x") rdf_type_iri (bytes "c"), bytes "given") ∷ [];
}

prescan-Backed_example :
    Backed names statements nothing_derived (prescan names statements nothing_derived)
prescan-Backed_example = prescan-Backed names statements nothing_derived

found_self_types :
    (prescan names statements nothing_derived).self_types ≡ (bytes "y", bytes "d") ∷ []
unfolding prescan pre_vocabulary find_term is_named is_term id_index id_tag declarations
    scan_domains restrictions class_restrictions typed_as inverse_map triples_by_subject
    scan_restrictions walk_list typed_members intersection_lists scan_intersections work_key nt_line
found_self_types = refl

prescan-keeps_justification_example :
    lookup
      (work_key (bytes "x") rdf_type_iri (bytes "c"))
      (prescan names statements x_justified).justifications
    ≡ some (bytes "given")
unfolding work_key
prescan-keeps_justification_example =
    prescan-keeps_justification names statements x_justified
      (work_key (bytes "x") rdf_type_iri (bytes "c")) (bytes "given") refl

-- A list of two members: rdf:first is 1, rdf:rest 2 and rdf:nil 3.
abbrev list_words : PreVocabulary
list_words = record {
  domain = none;
  range = none;
  rdf_type = none;
  on_property = none;
  has_value = none;
  all_values_from = none;
  some_values_from = none;
  intersection_of = none;
  has_self = none;
  equivalent_class = none;
  sub_class_of = none;
  rdf_first = some 1;
  rdf_rest = some 2;
  rdf_nil = some 3;
  inverse_of = none;
}

abbrev list_triples : List Triple
list_triples = (10, (1, 5)) ∷ (10, (2, 11)) ∷ (11, (1, 6)) ∷ (11, (2, 3)) ∷ []

only_5 : (x : ℕ) → Memᴰ (10, (1, x)) list_triples → x ≡ 5
only_5 x m = ground (arith, contains_of_Mem (10, (1, x)) list_triples m)

only_11 : (x : ℕ) → Memᴰ (10, (2, x)) list_triples → x ≡ 11
only_11 x m = ground (arith, contains_of_Mem (10, (2, x)) list_triples m)

only_6 : (x : ℕ) → Memᴰ (11, (1, x)) list_triples → x ≡ 6
only_6 x m = ground (arith, contains_of_Mem (11, (1, x)) list_triples m)

only_3 : (x : ℕ) → Memᴰ (11, (2, x)) list_triples → x ≡ 3
only_3 x m = ground (arith, contains_of_Mem (11, (2, x)) list_triples m)

two_cells-ListOf : ListOf list_words list_triples 10 (5 ∷ 6 ∷ [])
unfolding id_index
two_cells-ListOf =
    cell 5 11 (6 ∷ []) (λ h. omega (arith, some_injective h))
      record {
        predicate = 1;
        is_kind = refl;
        is_triple = Mem-contains (10, (1, 5)) list_triples refl;
        only = only_5;
      }
      record {
        predicate = 2;
        is_kind = refl;
        is_triple = Mem-contains (10, (2, 11)) list_triples refl;
        only = only_11;
      }
      (cell 6 3 [] (λ h. omega (arith, some_injective h))
        record {
          predicate = 1;
          is_kind = refl;
          is_triple = Mem-contains (11, (1, 6)) list_triples refl;
          only = only_6;
        }
        record {
          predicate = 2;
          is_kind = refl;
          is_triple = Mem-contains (11, (2, 3)) list_triples refl;
          only = only_3;
        }
        (end refl))

walk_list-take_example :
    walk_list list_words (triples_by_subject list_triples) walk_rounds 10 ≡ 5 ∷ 6 ∷ []
walk_list-take_example = walk_list-take list_words list_triples 10 (5 ∷ 6 ∷ []) two_cells-ListOf
