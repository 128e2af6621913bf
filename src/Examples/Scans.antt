-- ===== src/Examples/Scans.antt =====
-- The scans of the raw triples, at small inputs.
use rdf_reasoner_konclude.Base.{◌≡◌, refl, List, [], ◌∷◌, true, some}
use rdf_reasoner_konclude.Wire.Table.{Text}
use rdf_reasoner_konclude.Wire.Emit.{Triple}
use rdf_reasoner_konclude.Wire.Intern.{id_index, id_tag}
use rdf_reasoner_konclude.Scan.Terms.{is_named}
use rdf_reasoner_konclude.Scan.Functional.{
  add_same_as, Functional, scan_functional, functional_iri, is_skipped,
}
use rdf_reasoner_konclude.Scan.Lines.{rdf_type_iri}
use rdf_reasoner_konclude.Scan.Functional.Symmetric.{IsSymmetric, scan_functional-IsSymmetric}

-- p is functional: the indices are 0 for rdf:type, 1 for the class, 2 for p, 3 for x, 4 for b, 5 for c
abbrev terms : List Text
terms = rdf_type_iri ∷ functional_iri ∷ (112 ∷ []) ∷ (120 ∷ []) ∷ (98 ∷ []) ∷ (99 ∷ []) ∷ []

abbrev two_fillers : List Triple
two_fillers = (2, (0, 1)) ∷ (3, (2, 4)) ∷ (3, (2, 5)) ∷ []

abbrev one_filler_twice : List Triple
one_filler_twice = (2, (0, 1)) ∷ (3, (2, 4)) ∷ (3, (2, 4)) ∷ []

abbrev nothing_found : Functional
nothing_found = record { same_as_pairs = []; justifications = []; skipped = [] }

scan_functional-IsSymmetric_example :
    IsSymmetric (scan_functional true terms two_fillers nothing_found)
scan_functional-IsSymmetric_example =
    scan_functional-IsSymmetric true terms two_fillers nothing_found (λ a b. refl)

two_fillers_example :
    (scan_functional true terms two_fillers nothing_found).same_as_pairs
    ≡ (98 ∷ [], 99 ∷ []) ∷ (99 ∷ [], 98 ∷ []) ∷ []
unfolding scan_functional is_named id_index id_tag add_same_as
two_fillers_example = refl

-- A repeated triple counts as two fillers: the individual is paired with itself, and the declaration
-- of the property is left out.
one_filler_twice_pairs :
    (scan_functional true terms one_filler_twice nothing_found).same_as_pairs
    ≡ (98 ∷ [], 98 ∷ []) ∷ (98 ∷ [], 98 ∷ []) ∷ []
unfolding scan_functional is_named id_index id_tag add_same_as
one_filler_twice_pairs = refl

one_filler_twice_skipped :
    is_skipped (scan_functional true terms one_filler_twice nothing_found) (some 0) (2, (0, 1))
    ≡ true
unfolding scan_functional is_named id_index id_tag add_same_as is_skipped
one_filler_twice_skipped = refl
