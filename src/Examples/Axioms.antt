-- ===== src/Examples/Axioms.antt =====
-- Justifications as texts, at small inputs.
use rdf_reasoner_konclude.Base.{◌≡◌, refl, List, [], ◌∷◌}
use rdf_reasoner_konclude.Wire.Table.{Text}
use rdf_reasoner_konclude.Scan.Terms.{bytes}
use rdf_reasoner_konclude.Infer.Axioms.{parse_n_triples, lines_from, parse_line}
use rdf_reasoner_konclude.Infer.Axioms.RoundTrip.{nt_lines, parse_n_triples-nt_lines}

abbrev two_statements : List (Text × (Text × Text))
two_statements = (bytes "a", (bytes "p", bytes "b")) ∷ (bytes "b", (bytes "p", bytes "c")) ∷ []

parse_n_triples-nt_lines_example : parse_n_triples (nt_lines two_statements) ≡ two_statements
parse_n_triples-nt_lines_example = parse_n_triples-nt_lines two_statements (
  ((refl, refl), ((refl, refl), (refl, refl))),
  (((refl, refl), ((refl, refl), (refl, refl))), tt),
)

-- A line without angle brackets is passed over.
other_lines :
    parse_n_triples (bytes "\n# a note\n<a> <p> <b> .") ≡ (bytes "a", (bytes "p", bytes "b")) ∷ []
unfolding parse_n_triples lines_from parse_line
other_lines = refl
