-- ===== src/Examples/Memberships.antt =====
-- The types that the scans have found, emitted at a small input.
use mathlib.Core.List.Memᴰ
use rdf_reasoner_konclude.Base.{◌≡◌, refl, [], ◌∷◌, true}
use rdf_reasoner_konclude.Wire.Intern.{empty_table, intern, intern_key, pack_id}
use rdf_reasoner_konclude.Wire.Emit.{nothing_emitted, emit_triple}
use rdf_reasoner_konclude.Base.Words.{mul64, xor64}
use rdf_reasoner_konclude.Scan.Terms.{bytes}
use rdf_reasoner_konclude.Scan.Lines.{rdf_type_iri, one_of_iri, work_key, nt_line, Justifications}
use rdf_reasoner_konclude.Scan.Prescan.{Derived}
use rdf_reasoner_konclude.Scan.Batch.{Batch}
use rdf_reasoner_konclude.Scan.Batch.Whole.{fresh_batch}
use rdf_reasoner_konclude.Infer.Axioms.{axiom_indices, parse_n_triples, lines_from, parse_line}
use rdf_reasoner_konclude.Infer.Memberships.{
  Report, emit_memberships, emit_type, explain, axiom_hash,
}
use rdf_reasoner_konclude.Infer.Memberships.Range.{InRange, emit_memberships-InRange}

-- c is one of a, as the justification says.
abbrev one_member : Batch
one_member = record (fresh_batch []) { one_of_memberships = (bytes "c", bytes "a") ∷ [] }

abbrev nothing_derived : Derived
nothing_derived = record { justifications = []; self_types = []; intersection_types = [] }

abbrev texts : Justifications
texts =
    (work_key (bytes "a") rdf_type_iri (bytes "c"), nt_line (bytes "c") one_of_iri (bytes "a")) ∷ []

abbrev empty_report : Report
empty_report = record {
  output = record { table = empty_table; emitted = nothing_emitted };
  explained = record {
    parts = record { axiom_triples = []; just_entries = []; triple_mappings = [] };
    just_dedup = [];
    axiom_dedup = [];
  };
}

emit_memberships-InRange_example :
    InRange (emit_memberships true texts nothing_derived one_member empty_report).explained
emit_memberships-InRange_example =
    emit_memberships-InRange true texts nothing_derived one_member empty_report record {
      mappings = λ t j p. absurd (Memᴰ.not-nil p);
      entries = λ e p. absurd (Memᴰ.not-nil p);
      just_known = λ k j p. absurd (Memᴰ.not-nil p);
      axiom_known = λ t i p. absurd (Memᴰ.not-nil p);
    }

one_mapping :
    (emit_memberships true texts nothing_derived one_member
      empty_report).explained.parts.triple_mappings
    ≡ (0, 0) ∷ []
unfolding emit_memberships emit_type explain axiom_hash axiom_indices parse_n_triples lines_from
    parse_line intern emit_triple work_key nt_line intern_key pack_id mul64 xor64
one_mapping = refl
