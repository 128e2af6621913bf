-- ===== src/Examples/Wires.antt =====
-- String tables, interned ids and buffers, at small inputs.
use rdf_reasoner_konclude.Base.{
  ◌≡◌, ◌<◌, ◌+◌, ◌^◌, ◌++◌, List, [], ◌∷◌, length, get_or, get_elem?, some, arith, map, All,
}
use rdf_reasoner_konclude.Base.Words.{le_bytes, words_bytes}
use rdf_reasoner_konclude.Wire.Table.{Text, build, entry, entry-build}
use rdf_reasoner_konclude.Wire.Intern.{intern, empty_table, Resolves, id_index, id_tag}
use rdf_reasoner_konclude.Wire.Intern.History.{intern_all, intern_stable, intern_all-Resolves}
use rdf_reasoner_konclude.Wire.Emit.{
  Triple, Holds, added, emit_triple, nothing_emitted, nothing-Holds, emit_triple-Holds, flatten,
}
use rdf_reasoner_konclude.Wire.Buffer.{Explanations, assemble, total_len, length-assemble}
use rdf_reasoner_konclude.Wire.Buffer.Decode.{
  result_as_sorted_ntriples, print_lines, collect_lines, line_of,
}
use rdf_reasoner_konclude.Wire.Buffer.RoundTrip.{IsTriple, result-assemble}

-- "a", "bc" and "_:d"
abbrev words : List Text
words = (97 ∷ []) ∷ (98 ∷ 99 ∷ []) ∷ (95 ∷ 58 ∷ 100 ∷ []) ∷ []

abbrev triples : List Triple
triples = (0, (1, 0)) ∷ (0, (1, 2)) ∷ []

abbrev explained : Explanations
explained = record {
  axiom_triples = (0, (1, 0)) ∷ [];
  just_entries = record { hash = 2 ^ 33 + 7; axiom_indices = 0 ∷ [] } ∷ [];
  triple_mappings = (1, 0) ∷ [];
}

words_small : length (build words) < 2 ^ 32
unfolding build le_bytes words_bytes
words_small = omega arith

entry-build_example : entry (build words ++ (7 ∷ [])) (length (build words)) 1 ≡ 98 ∷ 99 ∷ []
entry-build_example = entry-build words (7 ∷ []) words_small 1 (omega arith)

intern_stable_example :
    intern (97 ∷ []) 0 (intern_all ((98 ∷ [], 1) ∷ []) (intern (97 ∷ []) 0 empty_table).1) ≡ (
      (intern (97 ∷ []) 0 empty_table).0,
      intern_all ((98 ∷ [], 1) ∷ []) (intern (97 ∷ []) 0 empty_table).1,
    )
intern_stable_example = intern_stable (97 ∷ []) 0 empty_table ((98 ∷ [], 1) ∷ [])

intern_all-Resolves_example :
    Resolves
      (intern_all
        ((98 ∷ [], 1) ∷ [])
        (intern (97 ∷ []) 2 (intern_all ((99 ∷ [], 0) ∷ []) empty_table)).1)
      (97 ∷ [])
      2
      (intern (97 ∷ []) 2 (intern_all ((99 ∷ [], 0) ∷ []) empty_table)).0
intern_all-Resolves_example =
    intern_all-Resolves ((99 ∷ [], 0) ∷ []) ((98 ∷ [], 1) ∷ []) (97 ∷ []) 2 (omega arith, tt)
      (omega arith) (omega arith)

emit_triple-Holds_example :
    Holds (added [] (0, (1, 2)) nothing_emitted) (emit_triple (0, (1, 2)) nothing_emitted).1
    × (get_elem? (added [] (0, (1, 2)) nothing_emitted) (emit_triple (0, (1, 2)) nothing_emitted).0
        ≡ some (0, (1, 2)))
emit_triple-Holds_example =
    emit_triple-Holds [] (0, (1, 2)) nothing_emitted nothing-Holds (omega arith)

length-assemble_example :
    length (assemble words (flatten triples) (some explained))
    ≡ total_len words (flatten triples) (some explained)
length-assemble_example = length-assemble words (flatten triples) (some explained) words_small

-- the type tags of an IRI, a blank node and a literal
abbrev shown : List Triple
shown = (0, (1, 2 ^ 30 + 2)) ∷ (0, (1, 0)) ∷ (0, (1, 2 ^ 31 + 1)) ∷ []

shown_fits : All (IsTriple (length words)) shown
unfolding id_index id_tag
shown_fits = ground arith

result-assemble_example :
    result_as_sorted_ntriples (assemble words (flatten shown) (some explained))
    ≡ print_lines (collect_lines [] (map (line_of (λ id. get_or words (id_index id) [])) shown))
result-assemble_example = result-assemble words shown (some explained) words_small shown_fits
