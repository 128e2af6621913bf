-- ===== src/Wire/Buffer/Decode.antt =====
-- `resultAsSortedNTriples`: the decoder of the result buffer.
use rdf_reasoner_konclude.Base.{
  ℕ, zero, suc, ◌+◌, ◌*◌, List, [], ◌∷◌, ◌++◌, map, Bool, true, false, not, ◌&&◌, ltb, leb,
  if◌then◌else◌, length, nat_eq, pair_eq, list_eq, ◌==◌,
}
use rdf_reasoner_konclude.Base.Words.{word_at}
use rdf_reasoner_konclude.Wire.Table.{Text, slice}
use rdf_reasoner_konclude.Wire.Intern.{id_index, id_tag}
use rdf_reasoner_konclude.Wire.Emit.{Triple}
use rdf_reasoner_konclude.Wire.Buffer.{marker}

-- Lines in the order of `std::set<std::string>`: byte by byte, a prefix first.
abbrev pub text_lt : Text → Text → Bool
text_lt [] [] = false
text_lt [] (b ∷ bs) = true
text_lt (a ∷ as_) [] = false
text_lt (a ∷ as_) (b ∷ bs) = if ltb a b then true else if ltb b a then false else text_lt as_ bs

unfoldable pub insert_line : Text → List Text → List Text
insert_line l [] = l ∷ []
insert_line l (m ∷ ms) =
    if text_lt l m then l ∷ m ∷ ms else if text_lt m l then m ∷ insert_line l ms else m ∷ ms

-- v.substr(0, v.find('\0'))
unfoldable pub before_nul : Text → Text
before_nul [] = []
before_nul (c ∷ cs) = if c == 0 then [] else c ∷ before_nul cs

-- `str`: entry `id & 0x3FFFFFFF` of the table that begins at byte 4
unfoldable pub str : List ℕ → ℕ → Text
str b id =
    let n = word_at b 4 in
    let start = 8 + n * 4 in
    let idx = id_index id in
    slice b (start + word_at b (8 + idx * 4))
      (if ltb (idx + 1) n then start + word_at b (8 + (idx + 1) * 4) else 4 + word_at b 0)

-- `term`: <iri>, _:label or "value", by the type tag
unfoldable pub term_text : ℕ → Text → Text
unfolding before_nul
term_text zero v = b'<' ∷ (v ++ (b'>' ∷ []))
term_text (suc zero) v = b'_' ∷ b':' ∷ v
term_text (suc (suc tag)) v = b'"' ∷ (before_nul v ++ (b'"' ∷ []))

unfoldable pub line_of : (ℕ → Text) → Triple → Text
unfolding term_text
line_of text (s, (p, o)) =
    term_text (id_tag s) (text s)
    ++ (b' '
        ∷ (term_text (id_tag p) (text p)
            ++ (b' ' ∷ (term_text (id_tag o) (text o) ++ (b' ' ∷ b'.' ∷ [])))))

-- The loop over the triples, from byte `tp` on: it stops at the end and at the marker.
unfoldable pub read_triples : ℕ → List ℕ → ℕ → List Triple
read_triples zero b tp = []
read_triples (suc fuel) b tp =
    let rest = read_triples fuel b (tp + 12) in
    if leb (tp + 12) (length b) && not (word_at b tp == marker)
    then (word_at b tp, (word_at b (tp + 4), word_at b (tp + 8))) ∷ rest
    else []

unfoldable pub collect_lines : List Text → List Text → List Text
unfolding insert_line
collect_lines lines [] = lines
collect_lines lines (l ∷ ls) = collect_lines (insert_line l lines) ls

unfoldable pub print_lines : List Text → Text
print_lines [] = []
print_lines (l ∷ ls) = l ++ (b'\n' ∷ print_lines ls)

-- A triple takes 12 bytes, so the length of the buffer is enough fuel.
unfoldable pub result_as_sorted_ntriples : List ℕ → Text
unfolding read_triples line_of str collect_lines print_lines
result_as_sorted_ntriples b =
    if ltb (length b) 8
    then []
    else print_lines
        (collect_lines [] (map (line_of (str b)) (read_triples (length b) b (4 + word_at b 0))))
