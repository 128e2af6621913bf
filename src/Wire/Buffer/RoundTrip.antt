-- ===== src/Wire/Buffer/RoundTrip.antt =====
-- Decoding the assembled result buffer.
use rdf_reasoner_konclude.Base.{
  ◌/◌, none, some, [], List, Option, ◌<◌, false, ltb, ℕ, zero, suc, ◌+◌, ◌-◌, ◌*◌, ◌%◌, ◌^◌, ◌≡◌,
  refl, sym, ap, ap₂, ◌∙◌, ◌∷◌, ◌++◌, arith, length, take, drop, get_or, All, length-append,
  drop-append_add, nat_eq, pair_eq, list_eq, ◌⊎◌, inl, inr,
}
use mathlib.Core.List.{map, append_assoc}
use rdf_reasoner_konclude.Base.Words.{
  u32_mod, IsWord, le_bytes, words_bytes, word_at, word_at-append, word_at-append_add,
  word_at-words_bytes, length-words_bytes, length-le_bytes,
}
use rdf_reasoner_konclude.Wire.Table.{
  entry-build, length-build_lem, count-build, Text, build, entry, table_count, table_end,
  table_offset, slice,
}
use rdf_reasoner_konclude.Wire.Intern.{id_index, id_tag}
use rdf_reasoner_konclude.Wire.Emit.{length-flatten, Triple, flatten}
use rdf_reasoner_konclude.Wire.Buffer.{explanation_words, Explanations, assemble, marker}
use rdf_reasoner_konclude.Wire.Buffer.Decode.{
  collect_lines, print_lines, result_as_sorted_ntriples, line_of, str, read_triples,
}

-- An id of a table of `n` strings, with one of the three type tags.
abbrev pub IsId : ℕ → ℕ → Type 0
IsId n id = (id_index id < n) × (id_tag id < 3)

abbrev pub IsTriple : ℕ → Triple → Type 0
IsTriple n (s, (p, o)) = IsId n s × IsId n p × IsId n o

id_below_marker : (n id : ℕ) → IsId n id → id < marker
unfolding id_tag
id_below_marker n id h = omega arith

flatten-words : (n : ℕ) (ts : List Triple) → All (IsTriple n) ts → All IsWord (flatten ts)
flatten-words n [] h = tt
flatten-words n ((s, (p, o)) ∷ ts) h = (
  omega (arith, id_below_marker n s h.0.0),
  (
    omega (arith, id_below_marker n p h.0.1),
    (omega (arith, id_below_marker n o h.0.2), flatten-words n ts h.1),
  ),
)

-- What may stand behind the triples: nothing, or the marker.
abbrev Ends : List ℕ → Type 0
Ends tail = (tail ≡ []) ⊎ ((more : List ℕ) × (tail ≡ le_bytes marker ++ more))

-- The `j`-th word of an array that stands behind `front`.
word_in :
    (front ws tail b : List ℕ) (tp j i : ℕ)
    → b ≡ front ++ (words_bytes ws ++ tail)
    → tp ≡ length front
    → All IsWord ws
    → j < length ws
    → i ≡ tp + 4 * j
    → word_at b i ≡ get_or ws j 0
word_in front ws tail b tp j i e at h l q =
    ap (λ (c : List ℕ). word_at c i) e
    ∙ (word_at-append_add front (words_bytes ws ++ tail) i (4 * j) (omega arith)
        ∙ word_at-words_bytes ws tail j (4 * j) h l refl)

length_of_parts :
    (front ws tail b : List ℕ)
    → b ≡ front ++ (words_bytes ws ++ tail)
    → length b ≡ length front + 4 * length ws + length tail
length_of_parts front ws tail b e = omega (
  arith,
  ap length e,
  length-append front (words_bytes ws ++ tail),
  length-append (words_bytes ws) tail,
  length-words_bytes ws,
)

-- The first three words of the array move to the front.
shift_front :
    (front tail b ws : List ℕ) (s p o : ℕ)
    → b ≡ front ++ (words_bytes (s ∷ p ∷ o ∷ ws) ++ tail)
    → b ≡ (front ++ words_bytes (s ∷ p ∷ o ∷ [])) ++ (words_bytes ws ++ tail)
unfolding words_bytes
shift_front front tail b ws s p o e =
    e ∙ sym (append_assoc front (words_bytes (s ∷ p ∷ o ∷ [])) (words_bytes ws ++ tail))

marked_front :
    (front tail b more : List ℕ)
    → b ≡ front ++ (words_bytes [] ++ tail)
    → tail ≡ le_bytes marker ++ more
    → b ≡ front ++ (words_bytes (marker ∷ []) ++ more)
unfolding words_bytes
marked_front front tail b more e marked = e ∙ ap (λ (c : List ℕ). front ++ c) marked

module _ (n : ℕ) where
  read-flatten :
      (fuel : ℕ) (ts : List Triple) (front tail b : List ℕ) (tp : ℕ)
      → b ≡ front ++ (words_bytes (flatten ts) ++ tail)
      → tp ≡ length front
      → All (IsTriple n) ts
      → Ends tail
      → length ts < fuel
      → read_triples fuel b tp ≡ ts
  unfolding read_triples
  read-flatten zero ts front tail b tp e at h q l = absurd (omega arith)
  read-flatten (suc fuel) [] front tail b tp e at h (inl none_left) l =
      ground (arith, length_of_parts front [] tail b e, ap length none_left)
  read-flatten (suc fuel) [] front tail b tp e at h (inr (more, marked)) l = ground (
    arith,
    word_in front (marker ∷ []) more b tp 0 tp (marked_front front tail b more e marked) at
        (omega arith, tt) (omega arith) (omega arith),
  )
  read-flatten (suc fuel) ((s, (p, o)) ∷ ts) front tail b tp e at h q l =
      let ws = s ∷ p ∷ o ∷ flatten ts in
      let ok = flatten-words n ((s, (p, o)) ∷ ts) h in
      let front' = front ++ words_bytes (s ∷ p ∷ o ∷ []) in
      ground (
        arith,
        length_of_parts front ws tail b e,
        id_below_marker n s h.0.0,
        word_in front ws tail b tp 0 tp e at ok (omega arith) (omega arith),
        word_in front ws tail b tp 1 (tp + 4) e at ok (omega arith) (omega arith),
        word_in front ws tail b tp 2 (tp + 8) e at ok (omega arith) (omega arith),
        read-flatten fuel ts front' tail b (tp + 12) (shift_front front tail b (flatten ts) s p o e)
            (omega (
              arith,
              length-append front (words_bytes (s ∷ p ∷ o ∷ [])),
              length-words_bytes (s ∷ p ∷ o ∷ []),
            ))
            h.1 q (omega arith),
      )

-- A result buffer: the length of the table, the table, and the rest.
module _ (ss : List Text) (rest b : List ℕ) where
  abbrev table_len : ℕ
  table_len = length (build ss)

  abbrev IsResult : Type 0
  IsResult = b ≡ le_bytes (table_len % u32_mod) ++ (build ss ++ rest)

  module _ (small : table_len < 2 ^ 32) (made : IsResult) where
    word_behind : (i k : ℕ) → i ≡ 4 + k → word_at b i ≡ word_at (build ss ++ rest) k
    word_behind i k e =
        ap (λ (c : List ℕ). word_at c i) made
        ∙ word_at-append_add (le_bytes (table_len % u32_mod)) (build ss ++ rest) i k
            (omega (arith, length-le_bytes (table_len % u32_mod)))

    word_first : word_at b 0 ≡ table_len
    word_first =
        ap (λ (c : List ℕ). word_at c 0) made
        ∙ (word_at-append [] (build ss ++ rest) (table_len % u32_mod) 0 refl (omega arith)
            ∙ omega arith)

    slice_behind :
        (a e c f : ℕ) → a ≡ 4 + c → e ≡ 4 + f → slice b a e ≡ slice (build ss ++ rest) c f
    slice_behind a e c f p q =
        let n : e - a ≡ f - c = omega arith in
        ap₂ take n (
          ap (drop a) made
          ∙ drop-append_add (le_bytes (table_len % u32_mod)) (build ss ++ rest) a c
              (omega (arith, length-le_bytes (table_len % u32_mod))))

    str-entry : (id : ℕ) → str b id ≡ entry (build ss ++ rest) table_len (id_index id)
    unfolding str entry table_count table_end table_offset
    str-entry id =
        slice_behind _ _ _ _
          (omega (
            arith,
            word_behind 4 0 refl,
            word_behind (8 + id_index id * 4) (4 + 4 * id_index id) (omega arith),
          ))
          (ground (
            arith,
            word_first,
            length-build_lem ss rest,
            count-build ss rest small,
            word_behind 4 0 refl,
            word_behind (8 + (id_index id + 1) * 4) (4 + 4 * (id_index id + 1)) (omega arith),
          ))

    -- `str` finds the string that the id was given for.
    str-get : (id : ℕ) → id_index id < length ss → str b id ≡ get_or ss (id_index id) []
    str-get id l = str-entry id ∙ entry-build ss rest small (id_index id) l

    map-line_of :
        (ts : List Triple)
        → All (IsTriple (length ss)) ts
        → map (line_of (str b)) ts ≡ map (line_of (λ id. get_or ss (id_index id) [])) ts
    unfolding line_of
    map-line_of [] h = refl
    map-line_of ((s, (p, o)) ∷ ts) h =
        cc (str-get s h.0.0.0, str-get p h.0.1.0, str-get o h.0.2.0, map-line_of ts h.1)

    read-result :
        (ts : List Triple) (tail : List ℕ)
        → rest ≡ words_bytes (flatten ts) ++ tail
        → All (IsTriple (length ss)) ts
        → Ends tail
        → read_triples (length b) b (4 + word_at b 0) ≡ ts
    read-result ts tail e h q =
        let front = le_bytes (table_len % u32_mod) ++ build ss in
        let whole : b ≡ front ++ (words_bytes (flatten ts) ++ tail) =
          made
          ∙ (ap (λ (c : List ℕ). le_bytes (table_len % u32_mod) ++ (build ss ++ c)) e
              ∙ sym (
                  append_assoc (le_bytes (table_len % u32_mod)) (build ss)
                    (words_bytes (flatten ts) ++ tail))) in
        let at : length front ≡ 4 + table_len = omega (
          arith,
          length-append (le_bytes (table_len % u32_mod)) (build ss),
          length-le_bytes (table_len % u32_mod),
        ) in
        read-flatten (length ss) (length b) ts front tail b (4 + word_at b 0) whole
          (omega (arith, word_first, at)) h q
          (omega (arith, length_of_parts front (flatten ts) tail b whole, length-flatten ts, at))

result_of :
    (ss : List Text) (ts : List Triple) (tail b : List ℕ)
    → length (build ss) < 2 ^ 32
    → b ≡ le_bytes (length (build ss) % u32_mod) ++ (build ss ++ (words_bytes (flatten ts) ++ tail))
    → All (IsTriple (length ss)) ts
    → Ends tail
    → result_as_sorted_ntriples b
      ≡ print_lines (collect_lines [] (map (line_of (λ id. get_or ss (id_index id) [])) ts))
unfolding result_as_sorted_ntriples
result_of ss ts tail b small made ok q =
    let rest = words_bytes (flatten ts) ++ tail in
    let long : ltb (length b) 8 ≡ false = ground (
      arith,
      ap length made,
      length-append (le_bytes (length (build ss) % u32_mod)) (build ss ++ rest),
      length-append (build ss) rest,
      length-le_bytes (length (build ss) % u32_mod),
      length-build_lem ss rest,
    ) in
    rw (
      long,
      read-result ss rest b small made ts tail refl ok q,
      map-line_of ss rest b small made ts ok,
    )

-- What `resultAsSortedNTriples` prints for an assembled buffer are the lines of the emitted triples,
-- sorted and each once, with the strings of the intern table: no explanation section, present or
-- not, is taken for triples. The table is shorter than 2^32 bytes, and each id has an index into it
-- and one of the three type tags.
pub result-assemble :
    (ss : List Text) (ts : List Triple) (x : Option Explanations)
    → length (build ss) < 2 ^ 32
    → All (IsTriple (length ss)) ts
    → result_as_sorted_ntriples (assemble ss (flatten ts) x)
      ≡ print_lines (collect_lines [] (map (line_of (λ id. get_or ss (id_index id) [])) ts))
unfolding assemble words_bytes
result-assemble ss ts none small ok = result_of ss ts [] _ small refl ok (inl refl)
result-assemble ss ts (some x) small ok =
    let words = explanation_words (length (flatten ts) / 3 % u32_mod) x in
    result_of ss ts (words_bytes words) _ small refl ok (inr (_, refl))
