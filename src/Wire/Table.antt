-- ===== src/Wire/Table.antt =====
-- The string table [count:u32][offset0 … offsetN-1:u32][data]: `InternTable::build` writes it, the
-- decoders of `syncBuffers`, `buildOntology` and `resultAsSortedNTriples` read it.
use rdf_reasoner_konclude.Base.{
  ℕ, zero, suc, ◌+◌, ◌-◌, ◌*◌, ◌%◌, ◌^◌, ◌≤◌, ◌<◌, ◌≡◌, refl, sym, ap, ◌∙◌, List, [], ◌∷◌, ◌++◌,
  ltb, if◌then◌else◌, arith, length, take, drop, get_or, All, length-append, take-append,
  drop-append_add,
}
use rdf_reasoner_konclude.Base.Words.{
  u32_mod, IsWord, le_bytes, words_bytes, word_at, word_at-append, word_at-append_add,
  word_at-words_bytes, length-words_bytes, length-le_bytes,
}
use mathlib.Core.List.{append_assoc}
use native.Mathlib.Numerals.{add-one}

-- A `std::string`: its bytes.
abbrev pub Text : Type 0
Text = List ℕ

-- The bytes from `a` up to `e`.
abbrev pub slice : List ℕ → ℕ → ℕ → List ℕ
slice bs a e = take (e - a) (drop a bs)

-- `for (auto& s : strings) { pu32(off); off += s.size(); }`: a size_t sum kept in a uint32_t
unfoldable pub offsets : ℕ → List Text → List ℕ
offsets off [] = []
offsets off (s ∷ ss) = off ∷ offsets ((off + length s) % u32_mod) ss

unfoldable pub contents : List Text → List ℕ
contents [] = []
contents (s ∷ ss) = s ++ contents ss

-- InternTable::build
unfoldable pub build : List Text → List ℕ
unfolding offsets contents
build strings =
    le_bytes (length strings % u32_mod) ++ (words_bytes (offsets 0 strings) ++ contents strings)

-- hdr[0]
unfoldable pub table_count : List ℕ → ℕ
table_count table = word_at table 0

-- hdr[1 + i]
unfoldable pub table_offset : List ℕ → ℕ → ℕ
table_offset table i = word_at table (4 + 4 * i)

-- Where entry `i` ends: at the next offset, or at the end of the string data.
unfoldable pub table_end : List ℕ → ℕ → ℕ → ℕ
table_end table len i =
    if ltb (i + 1) (table_count table)
    then table_offset table (i + 1)
    else len - 4 - 4 * table_count table

-- terms[i]: the bytes of entry `i` of a table of `len` bytes
unfoldable pub entry : List ℕ → ℕ → ℕ → Text
entry table len i =
    slice table (4 + 4 * table_count table + table_offset table i)
      (4 + 4 * table_count table + table_end table len i)

pub length-offsets : (off : ℕ) (ss : List Text) → length (offsets off ss) ≡ length ss
unfolding offsets
length-offsets off [] = refl
length-offsets off (s ∷ ss) = ap suc (length-offsets ((off + length s) % u32_mod) ss)

pub offsets-words : (off : ℕ) (ss : List Text) → IsWord off → All IsWord (offsets off ss)
unfolding offsets
offsets-words off [] h = tt
offsets-words off (s ∷ ss) h = (h, offsets-words ((off + length s) % u32_mod) ss (omega arith))

-- The number of data bytes in front of entry `i`.
abbrev pub start_of : List Text → ℕ → ℕ
start_of [] i = 0
start_of (s ∷ ss) zero = 0
start_of (s ∷ ss) (suc i) = length s + start_of ss i

pub start_of-le : (ss : List Text) (i : ℕ) → start_of ss i ≤ length (contents ss)
unfolding contents
start_of-le [] i = omega arith
start_of-le (s ∷ ss) zero = omega arith
start_of-le (s ∷ ss) (suc i) = omega (arith, length-append s (contents ss), start_of-le ss i)

pub offsets-eq-start :
    (off : ℕ) (ss : List Text) (i : ℕ)
    → off + length (contents ss) < 2 ^ 32
    → i < length ss
    → get_or (offsets off ss) i 0 ≡ off + start_of ss i
unfolding offsets contents
offsets-eq-start off [] i h l = absurd (omega arith)
offsets-eq-start off (s ∷ ss) zero h l = omega arith
offsets-eq-start off (s ∷ ss) (suc i) h l =
    let e : (off + length s) % u32_mod ≡ off + length s =
      omega (arith, length-append s (contents ss)) in
    rw e (
      omega (
        arith,
        length-append s (contents ss),
        offsets-eq-start (off + length s) ss i (omega (arith, length-append s (contents ss)))
            (omega arith),
      ))

-- Entry `i` begins at its start and has its own length.
slice-contents :
    (ss : List Text) (rest : List ℕ) (i n : ℕ)
    → i < length ss
    → n ≡ length (get_or ss i [])
    → take n (drop (start_of ss i) (contents ss ++ rest)) ≡ get_or ss i []
unfolding contents
slice-contents [] rest i n l e = absurd (omega arith)
slice-contents (s ∷ ss) rest zero n l e =
    rw (append_assoc s (contents ss) rest, e) (take-append s (contents ss ++ rest))
slice-contents (s ∷ ss) rest (suc i) n l e = rw (append_assoc s (contents ss) rest) (
    ap (take n)
      (drop-append_add s (contents ss ++ rest) (length s + start_of ss i) (start_of ss i) refl)
    ∙ slice-contents ss rest i n (omega arith) e)

start_of-zero : (ss : List Text) → start_of ss 0 ≡ 0
start_of-zero [] = refl
start_of-zero (s ∷ ss) = refl

start_of_next :
    (ss : List Text) (i : ℕ)
    → i < length ss
    → start_of ss (suc i) ≡ start_of ss i + length (get_or ss i [])
start_of_next [] i l = absurd (omega arith)
start_of_next (s ∷ ss) zero l = omega (arith, start_of-zero ss)
start_of_next (s ∷ ss) (suc i) l = omega (arith, start_of_next ss i (omega arith))

-- The last entry ends where the data ends.
start_of_last : (ss : List Text) (i : ℕ) → i ≡ length ss → start_of ss i ≡ length (contents ss)
unfolding contents
start_of_last [] i l = refl
start_of_last (s ∷ ss) zero l = absurd (omega arith)
start_of_last (s ∷ ss) (suc i) l =
    omega (arith, length-append s (contents ss), start_of_last ss i (omega arith))

-- A built table, with whatever stands behind it.
module _ (ss : List Text) (rest : List ℕ) where
  abbrev header : List ℕ
  header = le_bytes (length ss % u32_mod) ++ words_bytes (offsets 0 ss)

  length-header : length header ≡ 4 + 4 * length ss
  length-header = omega (
    arith,
    length-append (le_bytes (length ss % u32_mod)) (words_bytes (offsets 0 ss)),
    length-le_bytes (length ss % u32_mod),
    length-words_bytes (offsets 0 ss),
    length-offsets 0 ss,
  )

  build-header : build ss ≡ header ++ contents ss
  unfolding build
  build-header =
      sym (append_assoc (le_bytes (length ss % u32_mod)) (words_bytes (offsets 0 ss)) (contents ss))

  pub length-build_lem : length (build ss) ≡ 4 + 4 * length ss + length (contents ss)
  length-build_lem =
      rw build-header (omega (arith, length-append header (contents ss), length-header))

  built : build ss ++ rest ≡ header ++ (contents ss ++ rest)
  built = rw build-header (append_assoc header (contents ss) rest)

  -- the same, with the count apart from the offsets
  built_words :
      build ss ++ rest
      ≡ le_bytes (length ss % u32_mod) ++ (words_bytes (offsets 0 ss) ++ (contents ss ++ rest))
  built_words =
      built
      ∙ append_assoc (le_bytes (length ss % u32_mod)) (words_bytes (offsets 0 ss))
          (contents ss ++ rest)

  module _ (small : length (build ss) < 2 ^ 32) where
    pub count-build : table_count (build ss ++ rest) ≡ length ss
    unfolding table_count
    count-build =
        ap (λ (b : List ℕ). word_at b 0) built_words
        ∙ word_at-append [] (words_bytes (offsets 0 ss) ++ (contents ss ++ rest))
            (length ss % u32_mod) 0 refl (omega arith)
        ∙ omega (arith, length-build_lem)

    offset-build : (i : ℕ) → i < length ss → table_offset (build ss ++ rest) i ≡ start_of ss i
    unfolding table_offset
    offset-build i l =
        ap (λ (b : List ℕ). word_at b (4 + 4 * i)) built_words
        ∙ word_at-append_add (le_bytes (length ss % u32_mod))
            (words_bytes (offsets 0 ss) ++ (contents ss ++ rest)) (4 + 4 * i) (4 * i)
            (omega (arith, length-le_bytes (length ss % u32_mod)))
        ∙ word_at-words_bytes (offsets 0 ss) (contents ss ++ rest) i (4 * i)
            (offsets-words 0 ss (omega arith)) (omega (arith, length-offsets 0 ss)) refl
        ∙ offsets-eq-start 0 ss i (omega (arith, length-build_lem)) l
        ∙ omega arith

    end-build :
        (i : ℕ)
        → i < length ss
        → table_end (build ss ++ rest) (length (build ss)) i
          ≡ start_of ss i + length (get_or ss i [])
    unfolding table_end
    end-build i l = ground (
      arith,
      count-build,
      length-build_lem,
      ap (λ k. start_of ss k) (add-one i),
      ap (λ k. table_offset (build ss ++ rest) k) (add-one i),
      start_of_next ss i l,
      start_of_last ss (suc i),
      offset-build (suc i),
    )

    -- What the decoder finds at index `i` of a built table is the `i`-th string, whatever follows
    -- the table, as long as the table is shorter than 2^32 bytes.
    pub entry-build :
        (i : ℕ) → i < length ss → entry (build ss ++ rest) (length (build ss)) i ≡ get_or ss i []
    unfolding entry
    entry-build i l =
        rw (count-build, offset-build i l, end-build i l)
          (rw built (
            ap
              (take (
                4
                + 4 * length ss
                + (start_of ss i + length (get_or ss i []))
                - (4 + 4 * length ss + start_of ss i)))
              (drop-append_add header (contents ss ++ rest) (4 + 4 * length ss + start_of ss i)
                (start_of ss i) (omega (arith, length-header)))
            ∙ slice-contents ss rest i
                (4
                  + 4 * length ss
                  + (start_of ss i + length (get_or ss i []))
                  - (4 + 4 * length ss + start_of ss i))
                l (omega arith)))
