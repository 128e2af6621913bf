-- ===== src/Content/Check.antt =====
-- The arguments of `syncBuffers` and the tests that it makes before it reads a term.
use rdf_reasoner_konclude.Base.{
  ℕ, zero, suc, ◌+◌, ◌-◌, ◌*◌, List, [], ◌∷◌, Bool, true, false, not, ◌&&◌, ◌||◌, ltb, leb, Option,
  none, some, nat_eq, pair_eq, list_eq,
}
use rdf_reasoner_konclude.Base.Ints.{ℤ, is_negative, to_ℕ}
use rdf_reasoner_konclude.Wire.Table.{table_count, table_offset, table_end}
use rdf_reasoner_konclude.Wire.Intern.{id_index, id_tag}

-- The call's arguments: for each pointer, `none` for null, or what stands there in memory (words of
-- the triple buffer, bytes of the string table; what lies past the list reads as 0).
pub record Buffers : Type 0 where
  pub triple_ptr : Option (List ℕ)
  pub triple_count : ℤ
  pub table_ptr : Option (List ℕ)
  pub table_len : ℤ

abbrev pub memory : Option (List ℕ) → List ℕ
memory none = []
memory (some xs) = xs

abbrev is_null : Option (List ℕ) → Bool
is_null none = true
is_null (some xs) = false

abbrev pub table : Buffers → List ℕ
table b = memory b.table_ptr

-- tri[0] … tri[n - 1]
unfoldable pub read_words : ℕ → List ℕ → List ℕ
read_words zero ws = []
read_words (suc n) [] = 0 ∷ read_words n []
read_words (suc n) (w ∷ ws) = w ∷ read_words n ws

unfoldable pub term_ids : Buffers → List ℕ
unfolding read_words
term_ids b = read_words (3 * to_ℕ b.triple_count) (memory b.triple_ptr)

-- The first test: null pointers, negative sizes.
unfoldable pub arguments_ok : Buffers → Bool
arguments_ok b = not (
    is_null b.table_ptr
    || (is_negative b.table_len || ltb (to_ℕ b.table_len) 4)
    || is_negative b.triple_count
    || (is_null b.triple_ptr && ltb 0 (to_ℕ b.triple_count)))

-- The loop over the offsets, `n` rounds from `i` on; `data_len` is strDataLen.
unfoldable pub offsets_ok : List ℕ → ℕ → ℕ → ℕ → Bool
offsets_ok t len zero i = true
offsets_ok t len (suc n) i =
    let data_len = len - 4 - 4 * table_count t in
    not (ltb (table_end t len i) (table_offset t i) || ltb data_len (table_end t len i))
    && offsets_ok t len n (i + 1)

-- The test of one id of the triple buffer.
unfoldable pub id_ok : ℕ → ℕ → Bool
unfolding id_index id_tag
id_ok count id = not (leb count (id_index id) || ltb 2 (id_tag id))

unfoldable pub ids_ok : ℕ → List ℕ → Bool
unfolding id_ok
ids_ok count [] = true
ids_ok count (id ∷ ids) = id_ok count id && ids_ok count ids

-- All that is tested before the first `return` that is not -1.
unfoldable pub buffers_ok : Buffers → Bool
unfolding arguments_ok offsets_ok ids_ok term_ids
buffers_ok b =
    arguments_ok b
    && (leb (4 + 4 * table_count (table b)) (to_ℕ b.table_len)
        && (offsets_ok (table b) (to_ℕ b.table_len) (table_count (table b)) 0
            && ids_ok (table_count (table b)) (term_ids b)))
