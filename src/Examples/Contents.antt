-- ===== src/Examples/Contents.antt =====
-- Digests of contents, at small inputs.
use rdf_reasoner_konclude.Base.{
  length, arith, nat_eq, list_eq, pair_eq, ◌≡◌, ◌^◌, ◌+◌, ◌++◌, refl, [], ◌∷◌, some, true,
}
use rdf_reasoner_konclude.Base.Sets.{SameSet}
use rdf_reasoner_konclude.Base.Ints.{pos}
use rdf_reasoner_konclude.Base.Words.{word_at, word_of}
use rdf_reasoner_konclude.Wire.Table.{table_count, table_offset, table_end, entry}
use rdf_reasoner_konclude.Wire.Intern.{id_index, id_tag}
use rdf_reasoner_konclude.Content.Literal.{normalise_literal, decode_literal, normalise-decode}
use rdf_reasoner_konclude.Content.Hash.{hash_triple, hash_bytes}
use rdf_reasoner_konclude.Content.Check.{Buffers, buffers_ok}
use rdf_reasoner_konclude.Content.Digest.{hash_term, Statement, term_of, digest_of, content_of}
use rdf_reasoner_konclude.Content.Digest.Meaning.{digest-eq, digest-SameSet, digest_set}

-- the table of the strings "a", "b" and "c" 0 "d", with statements about them
abbrev pub one_order : Buffers
one_order = record {
  triple_ptr = some (0 ∷ 1 ∷ (2 ^ 31 + 2) ∷ 0 ∷ 1 ∷ 1 ∷ []);
  triple_count = pos 2;
  table_ptr =
      some (
        3 ∷ 0 ∷ 0 ∷ 0 ∷ 0 ∷ 0 ∷ 0 ∷ 0 ∷ 1 ∷ 0 ∷ 0 ∷ 0 ∷ 2 ∷ 0 ∷ 0 ∷ 0 ∷ 97 ∷ 98 ∷ 99 ∷ 0 ∷ 100
        ∷ []);
  table_len = pos 21;
}

-- the same statements in another order, one of them twice, and the strings "b" and "a" exchanged
abbrev pub other_order : Buffers
other_order = record {
  triple_ptr = some (1 ∷ 0 ∷ 0 ∷ 1 ∷ 0 ∷ (2 ^ 31 + 2) ∷ 1 ∷ 0 ∷ 0 ∷ []);
  triple_count = pos 3;
  table_ptr =
      some (
        3 ∷ 0 ∷ 0 ∷ 0 ∷ 0 ∷ 0 ∷ 0 ∷ 0 ∷ 1 ∷ 0 ∷ 0 ∷ 0 ∷ 2 ∷ 0 ∷ 0 ∷ 0 ∷ 98 ∷ 97 ∷ 99 ∷ 0 ∷ 100
        ∷ []);
  table_len = pos 21;
}

pub one_order_ok : buffers_ok one_order ≡ true
unfolding buffers_ok table_count table_offset table_end entry word_at word_of id_index id_tag
one_order_ok = refl

pub other_order_ok : buffers_ok other_order ≡ true
unfolding buffers_ok table_count table_offset table_end entry word_at word_of id_index id_tag
other_order_ok = refl

abbrev first : Statement
first = ((0, 97 ∷ []), ((0, 98 ∷ []), (2, 99 ∷ 0 ∷ 100 ∷ 0 ∷ [])))

abbrev second : Statement
second = ((0, 97 ∷ []), ((0, 98 ∷ []), (0, 98 ∷ [])))

one_order_content : content_of one_order ≡ first ∷ second ∷ []
unfolding content_of term_of normalise_literal table_count table_offset table_end entry word_at
    word_of id_index id_tag
one_order_content = refl

other_order_content : content_of other_order ≡ second ∷ first ∷ second ∷ []
unfolding content_of term_of normalise_literal table_count table_offset table_end entry word_at
    word_of id_index id_tag
other_order_content = refl

shuffle : (x y : Statement) → SameSet (x ∷ y ∷ []) (y ∷ x ∷ y ∷ [])
shuffle x y a = ground arith

pub orders-SameSet : SameSet (content_of one_order) (content_of other_order)
orders-SameSet = rw (one_order_content, other_order_content) (shuffle first second)

normalise-decode_example :
    normalise_literal (97 ∷ 0 ∷ 98 ∷ [])
    ≡ (decode_literal (97 ∷ 0 ∷ 98 ∷ [])).value
      ++ (0
          ∷ ((decode_literal (97 ∷ 0 ∷ 98 ∷ [])).datatype
              ++ (0 ∷ (decode_literal (97 ∷ 0 ∷ 98 ∷ [])).language)))
normalise-decode_example = normalise-decode (97 ∷ 0 ∷ 98 ∷ [])

digest-eq_example : digest_of one_order ≡ digest_set (content_of one_order) []
digest-eq_example = digest-eq one_order

digest-SameSet_example : SameSet (digest_of one_order) (digest_of other_order)
digest-SameSet_example = digest-SameSet one_order other_order orders-SameSet

pub one_order_digest : length (digest_of one_order) ≡ 2
unfolding digest_of hash_term hash_triple hash_bytes term_of normalise_literal table_count
    table_offset table_end entry word_at word_of id_index id_tag
one_order_digest = refl
