-- ===== src/Content/Digest.antt =====
-- The digest of the synced content: the set of the hashes of its triples.
pub mod Meaning
use rdf_reasoner_konclude.Base.{
  ℕ, zero, suc, ◌+◌, ◌-◌, ◌*◌, ◌/◌, ◌%◌, ◌^◌, ◌≤◌, ◌<◌, ◌≡◌, ◌≢◌, ◌↔◌, refl, sym, ap, ◌∙◌, subst,
  subst₃, List, [], ◌∷◌, ◌++◌, map, Bool, true, false, not, ◌&&◌, ◌||◌, ltb, leb, if◌then◌else◌,
  arith, length, take, drop, get_or, get_elem?, All, all_of, length-append, take-append,
  drop-append, drop-append_add, get_or-append_left, length-map, Option, none, some, Eq, nat_eq,
  pair_eq, list_eq, list_beq_iff, pair_beq_iff, nat_beq_iff, ◌==◌, Option-cases, Bool-cases, ◌⊎◌,
  inl, inr,
}
use rdf_reasoner_konclude.Base.Sets.{
  insert, contains, contains-insert, insert-Distinct, Distinct, SameSet,
}
use rdf_reasoner_konclude.Base.Dicts.{lookup, assign, lookup-assign}
use rdf_reasoner_konclude.Base.Ints.{to_ℕ}
use rdf_reasoner_konclude.Wire.Table.{Text, entry}
use rdf_reasoner_konclude.Wire.Intern.{id_index, id_tag}
use rdf_reasoner_konclude.Wire.Emit.{Triple}
use rdf_reasoner_konclude.Content.Hash.{H128, hash_bytes, hash_triple}
use rdf_reasoner_konclude.Content.Literal.{normalise_literal}
use rdf_reasoner_konclude.Content.Check.{Buffers, table, term_ids}

-- A term as the wire format gives it: its type tag and its string.
abbrev pub Term : Type 0
Term = ℕ × Text

-- The term that an id stands for; a literal's string is normalised.
unfoldable pub term_of : List ℕ → ℕ → ℕ → Term
term_of t len id =
    if id_tag id == 2
    then (id_tag id, normalise_literal (entry t len (id_index id)))
    else (id_tag id, entry t len (id_index id))

unfoldable pub hash_term : Term → H128
hash_term x = hash_bytes x.0 x.1

-- `memo` and `have`: the hashes computed so far, by type tag and string index.
abbrev pub Memo : Type 0
Memo = List ((ℕ × ℕ) × H128)

-- termHash
unfoldable pub term_hash : List ℕ → ℕ → ℕ → Memo → H128 × Memo
unfolding term_of hash_term
term_hash t len id memo = elim (lookup (id_tag id, id_index id) memo) [
  | some h ↦ (h, memo)
  | none ↦ let h = hash_term (term_of t len id) in (h, assign (id_tag id, id_index id) h memo)
]

-- The loop over the triples. Fewer than three ids are left over only when there are none.
unfoldable pub digest_loop : List ℕ → ℕ → List ℕ → Memo → List H128 → List H128
unfolding term_hash
digest_loop t len (s ∷ p ∷ o ∷ ids) memo nd =
    let (hs, memo1) = term_hash t len s memo in
    let (hp, memo2) = term_hash t len p memo1 in
    let (ho, memo3) = term_hash t len o memo2 in
    digest_loop t len ids memo3 (insert (hash_triple hs hp ho) nd)
digest_loop t len _ memo nd = nd

unfoldable pub digest_of : Buffers → List H128
unfolding digest_loop term_ids
digest_of b = digest_loop (table b) (to_ℕ b.table_len) (term_ids b) [] []

-- The content that the buffers stand for: triples of terms.
abbrev pub Statement : Type 0
Statement = Term × (Term × Term)

unfoldable pub statements : List ℕ → ℕ → List ℕ → List Statement
statements t len (s ∷ p ∷ o ∷ ids) =
    (term_of t len s, (term_of t len p, term_of t len o)) ∷ statements t len ids
statements t len _ = []

unfoldable pub content_of : Buffers → List Statement
unfolding statements term_ids
content_of b = statements (table b) (to_ℕ b.table_len) (term_ids b)

unfoldable pub hash_statement : Statement → H128
unfolding hash_term
hash_statement (s, (p, o)) = hash_triple (hash_term s) (hash_term p) (hash_term o)
