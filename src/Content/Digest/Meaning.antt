-- ===== src/Content/Digest/Meaning.antt =====
-- What a digest depends on.
use rdf_reasoner_konclude.Base.{
  some_injective, ℕ, ◌≡◌, refl, sym, ap, ◌∙◌, List, [], ◌∷◌, map, ◌||◌, if◌then◌else◌, arith, some,
  nat_eq, pair_eq, list_eq, pair_beq_iff, ◌==◌, Option-cases, Bool-cases, inl, inr,
}
use rdf_reasoner_konclude.Base.Sets.{
  map-SameSet, insert, contains, contains-insert, insert-Distinct, Distinct, SameSet,
}
use rdf_reasoner_konclude.Base.Dicts.{lookup, assign, lookup-assign}
use rdf_reasoner_konclude.Base.Ints.{to_ℕ}
use rdf_reasoner_konclude.Wire.Intern.{id_index, id_tag}
use rdf_reasoner_konclude.Content.Hash.{H128, hash_triple}
use rdf_reasoner_konclude.Content.Check.{Buffers, table, term_ids}
use rdf_reasoner_konclude.Content.Digest.{
  Memo, Statement, term_of, hash_term, term_hash, digest_loop, digest_of, statements, content_of,
  hash_statement,
}

-- The place of an id in `memo` and `have`.
abbrev place : ℕ → ℕ × ℕ
place id = (id_tag id, id_index id)

-- A term depends on the two parts of its id only.
term_of_parts :
    (t : List ℕ) (len id other : ℕ)
    → id_tag id ≡ id_tag other
    → id_index id ≡ id_index other
    → term_of t len id ≡ term_of t len other
unfolding term_of
term_of_parts t len id other e q = rw (e, q)

module _ (t : List ℕ) (len : ℕ) where
  -- What is remembered for an id is its hash.
  record IsMemo (memo : Memo) : Type 0 where
    remembered :
        (id : ℕ) (h : H128) → lookup (place id) memo ≡ some h → h ≡ hash_term (term_of t len id)

  empty-IsMemo : IsMemo []
  empty-IsMemo = record { remembered = λ id h e. absurd (cc) }

  assign-IsMemo :
      (id : ℕ) (memo : Memo)
      → IsMemo memo
      → IsMemo (assign (place id) (hash_term (term_of t len id)) memo)
  assign-IsMemo id memo m = record {
    remembered = λ other h e. elim (Bool-cases (place id == place other)) [
      | inl same ↦
          let parts : place id ≡ place other = (pair_beq_iff (place id) (place other)).0 same in
          some_injective (sym e ∙ rw (law other, same))
          ∙ ap hash_term (
              term_of_parts t len id other (ap (λ (k : ℕ × ℕ). k.0) parts)
                (ap (λ (k : ℕ × ℕ). k.1) parts))
      | inr differs ↦ m.remembered other h (sym (rw (law other, differs)) ∙ e)
    ];
  }
    where
      law :
          (other : ℕ)
          → lookup (place other) (assign (place id) (hash_term (term_of t len id)) memo) ≡ (
              if place id == place other
              then some (hash_term (term_of t len id))
              else lookup (place other) memo)
      law other = lookup-assign (place id) (place other) (hash_term (term_of t len id)) memo

  term_hash-IsMemo :
      (id : ℕ) (memo : Memo)
      → IsMemo memo
      → ((term_hash t len id memo).0 ≡ hash_term (term_of t len id))
        × IsMemo (term_hash t len id memo).1
  unfolding term_hash
  term_hash-IsMemo id memo m = elim (Option-cases (lookup (place id) memo)) [
    | inl new ↦ rw (new, term_hash) (refl, assign-IsMemo id memo m)
    | inr (h, old) ↦ rw (old, term_hash) (m.remembered id h old, m)
  ]

-- The loop without its cache.
abbrev pub digest_set : List Statement → List H128 → List H128
digest_set [] nd = nd
digest_set (x ∷ xs) nd = digest_set xs (insert (hash_statement x) nd)

digest_loop-eq :
    (t : List ℕ) (len : ℕ) (ids : List ℕ) (memo : Memo) (nd : List H128)
    → IsMemo t len memo
    → digest_loop t len ids memo nd ≡ digest_set (statements t len ids) nd
unfolding digest_loop statements hash_statement
digest_loop-eq t len (s ∷ p ∷ o ∷ ids) memo nd m =
    let ms = term_hash-IsMemo t len s memo m in
    let mp = term_hash-IsMemo t len p (term_hash t len s memo).1 ms.1 in
    let mo = term_hash-IsMemo t len o (term_hash t len p (term_hash t len s memo).1).1 mp.1 in
    digest_loop-eq t len ids (term_hash t len o (term_hash t len p (term_hash t len s memo).1).1).1
      (insert
        (hash_triple (term_hash t len s memo).0 (term_hash t len p (term_hash t len s memo).1).0
          (term_hash t len o (term_hash t len p (term_hash t len s memo).1).1).0)
        nd)
      mo.1
    ∙ rw (ms.0, mp.0, mo.0) refl
digest_loop-eq t len _ memo nd m = refl

-- The cache of term hashes does not show: the digest is the set of the hashes of the statements.
pub digest-eq : (b : Buffers) → digest_of b ≡ digest_set (content_of b) []
unfolding digest_of content_of
digest-eq b =
    digest_loop-eq (table b) (to_ℕ b.table_len) (term_ids b) [] []
      (empty-IsMemo (table b) (to_ℕ b.table_len))

contains-digest_set :
    (xs : List Statement) (nd : List H128) (y : H128)
    → contains (digest_set xs nd) y ≡ (contains (map hash_statement xs) y || contains nd y)
contains-digest_set [] nd y = refl
contains-digest_set (x ∷ xs) nd y = ground (
  arith,
  contains-digest_set xs (insert (hash_statement x) nd) y,
  contains-insert (hash_statement x) nd y,
)

digest_set-Distinct :
    (xs : List Statement) (nd : List H128) → Distinct nd → Distinct (digest_set xs nd)
digest_set-Distinct [] nd d = d
digest_set-Distinct (x ∷ xs) nd d =
    digest_set-Distinct xs (insert (hash_statement x) nd) (insert-Distinct (hash_statement x) nd d)

pub digest-Distinct : (b : Buffers) → Distinct (digest_of b)
digest-Distinct b = rw (digest-eq b) (digest_set-Distinct (content_of b) [] tt)

-- The digest of one content, as a set, whatever order, repetitions, ids and table it came with.
pub digest-SameSet :
    (b c : Buffers) → SameSet (content_of b) (content_of c) → SameSet (digest_of b) (digest_of c)
digest-SameSet b c s y = ground (
  arith,
  digest-eq b,
  digest-eq c,
  contains-digest_set (content_of b) [] y,
  contains-digest_set (content_of c) [] y,
  map-SameSet hash_statement (content_of b) (content_of c) s y,
)
