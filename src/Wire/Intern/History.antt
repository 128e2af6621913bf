-- ===== src/Wire/Intern/History.antt =====
-- Sequences of calls of `InternTable::intern`.
use rdf_reasoner_konclude.Base.{
  All, ◌≤◌, ℕ, ◌+◌, ◌^◌, ◌<◌, ◌≡◌, List, [], ◌∷◌, arith, length, length-append, some, list_eq,
  nat_eq, list_beq_iff, inl, inr,
}
use rdf_reasoner_konclude.Base.Dicts.{lookup, lookup-assign}
use rdf_reasoner_konclude.Wire.Table.{Text}
use rdf_reasoner_konclude.Wire.Intern.{
  InternTable, IsValid, Resolves, empty_table, empty-IsValid, intern_key, intern, intern_cases,
  fresh_id, intern-keeps, intern-IsValid, intern-Resolves,
}

-- Later calls keep the id of a term, whatever they intern.
pub lookup-intern :
    (r : Text) (tag' : ℕ) (t : InternTable) (k : Text) (id : ℕ)
    → lookup k t.index ≡ some id
    → lookup k (intern r tag' t).1.index ≡ some id
lookup-intern r tag' t k id h = elim (intern_cases r tag' t) [
  | inl (old, e, q) ↦ rw q h
  | inr (e, q) ↦ rw q (
      ground (
        arith,
        lookup-assign (intern_key r tag') k (fresh_id r tag' t) t.index,
        list_beq_iff (intern_key r tag') k,
      ))
]

pub intern_all : List (Text × ℕ) → InternTable → InternTable
intern_all [] t = t
intern_all ((s, tag) ∷ terms) t = intern_all terms (intern s tag t).1

lookup-intern_all :
    (terms : List (Text × ℕ)) (t : InternTable) (k : Text) (id : ℕ)
    → lookup k t.index ≡ some id
    → lookup k (intern_all terms t).index ≡ some id
unfolding intern_all
lookup-intern_all [] t k id h = h
lookup-intern_all ((s, tag) ∷ terms) t k id h =
    lookup-intern_all terms (intern s tag t).1 k id (lookup-intern s tag t k id h)

lookup_interned :
    (s : Text) (tag : ℕ) (t : InternTable)
    → lookup (intern_key s tag) (intern s tag t).1.index ≡ some (intern s tag t).0
lookup_interned s tag t = elim (intern_cases s tag t) [
  | inl (old, e, q) ↦ rw q e
  | inr (e, q) ↦ rw q (
      ground (
        arith,
        lookup-assign (intern_key s tag) (intern_key s tag) (fresh_id s tag t) t.index,
        list_beq_iff (intern_key s tag) (intern_key s tag),
      ))
]

intern_of_known :
    (s : Text) (tag : ℕ) (t : InternTable) (id : ℕ)
    → lookup (intern_key s tag) t.index ≡ some id
    → intern s tag t ≡ (id, t)
unfolding intern
intern_of_known s tag t id h = rw (h, intern)

-- A term interned once has the same id for ever: after any further calls, interning it again
-- returns that id and leaves the table as it is.
pub intern_stable :
    (s : Text) (tag : ℕ) (t : InternTable) (later : List (Text × ℕ))
    → intern s tag (intern_all later (intern s tag t).1)
      ≡ ((intern s tag t).0, intern_all later (intern s tag t).1)
intern_stable s tag t later =
    intern_of_known s tag (intern_all later (intern s tag t).1) (intern s tag t).0 (
      lookup-intern_all later (intern s tag t).1 (intern_key s tag) (intern s tag t).0
        (lookup_interned s tag t))

length-strings_intern :
    (s : Text) (tag : ℕ) (t : InternTable)
    → length (intern s tag t).1.strings ≤ length t.strings + 1
length-strings_intern s tag t = elim (intern_cases s tag t) [
  | inl (old, e, q) ↦ rw q (omega arith)
  | inr (e, q) ↦ rw q (omega (arith, length-append t.strings (s ∷ [])))
]

length-intern_all :
    (terms : List (Text × ℕ)) (t : InternTable)
    → length (intern_all terms t).strings ≤ length t.strings + length terms
unfolding intern_all
length-intern_all [] t = omega arith
length-intern_all ((s, tag) ∷ terms) t =
    omega (arith, length-intern_all terms (intern s tag t).1, length-strings_intern s tag t)

intern_all-IsValid :
    (terms : List (Text × ℕ)) (t : InternTable)
    → All (λ (p : Text × ℕ). p.1 < 3) terms
    → length t.strings + length terms ≤ 2 ^ 30
    → IsValid t
    → IsValid (intern_all terms t)
unfolding intern_all
intern_all-IsValid [] t kinds small v = v
intern_all-IsValid ((s, tag) ∷ terms) t kinds small v =
    intern_all-IsValid terms (intern s tag t).1 kinds.1
      (omega (arith, length-strings_intern s tag t))
      (intern-IsValid s tag t (omega arith) kinds.0 v)

Resolves-intern_all :
    (terms : List (Text × ℕ)) (t : InternTable) {r : Text} {tag id : ℕ}
    → Resolves t r tag id
    → Resolves (intern_all terms t) r tag id
unfolding intern_all
Resolves-intern_all [] t h = h
Resolves-intern_all ((s, tag) ∷ terms) t h =
    Resolves-intern_all terms (intern s tag t).1 (intern-keeps s tag t h)

-- After any calls on an empty table, an id that `intern` returns stands for its own term only: the
-- index bits lead to the string and the two highest bits are the type tag, also in the table that
-- further calls leave.
pub intern_all-Resolves :
    (before later : List (Text × ℕ)) (s : Text) (tag : ℕ)
    → All (λ (p : Text × ℕ). p.1 < 3) before
    → tag < 3
    → length before < 2 ^ 30
    → let t = intern_all before empty_table in
      Resolves (intern_all later (intern s tag t).1) s tag (intern s tag t).0
intern_all-Resolves before later s tag kinds kind few =
    Resolves-intern_all later (intern s tag (intern_all before empty_table)).1 (
      intern-Resolves s tag (intern_all before empty_table)
        (omega (arith, length-intern_all before empty_table))
        (intern_all-IsValid before empty_table kinds (omega arith) empty-IsValid) kind)
