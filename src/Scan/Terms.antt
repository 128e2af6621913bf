-- ===== src/Scan/Terms.antt =====
-- Terms and triples as the scans see them: encoded ids, a table of strings, and the index of a
-- known IRI.
use rdf_reasoner_konclude.Base.{
  drop, ℕ, zero, suc, ◌+◌, ◌*◌, List, [], ◌∷◌, Bool, false, if◌then◌else◌, get_or, Option, none,
  some, nat_eq, pair_eq, list_eq, ◌==◌,
}
use rdf_reasoner_konclude.Base.Ints.{to_ℕ}
use rdf_reasoner_konclude.Wire.Table.{Text, entry, table_count, table_offset}
use rdf_reasoner_konclude.Wire.Intern.{id_tag}
use rdf_reasoner_konclude.Wire.Emit.{Triple}
use rdf_reasoner_konclude.Content.Check.{Buffers, table}
use Prim.Native.Char.{code}
use Prim.Native.String.{String}

-- The bytes of an ASCII literal.
abbrev pub bytes : String → Text
bytes String.[] = []
bytes (String.◌∷◌ c s) = code c ∷ bytes s

-- `terms`: the strings of the table, in order
unfoldable pub terms_from : List ℕ → ℕ → ℕ → ℕ → List Text
terms_from t len zero i = []
terms_from t len (suc n) i = entry t len i ∷ terms_from t len n (i + 1)

unfoldable pub terms_of : Buffers → List Text
unfolding terms_from
terms_of b = terms_from (table b) (to_ℕ b.table_len) (table_count (table b)) 0

-- terms[i].ptr as a null-terminated string: what stands in the table up to the first zero byte,
-- which may lie behind the entry
unfoldable up_to_zero : List ℕ → Text
up_to_zero [] = []
up_to_zero (c ∷ cs) = let rest = up_to_zero cs in if c == 0 then [] else c ∷ rest

unfoldable pub chars_of : Buffers → ℕ → Text
unfolding up_to_zero
chars_of b i =
    up_to_zero (drop (4 + 4 * table_count (table b) + table_offset (table b) i) (table b))

-- findTermIdx: the first index of a string, `none` for UINT32_MAX
unfoldable pub find_term : Text → List Text → ℕ → Option ℕ
find_term iri [] i = none
find_term iri (x ∷ xs) i = let rest = find_term iri xs (i + 1) in if x == iri then some i else rest

-- terms[i]
abbrev pub text_at : List Text → ℕ → Text
text_at terms i = get_or terms i []

unfoldable pub triples_of : List ℕ → List Triple
triples_of (s ∷ p ∷ o ∷ ids) = (s, (p, o)) ∷ triples_of ids
triples_of _ = []

-- (id >> 30) == 0
unfoldable pub is_named : ℕ → Bool
is_named id = id_tag id == 0

-- `pId == idx && idx != UINT32_MAX`: a predicate is a named node, so its id is its index.
unfoldable pub is_term : Option ℕ → ℕ → Bool
is_term none id = false
is_term (some i) id = id == i
