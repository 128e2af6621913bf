-- ===== src/Base/Words.antt =====
-- Machine words: 32- and 64-bit arithmetic, and little-endian bytes.
use Prim.Native.Nat.{ℕ, zero, suc, ◌+◌, ◌*◌, ◌/◌, ◌%◌, ◌^◌, ◌<◌, bit_xor}
use mathlib.Core.Path.{◌≡◌, refl, ap, ◌∙◌}
use mathlib.Core.List.{List, [], ◌∷◌, ◌++◌}
use native.Mathlib.Omega.{arith}
use rdf_reasoner_konclude.Base.Lists.{length, get_or, All, drop, drop-append_add}
use mathlib.Core.List.{append_assoc}

abbrev pub u32_mod : ℕ
u32_mod = 2 ^ 32

abbrev pub u64_mod : ℕ
u64_mod = 2 ^ 64

-- The three operations on `uint64_t` that the hash functions use.
unfoldable pub add64 : ℕ → ℕ → ℕ
add64 a b = (a + b) % u64_mod

unfoldable pub mul64 : ℕ → ℕ → ℕ
mul64 a b = a * b % u64_mod

unfoldable pub xor64 : ℕ → ℕ → ℕ
xor64 a b = bit_xor a b % u64_mod

unfoldable pub shr64 : ℕ → ℕ → ℕ
shr64 a k = a / 2 ^ k

abbrev pub IsByte : ℕ → Type 0
IsByte b = b < 256

abbrev pub IsWord : ℕ → Type 0
IsWord w = w < 2 ^ 32

-- `pu32`: the four bytes of a word, lowest first.
unfoldable pub le_bytes : ℕ → List ℕ
le_bytes w = (w % 256) ∷ (w / 256 % 256) ∷ (w / 65536 % 256) ∷ (w / 16777216 % 256) ∷ []

-- The word that the first four bytes make; a byte past the end is 0.
unfoldable pub word_of : List ℕ → ℕ
word_of bs = get_or bs 0 0 + 256 * get_or bs 1 0 + 65536 * get_or bs 2 0 + 16777216 * get_or bs 3 0

-- The word whose four bytes stand at `i`.
unfoldable pub word_at : List ℕ → ℕ → ℕ
word_at bs i = word_of (drop i bs)

unfoldable pub words_bytes : List ℕ → List ℕ
unfolding le_bytes
words_bytes [] = []
words_bytes (w ∷ ws) = le_bytes w ++ words_bytes ws

pub length-words_bytes : (ws : List ℕ) → length (words_bytes ws) ≡ 4 * length ws
unfolding words_bytes
length-words_bytes [] = refl
length-words_bytes (w ∷ ws) = omega (arith, length-words_bytes ws)

pub word_of-le_bytes : (w : ℕ) (rest : List ℕ) → IsWord w → word_of (le_bytes w ++ rest) ≡ w
unfolding word_of le_bytes
word_of-le_bytes w rest h = omega arith

-- A word stands behind a prefix of its position's length.
pub word_at-append :
    (xs rest : List ℕ) (w i : ℕ)
    → i ≡ length xs
    → IsWord w
    → word_at (xs ++ (le_bytes w ++ rest)) i ≡ w
unfolding word_at
word_at-append xs rest w i e h =
    ap word_of (drop-append_add xs (le_bytes w ++ rest) i 0 (omega arith))
    ∙ word_of-le_bytes w rest h

-- Behind a prefix of length `m`, what stands at `m + k` is what stands at `k` of the rest.
pub word_at-append_add :
    (xs rest : List ℕ) (n k : ℕ) → n ≡ length xs + k → word_at (xs ++ rest) n ≡ word_at rest k
unfolding word_at
word_at-append_add xs rest n k e = ap word_of (drop-append_add xs rest n k e)

pub length-le_bytes : (w : ℕ) → length (le_bytes w) ≡ 4
unfolding le_bytes
length-le_bytes w = refl

-- In an array of words, the `j`-th stands at `4 * j`.
pub word_at-words_bytes :
    (ws rest : List ℕ) (j i : ℕ)
    → All IsWord ws
    → j < length ws
    → i ≡ 4 * j
    → word_at (words_bytes ws ++ rest) i ≡ get_or ws j 0
unfolding words_bytes
word_at-words_bytes [] rest j i h l e = absurd (omega arith)
word_at-words_bytes (w ∷ ws) rest zero i h l e =
    rw append_assoc (word_at-append [] (words_bytes ws ++ rest) w i (omega arith) h.0)
word_at-words_bytes (w ∷ ws) rest (suc j) i h l e = rw append_assoc (
    word_at-append_add (le_bytes w) (words_bytes ws ++ rest) i (4 * j)
      (omega (arith, length-le_bytes w))
    ∙ word_at-words_bytes ws rest j (4 * j) h.1 (omega arith) refl)
