-- ===== src/Wire/Buffer.antt =====
-- The result buffer [strTableLen:u32][strTable][triples][explanations]: how
-- `buildInferredTripleBuffer` and `buildPropertyTripleBuffer` assemble it.
pub mod Decode
pub mod RoundTrip
use rdf_reasoner_konclude.Base.{
  ℕ, zero, suc, ◌+◌, ◌-◌, ◌*◌, ◌/◌, ◌%◌, ◌^◌, ◌≤◌, ◌<◌, ◌≡◌, ◌≢◌, ◌↔◌, refl, sym, ap, ◌∙◌, subst,
  subst₃, List, [], ◌∷◌, ◌++◌, map, Bool, true, false, not, ◌&&◌, ◌||◌, ltb, leb, if◌then◌else◌,
  arith, length, take, drop, get_or, get_elem?, All, all_of, length-append, take-append,
  drop-append, drop-append_add, get_or-append_left, length-map, Option, none, some, Eq, nat_eq,
  pair_eq, list_eq, list_beq_iff, pair_beq_iff, nat_beq_iff, ◌==◌, Option-cases, Bool-cases, ◌⊎◌,
  inl, inr,
}
use rdf_reasoner_konclude.Base.Words.{
  u32_mod, le_bytes, words_bytes, length-words_bytes, length-le_bytes,
}
use rdf_reasoner_konclude.Wire.Table.{Text, build}
use rdf_reasoner_konclude.Wire.Emit.{Triple, flatten, length-flatten}

pub record JustEntry : Type 0 where
  pub hash : ℕ
  pub axiom_indices : List ℕ

pub record Explanations : Type 0 where
  pub axiom_triples : List Triple
  pub just_entries : List JustEntry
  pub triple_mappings : List (ℕ × ℕ)

-- static_cast<uint32_t>(v.size())
abbrev size32 {ℓ} : {A : Type ℓ} → List A → ℕ
size32 xs = length xs % u32_mod

abbrev pub marker : ℕ
marker = 0xDEADBEEF

unfoldable pub just_words : List JustEntry → List ℕ
just_words [] = []
just_words (je ∷ more) =
    (je.hash / u32_mod % u32_mod)
    ∷ (je.hash % u32_mod)
    ∷ size32 je.axiom_indices
    ∷ (je.axiom_indices ++ just_words more)

unfoldable pub mapping_words : List (ℕ × ℕ) → List ℕ
mapping_words [] = []
mapping_words ((ti, ji) ∷ more) = ti ∷ ji ∷ mapping_words more

-- What is written behind the triples when explanations are wanted.
unfoldable pub explanation_words : ℕ → Explanations → List ℕ
unfolding just_words mapping_words
explanation_words triple_count x =
    marker
    ∷ triple_count
    ∷ size32 x.axiom_triples
    ∷ (flatten x.axiom_triples
        ++ (size32 x.just_entries
            ∷ (just_words x.just_entries
                ++ (size32 x.triple_mappings ∷ mapping_words x.triple_mappings))))

-- The bytes that the `pu32` calls and the `memcpy` write, in order.
unfoldable pub assemble : List Text → List ℕ → Option Explanations → List ℕ
unfolding explanation_words
assemble strings ids explanations =
    le_bytes (length (build strings) % u32_mod)
    ++ (build strings
        ++ (words_bytes ids ++ elim explanations [
          | none ↦ []
          | some x ↦ words_bytes (explanation_words (length ids / 3 % u32_mod) x)
        ]))

-- The loop that adds 12 + 4 bytes for each axiom index.
unfoldable pub just_size : List JustEntry → ℕ
just_size [] = 0
just_size (je ∷ more) = 12 + length je.axiom_indices * 4 + just_size more

-- `totalLen`, to which the buffer is resized before the first write.
unfoldable pub total_len : List Text → List ℕ → Option Explanations → ℕ
unfolding just_size
total_len strings ids explanations =
    4 + length (build strings) % u32_mod + length ids * 4 + elim explanations [
      | none ↦ 0
      | some x ↦
          8
          + (4 + length x.axiom_triples * 12)
          + 4
          + just_size x.just_entries
          + (4 + length x.triple_mappings * 8)
    ]

length-just_words : (js : List JustEntry) → 4 * length (just_words js) ≡ just_size js
unfolding just_words just_size
length-just_words [] = refl
length-just_words (je ∷ more) =
    omega (arith, length-append je.axiom_indices (just_words more), length-just_words more)

length-mapping_words : (ms : List (ℕ × ℕ)) → length (mapping_words ms) ≡ 2 * length ms
unfolding mapping_words
length-mapping_words [] = refl
length-mapping_words ((ti, ji) ∷ more) = omega (arith, length-mapping_words more)

length-explanation_words :
    (n : ℕ) (x : Explanations)
    → 4 * length (explanation_words n x)
      ≡ 8
        + (4 + length x.axiom_triples * 12)
        + 4
        + just_size x.just_entries
        + (4 + length x.triple_mappings * 8)
unfolding explanation_words
length-explanation_words n x = omega (
  arith,
  length-flatten x.axiom_triples,
  length-just_words x.just_entries,
  length-mapping_words x.triple_mappings,
  length-append (just_words x.just_entries)
      (size32 x.triple_mappings ∷ mapping_words x.triple_mappings),
  length-append (flatten x.axiom_triples) (
      size32 x.just_entries
      ∷ (just_words x.just_entries
          ++ (size32 x.triple_mappings ∷ mapping_words x.triple_mappings))),
)

-- With a string table shorter than 2^32 bytes, the writes fill the buffer exactly: their number is
-- the length to which it was resized, with explanations and without.
pub length-assemble :
    (strings : List Text) (ids : List ℕ) (explanations : Option Explanations)
    → length (build strings) < 2 ^ 32
    → length (assemble strings ids explanations) ≡ total_len strings ids explanations
unfolding assemble total_len
length-assemble strings ids none small = omega (
  arith,
  length-append (le_bytes (length (build strings) % u32_mod))
      (build strings ++ (words_bytes ids ++ [])),
  length-le_bytes (length (build strings) % u32_mod),
  length-append (build strings) (words_bytes ids ++ []),
  length-append (words_bytes ids) [],
  length-words_bytes ids,
)
length-assemble strings ids (some x) small =
    let more = explanation_words (length ids / 3 % u32_mod) x in
    omega (
      arith,
      length-append (le_bytes (length (build strings) % u32_mod))
          (build strings ++ (words_bytes ids ++ words_bytes more)),
      length-le_bytes (length (build strings) % u32_mod),
      length-append (build strings) (words_bytes ids ++ words_bytes more),
      length-append (words_bytes ids) (words_bytes more),
      length-words_bytes ids,
      length-words_bytes more,
      length-explanation_words (length ids / 3 % u32_mod) x,
    )
