-- ===== src/Wire/Intern.antt =====
-- `InternTable` of src/KoncludeReasoner.cpp: strings get sequential ids, with the term type in the
-- two highest bits.
pub mod History
use Prim.Native.Nat.{bit_or, bit_or-bitwise}
use rdf_reasoner_konclude.Base.{
  All, ◌≤◌, ℕ, zero, suc, ◌+◌, ◌*◌, ◌/◌, ◌%◌, ◌^◌, ◌<◌, ◌≡◌, refl, sym, ◌∙◌, List, [], ◌∷◌, ◌++◌,
  ltb, if◌then◌else◌, arith, length, get_or, length-append, none, some, get_or-append_left, list_eq,
  nat_eq, list_beq_iff, subst₃, Option-cases, Bool-cases, ◌==◌, ◌⊎◌, inl, inr,
}
use rdf_reasoner_konclude.Base.Dicts.{lookup, assign, lookup-assign}
use rdf_reasoner_konclude.Wire.Table.{Text}
use mathlib.Core.List.{append-nil}

-- std::to_string of an unsigned number; ten digits are enough for a uint32_t.
abbrev to_string_fuel : ℕ → ℕ → Text
to_string_fuel zero n = (48 + n % 10) ∷ []
to_string_fuel (suc fuel) n =
    let front = to_string_fuel fuel (n / 10) in
    if ltb n 10 then (48 + n) ∷ [] else front ++ (48 + n % 10) ∷ []

unfoldable pub to_string : ℕ → Text
to_string n = to_string_fuel 9 n

-- std::to_string(typeTag) + "\x01" + s
unfoldable pub intern_key : Text → ℕ → Text
unfolding to_string
intern_key s tag = to_string tag ++ (1 ∷ s)

pub record InternTable : Type 0 where
  pub index : List (Text × ℕ)
  pub strings : List Text

abbrev pub empty_table : InternTable
empty_table = record { index = []; strings = [] }

-- `size | (tag << 30)`: the digits below bit 30 are those of `size`, the two above are or-ed.
unfoldable pub pack_id : ℕ → ℕ → ℕ
pack_id size tag = size % 2 ^ 30 + 2 ^ 30 * bit_or (size / 2 ^ 30) tag

-- id & 0x3FFFFFFF, id >> 30
unfoldable pub id_index : ℕ → ℕ
id_index id = id % 2 ^ 30

unfoldable pub id_tag : ℕ → ℕ
id_tag id = id / 2 ^ 30

unfoldable pub intern : Text → ℕ → InternTable → ℕ × InternTable
unfolding intern_key pack_id
intern s tag t = elim (lookup (intern_key s tag) t.index) [
  | some id ↦ (id, t)
  | none ↦
      let id = pack_id (length t.strings % 2 ^ 32) tag in
      (id, record { index = assign (intern_key s tag) id t.index; strings = t.strings ++ s ∷ [] })
]

pub pack_id_index : (n tag : ℕ) → n < 2 ^ 30 → id_index (pack_id n tag) ≡ n
unfolding pack_id id_index
pack_id_index n tag h = omega arith

zero-bit_or : (b : ℕ) → bit_or 0 b ≡ b
zero-bit_or b = bit_or-bitwise 0 b

pub pack_id_tag : (n tag : ℕ) → n < 2 ^ 30 → id_tag (pack_id n tag) ≡ tag
unfolding pack_id id_tag
pack_id_tag n tag h =
    let e : n / 2 ^ 30 ≡ 0 = omega arith in rw e (rw (zero-bit_or tag) (omega arith))

intern_key_lem : (s : Text) (a : ℕ) → a < 10 → intern_key s a ≡ (48 + a) ∷ 1 ∷ s
unfolding intern_key
intern_key_lem s a h = ground arith

-- The keys of different terms differ.
pub intern_key_injective :
    (s r : Text) (a b : ℕ) → a < 3 → b < 3 → intern_key s a ≡ intern_key r b → (s ≡ r) × (a ≡ b)
intern_key_injective s r a b ha hb e = ground (arith, intern_key_lem s a, intern_key_lem r b)

-- `id` is the known id of the term: its bits give back the string and the type tag.
pub record Resolves (t : InternTable) (s : Text) (tag id : ℕ) : Type 0 where
  pub within : id_index id < length t.strings
  pub text : get_or t.strings (id_index id) [] ≡ s
  pub type_tag : id_tag id ≡ tag

-- Every id in the index resolves to the term that it was made for.
pub record IsValid (t : InternTable) : Type 0 where
  pub known :
      (s : Text) (tag id : ℕ)
      → tag < 3
      → lookup (intern_key s tag) t.index ≡ some id
      → Resolves t s tag id

pub empty-IsValid : IsValid empty_table
empty-IsValid = record { known = λ s tag id h e. absurd (cc) }

-- A table with one more string resolves what it resolved.
Resolves-append :
    {t u : InternTable} {s : Text} {tag id : ℕ} (more : List Text)
    → u.strings ≡ t.strings ++ more
    → Resolves t s tag id
    → Resolves u s tag id
Resolves-append {t} {u} {s} {tag} {id} more e r = record {
  within = rw e (omega (arith, length-append t.strings more, r.within));
  text = rw e (get_or-append_left t.strings more (id_index id) [] r.within ∙ r.text);
  type_tag = r.type_tag;
}

get_or-length : (xs : List Text) (s : Text) (n : ℕ) → n ≡ length xs → get_or (xs ++ s ∷ []) n [] ≡ s
get_or-length [] s zero e = refl
get_or-length [] s (suc n) e = absurd (omega arith)
get_or-length (x ∷ xs) s zero e = absurd (omega arith)
get_or-length (x ∷ xs) s (suc n) e = get_or-length xs s n (omega arith)

module _ (s : Text) (tag : ℕ) (t : InternTable) where
  -- Either the term was known and nothing changes, or a string and an entry are added.
  pub intern_cases :
      ((id : ℕ) × (lookup (intern_key s tag) t.index ≡ some id) × (intern s tag t ≡ (id, t)))
      ⊎ ((lookup (intern_key s tag) t.index ≡ none)
          × (intern s tag t ≡ (
            pack_id (length t.strings % 2 ^ 32) tag,
            record {
              index = assign (intern_key s tag) (pack_id (length t.strings % 2 ^ 32) tag) t.index;
              strings = t.strings ++ s ∷ [];
            },
          )))
  unfolding intern
  intern_cases = elim (Option-cases (lookup (intern_key s tag) t.index)) [
    | inl e ↦ inr (e, rw (e, intern))
    | inr (id, e) ↦ inl (id, e, rw (e, intern))
  ]

  pub strings-intern : (more : List Text) × ((intern s tag t).1.strings ≡ t.strings ++ more)
  strings-intern = elim intern_cases [
    | inl (id, e, r) ↦ ([], rw r (sym (append-nil t.strings)))
    | inr (e, r) ↦ (s ∷ [], rw r)
  ]

  abbrev fresh_id : ℕ
  fresh_id = pack_id (length t.strings % 2 ^ 32) tag

  abbrev extended : InternTable
  extended = record {
    index = assign (intern_key s tag) fresh_id t.index;
    strings = t.strings ++ s ∷ [];
  }

  module _ (small : length t.strings < 2 ^ 30) where
    fresh_index : id_index fresh_id ≡ length t.strings
    fresh_index = pack_id_index (length t.strings % 2 ^ 32) tag (omega arith) ∙ omega arith

    fresh-Resolves : Resolves extended s tag fresh_id
    fresh-Resolves = record {
      within = omega (arith, fresh_index, length-append t.strings (s ∷ []));
      text = get_or-length t.strings s (id_index fresh_id) fresh_index;
      type_tag = pack_id_tag (length t.strings % 2 ^ 32) tag (omega arith);
    }

    extended-IsValid : tag < 3 → IsValid t → IsValid extended
    extended-IsValid kind v = record {
      known = λ r tag' id h e. elim (Bool-cases (intern_key s tag == intern_key r tag')) [
        | inl same ↦
            let (es, et) = intern_key_injective s r tag tag' kind h ((list_beq_iff _ _).0 same) in
            let ei : fresh_id ≡ id =
              cc (lookup-assign (intern_key s tag) (intern_key r tag') fresh_id t.index, same, e) in
            subst₃ (Resolves extended) es et ei fresh-Resolves
        | inr differs ↦
            let old : lookup (intern_key r tag') t.index ≡ some id =
              (rw differs at
                (sym (lookup-assign (intern_key s tag) (intern_key r tag') fresh_id t.index)))
              ∙ e in
            Resolves-append (s ∷ []) refl (v.known r tag' id h old)
      ];
    }

    pub intern-Resolves : IsValid t → tag < 3 → Resolves (intern s tag t).1 s tag (intern s tag t).0
    intern-Resolves v kind = elim intern_cases [
      | inl (id, e, r) ↦ rw r (v.known s tag id kind e)
      | inr (e, r) ↦ rw r fresh-Resolves
    ]

    pub intern-IsValid : tag < 3 → IsValid t → IsValid (intern s tag t).1
    intern-IsValid kind v = elim intern_cases [
      | inl (id, e, r) ↦ rw r v
      | inr (e, r) ↦ rw r (extended-IsValid kind v)
    ]

  -- What resolved before still does.
  pub intern-keeps :
      {r : Text} {tag' id : ℕ} → Resolves t r tag' id → Resolves (intern s tag t).1 r tag' id
  intern-keeps h = let (more, e) = strings-intern in Resolves-append more e h
