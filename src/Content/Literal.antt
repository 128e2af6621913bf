-- ===== src/Content/Literal.antt =====
-- A literal's entry "value\0datatype\0language", read twice in src/KoncludeReasoner.cpp: by
-- `normaliseLiteral` for the digest, and by `makeNode` of `buildOntology` for the ontology.
use mathlib.Core.List.{append_assoc}
use rdf_reasoner_konclude.Base.{
  ℕ, ◌+◌, ◌≡◌, refl, sym, ap, ◌∙◌, [], ◌∷◌, ◌++◌, not, ◌||◌, ltb, if◌then◌else◌, arith, length,
  drop, length-append, drop-append_add, Option, none, some, nat_eq, pair_eq, list_eq, ◌==◌,
  Bool-cases, ◌⊎◌, inl, inr,
}
use rdf_reasoner_konclude.Wire.Table.{Text}

-- memchr(p, '\0', n): the bytes in front of the first NUL, and those behind it if there is one.
unfoldable pub split_nul : Text → Text × Option Text
split_nul [] = ([], none)
split_nul (c ∷ cs) =
    let (front, back) = split_nul cs in if c == 0 then ([], some cs) else (c ∷ front, back)

-- The third segment: what follows the datatype's NUL, if anything does.
abbrev normalised_language : Option Text → Text
normalised_language none = []
normalised_language (some []) = []
normalised_language (some (c ∷ cs)) = (split_nul (c ∷ cs)).0

-- out, dt and lang of `normaliseLiteral`
unfoldable pub normalise_literal : Text → Text
unfolding split_nul
normalise_literal bytes =
    let (value, behind) = split_nul bytes in
    elim behind [
      | none ↦ value ++ (0 ∷ 0 ∷ [])
      | some d ↦
          let (datatype, rest) = split_nul d in
          value ++ (0 ∷ (datatype ++ (0 ∷ normalised_language rest)))
    ]

pub record Literal : Type 0 where
  pub value : Text
  pub datatype : Text
  pub language : Text

-- The pointer arithmetic of `makeNode`: the language begins behind the value, the datatype and two
-- NULs, and is empty if that is past the end.
abbrev decoded_language : Text → ℕ → Text
decoded_language bytes at = if ltb at (length bytes) then (split_nul (drop at bytes)).0 else []

unfoldable pub decode_literal : Text → Literal
unfolding split_nul
decode_literal bytes =
    let value = (split_nul bytes).0 in
    let value_end = length value in
    let datatype =
      if ltb value_end (length bytes) then (split_nul (drop (value_end + 1) bytes)).0 else [] in
    record {
      value = value;
      datatype = datatype;
      language =
          if not (length datatype == 0) || ltb value_end (length bytes)
          then decoded_language bytes (
              if not (length datatype == 0)
              then value_end + 1 + length datatype + 1
              else value_end + 1 + 1)
          else [];
    }

split_cases :
    (bytes : Text)
    → (split_nul bytes ≡ (bytes, none))
      ⊎ ((front back : Text) × (split_nul bytes ≡ (front, some back))
          × (bytes ≡ front ++ (0 ∷ back)))
unfolding split_nul
split_cases [] = inl refl
split_cases (c ∷ cs) = elim (Bool-cases (c == 0)) [
  | inl nul ↦ inr ([], cs, rw nul, ground arith)
  | inr other ↦ elim (split_cases cs) [
    | inl e ↦ inl (ground arith)
    | inr (front, back, e, q) ↦ inr (c ∷ front, back, ground arith, ap (◌∷◌ c) q)
  ]
]

-- Behind a front and a NUL.
drop_front :
    (front back bytes : Text) (n : ℕ)
    → bytes ≡ front ++ (0 ∷ back)
    → n ≡ length front + 1
    → drop n bytes ≡ back
drop_front front back bytes n q e = ap (drop n) q ∙ drop-append_add front (0 ∷ back) n 1 e

length_parts :
    (front back bytes : Text)
    → bytes ≡ front ++ (0 ∷ back)
    → length bytes ≡ length front + 1 + length back
length_parts front back bytes q = omega (arith, ap length q, length-append front (0 ∷ back))

decode_one_segment :
    (bytes : Text)
    → split_nul bytes ≡ (bytes, none)
    → decode_literal bytes ≡ record { value = bytes; datatype = []; language = [] }
unfolding decode_literal
decode_one_segment bytes e = ground (arith, e)

module _ (bytes v d : Text) (e : split_nul bytes ≡ (v, some d)) (q : bytes ≡ v ++ (0 ∷ d)) where
  decode_two_segments :
      split_nul d ≡ (d, none)
      → decode_literal bytes ≡ record { value = v; datatype = d; language = [] }
  unfolding decode_literal
  decode_two_segments f =
      ground (arith, e, f, length_parts v d bytes q, drop_front v d bytes (length v + 1) q refl)

  -- The language begins behind both NULs, also where the datatype is empty.
  drop_two :
      (dt l : Text) (n : ℕ)
      → d ≡ dt ++ (0 ∷ l)
      → n ≡ length v + 1 + length dt + 1
      → drop n bytes ≡ l
  drop_two dt l n r m =
      drop_front (v ++ (0 ∷ dt)) l bytes n
        (q ∙ (ap (λ (x : Text). v ++ (0 ∷ x)) r ∙ sym (append_assoc v (0 ∷ dt) (0 ∷ l))))
        (omega (arith, length-append v (0 ∷ dt)))

  decode_three_segments :
      (dt l : Text)
      → split_nul d ≡ (dt, some l)
      → d ≡ dt ++ (0 ∷ l)
      → decode_literal bytes
        ≡ record { value = v; datatype = dt; language = normalised_language (some l) }
  unfolding decode_literal
  decode_three_segments [] [] f r = ground (
    arith,
    e,
    f,
    length_parts v d bytes q,
    length_parts [] [] d r,
    drop_front v d bytes (length v + 1) q refl,
  )
  decode_three_segments [] (c ∷ cs) f r = ground (
    arith,
    e,
    f,
    length_parts v d bytes q,
    length_parts [] (c ∷ cs) d r,
    drop_front v d bytes (length v + 1) q refl,
    drop_two [] (c ∷ cs) (length v + 1 + 1) r (omega arith),
  )
  decode_three_segments (x ∷ dt) [] f r = ground (
    arith,
    e,
    f,
    length_parts v d bytes q,
    length_parts (x ∷ dt) [] d r,
    drop_front v d bytes (length v + 1) q refl,
  )
  decode_three_segments (x ∷ dt) (c ∷ cs) f r = ground (
    arith,
    e,
    f,
    length_parts v d bytes q,
    length_parts (x ∷ dt) (c ∷ cs) d r,
    drop_front v d bytes (length v + 1) q refl,
    drop_two (x ∷ dt) (c ∷ cs) (length v + 1 + length (x ∷ dt) + 1) r refl,
  )

-- `normaliseLiteral` keeps exactly what the loader's decoder reads: the two codings of the split,
-- one by successive `memchr` and one by offsets, agree on every entry, cut short or not.
pub normalise-decode :
    (bytes : Text)
    → normalise_literal bytes
      ≡ (decode_literal bytes).value
        ++ (0 ∷ ((decode_literal bytes).datatype ++ (0 ∷ (decode_literal bytes).language)))
unfolding normalise_literal
normalise-decode bytes = elim (split_cases bytes) [
  | inl e ↦ rw (decode_one_segment bytes e) (ground (arith, e))
  | inr (v, d, e, q) ↦ elim (split_cases d) [
    | inl f ↦ rw (decode_two_segments bytes v d e q f) (ground (arith, e, f))
    | inr (dt, l, f, r) ↦ rw (decode_three_segments bytes v d e q dt l f r) (ground (arith, e, f))
  ]
]
