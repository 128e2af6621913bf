-- ===== src/Content/Hash.antt =====
-- `mix64` and `hashBytes` of src/KoncludeReasoner.cpp: two FNV-like streams with a final mix.
use rdf_reasoner_konclude.Base.{ℕ, [], ◌∷◌, length, nat_eq, pair_eq, list_eq}
use rdf_reasoner_konclude.Base.Words.{add64, mul64, xor64, shr64}
use rdf_reasoner_konclude.Wire.Table.{Text}

-- ContentH128
abbrev pub H128 : Type 0
H128 = ℕ × ℕ

unfoldable pub mix64 : ℕ → ℕ
unfolding add64 mul64 xor64 shr64
mix64 x =
    let y = add64 x 0x9e3779b97f4a7c15 in
    let z = mul64 (xor64 y (shr64 y 30)) 0xbf58476d1ce4e5b9 in
    let w = mul64 (xor64 z (shr64 z 27)) 0x94d049bb133111eb in xor64 w (shr64 w 31)

-- One byte of the two streams.
unfoldable pub hash_step : H128 → ℕ → H128
unfolding add64 mul64 xor64 shr64
hash_step (h1, h2) c =
    let g = mul64 (add64 (add64 h2 c) 1) 0x9fb21c651e98df25 in
    (mul64 (xor64 h1 c) 1099511628211, xor64 g (shr64 g 29))

unfoldable pub hash_stream : H128 → Text → H128
unfolding hash_step
hash_stream h [] = h
hash_stream h (c ∷ cs) = hash_stream (hash_step h c) cs

unfoldable pub hash_bytes : ℕ → Text → H128
unfolding hash_stream mix64
hash_bytes tag bytes =
    let (h1, h2) =
      hash_stream
        (
          xor64 14695981039346656037 (add64 tag 1),
          add64 0x6a09e667f3bcc908 (mul64 tag 0x100000001b3),
        )
        bytes in
    (mix64 (xor64 h1 (length bytes)), mix64 (add64 h2 (length bytes)))

-- The hash of a triple from those of its terms.
unfoldable pub hash_triple : H128 → H128 → H128 → H128
unfolding mix64
hash_triple s p o = (
  mix64 (xor64 s.0 (mix64 (xor64 p.0 (mix64 (add64 o.0 1))))),
  mix64 (add64 s.1 (mix64 (add64 p.1 (mix64 (xor64 o.1 0x5851f42d4c957f2d))))),
)
