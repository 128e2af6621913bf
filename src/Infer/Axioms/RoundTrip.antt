-- ===== src/Infer/Axioms/RoundTrip.antt =====
-- Reading back the lines that the scans write.
use native.Mathlib.Omega.{arith}
use mathlib.Core.Path.{refl, sym, ap, ap₂, ◌∙◌}
use mathlib.Core.List.{append_assoc, append-nil}
use rdf_reasoner_konclude.Base.{ℕ, ◌≡◌, List, [], ◌∷◌, ◌++◌, false, some, nat_eq, ◌==◌, nat_beq_iff}
use rdf_reasoner_konclude.Base.Sets.{contains, contains-append}
use rdf_reasoner_konclude.Wire.Table.{Text}
use rdf_reasoner_konclude.Scan.Terms.{bytes}
use rdf_reasoner_konclude.Scan.Lines.{nt_line}
use rdf_reasoner_konclude.Infer.Axioms.{
  split_at, parse_line, lines_from, keep_parsed, parse_all, parse_n_triples,
}

-- A text without `>` and without a line end.
abbrev pub IsPlain : Text → Type 0
IsPlain s = (contains s 62 ≡ false) × (contains s 10 ≡ false)

abbrev pub AllPlain : List (Text × (Text × Text)) → Type 0
AllPlain [] = Unit
AllPlain ((s, (p, o)) ∷ ts) = (IsPlain s × (IsPlain p × IsPlain o)) × AllPlain ts

-- What a scan writes for some triples.
unfoldable pub nt_lines : List (Text × (Text × Text)) → Text
unfolding nt_line
nt_lines [] = []
nt_lines ((s, (p, o)) ∷ ts) = nt_line s p o ++ nt_lines ts

split_at_here :
    (c : ℕ) (s r : Text) → contains s c ≡ false → split_at c (s ++ (c ∷ r)) ≡ some (s, r)
split_at_here c [] r h = rw ((nat_beq_iff c c).1 refl) refl
split_at_here c (x ∷ s) r h =
    let other : (x == c) ≡ false = ground (arith, h) in
    rw other (rw (split_at_here c s r (ground (arith, h))) refl)

lines_from-line :
    (line l r : Text)
    → contains l 10 ≡ false
    → lines_from line (l ++ (10 ∷ r)) ≡ (line ++ l) ∷ lines_from [] r
unfolding lines_from
lines_from-line line [] r h = ap (λ l. l ∷ lines_from [] r) (sym (append-nil line))
lines_from-line line (x ∷ l) r h =
    let other : (x == 10) ≡ false = ground (arith, h) in
    rw other (
      lines_from-line (line ++ (x ∷ [])) l r (ground (arith, h))
      ∙ ap (λ u. u ∷ lines_from [] r) (append_assoc line (x ∷ []) l))

-- The line without its end.
abbrev line_of : Text → Text → Text → Text
line_of s p o = bytes "<" ++ (s ++ (bytes "> <" ++ (p ++ (bytes "> <" ++ (o ++ bytes "> .")))))

parse_line-line_of :
    (s p o : Text)
    → IsPlain s
    → IsPlain p
    → IsPlain o
    → parse_line (line_of s p o) ≡ some (s, (p, o))
unfolding parse_line
parse_line-line_of s p o hs hp ho =
    rw (split_at_here 62 s (bytes " <" ++ (p ++ (bytes "> <" ++ (o ++ bytes "> .")))) hs.0) (
      rw (split_at_here 62 p (bytes " <" ++ (o ++ bytes "> .")) hp.0)
        (rw (split_at_here 62 o (bytes " .") ho.0) refl))

nt_line-line_of : (s p o r : Text) → nt_line s p o ++ r ≡ line_of s p o ++ (10 ∷ r)
unfolding nt_line
nt_line-line_of s p o r = simp append_assoc

line_of-no_end :
    (s p o : Text) → IsPlain s → IsPlain p → IsPlain o → contains (line_of s p o) 10 ≡ false
line_of-no_end s p o hs hp ho = ground (
  arith,
  contains-append s (bytes "> <" ++ (p ++ (bytes "> <" ++ (o ++ bytes "> .")))) 10,
  contains-append p (bytes "> <" ++ (o ++ bytes "> .")) 10,
  contains-append o (bytes "> .") 10,
  hs.1,
  hp.1,
  ho.1,
)

-- The lines that are written for triples of texts without `>` and line ends are read back as these
-- triples.
pub parse_n_triples-nt_lines :
    (ts : List (Text × (Text × Text))) → AllPlain ts → parse_n_triples (nt_lines ts) ≡ ts
unfolding parse_n_triples nt_lines
parse_n_triples-nt_lines [] h = refl
parse_n_triples-nt_lines ((s, (p, o)) ∷ ts) ((hs, (hp, ho)), h) =
    ap parse_all (
      ap (lines_from []) (nt_line-line_of s p o (nt_lines ts))
      ∙ lines_from-line [] (line_of s p o) (nt_lines ts) (line_of-no_end s p o hs hp ho))
    ∙ ap₂ keep_parsed (parse_line-line_of s p o hs hp ho) (parse_n_triples-nt_lines ts h)
