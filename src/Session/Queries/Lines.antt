-- ===== src/Session/Queries/Lines.antt =====
-- The text that `buildUnsatisfiableClassBuffer` returns.
use rdf_reasoner_konclude.Base.{
  ℕ, ◌≡◌, refl, ap, ◌∙◌, List, [], ◌∷◌, ◌++◌, All, false, if◌then◌else◌, nat_eq, ◌==◌, arith,
}
use rdf_reasoner_konclude.Base.Sets.{contains}
use rdf_reasoner_konclude.Wire.Table.{Text}
use rdf_reasoner_konclude.Session.Queries.{join_lines}

-- The lines of a text, by its newlines.
abbrev pub first_line : ℕ → List Text → List Text
first_line c [] = (c ∷ []) ∷ []
first_line c (line ∷ lines) = (c ∷ line) ∷ lines

abbrev pub split_lines : Text → List Text
split_lines [] = [] ∷ []
split_lines (c ∷ cs) = let rest = split_lines cs in if c == 10 then [] ∷ rest else first_line c rest

abbrev pub HasNoNewline : Text → Type 0
HasNoNewline t = contains t 10 ≡ false

split_lines-front :
    (t rest : Text) → HasNoNewline t → split_lines (t ++ (10 ∷ rest)) ≡ t ∷ split_lines rest
split_lines-front [] rest h = refl
split_lines-front (c ∷ t) rest h = ground (arith, h, split_lines-front t rest)

split_lines-one : (t : Text) → HasNoNewline t → split_lines t ≡ t ∷ []
split_lines-one [] h = refl
split_lines-one (c ∷ t) h = ground (arith, h, split_lines-one t)

-- The buffer of unsatisfiable classes can be read back: split at its newlines, the joined text of one
-- or more IRIs without a newline gives these IRIs.
pub split_lines-join_lines :
    (iri : Text) (more : List Text)
    → All HasNoNewline (iri ∷ more)
    → split_lines (join_lines (iri ∷ more)) ≡ iri ∷ more
unfolding join_lines
split_lines-join_lines iri [] h = split_lines-one iri h.0
split_lines-join_lines iri (next ∷ more) h =
    split_lines-front iri (join_lines (next ∷ more)) h.0
    ∙ ap (λ t. iri ∷ t) (split_lines-join_lines next more h.1)
