-- ===== src/Infer/Axioms.antt =====
-- `parseNTriplesToAxiomIndices`: a justification is read back as triples of ids.
pub mod RoundTrip
use rdf_reasoner_konclude.Base.{
  ℕ, List, [], ◌∷◌, ◌++◌, Bool, true, false, if◌then◌else◌, Option, none, some, nat_eq, ◌==◌,
}
use rdf_reasoner_konclude.Base.Loops.{for_each, when_some}
use rdf_reasoner_konclude.Wire.Table.{Text}
use rdf_reasoner_konclude.Wire.Intern.{InternTable, intern}
use rdf_reasoner_konclude.Wire.Emit.{Triple}

-- The text in front of the first occurrence of a character, and the text behind it.
abbrev in_front : ℕ → Option (Text × Text) → Option (Text × Text)
in_front c none = none
in_front c (some (a, b)) = some (c ∷ a, b)

abbrev pub split_at : ℕ → Text → Option (Text × Text)
split_at c [] = none
split_at c (x ∷ xs) = if x == c then some ([], xs) else in_front x (split_at c xs)

-- The searches of one line, each behind the last: `>` ends the subject, `<` and `>` enclose the
-- predicate and then the object.
abbrev pub object_end : Text → Text → Option (Text × Text) → Option (Text × (Text × Text))
object_end s p none = none
object_end s p (some (o, r)) = some (s, (p, o))

abbrev pub object_start : Text → Text → Option (Text × Text) → Option (Text × (Text × Text))
object_start s p none = none
object_start s p (some (_, r)) = object_end s p (split_at 62 r)

abbrev pub predicate_end : Text → Option (Text × Text) → Option (Text × (Text × Text))
predicate_end s none = none
predicate_end s (some (p, r)) = object_start s p (split_at 60 r)

abbrev pub predicate_start : Text → Option (Text × Text) → Option (Text × (Text × Text))
predicate_start s none = none
predicate_start s (some (_, r)) = predicate_end s (split_at 62 r)

abbrev pub subject_end : Option (Text × Text) → Option (Text × (Text × Text))
subject_end none = none
subject_end (some (s, r)) = predicate_start s (split_at 60 r)

unfoldable pub parse_line : Text → Option (Text × (Text × Text))
parse_line [] = none
parse_line (c ∷ line) = if c == 60 then subject_end (split_at 62 line) else none

-- The lines of a text; a last one without a line end counts unless it is empty.
unfoldable pub lines_from : Text → Text → List Text
lines_from [] [] = []
lines_from (c ∷ line) [] = (c ∷ line) ∷ []
lines_from line (c ∷ cs) =
    if c == 10 then line ∷ lines_from [] cs else lines_from (line ++ (c ∷ [])) cs

abbrev pub keep_parsed :
    Option (Text × (Text × Text)) → List (Text × (Text × Text)) → List (Text × (Text × Text))
keep_parsed none ts = ts
keep_parsed (some t) ts = t ∷ ts

abbrev pub parse_all : List Text → List (Text × (Text × Text))
parse_all [] = []
parse_all (line ∷ lines) = keep_parsed (parse_line line) (parse_all lines)

unfoldable pub parse_n_triples : Text → List (Text × (Text × Text))
unfolding lines_from parse_line
parse_n_triples text = parse_all (lines_from [] text)

-- result.emplace_back(intern(s), intern(p), intern(o)), from the left
abbrev add_axiom : Text × (Text × Text) → List Triple × InternTable → List Triple × InternTable
add_axiom (s, (p, o)) (result, table) =
    let subject = intern s 0 table in
    let predicate = intern p 0 subject.1 in
    let object = intern o 0 predicate.1 in
    (result ++ ((subject.0, (predicate.0, object.0)) ∷ []), object.1)

unfoldable pub axiom_indices : Text → InternTable → List Triple × InternTable
unfolding parse_n_triples intern
axiom_indices text table = for_each add_axiom (parse_n_triples text) ([], table)
