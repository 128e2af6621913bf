-- ===== src/Scan/Functional.antt =====
-- The scan for functional and inverse functional properties with several fillers, which runs for
-- realization only, before the triples are inserted.
pub mod Symmetric
use rdf_reasoner_konclude.Base.{
  ℕ, ◌+◌, ◌*◌, ◌^◌, ◌≡◌, List, [], ◌∷◌, ◌++◌, Bool, true, false, not, ◌||◌, ◌&&◌, ltb,
  if◌then◌else◌, Option, none, some, length, nat_eq, list_eq, ◌==◌,
}
use rdf_reasoner_konclude.Base.Sets.{contains, insert}
use rdf_reasoner_konclude.Base.Dicts.{assign}
use rdf_reasoner_konclude.Base.Entries.{push_value}
use rdf_reasoner_konclude.Scan.Lines.{work_key, nt_line, rdf_type_iri}
use rdf_reasoner_konclude.Wire.Table.{Text}
use rdf_reasoner_konclude.Wire.Intern.{id_index, id_tag}
use rdf_reasoner_konclude.Wire.Emit.{Triple}
use rdf_reasoner_konclude.Scan.Terms.{bytes, find_term, text_at, is_named, is_term}

-- mFpIfpSameAsPairs, the entries that the scan adds to mWorkaroundJustifications, and
-- fpIfpDeclSkipSet
pub record Functional : Type 0 where
  pub same_as_pairs : List (Text × Text)
  pub justifications : List (Text × Text)
  pub skipped : List ℕ

abbrev owl_same_as : Text
owl_same_as = bytes "http://www.w3.org/2002/07/owl#sameAs"

abbrev pub functional_iri : Text
functional_iri = bytes "http://www.w3.org/2002/07/owl#FunctionalProperty"

abbrev pub inverse_functional_iri : Text
inverse_functional_iri = bytes "http://www.w3.org/2002/07/owl#InverseFunctionalProperty"

-- fpPropIdxsPre or ifpPropIdxsPre: the properties with a named declaration of the given type
unfoldable pub declared : Option ℕ → Option ℕ → List Triple → List ℕ → List ℕ
unfolding is_term
declared rdf_type kind [] props = props
declared rdf_type kind ((s, (p, o)) ∷ ts) props = declared rdf_type kind ts (
    if is_term rdf_type p && is_named s && is_named o && is_term kind (id_index o)
    then insert (id_index s) props
    else props)

-- The objects of a property by subject, or its subjects by object.
unfoldable pub by_group : ℕ → ℕ → Bool → List Triple → List (ℕ × List ℕ) → List (ℕ × List ℕ)
by_group count prop by_subj [] m = m
by_group count prop by_subj ((s, (p, o)) ∷ ts) m = by_group count prop by_subj ts (
    if p == prop && is_named s && is_named o && ltb (id_index s) count && ltb (id_index o) count
    then (if by_subj
        then push_value (id_index s) (id_index o) m
        else push_value (id_index o) (id_index s) m)
    else m)

-- What a pair of fillers of one individual adds.
unfoldable pub add_same_as : Text → Text → Text → Bool → Text → Text → Functional → Functional
unfolding nt_line work_key
add_same_as prop_iri declaration individual by_subj a b f =
    let just =
      declaration
      ++ (if by_subj
          then nt_line individual prop_iri a ++ nt_line individual prop_iri b
          else nt_line a prop_iri individual ++ nt_line b prop_iri individual) in
    record f {
      same_as_pairs = f.same_as_pairs ++ ((a, b) ∷ (b, a) ∷ []);
      justifications =
          assign (work_key b owl_same_as a) just
            (assign (work_key a owl_same_as b) just f.justifications);
    }

module _ (terms : List Text) (prop_iri declaration : Text) (by_subj : Bool) where
  -- the inner loop: one filler with those behind it
  unfoldable pub pair_with : ℕ → ℕ → List ℕ → Functional → Functional
  pair_with k v [] f = f
  pair_with k v (w ∷ ws) f = pair_with k v ws (
      if ltb v (length terms) && ltb w (length terms)
      then add_same_as prop_iri declaration (text_at terms k) by_subj (text_at terms v)
          (text_at terms w) f
      else f)

  unfoldable pub pair_up : ℕ → List ℕ → Functional → Functional
  unfolding pair_with
  pair_up k [] f = f
  pair_up k (v ∷ vs) f = pair_up k vs (pair_with k v vs f)

  unfoldable pub pair_groups : List (ℕ × List ℕ) → Functional → Functional
  unfolding pair_up
  pair_groups [] f = f
  pair_groups ((k, vs) ∷ m) f = pair_groups m (if ltb (length vs) 2 then f else pair_up k vs f)

-- hasMulti
unfoldable pub has_multi : List (ℕ × List ℕ) → Bool
has_multi [] = false
has_multi ((k, vs) ∷ m) = not (ltb (length vs) 2) || has_multi m

-- (propIdx << 32) | typeTermIdx, of two numbers of 32 bits
abbrev pub skip_key : ℕ → ℕ → ℕ
skip_key prop kind = prop * 2 ^ 32 + kind

-- scanPropPairs
unfoldable pub scan_prop_pairs :
    List Text → List Triple → Bool → Text → ℕ → ℕ → Functional → Functional
unfolding by_group pair_groups has_multi nt_line
scan_prop_pairs terms ts by_subj type_iri kind prop f =
    let groups = by_group (length terms) prop by_subj ts [] in
    let prop_iri = text_at terms prop in
    let paired =
      pair_groups terms prop_iri (nt_line prop_iri rdf_type_iri type_iri) by_subj groups f in
    if has_multi groups
    then record paired { skipped = insert (skip_key prop kind) paired.skipped }
    else paired

unfoldable pub scan_props :
    List Text → List Triple → Bool → Text → ℕ → List ℕ → Functional → Functional
unfolding scan_prop_pairs
scan_props terms ts by_subj type_iri kind [] f = f
scan_props terms ts by_subj type_iri kind (p ∷ ps) f =
    scan_props terms ts by_subj type_iri kind ps
      (scan_prop_pairs terms ts by_subj type_iri kind p f)

-- One of the two kinds of property, with the index of its IRI. Without one no triple declares a
-- property of the kind.
unfoldable pub scan_kind :
    List Text → List Triple → Option ℕ → Bool → Text → Option ℕ → Functional → Functional
unfolding scan_props declared
scan_kind terms ts rdf_type by_subj type_iri none f = f
scan_kind terms ts rdf_type by_subj type_iri (some kind) f =
    scan_props terms ts by_subj type_iri kind (declared rdf_type (some kind) ts []) f

-- The two kinds, when the table has rdf:type.
unfoldable pub scan_kinds : List Text → List Triple → Option ℕ → Functional → Functional
unfolding scan_kind find_term
scan_kinds terms ts none f = f
scan_kinds terms ts (some t) f =
    scan_kind terms ts (some t) false inverse_functional_iri
      (find_term inverse_functional_iri terms 0)
      (scan_kind terms ts (some t) true functional_iri (find_term functional_iri terms 0) f)

unfoldable pub scan_functional : Bool → List Text → List Triple → Functional → Functional
unfolding scan_kinds find_term
scan_functional false terms ts f = f
scan_functional true terms ts f = scan_kinds terms ts (find_term rdf_type_iri terms 0) f

-- Whether the insertion leaves a triple out.
unfoldable pub is_skipped : Functional → Option ℕ → Triple → Bool
unfolding is_term
is_skipped f rdf_type (s, (p, o)) =
    not (length f.skipped == 0)
    && is_term rdf_type p
    && is_named s
    && is_named o
    && contains f.skipped (skip_key (id_index s) (id_index o))
