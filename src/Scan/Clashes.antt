-- ===== src/Scan/Clashes.antt =====
-- The scan for equivalent properties, owl:differentFrom and owl:complementOf: what it collects, and
-- when it calls the ontology trivially inconsistent.
use rdf_reasoner_konclude.Base.{
  ℕ, List, [], ◌∷◌, ◌++◌, Bool, true, false, not, ◌&&◌, ◌||◌, ltb, if◌then◌else◌, length, Option,
  none, some, Eq, nat_eq, pair_eq, list_eq, ◌==◌,
}
use rdf_reasoner_konclude.Base.Sets.{insert, contains}
use rdf_reasoner_konclude.Base.Dicts.{lookup, assign}
use rdf_reasoner_konclude.Wire.Table.{Text}
use rdf_reasoner_konclude.Wire.Intern.{id_index}
use rdf_reasoner_konclude.Wire.Emit.{Triple}
use rdf_reasoner_konclude.Content.Check.{Buffers, term_ids}
use rdf_reasoner_konclude.Scan.Terms.{
  bytes, terms_of, find_term, text_at, triples_of, is_named, is_term,
}

-- The four predicates that the scan looks for.
pub record Vocabulary : Type 0 where
  pub equivalent_property : Option ℕ
  pub different_from : Option ℕ
  pub complement_of : Option ℕ
  pub rdf_type : Option ℕ

unfoldable pub vocabulary : List Text → Vocabulary
unfolding find_term
vocabulary terms = record {
  equivalent_property =
      find_term (bytes "http://www.w3.org/2002/07/owl#equivalentProperty") terms 0;
  different_from = find_term (bytes "http://www.w3.org/2002/07/owl#differentFrom") terms 0;
  complement_of = find_term (bytes "http://www.w3.org/2002/07/owl#complementOf") terms 0;
  rdf_type = find_term (bytes "http://www.w3.org/1999/02/22-rdf-syntax-ns#type") terms 0;
}

-- mEquivPropPairs, mDifferentFromPairs and mTriviallyInconsistent, with the two local tables
-- complOfPairs and indiTypes.
pub record Clashes : Type 0 where
  pub equiv_prop_pairs : List (Text × Text)
  pub different_from_pairs : List (Text × List Text)
  pub trivially_inconsistent : Bool
  pub compl_of_pairs : List (ℕ × ℕ)
  pub indi_types : List (ℕ × List ℕ)

abbrev pub no_clashes : Clashes
no_clashes = record {
  equiv_prop_pairs = [];
  different_from_pairs = [];
  trivially_inconsistent = false;
  compl_of_pairs = [];
  indi_types = [];
}

-- m[k], which makes an empty set where there is none
abbrev members {ℓ κ} : {K : Type ℓ} {V : Type κ} ⦃e : Eq K⦄ → K → List (K × List V) → List V
members k m = elim (lookup k m) [ none ↦ [] | some vs ↦ vs ]

-- m[k].insert(v)
abbrev add_member {ℓ κ} :
    {K : Type ℓ} {V : Type κ} ⦃e : Eq K⦄ ⦃d : Eq V⦄ → K → V → List (K × List V) → List (K × List V)
add_member k v m = assign k (insert v (members k m)) m

-- One of the four branches of the loop body each.
scan_equivalent : List Text → ℕ → ℕ → Clashes → Clashes
scan_equivalent terms s o c =
    if is_named s
      && is_named o
      && (ltb (id_index s) (length terms) && ltb (id_index o) (length terms))
    then record c {
      equiv_prop_pairs =
          c.equiv_prop_pairs ++ ((text_at terms (id_index s), text_at terms (id_index o)) ∷ []);
    }
    else c

scan_different : List Text → ℕ → ℕ → Clashes → Clashes
scan_different terms s o c =
    let flagged = if s == o && is_named s then record c { trivially_inconsistent = true } else c in
    if is_named s
      && is_named o
      && not (s == o)
      && (ltb (id_index s) (length terms) && ltb (id_index o) (length terms))
    then record flagged {
      different_from_pairs = add_member (text_at terms (id_index o)) (text_at terms (id_index s)) (
          add_member (text_at terms (id_index s)) (text_at terms (id_index o))
            flagged.different_from_pairs);
    }
    else flagged

scan_complement : List Text → ℕ → ℕ → Clashes → Clashes
scan_complement terms s o c =
    if is_named s && is_named o
    then if id_index s == id_index o
      then record c { trivially_inconsistent = true }
      else if ltb (id_index s) (length terms) && ltb (id_index o) (length terms)
      then record c { compl_of_pairs = c.compl_of_pairs ++ ((id_index s, id_index o) ∷ []) }
      else c
    else c

scan_type : List Text → ℕ → ℕ → Clashes → Clashes
scan_type terms s o c =
    if is_named s
      && is_named o
      && (ltb (id_index s) (length terms) && ltb (id_index o) (length terms))
    then record c { indi_types = add_member (id_index s) (id_index o) c.indi_types }
    else c

unfoldable pub scan_triple : Vocabulary → List Text → Triple → Clashes → Clashes
unfolding scan_equivalent scan_different scan_complement scan_type is_term
scan_triple v terms (s, (p, o)) c =
    if is_term v.equivalent_property p
    then scan_equivalent terms s o c
    else if is_term v.different_from p
    then scan_different terms s o c
    else if is_term v.complement_of p
    then scan_complement terms s o c
    else if is_term v.rdf_type p
    then scan_type terms s o c
    else c

unfoldable pub scan_triples : Vocabulary → List Text → List Triple → Clashes → Clashes
unfolding scan_triple
scan_triples v terms [] c = c
scan_triples v terms (t ∷ ts) c = scan_triples v terms ts (scan_triple v terms t c)

-- Some individual has both types.
unfoldable pub typed_both : ℕ × ℕ → List (ℕ × List ℕ) → Bool
typed_both (a, b) [] = false
typed_both (a, b) ((i, types) ∷ rest) =
    (contains types a && contains types b) || typed_both (a, b) rest

unfoldable pub complement_clash : List (ℕ × ℕ) → List (ℕ × List ℕ) → Bool
unfolding typed_both
complement_clash [] m = false
complement_clash (pair ∷ pairs) m = typed_both pair m || complement_clash pairs m

-- `start` is what the reasoner's fields hold before; the two tables are local.
unfoldable pub scan_clashes : Clashes → Buffers → Clashes
unfolding vocabulary scan_triples complement_clash triples_of term_ids terms_of
scan_clashes start b =
    let terms = terms_of b in
    let fresh = record start { compl_of_pairs = []; indi_types = [] } in
    let c = scan_triples (vocabulary terms) terms (triples_of (term_ids b)) fresh in
    if not c.trivially_inconsistent && complement_clash c.compl_of_pairs c.indi_types
    then record c { trivially_inconsistent = true }
    else c
