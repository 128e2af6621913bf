-- ===== src/Scan/Prescan/Domains.antt =====
-- Types from rdfs:domain and rdfs:range.
use rdf_reasoner_konclude.Base.{
  ℕ, List, [], ◌++◌, not, ◌&&◌, ◌||◌, if◌then◌else◌, Option, nat_eq, list_eq, pair_eq,
}
use rdf_reasoner_konclude.Base.Dicts.{lookup}
use rdf_reasoner_konclude.Base.Loops.{for_each, when_some}
use rdf_reasoner_konclude.Base.Entries.{push_value}
use rdf_reasoner_konclude.Wire.Table.{Text}
use rdf_reasoner_konclude.Wire.Intern.{id_index}
use rdf_reasoner_konclude.Wire.Emit.{Triple}
use rdf_reasoner_konclude.Scan.Terms.{text_at, is_named, is_term}
use rdf_reasoner_konclude.Scan.Lines.{nt_line, work_key, domain_iri, range_iri}
use rdf_reasoner_konclude.Scan.Prescan.{is_present, PreVocabulary, Derived, justify}

-- domDecls or rngDecls: the classes that are declared for a property
abbrev pub add_declaration : Option ℕ → Triple → List (ℕ × List ℕ) → List (ℕ × List ℕ)
add_declaration kind (s, (p, o)) m =
    if is_named s && is_named o && is_term kind p then push_value (id_index s) (id_index o) m else m

unfoldable pub declarations : Option ℕ → List Triple → List (ℕ × List ℕ)
declarations kind ts = for_each (add_declaration kind) ts []

module _ (terms : List Text) where
  -- iriStr; an index past the table gives the empty string
  abbrev pub iri : ℕ → Text
  iri id = text_at terms (id_index id)

  abbrev pub add_domain : ℕ → ℕ → ℕ → ℕ → Derived → Derived
  add_domain s p o class d =
      justify (iri s) (text_at terms class)
        (nt_line (iri p) domain_iri (text_at terms class) ++ nt_line (iri s) (iri p) (iri o)) d

  abbrev pub add_range : ℕ → ℕ → ℕ → ℕ → Derived → Derived
  add_range s p o class d =
      justify (iri o) (text_at terms class)
        (nt_line (iri p) range_iri (text_at terms class) ++ nt_line (iri s) (iri p) (iri o)) d

  module _ (v : PreVocabulary) (domains ranges : List (ℕ × List ℕ)) where
    abbrev pub assertion_domain : Triple → Derived → Derived
    assertion_domain (s, (p, o)) d =
        when_some (for_each (add_domain s p o)) (lookup (id_index p) domains) d

    abbrev pub assertion_range : Triple → Derived → Derived
    assertion_range (s, (p, o)) d =
        if is_named o
        then when_some (for_each (add_range s p o)) (lookup (id_index p) ranges) d
        else d

    abbrev pub scan_assertion : Triple → Derived → Derived
    scan_assertion (s, (p, o)) d =
        if is_named s && is_named p && not (is_term v.rdf_type p)
        then assertion_range (s, (p, o)) (assertion_domain (s, (p, o)) d)
        else d

-- Without either predicate there is nothing to look for.
unfoldable pub scan_domains : List Text → PreVocabulary → List Triple → Derived → Derived
unfolding declarations nt_line work_key
scan_domains terms v ts d =
    if is_present v.domain || is_present v.range
    then for_each (scan_assertion terms v (declarations v.domain ts) (declarations v.range ts)) ts d
    else d
