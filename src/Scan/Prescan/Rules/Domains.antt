-- ===== src/Scan/Prescan/Rules/Domains.antt =====
-- Domains and ranges, and the rules.
use rdf_reasoner_konclude.Base.{
  ℕ, ◌≡◌, List, [], true, not, ◌&&◌, ◌||◌, Option, nat_eq, list_eq, pair_eq,
}
use rdf_reasoner_konclude.Base.Dicts.{lookup}
use rdf_reasoner_konclude.Base.Loops.{for_each}
use mathlib.Core.List.{Memᴰ}
use mathlib.Core.List.Memᴰ
use native.Mathlib.Omega.{arith}
use rdf_reasoner_konclude.Base.Loops.{for_each-keeps, when_some-keeps, if_keeps}
use rdf_reasoner_konclude.Base.Entries.{Groups, Mem-lookup, push_value-Groups}
use rdf_reasoner_konclude.Wire.Table.{Text}
use rdf_reasoner_konclude.Wire.Intern.{id_index}
use rdf_reasoner_konclude.Wire.Emit.{Triple}
use rdf_reasoner_konclude.Scan.Terms.{is_named, is_term}
use rdf_reasoner_konclude.Scan.Prescan.{is_present, PreVocabulary, Derived}
use rdf_reasoner_konclude.Scan.Prescan.Rules.{Says, said, KeptByRules, by_domain, by_range}
use rdf_reasoner_konclude.Scan.Prescan.Domains.{
  declarations, add_declaration, add_domain, add_range, assertion_domain, assertion_range,
  scan_assertion, scan_domains,
}

module _ (ts : List Triple) (kind : Option ℕ) where
  declarations-Groups : Groups (Says ts kind) (declarations kind ts)
  unfolding declarations
  declarations-Groups =
      for_each-keeps (Groups (Says ts kind)) (add_declaration kind) ts
        (λ x mem m h.
          if_keeps (Groups (Says ts kind)) (is_named x.0 && is_named x.1.1 && is_term kind x.1.0)
            (λ q.
              push_value-Groups (Says ts kind) (id_index x.0) (id_index x.1.1) m
                (said ts kind x.0 x.1.0 x.1.1 mem (ground (arith, q))) h)
            h)
        [] (λ k vs w p. absurd (Memᴰ.not-nil p))

module _ {ℓ} (terms : List Text) (v : PreVocabulary) (ts : List Triple) (I : Derived → Type ℓ)
    (rules : KeptByRules v ts terms I) where
  domains-keep :
      (s p o : ℕ) (d : Derived)
      → Memᴰ (s, (p, o)) ts
      → is_named s ≡ true
      → I d
      → I (
          assertion_domain terms v
            (declarations v.domain ts)
            (declarations v.range ts)
            (s, (p, o))
            d)
  domains-keep s p o d mem named h =
      when_some-keeps I (for_each (add_domain terms s p o))
        (lookup (id_index p) (declarations v.domain ts)) d
        (λ classes found.
          for_each-keeps I (add_domain terms s p o) classes
            (λ c inside e held.
              rules.by_justify (id_index s) c _ e
                (by_domain s p o c mem named (
                  declarations-Groups ts v.domain (id_index p) classes c
                    (Mem-lookup (id_index p) classes (declarations v.domain ts) found) inside))
                held)
            d h)
        h

  ranges-keep :
      (s p o : ℕ) (d : Derived)
      → Memᴰ (s, (p, o)) ts
      → I d
      → I (
          assertion_range terms v
            (declarations v.domain ts)
            (declarations v.range ts)
            (s, (p, o))
            d)
  ranges-keep s p o d mem h =
      if_keeps I (is_named o)
        (λ named.
          when_some-keeps I (for_each (add_range terms s p o))
            (lookup (id_index p) (declarations v.range ts)) d
            (λ classes found.
              for_each-keeps I (add_range terms s p o) classes
                (λ c inside e held.
                  rules.by_justify (id_index o) c _ e
                    (by_range s p o c mem named (
                      declarations-Groups ts v.range (id_index p) classes c
                        (Mem-lookup (id_index p) classes (declarations v.range ts) found) inside))
                    held)
                d h)
            h)
        h

  pub scan_domains-keep : (d : Derived) → I d → I (scan_domains terms v ts d)
  unfolding scan_domains
  scan_domains-keep d h =
      if_keeps I (is_present v.domain || is_present v.range)
        (λ q.
          for_each-keeps I
            (scan_assertion terms v (declarations v.domain ts) (declarations v.range ts)) ts
            (λ x mem e held.
              if_keeps I (is_named x.0 && is_named x.1.0 && not (is_term v.rdf_type x.1.0))
                (λ r.
                  ranges-keep x.0 x.1.0 x.1.1 _ mem
                    (domains-keep x.0 x.1.0 x.1.1 e mem (ground (arith, r)) held))
                held)
            d h)
        h
