-- ===== src/Scan/Prescan/Whole.antt =====
-- The pre-scan as a whole.
use rdf_reasoner_konclude.Base.{
  ◌≡◌, List, [], ◌∷◌, ◌++◌, Option, none, some, nat_eq, list_eq, pair_eq, ◌==◌,
}
use rdf_reasoner_konclude.Base.Dicts.{lookup, assign}
use mathlib.Core.Logic.{inl, inr}
use mathlib.Core.Path.{refl, sym, ap, ◌∙◌}
use rdf_reasoner_konclude.Base.{Bool-cases}
use rdf_reasoner_konclude.Base.{list_beq_iff}
use rdf_reasoner_konclude.Wire.Table.{Text}
use rdf_reasoner_konclude.Wire.Emit.{Triple}
use rdf_reasoner_konclude.Scan.Terms.{text_at}
use rdf_reasoner_konclude.Scan.Lines.{Justifications, work_key, put_first, rdf_type_iri}
use rdf_reasoner_konclude.Scan.Prescan.{Derived}
use rdf_reasoner_konclude.Scan.Prescan.Rules.{KeptByRules}
use rdf_reasoner_konclude.Base.Dicts.{lookup-assign_ne}
use rdf_reasoner_konclude.Scan.Prescan.{pre_vocabulary}
use rdf_reasoner_konclude.Scan.Prescan.Domains.{scan_domains}
use rdf_reasoner_konclude.Scan.Prescan.Restrictions.{scan_restrictions}
use rdf_reasoner_konclude.Scan.Prescan.Intersections.{scan_intersections}
use rdf_reasoner_konclude.Scan.Prescan.Rules.Domains.{scan_domains-keep}
use rdf_reasoner_konclude.Scan.Prescan.Rules.Restrictions.{scan_restrictions-keep}
use rdf_reasoner_konclude.Scan.Prescan.Rules.Intersections.{scan_intersections-keep}
use rdf_reasoner_konclude.Scan.Prescan.Backed.{
  Backed, put_first-Backed, add_self-Backed, add_intersection_type-Backed,
}

unfoldable pub prescan : List Text → List Triple → Derived → Derived
unfolding pre_vocabulary scan_domains scan_restrictions scan_intersections
prescan terms ts d =
    let v = pre_vocabulary terms in
    scan_intersections terms v ts (scan_restrictions terms ts v (scan_domains terms v ts d))

module _ (terms : List Text) (ts : List Triple) where
  -- A state is what every scan keeps of it.
  prescan-keeps {ℓ} :
      (I : Derived → Type ℓ)
      → KeptByRules (pre_vocabulary terms) ts terms I
      → (d : Derived) → I d
      → I (prescan terms ts d)
  unfolding prescan
  prescan-keeps I rules d h =
      let v = pre_vocabulary terms in
      scan_intersections-keep terms v ts I rules _
        (scan_restrictions-keep terms v ts I rules _ (scan_domains-keep terms v ts I rules d h))

  -- Whatever the pre-scan adds to the justifications and to the types that are emitted for
  -- owl:hasSelf and owl:intersectionOf, a rule of `Implied` concludes from triples that are there.
  pub prescan-Backed : (d : Derived) → Backed terms ts d (prescan terms ts d)
  prescan-Backed d =
      prescan-keeps (Backed terms ts d)
        record {
          by_justify = put_first-Backed terms ts d;
          by_add_self = add_self-Backed terms ts d;
          by_add_intersection = add_intersection_type-Backed terms ts d;
        }
        d
        record {
          justified = λ key just p. inl p;
          self_typed = λ indi class p. inl p;
          intersection_typed = λ indi class p. inl p;
        }

  -- An old justification stays.
  put_first-old :
      (m : Justifications) (key just k j : Text)
      → lookup k m ≡ some j
      → lookup k (put_first key just m) ≡ some j
  put_first-old m key just k j h = with_old (lookup key m) refl
    where
      with_old :
          (o : Option Text)
          → lookup key m ≡ o
          → lookup k (elim o [ none ↦ assign key just m | some old ↦ m ]) ≡ some j
      with_old (some old) q = h
      with_old none q = elim (Bool-cases (key == k)) [
        | inl e ↦ absurd (clash (sym q ∙ (ap (λ i. lookup i m) ((list_beq_iff key k).0 e) ∙ h)))
        | inr e ↦ lookup-assign_ne key k just m e ∙ h
      ]
        where
          clash : none ≡ some j → ⊥
          clash e = cc

  pushed_self :
      (o : Option Text) (key just indi class : Text) (d : Derived)
      → (elim o as (λ p. Derived) [
        | some old ↦ d
        | none ↦ record d {
          justifications = assign key just d.justifications;
          self_types = d.self_types ++ ((indi, class) ∷ []);
        }
      ]).justifications
        ≡ (elim o [ none ↦ assign key just d.justifications | some old ↦ d.justifications ])
  pushed_self none key just indi class d = refl
  pushed_self (some old) key just indi class d = refl

  pushed_intersection :
      (o : Option Text) (key just indi class : Text) (d : Derived)
      → (elim o as (λ p. Derived) [
        | some old ↦ d
        | none ↦ record d {
          justifications = assign key just d.justifications;
          intersection_types = d.intersection_types ++ ((indi, class) ∷ []);
        }
      ]).justifications
        ≡ (elim o [ none ↦ assign key just d.justifications | some old ↦ d.justifications ])
  pushed_intersection none key just indi class d = refl
  pushed_intersection (some old) key just indi class d = refl

  -- A key that has a justification before the pre-scan has the same one after it.
  pub prescan-keeps_justification :
      (d : Derived) (key just : Text)
      → lookup key d.justifications ≡ some just
      → lookup key (prescan terms ts d).justifications ≡ some just
  prescan-keeps_justification d key just h =
      prescan-keeps (λ e. lookup key e.justifications ≡ some just)
        record {
          by_justify = λ i c new e implied held. put_first-old e.justifications _ new key just held;
          by_add_self = λ i c new e implied held.
              let k = work_key (text_at terms i) rdf_type_iri (text_at terms c) in
              ap (lookup key) (
                pushed_self (lookup k e.justifications) k new (text_at terms i) (text_at terms c) e)
              ∙ put_first-old e.justifications k new key just held;
          by_add_intersection = λ i c new e implied held.
              let k = work_key (text_at terms i) rdf_type_iri (text_at terms c) in
              ap (lookup key) (
                pushed_intersection (lookup k e.justifications) k new (text_at terms i)
                  (text_at terms c) e)
              ∙ put_first-old e.justifications k new key just held;
        }
        d h
