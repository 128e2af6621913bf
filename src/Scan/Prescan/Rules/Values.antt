-- ===== src/Scan/Prescan/Rules/Values.antt =====
-- owl:hasValue, and the rules.
use rdf_reasoner_konclude.Base.{ℕ, ◌≡◌, List, true, ◌&&◌, some, nat_eq, list_eq, pair_eq, ◌==◌}
use rdf_reasoner_konclude.Base.Dicts.{lookup}
use rdf_reasoner_konclude.Base.Loops.{for_each}
use mathlib.Core.List.{Memᴰ}
use mathlib.Core.Path.{sym, subst}
use native.Mathlib.Omega.{arith}
use rdf_reasoner_konclude.Base.{nat_beq_iff}
use rdf_reasoner_konclude.Base.Loops.{for_each-keeps, when_some-keeps, if_keeps}
use rdf_reasoner_konclude.Base.Entries.{Mem-lookup}
use rdf_reasoner_konclude.Wire.Table.{Text}
use rdf_reasoner_konclude.Wire.Intern.{id_index}
use rdf_reasoner_konclude.Wire.Emit.{Triple}
use rdf_reasoner_konclude.Scan.Terms.{is_named}
use rdf_reasoner_konclude.Scan.Prescan.{PreVocabulary, Derived, inverse_map}
use rdf_reasoner_konclude.Scan.Prescan.Rules.{
  Says, Inverse, Restricted, KeptByRules, by_value, by_value_inverse,
}
use rdf_reasoner_konclude.Scan.Prescan.Restrictions.{value_direct, value_inverse, scan_value}
use rdf_reasoner_konclude.Scan.Prescan.Rules.Indices.{inverse_map-Entries}

module _ (v : PreVocabulary) (ts : List Triple) (node prop : ℕ) where
  pub on_index :
      (p : ℕ)
      → Says ts v.on_property node prop
      → (id_index p == prop) ≡ true
      → Says ts v.on_property node (id_index p)
  on_index p on q =
      subst (Says ts v.on_property node) (sym ((nat_beq_iff (id_index p) prop).0 q)) on

  pub lookup-Inverse :
      (p inverse : ℕ)
      → (id_index p == inverse) ≡ true
      → lookup prop (inverse_map v ts) ≡ some inverse
      → Inverse v ts prop (id_index p)
  lookup-Inverse p inverse q found =
      subst (Inverse v ts prop) (sym ((nat_beq_iff (id_index p) inverse).0 q))
        (inverse_map-Entries v ts prop inverse (Mem-lookup prop inverse (inverse_map v ts) found))

module _ {ℓ} (terms : List Text) (v : PreVocabulary) (ts : List Triple) (I : Derived → Type ℓ)
    (rules : KeptByRules v ts terms I) (class node prop : ℕ)
    (restricted : Restricted v ts class node) (on : Says ts v.on_property node prop) where
  value_direct-keeps :
      (value : ℕ)
      → Says ts v.has_value node value
      → (x : Triple) → Memᴰ x ts
      → (d : Derived) → I d
      → I (value_direct terms ts class prop value x d)
  value_direct-keeps value has (s, (p, o)) mem d h =
      if_keeps I (is_named s && (id_index p == prop) && (id_index o == value))
        (λ q.
          rules.by_justify (id_index s) class _ d
            (by_value s p o class node mem (ground (arith, q)) restricted
              (on_index v ts node prop p on (ground (arith, q)))
              (subst (Says ts v.has_value node)
                (sym ((nat_beq_iff (id_index o) value).0 (ground (arith, q)))) has))
            h)
        h

  value_inverse-keeps :
      (value inverse : ℕ)
      → Says ts v.has_value node value
      → lookup prop (inverse_map v ts) ≡ some inverse
      → (x : Triple) → Memᴰ x ts
      → (d : Derived) → I d
      → I (value_inverse terms ts class prop value inverse x d)
  value_inverse-keeps value inverse has found (s, (p, o)) mem d h =
      if_keeps I ((id_index p == inverse) && (id_index s == value) && is_named o)
        (λ q.
          rules.by_justify (id_index o) class _ d
            (by_value_inverse s p o class node prop mem (ground (arith, q)) restricted on
              (lookup-Inverse v ts node prop p inverse (ground (arith, q)) found)
              (subst (Says ts v.has_value node)
                (sym ((nat_beq_iff (id_index s) value).0 (ground (arith, q)))) has))
            h)
        h

  pub scan_value-keeps :
      (value : ℕ)
      → Says ts v.has_value node value
      → (d : Derived) → I d
      → I (scan_value terms ts (inverse_map v ts) class prop value d)
  scan_value-keeps value has d h =
      let direct =
        for_each-keeps I (value_direct terms ts class prop value) ts (value_direct-keeps value has)
          d h in
      when_some-keeps I (λ inverse. for_each (value_inverse terms ts class prop value inverse) ts)
        (lookup prop (inverse_map v ts)) (for_each (value_direct terms ts class prop value) ts d)
        (λ inverse found.
          for_each-keeps I (value_inverse terms ts class prop value inverse) ts
            (value_inverse-keeps value inverse has found) _ direct)
        direct
