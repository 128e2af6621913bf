-- ===== src/Scan/Prescan/Rules/Restrictions.antt =====
-- Restrictions, and the rules.
use rdf_reasoner_konclude.Base.{
  ℕ, ◌≡◌, List, true, ◌&&◌, some, nat_eq, list_eq, pair_eq, ◌==◌, length,
}
use rdf_reasoner_konclude.Base.Dicts.{lookup}
use rdf_reasoner_konclude.Base.Sets.{contains}
use rdf_reasoner_konclude.Base.Loops.{for_each}
use rdf_reasoner_konclude.Base.Sets.{contains}
use rdf_reasoner_konclude.Base.Sets.{Mem-contains}
use mathlib.Core.List.{Memᴰ}
use mathlib.Core.Path.{sym, subst}
use native.Mathlib.Omega.{arith}
use rdf_reasoner_konclude.Base.{nat_beq_iff}
use rdf_reasoner_konclude.Base.Loops.{for_each-keeps, when_some-keeps, if_keeps, unless_keeps}
use rdf_reasoner_konclude.Base.Sets.{contains}
use rdf_reasoner_konclude.Base.Sets.{Mem-contains}
use rdf_reasoner_konclude.Base.Entries.{Mem-lookup}
use rdf_reasoner_konclude.Wire.Table.{Text}
use rdf_reasoner_konclude.Wire.Intern.{id_index}
use rdf_reasoner_konclude.Wire.Emit.{Triple}
use rdf_reasoner_konclude.Scan.Terms.{is_named}
use rdf_reasoner_konclude.Scan.Prescan.{
  is_present, PreVocabulary, Derived, inverse_map, triples_by_subject,
}
use rdf_reasoner_konclude.Scan.Prescan.Rules.{
  Says, Restricted, KeptByRules, by_self, by_all, by_some, by_some_inverse,
}
use rdf_reasoner_konclude.Scan.Prescan.Restrictions.{
  Restriction, info, restrictions, class_restrictions, typed_as, scan_value, self_direct,
  all_filler, scan_source, some_direct, some_inverse, scan_all_values, scan_some_values,
  scan_restriction, scan_node, scan_class, scan_restrictions,
}
use rdf_reasoner_konclude.Scan.Prescan.Rules.Indices.{
  Described, info-Described, restrictions-Entries, class_restrictions-Groups, typed_as-Says,
  triples_by_subject-Groups,
}
use rdf_reasoner_konclude.Scan.Prescan.Rules.Values.{on_index, lookup-Inverse, scan_value-keeps}

module _ {ℓ} (terms : List Text) (v : PreVocabulary) (ts : List Triple) (I : Derived → Type ℓ)
    (rules : KeptByRules v ts terms I) (class node prop : ℕ)
    (restricted : Restricted v ts class node) (on : Says ts v.on_property node prop) where
  pub self_direct-keeps :
      (mark : ℕ)
      → Says ts v.has_self node mark
      → (x : Triple) → Memᴰ x ts
      → (d : Derived) → I d
      → I (self_direct terms ts class prop x d)
  self_direct-keeps mark has (s, (p, o)) mem d h =
      if_keeps I (is_named s && (id_index p == prop) && (s == o))
        (λ q.
          rules.by_add_self (id_index s) class _ d
            (by_self s p class node mark
              (subst (λ j. Memᴰ (s, (p, j)) ts) (sym ((nat_beq_iff s o).0 (ground (arith, q)))) mem)
              (ground (arith, q)) restricted (on_index v ts node prop p on (ground (arith, q))) has)
            h)
        h

  all_filler-keeps :
      (filler source : ℕ)
      → Says ts v.all_values_from node filler
      → Says ts v.rdf_type source class
      → (po : ℕ × ℕ) → Memᴰ (source, po) ts
      → (d : Derived) → I d
      → I (all_filler terms ts class prop filler source po d)
  all_filler-keeps filler source from typed (p, o) mem d h =
      if_keeps I ((id_index p == prop) && is_named o)
        (λ q.
          rules.by_justify (id_index o) filler _ d
            (by_all source p o class node filler mem (ground (arith, q)) restricted
              (on_index v ts node prop p on (ground (arith, q))) from typed)
            h)
        h

  pub scan_all_values-keeps :
      (filler : ℕ)
      → Says ts v.all_values_from node filler
      → (d : Derived) → I d
      → I (scan_all_values terms ts v class prop filler d)
  scan_all_values-keeps filler from d h =
      if_keeps I (is_present v.rdf_type)
        (λ q.
          for_each-keeps I (scan_source terms ts (triples_by_subject ts) class prop filler)
            (typed_as v class ts)
            (λ source mem e held.
              when_some-keeps I (for_each (all_filler terms ts class prop filler source))
                (lookup source (triples_by_subject ts)) e
                (λ pos found.
                  for_each-keeps I (all_filler terms ts class prop filler source) pos
                    (λ po inside.
                      all_filler-keeps filler source from (typed_as-Says v ts class source mem) po (
                        triples_by_subject-Groups v ts source pos po
                          (Mem-lookup source pos (triples_by_subject ts) found) inside))
                    e held)
                held)
            d h)
        h

  filler_index :
      (filler i : ℕ) → contains (typed_as v filler ts) i ≡ true → Says ts v.rdf_type i filler
  filler_index filler i q = typed_as-Says v ts filler i (Mem-contains i (typed_as v filler ts) q)

  some_direct-keeps :
      (filler : ℕ)
      → Says ts v.some_values_from node filler
      → (x : Triple) → Memᴰ x ts
      → (d : Derived) → I d
      → I (some_direct terms ts (typed_as v filler ts) class prop filler x d)
  some_direct-keeps filler from (s, (p, o)) mem d h =
      if_keeps I
        (is_named s
          && (id_index p == prop)
          && is_named o
          && contains (typed_as v filler ts) (id_index o))
        (λ q.
          rules.by_justify (id_index s) class _ d
            (by_some s p o class node filler mem (ground (arith, q)) restricted
              (on_index v ts node prop p on (ground (arith, q))) from
              (filler_index filler (id_index o) (ground (arith, q))))
            h)
        h

  some_inverse-keeps :
      (filler inverse : ℕ)
      → Says ts v.some_values_from node filler
      → lookup prop (inverse_map v ts) ≡ some inverse
      → (x : Triple) → Memᴰ x ts
      → (d : Derived) → I d
      → I (some_inverse terms ts (typed_as v filler ts) class prop filler inverse x d)
  some_inverse-keeps filler inverse from found (s, (p, o)) mem d h =
      if_keeps I
        ((id_index p == inverse)
          && is_named s
          && is_named o
          && contains (typed_as v filler ts) (id_index s))
        (λ q.
          rules.by_justify (id_index o) class _ d
            (by_some_inverse s p o class node prop filler mem (ground (arith, q)) restricted on
              (lookup-Inverse v ts node prop p inverse (ground (arith, q)) found) from
              (filler_index filler (id_index s) (ground (arith, q))))
            h)
        h

  pub scan_some_values-keeps :
      (filler : ℕ)
      → Says ts v.some_values_from node filler
      → (d : Derived) → I d
      → I (scan_some_values terms ts v class prop filler d)
  scan_some_values-keeps filler from d h =
      let typed = typed_as v filler ts in
      let direct =
        for_each-keeps I (some_direct terms ts typed class prop filler) ts
          (some_direct-keeps filler from) d h in
      if_keeps I (is_present v.rdf_type)
        (λ q. unless_keeps I (length typed == 0) h (
          when_some-keeps I
            (λ inverse. for_each (some_inverse terms ts typed class prop filler inverse) ts)
            (lookup prop (inverse_map v ts))
            (for_each (some_direct terms ts typed class prop filler) ts d)
            (λ inverse found.
              for_each-keeps I (some_inverse terms ts typed class prop filler inverse) ts
                (some_inverse-keeps filler inverse from found) _ direct)
            direct))
        h

  pub scan_restriction-keeps :
      (r : Restriction)
      → Described v ts node r
      → (d : Derived) → I d
      → I (scan_restriction terms ts v class r prop d)
  scan_restriction-keeps r says d h =
      let values =
        when_some-keeps I (scan_value terms ts (inverse_map v ts) class prop) r.value d
          (λ a q.
            scan_value-keeps terms v ts I rules class node prop restricted on a (says.value a q) d
              h)
          h in
      let selves =
        if_keeps I r.self
          (λ q.
            for_each-keeps I (self_direct terms ts class prop) ts
              (self_direct-keeps (says.self q).0 (says.self q).1) _ values)
          values in
      let alls =
        when_some-keeps I (scan_all_values terms ts v class prop) r.all_class _
          (λ a q. scan_all_values-keeps a (says.all_class a q) _ selves) selves in
      when_some-keeps I (scan_some_values terms ts v class prop) r.some_class _
        (λ a q. scan_some_values-keeps a (says.some_class a q) _ alls) alls

module _ {ℓ} (terms : List Text) (v : PreVocabulary) (ts : List Triple) (I : Derived → Type ℓ)
    (rules : KeptByRules v ts terms I) where
  scan_node-keeps :
      (class node : ℕ)
      → Restricted v ts class node
      → (d : Derived) → I d
      → I (scan_node terms ts v class node d)
  scan_node-keeps class node restricted d h =
      let says = info-Described v ts node (restrictions v ts) (restrictions-Entries v ts) in
      let r = info (lookup node (restrictions v ts)) in
      when_some-keeps I (scan_restriction terms ts v class r) r.property d
        (λ prop q.
          scan_restriction-keeps terms v ts I rules class node prop restricted
            (says.property prop q) r says d h)
        h

  pub scan_restrictions-keep : (d : Derived) → I d → I (scan_restrictions terms ts v d)
  unfolding scan_restrictions
  scan_restrictions-keep d h =
      if_keeps I (is_present v.on_property)
        (λ q.
          for_each-keeps I (scan_class terms ts v) (class_restrictions v (restrictions v ts) ts)
            (λ x mem e held.
              for_each-keeps I (scan_node terms ts v x.0) x.1
                (λ node inside.
                  scan_node-keeps x.0 node
                    (class_restrictions-Groups v ts (restrictions v ts) x.0 x.1 node mem inside))
                e held)
            d h)
        h
