-- ===== src/Scan/Prescan/Rules/Indices.antt =====
-- What the indices of the pre-scan hold, and the triples.
use rdf_reasoner_konclude.Base.{
  ℕ, ◌≡◌, List, [], true, ◌&&◌, ◌||◌, some, nat_eq, list_eq, pair_eq, ◌==◌,
}
use rdf_reasoner_konclude.Base.Dicts.{lookup}
use rdf_reasoner_konclude.Base.Entries.{push_value}
use mathlib.Core.List.{Memᴰ}
use mathlib.Core.List.Memᴰ
use mathlib.Core.Logic.{inl, inr}
use mathlib.Core.Path.{sym, subst}
use native.Mathlib.Omega.{arith}
use rdf_reasoner_konclude.Base.{Bool-cases, Option-cases, nat_beq_iff}
use rdf_reasoner_konclude.Base.Loops.{for_each-keeps, when_some-keeps, if_keeps}
use rdf_reasoner_konclude.Base.Entries.{
  Entries, Groups, Mem-lookup, assign-Entries, push_value-Groups,
}
use rdf_reasoner_konclude.Wire.Intern.{id_index}
use rdf_reasoner_konclude.Wire.Emit.{Triple}
use rdf_reasoner_konclude.Scan.Terms.{is_named, is_term}
use rdf_reasoner_konclude.Scan.Prescan.{
  add_inverse, add_to_index, PreVocabulary, inverse_map, triples_by_subject,
}
use rdf_reasoner_konclude.Scan.Prescan.Rules.{Says, said, Inverse, Restricted}
use rdf_reasoner_konclude.Base.{some_injective}
use rdf_reasoner_konclude.Scan.Prescan.Restrictions.{
  Restriction, blank_restriction, set_property, set_value, set_all_class, set_self, set_some_class,
  describe, is_description, info, add_restriction, restrictions, add_class_restriction,
  class_restrictions, add_typed, typed_as,
}

module _ (v : PreVocabulary) (ts : List Triple) where
  pub inverse_map-Entries : Entries (Inverse v ts) (inverse_map v ts)
  unfolding inverse_map
  inverse_map-Entries =
      for_each-keeps (Entries (Inverse v ts)) (add_inverse v) ts
        (λ x mem m h.
          if_keeps (Entries (Inverse v ts))
            (is_term v.inverse_of x.1.0 && is_named x.0 && is_named x.1.1)
            (λ q.
              let one = said ts v.inverse_of x.0 x.1.0 x.1.1 mem (ground (arith, q)) in
              assign-Entries (Inverse v ts) (id_index x.1.1) (id_index x.0) _ (inr one)
                (assign-Entries (Inverse v ts) (id_index x.0) (id_index x.1.1) m (inl one) h))
            h)
        [] (λ k w p. absurd (Memᴰ.not-nil p))

  -- What the node of a restriction says.
  pub record Described (node : ℕ) (r : Restriction) : Type 0 where
    pub property : (a : ℕ) → r.property ≡ some a → Says ts v.on_property node a
    pub value : (a : ℕ) → r.value ≡ some a → Says ts v.has_value node a
    pub all_class : (a : ℕ) → r.all_class ≡ some a → Says ts v.all_values_from node a
    pub self : r.self ≡ true → (a : ℕ) × Says ts v.has_self node a
    pub some_class : (a : ℕ) → r.some_class ≡ some a → Says ts v.some_values_from node a

  blank-Described : (node : ℕ) → Described node blank_restriction
  blank-Described node = record {
    property = λ a e. absurd (cc);
    value = λ a e. absurd (cc);
    all_class = λ a e. absurd (cc);
    self = λ e. absurd (cc);
    some_class = λ a e. absurd (cc);
  }

  pub info-Described :
      (node : ℕ) (m : List (ℕ × Restriction))
      → Entries Described m
      → Described node (info (lookup node m))
  info-Described node m h = elim (Option-cases (lookup node m)) [
    | inl q ↦ subst (λ o. Described node (info o)) (sym q) (blank-Described node)
    | inr (r, q) ↦ subst (λ o. Described node (info o)) (sym q) (h node r (Mem-lookup node r m q))
  ]

  module _ (s p o : ℕ) (mem : Memᴰ (s, (p, o)) ts) where
    set_property-Described :
        (r : Restriction) → Described (id_index s) r → Described (id_index s) (set_property v p o r)
    set_property-Described r h =
        if_keeps (Described (id_index s)) (is_term v.on_property p && is_named o)
          {n = record r { property = some (id_index o) }}
          (λ q. record {
            value = h.value;
            all_class = h.all_class;
            self = h.self;
            some_class = h.some_class;
            property = λ a e.
                subst (Says ts v.on_property (id_index s)) (some_injective e)
                  (said ts v.on_property s p o mem (ground (arith, q)));
          })
          h

    set_value-Described :
        (r : Restriction) → Described (id_index s) r → Described (id_index s) (set_value v p o r)
    set_value-Described r h =
        if_keeps (Described (id_index s)) (is_term v.has_value p)
          {n = record r { value = some (id_index o) }}
          (λ q. record {
            property = h.property;
            all_class = h.all_class;
            self = h.self;
            some_class = h.some_class;
            value = λ a e.
                subst (Says ts v.has_value (id_index s)) (some_injective e)
                  (said ts v.has_value s p o mem q);
          })
          h

    set_all_class-Described :
        (r : Restriction)
        → Described (id_index s) r
        → Described (id_index s) (set_all_class v p o r)
    set_all_class-Described r h =
        if_keeps (Described (id_index s)) (is_term v.all_values_from p && is_named o)
          {n = record r { all_class = some (id_index o) }}
          (λ q. record {
            property = h.property;
            value = h.value;
            self = h.self;
            some_class = h.some_class;
            all_class = λ a e.
                subst (Says ts v.all_values_from (id_index s)) (some_injective e)
                  (said ts v.all_values_from s p o mem (ground (arith, q)));
          })
          h

    set_self-Described :
        (r : Restriction) → Described (id_index s) r → Described (id_index s) (set_self v p r)
    set_self-Described r h =
        if_keeps (Described (id_index s)) (is_term v.has_self p) {n = record r { self = true }}
          (λ q. record {
            property = h.property;
            value = h.value;
            all_class = h.all_class;
            some_class = h.some_class;
            self = λ e. (id_index o, said ts v.has_self s p o mem q);
          })
          h

    set_some_class-Described :
        (r : Restriction)
        → Described (id_index s) r
        → Described (id_index s) (set_some_class v p o r)
    set_some_class-Described r h =
        if_keeps (Described (id_index s)) (is_term v.some_values_from p && is_named o)
          {n = record r { some_class = some (id_index o) }}
          (λ q. record {
            property = h.property;
            value = h.value;
            all_class = h.all_class;
            self = h.self;
            some_class = λ a e.
                subst (Says ts v.some_values_from (id_index s)) (some_injective e)
                  (said ts v.some_values_from s p o mem (ground (arith, q)));
          })
          h

    describe-Described :
        (r : Restriction) → Described (id_index s) r → Described (id_index s) (describe v p o r)
    describe-Described r h = set_some_class-Described _ (
        set_self-Described _
          (set_all_class-Described _ (set_value-Described _ (set_property-Described r h))))

  pub restrictions-Entries : Entries Described (restrictions v ts)
  unfolding restrictions
  restrictions-Entries =
      for_each-keeps (Entries Described) (add_restriction v) ts
        (λ x mem m h.
          if_keeps (Entries Described) (is_description v x.1.0 x.1.1)
            (λ q.
              assign-Entries Described (id_index x.0) _ m
                (describe-Described x.0 x.1.0 x.1.1 mem _ (info-Described (id_index x.0) m h)) h)
            h)
        [] (λ k w p. absurd (Memᴰ.not-nil p))

  pub class_restrictions-Groups :
      (rs : List (ℕ × Restriction)) → Groups (Restricted v ts) (class_restrictions v rs ts)
  unfolding class_restrictions
  class_restrictions-Groups rs =
      for_each-keeps (Groups (Restricted v ts)) (add_class_restriction v rs) ts
        (λ x mem m h.
          if_keeps (Groups (Restricted v ts))
            (is_term v.equivalent_class x.1.0 || is_term v.sub_class_of x.1.0)
            (λ q.
              when_some-keeps (Groups (Restricted v ts))
                (λ r. push_value (id_index x.0) (id_index x.1.1)) (lookup (id_index x.1.1) rs) m
                (λ r found.
                  push_value-Groups (Restricted v ts) (id_index x.0) (id_index x.1.1) m
                    (relates x.0 x.1.0 x.1.1 mem q) h)
                h)
            h)
        [] (λ k vs w p. absurd (Memᴰ.not-nil p))
    where
      relates :
          (s p o : ℕ)
          → Memᴰ (s, (p, o)) ts
          → (is_term v.equivalent_class p || is_term v.sub_class_of p) ≡ true
          → Restricted v ts (id_index s) (id_index o)
      relates s p o mem q = elim (Bool-cases (is_term v.equivalent_class p)) [
        | inl r ↦ inl (said ts v.equivalent_class s p o mem r)
        | inr r ↦ inr (said ts v.sub_class_of s p o mem (ground (arith, q, r)))
      ]

  pub typed_as-Says : (class i : ℕ) → Memᴰ i (typed_as v class ts) → Says ts v.rdf_type i class
  unfolding typed_as
  typed_as-Says class =
      for_each-keeps (λ is. (i : ℕ) → Memᴰ i is → Says ts v.rdf_type i class) (add_typed v class) ts
        (λ x mem is h.
          if_keeps (λ is. (i : ℕ) → Memᴰ i is → Says ts v.rdf_type i class)
            (is_term v.rdf_type x.1.0 && is_named x.0 && (id_index x.1.1 == class))
            (λ q i p. elim (Memᴰ.append_cases is p) [
              | inl old ↦ h i old
              | inr new ↦
                  subst (λ j. Says ts v.rdf_type j class) (sym (Memᴰ.eq_of_singleton new))
                    (subst (Says ts v.rdf_type (id_index x.0))
                      ((nat_beq_iff (id_index x.1.1) class).0 (ground (arith, q)))
                      (said ts v.rdf_type x.0 x.1.0 x.1.1 mem (ground (arith, q))))
            ])
            h)
        [] (λ i p. absurd (Memᴰ.not-nil p))

  pub triples_by_subject-Groups : Groups (λ s po. Memᴰ (s, po) ts) (triples_by_subject ts)
  unfolding triples_by_subject
  triples_by_subject-Groups =
      for_each-keeps (Groups (λ s po. Memᴰ (s, po) ts)) add_to_index ts
        (λ x mem m h. push_value-Groups (λ s po. Memᴰ (s, po) ts) x.0 x.1 m mem h) []
        (λ k vs w p. absurd (Memᴰ.not-nil p))
