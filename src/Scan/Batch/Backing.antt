-- ===== src/Scan/Batch/Backing.antt =====
-- The reasons in the triples for what the scan keeps.
pub mod Lists
pub mod SomeValues
pub mod MinCards
pub mod Roles
use rdf_reasoner_konclude.Base.{
  ℕ, ◌≡◌, zero, suc, List, [], ◌∷◌, ◌++◌, Bool, true, false, not, ◌&&◌, ◌||◌, if◌then◌else◌, Option,
  none, some, nat_eq, list_eq, pair_eq, ◌==◌, length,
}
use rdf_reasoner_konclude.Base.Dicts.{lookup, assign}
use rdf_reasoner_konclude.Base.Sets.{insert, contains}
use rdf_reasoner_konclude.Base.Loops.{for_each, when_some}
use rdf_reasoner_konclude.Base.Entries.{push_value}
use native.Mathlib.Omega.{arith}
use mathlib.Core.Path.{refl, sym, ap, ap₂, subst, ◌∙◌}
use mathlib.Core.Logic.{◌⊎◌, inl, inr}
use mathlib.Core.List.{Memᴰ}
use mathlib.Core.List.Memᴰ
use rdf_reasoner_konclude.Base.Loops.{for_each-keeps, when_some-keeps, if_keeps, unless_keeps}
use rdf_reasoner_konclude.Base.Entries.{
  Entries, Groups, Mem-lookup, assign-Entries, push_value-Groups,
}
use rdf_reasoner_konclude.Base.{
  Bool-cases, Option-cases, nat_beq_iff, map, ltb, leb, ◌+◌, ◌<◌, some_injective,
}
use rdf_reasoner_konclude.Base.Sets.{
  Distinct, Mem-contains, contains_of_Mem, insert-Distinct, contains-insert,
}
use rdf_reasoner_konclude.Wire.Table.{Text}
use rdf_reasoner_konclude.Wire.Intern.{id_index, id_tag}
use rdf_reasoner_konclude.Wire.Emit.{Triple}
use rdf_reasoner_konclude.Scan.Terms.{bytes, find_term, text_at, is_named, is_term}
use rdf_reasoner_konclude.Scan.Lines.{
  nt_line, work_key, put_first, rdf_type_iri, domain_iri, range_iri, has_value_iri, inverse_of_iri,
}
use rdf_reasoner_konclude.Base.Dicts.{lookup-assign, lookup-assign_self}
use rdf_reasoner_konclude.Scan.Batch.{
  BatchVocabulary, BatchMaps, batch_maps, Batch, MinCardinality, on_class_axiom, class_axiom,
  is_blank,
}
use rdf_reasoner_konclude.Scan.Batch.Maps.{TripleBy, IndexBy, SubjectBy, MapsSaid}
use rdf_reasoner_konclude.Scan.Batch.Lists.{list_members}
use rdf_reasoner_konclude.Scan.Batch.MinCards.{on_class_of, positive_stoi}
use rdf_reasoner_konclude.Scan.Lines.{sub_class_of_iri, Justifications}

module _ (v : BatchVocabulary) (ts : List Triple) where
  -- A class and the node of a restriction: the node is equivalent to the class or above it.
  abbrev pub AxiomBy : ℕ → ℕ → Type 0
  AxiomBy class node =
      TripleBy ts v.equivalent_class class node
      ⊎ (TripleBy ts v.equivalent_class node class ⊎ TripleBy ts v.sub_class_of class node)

  -- A node that is declared as a restriction.
  abbrev pub NodeBy : ℕ → Type 0
  NodeBy node =
      (o : ℕ) × (TripleBy ts v.rdf_type node o × (is_term v.restriction (id_index o) ≡ true))

  pub on_class_axiom-keeps {ℓ} :
      (I : Batch → Type ℓ) (f : ℕ → ℕ → Batch → Batch)
      → ((class node : ℕ) (d : Batch)
          → is_named class ≡ true
          → AxiomBy class node
          → I d
          → I (f class node d))
      → (x : Triple) → Memᴰ x ts
      → (d : Batch) → I d
      → I (on_class_axiom v f x d)
  on_class_axiom-keeps I f step (s, (p, o)) mem d h =
      if_keeps I (is_term v.equivalent_class p || is_term v.sub_class_of p)
        (λ q.
          if_keeps I (is_term v.equivalent_class p && is_blank s && is_named o)
            (λ r.
              step o s _ (ground (arith, r))
                (inr (inl record { predicate = p; is_triple = mem; is_kind = ground (arith, r) }))
                (first q))
            (first q))
        h
    where
      related : (is_term v.equivalent_class p || is_term v.sub_class_of p) ≡ true → AxiomBy s o
      related q = elim (Bool-cases (is_term v.equivalent_class p)) [
        | inl e ↦ inl record { predicate = p; is_triple = mem; is_kind = e }
        | inr e ↦
            inr (inr record { predicate = p; is_triple = mem; is_kind = ground (arith, q, e) })
      ]

      first :
          (is_term v.equivalent_class p || is_term v.sub_class_of p) ≡ true
          → I (if is_named s && is_blank o then f s o d else d)
      first q =
          if_keeps I (is_named s && is_blank o) (λ r. step s o d (ground (arith, r)) (related q) h)
            h

abbrev pub IsJustified : Justifications → Text → Text → Text → Type 0
IsJustified m s p o = (just : Text) × (lookup (work_key s p o) m ≡ some just)

pub assign-IsJustified :
    (m : Justifications) (key just s p o : Text)
    → IsJustified m s p o
    → IsJustified (assign key just m) s p o
assign-IsJustified m key just s p o (old, h) = elim (Bool-cases (key == work_key s p o)) [
  | inl q ↦ (
    just,
    lookup-assign key (work_key s p o) just m
        ∙ ap (λ b. if b then some just else lookup (work_key s p o) m) q,
  )
  | inr q ↦ (
    old,
    lookup-assign key (work_key s p o) just m
        ∙ (ap (λ b. if b then some just else lookup (work_key s p o) m) q ∙ h),
  )
]

pub assign_self-IsJustified :
    (m : Justifications) (just s p o : Text) → IsJustified (assign (work_key s p o) just m) s p o
assign_self-IsJustified m just s p o = (just, lookup-assign_self (work_key s p o) just m)

module _ (terms : List Text) (chars : ℕ → Text) (v : BatchVocabulary) (ts : List Triple) where
  -- A member of the list that a triple gives to a class.
  abbrev pub Listed : Option ℕ → Text → Text → Type 0
  Listed kind class member =
      (i : ℕ) × ((head : ℕ) × (SubjectBy ts kind i head
          × ((text_at terms i ≡ class) × Memᴰ member (list_members terms (batch_maps v ts) head))))

  -- A class with a restriction by owl:someValuesFrom.
  abbrev pub SomeBy : Text → Text × Text → Type 0
  SomeBy class (prop, filler) =
      (c : ℕ) × ((node : ℕ) × ((p : ℕ) × ((f : ℕ) × (AxiomBy v ts c node
              × (NodeBy v ts node
                  × (IndexBy ts v.on_property node p
                      × (IndexBy ts v.some_values_from node f
                          × ((is_named c ≡ true)
                              × ((text_at terms (id_index c) ≡ class)
                                  × ((text_at terms p ≡ prop) × (text_at terms f ≡ filler)))))))))))

  -- A class with a restriction of minimal cardinality.
  pub record MinBy (r : MinCardinality) : Type 0 where
    pub class : ℕ
    pub node : ℕ
    pub property : ℕ
    pub literal : ℕ
    pub by_axiom : AxiomBy v ts class node
    pub is_node : NodeBy v ts node
    pub on_property : IndexBy ts v.on_property node property
    pub has_literal :
        TripleBy ts v.min_cardinality node literal
        ⊎ TripleBy ts v.min_qualified_cardinality node literal
    pub class_iri : text_at terms (id_index class) ≡ r.class_iri
    pub property_iri : text_at terms property ≡ r.property_iri
    pub least : positive_stoi (chars (id_index literal)) ≡ some r.least
    pub on_class : on_class_of terms chars (batch_maps v ts) node ≡ r.on_class_iri

  -- An individual and a class that a triple by rdf:type relates.
  pub record TypeBy (indi class : Text) : Type 0 where
    pub subject : ℕ
    pub object : ℕ
    pub by_type : TripleBy ts v.rdf_type subject object
    pub named_subject : id_tag subject ≡ 0
    pub named_object : id_tag object ≡ 0
    pub indi_iri : text_at terms (id_index subject) ≡ indi
    pub class_iri : text_at terms (id_index object) ≡ class

  -- A triple between named nodes whose property is asked for: the key holds its subject and its
  -- property, the value is its object.
  pub record RoleBy (Asked : Text → Type 0) (key value : Text) : Type 0 where
    pub subject : ℕ
    pub predicate : ℕ
    pub object : ℕ
    pub is_triple : Memᴰ (subject, (predicate, object)) ts
    pub named_subject : id_tag subject ≡ 0
    pub named_object : id_tag object ≡ 0
    pub is_asked : Asked (text_at terms predicate)
    pub is_key : key ≡ text_at terms (id_index subject) ++ (0 ∷ text_at terms predicate)
    pub is_value : value ≡ text_at terms (id_index object)

  -- The properties of the restrictions.
  abbrev pub SomeProperty : Text → Type 0
  SomeProperty prop = (class : Text) × ((filler : Text) × SomeBy class (prop, filler))

  abbrev pub MinProperty : Text → Type 0
  MinProperty prop = (r : MinCardinality) × (MinBy r × (r.property_iri ≡ prop))

  -- Everything that is kept has its reason in the triples, and the emitted types and subclasses have
  -- a justification.
  pub record BatchBacked (d : Batch) : Type 0 where
    pub one_of :
        (class member : Text)
        → Memᴰ (class, member) d.one_of_memberships
        → Listed v.one_of class member × IsJustified d.justifications member rdf_type_iri class
    pub disjoint_union :
        (class member : Text)
        → Memᴰ (class, member) d.disjoint_union_of
        → Listed v.disjoint_union_of class member
          × IsJustified d.justifications member sub_class_of_iri class
    pub some_values : Groups SomeBy d.svf_index
    pub some_distinct : Entries (λ class es. Distinct es) d.svf_index
    pub min_cards : (r : MinCardinality) → Memᴰ r d.min_card_restrictions → MinBy r
    pub types : (indi class : Text) → Memᴰ (indi, class) d.svf_abox_types → TypeBy indi class
    pub some_roles : Groups (RoleBy SomeProperty) d.svf_role_assertions
    pub min_roles : Groups (RoleBy MinProperty) d.min_card_role_assertions
