-- ===== src/Session/Reach/Lookups.antt =====
-- What the answers of the queries on classes rest on.
use rdf_reasoner_konclude.Base.{
  ◌≡◌, sym, ap, ◌∙◌, [], true, false, some, nat_eq, list_eq, pair_eq, arith, Option-cases,
  Bool-cases, inl, inr,
}
use rdf_reasoner_konclude.Base.Sets.{SameSet}
use rdf_reasoner_konclude.Base.Dicts.{lookup}
use rdf_reasoner_konclude.Wire.Table.{Text}
use rdf_reasoner_konclude.Content.Check.{Buffers}
use rdf_reasoner_konclude.Content.Digest.{digest_of}
use rdf_reasoner_konclude.Session.Kernel.{Kernel}
use rdf_reasoner_konclude.Session.State.{Impl, index_by_iri}
use rdf_reasoner_konclude.Session.Verbs.{content}
use rdf_reasoner_konclude.Session.Invariant.{From}
use rdf_reasoner_konclude.Session.Queries.{is_sub_class_of, is_satisfiable_class}
use rdf_reasoner_konclude.Session.Reach.{Reachable, reachable-IsCurrent, never_stale}

module _ (k : Kernel) where
  open k use {Ontology, Concept, concepts, is_subsumption, is_satisfiable}

  -- The concept of an IRI in the taxonomy of an ontology.
  abbrev pub Names : Ontology → Text → Concept → Type 0
  Names o iri c = lookup iri (index_by_iri (concepts o) []) ≡ some c

  -- The ontology of the state comes from the content that was synced last.
  abbrev pub IsOfContent : Impl k → Type 0
  IsOfContent im =
      (b : Buffers) × (From k b im.built_real im.ontology
        × SameSet (digest_of b) (digest_of (content k im)))

  -- When `isSubClassOf` answers true in a reached state, the ontology is that of the content synced
  -- last (by its digest), the two IRIs name concepts of its taxonomy, and the taxonomy has the
  -- subsumption.
  pub is_sub_class_of-IsOfContent :
      (im : Impl k)
      → Reachable k im
      → (sub super : Text) → is_sub_class_of k im sub super ≡ true
      → IsOfContent im
        × ((c : Concept) × ((d : Concept) × (Names im.ontology sub c
                × (Names im.ontology super d × (is_subsumption im.ontology c d ≡ some true)))))
  unfolding is_sub_class_of
  is_sub_class_of-IsOfContent im r sub super h = elim (Bool-cases im.classified) [
    | inr q ↦ absurd (ground (arith, h, q))
    | inl q ↦
        let at = (reachable-IsCurrent k r).indexed q in
        elim (Option-cases (lookup sub im.concept_by_iri)) [
          | inl e ↦ absurd (ground (arith, h, q, e))
          | inr (c, e) ↦ elim (Option-cases (lookup super im.concept_by_iri)) [
            | inl f ↦ absurd (ground (arith, h, q, e, f))
            | inr (d, f) ↦ (
              never_stale k im r (inl q),
              (
                c,
                (
                  d,
                  (
                    ap (lookup sub) (sym at) ∙ e,
                    (ap (lookup super) (sym at) ∙ f, ground (arith, h, q, e, f)),
                  ),
                ),
              ),
            )
          ]
        ]
  ]

  -- When `isSatisfiableClass` answers false in a reached state, the ontology is that of the content
  -- synced last (by its digest), the IRI names a concept of its taxonomy, and the taxonomy says that
  -- this concept is not satisfiable.
  pub is_satisfiable_class-IsOfContent :
      (im : Impl k)
      → Reachable k im
      → (iri : Text) → is_satisfiable_class k im iri ≡ false
      → IsOfContent im
        × ((c : Concept) × (Names im.ontology iri c × (is_satisfiable im.ontology c ≡ some false)))
  unfolding is_satisfiable_class
  is_satisfiable_class-IsOfContent im r iri h = elim (Bool-cases im.classified) [
    | inr q ↦ absurd (ground (arith, h, q))
    | inl q ↦
        let at = (reachable-IsCurrent k r).indexed q in
        elim (Option-cases (lookup iri im.concept_by_iri)) [
          | inl e ↦ absurd (ground (arith, h, q, e))
          | inr (c, e) ↦ (
            never_stale k im r (inl q),
            (c, (ap (lookup iri) (sym at) ∙ e, ground (arith, h, q, e))),
          )
        ]
  ]
