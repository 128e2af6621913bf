-- ===== src/Scan/Batch/Backing/MinCards.antt =====
-- The restrictions of minimal cardinality, and their reasons.
use mathlib.Core.List.{map}
use rdf_reasoner_konclude.Base.{
  ℕ, ◌≡◌, List, [], ◌&&◌, Option, none, some, nat_eq, list_eq, pair_eq, ◌==◌, length,
}
use rdf_reasoner_konclude.Base.Dicts.{lookup, assign}
use rdf_reasoner_konclude.Base.Loops.{when_some}
use mathlib.Core.Path.{refl, sym, subst, ◌∙◌}
use mathlib.Core.Logic.{◌⊎◌, inl, inr}
use mathlib.Core.List.Memᴰ
use rdf_reasoner_konclude.Base.Loops.{for_each-keeps, when_some-keeps, if_keeps, unless_keeps}
use rdf_reasoner_konclude.Base.Entries.{Entries, Mem-lookup, assign-Entries}
use rdf_reasoner_konclude.Base.{ltb}
use rdf_reasoner_konclude.Wire.Table.{Text}
use rdf_reasoner_konclude.Wire.Intern.{id_index}
use rdf_reasoner_konclude.Wire.Emit.{Triple}
use rdf_reasoner_konclude.Scan.Terms.{text_at}
use rdf_reasoner_konclude.Scan.Batch.{
  BatchVocabulary, BatchMaps, batch_maps, Batch, MinCardinality, on_class_axiom,
}
use rdf_reasoner_konclude.Scan.Batch.Maps.{TripleBy, IndexBy}
use rdf_reasoner_konclude.Scan.Batch.Maps.Taken.{batch_maps-MapsSaid}
use rdf_reasoner_konclude.Scan.Batch.Backing.Roles.{role_assertions-Groups, Mem-map}
use rdf_reasoner_konclude.Scan.Batch.Backing.{
  AxiomBy, NodeBy, on_class_axiom-keeps, MinBy, BatchBacked, MinProperty,
}
use rdf_reasoner_konclude.Scan.Batch.MinCards.{
  positive_stoi, min_literal, confirm_min, confirmed_mins, on_class_of, push_min, add_min,
  add_min_node, index_mins, scan_mins,
}

module _ (terms : List Text) (chars : ℕ → Text) (v : BatchVocabulary) (ts : List Triple) where
  -- What a confirmed node says of its property and its literal.
  abbrev ConfirmedMin : ℕ → ℕ × ℕ → Type 0
  ConfirmedMin node e =
      NodeBy v ts node
      × (IndexBy ts v.on_property node e.0
          × (TripleBy ts v.min_cardinality node e.1
              ⊎ TripleBy ts v.min_qualified_cardinality node e.1))

  min_literal-said :
      (node l : ℕ)
      → min_literal (batch_maps v ts) node ≡ some l
      → TripleBy ts v.min_cardinality node l ⊎ TripleBy ts v.min_qualified_cardinality node l
  min_literal-said node l h = with_min (lookup node m.min_values) refl h
    where
      m : BatchMaps
      m = batch_maps v ts

      with_min :
          (o : Option ℕ)
          → lookup node (batch_maps v ts).min_values ≡ o
          → (elim o [ some l ↦ some l | none ↦ lookup node (batch_maps v ts).min_qualified_values ])
            ≡ some l
          → TripleBy ts v.min_cardinality node l ⊎ TripleBy ts v.min_qualified_cardinality node l
      with_min none q r =
          inr ((batch_maps-MapsSaid v ts).min_qualified_values node l (Mem-lookup node l _ r))
      with_min (some k) q r =
          inl ((batch_maps-MapsSaid v ts).min_values node l (Mem-lookup node l _ (q ∙ r)))

  confirmed_mins-Entries : Entries ConfirmedMin (confirmed_mins (batch_maps v ts))
  unfolding confirmed_mins
  confirmed_mins-Entries =
      let m = batch_maps v ts in
      let said = batch_maps-MapsSaid v ts in
      for_each-keeps (Entries ConfirmedMin) (confirm_min m) m.nodes
        (λ node inside c h.
          when_some-keeps (Entries ConfirmedMin)
            (λ prop. when_some (λ literal. assign node (prop, literal)) (min_literal m node))
            (lookup node m.properties) c
            (λ prop p.
              when_some-keeps (Entries ConfirmedMin) (λ literal. assign node (prop, literal))
                (min_literal m node) c
                (λ literal l.
                  assign-Entries ConfirmedMin node (prop, literal) c
                    (
                      said.nodes node inside,
                      (
                        said.properties node prop (Mem-lookup node prop m.properties p),
                        min_literal-said node literal l,
                      ),
                    )
                    h)
                h)
            h)
        [] (λ k w p. absurd (Memᴰ.not-nil p))

  push_min-BatchBacked :
      (r : MinCardinality) (d : Batch)
      → MinBy terms chars v ts r
      → BatchBacked terms chars v ts d
      → BatchBacked terms chars v ts (push_min terms chars (batch_maps v ts) r d)
  push_min-BatchBacked r d by h = record {
    one_of = h.one_of;
    disjoint_union = h.disjoint_union;
    some_values = h.some_values;
    some_distinct = h.some_distinct;
    min_cards = λ r' p. elim (Memᴰ.append_cases d.min_card_restrictions p) [
      | inl old ↦ h.min_cards r' old
      | inr new ↦ subst (MinBy terms chars v ts) (sym (Memᴰ.eq_of_singleton new)) by
    ];
    types = h.types;
    some_roles = h.some_roles;
    min_roles = h.min_roles;
  }

  add_min-BatchBacked :
      (class node : ℕ) (pl : ℕ × ℕ) (d : Batch)
      → AxiomBy v ts class node
      → ConfirmedMin node pl
      → BatchBacked terms chars v ts d
      → BatchBacked terms chars v ts (add_min terms chars (batch_maps v ts) class node pl d)
  add_min-BatchBacked class node (prop, literal) d related said h =
      if_keeps (BatchBacked terms chars v ts)
        (ltb (id_index class) (length terms)
          && ltb prop (length terms)
          && ltb (id_index literal) (length terms))
        (λ q.
          when_some-keeps (BatchBacked terms chars v ts)
            (λ n. push_min terms chars (batch_maps v ts) record {
              class_iri = text_at terms (id_index class);
              property_iri = text_at terms prop;
              least = n;
              on_class_iri = on_class_of terms chars (batch_maps v ts) node;
            })
            (positive_stoi (chars (id_index literal))) d
            (λ n e.
              push_min-BatchBacked
                record {
                  class_iri = text_at terms (id_index class);
                  property_iri = text_at terms prop;
                  least = n;
                  on_class_iri = on_class_of terms chars (batch_maps v ts) node;
                }
                d
                record {
                  class = class;
                  node = node;
                  property = prop;
                  literal = literal;
                  by_axiom = related;
                  is_node = said.0;
                  on_property = said.1.0;
                  has_literal = said.1.1;
                  class_iri = refl;
                  property_iri = refl;
                  least = e;
                  on_class = refl;
                }
                h)
            h)
        h

  index_mins-BatchBacked :
      (d : Batch)
      → BatchBacked terms chars v ts d
      → BatchBacked terms chars v ts
          (index_mins terms chars (batch_maps v ts) v (confirmed_mins (batch_maps v ts)) ts d)
  unfolding index_mins
  index_mins-BatchBacked d h =
      let m = batch_maps v ts in
      let confirmed = confirmed_mins m in
      unless_keeps (BatchBacked terms chars v ts) (length confirmed == 0) h (
        for_each-keeps (BatchBacked terms chars v ts)
          (on_class_axiom v (add_min_node terms chars m confirmed)) ts
          (on_class_axiom-keeps v ts (BatchBacked terms chars v ts)
            (add_min_node terms chars m confirmed)
            (λ class node e named related held.
              when_some-keeps (BatchBacked terms chars v ts) (add_min terms chars m class node)
                (lookup node confirmed) e
                (λ pl found.
                  add_min-BatchBacked class node pl e related
                    (confirmed_mins-Entries node pl (Mem-lookup node pl confirmed found)) held)
                held))
          d h)

  pub scan_mins-BatchBacked :
      (d : Batch)
      → BatchBacked terms chars v ts d
      → BatchBacked terms chars v ts (scan_mins terms chars (batch_maps v ts) v ts d)
  unfolding scan_mins
  scan_mins-BatchBacked d h =
      let indexed = index_mins-BatchBacked d h in
      unless_keeps (BatchBacked terms chars v ts) _ indexed (
        unless_keeps (BatchBacked terms chars v ts) _ indexed record {
          one_of = indexed.one_of;
          disjoint_union = indexed.disjoint_union;
          some_values = indexed.some_values;
          some_distinct = indexed.some_distinct;
          min_cards = indexed.min_cards;
          types = indexed.types;
          some_roles = indexed.some_roles;
          min_roles =
              role_assertions-Groups terms chars v ts (MinProperty terms chars v ts)
                (map (λ r. r.property_iri)
                  (index_mins terms chars (batch_maps v ts) v (confirmed_mins (batch_maps v ts)) ts
                    d).min_card_restrictions)
                (λ iri p.
                  let found = Mem-map _ p in
                  (found.0, (indexed.min_cards found.0 found.1.0, found.1.1)))
                _ indexed.min_roles;
        })
