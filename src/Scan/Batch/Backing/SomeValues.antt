-- ===== src/Scan/Batch/Backing/SomeValues.antt =====
-- The restrictions of owl:someValuesFrom, and their reasons.
use mathlib.Core.List.{Memᴰ}
use rdf_reasoner_konclude.Base.{
  arith, ℕ, ◌≡◌, List, [], ◌∷◌, ◌++◌, true, ◌&&◌, if◌then◌else◌, Option, none, some, nat_eq,
  list_eq, pair_eq, ◌==◌, length,
}
use rdf_reasoner_konclude.Base.Dicts.{lookup, assign}
use rdf_reasoner_konclude.Base.Sets.{contains}
use rdf_reasoner_konclude.Base.Loops.{when_some}
use mathlib.Core.Path.{sym, subst, refl}
use mathlib.Core.Logic.{inl, inr}
use mathlib.Core.List.Memᴰ
use rdf_reasoner_konclude.Base.Loops.{for_each-keeps, when_some-keeps, if_keeps, unless_keeps}
use rdf_reasoner_konclude.Base.Entries.{
  Entries, Groups, Mem-lookup, assign-Entries, push_value-Groups,
}
use rdf_reasoner_konclude.Base.{Bool-cases, ltb}
use rdf_reasoner_konclude.Base.Sets.{Distinct, append-Distinct}
use rdf_reasoner_konclude.Wire.Table.{Text}
use rdf_reasoner_konclude.Wire.Intern.{id_index}
use rdf_reasoner_konclude.Wire.Emit.{Triple}
use rdf_reasoner_konclude.Scan.Terms.{text_at, is_named, is_term}
use rdf_reasoner_konclude.Scan.Batch.{BatchVocabulary, batch_maps, Batch, on_class_axiom}
use rdf_reasoner_konclude.Scan.Batch.Maps.{IndexBy}
use rdf_reasoner_konclude.Scan.Batch.Maps.Taken.{batch_maps-MapsSaid}
use rdf_reasoner_konclude.Scan.Batch.Backing.Roles.{role_assertions-Groups, entry_properties-Groups}
use rdf_reasoner_konclude.Scan.Batch.Backing.{
  AxiomBy, NodeBy, on_class_axiom-keeps, SomeBy, BatchBacked, SomeProperty, TypeBy,
}
use rdf_reasoner_konclude.Scan.Batch.SomeValues.{
  add_type, entry_properties, confirm_some, confirmed_some, add_entry, add_some, add_some_node,
  index_some, keep_some_roles, keep_types, scan_some,
}

add_entry-Distinct :
    (class : Text) (e : Text × Text) (index : List (Text × List (Text × Text)))
    → Entries (λ class es. Distinct es) index
    → Entries (λ class es. Distinct es) (add_entry class e index)
add_entry-Distinct class e index h = with_old (lookup class index) refl
  where
    with_old :
        (o : Option (List (Text × Text)))
        → lookup class index ≡ o
        → Entries
            (λ (class : Text) (es : List (Text × Text)). Distinct es)
            (if contains (elim o [ none ↦ [] | some es ↦ es ]) e
              then index
              else assign class (elim o [ none ↦ e ∷ [] | some es ↦ es ++ (e ∷ []) ]) index)
    with_old none q = assign-Entries (λ class es. Distinct es) class (e ∷ []) index (refl, tt) h
    with_old (some es) q = elim (Bool-cases (contains es e)) [
      | inl r ↦ rw r h
      | inr r ↦ rw r (
          assign-Entries (λ class es. Distinct es) class (es ++ (e ∷ [])) index
            (append-Distinct es e r (h class es (Mem-lookup class es index q))) h)
    ]

module _ (terms : List Text) (chars : ℕ → Text) (v : BatchVocabulary) (ts : List Triple) where
  confirmed_some-Entries :
      Entries
        (λ node e.
          NodeBy v ts node
          × (IndexBy ts v.on_property node e.0 × IndexBy ts v.some_values_from node e.1))
        (confirmed_some (batch_maps v ts))
  unfolding confirmed_some
  confirmed_some-Entries =
      let m = batch_maps v ts in
      let said = batch_maps-MapsSaid v ts in
      let R = λ (node : ℕ) (e : ℕ × ℕ).
        NodeBy v ts node
        × (IndexBy ts v.on_property node e.0 × IndexBy ts v.some_values_from node e.1) in
      for_each-keeps (Entries R) (confirm_some m) m.nodes
        (λ node inside c h.
          when_some-keeps (Entries R)
            (λ prop. when_some (λ filler. assign node (prop, filler)) (lookup node m.fillers))
            (lookup node m.properties) c
            (λ prop p.
              when_some-keeps (Entries R) (λ filler. assign node (prop, filler))
                (lookup node m.fillers) c
                (λ filler f.
                  assign-Entries R node (prop, filler) c
                    (
                      said.nodes node inside,
                      (
                        said.properties node prop (Mem-lookup node prop m.properties p),
                        said.fillers node filler (Mem-lookup node filler m.fillers f),
                      ),
                    )
                    h)
                h)
            h)
        [] (λ k w p. absurd (Memᴰ.not-nil p))

  add_some-BatchBacked :
      (class node prop filler : ℕ) (d : Batch)
      → is_named class ≡ true
      → AxiomBy v ts class node
      → NodeBy v ts node
      → IndexBy ts v.on_property node prop
      → IndexBy ts v.some_values_from node filler
      → BatchBacked terms chars v ts d
      → BatchBacked terms chars v ts (add_some terms class (prop, filler) d)
  add_some-BatchBacked class node prop filler d named related is_node on from h =
      if_keeps (BatchBacked terms chars v ts)
        (ltb (id_index class) (length terms)
          && ltb prop (length terms)
          && ltb filler (length terms))
        {n = record d {
          svf_index =
              add_entry (text_at terms (id_index class)) (text_at terms prop, text_at terms filler)
                d.svf_index;
        }}
        (λ q. record {
          one_of = h.one_of;
          disjoint_union = h.disjoint_union;
          some_values = unless_keeps (Groups (SomeBy terms chars v ts)) _ h.some_values (
              push_value-Groups (SomeBy terms chars v ts) (text_at terms (id_index class))
                (text_at terms prop, text_at terms filler) d.svf_index
                (
                  class,
                  (
                    node,
                    (
                      prop,
                      (filler, (related, (is_node, (on, (from, (named, (refl, (refl, refl)))))))),
                    ),
                  ),
                )
                h.some_values);
          some_distinct =
              add_entry-Distinct (text_at terms (id_index class))
                (text_at terms prop, text_at terms filler) d.svf_index h.some_distinct;
          min_cards = h.min_cards;
          types = h.types;
          some_roles = h.some_roles;
          min_roles = h.min_roles;
        })
        h

  index_some-BatchBacked :
      (d : Batch)
      → BatchBacked terms chars v ts d
      → BatchBacked terms chars v ts (index_some terms v (confirmed_some (batch_maps v ts)) ts d)
  unfolding index_some
  index_some-BatchBacked d h =
      let confirmed = confirmed_some (batch_maps v ts) in
      unless_keeps (BatchBacked terms chars v ts) (length confirmed == 0) h (
        for_each-keeps (BatchBacked terms chars v ts)
          (on_class_axiom v (add_some_node terms confirmed)) ts
          (on_class_axiom-keeps v ts (BatchBacked terms chars v ts) (add_some_node terms confirmed)
            (λ class node e named related held.
              when_some-keeps (BatchBacked terms chars v ts) (add_some terms class)
                (lookup node confirmed) e
                (λ pf found.
                  let said = confirmed_some-Entries node pf (Mem-lookup node pf confirmed found) in
                  add_some-BatchBacked class node pf.0 pf.1 e named related said.0 said.1.0 said.1.1
                    held)
                held))
          d h)

  keep_some_roles-BatchBacked :
      (d : Batch)
      → BatchBacked terms chars v ts d
      → BatchBacked terms chars v ts (keep_some_roles terms ts d)
  keep_some_roles-BatchBacked d h =
      unless_keeps (BatchBacked terms chars v ts) (length d.svf_index == 0) h (
        unless_keeps (BatchBacked terms chars v ts) _ h record {
          one_of = h.one_of;
          disjoint_union = h.disjoint_union;
          some_values = h.some_values;
          some_distinct = h.some_distinct;
          min_cards = h.min_cards;
          types = h.types;
          some_roles =
              role_assertions-Groups terms chars v ts (SomeProperty terms chars v ts)
                (entry_properties terms d.svf_index)
                (entry_properties-Groups terms (SomeBy terms chars v ts) d.svf_index h.some_values)
                _ h.some_roles;
          min_roles = h.min_roles;
        })

  add_type-TypeBy :
      (x : Triple)
      → Memᴰ x ts
      → (types : List (Text × Text))
      → ((indi class : Text) → Memᴰ (indi, class) types → TypeBy terms chars v ts indi class)
      → (indi class : Text) → Memᴰ (indi, class) (add_type terms v x types)
      → TypeBy terms chars v ts indi class
  unfolding is_named
  add_type-TypeBy (s, (p, o)) mem types h =
      if_keeps
        (λ (l : List (Text × Text)).
          (indi class : Text) → Memᴰ (indi, class) l → TypeBy terms chars v ts indi class)
        (is_term v.rdf_type p
          && is_named s
          && is_named o
          && ltb (id_index s) (length terms)
          && ltb (id_index o) (length terms))
        (λ q indi class inside. elim (Memᴰ.append_cases types inside) [
          | inl old ↦ h indi class old
          | inr new ↦
              subst (λ (e : Text × Text). TypeBy terms chars v ts e.0 e.1)
                (sym (Memᴰ.eq_of_singleton new))
                record {
                  subject = s;
                  object = o;
                  by_type = record { predicate = p; is_triple = mem; is_kind = ground (arith, q) };
                  named_subject = ground (arith, q);
                  named_object = ground (arith, q);
                  indi_iri = refl;
                  class_iri = refl;
                }
        ])
        h

  keep_types-BatchBacked :
      (d : Batch)
      → BatchBacked terms chars v ts d
      → BatchBacked terms chars v ts (keep_types terms v ts d)
  keep_types-BatchBacked d h =
      unless_keeps (BatchBacked terms chars v ts) (length d.svf_index == 0) h record {
        one_of = h.one_of;
        disjoint_union = h.disjoint_union;
        some_values = h.some_values;
        some_distinct = h.some_distinct;
        min_cards = h.min_cards;
        types =
            for_each-keeps
              (λ types.
                (indi class : Text) → Memᴰ (indi, class) types → TypeBy terms chars v ts indi class)
              (add_type terms v) ts add_type-TypeBy d.svf_abox_types h.types;
        some_roles = h.some_roles;
        min_roles = h.min_roles;
      }

  pub scan_some-BatchBacked :
      (d : Batch)
      → BatchBacked terms chars v ts d
      → BatchBacked terms chars v ts (scan_some terms v (batch_maps v ts) ts d)
  unfolding scan_some
  scan_some-BatchBacked d h =
      keep_types-BatchBacked _ (keep_some_roles-BatchBacked _ (index_some-BatchBacked d h))
