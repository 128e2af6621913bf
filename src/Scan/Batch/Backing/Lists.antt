-- ===== src/Scan/Batch/Backing/Lists.antt =====
-- The lists, and their reasons.
use rdf_reasoner_konclude.Base.{ℕ, List, ◌&&◌, nat_eq, list_eq, pair_eq, length}
use rdf_reasoner_konclude.Base.Dicts.{assign}
use native.Mathlib.Omega.{arith}
use mathlib.Core.Path.{refl, sym, subst}
use mathlib.Core.Logic.{inl, inr}
use mathlib.Core.List.Memᴰ
use rdf_reasoner_konclude.Base.Loops.{for_each-keeps, if_keeps}
use rdf_reasoner_konclude.Base.{ltb}
use rdf_reasoner_konclude.Wire.Table.{Text}
use rdf_reasoner_konclude.Wire.Intern.{id_index}
use rdf_reasoner_konclude.Wire.Emit.{Triple}
use rdf_reasoner_konclude.Scan.Terms.{text_at, is_named, is_term}
use rdf_reasoner_konclude.Scan.Lines.{work_key, rdf_type_iri}
use rdf_reasoner_konclude.Scan.Batch.{BatchVocabulary, batch_maps, Batch}
use rdf_reasoner_konclude.Scan.Batch.Maps.Taken.{batch_maps-MapsSaid}
use rdf_reasoner_konclude.Scan.Batch.Backing.{
  Listed, IsJustified, BatchBacked, assign-IsJustified, assign_self-IsJustified,
}
use rdf_reasoner_konclude.Scan.Lines.{sub_class_of_iri}
use rdf_reasoner_konclude.Scan.Batch.Lists.{
  list_members, add_one_of, add_disjoint_union, scan_one_of_head, scan_one_of,
  scan_disjoint_union_triple, scan_disjoint_unions,
}

module _ (terms : List Text) (chars : ℕ → Text) (v : BatchVocabulary) (ts : List Triple) where
  add_one_of-BatchBacked :
      (class just member : Text) (d : Batch)
      → Listed terms chars v ts v.one_of class member
      → BatchBacked terms chars v ts d
      → BatchBacked terms chars v ts (add_one_of class just member d)
  add_one_of-BatchBacked class just member d listed h = record {
    one_of = λ c x p. elim (Memᴰ.append_cases d.one_of_memberships p) [
      | inl old ↦
          let kept = h.one_of c x old in
          (kept.0, assign-IsJustified d.justifications _ just x rdf_type_iri c kept.1)
      | inr new ↦
          subst
            (λ (e : Text × Text).
              Listed terms chars v ts v.one_of e.0 e.1
              × IsJustified (assign (work_key member rdf_type_iri class) just d.justifications) e.1
                  rdf_type_iri e.0)
            (sym (Memᴰ.eq_of_singleton new))
            (listed, assign_self-IsJustified d.justifications just member rdf_type_iri class)
    ];
    disjoint_union = λ c x p.
        let kept = h.disjoint_union c x p in
        (kept.0, assign-IsJustified d.justifications _ just x sub_class_of_iri c kept.1);
    some_values = h.some_values;
    some_distinct = h.some_distinct;
    min_cards = h.min_cards;
    types = h.types;
    some_roles = h.some_roles;
    min_roles = h.min_roles;
  }

  add_disjoint_union-BatchBacked :
      (class just member : Text) (d : Batch)
      → Listed terms chars v ts v.disjoint_union_of class member
      → BatchBacked terms chars v ts d
      → BatchBacked terms chars v ts (add_disjoint_union class just member d)
  add_disjoint_union-BatchBacked class just member d listed h = record {
    one_of = λ c x p.
        let kept = h.one_of c x p in
        (kept.0, assign-IsJustified d.justifications _ just x rdf_type_iri c kept.1);
    disjoint_union = λ c x p. elim (Memᴰ.append_cases d.disjoint_union_of p) [
      | inl old ↦
          let kept = h.disjoint_union c x old in
          (kept.0, assign-IsJustified d.justifications _ just x sub_class_of_iri c kept.1)
      | inr new ↦
          subst
            (λ (e : Text × Text).
              Listed terms chars v ts v.disjoint_union_of e.0 e.1
              × IsJustified (assign (work_key member sub_class_of_iri class) just d.justifications)
                  e.1 sub_class_of_iri e.0)
            (sym (Memᴰ.eq_of_singleton new))
            (listed, assign_self-IsJustified d.justifications just member sub_class_of_iri class)
    ];
    some_values = h.some_values;
    some_distinct = h.some_distinct;
    min_cards = h.min_cards;
    types = h.types;
    some_roles = h.some_roles;
    min_roles = h.min_roles;
  }

  pub scan_one_of-BatchBacked :
      (d : Batch)
      → BatchBacked terms chars v ts d
      → BatchBacked terms chars v ts (scan_one_of terms (batch_maps v ts) d)
  unfolding scan_one_of
  scan_one_of-BatchBacked d h =
      let m = batch_maps v ts in
      for_each-keeps (BatchBacked terms chars v ts) (scan_one_of_head terms m) m.one_of_heads
        (λ x mem e held.
          if_keeps (BatchBacked terms chars v ts) (ltb x.0 (length terms))
            (λ q.
              for_each-keeps (BatchBacked terms chars v ts) (add_one_of (text_at terms x.0) _)
                (list_members terms m x.1)
                (λ member inside f kept.
                  add_one_of-BatchBacked (text_at terms x.0) _ member f
                    (
                      x.0,
                      (x.1, ((batch_maps-MapsSaid v ts).one_of_heads x.0 x.1 mem, (refl, inside))),
                    )
                    kept)
                e held)
            held)
        d h

  pub scan_disjoint_unions-BatchBacked :
      (d : Batch)
      → BatchBacked terms chars v ts d
      → BatchBacked terms chars v ts (scan_disjoint_unions terms (batch_maps v ts) v ts d)
  unfolding scan_disjoint_unions
  scan_disjoint_unions-BatchBacked d h =
      let m = batch_maps v ts in
      for_each-keeps (BatchBacked terms chars v ts) (scan_disjoint_union_triple terms m v) ts
        (λ x mem e held.
          if_keeps (BatchBacked terms chars v ts)
            (is_term v.disjoint_union_of x.1.0 && is_named x.0 && ltb (id_index x.0) (length terms))
            (λ q.
              for_each-keeps (BatchBacked terms chars v ts)
                (add_disjoint_union (text_at terms (id_index x.0)) _) (list_members terms m x.1.1)
                (λ member inside f kept.
                  add_disjoint_union-BatchBacked (text_at terms (id_index x.0)) _ member f
                    (
                      id_index x.0,
                      (
                        x.1.1,
                        (
                          (
                            x.0,
                            (
                              record {
                                predicate = x.1.0;
                                is_triple = mem;
                                is_kind = ground (arith, q);
                              },
                              (ground (arith, q), refl),
                            ),
                          ),
                          (refl, inside),
                        ),
                      ),
                    )
                    kept)
                e held)
            held)
        d h
