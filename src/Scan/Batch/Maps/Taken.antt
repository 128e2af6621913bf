-- ===== src/Scan/Batch/Maps/Taken.antt =====
-- The branches of the pass, and the triples.
use rdf_reasoner_konclude.Base.{ℕ, ◌≡◌, List, true, Option, nat_eq, list_eq, pair_eq, ◌==◌}
use rdf_reasoner_konclude.Base.Sets.{insert}
use native.Mathlib.Omega.{arith}
use mathlib.Core.Path.{refl, subst}
use mathlib.Core.Logic.{inl, inr}
use mathlib.Core.List.{Memᴰ}
use mathlib.Core.List.Memᴰ
use rdf_reasoner_konclude.Base.Loops.{for_each-keeps, if_keeps}
use rdf_reasoner_konclude.Base.Entries.{assign-Entries}
use rdf_reasoner_konclude.Base.{Bool-cases, nat_beq_iff}
use rdf_reasoner_konclude.Base.Sets.{Mem-contains, contains_of_Mem, contains-insert}
use rdf_reasoner_konclude.Wire.Intern.{id_index}
use rdf_reasoner_konclude.Wire.Emit.{Triple}
use rdf_reasoner_konclude.Scan.Terms.{is_term}
use rdf_reasoner_konclude.Scan.Batch.{
  BatchVocabulary, BatchMaps, no_maps, batch_maps, add_to_maps, take_branch, branch, Branch, a_node,
  a_property, a_filler, a_first, a_rest, a_head, a_min, a_min_qualified, a_class, nothing,
}
use rdf_reasoner_konclude.Scan.Batch.Maps.{
  TripleBy, IndexBy, SubjectBy, MapsSaid, Fits, branch-Fits,
}

module _ (v : BatchVocabulary) (ts : List Triple) where
  module _ (s p o : ℕ) (mem : Memᴰ (s, (p, o)) ts) where
    triple_by : (kind : Option ℕ) → is_term kind p ≡ true → TripleBy ts kind s o
    triple_by kind q = record { predicate = p; is_triple = mem; is_kind = q }

    node-MapsSaid :
        (m : BatchMaps)
        → is_term v.rdf_type p ≡ true
        → is_term v.restriction (id_index o) ≡ true
        → MapsSaid v ts m
        → MapsSaid v ts (record m { nodes = insert s m.nodes })
    node-MapsSaid m q r h = record {
      nodes = λ b inside. elim (Bool-cases (s == b)) [
        | inl e ↦
            subst
              (λ c.
                (o : ℕ) × (TripleBy ts v.rdf_type c o
                  × (is_term v.restriction (id_index o) ≡ true)))
              ((nat_beq_iff s b).0 e) (o, (triple_by v.rdf_type q, r))
        | inr e ↦ h.nodes b (
            Mem-contains b m.nodes (
              ground (
                arith,
                e,
                contains-insert s m.nodes b,
                contains_of_Mem b (insert s m.nodes) inside,
              )))
      ];
      properties = h.properties;
      fillers = h.fillers;
      firsts = h.firsts;
      rests = h.rests;
      one_of_heads = h.one_of_heads;
      min_values = h.min_values;
      min_qualified_values = h.min_qualified_values;
      on_classes = h.on_classes;
    }

    take_branch-MapsSaid :
        (b : Branch) (m : BatchMaps)
        → Fits v ts s p o b
        → MapsSaid v ts m
        → MapsSaid v ts (take_branch v b s o m)
    take_branch-MapsSaid a_node m q h =
        if_keeps (MapsSaid v ts) (is_term v.restriction (id_index o)) (λ r. node-MapsSaid m q r h) h
    take_branch-MapsSaid a_property m q h = record {
      nodes = h.nodes;
      properties =
          assign-Entries (IndexBy ts v.on_property) s (id_index o) m.properties
            (o, (triple_by v.on_property q, refl)) h.properties;
      fillers = h.fillers;
      firsts = h.firsts;
      rests = h.rests;
      one_of_heads = h.one_of_heads;
      min_values = h.min_values;
      min_qualified_values = h.min_qualified_values;
      on_classes = h.on_classes;
    }
    take_branch-MapsSaid a_filler m q h = record {
      nodes = h.nodes;
      properties = h.properties;
      fillers =
          assign-Entries (IndexBy ts v.some_values_from) s (id_index o) m.fillers
            (o, (triple_by v.some_values_from q, refl)) h.fillers;
      firsts = h.firsts;
      rests = h.rests;
      one_of_heads = h.one_of_heads;
      min_values = h.min_values;
      min_qualified_values = h.min_qualified_values;
      on_classes = h.on_classes;
    }
    take_branch-MapsSaid a_first m q h = record {
      nodes = h.nodes;
      properties = h.properties;
      fillers = h.fillers;
      firsts =
          assign-Entries (IndexBy ts v.rdf_first) s (id_index o) m.firsts
            (o, (triple_by v.rdf_first q, refl)) h.firsts;
      rests = h.rests;
      one_of_heads = h.one_of_heads;
      min_values = h.min_values;
      min_qualified_values = h.min_qualified_values;
      on_classes = h.on_classes;
    }
    take_branch-MapsSaid a_rest m q h = record {
      nodes = h.nodes;
      properties = h.properties;
      fillers = h.fillers;
      firsts = h.firsts;
      rests = assign-Entries (TripleBy ts v.rdf_rest) s o m.rests (triple_by v.rdf_rest q) h.rests;
      one_of_heads = h.one_of_heads;
      min_values = h.min_values;
      min_qualified_values = h.min_qualified_values;
      on_classes = h.on_classes;
    }
    take_branch-MapsSaid a_head m q h = record {
      nodes = h.nodes;
      properties = h.properties;
      fillers = h.fillers;
      firsts = h.firsts;
      rests = h.rests;
      one_of_heads =
          assign-Entries (SubjectBy ts v.one_of) (id_index s) o m.one_of_heads
            (s, (triple_by v.one_of q.0, (q.1, refl))) h.one_of_heads;
      min_values = h.min_values;
      min_qualified_values = h.min_qualified_values;
      on_classes = h.on_classes;
    }
    take_branch-MapsSaid a_min m q h = record {
      nodes = h.nodes;
      properties = h.properties;
      fillers = h.fillers;
      firsts = h.firsts;
      rests = h.rests;
      one_of_heads = h.one_of_heads;
      min_values =
          assign-Entries (TripleBy ts v.min_cardinality) s o m.min_values
            (triple_by v.min_cardinality q) h.min_values;
      min_qualified_values = h.min_qualified_values;
      on_classes = h.on_classes;
    }
    take_branch-MapsSaid a_min_qualified m q h = record {
      nodes = h.nodes;
      properties = h.properties;
      fillers = h.fillers;
      firsts = h.firsts;
      rests = h.rests;
      one_of_heads = h.one_of_heads;
      min_values = h.min_values;
      min_qualified_values =
          assign-Entries (TripleBy ts v.min_qualified_cardinality) s o m.min_qualified_values
            (triple_by v.min_qualified_cardinality q) h.min_qualified_values;
      on_classes = h.on_classes;
    }
    take_branch-MapsSaid a_class m q h = record {
      nodes = h.nodes;
      properties = h.properties;
      fillers = h.fillers;
      firsts = h.firsts;
      rests = h.rests;
      one_of_heads = h.one_of_heads;
      min_values = h.min_values;
      min_qualified_values = h.min_qualified_values;
      on_classes =
          assign-Entries (IndexBy ts v.on_class) s (id_index o) m.on_classes
            (o, (triple_by v.on_class q, refl)) h.on_classes;
    }
    take_branch-MapsSaid nothing m q h = h

  pub batch_maps-MapsSaid : MapsSaid v ts (batch_maps v ts)
  unfolding batch_maps
  batch_maps-MapsSaid =
      for_each-keeps (MapsSaid v ts) (add_to_maps v) ts
        (λ x mem m h.
          take_branch-MapsSaid x.0 x.1.0 x.1.1 mem (branch v x) m (branch-Fits v ts x.0 x.1.0 x.1.1)
            h)
        no_maps
        record {
          nodes = λ b p. absurd (Memᴰ.not-nil p);
          properties = λ k w p. absurd (Memᴰ.not-nil p);
          fillers = λ k w p. absurd (Memᴰ.not-nil p);
          firsts = λ k w p. absurd (Memᴰ.not-nil p);
          rests = λ k w p. absurd (Memᴰ.not-nil p);
          one_of_heads = λ k w p. absurd (Memᴰ.not-nil p);
          min_values = λ k w p. absurd (Memᴰ.not-nil p);
          min_qualified_values = λ k w p. absurd (Memᴰ.not-nil p);
          on_classes = λ k w p. absurd (Memᴰ.not-nil p);
        }
