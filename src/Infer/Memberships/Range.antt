-- ===== src/Infer/Memberships/Range.antt =====
-- The range of the indices in the explanations.
use native.Mathlib.Omega.{arith}
use mathlib.Core.Path.{refl, sym, subst, ◌∙◌}
use mathlib.Core.Logic.{inl, inr}
use mathlib.Core.List.{Memᴰ}
use mathlib.Core.List.Memᴰ
use rdf_reasoner_konclude.Base.{
  ℕ, ◌+◌, ◌<◌, ◌≤◌, ◌%◌, ◌^◌, ◌≡◌, List, [], ◌∷◌, ◌++◌, Bool, Option, none, some, length,
  length-append, nat_eq, list_eq, pair_eq, ◌==◌,
}
use rdf_reasoner_konclude.Base.Dicts.{lookup}
use rdf_reasoner_konclude.Base.Entries.{Entries, Mem-lookup, assign-Entries}
use rdf_reasoner_konclude.Base.Loops.{for_each-keeps, if_keeps, unless_keeps}
use rdf_reasoner_konclude.Wire.Table.{Text}
use rdf_reasoner_konclude.Wire.Emit.{Triple, emit_triple}
use rdf_reasoner_konclude.Wire.Intern.{intern}
use rdf_reasoner_konclude.Wire.Buffer.{JustEntry}
use rdf_reasoner_konclude.Scan.Lines.{Justifications, work_key, rdf_type_iri}
use rdf_reasoner_konclude.Scan.Batch.{Batch}
use rdf_reasoner_konclude.Scan.Prescan.{Derived}
use rdf_reasoner_konclude.Infer.Memberships.{
  Explained, push_axiom, place_at, place_axiom, place_axioms, push_entry, push_mapping, explain_at,
  explain, Report, explain_axioms, explain_text, explain_type, emit_type, emit_types, emit_member,
  emit_instance, emit_memberships,
}

abbrev Below : ℕ → List ℕ → Type 0
Below n is = (i : ℕ) → Memᴰ i is → i < n

-- Every triple's mapping names an entry, and every entry names axioms that are there.
pub record InRange (ex : Explained) : Type 0 where
  pub mappings : (t j : ℕ) → Memᴰ (t, j) ex.parts.triple_mappings → j < length ex.parts.just_entries
  pub entries :
      (e : JustEntry)
      → Memᴰ e ex.parts.just_entries
      → (i : ℕ) → Memᴰ i e.axiom_indices
      → i < length ex.parts.axiom_triples
  pub just_known : Entries (λ hash j. j < length ex.parts.just_entries) ex.just_dedup
  pub axiom_known : Entries (λ t i. i < length ex.parts.axiom_triples) ex.axiom_dedup

-- What placing axioms leaves in place.
record Grown (before ex : Explained) : Type 0 where
  pub in_range : InRange ex
  pub same_entries : length ex.parts.just_entries ≡ length before.parts.just_entries
  pub longer : length before.parts.axiom_triples ≤ length ex.parts.axiom_triples

push_axiom-Grown :
    (t : Triple) (ex : Explained)
    → InRange ex
    → Grown ex (push_axiom t (length ex.parts.axiom_triples % 2 ^ 32) ex)
push_axiom-Grown t ex h =
    let n : length (ex.parts.axiom_triples ++ (t ∷ [])) ≡ length ex.parts.axiom_triples + 1 =
      length-append ex.parts.axiom_triples (t ∷ []) in
    record {
      in_range = record {
        mappings = h.mappings;
        entries = λ e p i q. omega (arith, n, h.entries e p i q);
        just_known = h.just_known;
        axiom_known =
            assign-Entries (λ u i. i < length (ex.parts.axiom_triples ++ (t ∷ []))) t
              (length ex.parts.axiom_triples % 2 ^ 32) ex.axiom_dedup (omega (arith, n))
              (λ u i p. omega (arith, n, h.axiom_known u i p));
      };
      same_entries = refl;
      longer = omega (arith, n);
    }

place_axiom-Grown :
    (t : Triple) (ex : Explained)
    → InRange ex
    → Grown ex (place_axiom t ex).1
      × ((place_axiom t ex).0 < length (place_axiom t ex).1.parts.axiom_triples)
place_axiom-Grown t ex h = with_index (lookup t ex.axiom_dedup) refl
  where
    with_index :
        (o : Option ℕ)
        → lookup t ex.axiom_dedup ≡ o
        → Grown ex (place_at o t ex).1
          × ((place_at o t ex).0 < length (place_at o t ex).1.parts.axiom_triples)
    with_index (some i) q = (
      record { in_range = h; same_entries = refl; longer = omega arith },
      h.axiom_known t i (Mem-lookup t i ex.axiom_dedup q),
    )
    with_index none q =
        (push_axiom-Grown t ex h, omega (arith, length-append ex.parts.axiom_triples (t ∷ [])))

place_axioms-Grown :
    (ts : List Triple) (ex : Explained)
    → InRange ex
    → Grown ex (place_axioms ts ex).1
      × Below (length (place_axioms ts ex).1.parts.axiom_triples) (place_axioms ts ex).0
place_axioms-Grown [] ex h = (
  record { in_range = h; same_entries = refl; longer = omega arith },
  λ i p. absurd (Memᴰ.not-nil p),
)
place_axioms-Grown (t ∷ ts) ex h =
    let first = place_axiom-Grown t ex h in
    let rest = place_axioms-Grown ts (place_axiom t ex).1 first.0.in_range in
    (
      record {
        in_range = rest.0.in_range;
        same_entries = rest.0.same_entries ∙ first.0.same_entries;
        longer = omega (arith, rest.0.longer, first.0.longer);
      },
      λ i p. elim (Memᴰ.cases_cons p) [
        | inl q ↦ omega (arith, q, first.1, rest.0.longer)
        | inr q ↦ rest.1 i q
      ],
    )

push_mapping-InRange :
    (triple j : ℕ) (ex : Explained)
    → j < length ex.parts.just_entries
    → InRange ex
    → InRange (push_mapping triple j ex)
push_mapping-InRange triple j ex known h = record {
  mappings = λ t k p. elim (Memᴰ.append_cases ex.parts.triple_mappings p) [
    | inl old ↦ h.mappings t k old
    | inr new ↦
        subst (λ (x : ℕ × ℕ). x.1 < length ex.parts.just_entries) (sym (Memᴰ.eq_of_singleton new))
          known
  ];
  entries = h.entries;
  just_known = h.just_known;
  axiom_known = h.axiom_known;
}

push_entry-InRange :
    (hash : ℕ) (indices : List ℕ) (j : ℕ) (ex : Explained)
    → j < length ex.parts.just_entries + 1
    → Below (length ex.parts.axiom_triples) indices
    → InRange ex
    → InRange (push_entry hash indices j ex)
push_entry-InRange hash indices j ex small below h =
    let new : JustEntry = record { hash = hash; axiom_indices = indices } in
    let n : length (ex.parts.just_entries ++ (new ∷ [])) ≡ length ex.parts.just_entries + 1 =
      length-append ex.parts.just_entries (new ∷ []) in
    record {
      mappings = λ t k p. omega (arith, n, h.mappings t k p);
      entries = λ e p. elim (Memᴰ.append_cases ex.parts.just_entries p) [
        | inl old ↦ h.entries e old
        | inr last ↦
            subst (λ (x : JustEntry). Below (length ex.parts.axiom_triples) x.axiom_indices)
              (sym (Memᴰ.eq_of_singleton last)) below
      ];
      just_known =
          assign-Entries (λ k i. i < length (ex.parts.just_entries ++ (new ∷ []))) hash j
            ex.just_dedup (omega (arith, n, small)) (λ k i p. omega (arith, n, h.just_known k i p));
      axiom_known = h.axiom_known;
    }

explain-InRange :
    (hash : ℕ) (axioms : List Triple) (triple : ℕ) (ex : Explained)
    → InRange ex
    → InRange (explain hash axioms triple ex)
unfolding explain
explain-InRange hash axioms triple ex h = with_entry (lookup hash ex.just_dedup) refl
  where
    with_entry :
        (o : Option ℕ)
        → lookup hash ex.just_dedup ≡ o
        → InRange (explain_at o hash axioms triple ex)
    with_entry (some j) q =
        push_mapping-InRange triple j ex (h.just_known hash j (Mem-lookup hash j ex.just_dedup q)) h
    with_entry none q =
        let placed = place_axioms-Grown axioms ex h in
        let j : ℕ = length ex.parts.just_entries % 2 ^ 32 in
        let now = (place_axioms axioms ex).1 in
        push_mapping-InRange triple j (push_entry hash (place_axioms axioms ex).0 j now)
          (omega (
            arith,
            placed.0.same_entries,
            length-append now.parts.just_entries
                (record { hash = hash; axiom_indices = (place_axioms axioms ex).0 } ∷ []),
          ))
          (push_entry-InRange hash (place_axioms axioms ex).0 j now
            (omega (arith, placed.0.same_entries)) placed.1 placed.0.in_range)

module _ (with_explanations : Bool) (justifications : Justifications) where
  explain_axioms-InRange :
      (axioms : List Triple) (triple : ℕ) (ex : Explained)
      → InRange ex
      → InRange (explain_axioms axioms triple ex)
  explain_axioms-InRange [] triple ex h = h
  explain_axioms-InRange (t ∷ ts) triple ex h = explain-InRange _ (t ∷ ts) triple ex h

  explain_text-InRange :
      (o : Option Text) (triple : ℕ) (r : Report)
      → InRange r.explained
      → InRange (explain_text o triple r).explained
  explain_text-InRange none triple r h = h
  explain_text-InRange (some text) triple r h = explain_axioms-InRange _ triple r.explained h

  explain_type-InRange :
      (triple : ℕ) (indi class : Text) (r : Report)
      → InRange r.explained
      → InRange (explain_type with_explanations justifications triple indi class r).explained
  explain_type-InRange triple indi class r h =
      if_keeps (λ (r' : Report). InRange r'.explained) with_explanations
        (λ q.
          explain_text-InRange (lookup (work_key indi rdf_type_iri class) justifications) triple r
            h)
        h

  emit_type-InRange :
      (type_id : ℕ) (indi class : Text) (r : Report)
      → InRange r.explained
      → InRange (emit_type with_explanations justifications type_id indi class r).explained
  unfolding emit_type
  emit_type-InRange type_id indi class r h =
      let subject = intern indi 0 r.output.table in
      let object = intern class 0 subject.1 in
      let emitted = emit_triple (subject.0, (type_id, object.0)) r.output.emitted in
      explain_type-InRange emitted.0 indi class
        (record r { output = record { table = object.1; emitted = emitted.1 } }) h

  emit_types-InRange :
      (f : Text × Text → ℕ → Report → Report) (pairs : List (Text × Text)) (r : Report)
      → ((x : Text × Text) (type_id : ℕ) (m : Report)
          → InRange m.explained
          → InRange (f x type_id m).explained)
      → InRange r.explained
      → InRange (emit_types with_explanations justifications f pairs r).explained
  emit_types-InRange f pairs r keep h =
      unless_keeps (λ (r' : Report). InRange r'.explained) (length pairs == 0) h
        (for_each-keeps (λ (r' : Report). InRange r'.explained) (λ x. f x _) pairs
          (λ x p m held. keep x _ m held) _ h)

  -- The types for owl:oneOf, owl:intersectionOf and owl:hasSelf keep the indices of the explanations
  -- in range: every mapping names an entry, and every entry names axioms that are there.
  pub emit_memberships-InRange :
      (d : Derived) (b : Batch) (r : Report)
      → InRange r.explained
      → InRange (emit_memberships with_explanations justifications d b r).explained
  unfolding emit_memberships
  emit_memberships-InRange d b r h =
      let as_instance = λ (x : Text × Text) (type_id : ℕ) (m : Report) (held : InRange m.explained).
        emit_type-InRange type_id x.0 x.1 m held in
      emit_types-InRange (emit_instance with_explanations justifications) d.self_types _ as_instance
        (emit_types-InRange (emit_instance with_explanations justifications) d.intersection_types _
          as_instance
          (emit_types-InRange (emit_member with_explanations justifications) b.one_of_memberships r
            (λ x type_id m held. emit_type-InRange type_id x.1 x.0 m held) h))
