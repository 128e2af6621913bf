-- ===== src/Scan/Prescan/Backed.antt =====
-- What it means that the rules imply whatever is new, and the changes that keep it.
use rdf_reasoner_konclude.Base.{
  ℕ, ◌≡◌, List, [], ◌∷◌, ◌++◌, Option, none, some, nat_eq, list_eq, pair_eq,
}
use rdf_reasoner_konclude.Base.Dicts.{lookup, assign}
use mathlib.Core.List.{Memᴰ}
use mathlib.Core.List.Memᴰ
use mathlib.Core.Logic.{◌⊎◌, inl, inr}
use mathlib.Core.Path.{refl, sym, ap}
use rdf_reasoner_konclude.Base.Entries.{Entries, assign-Entries}
use rdf_reasoner_konclude.Wire.Table.{Text}
use rdf_reasoner_konclude.Wire.Emit.{Triple}
use rdf_reasoner_konclude.Scan.Terms.{text_at}
use rdf_reasoner_konclude.Scan.Lines.{work_key, rdf_type_iri}
use rdf_reasoner_konclude.Scan.Prescan.{Derived, justify}
use rdf_reasoner_konclude.Scan.Prescan.Rules.{Implied}
use rdf_reasoner_konclude.Scan.Prescan.{pre_vocabulary}
use rdf_reasoner_konclude.Scan.Prescan.Restrictions.{add_self}
use rdf_reasoner_konclude.Scan.Prescan.Intersections.{add_intersection_type}

module _ (terms : List Text) (ts : List Triple) where
  -- A type that the rules conclude, by the strings of the individual and the class.
  abbrev pub ImpliedType : Text → Text → Type 0
  ImpliedType indi class =
      (i : ℕ) × ((c : ℕ) × (Implied (pre_vocabulary terms) ts i c
          × ((text_at terms i ≡ indi) × (text_at terms c ≡ class))))

  -- The key of such a type.
  abbrev pub ImpliedKey : Text → Type 0
  ImpliedKey key =
      (indi : Text) × ((class : Text) × (ImpliedType indi class
          × (key ≡ work_key indi rdf_type_iri class)))

  module _ (before : Derived) where
    -- What is new since the state before is implied.
    pub record Backed (d : Derived) : Type 0 where
      pub justified :
          (key just : Text)
          → Memᴰ (key, just) d.justifications
          → Memᴰ (key, just) before.justifications ⊎ ImpliedKey key
      pub self_typed :
          (indi class : Text)
          → Memᴰ (indi, class) d.self_types
          → Memᴰ (indi, class) before.self_types ⊎ ImpliedType indi class
      pub intersection_typed :
          (indi class : Text)
          → Memᴰ (indi, class) d.intersection_types
          → Memᴰ (indi, class) before.intersection_types ⊎ ImpliedType indi class

    assign-Backed :
        (i c : ℕ) (just : Text) (d : Derived)
        → Implied (pre_vocabulary terms) ts i c
        → Backed d
        → (key just' : Text)
        → Memᴰ
            (key, just')
            (assign
              (work_key (text_at terms i) rdf_type_iri (text_at terms c))
              just
              d.justifications)
        → Memᴰ (key, just') before.justifications ⊎ ImpliedKey key
    assign-Backed i c just d implied h =
        assign-Entries (λ key j. Memᴰ (key, j) before.justifications ⊎ ImpliedKey key)
          (work_key (text_at terms i) rdf_type_iri (text_at terms c)) just d.justifications
          (inr (text_at terms i, (text_at terms c, ((i, (c, (implied, (refl, refl)))), refl))))
          h.justified

    append-Backed :
        (i c : ℕ) (old pairs : List (Text × Text))
        → Implied (pre_vocabulary terms) ts i c
        → ((indi class : Text)
            → Memᴰ (indi, class) pairs
            → Memᴰ (indi, class) old ⊎ ImpliedType indi class)
        → (indi class : Text)
        → Memᴰ (indi, class) (pairs ++ ((text_at terms i, text_at terms c) ∷ []))
        → Memᴰ (indi, class) old ⊎ ImpliedType indi class
    append-Backed i c old pairs implied h indi class p = elim (Memᴰ.append_cases pairs p) [
      | inl q ↦ h indi class q
      | inr q ↦
          let same = Memᴰ.eq_of_singleton q in
          inr (
            i,
            (
              c,
              (
                implied,
                (
                  sym (ap (λ (x : Text × Text). x.0) same),
                  sym (ap (λ (x : Text × Text). x.1) same),
                ),
              ),
            ),
          )
    ]

    pub put_first-Backed :
        (i c : ℕ) (just : Text) (d : Derived)
        → Implied (pre_vocabulary terms) ts i c
        → Backed d
        → Backed (justify (text_at terms i) (text_at terms c) just d)
    put_first-Backed i c just d implied h = record {
      justified =
          kept
            (lookup (work_key (text_at terms i) rdf_type_iri (text_at terms c)) d.justifications);
      self_typed = h.self_typed;
      intersection_typed = h.intersection_typed;
    }
      where
        kept :
            (o : Option Text)
            → Entries
                (λ key j. Memᴰ (key, j) before.justifications ⊎ ImpliedKey key)
                (elim o [
                  | none ↦
                      assign
                        (work_key (text_at terms i) rdf_type_iri (text_at terms c))
                        just
                        d.justifications
                  | some old ↦ d.justifications
                ])
        kept none = assign-Backed i c just d implied h
        kept (some old) = h.justified

    pub add_self-Backed :
        (i c : ℕ) (just : Text) (d : Derived)
        → Implied (pre_vocabulary terms) ts i c
        → Backed d
        → Backed (add_self (text_at terms i) (text_at terms c) just d)
    add_self-Backed i c just d implied h =
        kept (lookup (work_key (text_at terms i) rdf_type_iri (text_at terms c)) d.justifications)
      where
        kept :
            (o : Option Text)
            → Backed (elim o [
              | some old ↦ d
              | none ↦ record d {
                justifications =
                    assign
                      (work_key (text_at terms i) rdf_type_iri (text_at terms c))
                      just
                      d.justifications;
                self_types = d.self_types ++ ((text_at terms i, text_at terms c) ∷ []);
              }
            ])
        kept (some old) = h
        kept none = record {
          justified = assign-Backed i c just d implied h;
          self_typed = append-Backed i c before.self_types d.self_types implied h.self_typed;
          intersection_typed = h.intersection_typed;
        }

    pub add_intersection_type-Backed :
        (i c : ℕ) (just : Text) (d : Derived)
        → Implied (pre_vocabulary terms) ts i c
        → Backed d
        → Backed (add_intersection_type terms i c just d)
    add_intersection_type-Backed i c just d implied h =
        kept (lookup (work_key (text_at terms i) rdf_type_iri (text_at terms c)) d.justifications)
      where
        kept :
            (o : Option Text)
            → Backed (elim o [
              | some old ↦ d
              | none ↦ record d {
                justifications =
                    assign
                      (work_key (text_at terms i) rdf_type_iri (text_at terms c))
                      just
                      d.justifications;
                intersection_types =
                    d.intersection_types ++ ((text_at terms i, text_at terms c) ∷ []);
              }
            ])
        kept (some old) = h
        kept none = record {
          justified = assign-Backed i c just d implied h;
          self_typed = h.self_typed;
          intersection_typed =
              append-Backed i c before.intersection_types d.intersection_types implied
                h.intersection_typed;
        }
