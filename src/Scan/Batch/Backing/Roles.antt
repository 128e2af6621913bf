-- ===== src/Scan/Batch/Backing/Roles.antt =====
-- The role assertions, and their reasons.
use rdf_reasoner_konclude.Base.{ℕ, ◌≡◌, List, [], ◌∷◌, nat_eq, list_eq, map}
use native.Mathlib.Omega.{arith}
use mathlib.Core.Path.{refl, sym, subst}
use mathlib.Core.Logic.{inl, inr}
use mathlib.Core.List.{Memᴰ}
use mathlib.Core.List.Memᴰ
use rdf_reasoner_konclude.Base.Loops.{for_each-keeps, if_keeps}
use rdf_reasoner_konclude.Base.Entries.{Groups, push_value-Groups}
use rdf_reasoner_konclude.Wire.Table.{Text}
use rdf_reasoner_konclude.Wire.Intern.{id_index}
use rdf_reasoner_konclude.Wire.Emit.{Triple}
use rdf_reasoner_konclude.Scan.Terms.{text_at, is_named}
use rdf_reasoner_konclude.Scan.Batch.{
  BatchVocabulary, property_indices, is_role, add_role, role_assertions, role_key,
}
use rdf_reasoner_konclude.Scan.Batch.SomeValues.{entry_properties}
use rdf_reasoner_konclude.Scan.Batch.Roles.Properties.{property_indices-Mem}
use rdf_reasoner_konclude.Scan.Batch.Backing.{RoleBy}

pub Mem-map {ℓ κ} :
    {A : Type ℓ} {B : Type κ} {f : A → B} (xs : List A) {b : B}
    → Memᴰ b (map f xs)
    → (a : A) × (Memᴰ a xs × (f a ≡ b))
Mem-map [] p = absurd (Memᴰ.not-nil p)
Mem-map (x ∷ xs) p = elim (Memᴰ.cases_cons p) [
  | inl q ↦ (x, (Memᴰ.head refl, sym q))
  | inr later ↦ let (a, (m, e)) = Mem-map xs later in (a, (Memᴰ.tail m, e))
]

-- A property of the entries is that of an entry of a class.
pub entry_properties-Groups {ℓ} :
    (terms : List Text) (R : Text → Text × Text → Type ℓ) (index : List (Text × List (Text × Text)))
    → Groups R index
    → (prop : Text) → Memᴰ prop (entry_properties terms index)
    → (class : Text) × ((filler : Text) × R class (prop, filler))
unfolding entry_properties
entry_properties-Groups terms R [] h prop p = absurd (Memᴰ.not-nil p)
entry_properties-Groups terms R ((class, es) ∷ index) h prop p =
    elim (Memᴰ.append_cases (map (λ (e : Text × Text). e.0) es) p) [
      | inl here ↦
          let (e, (m, q)) = Mem-map es here in
          (class, (e.1, subst (λ y. R class (y, e.1)) q (h class es e (Memᴰ.head refl) m)))
      | inr later ↦
          entry_properties-Groups terms R index (λ c vs w m. h c vs w (Memᴰ.tail m)) prop later
    ]

module _ (terms : List Text) (chars : ℕ → Text) (v : BatchVocabulary) (ts : List Triple)
    (Asked : Text → Type 0) where
  -- The assertions of properties that are all asked for.
  pub role_assertions-Groups :
      (iris : List Text)
      → ((iri : Text) → Memᴰ iri iris → Asked iri)
      → (m : List (Text × List Text)) → Groups (RoleBy terms chars v ts Asked) m
      → Groups
          (RoleBy terms chars v ts Asked)
          (role_assertions terms (property_indices terms iris) ts m)
  unfolding role_assertions role_key is_named
  role_assertions-Groups iris asked =
      let R = RoleBy terms chars v ts Asked in
      let props = property_indices terms iris in
      for_each-keeps (Groups R) (add_role terms props) ts (λ x mem m h.
        if_keeps (Groups R) (is_role terms props x)
          (λ q.
            push_value-Groups R (role_key (text_at terms (id_index x.0)) (text_at terms x.1.0))
              (text_at terms (id_index x.1.1)) m
              record {
                subject = x.0;
                predicate = x.1.0;
                object = x.1.1;
                is_triple = mem;
                named_subject = ground (arith, q);
                named_object = ground (arith, q);
                is_asked =
                    asked (text_at terms x.1.0)
                      (property_indices-Mem terms iris x.1.0 (ground (arith, q))).1;
                is_key = refl;
                is_value = refl;
              }
              h)
          h)
