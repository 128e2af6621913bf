-- ===== src/Scan/Batch/Roles.antt =====
-- Which role assertions are kept under a key.
pub mod Properties
use rdf_reasoner_konclude.Base.{
  ℕ, ◌≡◌, List, [], ◌∷◌, ◌++◌, Bool, true, false, ◌&&◌, if◌then◌else◌, nat_eq, list_eq, pair_eq,
  ◌==◌, length, ltb, All, arith, list_beq_iff, zero, suc,
}
use mathlib.Core.Path.{refl, sym, ap, ◌∙◌}
use mathlib.Core.Logic.{inl, inr}
use mathlib.Core.List.{append-nil, append_assoc}
use rdf_reasoner_konclude.Base.Sets.{contains, Distinct}
use rdf_reasoner_konclude.Base.Entries.{values_of, values_of-push_value}
use rdf_reasoner_konclude.Base.{Bool-cases}
use rdf_reasoner_konclude.Wire.Table.{Text}
use rdf_reasoner_konclude.Wire.Intern.{id_index, id_tag}
use rdf_reasoner_konclude.Wire.Emit.{Triple}
use rdf_reasoner_konclude.Scan.Terms.{text_at, is_named}
use rdf_reasoner_konclude.Scan.Batch.{
  role_key, is_role, add_role, role_assertions, property_indices,
}
use rdf_reasoner_konclude.Scan.Batch.Roles.Properties.{property_indices-eq}

-- A string without a zero byte, as an IRI is.
abbrev pub IsPlain : Text → Type 0
IsPlain s = contains s 0 ≡ false

-- A zero byte separates plain strings.
zero-separates :
    (s t p q : Text)
    → IsPlain s
    → IsPlain t
    → (s ++ (0 ∷ p) == t ++ (0 ∷ q)) ≡ ((s == t) && (p == q))
zero-separates [] [] p q hs ht = refl
zero-separates [] (b ∷ t) p q hs ht = ground (arith, ht)
zero-separates (a ∷ s) [] p q hs ht = ground (arith, hs)
zero-separates (a ∷ s) (b ∷ t) p q hs ht =
    ground (arith, zero-separates s t p q (ground (arith, hs)) (ground (arith, ht)))

module _ (terms : List Text) where
  -- A triple that says `subject property …` of two named nodes of the table, by the strings.
  abbrev pub says : Text → Text → Triple → Bool
  says subject property (s, (p, o)) =
      (id_tag s == 0)
      && (id_tag o == 0)
      && ltb (id_index s) (length terms)
      && ltb p (length terms)
      && ltb (id_index o) (length terms)
      && (text_at terms (id_index s) == subject)
      && (text_at terms p == property)

  -- The objects of the triples that say so, in the order of the triples.
  unfoldable pub objects_of : Text → Text → List Triple → List Text
  objects_of subject property [] = []
  objects_of subject property (x ∷ ts) =
      if says subject property x
      then text_at terms (id_index x.1.1) ∷ objects_of subject property ts
      else objects_of subject property ts

  module _ (iris : List Text) (distinct : Distinct terms)
      (plain : (i : ℕ) → IsPlain (text_at terms i)) (subject property : Text)
      (is_plain : IsPlain subject) where
    abbrev key : Text
    key = subject ++ (0 ∷ property)

    abbrev key_of : Triple → Text
    key_of (s, (p, o)) = text_at terms (id_index s) ++ (0 ∷ text_at terms p)

    -- The code collects a triple under the key exactly when it says so and the property is asked for.
    is_role-says :
        (x : Triple)
        → (is_role terms (property_indices terms iris) x && (key_of x == key))
          ≡ (contains iris property && says subject property x)
    unfolding is_named
    is_role-says (s, (p, o)) = rw (property_indices-eq terms iris p distinct) (
        rw
          (zero-separates (text_at terms (id_index s)) subject (text_at terms p) property
            (plain (id_index s)) is_plain)
          by_property)
      where
        by_property :
            (((id_tag s == 0)
                && (id_tag o == 0)
                && (ltb p (length terms) && contains iris (text_at terms p))
                && ltb (id_index s) (length terms)
                && ltb (id_index o) (length terms))
              && ((text_at terms (id_index s) == subject) && (text_at terms p == property)))
            ≡ (contains iris property && says subject property (s, (p, o)))
        by_property = elim (Bool-cases (text_at terms p == property)) [
          | inl q ↦
              let same : contains iris (text_at terms p) ≡ contains iris property =
                ap (contains iris) ((list_beq_iff (text_at terms p) property).0 q) in
              rw (same, q) (ground arith)
          | inr q ↦ rw q (ground arith)
        ]

    -- Of a table without repetitions and zero bytes, and for a subject without one: under the key of a
    -- subject and a property, the collection adds the objects of just the triples between named nodes
    -- of the table that relate the subject by the property, in their order, if the property is asked
    -- for, and nothing otherwise.
    pub role_assertions-objects :
        (ts : List Triple) (m : List (Text × List Text))
        → values_of
            (subject ++ (0 ∷ property))
            (role_assertions terms (property_indices terms iris) ts m)
          ≡ values_of (subject ++ (0 ∷ property)) m
            ++ (if contains iris property then objects_of subject property ts else [])
    unfolding role_assertions objects_of role_key
    role_assertions-objects [] m = elim (Bool-cases (contains iris property)) [
      | inl q ↦ rw q (sym (append-nil (values_of key m)))
      | inr q ↦ rw q (sym (append-nil (values_of key m)))
    ]
    role_assertions-objects (x ∷ ts) m =
        role_assertions-objects ts (add_role terms props x m) ∙ first
      where
        props : List ℕ
        props = property_indices terms iris

        value : Text
        value = text_at terms (id_index x.1.1)

        pushed : values_of key (add_role terms props x m) ≡ (
            if is_role terms props x && (key_of x == key)
            then values_of key m ++ (value ∷ [])
            else values_of key m)
        pushed = elim (Bool-cases (is_role terms props x)) [
          | inr q ↦ rw q refl
          | inl q ↦ rw q (rw (values_of-push_value (key_of x) key value m) refl)
        ]

        first :
            values_of key (add_role terms props x m)
              ++ (if contains iris property then objects_of subject property ts else [])
            ≡ values_of key m
              ++ (if contains iris property
                  then (if says subject property x
                      then value ∷ objects_of subject property ts
                      else objects_of subject property ts)
                  else [])
        first = rw (pushed) (
            rw (is_role-says x) (elim (Bool-cases (contains iris property)) [
              | inr q ↦ rw q refl
              | inl q ↦ elim (Bool-cases (says subject property x)) [
                | inr r ↦ rw (q, r) refl
                | inl r ↦
                    rw (q, r)
                      (append_assoc (values_of key m) (value ∷ []) (objects_of subject property ts))
              ]
            ]))
