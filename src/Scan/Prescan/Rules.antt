-- ===== src/Scan/Prescan/Rules.antt =====
-- What the pre-scan may conclude: its rules, each on the triples that it needs.
pub mod Indices
pub mod Domains
pub mod Values
pub mod Restrictions
pub mod Intersections
use rdf_reasoner_konclude.Base.{
  ℕ, ◌≡◌, zero, suc, List, [], ◌∷◌, ◌++◌, Bool, true, false, not, ◌&&◌, ◌||◌, if◌then◌else◌, Option,
  none, some, nat_eq, list_eq, pair_eq, ◌==◌, length,
}
use rdf_reasoner_konclude.Base.Dicts.{lookup, assign}
use rdf_reasoner_konclude.Base.Sets.{insert, contains}
use rdf_reasoner_konclude.Base.Loops.{for_each, when_some}
use rdf_reasoner_konclude.Base.Entries.{push_value}
use mathlib.Core.List.{Memᴰ}
use mathlib.Core.Path.{refl}
use mathlib.Core.Logic.{◌⊎◌, inl, inr}
use rdf_reasoner_konclude.Wire.Table.{Text}
use rdf_reasoner_konclude.Wire.Intern.{id_index, id_tag}
use rdf_reasoner_konclude.Wire.Emit.{Triple}
use rdf_reasoner_konclude.Scan.Terms.{bytes, find_term, text_at, is_named, is_term}
use rdf_reasoner_konclude.Scan.Lines.{
  nt_line, work_key, put_first, rdf_type_iri, domain_iri, range_iri, has_value_iri, inverse_of_iri,
}
use rdf_reasoner_konclude.Scan.Prescan.{
  is_present, PreVocabulary, Derived, justify, Index, inverse_map, triples_by_subject,
}
use rdf_reasoner_konclude.Scan.Prescan.Restrictions.{add_self}
use rdf_reasoner_konclude.Scan.Prescan.Intersections.{add_intersection_type}
use rdf_reasoner_konclude.Scan.Prescan.Intersections.{walk_list, walk_rounds}

module _ (ts : List Triple) where
  -- A triple relates x to y by the predicate, up to their kinds of term.
  pub record Says (kind : Option ℕ) (x y : ℕ) : Type 0 where
    pub subject : ℕ
    pub predicate : ℕ
    pub object : ℕ
    pub is_triple : Memᴰ (subject, (predicate, object)) ts
    pub is_kind : is_term kind predicate ≡ true
    pub subject_index : id_index subject ≡ x
    pub object_index : id_index object ≡ y

  pub said :
      (kind : Option ℕ) (s p o : ℕ)
      → Memᴰ (s, (p, o)) ts
      → is_term kind p ≡ true
      → Says kind (id_index s) (id_index o)
  said kind s p o mem q = record {
    subject = s;
    predicate = p;
    object = o;
    is_triple = mem;
    is_kind = q;
    subject_index = refl;
    object_index = refl;
  }

module _ (v : PreVocabulary) (ts : List Triple) where
  abbrev pub Inverse : ℕ → ℕ → Type 0
  Inverse a b = Says ts v.inverse_of a b ⊎ Says ts v.inverse_of b a

  -- A node of a restriction or list that the class is equivalent to or below.
  abbrev pub Restricted : ℕ → ℕ → Type 0
  Restricted class node = Says ts v.equivalent_class class node ⊎ Says ts v.sub_class_of class node

  -- An individual is typed as all members of a list.
  abbrev pub TypedAll : ℕ → List ℕ → Type 0
  TypedAll i members = (m : ℕ) → contains members m ≡ true → Says ts v.rdf_type i m

  -- The rules, as what they conclude of an individual and a class.
  pub data Implied : ℕ → ℕ → Type 0 where
    by_domain :
        (s p o class : ℕ)
        → Memᴰ (s, (p, o)) ts
        → is_named s ≡ true
        → Says ts v.domain (id_index p) class
        → Implied (id_index s) class
    by_range :
        (s p o class : ℕ)
        → Memᴰ (s, (p, o)) ts
        → is_named o ≡ true
        → Says ts v.range (id_index p) class
        → Implied (id_index o) class
    by_value :
        (s p o class node : ℕ)
        → Memᴰ (s, (p, o)) ts
        → is_named s ≡ true
        → Restricted class node
        → Says ts v.on_property node (id_index p)
        → Says ts v.has_value node (id_index o)
        → Implied (id_index s) class
    by_value_inverse :
        (s p o class node prop : ℕ)
        → Memᴰ (s, (p, o)) ts
        → is_named o ≡ true
        → Restricted class node
        → Says ts v.on_property node prop
        → Inverse prop (id_index p)
        → Says ts v.has_value node (id_index s)
        → Implied (id_index o) class
    by_self :
        (s p class node mark : ℕ)
        → Memᴰ (s, (p, s)) ts
        → is_named s ≡ true
        → Restricted class node
        → Says ts v.on_property node (id_index p)
        → Says ts v.has_self node mark
        → Implied (id_index s) class
    by_all :
        (s p o class node filler : ℕ)
        → Memᴰ (s, (p, o)) ts
        → is_named o ≡ true
        → Restricted class node
        → Says ts v.on_property node (id_index p)
        → Says ts v.all_values_from node filler
        → Says ts v.rdf_type s class
        → Implied (id_index o) filler
    by_some :
        (s p o class node filler : ℕ)
        → Memᴰ (s, (p, o)) ts
        → is_named s ≡ true
        → Restricted class node
        → Says ts v.on_property node (id_index p)
        → Says ts v.some_values_from node filler
        → Says ts v.rdf_type (id_index o) filler
        → Implied (id_index s) class
    by_some_inverse :
        (s p o class node prop filler : ℕ)
        → Memᴰ (s, (p, o)) ts
        → is_named o ≡ true
        → Restricted class node
        → Says ts v.on_property node prop
        → Inverse prop (id_index p)
        → Says ts v.some_values_from node filler
        → Says ts v.rdf_type (id_index s) filler
        → Implied (id_index o) class
    by_intersection :
        (s c p head : ℕ)
        → is_named s ≡ true
        → Memᴰ (c, (p, head)) ts
        → is_term v.intersection_of p ≡ true
        → TypedAll (id_index s) (walk_list v (triples_by_subject ts) walk_rounds head)
        → Implied (id_index s) (id_index c)

  -- What every change that the rules allow keeps.
  pub record KeptByRules {ℓ} (terms : List Text) (I : Derived → Type ℓ) : Type ℓ where
    pub by_justify :
        (i class : ℕ) (just : Text) (d : Derived)
        → Implied i class
        → I d
        → I (justify (text_at terms i) (text_at terms class) just d)
    pub by_add_self :
        (i class : ℕ) (just : Text) (d : Derived)
        → Implied i class
        → I d
        → I (add_self (text_at terms i) (text_at terms class) just d)
    pub by_add_intersection :
        (i class : ℕ) (just : Text) (d : Derived)
        → Implied i class
        → I d
        → I (add_intersection_type terms i class just d)
