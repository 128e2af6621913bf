-- ===== src/Scan/Prescan/Rules/Intersections.antt =====
-- Intersections, and the rules.
use rdf_reasoner_konclude.Base.{
  ℕ, ◌≡◌, List, [], true, ◌&&◌, Option, none, some, nat_eq, list_eq, pair_eq, ◌==◌, length,
}
use rdf_reasoner_konclude.Base.Dicts.{lookup}
use rdf_reasoner_konclude.Base.Sets.{insert, contains}
use rdf_reasoner_konclude.Base.Sets.{
  Distinct, insert-Distinct, contains-insert, contains_of_Mem, missing_zero_of_length,
  missing_zero_of_contains, contains_of_missing_zero,
}
use mathlib.Core.List.{Memᴰ}
use mathlib.Core.List.Memᴰ
use mathlib.Core.Logic.{inl, inr}
use mathlib.Core.Path.{refl, sym, subst}
use native.Mathlib.Omega.{arith}
use rdf_reasoner_konclude.Base.{Bool-cases, nat_beq_iff}
use rdf_reasoner_konclude.Base.Loops.{for_each-keeps, if_keeps, unless_keeps}
use rdf_reasoner_konclude.Base.Sets.{
  Distinct, insert-Distinct, contains-insert, contains_of_Mem, missing_zero_of_length,
  missing_zero_of_contains, contains_of_missing_zero,
}
use rdf_reasoner_konclude.Base.Entries.{Entries, Mem-lookup, assign-Entries}
use rdf_reasoner_konclude.Wire.Table.{Text}
use rdf_reasoner_konclude.Wire.Intern.{id_index}
use rdf_reasoner_konclude.Wire.Emit.{Triple}
use rdf_reasoner_konclude.Scan.Terms.{is_named, is_term}
use rdf_reasoner_konclude.Scan.Prescan.{is_present, PreVocabulary, Derived, triples_by_subject}
use rdf_reasoner_konclude.Scan.Prescan.Rules.{
  Says, said, TypedAll, Implied, KeptByRules, by_intersection,
}
use rdf_reasoner_konclude.Scan.Prescan.Intersections.{
  add_intersection, intersection_lists, walk_list, walk_rounds, add_member, add_if_member,
  add_typing, typed_members, scan_individual, scan_intersection, scan_intersections,
}

module _ (v : PreVocabulary) (ts : List Triple) (members : List ℕ) where
  -- The members that an individual is typed with, as a set.
  record TypedIn (i : ℕ) (ms : List ℕ) : Type 0 where
    pub says : (m : ℕ) → contains ms m ≡ true → Says ts v.rdf_type i m
    pub inside : (m : ℕ) → contains ms m ≡ true → contains members m ≡ true
    pub distinct : Distinct ms
    pub individual : (s : ℕ) × ((is_named s ≡ true) × (id_index s ≡ i))

  old_members : Option (List ℕ) → List ℕ
  old_members none = []
  old_members (some ms) = ms

  insert-TypedIn :
      (s m : ℕ) (ms : List ℕ)
      → is_named s ≡ true
      → Says ts v.rdf_type (id_index s) m
      → contains members m ≡ true
      → ((a : ℕ) → contains ms a ≡ true → Says ts v.rdf_type (id_index s) a)
      → ((a : ℕ) → contains ms a ≡ true → contains members a ≡ true)
      → Distinct ms
      → TypedIn (id_index s) (insert m ms)
  insert-TypedIn s m ms named new known says inside distinct = record {
    says = λ a q. elim (Bool-cases (m == a)) [
      | inl e ↦ subst (Says ts v.rdf_type (id_index s)) ((nat_beq_iff m a).0 e) new
      | inr e ↦ says a (ground (arith, q, e, contains-insert m ms a))
    ];
    inside = λ a q. elim (Bool-cases (m == a)) [
      | inl e ↦ subst (λ b. contains members b ≡ true) ((nat_beq_iff m a).0 e) known
      | inr e ↦ inside a (ground (arith, q, e, contains-insert m ms a))
    ];
    distinct = insert-Distinct m ms distinct;
    individual = (s, (named, refl));
  }

  add_member-Entries :
      (s m : ℕ) (types : List (ℕ × List ℕ))
      → is_named s ≡ true
      → Says ts v.rdf_type (id_index s) m
      → contains members m ≡ true
      → Entries TypedIn types
      → Entries TypedIn (add_member (id_index s) m types)
  add_member-Entries s m types named new known h =
      assign-Entries TypedIn (id_index s) _ types (with_old (lookup (id_index s) types) refl) h
    where
      with_old :
          (o : Option (List ℕ))
          → lookup (id_index s) types ≡ o
          → TypedIn (id_index s) (insert m (elim o [ none ↦ [] | some ms ↦ ms ]))
      with_old none q =
          insert-TypedIn s m [] named new known (λ a r. absurd (cc)) (λ a r. absurd (cc)) tt
      with_old (some ms) q =
          let old = h (id_index s) ms (Mem-lookup (id_index s) ms types q) in
          insert-TypedIn s m ms named new known old.says old.inside old.distinct

  typed_members-Entries : Entries TypedIn (typed_members v ts members)
  unfolding typed_members
  typed_members-Entries =
      for_each-keeps (Entries TypedIn) (add_typing v members) ts
        (λ x mem types h.
          if_keeps (Entries TypedIn) (is_term v.rdf_type x.1.0 && is_named x.0)
            (λ q.
              for_each-keeps (Entries TypedIn) (add_if_member x.0 (id_index x.1.1)) members
                (λ m inside types held.
                  if_keeps (Entries TypedIn) (id_index x.1.1 == m)
                    (λ e.
                      add_member-Entries x.0 m types (ground (arith, q))
                        (subst (Says ts v.rdf_type (id_index x.0))
                          ((nat_beq_iff (id_index x.1.1) m).0 e)
                          (said ts v.rdf_type x.0 x.1.0 x.1.1 mem (ground (arith, q))))
                        (contains_of_Mem m members inside) held)
                    held)
                types h)
            h)
        [] (λ k w p. absurd (Memᴰ.not-nil p))

  -- An individual with as many of the members as there are has all of them.
  typed_all :
      (i : ℕ) (ms : List ℕ) → TypedIn i ms → length ms ≡ length members → TypedAll v ts i members
  typed_all i ms t l m q = t.says m (
      contains_of_missing_zero members ms m
        (missing_zero_of_length members ms t.distinct (missing_zero_of_contains ms members t.inside)
          l)
        q)

module _ {ℓ} (terms : List Text) (v : PreVocabulary) (ts : List Triple) (I : Derived → Type ℓ)
    (rules : KeptByRules v ts terms I) where
  -- The list of a class, as some triple gives it.
  abbrev ListOf : ℕ → ℕ → Type 0
  ListOf class head =
      (c : ℕ) × ((p : ℕ) × (Memᴰ (c, (p, head)) ts
          × ((is_term v.intersection_of p ≡ true) × (id_index c ≡ class))))

  intersection_lists-Entries : Entries ListOf (intersection_lists v ts)
  unfolding intersection_lists
  intersection_lists-Entries =
      for_each-keeps (Entries ListOf) (add_intersection v) ts
        (λ x mem m h.
          if_keeps (Entries ListOf) (is_term v.intersection_of x.1.0)
            (λ q. assign-Entries ListOf (id_index x.0) x.1.1 m (x.0, (x.1.0, (mem, (q, refl)))) h)
            h)
        [] (λ k w p. absurd (Memᴰ.not-nil p))

  scan_individual-keeps :
      (class head : ℕ)
      → ListOf class head
      → (x : ℕ × List ℕ)
      → Memᴰ x (typed_members v ts (walk_list v (triples_by_subject ts) walk_rounds head))
      → (d : Derived) → I d
      → I (scan_individual terms class (walk_list v (triples_by_subject ts) walk_rounds head) x d)
  scan_individual-keeps class head (c, (p, (mem, (is_list, same)))) (i, typed) entry d h =
      let members = walk_list v (triples_by_subject ts) walk_rounds head in
      let t = typed_members-Entries v ts members i typed entry in
      if_keeps I (length typed == length members)
        (λ q.
          rules.by_add_intersection i class _ d
            (subst (λ a. Implied v ts a class) t.individual.1.1
              (subst (Implied v ts (id_index t.individual.0)) same (
                by_intersection t.individual.0 c p head t.individual.1.0 mem is_list (
                  subst (λ a. TypedAll v ts a members) (sym t.individual.1.1)
                    (typed_all v ts members i typed t
                      ((nat_beq_iff (length typed) (length members)).0 q))))))
            h)
        h

  pub scan_intersections-keep : (d : Derived) → I d → I (scan_intersections terms v ts d)
  unfolding scan_intersections
  scan_intersections-keep d h =
      if_keeps I (is_present v.intersection_of && is_present v.rdf_type)
        (λ q.
          for_each-keeps I (scan_intersection terms v ts) (intersection_lists v ts)
            (λ x mem e held.
              let members = walk_list v (triples_by_subject ts) walk_rounds x.1 in
              unless_keeps I (length members == 0) held (
                for_each-keeps I (scan_individual terms x.0 members) (typed_members v ts members)
                  (scan_individual-keeps x.0 x.1 (intersection_lists-Entries x.0 x.1 mem)) e held))
            d h)
        h
