-- ===== src/Scan/Prescan/Walk.antt =====
-- What the walk along the list of an intersection finds.
use rdf_reasoner_konclude.Base.{
  ℕ, ◌≡◌, ◌≢◌, zero, suc, List, [], ◌∷◌, true, false, if◌then◌else◌, Option, none, some, nat_eq,
  list_eq, pair_eq, arith, take, Bool-cases, nat_beq_iff, some_injective,
}
use rdf_reasoner_konclude.Base.Dicts.{lookup}
use rdf_reasoner_konclude.Base.Loops.{for_each-keeps, for_each-reaches}
use rdf_reasoner_konclude.Base.Entries.{
  Groups, push_value-Groups, values_of, values_of-push_value, Mem-lookup, stored,
}
use mathlib.Core.Path.{refl, sym, ap, subst, ◌∙◌}
use mathlib.Core.Logic.{◌⊎◌, inl, inr}
use mathlib.Core.List.{Memᴰ}
use mathlib.Core.List.Memᴰ
use rdf_reasoner_konclude.Wire.Intern.{id_index}
use rdf_reasoner_konclude.Wire.Emit.{Triple}
use rdf_reasoner_konclude.Scan.Terms.{is_term}
use rdf_reasoner_konclude.Scan.Prescan.{PreVocabulary, Index, triples_by_subject, add_to_index}
use rdf_reasoner_konclude.Scan.Prescan.Intersections.{
  walk_list, walk_rounds, first_value, next_value,
}

is_term-eq : (kind : Option ℕ) (p : ℕ) → is_term kind p ≡ true → kind ≡ some p
unfolding is_term
is_term-eq none p h = absurd (cc)
is_term-eq (some i) p h = ap some (sym ((nat_beq_iff p i).0 h))

is_term_of_eq : (kind : Option ℕ) (p : ℕ) → kind ≡ some p → is_term kind p ≡ true
unfolding is_term
is_term_of_eq none p h = absurd (cc)
is_term_of_eq (some i) p h = (nat_beq_iff p i).1 (sym (some_injective h))

-- A search that keeps the last value of a kind, like `first_value` and `next_value`.
module _ (kind : Option ℕ) (part : ℕ → ℕ) (value : List (ℕ × ℕ) → Option ℕ → Option ℕ)
    (base : (found : Option ℕ) → value [] found ≡ found)
    (step : (p x : ℕ) (pos : List (ℕ × ℕ)) (found : Option ℕ)
      → value ((p, x) ∷ pos) found ≡ value pos (if is_term kind p then some (part x) else found))
    (o : ℕ) where
  abbrev HasOnly : List (ℕ × ℕ) → Type 0
  HasOnly pos = (p x : ℕ) → Memᴰ (p, x) pos → kind ≡ some p → x ≡ o

  -- If all values of the kind are the same, it finds that one.
  last_value :
      (pos : List (ℕ × ℕ)) (found : Option ℕ)
      → HasOnly pos
      → (found ≡ some (part o)) ⊎ ((p : ℕ) × (Memᴰ (p, o) pos × (kind ≡ some p)))
      → value pos found ≡ some (part o)
  last_value [] found only h = elim h [
    | inl q ↦ base found ∙ q
    | inr (p, (m, e)) ↦ absurd (Memᴰ.not-nil m)
  ]
  last_value ((p, x) ∷ pos) found only h =
      step p x pos found
      ∙ last_value pos (if is_term kind p then some (part x) else found)
          (λ p' x' m. only p' x' (Memᴰ.tail m)) later
    where
      Later : Option ℕ → Type 0
      Later f = (f ≡ some (part o)) ⊎ ((p : ℕ) × (Memᴰ (p, o) pos × (kind ≡ some p)))

      later : Later (if is_term kind p then some (part x) else found)
      later = elim (Bool-cases (is_term kind p)) [
        | inl q ↦
            rw q (inl (ap (λ y. some (part y)) (only p x (Memᴰ.head refl) (is_term-eq kind p q))))
        | inr q ↦ rw q (elim h [
          | inl e ↦ inl e
          | inr (p', (m, e)) ↦ elim (Memᴰ.cases_cons m) [
            | inl here ↦
                let same : p' ≡ p = ap (λ (y : ℕ × ℕ). y.0) here in
                absurd (ground (arith, q, is_term_of_eq kind p (e ∙ ap some same)))
            | inr there ↦ inr (p', (there, e))
          ]
        ])
      ]

module _ (ts : List Triple) where
  -- The index has all pairs of a subject, and nothing else.
  by_subject : (s p o : ℕ) → Memᴰ (s, (p, o)) ts → Memᴰ (p, o) (values_of s (triples_by_subject ts))
  unfolding triples_by_subject
  by_subject s p o mem =
      for_each-reaches Q add_to_index
        (λ x m h.
          let all = λ (l : List (ℕ × ℕ)). Memᴰ (p, o) l in
          subst all (sym (values_of-push_value x.0 s x.1 m)) (elim (Bool-cases (nat_eq.beq x.0 s)) [
            | inl q ↦ rw q (Memᴰ.append_left (x.1 ∷ []) h)
            | inr q ↦ rw q h
          ]))
        (s, (p, o))
        (λ m.
          subst (λ (l : List (ℕ × ℕ)). Memᴰ (p, o) l) (sym (values_of-push_value s s (p, o) m))
            (rw ((nat_beq_iff s s).1 refl) (Memᴰ.append_right (values_of s m) (Memᴰ.head refl))))
        ts mem []
    where
      Q : Index → Type 0
      Q m = Memᴰ (p, o) (values_of s m)

  by_subject-Mem :
      (s : ℕ) (pos : List (ℕ × ℕ)) (p o : ℕ)
      → lookup s (triples_by_subject ts) ≡ some pos
      → Memᴰ (p, o) pos
      → Memᴰ (s, (p, o)) ts
  unfolding triples_by_subject
  by_subject-Mem s pos p o h mem =
      for_each-keeps (Groups R) add_to_index ts (λ x inside m. push_value-Groups R x.0 x.1 m inside)
        [] (λ k vs v q. absurd (Memᴰ.not-nil q)) s pos (p, o)
        (Mem-lookup s pos (triples_by_subject ts) h) mem
    where
      R : ℕ → ℕ × ℕ → Type 0
      R k w = Memᴰ (k, w) ts

  -- The triples give a subject this object by a predicate of the given kind, and no other object.
  pub record Gives (kind : Option ℕ) (s o : ℕ) : Type 0 where
    pub predicate : ℕ
    pub is_kind : kind ≡ some predicate
    pub is_triple : Memᴰ (s, (predicate, o)) ts
    pub only : (x : ℕ) → Memᴰ (s, (predicate, x)) ts → x ≡ o

module _ (v : PreVocabulary) (ts : List Triple) where
  -- An RDF list that the triples state, with the indices of its members: each cell has one object of
  -- rdf:first, the member, and one of rdf:rest, the next cell, up to rdf:nil.
  pub data ListOf : ℕ → List ℕ → Type 0 where
    end : {cur : ℕ} → v.rdf_nil ≡ some cur → ListOf cur []
    cell :
        {cur : ℕ} (o next : ℕ) (members : List ℕ)
        → v.rdf_nil ≢ some cur
        → Gives ts v.rdf_first cur o
        → Gives ts v.rdf_rest cur next
        → ListOf next members
        → ListOf cur (id_index o ∷ members)

  only_of :
      (kind : Option ℕ) (s o : ℕ) (pos : List (ℕ × ℕ))
      → Gives ts kind s o
      → lookup s (triples_by_subject ts) ≡ some pos
      → (p x : ℕ) → Memᴰ (p, x) pos
      → kind ≡ some p
      → x ≡ o
  only_of kind s o pos g h p x m e =
      let same : p ≡ g.predicate = some_injective (sym e ∙ g.is_kind) in
      g.only x (subst (λ y. Memᴰ (s, (y, x)) ts) same (by_subject-Mem ts s pos p x h m))

  looked_up :
      (s p o : ℕ)
      → Memᴰ (s, (p, o)) ts
      → (pos : List (ℕ × ℕ)) × ((lookup s (triples_by_subject ts) ≡ some pos) × Memᴰ (p, o) pos)
  looked_up s p o mem = with_entry (lookup s (triples_by_subject ts)) refl (by_subject ts s p o mem)
    where
      with_entry :
          (e : Option (List (ℕ × ℕ)))
          → lookup s (triples_by_subject ts) ≡ e
          → Memᴰ (p, o) (stored (lookup s (triples_by_subject ts)))
          → (pos : List (ℕ × ℕ)) × ((lookup s (triples_by_subject ts) ≡ some pos) × Memᴰ (p, o) pos)
      with_entry none q m =
          absurd (Memᴰ.not-nil (subst (λ (e : Option (List (ℕ × ℕ))). Memᴰ (p, o) (stored e)) q m))
      with_entry (some pos) q m =
          (pos, (q, subst (λ (e : Option (List (ℕ × ℕ))). Memᴰ (p, o) (stored e)) q m))

  walk_list-ListOf :
      (rounds head : ℕ) (members : List ℕ)
      → ListOf head members
      → walk_list v (triples_by_subject ts) rounds head ≡ take rounds members
  unfolding walk_list
  walk_list-ListOf zero head [] (end q) = refl
  walk_list-ListOf zero head (i ∷ members) (cell o next _ n f r rest) = refl
  walk_list-ListOf (suc rounds) head [] (end q) = rw (is_term_of_eq v.rdf_nil head q) refl
  walk_list-ListOf (suc rounds) head (i ∷ members) (cell o next _ n f r rest) =
      let (pos, (l, _)) = looked_up head f.predicate o f.is_triple in
      let (pos', (l', m')) = looked_up head r.predicate next r.is_triple in
      let same : pos' ≡ pos = some_injective (sym l' ∙ l) in
      let m : Memᴰ (f.predicate, o) pos = (looked_up head f.predicate o f.is_triple).1.1 in
      let first : first_value v.rdf_first pos none ≡ some (id_index o) =
        last_value v.rdf_first id_index (first_value v.rdf_first) (λ _. refl) (λ _ _ _ _. refl) o
          pos none (only_of v.rdf_first head o pos f l) (inr (f.predicate, (m, f.is_kind))) in
      let after : next_value v.rdf_rest pos none ≡ some next =
        last_value v.rdf_rest (λ x. x) (next_value v.rdf_rest) (λ _. refl) (λ _ _ _ _. refl) next
          pos none (only_of v.rdf_rest head next pos r l)
          (inr (
            r.predicate,
            (subst (λ (l : List (ℕ × ℕ)). Memᴰ (r.predicate, next) l) same m', r.is_kind),
          )) in
      let going : is_term v.rdf_nil head ≡ false = elim (Bool-cases (is_term v.rdf_nil head)) [
        | inl q ↦ absurd (n (is_term-eq v.rdf_nil head q))
        | inr q ↦ q
      ] in
      rw going (
        rw l (
          rw first
            (rw after (ap (λ is. id_index o ∷ is) (walk_list-ListOf rounds next members rest)))))

  -- Of a list that the triples state, in which each cell has exactly one first and one rest, up to
  -- rdf:nil, the walk of the scan finds the first 100 members, by their indices, and all of them if
  -- there are no more.
  pub walk_list-take :
      (head : ℕ) (members : List ℕ)
      → ListOf head members
      → walk_list v (triples_by_subject ts) walk_rounds head ≡ take 100 members
  walk_list-take = walk_list-ListOf 100
