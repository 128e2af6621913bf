-- ===== src/Scan/Batch/Lists/Walk.antt =====
-- The walk along an RDF list: its end, and what it finds.
use rdf_reasoner_konclude.Base.{
  ℕ, ◌≡◌, zero, suc, List, [], ◌∷◌, true, false, none, some, nat_eq, list_eq, pair_eq, ◌==◌, length,
}
use rdf_reasoner_konclude.Base.Dicts.{lookup}
use rdf_reasoner_konclude.Base.Sets.{contains}
use native.Mathlib.Omega.{arith}
use mathlib.Core.Path.{refl, sym, ap, ap₂, subst, ◌∙◌}
use rdf_reasoner_konclude.Base.{Bool-cases, Option-cases, nat_beq_iff, map, ◌+◌, ◌<◌}
use rdf_reasoner_konclude.Base.Sets.{Distinct, count_missing, length_le_of_missing}
use rdf_reasoner_konclude.Wire.Table.{Text}
use rdf_reasoner_konclude.Scan.Terms.{is_named}
use rdf_reasoner_konclude.Scan.Batch.{BatchMaps}
use rdf_reasoner_konclude.Scan.Batch.Lists.{with_member, walk_cells, list_members}
use rdf_reasoner_konclude.Base.{some_injective}
use mathlib.Core.Logic.{inl, inr}

module _ (terms : List Text) (m : BatchMaps) where
  -- The loop `while (true)`, by the places where it is left.
  pub data Walks : List ℕ → ℕ → List Text → Type 0 where
    at_seen : {seen : List ℕ} {curr : ℕ} → contains seen curr ≡ true → Walks seen curr []
    at_named :
        {seen : List ℕ} {curr : ℕ}
        → contains seen curr ≡ false
        → is_named curr ≡ true
        → Walks seen curr []
    without_first :
        {seen : List ℕ} {curr : ℕ}
        → contains seen curr ≡ false
        → is_named curr ≡ false
        → lookup curr m.firsts ≡ none
        → Walks seen curr []
    without_rest :
        {seen : List ℕ} {curr : ℕ} (i : ℕ)
        → contains seen curr ≡ false
        → is_named curr ≡ false
        → lookup curr m.firsts ≡ some i
        → lookup curr m.rests ≡ none
        → Walks seen curr (with_member terms m i [])
    to_next :
        {seen : List ℕ} {curr : ℕ} (i next : ℕ) (members : List Text)
        → contains seen curr ≡ false
        → is_named curr ≡ false
        → lookup curr m.firsts ≡ some i
        → lookup curr m.rests ≡ some next
        → Walks (curr ∷ seen) next members
        → Walks seen curr (with_member terms m i members)

  abbrev keys : List (ℕ × ℕ) → List ℕ
  keys entries = map (λ (e : ℕ × ℕ). e.0) entries

  keys-lookup :
      (k i : ℕ) (entries : List (ℕ × ℕ))
      → lookup k entries ≡ some i
      → contains (keys entries) k ≡ true
  keys-lookup k i [] h = absurd (cc)
  keys-lookup k i ((j, w) ∷ entries) h = ground (arith, keys-lookup k i entries)

  -- A walk with more rounds left than cells unseen follows the loop to its end.
  walk_cells-Walks :
      (rounds : ℕ) (seen : List ℕ) (curr : ℕ)
      → Distinct seen
      → count_missing seen (keys m.firsts) ≡ 0
      → length (keys m.firsts) < rounds + length seen
      → Walks seen curr (walk_cells terms m rounds seen curr)
  unfolding walk_cells
  walk_cells-Walks zero seen curr d known enough =
      absurd (omega (arith, length_le_of_missing (keys m.firsts) seen d known))
  walk_cells-Walks (suc rounds) seen curr d known enough = elim (Bool-cases (contains seen curr)) [
    | inl q ↦ rw q (at_seen q)
    | inr q ↦ elim (Bool-cases (is_named curr)) [
      | inl r ↦ rw q (rw r (at_named q r))
      | inr r ↦ elim (Option-cases (lookup curr m.firsts)) [
        | inl e ↦ rw q (rw r (rw e (without_first q r e)))
        | inr (i, e) ↦ elim (Option-cases (lookup curr m.rests)) [
          | inl f ↦ rw q (rw r (rw e (rw f (without_rest i q r e f))))
          | inr (next, f) ↦ rw q (
              rw r (
                rw e (
                  rw f (
                    to_next i next _ q r e f (
                      walk_cells-Walks rounds (curr ∷ seen) next (q, d)
                        (ground (arith, known, keys-lookup curr i m.firsts e)) (omega arith))))))
        ]
      ]
    ]
  ]

  length-keys : (entries : List (ℕ × ℕ)) → length (keys entries) ≡ length entries
  length-keys [] = refl
  length-keys (e ∷ entries) = ap suc (length-keys entries)

  -- From every head, also of a cyclic list, the loop ends in one of its exits, and collects the
  -- members that are computed.
  pub list_members-Walks : (head : ℕ) → Walks [] head (list_members terms m head)
  unfolding list_members
  list_members-Walks head =
      walk_cells-Walks (suc (length m.firsts)) [] head tt refl (omega (arith, length-keys m.firsts))

  -- A list in the triples: cells up to a named node.
  pub data RdfList : ℕ → List ℕ → Type 0 where
    end : {curr : ℕ} → is_named curr ≡ true → RdfList curr []
    cell :
        {curr : ℕ} (i next : ℕ) (members : List ℕ)
        → is_named curr ≡ false
        → lookup curr m.firsts ≡ some i
        → lookup curr m.rests ≡ some next
        → RdfList next members
        → RdfList curr (i ∷ members)

  -- The strings of those members that the table has.
  abbrev pub strings_of : List ℕ → List Text
  strings_of [] = []
  strings_of (i ∷ is) = with_member terms m i (strings_of is)

  RdfList-length :
      {curr : ℕ} {is js : List ℕ} → RdfList curr is → RdfList curr js → length is ≡ length js
  RdfList-length (end q) (end r) = refl
  RdfList-length (end q) (cell i next is r e f l) = absurd (cc)
  RdfList-length (cell i next is r e f l) (end q) = absurd (cc)
  RdfList-length (cell i next is q e f l) (cell j next' js r e' f' l') =
      ap suc (RdfList-length l (subst (λ n. RdfList n js) (some_injective (sym f' ∙ f)) l'))

  abbrev Longer : List ℕ → List ℕ → Type 0
  Longer seen is =
      (a : ℕ) → contains seen a ≡ true → (js : List ℕ) × (RdfList a js × (length is < length js))

  unseen :
      {curr : ℕ} {is : List ℕ} (seen : List ℕ)
      → RdfList curr is
      → Longer seen is
      → contains seen curr ≡ true
      → ⊥
  unseen {curr} seen l longer q =
      let old = longer curr q in omega (arith, RdfList-length l old.1.0, old.1.1)

  Walks-RdfList :
      {seen : List ℕ} {curr : ℕ} {members : List Text} {is : List ℕ}
      → Walks seen curr members
      → RdfList curr is
      → Longer seen is
      → members ≡ strings_of is
  Walks-RdfList (at_seen q) l longer = absurd (unseen _ l longer q)
  Walks-RdfList (at_named q r) (end r') longer = refl
  Walks-RdfList (at_named q r) (cell j next' js r' e' f' l) longer = absurd (cc)
  Walks-RdfList (without_first q r e) (end r') longer = absurd (cc)
  Walks-RdfList (without_first q r e) (cell j next' js r' e' f' l) longer = absurd (cc)
  Walks-RdfList (without_rest i q r e f) (end r') longer = absurd (cc)
  Walks-RdfList (without_rest i q r e f) (cell j next' js r' e' f' l) longer = absurd (cc)
  Walks-RdfList (to_next i next ms q r e f w) (end r') longer = absurd (cc)
  Walks-RdfList {seen} {curr} (to_next i next ms q r e f w) (cell j next' js r' e' f' l) longer =
      let same = some_injective (sym e ∙ e') in
      let rest = subst (λ n. RdfList n js) (some_injective (sym f' ∙ f)) l in
      ap₂ (with_member terms m) same (
        Walks-RdfList w rest (λ a p. elim (Bool-cases (curr == a)) [
          | inl here ↦ (
            j ∷ js,
            (
              subst (λ c. RdfList c (j ∷ js)) ((nat_beq_iff curr a).0 here)
                  (cell j next' js r' e' f' l),
              omega arith,
            ),
          )
          | inr before ↦
              let old = longer a (ground (arith, p, before)) in
              (old.0, (old.1.0, omega (arith, old.1.1)))
        ]))

  -- Of a list whose cells all have a first and a rest, up to a named node, the members that the table
  -- has are found, in order.
  pub list_members_of_RdfList :
      (head : ℕ) (is : List ℕ) → RdfList head is → list_members terms m head ≡ strings_of is
  list_members_of_RdfList head is l = Walks-RdfList (list_members-Walks head) l (λ a q. absurd (cc))
