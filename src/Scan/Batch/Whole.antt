-- ===== src/Scan/Batch/Whole.antt =====
-- The scan as a whole.
use rdf_reasoner_konclude.Base.{
  ℕ, ◌≡◌, List, [], ◌&&◌, if◌then◌else◌, Option, none, some, nat_eq, list_eq, pair_eq,
}
use native.Mathlib.Omega.{arith}
use mathlib.Core.Path.{subst}
use mathlib.Core.Logic.{inl, inr}
use mathlib.Core.List.{Memᴰ}
use mathlib.Core.List.Memᴰ
use rdf_reasoner_konclude.Base.{Bool-cases, ltb, ◌<◌, some_injective}
use rdf_reasoner_konclude.Wire.Table.{Text}
use rdf_reasoner_konclude.Wire.Emit.{Triple}
use rdf_reasoner_konclude.Base.{◌^◌}
use rdf_reasoner_konclude.Scan.Batch.{batch_vocabulary, batch_maps, Batch, MinCardinality}
use rdf_reasoner_konclude.Scan.Batch.Lists.{scan_one_of, scan_disjoint_unions}
use rdf_reasoner_konclude.Scan.Batch.SomeValues.{scan_some}
use rdf_reasoner_konclude.Scan.Batch.MinCards.{
  scan_mins, positive_stoi, positive_int, after_spaces, skip_spaces,
}
use rdf_reasoner_konclude.Scan.Batch.Backing.{BatchBacked}
use rdf_reasoner_konclude.Scan.Batch.Backing.Lists.{
  scan_one_of-BatchBacked, scan_disjoint_unions-BatchBacked,
}
use rdf_reasoner_konclude.Scan.Batch.Backing.SomeValues.{scan_some-BatchBacked}
use rdf_reasoner_konclude.Scan.Batch.Backing.MinCards.{scan_mins-BatchBacked}
use rdf_reasoner_konclude.Scan.Lines.{Justifications}

-- The state that `reset` of `Impl` leaves, with the justifications of the earlier scans.
abbrev pub fresh_batch : Justifications → Batch
fresh_batch justifications = record {
  svf_index = [];
  svf_role_assertions = [];
  svf_abox_types = [];
  one_of_memberships = [];
  min_card_restrictions = [];
  min_card_role_assertions = [];
  disjoint_union_of = [];
  justifications = justifications;
}

unfoldable pub scan_batch : List Text → (ℕ → Text) → List Triple → Justifications → Batch
unfolding batch_vocabulary batch_maps scan_some scan_one_of scan_mins scan_disjoint_unions
scan_batch terms chars ts justifications =
    let v = batch_vocabulary terms in
    let m = batch_maps v ts in
    scan_disjoint_unions terms m v ts (
      scan_mins terms chars m v ts
        (scan_one_of terms m (scan_some terms v m ts (fresh_batch justifications))))

-- Memberships of owl:oneOf and owl:disjointUnionOf are members of a list that a triple gives to the
-- class, and have a justification; entries of the index for owl:someValuesFrom are of restrictions
-- that a triple relates to the class, without repetitions; so are the minimal cardinalities, each with
-- the number that its literal starts with. A type comes from a triple by rdf:type between named nodes.
-- A role assertion comes from a triple between named nodes by the property of a restriction by
-- owl:someValuesFrom or of a minimal cardinality; its key is made of subject and property.
pub scan_batch-BatchBacked :
    (terms : List Text) (chars : ℕ → Text) (ts : List Triple) (justifications : Justifications)
    → BatchBacked terms chars (batch_vocabulary terms) ts (scan_batch terms chars ts justifications)
unfolding scan_batch
scan_batch-BatchBacked terms chars ts justifications =
    let v = batch_vocabulary terms in
    scan_disjoint_unions-BatchBacked terms chars v ts _ (
      scan_mins-BatchBacked terms chars v ts _ (
        scan_one_of-BatchBacked terms chars v ts _ (
          scan_some-BatchBacked terms chars v ts (fresh_batch justifications) record {
            one_of = λ c x p. absurd (Memᴰ.not-nil p);
            disjoint_union = λ c x p. absurd (Memᴰ.not-nil p);
            some_values = λ k vs w p. absurd (Memᴰ.not-nil p);
            some_distinct = λ k w p. absurd (Memᴰ.not-nil p);
            min_cards = λ r p. absurd (Memᴰ.not-nil p);
            types = λ i c p. absurd (Memᴰ.not-nil p);
            some_roles = λ k vs w p. absurd (Memᴰ.not-nil p);
            min_roles = λ k vs w p. absurd (Memᴰ.not-nil p);
          })))

positive_int-bounds : (o : Option ℕ) (n : ℕ) → positive_int o ≡ some n → (0 < n) × (n < 2 ^ 31)
positive_int-bounds none n h = absurd (cc)
positive_int-bounds (some k) n h = elim (Bool-cases (ltb 0 k && ltb k (2 ^ 31))) [
  | inl q ↦
      let same = some_injective (subst (λ b. (if b then some k else none) ≡ some n) q h) in
      subst (λ j. (0 < j) × (j < 2 ^ 31)) same (ground (arith, q), ground (arith, q))
  | inr q ↦ absurd (none-ne-some (subst (λ b. (if b then some k else none) ≡ some n) q h))
]
  where
    none-ne-some : none ≡ some n → ⊥
    none-ne-some e = cc

-- A minimal cardinality is a positive 32-bit int.
pub positive_stoi-bounds : (cs : Text) (n : ℕ) → positive_stoi cs ≡ some n → (0 < n) × (n < 2 ^ 31)
unfolding positive_stoi
positive_stoi-bounds cs n h = positive_int-bounds (after_spaces (skip_spaces cs)) n h

-- Every minimal cardinality that is kept is a positive 32-bit int.
pub scan_batch-positive :
    (terms : List Text) (chars : ℕ → Text) (ts : List Triple) (justifications : Justifications)
    (r : MinCardinality)
    → Memᴰ r (scan_batch terms chars ts justifications).min_card_restrictions
    → (0 < r.least) × (r.least < 2 ^ 31)
scan_batch-positive terms chars ts justifications r p =
    positive_stoi-bounds _ r.least
      ((scan_batch-BatchBacked terms chars ts justifications).min_cards r p).least
