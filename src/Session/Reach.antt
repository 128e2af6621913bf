-- ===== src/Session/Reach.antt =====
-- The states of a `KoncludeReasoner` that calls of its methods reach.
pub mod Syncing
pub mod Reuse
pub mod Back
pub mod Answers
pub mod Lookups
use rdf_reasoner_konclude.Base.{
  bool_beq_iff, some_injective, ℕ, zero, suc, ◌+◌, ◌-◌, ◌*◌, ◌/◌, ◌%◌, ◌^◌, ◌≤◌, ◌<◌, ◌≡◌, ◌≢◌, ◌↔◌,
  refl, sym, ap, ◌∙◌, subst, subst₃, List, [], ◌∷◌, ◌++◌, map, Bool, true, false, not, ◌&&◌, ◌||◌,
  ltb, leb, if◌then◌else◌, arith, length, take, drop, get_or, get_elem?, All, all_of, length-append,
  take-append, drop-append, drop-append_add, get_or-append_left, length-map, Option, none, some, Eq,
  nat_eq, bool_eq, pair_eq, list_eq, list_beq_iff, pair_beq_iff, nat_beq_iff, ◌==◌, Option-cases,
  Bool-cases, ◌⊎◌, inl, inr,
}
use rdf_reasoner_konclude.Base.Sets.{contains, SameSet-of_size, count_missing, SameSet}
use rdf_reasoner_konclude.Content.Hash.{H128}
use rdf_reasoner_konclude.Content.Check.{Buffers, buffers_ok}
use rdf_reasoner_konclude.Content.Digest.{digest_of}
use rdf_reasoner_konclude.Content.Digest.Meaning.{digest-Distinct}
use rdf_reasoner_konclude.Session.Kernel.{Kernel, Step}
use rdf_reasoner_konclude.Session.State.{Impl, initial, impl_reset, build_ontology, run_pipeline}
use rdf_reasoner_konclude.Session.Verbs.{
  build_content, content, empty_buffers, or_empty, revalidate, reuse_or_rebuild, is_built, unhide,
  prepare_build, rebuild, ensure_built, same_digest,
}
use rdf_reasoner_konclude.Session.Invariant.{From, loaded, prepared, Loaded, IsCurrent}
use rdf_reasoner_konclude.Session.Verbs.{
  classify_built, classification, realization, decide_consistency, remember_consistency,
  consistency, reset,
}
use rdf_reasoner_konclude.Session.Sync.{sync_buffers}
use rdf_reasoner_konclude.Session.Invariant.{
  initial-IsCurrent, reset-IsCurrent, sync_buffers-IsCurrent,
}
use rdf_reasoner_konclude.Session.Invariant.Build.{
  IsBuilt, ensure_built-IsCurrent, ensure_built-IsBuilt,
}
use rdf_reasoner_konclude.Session.Invariant.Calls.{
  classification-IsCurrent, realization-IsCurrent, consistency-IsCurrent,
}

-- The methods that change the state.
pub data Call : Type 0 where
  sync : Buffers → Call
  classify realize check_consistency clear : Call

module _ (k : Kernel) where
  unfoldable pub run_call : Call → Impl k → Impl k
  run_call (sync b) im = (sync_buffers k b im).1
  run_call classify im = (classification k im).1
  run_call realize im = (realization k im).1
  run_call check_consistency im = (consistency k im).1
  run_call clear im = reset k im

  pub data Reachable : Impl k → Type 0 where
    start : Reachable (initial k)
    called : (c : Call) {im im' : Impl k} → Reachable im → run_call c im ≡ im' → Reachable im'

  run_call-IsCurrent : (c : Call) (im : Impl k) → IsCurrent k im → IsCurrent k (run_call c im)
  unfolding run_call
  run_call-IsCurrent (sync b) im v = sync_buffers-IsCurrent k b im v
  run_call-IsCurrent classify im v = classification-IsCurrent k im v
  run_call-IsCurrent realize im v = realization-IsCurrent k im v
  run_call-IsCurrent check_consistency im v = consistency-IsCurrent k im v
  run_call-IsCurrent clear im v = reset-IsCurrent k im

  -- In every state that calls reach, what is between calls holds.
  pub reachable-IsCurrent : {im : Impl k} → Reachable im → IsCurrent k im
  reachable-IsCurrent start = initial-IsCurrent k
  reachable-IsCurrent (called c {im} r e) =
      subst (IsCurrent k) e (run_call-IsCurrent c im (reachable-IsCurrent r))

  -- Results that can be read: of classification, or of realization over an ontology that is recorded
  -- as built.
  abbrev pub HasResults : Impl k → Type 0
  HasResults im =
      (im.classified ≡ true) ⊎ ((g : ℕ) × ((im.built_gen ≡ some g) × (im.realized ≡ true)))

  results_at : (im : Impl k) → IsCurrent k im → HasResults im → im.built_gen ≡ some im.generation
  results_at im v h = elim h [
    | inl q ↦ v.visible q
    | inr (g, (e, q)) ↦ e ∙ ap some (v.realized_now g e q)
  ]

  -- No stale results: if a reached state shows results of classification, or shows results of
  -- realization and records its ontology as built, then that ontology comes from buffers with the
  -- statements of the content that was synced last (by their digests), loaded in the variant that the
  -- state names. Of results of realization that a state shows without such a record, which a failed
  -- classification leaves, nothing is stated.
  pub never_stale :
      (im : Impl k)
      → Reachable im
      → HasResults im
      → (b : Buffers) × (From k b im.built_real im.ontology
          × SameSet (digest_of b) (digest_of (content k im)))
  never_stale im r h =
      let v = reachable-IsCurrent r in
      let at = results_at im v h in
      let (b, f, e) = v.loaded_from im.generation at in
      (
        b,
        (f, λ a. ap (λ d. contains d a) (sym e) ∙ v.agrees at a ∙ ap (λ d. contains d a) v.synced),
      )
