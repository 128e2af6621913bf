-- ===== src/Session/Verbs.antt =====
-- The verbs of a `KoncludeReasoner`: they rebuild the ontology when they have to.
use rdf_reasoner_konclude.Base.{
  ℕ, ◌+◌, List, [], ◌∷◌, Bool, true, false, not, ◌&&◌, leb, if◌then◌else◌, length, Option, none,
  some, nat_eq, bool_eq, pair_eq, list_eq, ◌==◌,
}
use rdf_reasoner_konclude.Base.Sets.{count_missing}
use rdf_reasoner_konclude.Base.Ints.{pos}
use rdf_reasoner_konclude.Content.Hash.{H128}
use rdf_reasoner_konclude.Content.Check.{Buffers}
use rdf_reasoner_konclude.Session.Kernel.{Kernel}
use rdf_reasoner_konclude.Session.State.{Impl, impl_reset, build_ontology, run_pipeline}

-- emptyStr: the string table of no strings
abbrev pub empty_buffers : Buffers
empty_buffers = record {
  triple_ptr = none;
  triple_count = pos 0;
  table_ptr = some (0 ∷ 0 ∷ 0 ∷ 0 ∷ []);
  table_len = pos 4;
}

-- `mDigest == mBuiltDigest` of two std::unordered_set
unfoldable pub same_digest : List H128 → List H128 → Bool
same_digest xs ys = length xs == length ys && count_missing xs ys == 0

abbrev pub or_empty : Option Buffers → Buffers
or_empty none = empty_buffers
or_empty (some b) = b

module _ (k : Kernel) where
  -- The content changed and changed back: the loaded ontology is still valid.
  unfoldable pub revalidate : Impl k → Impl k
  unfolding same_digest
  revalidate im = elim im.built_gen [
    | none ↦ im
    | some g ↦
        if not (g == im.generation) && same_digest im.digest im.built_digest
        then record im { built_gen = some im.generation }
        else im
  ]

  unfoldable pub is_built : Bool → Impl k → Bool
  is_built for_realization im = elim im.built_gen [
    | none ↦ false
    | some g ↦ g == im.generation && (im.built_real == for_realization && not im.load_error)
  ]

  -- Hidden results come back.
  unfoldable pub unhide : Impl k → Impl k
  unhide im =
      if im.hidden
      then record im {
        classified = im.hidden_classified;
        realized = im.hidden_realized;
        hidden = false;
      }
      else im

  -- What is set before a build.
  unfoldable pub prepare_build : Impl k → Impl k
  prepare_build im =
      let cleared = if im.built_dirty then impl_reset k im else im in
      record cleared {
        built_dirty = true;
        built_gen = none;
        pipe_level = 0;
        consist_state = none;
        hidden = false;
      }

  unfoldable pub content : Impl k → Buffers
  content im = if im.has_content then or_empty im.pending else empty_buffers

  -- The build itself, and what a successful one records.
  unfoldable pub build_content : Bool → Impl k → Bool × Impl k
  unfolding content
  build_content for_realization im =
      let built = build_ontology k (content im) for_realization im in
      if built.load_error then (false, built) else (
        true,
        record built {
          built_gen = some built.generation;
          built_real = for_realization;
          built_digest = built.digest;
          rebuilds = built.rebuilds + 1;
        },
      )

  unfoldable pub rebuild : Bool → Impl k → Bool × Impl k
  unfolding prepare_build build_content
  rebuild for_realization im = build_content for_realization (prepare_build im)

  unfoldable pub reuse_or_rebuild : Bool → Impl k → Bool × Impl k
  unfolding is_built unhide rebuild
  reuse_or_rebuild for_realization im =
      if is_built for_realization im then (true, unhide im) else rebuild for_realization im

  unfoldable pub ensure_built : Bool → Impl k → Bool × Impl k
  unfolding revalidate reuse_or_rebuild
  ensure_built for_realization im =
      if im.legacy_loaded
      then (not im.load_error, im)
      else reuse_or_rebuild for_realization (revalidate im)

  -- The rest of a verb behind a successful `ensure_built`: `level` is what the pipeline reaches.
  unfoldable pub classify_built : Bool → ℕ → Impl k → Bool × Impl k
  classify_built include_realization level im =
      if leb level im.pipe_level
      then (im.classified, im)
      else let (ok, ran) = run_pipeline k include_realization im in
        if ok
        then (true, record ran { pipe_level = level })
        else (false, record ran { built_gen = none })

  unfoldable pub classification : Impl k → Bool × Impl k
  unfolding ensure_built classify_built
  classification im =
      let (ok, built) = ensure_built false im in
      if ok then classify_built false 1 built else (false, built)

  unfoldable pub realization : Impl k → Bool × Impl k
  unfolding ensure_built classify_built
  realization im =
      let (ok, built) = ensure_built true im in
      if ok then classify_built true 2 built else (false, built)

  -- `cons ? cons->isOntologyConsistent() : true`
  unfoldable pub kernel_consistent : Impl k → Bool
  kernel_consistent im = elim (k.consistence im.ontology) [ none ↦ true | some c ↦ c ]

  unfoldable pub remember_consistency : Impl k → Bool × Impl k
  unfolding kernel_consistent
  remember_consistency im =
      (kernel_consistent im, record im { consist_state = some (kernel_consistent im) })

  -- The rest of `consistency` when nothing is remembered yet.
  unfoldable pub decide_consistency : Impl k → Bool × Impl k
  unfolding remember_consistency
  decide_consistency im =
      if im.findings.trivially_inconsistent
      then (false, record im { consist_state = some false })
      else if im.pipe_level == 0
      then (let (ok, ran) = classification im in
          if ok then remember_consistency ran else (false, ran))
      else remember_consistency im

  unfoldable pub consistency : Impl k → Bool × Impl k
  unfolding ensure_built decide_consistency
  consistency im =
      let (ok, built) = ensure_built false im in
      if ok
      then elim built.consist_state [ none ↦ decide_consistency built | some c ↦ (c, built) ]
      else (false, built)

  -- KoncludeReasoner::reset
  unfoldable pub reset : Impl k → Impl k
  reset im =
      let cleared = impl_reset k im in
      record cleared {
        digest = [];
        built_digest = [];
        pending = none;
        has_content = false;
        generation = cleared.generation + 1;
        built_gen = none;
        built_dirty = false;
        pipe_level = 0;
        consist_state = none;
        hidden = false;
        last_added = 0;
        last_removed = 0;
        legacy_loaded = false;
      }
