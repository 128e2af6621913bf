-- ===== src/Session/Invariant.antt =====
-- What holds of a `KoncludeReasoner` between calls.
pub mod Build
pub mod Pipeline
pub mod Calls
use rdf_reasoner_konclude.Base.{
  some_injective, ℕ, zero, suc, ◌+◌, ◌-◌, ◌*◌, ◌/◌, ◌%◌, ◌^◌, ◌≤◌, ◌<◌, ◌≡◌, ◌≢◌, ◌↔◌, refl, sym,
  ap, ◌∙◌, subst, subst₃, List, [], ◌∷◌, ◌++◌, map, Bool, true, false, not, ◌&&◌, ◌||◌, ltb, leb,
  if◌then◌else◌, arith, length, take, drop, get_or, get_elem?, All, all_of, length-append,
  take-append, drop-append, drop-append_add, get_or-append_left, length-map, Option, none, some, Eq,
  nat_eq, bool_eq, pair_eq, list_eq, list_beq_iff, pair_beq_iff, nat_beq_iff, ◌==◌, Option-cases,
  Bool-cases, ◌⊎◌, inl, inr,
}
use rdf_reasoner_konclude.Base.Sets.{count_missing, SameSet}
use rdf_reasoner_konclude.Base.Ints.{ℤ, pos, negsuc}
use rdf_reasoner_konclude.Content.Hash.{H128}
use rdf_reasoner_konclude.Content.Check.{Buffers, buffers_ok}
use rdf_reasoner_konclude.Content.Digest.{digest_of}
use rdf_reasoner_konclude.Session.Kernel.{Kernel, Step}
use rdf_reasoner_konclude.Session.State.{
  index_by_iri, Impl, initial, impl_reset, build_ontology, run_pipeline,
}
use rdf_reasoner_konclude.Session.Sync.{sync_changed, sync_buffers, take_content, hide_results}
use rdf_reasoner_konclude.Session.Verbs.{content, empty_buffers, or_empty, revalidate, reset}

module _ (k : Kernel) where
  open k use {concepts, Ontology, fresh, load, prepare}

  -- The ontologies that come from loading one content into a fresh ontology, and from any number of
  -- pipeline runs after it.
  pub data From (b : Buffers) (real : Bool) : Ontology → Type 0 where
    loaded : (n : ℕ) {o : Ontology} → load (fresh n) b real ≡ some o → From b real o
    prepared :
        (g : ℕ) (steps : List Step) {o o' : Ontology}
        → From b real o
        → (prepare g steps o).0 ≡ o'
        → From b real o'

  -- Some buffers with the built digest were loaded, in the variant that the flag says.
  abbrev pub Loaded : Impl k → Type 0
  Loaded im = (b : Buffers) × From b im.built_real im.ontology × (im.built_digest ≡ digest_of b)

  pub record IsCurrent (im : Impl k) : Type 0 where
    pub modern : im.legacy_loaded ≡ false
    pub clean : im.built_dirty ≡ false → im.ontology ≡ fresh im.reset_count
    pub no_error : im.built_dirty ≡ false → im.load_error ≡ false
    pub synced : im.digest ≡ digest_of (content k im)
    pub loaded_from : (g : ℕ) → im.built_gen ≡ some g → Loaded im
    pub good : (g : ℕ) → im.built_gen ≡ some g → im.load_error ≡ false
    pub dirty : (g : ℕ) → im.built_gen ≡ some g → im.built_dirty ≡ true
    pub older : (g : ℕ) → im.built_gen ≡ some g → g ≤ im.generation
    pub agrees : im.built_gen ≡ some im.generation → SameSet im.built_digest im.digest
    pub visible : im.classified ≡ true → im.built_gen ≡ some im.generation
    pub realized_now : (g : ℕ) → im.built_gen ≡ some g → im.realized ≡ true → g ≡ im.generation
    pub realized_masked : im.hidden ≡ true → im.realized ≡ false
    pub level_zero : im.pipe_level ≡ 0 → im.classified ≡ false
    pub hidden_zero : im.hidden ≡ true → im.pipe_level ≡ 0 → im.hidden_classified ≡ false
    pub masked : im.hidden ≡ true → im.classified ≡ false
    pub level_one : im.pipe_level ≡ 1 → im.built_real ≡ false
    pub level_two : im.pipe_level ≡ 2 → im.built_real ≡ true
    pub level_max : im.pipe_level ≤ 2
    pub indexed : im.classified ≡ true → im.concept_by_iri ≡ index_by_iri (concepts im.ontology) []
    pub hidden_indexed :
        im.hidden ≡ true
        → im.hidden_classified ≡ true
        → im.concept_by_iri ≡ index_by_iri (concepts im.ontology) []

  digest-empty : [] ≡ digest_of empty_buffers
  unfolding digest_of
  digest-empty = refl

  pub initial-IsCurrent : IsCurrent (initial k)
  unfolding initial content
  initial-IsCurrent = record {
    modern = refl;
    clean = λ h. refl;
    no_error = λ h. refl;
    synced = digest-empty;
    loaded_from = λ g h. absurd (cc);
    good = λ g h. absurd (cc);
    dirty = λ g h. absurd (cc);
    older = λ g h. absurd (cc);
    agrees = λ h. absurd (cc);
    visible = λ h. absurd (cc);
    realized_now = λ g h. absurd (cc);
    realized_masked = λ h. refl;
    level_zero = λ h. refl;
    hidden_zero = λ h q. refl;
    masked = λ h. refl;
    level_one = λ h. refl;
    level_two = λ h. absurd (omega arith);
    level_max = omega arith;
    indexed = λ h. absurd (cc);
    hidden_indexed = λ h q. absurd (cc);
  }

  pub reset-IsCurrent : (im : Impl k) → IsCurrent (reset k im)
  unfolding reset impl_reset content
  reset-IsCurrent im = record {
    modern = refl;
    clean = λ h. refl;
    no_error = λ h. refl;
    synced = digest-empty;
    loaded_from = λ g h. absurd (cc);
    good = λ g h. absurd (cc);
    dirty = λ g h. absurd (cc);
    older = λ g h. absurd (cc);
    agrees = λ h. absurd (cc);
    visible = λ h. absurd (cc);
    realized_now = λ g h. absurd (cc);
    realized_masked = λ h. refl;
    level_zero = λ h. refl;
    hidden_zero = λ h q. absurd (cc);
    masked = λ h. absurd (cc);
    level_one = λ h. absurd (omega arith);
    level_two = λ h. absurd (omega arith);
    level_max = omega arith;
    indexed = λ h. absurd (cc);
    hidden_indexed = λ h q. absurd (cc);
  }

  Loaded-hide : (im : Impl k) → Loaded im → Loaded (hide_results k im)
  unfolding hide_results
  Loaded-hide im h = elim (Option-cases im.built_gen) [
    | inl e ↦ rw (e, hide_results) h
    | inr (g, e) ↦ elim (Bool-cases im.hidden) [
      | inl q ↦ rw (e, q, hide_results) h
      | inr q ↦ rw (e, q, hide_results) h
    ]
  ]

  module _ (b : Buffers) (im : Impl k) (v : IsCurrent im) where
    -- the state that a changing sync leaves
    abbrev taken : Impl k
    taken = hide_results k (take_content k b (digest_of b) im)

    -- Nothing is visible after it.
    taken_classified : taken.classified ≡ false
    unfolding hide_results take_content
    taken_classified = ground (arith, v.visible, v.masked)

    taken_realized : (g : ℕ) → taken.built_gen ≡ some g → taken.realized ≡ false
    unfolding hide_results take_content
    taken_realized g h = ground (arith, h, v.realized_masked)

    taken-IsCurrent : IsCurrent taken
    unfolding hide_results take_content content
    taken-IsCurrent = record {
      modern = ground (arith, v.modern);
      clean = ground (arith, v.clean);
      no_error = ground (arith, v.no_error);
      synced = ground arith;
      loaded_from = λ g h.
          Loaded-hide (take_content k b (digest_of b) im) (v.loaded_from g (ground (arith, h)));
      good = λ g h. ground (arith, v.good g);
      dirty = λ g h. ground (arith, v.dirty g);
      older = λ g h. ground (arith, v.older g);
      agrees = λ h. absurd (ground (arith, v.older (im.generation + 1)));
      visible = λ h. absurd (cc (taken_classified));
      realized_now = λ g h q. absurd (cc (taken_realized g h, q));
      realized_masked = λ h. ground (arith, h, v.realized_masked);
      level_zero = λ h. ground (arith, v.level_zero);
      hidden_zero = λ h q. ground (arith, v.hidden_zero, v.level_zero);
      masked = λ h. ground (arith, v.masked);
      level_one = ground (arith, v.level_one);
      level_two = ground (arith, v.level_two);
      level_max = ground (arith, v.level_max);
      indexed = λ h. absurd (cc (taken_classified));
      hidden_indexed = ground (arith, v.indexed, v.hidden_indexed);
    }

    pub sync_buffers-IsCurrent : IsCurrent (sync_buffers k b im).1
    unfolding sync_buffers
    sync_buffers-IsCurrent = elim (Bool-cases (buffers_ok b)) [
      | inl e ↦ elim (Bool-cases (sync_changed k im (digest_of b))) [
        | inl q ↦ rw (e, q, sync_buffers) taken-IsCurrent
        | inr q ↦ rw (e, q, sync_buffers) v
      ]
      | inr e ↦ rw (e, sync_buffers) v
    ]
