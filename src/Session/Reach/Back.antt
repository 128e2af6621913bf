-- ===== src/Session/Reach/Back.antt =====
-- Repeated calls of the verbs with a content that changes and changes back.
use rdf_reasoner_konclude.Base.{
  ◌≡◌, refl, sym, ap, ◌∙◌, List, [], ◌∷◌, true, false, leb, arith, length, some, nat_eq, bool_eq,
  pair_eq, list_eq, nat_beq_iff,
}
use rdf_reasoner_konclude.Base.Sets.{contains, SameSet}
use rdf_reasoner_konclude.Content.Hash.{H128}
use rdf_reasoner_konclude.Content.Check.{Buffers}
use rdf_reasoner_konclude.Content.Digest.Meaning.{digest-Distinct}
use rdf_reasoner_konclude.Session.Kernel.{Kernel}
use rdf_reasoner_konclude.Session.State.{Impl}
use rdf_reasoner_konclude.Session.Verbs.{
  content, revalidate, reuse_or_rebuild, is_built, unhide, ensure_built, same_digest,
}
use rdf_reasoner_konclude.Session.Invariant.{IsCurrent}
use rdf_reasoner_konclude.Base.Sets.{missing-add-shared, shared_comm, missing_of_SameSet, Distinct}
use rdf_reasoner_konclude.Session.Sync.{sync_buffers, take_content, hide_results}
use rdf_reasoner_konclude.Session.Verbs.{classify_built, classification}
use rdf_reasoner_konclude.Session.Invariant.{sync_buffers-IsCurrent}
use rdf_reasoner_konclude.Session.Invariant.Build.{ensure_built-eq}
use rdf_reasoner_konclude.Session.Reach.{Reachable}
use rdf_reasoner_konclude.Session.Reach.Reuse.{IsSettled, classification-IsSettled}

-- The sizes of equal sets are equal, so `==` of two digests holds of equal sets.
same_digest_of_SameSet :
    (xs ys : List H128) → Distinct xs → Distinct ys → SameSet xs ys → same_digest xs ys ≡ true
unfolding same_digest
same_digest_of_SameSet xs ys dx dy s = ground (
  arith,
  missing-add-shared xs ys,
  missing-add-shared ys xs,
  shared_comm xs ys dx dy,
  missing_of_SameSet xs ys s,
  missing_of_SameSet ys xs (λ a. sym (s a)),
  nat_beq_iff (length xs) (length ys),
)

module _ (k : Kernel) where
  unfoldable pub sync_all : List Buffers → Impl k → Impl k
  sync_all [] im = im
  sync_all (b ∷ bs) im = sync_all bs (sync_buffers k b im).1

  -- What syncs leave of a settled state: everything but the content and the visibility.
  record IsShadow (im s : Impl k) : Type 0 where
    same_ontology : s.ontology ≡ im.ontology
    same_calls : s.call_generation ≡ im.call_generation
    same_rebuilds : s.rebuilds ≡ im.rebuilds
    same_level : s.pipe_level ≡ im.pipe_level
    same_variant : s.built_real ≡ im.built_real
    same_built : s.built_digest ≡ im.built_digest
    same_built_gen : s.built_gen ≡ im.built_gen
    hidden_kept : s.hidden ≡ true → s.hidden_classified ≡ true
    shown_kept : s.hidden ≡ false → s.classified ≡ true

  module _ (im : Impl k) (e : IsSettled k false 1 im) where
    settled-IsShadow : IsShadow im im
    settled-IsShadow = record {
      same_ontology = refl;
      same_calls = refl;
      same_rebuilds = refl;
      same_level = refl;
      same_variant = refl;
      same_built = refl;
      same_built_gen = refl;
      hidden_kept = λ h. absurd (cc (e.built.shown));
      shown_kept = λ h. e.is_classified;
    }

    sync_buffers-IsShadow :
        (b : Buffers) (s : Impl k) → IsShadow im s → IsShadow im (sync_buffers k b s).1
    unfolding sync_buffers hide_results take_content
    sync_buffers-IsShadow b s w = record {
      same_ontology = ground (arith, w.same_ontology);
      same_calls = ground (arith, w.same_calls);
      same_rebuilds = ground (arith, w.same_rebuilds);
      same_level = ground (arith, w.same_level);
      same_variant = ground (arith, w.same_variant);
      same_built = ground (arith, w.same_built);
      same_built_gen = ground (arith, w.same_built_gen);
      hidden_kept = ground (arith, w.hidden_kept, w.shown_kept);
      shown_kept =
          ground (arith, w.hidden_kept, w.shown_kept, w.same_built_gen, e.built.at_generation);
    }

    sync_all-IsShadow :
        (bs : List Buffers) (s : Impl k) → IsShadow im s → IsShadow im (sync_all bs s)
    unfolding sync_all
    sync_all-IsShadow [] s w = w
    sync_all-IsShadow (b ∷ bs) s w =
        sync_all-IsShadow bs (sync_buffers k b s).1 (sync_buffers-IsShadow b s w)

  sync_all-IsCurrent :
      (bs : List Buffers) (s : Impl k) → IsCurrent k s → IsCurrent k (sync_all bs s)
  unfolding sync_all
  sync_all-IsCurrent [] s v = v
  sync_all-IsCurrent (b ∷ bs) s v =
      sync_all-IsCurrent bs (sync_buffers k b s).1 (sync_buffers-IsCurrent k b s v)

  -- What the verb works on once the loaded ontology is found valid again.
  abbrev restored : Impl k → Impl k
  restored s = unhide k (revalidate k s)

  module _ (im s : Impl k) (e : IsSettled k false 1 im) (w : IsShadow im s) (v : IsCurrent k s)
      (same : SameSet s.digest s.built_digest) where
    built_at : s.built_gen ≡ some im.generation
    built_at = w.same_built_gen ∙ e.built.at_generation

    digests-agree : same_digest s.digest s.built_digest ≡ true
    digests-agree =
        let (b, f, q) = v.loaded_from im.generation built_at in
        same_digest_of_SameSet s.digest s.built_digest
          (rw (v.synced) (digest-Distinct (content k s))) (rw (q) (digest-Distinct b)) same

    is_built-restored : is_built k false (revalidate k s) ≡ true
    unfolding is_built revalidate
    is_built-restored = ground (
      arith,
      built_at,
      digests-agree,
      nat_beq_iff im.generation s.generation,
      nat_beq_iff s.generation s.generation,
      v.good im.generation built_at,
      w.same_variant,
      e.built.variant,
    )

    ensure_built-restored : ensure_built k false s ≡ (true, restored s)
    unfolding reuse_or_rebuild
    ensure_built-restored =
        ensure_built-eq k false s v ∙ simp (is_built-restored, reuse_or_rebuild) refl

    restored_classified : (restored s).classified ≡ true
    unfolding unhide revalidate
    restored_classified = ground (arith, w.hidden_kept, w.shown_kept)

    restored_level : leb 1 (restored s).pipe_level ≡ true
    unfolding unhide revalidate
    restored_level = ground (arith, w.same_level, e.reached)

    classification-restored : classification k s ≡ (true, restored s)
    unfolding classification classify_built
    classification-restored =
        simp
          (
            ensure_built-restored, restored_level, restored_classified, classification,
            classify_built,
          )
          refl

    restored_ontology : (restored s).ontology ≡ im.ontology
    unfolding unhide revalidate
    restored_ontology = ground (arith, w.same_ontology)

    restored_calls : (restored s).call_generation ≡ im.call_generation
    unfolding unhide revalidate
    restored_calls = ground (arith, w.same_calls)

    restored_rebuilds : (restored s).rebuilds ≡ im.rebuilds
    unfolding unhide revalidate
    restored_rebuilds = ground (arith, w.same_rebuilds)

  -- Let a classification succeed in a reached state, and let any syncs follow that end with the
  -- same digest, as a set, that they start with. Then the next classification answers true
  -- with the same ontology, without a rebuild and without a call of Konclude.
  pub change_back :
      (im : Impl k)
      → Reachable k im
      → (classification k im).0 ≡ true
      → (bs : List Buffers)
      → SameSet (sync_all bs (classification k im).1).digest (classification k im).1.digest
      → ((classification k (sync_all bs (classification k im).1)).0 ≡ true)
        × (((classification k (sync_all bs (classification k im).1)).1.ontology
              ≡ (classification k im).1.ontology)
            × (((classification k (sync_all bs (classification k im).1)).1.call_generation
                  ≡ (classification k im).1.call_generation)
                × ((classification k (sync_all bs (classification k im).1)).1.rebuilds
                    ≡ (classification k im).1.rebuilds)))
  change_back im r h bs same =
      let done = (classification k im).1 in
      let s = sync_all bs done in
      let e : IsSettled k false 1 done = classification-IsSettled k im r h in
      let w : IsShadow done s = sync_all-IsShadow done e bs done (settled-IsShadow done e) in
      let v : IsCurrent k s = sync_all-IsCurrent bs done e.built.current in
      let back : SameSet s.digest s.built_digest = λ a.
        same a
        ∙ sym (e.built.current.agrees e.built.at_generation a)
        ∙ ap (λ d. contains d a) (sym w.same_built) in
      rw (classification-restored done s e w v back) (
        refl,
        (
          restored_ontology done s e w v back,
          (restored_calls done s e w v back, restored_rebuilds done s e w v back),
        ),
      )
