-- ===== src/Session/Invariant/Build.antt =====
-- `ensureBuilt` and what holds between calls.
use rdf_reasoner_konclude.Base.{
  bool_beq_iff, some_injective, ℕ, ◌≡◌, refl, sym, ◌∙◌, Bool, true, false, not, ◌&&◌, arith, Option,
  none, some, nat_eq, bool_eq, pair_eq, list_eq, ◌==◌, Option-cases, Bool-cases, inl, inr,
}
use rdf_reasoner_konclude.Base.Sets.{SameSet-of_size, SameSet}
use rdf_reasoner_konclude.Content.Digest.{digest_of}
use rdf_reasoner_konclude.Content.Digest.Meaning.{digest-Distinct}
use rdf_reasoner_konclude.Session.Kernel.{Kernel}
use rdf_reasoner_konclude.Session.State.{Impl, impl_reset, build_ontology}
use rdf_reasoner_konclude.Session.Verbs.{
  build_content, content, revalidate, reuse_or_rebuild, is_built, unhide, prepare_build, rebuild,
  ensure_built, same_digest,
}
use rdf_reasoner_konclude.Session.Invariant.{loaded, Loaded, IsCurrent}

module _ (k : Kernel) where
  open k use {Ontology, fresh, load}

  -- What a successful `ensure_built` gives.
  pub record IsBuilt (real : Bool) (im : Impl k) : Type 0 where
    pub current : IsCurrent k im
    pub at_generation : im.built_gen ≡ some im.generation
    pub variant : im.built_real ≡ real
    pub shown : im.hidden ≡ false

  -- What a build starts from: a fresh ontology and nothing kept of the last.
  record IsReady (im : Impl k) : Type 0 where
    pristine : im.ontology ≡ fresh im.reset_count
    no_load_error : im.load_error ≡ false
    is_modern : im.legacy_loaded ≡ false
    set_dirty : im.built_dirty ≡ true
    not_built : im.built_gen ≡ none
    not_classified : im.classified ≡ false
    level : im.pipe_level ≡ 0
    is_shown : im.hidden ≡ false
    content_synced : im.digest ≡ digest_of (content k im)

  module _ (im : Impl k) (v : IsCurrent k im) where
    -- `==` of two sets without repetitions is equality of sets.
    same_digest-SameSet :
        Loaded k im
        → same_digest im.digest im.built_digest ≡ true
        → SameSet im.built_digest im.digest
    unfolding same_digest
    same_digest-SameSet (b, f, e) h a = sym (
        SameSet-of_size im.digest im.built_digest (rw (v.synced) (digest-Distinct (content k im)))
          (rw (e) (digest-Distinct b)) (ground (arith, h)) (ground (arith, h)) a)

    module _ (g : ℕ) (e : im.built_gen ≡ some g) where
      revalidated-IsCurrent :
          SameSet im.built_digest im.digest
          → IsCurrent k (record im { built_gen = some im.generation })
      unfolding content
      revalidated-IsCurrent s = record {
        modern = v.modern;
        clean = v.clean;
        no_error = v.no_error;
        synced = v.synced;
        loaded_from = λ n h. v.loaded_from g e;
        good = λ n h. v.good g e;
        dirty = λ n h. v.dirty g e;
        older = λ n h. ground (arith, some_injective h);
        agrees = λ h. s;
        visible = λ h. refl;
        realized_now = λ n h q. sym (some_injective h);
        realized_masked = v.realized_masked;
        level_zero = v.level_zero;
        hidden_zero = v.hidden_zero;
        masked = v.masked;
        level_one = v.level_one;
        level_two = v.level_two;
        level_max = v.level_max;
        indexed = v.indexed;
        hidden_indexed = v.hidden_indexed;
      }

    pub revalidate-IsCurrent : IsCurrent k (revalidate k im)
    unfolding revalidate
    revalidate-IsCurrent = elim (Option-cases im.built_gen) [
      | inl e ↦ rw (e, revalidate) v
      | inr (g, e) ↦
          elim (Bool-cases (not (g == im.generation) && same_digest im.digest im.built_digest)) [
            | inl q ↦
                rw (e, q, revalidate)
                  (revalidated-IsCurrent g e
                    (same_digest-SameSet (v.loaded_from g e) (ground (arith, q))))
            | inr q ↦ rw (e, q, revalidate) v
          ]
    ]

    unhide-IsCurrent : im.built_gen ≡ some im.generation → IsCurrent k (unhide k im)
    unfolding unhide content
    unhide-IsCurrent e = elim (Bool-cases im.hidden) [
      | inr q ↦ simp (q, unhide) v
      | inl q ↦
          simp (q, unhide)
            (record {
              modern = v.modern;
              clean = v.clean;
              no_error = v.no_error;
              synced = v.synced;
              loaded_from = v.loaded_from;
              good = v.good;
              dirty = v.dirty;
              older = v.older;
              agrees = v.agrees;
              visible = λ h. e;
              realized_now = λ n h q. some_injective (sym h ∙ e);
              realized_masked = λ h. absurd (cc);
              level_zero = v.hidden_zero q;
              hidden_zero = λ h. absurd (cc);
              masked = λ h. absurd (cc);
              level_one = v.level_one;
              level_two = v.level_two;
              level_max = v.level_max;
              indexed = v.hidden_indexed q;
              hidden_indexed = λ h. absurd (cc);
            })
    ]

    unhide-IsBuilt : (real : Bool) → is_built k real im ≡ true → IsBuilt real (unhide k im)
    unfolding is_built unhide
    unhide-IsBuilt real h = elim (Option-cases im.built_gen) [
      | inl e ↦ absurd (ground (arith, e, h))
      | inr (g, e) ↦ record {
        current = unhide-IsCurrent (ground (arith, e, h));
        at_generation = ground (arith, e, h);
        variant = ground (arith, e, h, bool_beq_iff im.built_real real);
        shown = ground arith;
      }
    ]

    prepare_build-IsReady : IsReady (prepare_build k im)
    unfolding prepare_build impl_reset content
    prepare_build-IsReady = record {
      pristine = ground (arith, v.clean);
      no_load_error = ground (arith, v.no_error);
      is_modern = ground (arith, v.modern);
      set_dirty = ground arith;
      not_built = ground arith;
      not_classified = ground (arith, v.visible, v.dirty im.generation);
      level = ground arith;
      is_shown = ground arith;
      content_synced = ground (arith, v.synced);
    }

  module _ (real : Bool) (im : Impl k) (r : IsReady im) where
    abbrev attempt : Option Ontology
    attempt = load im.ontology (content k im) real

    build_content-IsCurrent : IsCurrent k (build_content k real im).1
    unfolding build_content build_ontology
    build_content-IsCurrent = elim (Option-cases attempt) [
      | inl e ↦
          simp (e, build_content, build_ontology)
            (record {
              modern = r.is_modern;
              clean = λ h. absurd (cc (r.set_dirty));
              no_error = λ h. absurd (cc (r.set_dirty));
              synced = r.content_synced;
              loaded_from = λ g h. absurd (cc (r.not_built));
              good = λ g h. absurd (cc (r.not_built));
              dirty = λ g h. r.set_dirty;
              older = λ g h. absurd (cc (r.not_built));
              agrees = λ h. absurd (cc (r.not_built));
              visible = λ h. absurd (cc (r.not_classified));
              realized_now = λ g h. absurd (cc (r.not_built));
              realized_masked = λ h. absurd (cc (r.is_shown));
              level_zero = λ h. r.not_classified;
              hidden_zero = λ h. absurd (cc (r.is_shown));
              masked = λ h. r.not_classified;
              level_one = λ h. absurd (omega (arith, h, r.level));
              level_two = λ h. absurd (omega (arith, h, r.level));
              level_max = omega (arith, r.level);
              indexed = λ h. absurd (cc (r.not_classified));
              hidden_indexed = λ h. absurd (cc (r.is_shown));
            })
      | inr (o, e) ↦
          simp (e, r.no_load_error, build_content, build_ontology)
            (record {
              modern = r.is_modern;
              clean = λ h. absurd (cc (r.set_dirty));
              no_error = λ h. absurd (cc (r.set_dirty));
              synced = r.content_synced;
              loaded_from = λ g h.
                  (content k im, loaded im.reset_count (rw⁻¹ r.pristine e), r.content_synced);
              good = λ g h. refl;
              dirty = λ g h. r.set_dirty;
              older = λ g h. omega (arith, some_injective h);
              agrees = λ h a. refl;
              visible = λ h. refl;
              realized_now = λ g h q. sym (some_injective h);
              realized_masked = λ h. absurd (cc (r.is_shown));
              level_zero = λ h. refl;
              hidden_zero = λ h. absurd (cc (r.is_shown));
              masked = λ h. refl;
              level_one = λ h. absurd (omega (arith, h, r.level));
              level_two = λ h. absurd (omega (arith, h, r.level));
              level_max = omega (arith, r.level);
              indexed = λ h. absurd (cc);
              hidden_indexed = λ h. absurd (cc (r.is_shown));
            })
    ]

    build_content-IsBuilt :
        (build_content k real im).0 ≡ true → IsBuilt real (build_content k real im).1
    unfolding build_content build_ontology
    build_content-IsBuilt h = elim (Option-cases attempt) [
      | inl e ↦ absurd (ground (arith, e, h))
      | inr (o, e) ↦ record {
        current = build_content-IsCurrent;
        at_generation = ground (arith, e, r.no_load_error);
        variant = ground (arith, e, r.no_load_error);
        shown = ground (arith, e, r.no_load_error, r.is_shown);
      }
    ]

  module _ (real : Bool) (im : Impl k) (v : IsCurrent k im) where
    rebuild-IsCurrent : IsCurrent k (rebuild k real im).1
    unfolding rebuild
    rebuild-IsCurrent =
        build_content-IsCurrent real (prepare_build k im) (prepare_build-IsReady im v)

    rebuild-IsBuilt : (rebuild k real im).0 ≡ true → IsBuilt real (rebuild k real im).1
    unfolding rebuild
    rebuild-IsBuilt = build_content-IsBuilt real (prepare_build k im) (prepare_build-IsReady im v)

    reuse_or_rebuild-IsCurrent : IsCurrent k (reuse_or_rebuild k real im).1
    unfolding reuse_or_rebuild
    reuse_or_rebuild-IsCurrent = elim (Bool-cases (is_built k real im)) [
      | inl q ↦ simp (q, reuse_or_rebuild) (unhide-IsBuilt im v real q).current
      | inr q ↦ simp (q, reuse_or_rebuild) rebuild-IsCurrent
    ]

    reuse_or_rebuild-IsBuilt :
        (reuse_or_rebuild k real im).0 ≡ true → IsBuilt real (reuse_or_rebuild k real im).1
    unfolding reuse_or_rebuild
    reuse_or_rebuild-IsBuilt = elim (Bool-cases (is_built k real im)) [
      | inl q ↦ simp (q, reuse_or_rebuild) (λ h. unhide-IsBuilt im v real q)
      | inr q ↦ simp (q, reuse_or_rebuild) rebuild-IsBuilt
    ]

  module _ (real : Bool) (im : Impl k) (v : IsCurrent k im) where
    pub ensure_built-eq : ensure_built k real im ≡ reuse_or_rebuild k real (revalidate k im)
    unfolding ensure_built
    ensure_built-eq = simp (v.modern, ensure_built) refl

    pub ensure_built-IsCurrent : IsCurrent k (ensure_built k real im).1
    ensure_built-IsCurrent =
        simp (ensure_built-eq)
          (reuse_or_rebuild-IsCurrent real (revalidate k im) (revalidate-IsCurrent im v))

    pub ensure_built-IsBuilt :
        (ensure_built k real im).0 ≡ true → IsBuilt real (ensure_built k real im).1
    ensure_built-IsBuilt =
        simp (ensure_built-eq)
          (reuse_or_rebuild-IsBuilt real (revalidate k im) (revalidate-IsCurrent im v))
