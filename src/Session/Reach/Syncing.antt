-- ===== src/Session/Reach/Syncing.antt =====
-- What `syncBuffers` answers, and what the counts of the last sync say.
use rdf_reasoner_konclude.Base.{
  ◌+◌, ◌-◌, ◌≡◌, ◌↔◌, refl, sym, ap, ◌∙◌, true, false, arith, length, nat_eq, bool_eq, pair_eq,
  list_eq, Bool-cases, ◌⊎◌, inl, inr,
}
use rdf_reasoner_konclude.Base.Sets.{
  missing-add-shared, shared_comm, contains, count_missing, SameSet,
}
use rdf_reasoner_konclude.Content.Check.{Buffers, buffers_ok}
use rdf_reasoner_konclude.Content.Digest.{digest_of}
use rdf_reasoner_konclude.Content.Digest.Meaning.{digest-Distinct}
use rdf_reasoner_konclude.Session.Kernel.{Kernel}
use rdf_reasoner_konclude.Session.State.{Impl}
use rdf_reasoner_konclude.Session.Verbs.{content}
use rdf_reasoner_konclude.Session.Invariant.{IsCurrent}
use rdf_reasoner_konclude.Session.Sync.{
  sync_buffers, sync_changed, take_content, hide_results, triple_count,
}
use rdf_reasoner_konclude.Base.Sets.{
  contains, missing_other, missing_of_SameSet, Distinct, SameSet-of_missing,
}
use rdf_reasoner_konclude.Content.Digest.{content_of}
use rdf_reasoner_konclude.Content.Digest.Meaning.{digest-SameSet}
use rdf_reasoner_konclude.Session.Reach.{Reachable, reachable-IsCurrent}
use rdf_reasoner_konclude.Base.Ints.{pos}

module _ (k : Kernel) where
  module _ (b : Buffers) (im : Impl k) (r : Reachable k im) where
    abbrev v : IsCurrent k im
    v = reachable-IsCurrent k r

    digest-IsDistinct : Distinct im.digest
    digest-IsDistinct = rw (v.synced) (digest-Distinct (content k im))

    count_removed_lem :
        length im.digest - (length (digest_of b) - count_missing (digest_of b) im.digest)
        ≡ count_missing im.digest (digest_of b)
    count_removed_lem = missing_other (digest_of b) im.digest (digest-Distinct b) digest-IsDistinct

    unchanged-SameSet : sync_changed k im (digest_of b) ≡ false → SameSet (digest_of b) im.digest
    unfolding sync_changed
    unchanged-SameSet h =
        SameSet-of_missing (digest_of b) im.digest (ground (arith, h))
          (sym count_removed_lem ∙ ground (arith, h))

    SameSet-unchanged :
        im.has_content ≡ true
        → SameSet (digest_of b) im.digest
        → sync_changed k im (digest_of b) ≡ false
    unfolding sync_changed
    SameSet-unchanged h s = ground (
      arith,
      h,
      missing_of_SameSet (digest_of b) im.digest s,
      count_removed_lem,
      missing_of_SameSet im.digest (digest_of b) (λ a. sym (s a)),
    )

    -- A sync of valid buffers with the statements of the retained content, in whatever order, with
    -- whatever repetitions, ids and table, answers 0 and leaves the state as it is, provided that
    -- something was synced before.
    pub sync_buffers-same :
        im.has_content ≡ true
        → buffers_ok b ≡ true
        → SameSet (content_of b) (content_of (content k im))
        → sync_buffers k b im ≡ (pos 0, im)
    unfolding sync_buffers
    sync_buffers-same h q s =
        simp
          (
            q,
            SameSet-unchanged h
                (λ a. digest-SameSet b (content k im) s a ∙ ap (λ d. contains d a) (sym v.synced)),
            sync_buffers,
          )
          refl

    -- After a sync of valid buffers the retained digest is, as a set, that of the buffers.
    pub digest-sync_buffers :
        buffers_ok b ≡ true → SameSet (sync_buffers k b im).1.digest (digest_of b)
    unfolding sync_buffers hide_results take_content
    digest-sync_buffers q a = elim (Bool-cases (sync_changed k im (digest_of b))) [
      | inl e ↦ ap (λ d. contains d a) (ground (arith, q, e))
      | inr e ↦ simp (q, e, sync_buffers) (sym (unchanged-SameSet e a))
    ]

    -- A sync answers 1 just when its buffers are valid and either nothing was synced before or the
    -- new digest is another set than the retained one.
    pub sync_buffers-changed_iff : ((sync_buffers k b im).0 ≡ pos 1) ↔ (
        (buffers_ok b ≡ true) × ((im.has_content ≡ false) ⊎ (SameSet (digest_of b) im.digest → ⊥)))
    unfolding sync_buffers
    sync_buffers-changed_iff = (answer-reason, reason-answer)
      where
        answer-reason :
            (sync_buffers k b im).0 ≡ pos 1
            → (buffers_ok b ≡ true)
              × ((im.has_content ≡ false) ⊎ (SameSet (digest_of b) im.digest → ⊥))
        answer-reason e = (
          ground (arith, e),
          elim (Bool-cases im.has_content) [
            | inr q ↦ inl q
            | inl q ↦ inr (λ s. ground (arith, e, SameSet-unchanged q s))
          ],
        )

        reason-answer :
            (buffers_ok b ≡ true)
              × ((im.has_content ≡ false) ⊎ (SameSet (digest_of b) im.digest → ⊥))
            → (sync_buffers k b im).0 ≡ pos 1
        reason-answer (q, why) = elim (Bool-cases (sync_changed k im (digest_of b))) [
          | inl e ↦ simp (q, e, sync_buffers) refl
          | inr e ↦ elim why [
            | inl none_before ↦ absurd (ground (arith, e, none_before))
            | inr differs ↦ absurd (differs (unchanged-SameSet e))
          ]
        ]

    -- After a sync that answers 1 the counts are those of the hashes that are new and of those that
    -- are gone, and the number of statements before, with the added, is the number after, with the
    -- removed.
    pub sync_buffers-counts :
        (sync_buffers k b im).0 ≡ pos 1
        → (((sync_buffers k b im).1.last_added ≡ count_missing (digest_of b) im.digest)
            × ((sync_buffers k b im).1.last_removed ≡ count_missing im.digest (digest_of b)))
          × (triple_count k im + (sync_buffers k b im).1.last_added
              ≡ triple_count k (sync_buffers k b im).1 + (sync_buffers k b im).1.last_removed)
    unfolding sync_buffers triple_count take_content hide_results
    sync_buffers-counts e = (
      (ground (arith, e), ground (arith, e, count_removed_lem)),
      ground (
        arith,
        e,
        count_removed_lem,
        missing-add-shared (digest_of b) im.digest,
        missing-add-shared im.digest (digest_of b),
        shared_comm (digest_of b) im.digest (digest-Distinct b) digest-IsDistinct,
      ),
    )
