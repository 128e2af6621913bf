-- ===== src/Session/Sync.antt =====
-- `syncBuffers` and the readers of the last sync.
use rdf_reasoner_konclude.Base.{
  ℕ, ◌+◌, ◌-◌, List, Bool, true, false, not, ◌||◌, if◌then◌else◌, length, none, some, nat_eq,
  pair_eq, list_eq, ◌==◌,
}
use rdf_reasoner_konclude.Base.Sets.{count_missing}
use rdf_reasoner_konclude.Base.Ints.{ℤ, pos, negsuc}
use rdf_reasoner_konclude.Content.Hash.{H128}
use rdf_reasoner_konclude.Content.Check.{Buffers, buffers_ok}
use rdf_reasoner_konclude.Content.Digest.{digest_of}
use rdf_reasoner_konclude.Session.Kernel.{Kernel}
use rdf_reasoner_konclude.Session.State.{Impl}

-- How many hashes are new, and how many of the old are gone. The subtractions are those of the
-- source, on size_t.
unfoldable pub count_added : List H128 → List H128 → ℕ
count_added nd old = count_missing nd old

unfoldable pub count_removed : List H128 → List H128 → ℕ
unfolding count_added
count_removed nd old = length old - (length nd - count_added nd old)

abbrev pub nonzero : ℕ → Bool
nonzero n = not (n == 0)

module _ (k : Kernel) where
  -- Results of the loaded ontology are kept aside until the next verb.
  unfoldable pub hide_results : Impl k → Impl k
  hide_results im = elim im.built_gen [
    | none ↦ im
    | some g ↦ if im.hidden then im else record im {
      hidden_classified = im.classified;
      hidden_realized = im.realized;
      classified = false;
      realized = false;
      hidden = true;
    }
  ]

  unfoldable pub sync_changed : Impl k → List H128 → Bool
  unfolding count_added count_removed
  sync_changed im nd =
      not im.has_content
      || nonzero (count_added nd im.digest)
      || nonzero (count_removed nd im.digest)

  unfoldable pub take_content : Buffers → List H128 → Impl k → Impl k
  unfolding count_added count_removed
  take_content b nd im = record im {
    digest = nd;
    pending = some b;
    has_content = true;
    generation = im.generation + 1;
    last_added = count_added nd im.digest;
    last_removed = count_removed nd im.digest;
  }

  -- -1: invalid buffers, 0: unchanged, 1: changed
  unfoldable pub sync_buffers : Buffers → Impl k → ℤ × Impl k
  unfolding sync_changed take_content hide_results
  sync_buffers b im =
      if buffers_ok b
      then (let nd = digest_of b in
          if sync_changed im nd then (pos 1, hide_results (take_content b nd im)) else (pos 0, im))
      else (negsuc 0, im)

  -- tripleCount()
  unfoldable pub triple_count : Impl k → ℕ
  triple_count im = length im.digest
