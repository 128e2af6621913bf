-- ===== src/Examples/Watches.antt =====
-- Stall detection and the cache of justifications, at small inputs.
use rdf_reasoner_konclude.Base.{ℕ, ◌≡◌, refl, List, [], ◌∷◌, true, false, some}
use rdf_reasoner_konclude.Base.Ints.{pos}
use rdf_reasoner_konclude.Stall.{
  Stall, Change, begin_task, end_task, change, watch_step, begin_wait, stall_detected,
  wait_threshold,
}
use rdf_reasoner_konclude.Stall.Waiting.{Move, work, watch, run, move, from_start}
use rdf_reasoner_konclude.Justifications.Cache.{classification, realization, lookup_typed}
use rdf_reasoner_konclude.Justifications.Cache.History.{
  CacheCall, typed, untyped, wiped, run_history, latest, at_key, lookup_typed-latest,
}

abbrev defaults : Stall
defaults = record {
  busy = 0;
  last_ms = 0;
  threshold_ms = pos 60000;
  fast_threshold_ms = pos 8000;
  tasks_since_wait = 0;
  declared = false;
}

-- A thread runs through steps of its own.
abbrev after : List Change → List Move → List Move
after [] h = h
after (c ∷ cs) h = after cs (work c ∷ h)

-- The waiting thread moves as often as the list has times.
abbrev polls : List ℕ → List Move → List Move
polls [] h = h
polls (now ∷ times) h = polls times (watch true now ∷ h)

-- The wait begins at 100, one task runs until 500, and the thread polls at 9000. Another task begins
-- when gBusy has been read.
abbrev one_task : List Move
one_task = polls (9000 ∷ 9000 ∷ 9000 ∷ 9000 ∷ 9000 ∷ []) (
    after begin_task (
      polls (9000 ∷ 9000 ∷ [])
        (after (end_task 500) (after begin_task (polls (100 ∷ 100 ∷ 100 ∷ []) [])))))

-- The stall is declared while a task is open.
open_at_stall : (from_start defaults one_task).shared.busy ≡ 1
unfolding run move watch_step begin_wait stall_detected wait_threshold change
open_at_stall = refl

-- the latest first
abbrev some_calls : List CacheCall
some_calls =
    typed (pos 1) (pos 2) realization (pos 7 ∷ [])
    ∷ untyped (pos 1) (pos 2) (pos 5 ∷ [])
    ∷ wiped
    ∷ typed (pos 1) (pos 3) classification (pos 4 ∷ [])
    ∷ []

lookup_typed-latest_example :
    lookup_typed (pos 1) (pos 2) classification (run_history some_calls)
    ≡ latest (at_key (pos 1) (pos 2) classification) some_calls
lookup_typed-latest_example = lookup_typed-latest some_calls (pos 1) (pos 2) classification

latest_test : latest (at_key (pos 1) (pos 2) classification) some_calls ≡ some (pos 5 ∷ [])
latest_test = refl
