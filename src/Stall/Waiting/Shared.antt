-- ===== src/Stall/Waiting/Shared.antt =====
-- What the shared counters hold, in terms of the steps of all threads.
use rdf_reasoner_konclude.Base.{ℕ, ◌+◌, ◌≤◌, ◌<◌, List, [], ◌∷◌, Bool, true, false, nat_eq, arith}
use mathlib.Core.Path.{refl}
use rdf_reasoner_konclude.Stall.{
  Stall, Change, raise_busy, count_task, lower_busy, stamp, change, Watch, entering, resetting,
  stamping, starting, loaded_threshold, no_task_open, loaded_fast, chosen, read_clock, read_last,
  declaring, finished, begin_wait, stall_detected, watch_step,
}
use rdf_reasoner_konclude.Stall.Waiting.{
  Move, work, watch, run, move, from_start, raised, lowered, IsBalanced, watched, Says, IsAt,
  run-IsAt,
}

module _ (s : Stall) where
  change-Says :
      (c : Change) (h : List Move) (m : Stall)
      → lowered (work c ∷ h) ≤ s.busy + raised (work c ∷ h)
      → Says s h m
      → Says s (work c ∷ h) (change c m)
  unfolding change
  change-Says raise_busy h m b v = record {
    says_busy = omega (arith, v.says_busy);
    says_last = v.says_last;
    says_tasks = v.says_tasks;
    says_threshold = v.says_threshold;
    says_fast = v.says_fast;
  }
  change-Says count_task h m b v = record {
    says_busy = v.says_busy;
    says_last = v.says_last;
    says_tasks = omega (arith, v.says_tasks);
    says_threshold = v.says_threshold;
    says_fast = v.says_fast;
  }
  change-Says lower_busy h m b v = record {
    says_busy = omega (arith, v.says_busy, b);
    says_last = v.says_last;
    says_tasks = v.says_tasks;
    says_threshold = v.says_threshold;
    says_fast = v.says_fast;
  }
  change-Says (stamp now) h m b v = record {
    says_busy = v.says_busy;
    says_last = refl;
    says_tasks = v.says_tasks;
    says_threshold = v.says_threshold;
    says_fast = v.says_fast;
  }

  -- A step that stores nothing of note.
  quiet-Says :
      (f : Bool) (now : ℕ) (h : List Move) (m : Stall)
      → 2 < watched h
      → Says s h m
      → Says s (watch f now ∷ h) m
  quiet-Says f now h m a v = record {
    says_busy = v.says_busy;
    says_last = ground (arith, a, v.says_last);
    says_tasks = ground (arith, a, v.says_tasks);
    says_threshold = v.says_threshold;
    says_fast = v.says_fast;
  }

  step-Says :
      (f : Bool) (now : ℕ) (h : List Move) (m : Stall) (w : Watch)
      → IsAt s h w
      → Says s h m
      → Says s (watch f now ∷ h) (watch_step f now m w).0
  unfolding watch_step begin_wait stall_detected
  step-Says f now h m entering a v = record {
    says_busy = v.says_busy;
    says_last = ground (arith, a, v.says_last);
    says_tasks = ground (arith, a, v.says_tasks);
    says_threshold = v.says_threshold;
    says_fast = v.says_fast;
  }
  step-Says f now h m resetting a v = record {
    says_busy = v.says_busy;
    says_last = ground (arith, a, v.says_last);
    says_tasks = ground (arith, a);
    says_threshold = v.says_threshold;
    says_fast = v.says_fast;
  }
  step-Says f now h m stamping a v = record {
    says_busy = v.says_busy;
    says_last = ground (arith, a);
    says_tasks = ground (arith, a, v.says_tasks);
    says_threshold = v.says_threshold;
    says_fast = v.says_fast;
  }
  step-Says f now h m starting a v = quiet-Says f now h m a v
  step-Says f now h m (loaded_threshold th) a v = quiet-Says f now h m a v
  step-Says f now h m (no_task_open th) a v = quiet-Says f now h m a v
  step-Says f now h m (loaded_fast th fast) a v = quiet-Says f now h m a v
  step-Says f now h m (chosen th) a v = quiet-Says f now h m a v
  step-Says f now h m (read_clock th r) a v = quiet-Says f now h m a v
  step-Says f now h m (read_last th l) a v = quiet-Says f now h m a v
  step-Says f now h m declaring a v =
      let q = quiet-Says f now h m a v in
      record {
        says_busy = q.says_busy;
        says_last = q.says_last;
        says_tasks = q.says_tasks;
        says_threshold = q.says_threshold;
        says_fast = q.says_fast;
      }
  step-Says f now h m (finished true) a v = quiet-Says f now h m a v
  step-Says f now h m (finished false) a v = quiet-Says f now h m a v

  pub run-Says : (h : List Move) → IsBalanced s.busy h → Says s h (from_start s h).shared
  unfolding run move
  run-Says [] b = record {
    says_busy = refl;
    says_last = refl;
    says_tasks = refl;
    says_threshold = refl;
    says_fast = refl;
  }
  run-Says (work c ∷ h) b = change-Says c h (from_start s h).shared b.0 (run-Says h b.1)
  run-Says (watch f now ∷ h) b =
      step-Says f now h (from_start s h).shared (from_start s h).watcher (run-IsAt s h)
        (run-Says h b.1)
