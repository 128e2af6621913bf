-- ===== src/Stall/Waiting.antt =====
-- When a stall is declared, in terms of the steps of all threads.
pub mod Shared
pub mod Declared
use rdf_reasoner_konclude.Base.{
  ℕ, ◌+◌, ◌-◌, ◌≤◌, ◌<◌, ◌≡◌, List, [], ◌∷◌, ◌++◌, Bool, true, false, if◌then◌else◌, nat_eq, ◌==◌,
  arith, refl, ap,
}
use mathlib.Core.Logic.{◌⊎◌, inl, inr}
use mathlib.Core.List.{Memᴰ}
use rdf_reasoner_konclude.Base.Ints.{ℤ, pos, to_ℕ}
use rdf_reasoner_konclude.Stall.{
  Stall, Change, raise_busy, count_task, lower_busy, stamp, change, Watch, entering, resetting,
  stamping, starting, loaded_threshold, no_task_open, loaded_fast, chosen, read_clock, read_last,
  declaring, finished, begin_wait, stall_detected, watch_step,
}

-- A step of a working thread, or one of the waiting thread at a time on the clock.
pub data Move : Type 0 where
  work : Change → Move
  watch : Bool → ℕ → Move

pub record Monitor : Type 0 where
  pub shared : Stall
  pub watcher : Watch

unfoldable pub move : Move → Monitor → Monitor
move (work c) m = record m { shared = change c m.shared }
move (watch clock_first now) m =
    let (s, w) = watch_step clock_first now m.shared m.watcher in record { shared = s; watcher = w }

-- The steps in any order, the latest first.
unfoldable pub run : List Move → Monitor → Monitor
run [] m = m
run (x ∷ earlier) m = move x (run earlier m)

-- How many tasks began and how many ended.
abbrev pub raised : List Move → ℕ
raised [] = 0
raised (work raise_busy ∷ h) = raised h + 1
raised (_ ∷ h) = raised h

abbrev pub lowered : List Move → ℕ
lowered [] = 0
lowered (work lower_busy ∷ h) = lowered h + 1
lowered (_ ∷ h) = lowered h

-- A task ends after it began; `before` tasks were open at the start.
abbrev pub IsBalanced : ℕ → List Move → Type 0
IsBalanced before [] = Unit
IsBalanced before (x ∷ h) = (lowered (x ∷ h) ≤ before + raised (x ∷ h)) × IsBalanced before h

-- How often the waiting thread moved.
abbrev pub watched : List Move → ℕ
watched [] = 0
watched (work c ∷ h) = watched h
watched (watch f now ∷ h) = watched h + 1

-- The times that it had.
abbrev pub clocks : List Move → List ℕ
clocks [] = []
clocks (work c ∷ h) = clocks h
clocks (watch f now ∷ h) = now ∷ clocks h

-- The time of the latest activity: a stamp, or the third step of the waiting thread, which begins
-- the wait.
abbrev pub last_at : ℕ → List Move → ℕ
last_at start [] = start
last_at start (work (stamp now) ∷ h) = now
last_at start (work _ ∷ h) = last_at start h
last_at start (watch f now ∷ h) = if watched h == 2 then now else last_at start h

-- The tasks that were counted since its second step.
abbrev pub counted : ℕ → List Move → ℕ
counted start [] = start
counted start (work count_task ∷ h) = counted start h + 1
counted start (work _ ∷ h) = counted start h
counted start (watch f now ∷ h) = if watched h == 1 then 0 else counted start h

module _ (s : Stall) where
  abbrev pub from_start : List Move → Monitor
  from_start h = run h (record { shared = s; watcher = entering })

  -- A moment of the wait: what had happened by then.
  pub record Moment (h : List Move) : Type 0 where
    pub by_then : List Move
    pub later : List Move
    pub splits : h ≡ later ++ by_then
    pub in_wait : 2 < watched by_then

  -- At some moment every task that had begun had ended.
  abbrev pub NoneOpen : List Move → Type 0
  NoneOpen h = (t : Moment h) × (lowered t.by_then ≡ s.busy + raised t.by_then)

  -- The threshold, or a shorter fast threshold and a task that was counted in the wait.
  abbrev pub IsThreshold : List Move → ℕ → Type 0
  IsThreshold h th =
      (th ≡ to_ℕ s.threshold_ms)
      ⊎ ((th ≡ to_ℕ s.fast_threshold_ms)
          × ((0 < th)
              × ((th < to_ℕ s.threshold_ms)
                  × ((t : Moment h) × (0 < counted s.tasks_since_wait t.by_then)))))

  -- A time on the clock lies further behind the latest activity at some moment than the threshold.
  abbrev pub IsIdle : List Move → ℕ → Type 0
  IsIdle h th =
      (t : Moment h) × ((now : ℕ) × (Memᴰ now (clocks h)
          × (last_at s.last_ms t.by_then + th < now)))

  -- What the shared state says of the steps.
  pub record Says (h : List Move) (m : Stall) : Type 0 where
    pub says_busy : m.busy + lowered h ≡ s.busy + raised h
    pub says_last : m.last_ms ≡ last_at s.last_ms h
    pub says_tasks : m.tasks_since_wait ≡ counted s.tasks_since_wait h
    pub says_threshold : m.threshold_ms ≡ s.threshold_ms
    pub says_fast : m.fast_threshold_ms ≡ s.fast_threshold_ms

  -- How far the waiting thread is.
  abbrev pub IsAt : List Move → Watch → Type 0
  IsAt h entering = watched h ≡ 0
  IsAt h resetting = watched h ≡ 1
  IsAt h stamping = watched h ≡ 2
  IsAt h _ = 2 < watched h

  IsAt-step :
      (f : Bool) (now : ℕ) (h : List Move) (m : Stall) (w : Watch)
      → IsAt h w
      → IsAt (watch f now ∷ h) (watch_step f now m w).1
  unfolding watch_step begin_wait stall_detected
  IsAt-step f now h m entering a = ground (arith, a)
  IsAt-step f now h m resetting a = ground (arith, a)
  IsAt-step f now h m stamping a = ground (arith, a)
  IsAt-step f now h m starting a = ground (arith, a)
  IsAt-step f now h m (loaded_threshold th) a = ground (arith, a)
  IsAt-step f now h m (no_task_open th) a = ground (arith, a)
  IsAt-step f now h m (loaded_fast th fast) a = ground (arith, a)
  IsAt-step f now h m (chosen th) a = ground (arith, a)
  IsAt-step f now h m (read_clock th r) a = ground (arith, a)
  IsAt-step f now h m (read_last th l) a = ground (arith, a)
  IsAt-step f now h m declaring a = ground (arith, a)
  IsAt-step f now h m (finished true) a = ground (arith, a)
  IsAt-step f now h m (finished false) a = ground (arith, a)

  pub run-IsAt : (h : List Move) → IsAt h (from_start h).watcher
  unfolding run move
  run-IsAt [] = refl
  run-IsAt (work c ∷ h) = run-IsAt h
  run-IsAt (watch f now ∷ h) =
      IsAt-step f now h (from_start h).shared (from_start h).watcher (run-IsAt h)
