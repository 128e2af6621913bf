-- ===== src/Stall.antt =====
-- src/compat/KonStall.h: the counters by which a wait notices that Konclude is stuck. Each atomic
-- load or store is a step of its own, and other threads take steps in between. The times that
-- `nowMs` reads are arguments. All threads see one order of the steps, and the thresholds do not
-- change during a wait.
pub mod Waiting
use rdf_reasoner_konclude.Base.{
  ℕ, ◌+◌, ◌-◌, List, [], ◌∷◌, Bool, true, false, ltb, leb, not, ◌&&◌, if◌then◌else◌, nat_eq, ◌==◌,
}
use rdf_reasoner_konclude.Base.Ints.{ℤ, pos, negsuc, to_ℕ}

-- gBusy, gLastMs, gThresholdMs, gFastThresholdMs, gTasksSinceWait and gStalled
pub record Stall : Type 0 where
  pub busy : ℕ
  pub last_ms : ℕ
  pub threshold_ms : ℤ
  pub fast_threshold_ms : ℤ
  pub tasks_since_wait : ℕ
  pub declared : Bool

-- The atomic steps of the threads that work: `gBusy.fetch_add(1)`, `gTasksSinceWait.fetch_add(1)`,
-- `gLastMs.store(nowMs())` and `gBusy.fetch_sub(1)`
pub data Change : Type 0 where
  raise_busy count_task lower_busy : Change
  stamp : ℕ → Change

unfoldable pub change : Change → Stall → Stall
change raise_busy s = record s { busy = s.busy + 1 }
change count_task s = record s { tasks_since_wait = s.tasks_since_wait + 1 }
change lower_busy s = record s { busy = s.busy - 1 }
change (stamp now) s = record s { last_ms = now }

-- Scope(), the start of a tableau task
abbrev pub begin_task : List Change
begin_task = raise_busy ∷ count_task ∷ []

-- ~Scope()
abbrev pub end_task : ℕ → List Change
end_task now = stamp now ∷ lower_busy ∷ []

-- touch(), and both ends of an EventTouch
abbrev pub touch : ℕ → List Change
touch now = stamp now ∷ []

-- Where the waiting thread stands in beginWait() and in the calls of stallDetected() after it, with
-- the values that it has loaded.
pub data Watch : Type 0 where
  entering resetting stamping starting : Watch
  loaded_threshold no_task_open : ℕ → Watch
  loaded_fast : ℕ → ℤ → Watch
  chosen : ℕ → Watch
  read_clock read_last : ℕ → ℕ → Watch
  declaring : Watch
  finished : Bool → Watch

-- th > 0
abbrev pub is_positive : ℤ → Bool
is_positive (pos n) = ltb 0 n
is_positive (negsuc n) = false

-- the threshold of this wait
unfoldable pub wait_threshold : Stall → ℕ → ℤ → ℕ
wait_threshold s th fast =
    if ltb 0 s.tasks_since_wait && is_positive fast && ltb (to_ℕ fast) th then to_ℕ fast else th

-- idle <= th. A clock behind the time stored gives a negative idle time, which is below the threshold.
abbrev pub judge : ℕ → ℕ → ℕ → Watch
judge th now last = if leb (now - last) th then finished false else declaring

-- beginWait(): three stores
unfoldable pub begin_wait : ℕ → Stall → Watch → Stall × Watch
begin_wait now s entering = (record s { declared = false }, resetting)
begin_wait now s resetting = (record s { tasks_since_wait = 0 }, stamping)
begin_wait now s stamping = (record s { last_ms = now }, starting)
begin_wait now s w = (s, w)

-- stallDetected(), load by load. C++ leaves open whether `nowMs() - gLastMs.load()` reads the clock
-- first.
unfoldable pub stall_detected : Bool → ℕ → Stall → Watch → Stall × Watch
unfolding wait_threshold
stall_detected clock_first now s starting = (
  s,
  if is_positive s.threshold_ms then loaded_threshold (to_ℕ s.threshold_ms) else finished false,
)
stall_detected clock_first now s (loaded_threshold th) =
    (s, if s.busy == 0 then no_task_open th else finished false)
stall_detected clock_first now s (no_task_open th) = (s, loaded_fast th s.fast_threshold_ms)
stall_detected clock_first now s (loaded_fast th fast) = (s, chosen (wait_threshold s th fast))
stall_detected clock_first now s (chosen th) =
    (s, if clock_first then read_clock th now else read_last th s.last_ms)
stall_detected clock_first now s (read_clock th read) = (s, judge th read s.last_ms)
stall_detected clock_first now s (read_last th last) = (s, judge th now last)
stall_detected clock_first now s declaring = (record s { declared = true }, finished true)
stall_detected clock_first now s w = (s, w)

-- One step of the waiting thread: a wait polls until a stall is detected.
unfoldable pub watch_step : Bool → ℕ → Stall → Watch → Stall × Watch
unfolding begin_wait stall_detected
watch_step clock_first now s entering = begin_wait now s entering
watch_step clock_first now s resetting = begin_wait now s resetting
watch_step clock_first now s stamping = begin_wait now s stamping
watch_step clock_first now s (finished false) = (s, starting)
watch_step clock_first now s w = stall_detected clock_first now s w
