-- ===== src/Stall/Waiting/Declared.antt =====
-- What the waiting thread knows at each step, up to a declared stall.
use rdf_reasoner_konclude.Base.{ℕ, ◌<◌, ◌≡◌, List, [], ◌∷◌, true, nat_eq}
use mathlib.Core.Path.{refl, ap}
use mathlib.Core.List.{Memᴰ}
use rdf_reasoner_konclude.Base.Ints.{to_ℕ}
use rdf_reasoner_konclude.Stall.{
  Stall, Watch, loaded_threshold, no_task_open, loaded_fast, chosen, read_clock, read_last,
  declaring, finished,
}
use rdf_reasoner_konclude.Stall.Waiting.{
  Move, watched, clocks, last_at, Moment, NoneOpen, IsThreshold, IsIdle,
}

module _ (s : Stall) where
  -- A moment stays a moment.
  abbrev later_on : (x : Move) {h : List Move} → Moment s h → Moment s (x ∷ h)
  later_on x t = record {
    by_then = t.by_then;
    later = x ∷ t.later;
    splits = ap (λ l. x ∷ l) t.splits;
    in_wait = t.in_wait;
  }

  abbrev by_now : (h : List Move) → 2 < watched h → Moment s h
  by_now h a = record { by_then = h; later = []; splits = refl; in_wait = a }

  -- The loaded threshold, which is positive.
  abbrev IsLoaded : ℕ → Type 0
  IsLoaded th = (th ≡ to_ℕ s.threshold_ms) × (0 < th)

  -- A threshold was chosen after the loads of gBusy and gTasksSinceWait.
  abbrev IsChosen : List Move → ℕ → Type 0
  IsChosen h th = (0 < to_ℕ s.threshold_ms) × (NoneOpen s h × IsThreshold s h th)

  -- A stall may be declared.
  abbrev pub IsStalled : List Move → Type 0
  IsStalled h = (th : ℕ) × (IsChosen h th × IsIdle s h th)

  abbrev Knows : List Move → Watch → Type 0
  Knows h (loaded_threshold th) = IsLoaded th
  Knows h (no_task_open th) = IsLoaded th × NoneOpen s h
  Knows h (loaded_fast th fast) = IsLoaded th × (NoneOpen s h × (fast ≡ s.fast_threshold_ms))
  Knows h (chosen th) = IsChosen h th
  Knows h (read_clock th now) = IsChosen h th × Memᴰ now (clocks h)
  Knows h (read_last th last) =
      IsChosen h th × ((t : Moment s h) × (last ≡ last_at s.last_ms t.by_then))
  Knows h declaring = IsStalled h
  Knows h (finished true) = IsStalled h
  Knows h _ = Unit
