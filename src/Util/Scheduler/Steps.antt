-- ===== src/Util/Scheduler/Steps.antt =====
-- The steps of a scheduler of util/scheduler.js, and the states that they reach.
use mycat_js.Prelude.{ℕ, ◌≡◌, ◌<◌, ℤ, Bool, true, false, Option, some, ok, get_elem?}
use mycat_js.Sql.Chars.{Text}
use mycat_js.Util.Scheduler.{
  Timer, Scheduler, new_scheduler, schedule, fire, finish_first, finish_tick, forget, begin_cancel,
  cancel, cancel_all, shutdown,
}

-- What happens to a scheduler. The runtime calls armed timers; a call ends after it started; a
-- `cancel` that waits is two steps.
pub data Step : Scheduler → Scheduler → Type 0 where
  schedules :
      (s : Scheduler) (name : Text) (runnable : Bool) (delay : ℤ) (period : Option ℤ)
      (s' : Scheduler)
      → schedule s name runnable delay period ≡ ok s'
      → Step s s'
  fires :
      (s : Scheduler) (t : ℕ) (x : Timer)
      → get_elem? s.all t ≡ some x
      → x.armed ≡ true
      → Step s (fire s t)
  ends_first :
      (s : Scheduler) (t : ℕ) (x : Timer)
      → get_elem? s.all t ≡ some x
      → x.interval ≡ false
      → 0 < x.running
      → Step s (finish_first s t x.name x.periodic)
  ends_tick :
      (s : Scheduler) (t : ℕ) (x : Timer)
      → get_elem? s.all t ≡ some x
      → x.interval ≡ true
      → 0 < x.running
      → Step s (finish_tick s t)
  cancels : (s : Scheduler) (name : Text) → Step s (cancel s name).1
  begins_cancel : (s : Scheduler) (name : Text) → Step s (begin_cancel s name).1
  ends_cancel : (s : Scheduler) (name : Text) → Step s (forget s name)
  cancels_all : (s : Scheduler) → Step s (cancel_all s)
  shuts_down : (s : Scheduler) → Step s (shutdown s)

pub data Reachable : Bool → Scheduler → Type 0 where
  starts : (concur : Bool) → Reachable concur (new_scheduler concur)
  steps : (concur : Bool) (s s' : Scheduler) → Reachable concur s → Step s s' → Reachable concur s'
