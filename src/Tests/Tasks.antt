-- ===== src/Tests/Tasks.antt =====
-- The scheduler, at concrete inputs.
use mycat_js.Prelude.{arith, ◌≢◌, [], ◌≡◌, ◌≤◌, refl, pos, true, false, some, get_elem?}
use mycat_js.Sql.Words.{codes}
use mycat_js.Util.Scheduler.{
  Timer, fire, on_timer, Scheduler, new_scheduler, with_timeout, timeout_of, interval_of, has_task,
  cancel, begin_cancel, finish_first, shutdown, forget, lookup, put, schedule,
}
use mycat_js.Util.Scheduler.Steps.{Step, fires, Reachable, starts, steps, schedules}
use mycat_js.Util.Scheduler.Alone.{running_once}
use mycat_js.Util.Scheduler.Cancelled.{cancel_frees}
use mycat_js.Util.Scheduler.Leftover.{AtWork, cancelled_comes_back, cancel_leaves_interval}
use mycat_js.Sql.Chars.{Text}
use mycat_js.Backend.Source.{same_text}

-- A scheduler with a periodic task.
abbrev with_beat : Scheduler
with_beat = with_timeout (new_scheduler false) (codes "beat") true

with_beat-Reachable : Reachable false with_beat
unfolding schedule new_scheduler has_task lookup
with_beat-Reachable =
    steps false (new_scheduler false) with_beat (starts false)
      (schedules (new_scheduler false) (codes "beat") true (pos 5) (some (pos 10)) with_beat refl)

abbrev beat_timer : Timer
beat_timer = timeout_of (codes "beat") true

running_once_example : (timeout_of (codes "beat") true).running ≤ 1
unfolding new_scheduler
running_once_example =
    running_once with_beat 0 (timeout_of (codes "beat") true) with_beat-Reachable refl

cancel_frees_example :
    ((cancel with_beat (codes "beat")).0 ≡ has_task with_beat (codes "beat"))
    × (has_task (cancel with_beat (codes "beat")).1 (codes "beat") ≡ false)
    × (has_task (cancel with_beat (codes "beat")).1 (codes "tick")
        ≡ has_task with_beat (codes "tick"))
unfolding same_text
cancel_frees_example =
    cancel_frees false with_beat (codes "beat") (codes "tick") with_beat-Reachable refl

-- Its first call is at work.
abbrev at_beat : Scheduler
at_beat = fire with_beat 0

at_beat-Reachable : Reachable false at_beat
unfolding new_scheduler
at_beat-Reachable =
    steps false with_beat at_beat with_beat-Reachable (fires with_beat 0 beat_timer refl refl)

abbrev started_timer : Timer
started_timer = record beat_timer { armed = false; running = 1 }

at_beat-AtWork : AtWork at_beat 0 (codes "beat")
unfolding fire on_timer new_scheduler
at_beat-AtWork = record {
  timer = started_timer;
  there = refl;
  named = refl;
  first = refl;
  periodic = refl;
  running = omega arith;
}

cancelled_comes_back_example :
    let s1 = (cancel at_beat (codes "beat")).1 in
    let s2 = finish_first s1 0 (codes "beat") true in
    let c1 = shutdown at_beat in
    let c2 = finish_first c1 0 (codes "beat") true in
    (has_task s1 (codes "beat") ≡ false)
    × Step s1 s2
    × (has_task s2 (codes "beat") ≡ true)
    × (c1.closed ≡ true)
    × (c1.timers ≡ [])
    × Step c1 c2
    × (has_task c2 (codes "beat") ≡ true)
unfolding lookup put new_scheduler same_text fire
cancelled_comes_back_example =
    cancelled_comes_back false at_beat (codes "beat") 0 at_beat-Reachable refl at_beat-AtWork

cancel_leaves_interval_example :
    let s' =
      forget
        (finish_first (begin_cancel at_beat (codes "beat")).1 0 (codes "beat") true)
        (codes "beat") in
    Reachable false s'
    × (get_elem? s'.all 1 ≡ some (interval_of (codes "beat")))
    × ((other : Text) → lookup other s'.timers ≢ some 1)
unfolding lookup put new_scheduler same_text fire on_timer
cancel_leaves_interval_example =
    cancel_leaves_interval false at_beat (codes "beat") 0 at_beat-Reachable refl at_beat-AtWork
