-- ===== src/Util/Scheduler/Cancelled.antt =====
-- What a name of util/scheduler.js stands for once its task is cancelled.
use mycat_js.Prelude.{
  ℕ, ◌≡◌, refl, ap, ℤ, Bool, true, false, Option, none, some, ok, length, Bool-cases, inl, inr,
}
use mycat_js.Sql.Chars.{Text}
use mycat_js.Backend.Source.{same_text}
use mycat_js.Util.Scheduler.{
  Scheduler, new_scheduler, schedule, refuses, with_timeout, is_periodic, has_task, is_some, fire,
  finish_first, finish_tick, clear_timer, forget, begin_cancel, begin_found, cancel, cancel_found,
  cancel_all, shutdown, lookup,
}
use mycat_js.Util.Scheduler.Steps.{
  Step, schedules, fires, ends_first, ends_tick, cancels, begins_cancel, ends_cancel, cancels_all,
  shuts_down, Reachable, starts, steps,
}
use mycat_js.Util.Scheduler.Names.{
  Distinct, put-Distinct, delete-Distinct, delete-frees, lookup-delete_other,
}

schedule-Distinct :
    (s : Scheduler) (name : Text) (runnable : Bool) (delay : ℤ) (period : Option ℤ) {s' : Scheduler}
    → schedule s name runnable delay period ≡ ok s'
    → Distinct s.timers
    → Distinct s'.timers
unfolding schedule
schedule-Distinct s name runnable delay period {s'} h w =
    elim (Bool-cases (refuses s name runnable delay period)) [
      | inl e ↦ absurd (cc (rw e at h))
      | inr e ↦
          (let same : s' ≡ with_timeout s name (is_periodic period) = cc (rw e at h) in
            rw (same) (put-Distinct name (length s.all) s.timers w))
    ]

finish_first-Distinct :
    (s : Scheduler) (t : ℕ) (name : Text) (periodic : Bool)
    → Distinct s.timers
    → Distinct (finish_first s t name periodic).timers
unfolding finish_first
finish_first-Distinct s t name true w = put-Distinct name (length s.all) s.timers w
finish_first-Distinct s t name false w = delete-Distinct name s.timers w

begin_found-Distinct :
    (s : Scheduler) (o : Option ℕ) → Distinct s.timers → Distinct (begin_found s o).1.timers
unfolding begin_found clear_timer
begin_found-Distinct s none w = w
begin_found-Distinct s (some t) w = w

cancel_found-Distinct :
    (s : Scheduler) (name : Text) (o : Option ℕ)
    → Distinct s.timers
    → Distinct (cancel_found s name o).1.timers
unfolding cancel_found forget clear_timer
cancel_found-Distinct s name none w = w
cancel_found-Distinct s name (some t) w = delete-Distinct name s.timers w

Step-Distinct : {s s' : Scheduler} → Step s s' → Distinct s.timers → Distinct s'.timers
unfolding fire finish_tick forget begin_cancel cancel cancel_all shutdown
Step-Distinct (schedules s name runnable delay period s' h) w =
    schedule-Distinct s name runnable delay period h w
Step-Distinct (fires s t x h armed) w = w
Step-Distinct (ends_first s t x h first running) w = finish_first-Distinct s t x.name x.periodic w
Step-Distinct (ends_tick s t x h first running) w = w
Step-Distinct (cancels s name) w = cancel_found-Distinct s name (lookup name s.timers) w
Step-Distinct (begins_cancel s name) w = begin_found-Distinct s (lookup name s.timers) w
Step-Distinct (ends_cancel s name) w = delete-Distinct name s.timers w
Step-Distinct (cancels_all s) w = tt
Step-Distinct (shuts_down s) w = tt

pub Reachable-Distinct : {concur : Bool} {s : Scheduler} → Reachable concur s → Distinct s.timers
unfolding new_scheduler
Reachable-Distinct (starts c) = tt
Reachable-Distinct (steps c before after r step) = Step-Distinct step (Reachable-Distinct r)

cancel_found_lem :
    (s : Scheduler) (name other : Text) (o : Option ℕ)
    → Distinct s.timers
    → lookup name s.timers ≡ o
    → ((cancel_found s name o).0 ≡ is_some o)
      × (lookup name (cancel_found s name o).1.timers ≡ none)
      × (same_text name other ≡ false
          → lookup other (cancel_found s name o).1.timers ≡ lookup other s.timers)
unfolding cancel_found forget clear_timer
cancel_found_lem s name other none w h = (refl, h, λ differs. refl)
cancel_found_lem s name other (some t) w h =
    (refl, delete-frees name s.timers w, λ differs. lookup-delete_other name other s.timers differs)

-- In a state that a scheduler reaches, `cancel` without waiting answers whether there was a task
-- of the name, and leaves none; the tasks of other names stay.
pub cancel_frees :
    (concur : Bool) (s : Scheduler) (name other : Text)
    → Reachable concur s
    → same_text name other ≡ false
    → ((cancel s name).0 ≡ has_task s name)
      × (has_task (cancel s name).1 name ≡ false)
      × (has_task (cancel s name).1 other ≡ has_task s other)
unfolding cancel has_task
cancel_frees concur s name other r differs =
    let (answer, free, others) =
      cancel_found_lem s name other (lookup name s.timers) (Reachable-Distinct r) refl in
    (answer, ap is_some free, ap is_some (others differs))
