-- ===== src/Util/Scheduler/Alone.antt =====
-- A scheduler that is not concurrent never has two calls of a task's interval at work.
use mycat_js.Prelude.{
  ℕ, zero, suc, ◌≡◌, ◌≤◌, refl, ℤ, Bool, true, false, List, [], ◌∷◌, ◌++◌, Option, none, some, ok,
  get_elem?, arith, Bool-cases, inl, inr,
}
use mycat_js.Sql.Chars.{Text}
use mycat_js.Util.Scheduler.{
  Timer, Scheduler, new_scheduler, schedule, refuses, with_timeout, is_periodic, timeout_of,
  interval_of, on_timer, start_call, fire, finish_first, finish_tick, clear_timer, forget,
  begin_cancel, begin_found, cancel, cancel_found, clear_all, cancel_all, shutdown, lookup,
}
use mycat_js.Util.Scheduler.Steps.{
  Step, schedules, fires, ends_first, ends_tick, cancels, begins_cancel, ends_cancel, cancels_all,
  shuts_down, Reachable, starts, steps,
}

-- One call at most, and none where the next may start.
abbrev Calm : Timer → Type 0
Calm x = (x.running ≤ 1) × (x.interval ≡ true → x.fin ≡ true → x.running ≡ 0)

abbrev AllCalm : List Timer → Type 0
AllCalm [] = Unit {0}
AllCalm (x ∷ xs) = Calm x × AllCalm xs

on_timer-Calm :
    (xs : List Timer) (t : ℕ) (f : Timer → Timer)
    → ((x : Timer) → Calm x → Calm (f x))
    → AllCalm xs
    → AllCalm (on_timer xs t f)
unfolding on_timer
on_timer-Calm [] t f h w = tt
on_timer-Calm (x ∷ xs) zero f h w = (h x w.0, w.1)
on_timer-Calm (x ∷ xs) (suc t) f h w = (w.0, on_timer-Calm xs t f h w.1)

append-Calm : (xs : List Timer) (x : Timer) → Calm x → AllCalm xs → AllCalm (xs ++ x ∷ [])
append-Calm [] x h w = (h, tt)
append-Calm (y ∷ ys) x h w = (w.0, append-Calm ys x h w.1)

get_elem?-Calm :
    (xs : List Timer) (t : ℕ) {x : Timer} → AllCalm xs → get_elem? xs t ≡ some x → Calm x
get_elem?-Calm [] t w h = cc
get_elem?-Calm (y ∷ ys) zero {x} w h = let same : y ≡ x = cc h in rw⁻¹ same w.0
get_elem?-Calm (y ∷ ys) (suc t) w h = get_elem?-Calm ys t w.1 h

-- Where a scheduler is not concurrent.
abbrev Alone : Scheduler → Type 0
Alone s = (s.concur ≡ false) × AllCalm s.all

clear_timer-Alone : (s : Scheduler) (t : ℕ) → Alone s → Alone (clear_timer s t)
unfolding clear_timer
clear_timer-Alone s t w = (w.0, on_timer-Calm s.all t _ (λ x c. c) w.1)

clear_all-Alone : (s : Scheduler) (ts : List (Text × ℕ)) → Alone s → Alone (clear_all s ts)
unfolding clear_all
clear_all-Alone s [] w = w
clear_all-Alone s (k ∷ ts) w = clear_all-Alone (clear_timer s k.1) ts (clear_timer-Alone s k.1 w)

start_call-Calm :
    (name : Text) (periodic interval armed fin : Bool) (running : ℕ)
    → Calm (record {
      name = name;
      periodic = periodic;
      interval = interval;
      armed = armed;
      fin = fin;
      running = running;
    })
    → Calm (
        start_call false (record {
          name = name;
          periodic = periodic;
          interval = interval;
          armed = armed;
          fin = fin;
          running = running;
        }))
start_call-Calm name periodic false armed fin running c = (omega arith, λ i f. cc)
start_call-Calm name periodic true armed true running c =
    let none_running : running ≡ 0 = c.1 refl refl in (omega arith, λ i f. cc)
start_call-Calm name periodic true armed false running c = c

fire-Alone : (s : Scheduler) (t : ℕ) → Alone s → Alone (fire s t)
unfolding fire
fire-Alone s t w = (
  w.0,
  rw (w.0) (
      on_timer-Calm s.all t (start_call false)
        (λ x c. start_call-Calm x.name x.periodic x.interval x.armed x.fin x.running c) w.1),
)

finish_first-Alone :
    (s : Scheduler) (t : ℕ) (name : Text) (periodic : Bool)
    → Alone s
    → Alone (finish_first s t name periodic)
unfolding finish_first
finish_first-Alone s t name true w = (
  w.0,
  append-Calm _ (interval_of name) (omega arith, λ i f. refl)
      (on_timer-Calm s.all t _ (λ x c. (omega arith, λ i f. refl)) w.1),
)
finish_first-Alone s t name false w =
    (w.0, on_timer-Calm s.all t _ (λ x c. (omega arith, λ i f. refl)) w.1)

finish_tick-Alone : (s : Scheduler) (t : ℕ) → Alone s → Alone (finish_tick s t)
unfolding finish_tick
finish_tick-Alone s t w =
    (w.0, on_timer-Calm s.all t _ (λ x c. (omega (arith, c.0), λ i f. omega (arith, c.0))) w.1)

begin_found-Alone : (s : Scheduler) (o : Option ℕ) → Alone s → Alone (begin_found s o).1
unfolding begin_found
begin_found-Alone s none w = w
begin_found-Alone s (some t) w = clear_timer-Alone s t w

cancel_found-Alone :
    (s : Scheduler) (name : Text) (o : Option ℕ) → Alone s → Alone (cancel_found s name o).1
unfolding cancel_found forget
cancel_found-Alone s name none w = w
cancel_found-Alone s name (some t) w = clear_timer-Alone s t w

schedule-Alone :
    (s : Scheduler) (name : Text) (runnable : Bool) (delay : ℤ) (period : Option ℤ) {s' : Scheduler}
    → schedule s name runnable delay period ≡ ok s'
    → Alone s
    → Alone s'
unfolding schedule
schedule-Alone s name runnable delay period {s'} h w =
    elim (Bool-cases (refuses s name runnable delay period)) [
      | inl e ↦ absurd (cc (rw e at h))
      | inr e ↦
          (let same : s' ≡ with_timeout s name (is_periodic period) = cc (rw e at h) in
            rw (same) (
              w.0,
              append-Calm s.all (timeout_of name (is_periodic period)) (omega arith, λ i f. refl)
                  w.1,
            ))
    ]

Step-Alone : {s s' : Scheduler} → Step s s' → Alone s → Alone s'
unfolding forget begin_cancel cancel cancel_all shutdown
Step-Alone (schedules s name runnable delay period s' h) w =
    schedule-Alone s name runnable delay period h w
Step-Alone (fires s t x h armed) w = fire-Alone s t w
Step-Alone (ends_first s t x h first running) w = finish_first-Alone s t x.name x.periodic w
Step-Alone (ends_tick s t x h first running) w = finish_tick-Alone s t w
Step-Alone (cancels s name) w = cancel_found-Alone s name (lookup name s.timers) w
Step-Alone (begins_cancel s name) w = begin_found-Alone s (lookup name s.timers) w
Step-Alone (ends_cancel s name) w = w
Step-Alone (cancels_all s) w = clear_all-Alone s s.timers w
Step-Alone (shuts_down s) w = clear_all-Alone (record s { closed = true }) s.timers w

Reachable-Alone : (concur : Bool) (s : Scheduler) → Reachable concur s → concur ≡ false → Alone s
unfolding new_scheduler
Reachable-Alone concur s (starts c) e = (e, tt)
Reachable-Alone concur s (steps c before after r step) e =
    Step-Alone step (Reachable-Alone c before r e)

-- In a scheduler that is not concurrent, whatever is scheduled, called, ended or cancelled, in
-- whatever order, no timer ever has more than one call at work.
pub running_once :
    (s : Scheduler) (t : ℕ) (x : Timer)
    → Reachable false s
    → get_elem? s.all t ≡ some x
    → x.running ≤ 1
running_once s t x r h = (get_elem?-Calm s.all t (Reachable-Alone false s r refl).1 h).0
