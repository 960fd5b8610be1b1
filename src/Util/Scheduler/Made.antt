-- ===== src/Util/Scheduler/Made.antt =====
-- The names of util/scheduler.js lead to timers that were made.
use mathlib.Core.Option.{some-injective}
use mycat_js.Prelude.{
  ◌-◌, ℕ, zero, suc, ◌+◌, ◌<◌, ◌≤◌, ◌≡◌, ◌≢◌, refl, ap, ◌∙◌, ℤ, Bool, true, false, List, [], ◌∷◌,
  ◌++◌, Option, none, some, ok, length, length-append, Bool-cases, inl, inr, arith, if◌then◌else◌,
}
use mycat_js.Sql.Chars.{Text}
use mycat_js.Backend.Source.{same_text}
use mycat_js.Util.Scheduler.{
  Timer, Scheduler, new_scheduler, schedule, refuses, with_timeout, is_periodic, interval_of,
  on_timer, fire, finish_first, finish_tick, clear_timer, forget, begin_cancel, begin_found, cancel,
  cancel_found, cancel_all, shutdown, put, lookup, delete, timeout_of, start_call,
}
use mycat_js.Util.Scheduler.Steps.{
  Step, schedules, fires, ends_first, ends_tick, cancels, begins_cancel, ends_cancel, cancels_all,
  shuts_down, Reachable, starts, steps,
}
use mycat_js.Util.Scheduler.Names.{same_text_eq}

-- Each name stands for a timer that was made.
abbrev pub Below : ℕ → List (Text × ℕ) → Type 0
Below n [] = Unit {0}
Below n ((key, t) ∷ rest) = (t < n) × Below n rest

Below-mono : (n m : ℕ) (ts : List (Text × ℕ)) → n ≤ m → Below n ts → Below m ts
Below-mono n m [] h w = tt
Below-mono n m ((key, t) ∷ rest) h w = (omega (arith, w.0), Below-mono n m rest h w.1)

put-Below :
    (n t : ℕ) (name : Text) (ts : List (Text × ℕ)) → t < n → Below n ts → Below n (put name t ts)
unfolding put
put-Below n t name [] h w = (h, tt)
put-Below n t name ((k, u) ∷ rest) h w = elim (Bool-cases (same_text k name)) [
  | inl e ↦ rw e (h, w.1)
  | inr e ↦ rw e (w.0, put-Below n t name rest h w.1)
]

delete-Below : (n : ℕ) (name : Text) (ts : List (Text × ℕ)) → Below n ts → Below n (delete name ts)
unfolding delete
delete-Below n name [] w = tt
delete-Below n name ((k, u) ∷ rest) w = elim (Bool-cases (same_text k name)) [
  | inl e ↦ rw e w.1
  | inr e ↦ rw e (w.0, delete-Below n name rest w.1)
]

pub lookup-Below :
    (n : ℕ) (name : Text) (ts : List (Text × ℕ)) → Below n ts → lookup name ts ≢ some n
unfolding lookup
lookup-Below n name [] w h = cc
lookup-Below n name ((k, u) ∷ rest) w h = elim (Bool-cases (same_text k name)) [
  | inl e ↦ (let same : u ≡ n = some-injective u n (rw e at h) in absurd (omega (arith, same, w.0)))
  | inr e ↦ lookup-Below n name rest w.1 (rw e at h)
]

pub lookup-put_other :
    (name other : Text) (t : ℕ) (ts : List (Text × ℕ))
    → same_text name other ≡ false
    → lookup other (put name t ts) ≡ lookup other ts
unfolding lookup put
lookup-put_other name other t [] h = rw h refl
lookup-put_other name other t ((k, u) ∷ rest) h = elim (Bool-cases (same_text k name)) [
  | inl e ↦
      (let differs : same_text k other ≡ false =
          ap (λ n. same_text n other) (same_text_eq k name e) ∙ h in
        rw (e, differs) refl)
  | inr e ↦
      rw e
        (ap (λ o. if same_text k other then some u else o) (lookup-put_other name other t rest h))
]

pub on_timer-length :
    (xs : List Timer) (t : ℕ) (f : Timer → Timer) → length (on_timer xs t f) ≡ length xs
unfolding on_timer
on_timer-length [] t f = refl
on_timer-length (x ∷ xs) zero f = refl
on_timer-length (x ∷ xs) (suc t) f = ap suc (on_timer-length xs t f)

-- The map leads to timers that were made.
abbrev pub IsBelow : Scheduler → Type 0
IsBelow s = Below (length s.all) s.timers

pub clear_timer-length : (s : Scheduler) (t : ℕ) → length (clear_timer s t).all ≡ length s.all
unfolding clear_timer
clear_timer-length s t = on_timer-length s.all t _

begin_found-IsBelow : (s : Scheduler) (o : Option ℕ) → IsBelow s → IsBelow (begin_found s o).1
unfolding begin_found clear_timer
begin_found-IsBelow s none w = w
begin_found-IsBelow s (some t) w = rw (clear_timer-length s t) w

cancel_found-IsBelow :
    (s : Scheduler) (name : Text) (o : Option ℕ) → IsBelow s → IsBelow (cancel_found s name o).1
unfolding cancel_found forget clear_timer
cancel_found-IsBelow s name none w = w
cancel_found-IsBelow s name (some t) w =
    rw (clear_timer-length s t) (delete-Below (length s.all) name s.timers w)

finish_first-IsBelow :
    (s : Scheduler) (t : ℕ) (name : Text) (periodic : Bool)
    → IsBelow s
    → IsBelow (finish_first s t name periodic)
unfolding finish_first
finish_first-IsBelow s t name true w = rw (length_ended) (
    put-Below (length s.all + 1) (length s.all) name s.timers (omega arith)
      (Below-mono (length s.all) (length s.all + 1) s.timers (omega arith) w))
  where
    ended : List Timer
    ended = on_timer s.all t (λ x. record x { running = 0 })

    length_ended : length (ended ++ interval_of name ∷ []) ≡ length s.all + 1
    length_ended =
        length-append ended (interval_of name ∷ [])
        ∙ ap (◌+ 1) (on_timer-length s.all t (λ x. record x { running = 0 }))
finish_first-IsBelow s t name false w =
    rw (on_timer-length s.all t (λ x. record x { running = 0 }))
      (delete-Below (length s.all) name s.timers w)

schedule-IsBelow :
    (s : Scheduler) (name : Text) (runnable : Bool) (delay : ℤ) (period : Option ℤ) {s' : Scheduler}
    → schedule s name runnable delay period ≡ ok s'
    → IsBelow s
    → IsBelow s'
unfolding schedule
schedule-IsBelow s name runnable delay period {s'} h w =
    elim (Bool-cases (refuses s name runnable delay period)) [
      | inl e ↦ absurd (cc (rw e at h))
      | inr e ↦
          (let same : s' ≡ with_timeout s name (is_periodic period) = cc (rw e at h) in
            rw (same, length-append s.all (timeout_of name (is_periodic period) ∷ []))
              (put-Below (length s.all + 1) (length s.all) name s.timers (omega arith)
                (Below-mono (length s.all) (length s.all + 1) s.timers (omega arith) w)))
    ]

Step-IsBelow : {s s' : Scheduler} → Step s s' → IsBelow s → IsBelow s'
unfolding fire finish_tick forget begin_cancel cancel cancel_all shutdown
Step-IsBelow (schedules s name runnable delay period s' h) w =
    schedule-IsBelow s name runnable delay period h w
Step-IsBelow (fires s t x h armed) w = rw (on_timer-length s.all t (start_call s.concur)) w
Step-IsBelow (ends_first s t x h first running) w = finish_first-IsBelow s t x.name x.periodic w
Step-IsBelow (ends_tick s t x h first running) w =
    rw (on_timer-length s.all t (λ x. record x { fin = true; running = x.running - 1 })) w
Step-IsBelow (cancels s name) w = cancel_found-IsBelow s name (lookup name s.timers) w
Step-IsBelow (begins_cancel s name) w = begin_found-IsBelow s (lookup name s.timers) w
Step-IsBelow (ends_cancel s name) w = delete-Below (length s.all) name s.timers w
Step-IsBelow (cancels_all s) w = tt
Step-IsBelow (shuts_down s) w = tt

pub Reachable-IsBelow : {concur : Bool} {s : Scheduler} → Reachable concur s → IsBelow s
unfolding new_scheduler
Reachable-IsBelow (starts c) = tt
Reachable-IsBelow (steps c before after r step) = Step-IsBelow step (Reachable-IsBelow r)
