-- ===== src/Util/Scheduler.antt =====
-- The class Scheduler of util/scheduler.js, and the timers that the runtime calls.
pub mod Steps
pub mod Alone
pub mod Names
pub mod Cancelled
pub mod Made
pub mod Leftover
use mycat_js.Prelude.{
  ℕ, zero, suc, ◌+◌, ◌-◌, ◌≡◌, ℤ, pos, negsuc, Bool, true, false, not, ◌||◌, ◌&&◌, List, [], ◌∷◌,
  ◌++◌, Option, none, some, if◌then◌else◌, Result, ok, err, plain_error, length, get_elem?, get_or,
  set,
}
use mycat_js.Sql.Chars.{Text}
use mycat_js.Backend.Source.{same_text}

-- A timer, `tm`, with what its callback closes over. `armed` says that the runtime still calls it;
-- `running` is the length of `_cos`, the calls that have not ended.
pub record Timer : Type 0 where
  pub name : Text
  pub periodic : Bool
  pub interval : Bool
  pub armed : Bool
  pub fin : Bool
  pub running : ℕ

-- `#timers` maps a name to a timer, which is a place in `all`, the timers ever made.
pub record Scheduler : Type 0 where
  pub timers : List (Text × ℕ)
  pub closed : Bool
  pub concur : Bool
  pub all : List Timer

unfoldable pub new_scheduler : Bool → Scheduler
new_scheduler concur = record { timers = []; closed = false; concur = concur; all = [] }

unfoldable pub lookup : Text → List (Text × ℕ) → Option ℕ
lookup name [] = none
lookup name ((key, t) ∷ rest) =
    let later = lookup name rest in if same_text key name then some t else later

-- Map.set, which keeps the place of a name that is there.
unfoldable pub put : Text → ℕ → List (Text × ℕ) → List (Text × ℕ)
put name t [] = (name, t) ∷ []
put name t ((key, u) ∷ rest) =
    let later = put name t rest in if same_text key name then (key, t) ∷ rest else (key, u) ∷ later

-- Map.delete
unfoldable pub delete : Text → List (Text × ℕ) → List (Text × ℕ)
delete name [] = []
delete name ((key, u) ∷ rest) =
    let later = delete name rest in if same_text key name then rest else (key, u) ∷ later

abbrev pub is_some : Option ℕ → Bool
is_some none = false
is_some (some t) = true

unfoldable pub has_task : Scheduler → Text → Bool
has_task s name = is_some (lookup name s.timers)

unfoldable pub task_count : Scheduler → ℕ
task_count s = length s.timers

abbrev pub is_negative : ℤ → Bool
is_negative (pos n) = false
is_negative (negsuc n) = true

abbrev period_negative : Option ℤ → Bool
period_negative none = false
period_negative (some period) = is_negative period

abbrev pub is_periodic : Option ℤ → Bool
is_periodic none = false
is_periodic (some period) = true

abbrev pub timeout_of : Text → Bool → Timer
timeout_of name periodic = record {
  name = name;
  periodic = periodic;
  interval = false;
  armed = true;
  fin = true;
  running = 0;
}

abbrev pub interval_of : Text → Timer
interval_of name = record {
  name = name;
  periodic = true;
  interval = true;
  armed = true;
  fin = true;
  running = 0;
}

-- What `schedule` throws for. `runnable` says that the task is a function or has a method `run`.
abbrev pub refuses : Scheduler → Text → Bool → ℤ → Option ℤ → Bool
refuses s name runnable init_delay period =
    s.closed || has_task s name || not runnable || is_negative init_delay || period_negative period

abbrev pub with_timeout : Scheduler → Text → Bool → Scheduler
with_timeout s name periodic = record s {
  timers = put name (length s.all) s.timers;
  all = s.all ++ timeout_of name periodic ∷ [];
}

-- `schedule`, for delays that are integers.
unfoldable pub schedule : Scheduler → Text → Bool → ℤ → Option ℤ → Result Scheduler
schedule s name runnable init_delay period =
    if refuses s name runnable init_delay period
    then err plain_error
    else ok (with_timeout s name (is_periodic period))

unfoldable pub delay : Scheduler → Text → Bool → ℤ → Result Scheduler
delay s name runnable wait = schedule s name runnable wait none

-- A timer changes in its place.
unfoldable pub on_timer : List Timer → ℕ → (Timer → Timer) → List Timer
on_timer [] t f = []
on_timer (x ∷ xs) zero f = f x ∷ xs
on_timer (x ∷ xs) (suc t) f = x ∷ on_timer xs t f

abbrev start_first : Timer → Timer
start_first x = record x { armed = false; running = 1 }

-- An interval's call starts unless one is running; a concurrent scheduler's always does.
abbrev start_tick : Bool → Timer → Timer
start_tick concur x =
    if x.fin || concur then record x { fin = false; running = x.running + 1 } else x

abbrev start_call : Bool → Timer → Timer
start_call concur x = if x.interval then start_tick concur x else start_first x

-- The runtime calls the timer: the part of the callback before the task.
unfoldable pub fire : Scheduler → ℕ → Scheduler
fire s t = record s { all = on_timer s.all t (start_call s.concur) }

-- The `finally` of the first call: an interval takes the timer's place, or the name is free.
unfoldable pub finish_first : Scheduler → ℕ → Text → Bool → Scheduler
finish_first s t name periodic =
    let ended = on_timer s.all t (λ x. record x { running = 0 }) in
    if periodic
    then record s {
      timers = put name (length s.all) s.timers;
      all = ended ++ interval_of name ∷ [];
    }
    else record s { timers = delete name s.timers; all = ended }

-- The `finally` of an interval's call.
unfoldable pub finish_tick : Scheduler → ℕ → Scheduler
finish_tick s t = record s {
  all = on_timer s.all t (λ x. record x { fin = true; running = x.running - 1 });
}

-- clearTimeout and clearInterval
unfoldable pub clear_timer : Scheduler → ℕ → Scheduler
clear_timer s t = record s { all = on_timer s.all t (λ x. record x { armed = false }) }

unfoldable pub forget : Scheduler → Text → Scheduler
forget s name = record s { timers = delete name s.timers }

-- `cancel` up to the wait for the calls that are running, by what the map has.
begin_found : Scheduler → Option ℕ → Bool × Scheduler
begin_found s none = (false, s)
begin_found s (some t) = (true, clear_timer s t)

unfoldable pub begin_cancel : Scheduler → Text → Bool × Scheduler
unfolding begin_found
begin_cancel s name = begin_found s (lookup name s.timers)

-- `cancel` that does not wait.
cancel_found : Scheduler → Text → Option ℕ → Bool × Scheduler
cancel_found s name none = (false, s)
cancel_found s name (some t) = (true, forget (clear_timer s t) name)

unfoldable pub cancel : Scheduler → Text → Bool × Scheduler
unfolding cancel_found
cancel s name = cancel_found s name (lookup name s.timers)

clear_all : Scheduler → List (Text × ℕ) → Scheduler
clear_all s [] = s
clear_all s ((name, t) ∷ rest) = clear_all (clear_timer s t) rest

-- `cancelAll` and `shutdown`, where they do not wait.
unfoldable pub cancel_all : Scheduler → Scheduler
unfolding clear_all
cancel_all s = record (clear_all s s.timers) { timers = [] }

unfoldable pub shutdown : Scheduler → Scheduler
shutdown s = cancel_all (record s { closed = true })
