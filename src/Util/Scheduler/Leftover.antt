-- ===== src/Util/Scheduler/Leftover.antt =====
-- What util/scheduler.js leaves of a periodic task that is cancelled during its first call.
use mathlib.Core.Option.{some-injective}
use mycat_js.Prelude.{
  ℕ, zero, suc, ◌<◌, ◌≡◌, ◌≢◌, refl, sym, ap, ◌∙◌, Bool, true, false, List, [], ◌∷◌, ◌++◌, none,
  some, length, get_elem?, Bool-cases, inl, inr,
}
use mycat_js.Sql.Chars.{Text}
use mycat_js.Backend.Source.{same_text}
use mycat_js.Util.Scheduler.{
  Timer, Scheduler, has_task, is_some, interval_of, on_timer, finish_first, clear_timer, forget,
  begin_cancel, begin_found, cancel, cancel_found, cancel_all, clear_all, shutdown, put, lookup,
  delete,
}
use mycat_js.Util.Scheduler.Steps.{Step, ends_first, begins_cancel, ends_cancel, Reachable, steps}
use mycat_js.Util.Scheduler.Names.{
  Distinct, put-Distinct, lookup-put, delete-frees, lookup-delete_other, same_text_eq,
}
use mycat_js.Util.Scheduler.Cancelled.{Reachable-Distinct}
use mycat_js.Util.Scheduler.Made.{
  IsBelow, lookup-Below, lookup-put_other, on_timer-length, clear_timer-length, Reachable-IsBelow,
}

-- A call of a timer that has not ended, for a periodic task.
pub record AtWork (s : Scheduler) (t : ℕ) (name : Text) : Type 0 where
  pub timer : Timer
  pub there : get_elem? s.all t ≡ some timer
  pub named : timer.name ≡ name
  pub first : timer.interval ≡ false
  pub periodic : timer.periodic ≡ true
  pub running : 0 < timer.running

-- Only the timers count.
AtWork-same :
    (s s' : Scheduler) (t : ℕ) (name : Text) → s'.all ≡ s.all → AtWork s t name → AtWork s' t name
AtWork-same s s' t name same w = record {
  timer = w.timer;
  there = rw same w.there;
  named = w.named;
  first = w.first;
  periodic = w.periodic;
  running = w.running;
}

-- The call goes on when timers are cleared.
disarm_keeps :
    (xs : List Timer) (t u : ℕ) (x : Timer)
    → get_elem? xs t ≡ some x
    → (y : Timer) × (get_elem? (on_timer xs u (λ z. record z { armed = false })) t ≡ some y)
      × (y ≡ record x { armed = y.armed })
unfolding on_timer
disarm_keeps [] t u x h = absurd (cc h)
disarm_keeps (z ∷ zs) zero zero x h = (
  record z { armed = false },
  refl,
  ap (λ (o : Timer). record o { armed = false }) (some-injective z x h),
)
disarm_keeps (z ∷ zs) zero (suc u) x h =
    (z, refl, ap (λ (o : Timer). record o { armed = z.armed }) (some-injective z x h))
disarm_keeps (z ∷ zs) (suc t) zero x h = (x, h, refl)
disarm_keeps (z ∷ zs) (suc t) (suc u) x h = disarm_keeps zs t u x h

clear_timer-AtWork :
    (s : Scheduler) (t u : ℕ) (name : Text) → AtWork s t name → AtWork (clear_timer s u) t name
unfolding clear_timer
clear_timer-AtWork s t u name w =
    let (y, there, same) = disarm_keeps s.all t u w.timer w.there in
    record {
      timer = y;
      there = there;
      named = ap (λ z. z.name) same ∙ w.named;
      first = ap (λ z. z.interval) same ∙ w.first;
      periodic = ap (λ z. z.periodic) same ∙ w.periodic;
      running = rw (ap (λ z. z.running) same) w.running;
    }

clear_all-AtWork :
    (s : Scheduler) (t : ℕ) (name : Text) (ts : List (Text × ℕ))
    → AtWork s t name
    → AtWork (clear_all s ts) t name
unfolding clear_all
clear_all-AtWork s t name [] w = w
clear_all-AtWork s t name (k ∷ ts) w =
    clear_all-AtWork (clear_timer s k.1) t name ts (clear_timer-AtWork s t k.1 name w)

-- Its end is a step.
end-Step :
    (s : Scheduler) (t : ℕ) (name : Text) → AtWork s t name → Step s (finish_first s t name true)
end-Step s t name w =
    rw (← w.named, ← w.periodic) (ends_first s t w.timer w.there w.first w.running)

closed_kept : (s : Scheduler) (ts : List (Text × ℕ)) → (clear_all s ts).closed ≡ s.closed
unfolding clear_all clear_timer
closed_kept s [] = refl
closed_kept s (k ∷ ts) = closed_kept (clear_timer s k.1) ts

begun :
    (s : Scheduler) (name : Text) (t : ℕ)
    → lookup name s.timers ≡ some t
    → (begin_cancel s name).1 ≡ clear_timer s t
unfolding begin_cancel begin_found
begun s name t found = rw found refl

cancelled :
    (s : Scheduler) (name : Text) (t : ℕ)
    → lookup name s.timers ≡ some t
    → (cancel s name).1 ≡ forget (clear_timer s t) name
unfolding cancel cancel_found
cancelled s name t found = rw found refl

get_elem?-last : (xs : List Timer) (x : Timer) → get_elem? (xs ++ x ∷ []) (length xs) ≡ some x
get_elem?-last [] x = refl
get_elem?-last (y ∷ ys) x = get_elem?-last ys x

-- The end of a first call makes an interval.
new_interval :
    (s : Scheduler) (t : ℕ) (name : Text)
    → get_elem? (finish_first s t name true).all (length s.all) ≡ some (interval_of name)
unfolding finish_first
new_interval s t name =
    let ended = on_timer s.all t (λ x. record x { running = 0 }) in
    ap (get_elem? (ended ++ interval_of name ∷ [])) (sym (on_timer-length s.all t _))
    ∙ get_elem?-last ended (interval_of name)

-- Once it loses its name, no name leads to it.
nameless :
    (s : Scheduler) (t : ℕ) (name other : Text)
    → Distinct s.timers
    → IsBelow s
    → lookup other (forget (finish_first s t name true) name).timers ≢ some (length s.all)
unfolding forget finish_first
nameless s t name other w below h = elim (Bool-cases (same_text name other)) [
  | inl e ↦
      (let free : lookup name (delete name (put name (length s.all) s.timers)) ≡ none =
          delete-frees name (put name (length s.all) s.timers)
            (put-Distinct name (length s.all) s.timers w) in
        cc (rw (← same_text_eq name other e) at h, free))
  | inr e ↦ lookup-Below (length s.all) other s.timers below (
      sym (lookup-put_other name other (length s.all) s.timers e)
      ∙ sym (lookup-delete_other name other (put name (length s.all) s.timers) e)
      ∙ h)
]

-- In a state that a scheduler reaches, in which the first call of a periodic task is at work, a
-- `cancel` that waits for the end of the call leads to a state in which the interval that the
-- call left is armed, so that the runtime goes on to call it, and no name leads to it.
pub cancel_leaves_interval :
    (concur : Bool) (s : Scheduler) (name : Text) (t : ℕ)
    → Reachable concur s
    → lookup name s.timers ≡ some t
    → AtWork s t name
    → let s' = forget (finish_first (begin_cancel s name).1 t name true) name in
      Reachable concur s'
      × (get_elem? s'.all (length s.all) ≡ some (interval_of name))
      × ((other : Text) → lookup other s'.timers ≢ some (length s.all))
unfolding forget
cancel_leaves_interval concur s name t r found w =
    let b = (begin_cancel s name).1 in
    let rb = steps concur s b r (begins_cancel s name) in
    let wb : AtWork b t name = rw (begun s name t found) (clear_timer-AtWork s t t name w) in
    let size : length b.all ≡ length s.all =
      ap (λ (z : Scheduler). length z.all) (begun s name t found) ∙ clear_timer-length s t in
    let e = finish_first b t name true in
    (
      steps concur e (forget e name) (steps concur b e rb (end-Step b t name wb))
          (ends_cancel e name),
      rw (← size) (new_interval b t name),
      λ other. rw (← size) (nameless b t name other (Reachable-Distinct rb) (Reachable-IsBelow rb)),
    )

forgotten :
    (s : Scheduler) (name : Text) → Distinct s.timers → has_task (forget s name) name ≡ false
unfolding has_task forget
forgotten s name w = ap is_some (delete-frees name s.timers w)

back : (s : Scheduler) (t : ℕ) (name : Text) → has_task (finish_first s t name true) name ≡ true
unfolding has_task finish_first
back s t name = ap is_some (lookup-put name (length s.all) s.timers)

-- In a state that a scheduler reaches, in which the first call of a periodic task is at work, a
-- `cancel` that does not wait takes the task away, and so does a shutdown, which closes the
-- scheduler and leaves it no task; the end of the call, which is a step of either state, brings
-- the task back under its name.
pub cancelled_comes_back :
    (concur : Bool) (s : Scheduler) (name : Text) (t : ℕ)
    → Reachable concur s
    → lookup name s.timers ≡ some t
    → AtWork s t name
    → let s1 = (cancel s name).1 in
      let s2 = finish_first s1 t name true in
      let c1 = shutdown s in
      let c2 = finish_first c1 t name true in
      (has_task s1 name ≡ false)
      × Step s1 s2
      × (has_task s2 name ≡ true)
      × (c1.closed ≡ true)
      × (c1.timers ≡ [])
      × Step c1 c2
      × (has_task c2 name ≡ true)
unfolding shutdown cancel_all clear_timer forget
cancelled_comes_back concur s name t r found w =
    let s1 = (cancel s name).1 in
    let c1 = shutdown s in
    let free : has_task s1 name ≡ false =
      rw (cancelled s name t found) (forgotten (clear_timer s t) name (Reachable-Distinct r)) in
    let w1 : AtWork s1 t name = rw (cancelled s name t found) (
      AtWork-same (clear_timer s t) (forget (clear_timer s t) name) t name refl
        (clear_timer-AtWork s t t name w)) in
    let closing : Scheduler = record s { closed = true } in
    let wc : AtWork c1 t name =
      AtWork-same (clear_all closing s.timers) c1 t name refl
        (clear_all-AtWork closing t name s.timers (AtWork-same s closing t name refl w)) in
    (
      free,
      end-Step s1 t name w1,
      back s1 t name,
      closed_kept (record s { closed = true }) s.timers,
      refl,
      end-Step c1 t name wc,
      back c1 t name,
    )
