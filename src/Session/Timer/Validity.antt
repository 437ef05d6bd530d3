-- ===== src/Session/Timer/Validity.antt =====
-- A timer that says it is started holds a task of its own: `start`, `reset` and `clear` keep that,
-- and with it `start` and `reset` never recurse without end.
use hypha_rpc.Prelude.{
  ℕ, ◌<◌, ◌≡◌, true, false, none, some, arith, nat_eq, is_some, Option-cases, inl, inr,
}
use hypha_rpc.Session.Timer.{running, Heap, is_done, cancel, arm, rearm, reset, start, clear}

pub record IsValid (h : Heap) : Type 0 where
  pub held : (i : ℕ) → (h.timers i).started ≡ is_some (h.timers i).handle
  pub made : (i t : ℕ) → (h.timers i).handle ≡ some t → t < h.next_task
  pub own : (i j t : ℕ) → (h.timers i).handle ≡ some t → (h.timers j).handle ≡ some t → i ≡ j

-- The timer runs one live task.
pub record Runs (i : ℕ) (h : Heap) : Type 0 where
  pub current : ℕ
  pub holds : (h.timers i).handle ≡ some current
  pub live : h.tasks current ≡ running
  pub on : (h.timers i).started ≡ true

pub arm-IsValid : (i : ℕ) (h : Heap) → IsValid h → IsValid (arm i h)
unfolding arm
arm-IsValid i h v = record {
  held = λ j. ground (arith, v.held j);
  made = λ j t e. ground (arith, v.made j t);
  own = λ j k t e f. ground (arith, v.own j k t, v.made j t, v.made k t);
}

rearm-IsValid :
    (i t : ℕ) (h : Heap) → (h.timers i).handle ≡ some t → IsValid h → IsValid (rearm i t h)
unfolding rearm
rearm-IsValid i t h e v = record {
  held = λ j. ground (arith, v.held j, v.held i);
  made = λ j u f. ground (arith, v.made j u);
  own = λ j k u f g. ground (arith, v.own j k u, v.made j u, v.made k u);
}

pub cancel-IsValid : (t : ℕ) (h : Heap) → IsValid h → IsValid (cancel t h)
unfolding cancel
cancel-IsValid t h v = record { held = v.held; made = v.made; own = v.own }

pub clear-IsValid : (i : ℕ) (h : Heap) → IsValid h → IsValid (clear i h)
unfolding clear
clear-IsValid i h v = record {
  held = λ j. ground (arith, v.held j, v.held i);
  made = λ j u f. ground (arith, v.made j u);
  own = λ j k u f g. ground (arith, v.own j k u, v.made j u, v.made k u);
}

-- What a `reset` leaves: the timer runs, and the task that it held before is over.
pub record Restarted (i : ℕ) (h h' : Heap) : Type 0 where
  pub valid : IsValid h'
  pub runs : Runs i h'
  pub stopped : (t : ℕ) → (h.timers i).handle ≡ some t → is_done (h'.tasks t) ≡ true
  pub others : (j : ℕ) → nat_eq i j ≡ false → h'.timers j ≡ h.timers j

arm-Restarted :
    (i : ℕ) (h : Heap) → IsValid h → (h.timers i).handle ≡ none → Restarted i h (arm i h)
unfolding arm
arm-Restarted i h v e = record {
  valid = arm-IsValid i h v;
  runs = record {
    current = h.next_task;
    holds = ground arith;
    live = ground arith;
    on = ground arith;
  };
  stopped = λ t f. ground arith;
  others = λ j f. ground arith;
}

rearm-Restarted :
    (i t : ℕ) (h : Heap) → IsValid h → (h.timers i).handle ≡ some t → Restarted i h (rearm i t h)
unfolding rearm
rearm-Restarted i t h v e = record {
  valid = rearm-IsValid i t h e v;
  runs = record {
    current = h.next_task;
    holds = ground arith;
    live = ground arith;
    on = ground (arith, v.held i);
  };
  stopped = λ u f. ground (arith, v.made i t e);
  others = λ j f. ground arith;
}

-- On a valid heap `reset` returns. Afterwards the timer is started and holds a task that runs, the
-- task that it held before is over, the other timers are unchanged, and the heap is valid.
pub reset_restarts :
    (i : ℕ) (h : Heap) → IsValid h → (h' : Heap) × (reset i h ≡ some h') × Restarted i h h'
unfolding reset
reset_restarts i h v = elim (Option-cases (h.timers i).handle) [
  | inl e ↦ (arm i h, ground (arith, v.held i), arm-Restarted i h v e)
  | inr (t, e) ↦ (rearm i t h, ground arith, rearm-Restarted i t h v e)
]

-- On a valid heap `start` returns, with what `reset` promises, whether or not the timer was started.
pub start_restarts :
    (i : ℕ) (h : Heap) → IsValid h → (h' : Heap) × (start i h ≡ some h') × Restarted i h h'
unfolding start
start_restarts i h v = elim (Option-cases (h.timers i).handle) [
  | inl e ↦ (arm i h, ground (arith, v.held i), arm-Restarted i h v e)
  | inr (t, e) ↦ (rearm i t h, unfold reset in ground (arith, v.held i), rearm-Restarted i t h v e)
]

-- On a valid heap `start` and `reset` return. After either, the timer is started and holds a task that
-- runs, the task that it held before is over, the other timers are unchanged, and the heap is valid.
pub start-reset_restart :
    (i : ℕ) (h : Heap)
    → IsValid h
    → ((h' : Heap) × (start i h ≡ some h') × Restarted i h h')
      × ((h' : Heap) × (reset i h ≡ some h') × Restarted i h h')
start-reset_restart i h v = (start_restarts i h v, reset_restarts i h v)

-- On a valid heap `clear` leaves the timer not started, with no task, and whatever task it held is
-- over; the other timers are unchanged and the heap is valid.
pub clear_stops :
    (i : ℕ) (h : Heap)
    → IsValid h
    → IsValid (clear i h)
      × (((clear i h).timers i).started ≡ false)
      × (((clear i h).timers i).handle ≡ none)
      × ((t : ℕ) → (h.timers i).handle ≡ some t → is_done ((clear i h).tasks t) ≡ true)
      × ((j : ℕ) → nat_eq i j ≡ false → (clear i h).timers j ≡ h.timers j)
unfolding clear
clear_stops i h v = (
  clear-IsValid i h v,
  ground (arith, v.held i),
  ground (arith, v.held i),
  λ t e. ground (arith, v.held i),
  λ j e. ground arith,
)
