-- ===== src/Session/Timer.antt =====
-- class Timer of python/hypha_rpc/rpc.py, over a heap of timers and asyncio tasks. `start` and
-- `reset` call each other; `none` stands for the unbounded recursion of a timer that says it is
-- started and holds no task.
pub mod Validity
use hypha_rpc.Prelude.{ℕ, ◌+◌, Bool, true, false, Option, none, some, nat_eq, if◌then◌else◌}

pub data Task : Type 0 where
  running cancelled done : Task

pub record Timer : Type 0 where
  pub handle : Option ℕ
  pub started : Bool

pub record Heap : Type 0 where
  pub timers : ℕ → Timer
  pub tasks : ℕ → Task
  pub next_task : ℕ

-- m[k] = v
abbrev pub update {ℓ} : {A : Type ℓ} → (ℕ → A) → ℕ → A → ℕ → A
update m k v j = if nat_eq k j then v else m j

-- Timer.__init__
abbrev pub fresh_timer : Timer
fresh_timer = record { handle = none; started = false }

-- task.done()
abbrev pub is_done : Task → Bool
is_done running = false
is_done _ = true

-- task.cancel(): no effect on a task that is done
unfoldable pub cancel : ℕ → Heap → Heap
cancel t h = record h {
  tasks = update h.tasks t (if is_done (h.tasks t) then h.tasks t else cancelled);
}

-- self._task = asyncio.ensure_future(self._job()); self.started = True
unfoldable pub arm : ℕ → Heap → Heap
arm i h = record h {
  timers = update h.timers i (record { handle = some h.next_task; started = true });
  tasks = update h.tasks h.next_task running;
  next_task = h.next_task + 1;
}

-- self._task.cancel(); self._task = asyncio.ensure_future(self._job())
unfoldable pub rearm : ℕ → ℕ → Heap → Heap
unfolding cancel
rearm i t h =
    let h' = cancel t h in
    record h' {
      timers =
          update h'.timers i
            (record { handle = some h'.next_task; started = (h'.timers i).started });
      tasks = update h'.tasks h'.next_task running;
      next_task = h'.next_task + 1;
    }

unfoldable pub reset : ℕ → Heap → Option Heap
unfolding arm rearm
reset i h = elim (h.timers i).handle [
  | none ↦ if (h.timers i).started then none else some (arm i h)
  | some t ↦ some (rearm i t h)
]

unfoldable pub start : ℕ → Heap → Option Heap
unfolding arm reset
start i h = if (h.timers i).started then reset i h else some (arm i h)

unfoldable pub clear : ℕ → Heap → Heap
unfolding cancel
clear i h = elim (h.timers i).handle [
  | none ↦ h
  | some t ↦
      if (h.timers i).started
      then (let h' = cancel t h in record h' { timers = update h'.timers i fresh_timer })
      else h
]
