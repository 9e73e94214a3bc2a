-- ===== src/Scheduler.antt =====
-- sylar/scheduler.h: the queue of `Scheduler`. `schedule` for a range is not modelled, since it calls
-- `scheduleNoLock` with too few arguments; the rest of the class has empty bodies.
pub mod Queue
use sylar_server_study.Base.{
  ℕ, ◌+◌, Bool, true, false, ◌||◌, if◌then◌else◌, List, [], ◌∷◌, ◌++◌, Option, none, some,
}

-- What a caller hands over: a fiber or a callback, by value or by a pointer to it, from which it is
-- swapped out. The fibers and the callbacks are named by numbers; `none` is a null pointer and an
-- empty function.
pub data FiberOrCb : Type 0 where
  a_fiber a_cb : Option ℕ → FiberOrCb

-- The thread is -1, written `none`, for any.
pub record FiberAndThread : Type 0 where
  pub fiber : Option ℕ
  pub cb : Option ℕ
  pub thread : Option ℕ

-- The constructors from a value.
abbrev pub new_task : FiberOrCb → Option ℕ → FiberAndThread
new_task (a_fiber f) thread = record { fiber = f; cb = none; thread = thread }
new_task (a_cb f) thread = record { fiber = none; cb = f; thread = thread }

-- The constructors from a pointer: the task, and what is left behind the pointer, which is what the
-- new object's empty member held.
abbrev pub swap_task : FiberOrCb → Option ℕ → FiberAndThread × FiberOrCb
swap_task (a_fiber f) thread = (new_task (a_fiber f) thread, a_fiber none)
swap_task (a_cb f) thread = (new_task (a_cb f) thread, a_cb none)

-- `FiberAndThread::reset`
abbrev pub reset_task : FiberAndThread → FiberAndThread
reset_task t = record { fiber = none; cb = none; thread = none }

-- `m_fibers`, and how often `tickle` was called.
pub record Scheduler : Type 0 where
  pub fibers : List FiberAndThread
  pub tickles : ℕ

abbrev pub holds : Option ℕ → Bool
holds none = false
holds (some f) = true

-- `ft.fiber || ft.cb`
abbrev pub has_work : FiberAndThread → Bool
has_work ft = holds ft.fiber || holds ft.cb

abbrev pub is_empty_queue : List FiberAndThread → Bool
is_empty_queue [] = true
is_empty_queue (t ∷ ts) = false

-- `scheduleNoLock`: the queue, and whether a tickle is needed.
unfoldable pub schedule_no_lock : List FiberAndThread → FiberAndThread → List FiberAndThread × Bool
schedule_no_lock fibers ft =
    (if has_work ft then fibers ++ ft ∷ [] else fibers, is_empty_queue fibers)

-- `schedule`
unfoldable pub schedule : Scheduler → FiberOrCb → Option ℕ → Scheduler
unfolding schedule_no_lock
schedule s fc thread =
    let (fibers, need_tickle) = schedule_no_lock s.fibers (new_task fc thread) in
    record { fibers = fibers; tickles = if need_tickle then s.tickles + 1 else s.tickles }
