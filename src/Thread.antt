-- ===== src/Thread.antt =====
-- sylar/thread.cc: the constructor of `Thread` and `Thread::run`, on two threads that take their steps
-- in any order. The semaphore is its count; `sem_wait` blocks at zero, and may fail at any time;
-- `sem_post` cannot fail on it, since its count is at most one.
pub mod Phases
pub mod Progress
pub mod Handshake
pub mod Life
pub mod Semaphore
use sylar_server_study.Base.{
  ℕ, zero, suc, ◌+◌, Bool, true, false, ◌&&◌, Text, codes, is_empty, if◌then◌else◌, Option, none,
  some,
}

-- Where the creating thread stands in the constructor.
pub data Creator : Type 0 where
  before_create at_wait returned thrown : Creator

-- Where the new thread stands in `run`: at the assignments to `t_thread`, `t_thread_name` and `m_id`,
-- at the swap of `m_cb`, at `notify`, at the call of `cb`, and behind it.
pub data Runner : Type 0 where
  not_started at_this at_name at_id at_swap at_notify at_call ended : Runner

-- The members of the `Thread` object, with -1 for `m_id` and an empty function as `none`; the
-- thread-local variables and the local `cb` of the new thread; how often `cb` was called; and whether
-- the new thread has come to use the object after the constructor threw, which destroyed it.
pub record Shared : Type 0 where
  pub creator : Creator
  pub runner : Runner
  pub m_name : Text
  pub m_id : Option ℕ
  pub m_cb : Option ℕ
  pub semaphore : ℕ
  pub t_thread : Bool
  pub t_thread_name : Text
  pub cb : Option ℕ
  pub calls : ℕ
  pub is_undefined : Bool

-- The members before `pthread_create`.
unfoldable pub constructed : Text → ℕ → Shared
constructed name cb = record {
  creator = before_create;
  runner = not_started;
  m_name = if is_empty name then codes "UNKNOW" else name;
  m_id = none;
  m_cb = some cb;
  semaphore = 0;
  t_thread = false;
  t_thread_name = codes "UNKNOW";
  cb = none;
  calls = 0;
  is_undefined = false;
}

-- `m_semaphore.wait()`: it throws if `sem_wait` fails, and otherwise leaves the thread where it is
-- while the count is zero.
abbrev pub wait : Bool → ℕ → Shared → Shared
wait false n s = record s { creator = thrown }
wait true zero s = s
wait true (suc n) s = record s { semaphore = n; creator = returned }

-- Whether a point of `run` uses the object.
abbrev pub uses_object : Runner → Bool
uses_object at_name = true
uses_object at_id = true
uses_object at_swap = true
uses_object at_notify = true
uses_object _ = false

abbrev pub is_thrown : Creator → Bool
is_thrown thrown = true
is_thrown _ = false

-- Which thread takes its turn, and for the creating one whether `sem_wait` succeeds, if it calls it.
pub data Turn : Type 0 where
  creates_on : Bool → Turn
  runs_on : Turn

-- Whether `pthread_create` succeeds, and the new thread's id.
module _ (creates : Bool) (id : ℕ) where
  unfoldable pub creator_step : Bool → Creator → Shared → Shared
  creator_step waits before_create s =
      if creates
      then record s { creator = at_wait; runner = at_this }
      else record s { creator = thrown }
  creator_step waits at_wait s = wait waits s.semaphore s
  creator_step waits returned s = s
  creator_step waits thrown s = s

  unfoldable pub runner_step : Runner → Shared → Shared
  runner_step not_started s = s
  runner_step at_this s = record s { t_thread = true; runner = at_name }
  runner_step at_name s = record s { t_thread_name = s.m_name; runner = at_id }
  runner_step at_id s = record s { m_id = some id; runner = at_swap }
  runner_step at_swap s = record s { cb = s.m_cb; m_cb = s.cb; runner = at_notify }
  runner_step at_notify s = record s { semaphore = s.semaphore + 1; runner = at_call }
  runner_step at_call s = record s { calls = s.calls + 1; runner = ended }
  runner_step ended s = s

  -- One step of one of the two threads. The new thread stops where it is undefined how it goes on.
  unfoldable pub either_step : Turn → Shared → Shared
  unfolding creator_step runner_step
  either_step (creates_on waits) s = creator_step waits s.creator s
  either_step runs_on s =
      if is_thrown s.creator && uses_object s.runner
      then record s { is_undefined = true }
      else runner_step s.runner s
