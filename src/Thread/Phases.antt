-- ===== src/Thread/Phases.antt =====
-- The stages that the two threads of `Thread::Thread` go through together.
use sylar_server_study.Base.{
  ℕ, Bool, true, false, ◌&&◌, Text, codes, is_empty, if◌then◌else◌, List, [], ◌∷◌, none, some, ◌≡◌,
  refl, arith,
}
use sylar_server_study.Thread.{
  Creator, before_create, at_wait, returned, thrown, Runner, not_started, at_this, at_name, at_id,
  at_swap, at_notify, at_call, ended, Shared, constructed, uses_object, Turn, creates_on, runs_on,
  either_step,
}

abbrev pub run_both : Bool → ℕ → Shared → List Turn → Shared
run_both creates id s [] = s
run_both creates id s (w ∷ ws) = run_both creates id (either_step creates id w s) ws

-- No call of `sem_wait` fails.
abbrev pub all_wait : List Turn → Bool
all_wait [] = true
all_wait (creates_on waits ∷ ws) = waits && all_wait ws
all_wait (runs_on ∷ ws) = all_wait ws

-- The stages of the two threads together: the constructor waits while the new thread is at a point
-- of `run`, or is through, or has thrown; after that the new thread is at a point, or lost at one.
pub data Phase : Type 0 where
  begun failed through_call through_ended : Phase
  waiting thrown_at lost_at : Runner → Phase

abbrev pub is_started : Runner → Bool
is_started not_started = false
is_started _ = true

-- The stages that are reached: the new thread has been started while the constructor waits.
abbrev pub is_sound : Phase → Bool
is_sound (waiting r) = is_started r
is_sound _ = true

-- Whether the new thread is through with each part of `run`.
abbrev pub has_id : Runner → Bool
has_id at_swap = true
has_id at_notify = true
has_id at_call = true
has_id ended = true
has_id _ = false

abbrev pub has_cb : Runner → Bool
has_cb at_notify = true
has_cb at_call = true
has_cb ended = true
has_cb _ = false

abbrev pub has_name : Runner → Bool
has_name at_id = true
has_name r = has_id r

abbrev pub has_this : Runner → Bool
has_this at_name = true
has_this r = has_name r

abbrev pub has_called : Runner → ℕ
has_called ended = 1
has_called _ = 0

abbrev pub has_notified : Runner → ℕ
has_notified at_call = 1
has_notified ended = 1
has_notified _ = 0

abbrev pub creator_of : Phase → Creator
creator_of begun = before_create
creator_of failed = thrown
creator_of through_call = returned
creator_of through_ended = returned
creator_of (waiting r) = at_wait
creator_of (thrown_at r) = thrown
creator_of (lost_at r) = thrown

abbrev pub runner_of : Phase → Runner
runner_of begun = not_started
runner_of failed = not_started
runner_of through_call = at_call
runner_of through_ended = ended
runner_of (waiting r) = r
runner_of (thrown_at r) = r
runner_of (lost_at r) = r

-- The count of the semaphore.
abbrev pub count_of : Phase → ℕ
count_of (waiting r) = has_notified r
count_of (thrown_at r) = has_notified r
count_of (lost_at r) = has_notified r
count_of _ = 0

abbrev pub is_lost : Phase → Bool
is_lost (lost_at r) = true
is_lost _ = false

-- The constructor goes on from `sem_wait` while the new thread is at this point.
abbrev pub after_wait : Runner → Phase
after_wait at_call = through_call
after_wait ended = through_ended
after_wait r = waiting r

abbrev pub next_point : Runner → Runner
next_point not_started = not_started
next_point at_this = at_name
next_point at_name = at_id
next_point at_id = at_swap
next_point at_swap = at_notify
next_point at_notify = at_call
next_point at_call = ended
next_point ended = ended

module _ (creates : Bool) (id cb : ℕ) (name : Text) where
  abbrev pub full_name : Text
  full_name = if is_empty name then codes "UNKNOW" else name

  abbrev pub state_at : Creator → Runner → ℕ → Bool → Shared
  state_at c r count is_undefined = record {
    creator = c;
    runner = r;
    m_name = full_name;
    m_id = if has_id r then some id else none;
    m_cb = if has_cb r then none else some cb;
    semaphore = count;
    t_thread = has_this r;
    t_thread_name = if has_name r then full_name else codes "UNKNOW";
    cb = if has_cb r then some cb else none;
    calls = has_called r;
    is_undefined = is_undefined;
  }

  abbrev pub state_of : Phase → Shared
  state_of p = state_at (creator_of p) (runner_of p) (count_of p) (is_lost p)

  abbrev pub next_phase : Turn → Phase → Phase
  next_phase (creates_on waits) begun = if creates then waiting at_this else failed
  next_phase (creates_on true) (waiting r) = after_wait r
  next_phase (creates_on false) (waiting r) = thrown_at r
  next_phase (creates_on waits) p = p
  next_phase runs_on (waiting r) = waiting (next_point r)
  next_phase runs_on through_call = through_ended
  next_phase runs_on (thrown_at r) = if uses_object r then lost_at r else thrown_at (next_point r)
  next_phase runs_on (lost_at r) = if uses_object r then lost_at r else lost_at (next_point r)
  next_phase runs_on p = p

  abbrev Steps : Turn → Phase → Type 0
  Steps w p = either_step creates id w (state_of p) ≡ state_of (next_phase w p)

  -- The constructor waits.
  waiting-Steps : (w : Turn) (r : Runner) → Steps w (waiting r)
  unfolding either_step
  waiting-Steps (creates_on false) r = refl
  waiting-Steps (creates_on true) not_started = refl
  waiting-Steps (creates_on true) at_this = refl
  waiting-Steps (creates_on true) at_name = refl
  waiting-Steps (creates_on true) at_id = refl
  waiting-Steps (creates_on true) at_swap = refl
  waiting-Steps (creates_on true) at_notify = refl
  waiting-Steps (creates_on true) at_call = refl
  waiting-Steps (creates_on true) ended = refl
  waiting-Steps runs_on not_started = refl
  waiting-Steps runs_on at_this = refl
  waiting-Steps runs_on at_name = refl
  waiting-Steps runs_on at_id = refl
  waiting-Steps runs_on at_swap = refl
  waiting-Steps runs_on at_notify = refl
  waiting-Steps runs_on at_call = refl
  waiting-Steps runs_on ended = refl

  -- The new thread goes on after the constructor has thrown.
  thrown_at-Steps : (r : Runner) → Steps runs_on (thrown_at r)
  unfolding either_step
  thrown_at-Steps not_started = refl
  thrown_at-Steps at_this = refl
  thrown_at-Steps at_name = refl
  thrown_at-Steps at_id = refl
  thrown_at-Steps at_swap = refl
  thrown_at-Steps at_notify = refl
  thrown_at-Steps at_call = refl
  thrown_at-Steps ended = refl

  lost_at-Steps : (r : Runner) → Steps runs_on (lost_at r)
  unfolding either_step
  lost_at-Steps not_started = refl
  lost_at-Steps at_this = refl
  lost_at-Steps at_name = refl
  lost_at-Steps at_id = refl
  lost_at-Steps at_swap = refl
  lost_at-Steps at_notify = refl
  lost_at-Steps at_call = refl
  lost_at-Steps ended = refl

  pub step-next_phase : (w : Turn) (p : Phase) → Steps w p
  unfolding either_step
  step-next_phase (creates_on waits) begun = ground arith
  step-next_phase (creates_on waits) failed = refl
  step-next_phase (creates_on waits) through_call = refl
  step-next_phase (creates_on waits) through_ended = refl
  step-next_phase (creates_on waits) (waiting r) = waiting-Steps (creates_on waits) r
  step-next_phase (creates_on waits) (thrown_at r) = refl
  step-next_phase (creates_on waits) (lost_at r) = refl
  step-next_phase runs_on begun = refl
  step-next_phase runs_on failed = refl
  step-next_phase runs_on through_call = refl
  step-next_phase runs_on through_ended = refl
  step-next_phase runs_on (waiting r) = waiting-Steps runs_on r
  step-next_phase runs_on (thrown_at r) = thrown_at-Steps r
  step-next_phase runs_on (lost_at r) = lost_at-Steps r

  pub start-phase : constructed name cb ≡ state_of begun
  unfolding constructed
  start-phase = refl
