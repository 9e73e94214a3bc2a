-- ===== src/Lock.antt =====
-- sylar/thread.h: the scoped locks and `CASLock`; `RWMutex` is in Lock/ReadWrite.
pub mod Scoped
pub mod Exclusion
pub mod ReadWrite
pub mod Counts
pub mod Sharing
use sylar_server_study.Base.{
  ℕ, Bool, true, false, not, if◌then◌else◌, List, [], ◌∷◌, ◌++◌, Option, none, some, get_elem?,
  modify,
}

-- What a scoped lock calls on its mutex.
pub data Call : Type 0 where
  lock rdlock wrlock unlock : Call

-- `ScopedLockImpl`, `ReadScopedLockImpl` and `WriteScopedLockImpl`, which differ in the name of the
-- call that acquires the mutex.
pub data Kind : Type 0 where
  scoped read_scoped write_scoped : Kind

abbrev pub acquire : Kind → Call
acquire scoped = lock
acquire read_scoped = rdlock
acquire write_scoped = wrlock

-- `m_locked`, and the calls so far.
pub record Guard : Type 0 where
  pub locked : Bool
  pub calls : List Call

abbrev pub call : Guard → Call → Bool → Guard
call g c locked = record { locked = locked; calls = g.calls ++ c ∷ [] }

-- The constructors.
unfoldable pub new_guard : Kind → Guard
new_guard k = call (record { locked = false; calls = [] }) (acquire k) true

unfoldable pub guard_lock : Kind → Guard → Guard
guard_lock k g = if not g.locked then call g (acquire k) true else g

unfoldable pub guard_unlock : Guard → Guard
guard_unlock g = if g.locked then call g unlock false else g

-- The destructors.
unfoldable pub end_guard : Guard → Guard
unfolding guard_unlock
end_guard g = guard_unlock g

-- Where a thread stands that uses a `CASLock`.
pub data Place : Type 0 where
  outside spinning inside : Place

-- `m_flag`, and the place of each thread.
pub record CasSystem : Type 0 where
  pub flag : Bool
  pub places : List Place

-- One `atomic_flag_test_and_set`, and the test of the loop in `lock`.
unfoldable pub test_and_set : CasSystem → ℕ → CasSystem
test_and_set s i = record {
  flag = true;
  places = modify s.places i (λ p. if s.flag then spinning else inside);
}

-- `unlock`
unfoldable pub cas_unlock : CasSystem → ℕ → CasSystem
cas_unlock s i = record { flag = false; places = modify s.places i (λ p. outside) }

abbrev pub is_inside : Place → Bool
is_inside inside = true
is_inside _ = false

-- The next atomic access of a thread: one that is inside leaves, any other tries to enter.
unfoldable pub cas_step : CasSystem → ℕ → CasSystem
unfolding test_and_set cas_unlock
cas_step s i = elim (get_elem? s.places i) [
  | none ↦ s
  | some p ↦ if is_inside p then cas_unlock s i else test_and_set s i
]
