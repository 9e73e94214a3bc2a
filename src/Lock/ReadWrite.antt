-- ===== src/Lock/ReadWrite.antt =====
-- sylar/thread.h: `RWMutex` over a read-write lock of the pthread library, `ReadScopedLockImpl` and
-- `WriteScopedLockImpl`, any number of which the threads use in any order.
use sylar_server_study.Base.{
  ℕ, suc, Bool, true, false, not, ◌||◌, if◌then◌else◌, List, [], ◌∷◌, Option, none, some, ◌>>=◌,
  get_elem?, modify, ◌≡◌,
}

-- What a call comes to that asks for the lock: the thread stays in it, or it returns an error, which
-- leaves the lock as it is, or it acquires the lock.
pub data Answer (State : Type 0) : Type 0 where
  blocks fails : Answer State
  acquires : State → Answer State

-- `pthread_rwlock_t`. The answers depend on the thread that asks.
pub record RwLock : Type 1 where
  pub State : Type 0
  pub free : State
  pub pthread_rdlock : ℕ → State → Answer State
  pub pthread_wrlock : ℕ → State → Answer State
  pub pthread_unlock : ℕ → State → State

-- What pthread documents: how often the lock is held for reading, and whether for writing.
pub record RwLockLaws (l : RwLock) : Type 0 where
  pub readers : l.State → ℕ
  pub writing : l.State → Bool
  pub at_first : (readers l.free ≡ 0) × (writing l.free ≡ false)
  pub for_reading :
      (thread : ℕ) (s t : l.State)
      → l.pthread_rdlock thread s ≡ acquires t
      → (writing s ≡ false) × (writing t ≡ false) × (readers t ≡ suc (readers s))
  pub for_writing :
      (thread : ℕ) (s t : l.State)
      → l.pthread_wrlock thread s ≡ acquires t
      → (writing s ≡ false) × (readers s ≡ 0) × (writing t ≡ true) × (readers t ≡ 0)
  pub after_writing :
      (thread : ℕ) (s : l.State)
      → writing s ≡ true
      → (writing (l.pthread_unlock thread s) ≡ false)
        × (readers (l.pthread_unlock thread s) ≡ readers s)
  pub after_reading :
      (thread : ℕ) (s : l.State) (n : ℕ)
      → writing s ≡ false
      → readers s ≡ suc n
      → (writing (l.pthread_unlock thread s) ≡ false) × (readers (l.pthread_unlock thread s) ≡ n)

module _ (l : RwLock) (thread : ℕ) where
  open l use {State, pthread_rdlock, pthread_wrlock, pthread_unlock}

  -- The methods of `RWMutex`, which do not look at what the calls return; `none` while one blocks.
  abbrev pub went_on : State → Answer State → Option State
  went_on m blocks = none
  went_on m fails = some m
  went_on m (acquires m') = some m'

  abbrev pub mutex_rdlock : State → Option State
  mutex_rdlock m = went_on m (pthread_rdlock thread m)

  abbrev pub mutex_wrlock : State → Option State
  mutex_wrlock m = went_on m (pthread_wrlock thread m)

  abbrev pub mutex_unlock : State → State
  mutex_unlock m = pthread_unlock thread m

  -- The mutex and `m_locked`.
  abbrev pub Locked : Type 0
  Locked = State × Bool

  -- `ReadScopedLockImpl`: the constructor, `lock`, `unlock` and the destructor.
  unfoldable pub new_read_guard : State → Option Locked
  new_read_guard m = mutex_rdlock m >>= λ m'. some (m', true)

  unfoldable pub read_guard_lock : Locked → Option Locked
  read_guard_lock (m, locked) =
      if not locked then (mutex_rdlock m >>= λ m'. some (m', true)) else some (m, locked)

  unfoldable pub read_guard_unlock : Locked → Locked
  read_guard_unlock (m, locked) = if locked then (mutex_unlock m, false) else (m, locked)

  unfoldable pub end_read_guard : Locked → State
  unfolding read_guard_unlock
  end_read_guard g = (read_guard_unlock g).0

  -- `WriteScopedLockImpl`
  unfoldable pub new_write_guard : State → Option Locked
  new_write_guard m = mutex_wrlock m >>= λ m'. some (m', true)

  unfoldable pub write_guard_lock : Locked → Option Locked
  write_guard_lock (m, locked) =
      if not locked then (mutex_wrlock m >>= λ m'. some (m', true)) else some (m, locked)

  unfoldable pub write_guard_unlock : Locked → Locked
  write_guard_unlock (m, locked) = if locked then (mutex_unlock m, false) else (m, locked)

  unfoldable pub end_write_guard : Locked → State
  unfolding write_guard_unlock
  end_write_guard g = (write_guard_unlock g).0

-- A place for a scoped lock on the mutex: none yet or any more, or one of the two, with `m_locked`.
pub data Slot : Type 0 where
  no_guard : Slot
  read_guard : Bool → Slot
  write_guard : Bool → Slot

-- What is done at a place: construct a scoped lock, call its `lock` or `unlock`, or destroy it.
pub data Use : Type 0 where
  open_read open_write relock release close : Use

module _ (l : RwLock) (thread : ℕ) where
  open l use {State, pthread_rdlock, pthread_wrlock}

  -- `none` while the call blocks. A scoped lock is constructed at an empty place, and used where there
  -- is one.
  unfoldable pub use_slot : Use → State → Slot → Option (State × Slot)
  unfolding new_read_guard new_write_guard read_guard_lock write_guard_lock read_guard_unlock
      write_guard_unlock end_read_guard end_write_guard
  use_slot open_read m no_guard = new_read_guard l thread m >>= λ (m', b). some (m', read_guard b)
  use_slot open_write m no_guard =
      new_write_guard l thread m >>= λ (m', b). some (m', write_guard b)
  use_slot relock m (read_guard b) =
      read_guard_lock l thread (m, b) >>= λ (m', b'). some (m', read_guard b')
  use_slot relock m (write_guard b) =
      write_guard_lock l thread (m, b) >>= λ (m', b'). some (m', write_guard b')
  use_slot release m (read_guard b) =
      let (m', b') = read_guard_unlock l thread (m, b) in some (m', read_guard b')
  use_slot release m (write_guard b) =
      let (m', b') = write_guard_unlock l thread (m, b) in some (m', write_guard b')
  use_slot close m (read_guard b) = some (end_read_guard l thread (m, b), no_guard)
  use_slot close m (write_guard b) = some (end_write_guard l thread (m, b), no_guard)
  use_slot _ m slot = some (m, slot)

  abbrev pub is_failed : Answer State → Bool
  is_failed fails = true
  is_failed _ = false

  -- Whether a call of pthread returns an error there, which the code ignores.
  abbrev pub gets_error : Use → State → Slot → Bool
  gets_error open_read m no_guard = is_failed (pthread_rdlock thread m)
  gets_error open_write m no_guard = is_failed (pthread_wrlock thread m)
  gets_error relock m (read_guard false) = is_failed (pthread_rdlock thread m)
  gets_error relock m (write_guard false) = is_failed (pthread_wrlock thread m)
  gets_error _ m slot = false

-- `owner` is the thread whose scoped lock is at a place; a thread may have any number of places.
module _ (l : RwLock) (owner : ℕ → ℕ) where
  open l use {State}

  -- The mutex, and the places.
  abbrev pub RwSystem : Type 0
  RwSystem = State × List Slot

  -- One use of place `i`, or nothing while it blocks.
  unfoldable pub rw_step : RwSystem → ℕ → Use → RwSystem
  unfolding use_slot
  rw_step (m, slots) i u = elim (get_elem? slots i) [
    | none ↦ (m, slots)
    | some slot ↦ elim (use_slot l (owner i) u m slot) [
      | none ↦ (m, slots)
      | some r ↦ (r.0, modify slots i (λ old. r.1))
    ]
  ]

  unfoldable pub rw_run : RwSystem → List (ℕ × Use) → RwSystem
  unfolding rw_step
  rw_run s [] = s
  rw_run s ((i, u) ∷ us) = rw_run (rw_step s i u) us

  -- Whether a call of pthread that asks for the lock returns an error, at one use and at any.
  abbrev pub error_at : Use → ℕ → State → Option Slot → Bool
  error_at u i m none = false
  error_at u i m (some slot) = gets_error l (owner i) u m slot

  abbrev pub any_error : RwSystem → List (ℕ × Use) → Bool
  any_error s [] = false
  any_error s ((i, u) ∷ us) = error_at u i s.0 (get_elem? s.1 i) || any_error (rw_step s i u) us
