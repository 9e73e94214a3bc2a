-- ===== src/Thread/Semaphore.antt =====
-- sylar/thread.cc: `Semaphore`, over the semaphores of POSIX, which are parameters, and its use by any
-- number of threads.
use sylar_server_study.Base.{
  ℕ, ◌+◌, Bool, true, false, Text, codes, List, [], ◌∷◌, Option, none, some, ◌≡◌, ◌≢◌, ◌≤◌, refl,
  ap, ◌∙◌, arith,
}

-- What `sem_wait` comes to: the thread stays in the call, or it returns zero or an error.
pub data Waited (Sem : Type 0) : Type 0 where
  blocks fails : Waited Sem
  goes_on : Sem → Waited Sem

-- The calls, where `none` is a result other than zero, and the value of a semaphore. A semaphore of
-- value zero blocks, `sem_wait` takes one off, and `sem_post` adds one.
pub record PosixSem : Type 1 where
  pub Sem : Type 0
  pub value : Sem → ℕ
  pub sem_init : ℕ → Option Sem
  pub sem_wait : Sem → Waited Sem
  pub sem_post : Sem → Option Sem

pub record Documented (x : PosixSem) : Type 0 where
  pub starts : (n : ℕ) (m : x.Sem) → x.sem_init n ≡ some m → x.value m ≡ n
  pub takes : (m m' : x.Sem) → x.sem_wait m ≡ goes_on m' → x.value m ≡ x.value m' + 1
  pub gives : (m m' : x.Sem) → x.sem_post m ≡ some m' → x.value m' ≡ x.value m + 1
  pub passes : (m : x.Sem) → x.value m ≢ 0 → x.sem_wait m ≢ blocks

-- How a method ends.
pub data Outcome (A : Type 0) : Type 0 where
  done : A → Outcome A
  throws : Text → Outcome A
  stays : Outcome A

module _ (x : PosixSem) where
  open x use {Sem, sem_init, sem_wait, sem_post}

  unfoldable pub new_semaphore : ℕ → Outcome Sem
  new_semaphore count = elim (sem_init count) [
    | none ↦ throws (codes "sem_init error")
    | some m ↦ done m
  ]

  unfoldable pub semaphore_wait : Sem → Outcome Sem
  semaphore_wait m = elim (sem_wait m) [
    | blocks ↦ stays
    | fails ↦ throws (codes "sem_wait error")
    | goes_on m' ↦ done m'
  ]

  unfoldable pub semaphore_notify : Sem → Outcome Sem
  semaphore_notify m = elim (sem_post m) [
    | none ↦ throws (codes "sem_post error")
    | some m' ↦ done m'
  ]

  -- The semaphore, with how many calls of `wait` and of `notify` have returned.
  pub record Counted : Type 0 where
    pub semaphore : Sem
    pub waits : ℕ
    pub notifies : ℕ

  -- A thread calls `notify`, or is at `wait`, for the first time or where it stays. A call that throws
  -- or stays leaves the semaphore as it is.
  unfoldable pub use_semaphore : Bool → Counted → Counted
  unfolding semaphore_wait semaphore_notify
  use_semaphore true s = elim (semaphore_notify s.semaphore) [
    | done m ↦ record s { semaphore = m; notifies = s.notifies + 1 }
    | throws what ↦ s
    | stays ↦ s
  ]
  use_semaphore false s = elim (semaphore_wait s.semaphore) [
    | done m ↦ record s { semaphore = m; waits = s.waits + 1 }
    | throws what ↦ s
    | stays ↦ s
  ]

  abbrev pub use_each : Counted → List Bool → Counted
  use_each s [] = s
  use_each s (u ∷ us) = use_each (use_semaphore u s) us

  abbrev pub unused : Sem → Counted
  unused m = record { semaphore = m; waits = 0; notifies = 0 }

  abbrev Balanced : ℕ → Counted → Type 0
  Balanced count s = x.value s.semaphore + s.waits ≡ count + s.notifies

  use_semaphore-Balanced :
      (count : ℕ)
      → Documented x
      → (u : Bool) (s : Counted) → Balanced count s
      → Balanced count (use_semaphore u s)
  unfolding use_semaphore semaphore_wait semaphore_notify
  use_semaphore-Balanced count d true s b = posted (sem_post s.semaphore) refl
    where
      posted : (r : Option Sem) → sem_post s.semaphore ≡ r → Balanced count (use_semaphore true s)
      posted none q = rw (q, use_semaphore, semaphore_notify) b
      posted (some m) q =
          let h = d.gives s.semaphore m q in rw (q, use_semaphore, semaphore_notify) (omega arith)
  use_semaphore-Balanced count d false s b = waited (sem_wait s.semaphore) refl
    where
      waited : (r : Waited Sem) → sem_wait s.semaphore ≡ r → Balanced count (use_semaphore false s)
      waited blocks q = rw (q, use_semaphore, semaphore_wait) b
      waited fails q = rw (q, use_semaphore, semaphore_wait) b
      waited (goes_on m) q =
          let h = d.takes s.semaphore m q in rw (q, use_semaphore, semaphore_wait) (omega arith)

  use_each-Balanced :
      (count : ℕ)
      → Documented x
      → (us : List Bool) (s : Counted) → Balanced count s
      → Balanced count (use_each s us)
  use_each-Balanced count d [] s b = b
  use_each-Balanced count d (u ∷ us) s b =
      use_each-Balanced count d us _ (use_semaphore-Balanced count d u s b)

  started : (count : ℕ) (m : Sem) → Documented x → new_semaphore count ≡ done m → x.value m ≡ count
  unfolding new_semaphore
  started count m d h = go (sem_init count) refl
    where
      go : (r : Option Sem) → sem_init count ≡ r → x.value m ≡ count
      go none q =
          let e : throws (codes "sem_init error") ≡ done m = rw (q, new_semaphore) at h in
          absurd (cc)
      go (some n) q =
          let e : done n ≡ done m = rw (q, new_semaphore) at h in
          d.starts count m (q ∙ ap some (cc))

  stuck : (m : Sem) → Documented x → x.value m ≢ 0 → semaphore_wait m ≢ stays
  unfolding semaphore_wait
  stuck m d ne h = go (sem_wait m) refl
    where
      go : (r : Waited Sem) → sem_wait m ≡ r → ⊥
      go blocks q = d.passes m ne q
      go fails q =
          let thrown : Outcome Sem = throws (codes "sem_wait error") in
          let e : thrown ≡ stays = rw (q, semaphore_wait) at h in absurd (cc)
      go (goes_on n) q = let e : done n ≡ stays = rw (q, semaphore_wait) at h in absurd (cc)

  -- Once a semaphore is made with a count, whatever threads call its methods, in whatever order, and
  -- whichever calls throw: no more calls of `wait` have returned than the count and the calls of
  -- `notify` that have returned, together; and while they are fewer, no thread stays in `wait`.
  pub use_each-unused :
      (count : ℕ) (m : Sem) (us : List Bool)
      → Documented x
      → new_semaphore count ≡ done m
      → let s = use_each (unused m) us in
        (s.waits ≤ count + s.notifies)
        × (s.waits ≢ count + s.notifies → semaphore_wait s.semaphore ≢ stays)
  use_each-unused count m us d h =
      let s = use_each (unused m) us in
      let e = started count m d h in
      let b : Balanced count s = use_each-Balanced count d us (unused m) (omega arith) in
      (omega arith, λ ne. stuck s.semaphore d (λ z. ne (omega arith)))
