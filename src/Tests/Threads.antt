-- ===== src/Tests/Threads.antt =====
-- Locks, and the start of a thread.
use sylar_server_study.Base.{
  ℕ, zero, suc, ◌-◌, ◌+◌, ◌≢◌, ◌≤◌, leb, if◌then◌else◌, ◌==◌, sym, Option, none, arith, Bool, true,
  false, codes, List, [], ◌∷◌, ◌++◌, some, ◌≡◌, refl,
}
use sylar_server_study.Lock.{read_scoped, outside, spinning, CasSystem, new_guard, end_guard}
use sylar_server_study.Lock.Scoped.{held, use_guard, held-guard}
use sylar_server_study.Lock.Exclusion.{count_inside, as_count, cas_run, count-cas_run}
use sylar_server_study.Lock.ReadWrite.{
  Answer, blocks, fails, acquires, RwLock, RwLockLaws, read_guard, write_guard, any_error, Use,
  open_read, open_write, relock, release, close, rw_run,
}
use sylar_server_study.Lock.Counts.{Exclusive, idle}
use sylar_server_study.Lock.Sharing.{rw_run-Exclusive}
use sylar_server_study.Thread.Life.{Released, end_thread, join_each, created, join_each-Released}
use sylar_server_study.Thread.{
  either_step, returned, thrown, constructed, is_thrown, Turn, creates_on, runs_on,
}
use sylar_server_study.Lock.ReadWrite.{
  use_slot, rw_step, new_read_guard, new_write_guard, read_guard_lock, read_guard_unlock,
  end_read_guard,
}
use sylar_server_study.Thread.Semaphore.{
  Waited, goes_on, PosixSem, Documented, Counted, use_each, unused, new_semaphore, stays,
  semaphore_wait, use_each-unused,
}
use sylar_server_study.Thread.Phases.{run_both, all_wait}
use sylar_server_study.Thread.Handshake.{HandedOver, returned-HandedOver, rest, run_both-returned}

held-guard_example :
    held false
      (end_guard
        (use_guard read_scoped (new_guard read_scoped) (true ∷ false ∷ false ∷ true ∷ []))).calls
    ≡ some false
held-guard_example = held-guard read_scoped (true ∷ false ∷ false ∷ true ∷ [])

abbrev three : CasSystem
three = record { flag = false; places = outside ∷ outside ∷ spinning ∷ [] }

count-cas_run_example :
    count_inside (cas_run three (0 ∷ 2 ∷ 1 ∷ 0 ∷ 2 ∷ [])).places
    ≡ as_count (cas_run three (0 ∷ 2 ∷ 1 ∷ 0 ∷ 2 ∷ [])).flag
count-cas_run_example = count-cas_run (0 ∷ 2 ∷ 1 ∷ 0 ∷ 2 ∷ []) three refl

-- The creating thread, then the new one as far as its `notify`, with one vain turn of the first.
abbrev turns : List Turn
turns =
    creates_on true
    ∷ runs_on
    ∷ runs_on
    ∷ creates_on true
    ∷ runs_on
    ∷ runs_on
    ∷ runs_on
    ∷ creates_on true
    ∷ []

turns_return : (run_both true 42 (constructed (codes "io") 7) turns).creator ≡ returned
unfolding either_step constructed
turns_return = refl

returned-HandedOver_example :
    HandedOver true 42 7 (codes "io") (run_both true 42 (constructed (codes "io") 7) turns)
returned-HandedOver_example = returned-HandedOver true 42 7 (codes "io") turns turns_return

-- The call of `sem_wait` fails, and the new thread goes on with the destroyed object.
abbrev broken : List Turn
broken = creates_on true ∷ runs_on ∷ creates_on false ∷ runs_on ∷ []

broken_is_undefined : (run_both true 42 (constructed (codes "io") 7) broken).is_undefined ≡ true
unfolding either_step constructed
broken_is_undefined = refl

run_both-returned_example :
    let s = run_both true 42 (constructed (codes "io") 7) broken in
    ((run_both true 42 (constructed (codes "io") 7) (broken ++ rest)).creator
      ≡ (if is_thrown s.creator then thrown else returned))
    × (all_wait broken ≡ true → (is_thrown s.creator ≡ false) × (s.is_undefined ≡ false))
run_both-returned_example = run_both-returned 42 7 (codes "io") broken

-- A lock that counts its readers and knows its writer, to whom it returns an error.
abbrev count_read : ℕ → ℕ → Option ℕ → Answer (ℕ × Option ℕ)
count_read thread n (some w) = if thread == w then fails else blocks
count_read thread n none = acquires (suc n, none)

abbrev count_write : ℕ → ℕ → Option ℕ → Answer (ℕ × Option ℕ)
count_write thread n (some w) = if thread == w then fails else blocks
count_write thread zero none = acquires (0, some thread)
count_write thread (suc n) none = blocks

abbrev count_less : ℕ → Option ℕ → ℕ × Option ℕ
count_less n (some w) = (n, none)
count_less n none = (n - 1, none)

abbrev is_held : Option ℕ → Bool
is_held none = false
is_held (some w) = true

abbrev counting : RwLock
counting = record {
  State = ℕ × Option ℕ;
  free = (0, none);
  pthread_rdlock = λ thread s. count_read thread s.0 s.1;
  pthread_wrlock = λ thread s. count_write thread s.0 s.1;
  pthread_unlock = λ thread s. count_less s.0 s.1;
}

counting-Laws : RwLockLaws counting
counting-Laws = record {
  readers = λ s. s.0;
  writing = λ s. is_held s.1;
  at_first = (refl, refl);
  for_reading = λ thread s t h. read thread s.0 s.1 t.0 t.1 h;
  for_writing = λ thread s t h. write thread s.0 s.1 t.0 t.1 h;
  after_writing = λ thread s h. wrote s.0 s.1 h;
  after_reading = λ thread s k h e. was_read s.0 s.1 k h e;
}
  where
    refused : (b : Bool) (s : ℕ × Option ℕ) → (if b then fails else blocks) ≡ acquires s → ⊥
    refused true s h = cc
    refused false s h = cc

    read :
        (thread n : ℕ) (w : Option ℕ) (n' : ℕ) (w' : Option ℕ)
        → count_read thread n w ≡ acquires (n', w')
        → (is_held w ≡ false) × (is_held w' ≡ false) × (n' ≡ suc n)
    read thread n (some w) n' w' h = absurd (refused (thread == w) (n', w') h)
    read thread n none n' w' h = let e : none ≡ w' = cc in (refl, rw (sym e) refl, cc)

    write :
        (thread n : ℕ) (w : Option ℕ) (n' : ℕ) (w' : Option ℕ)
        → count_write thread n w ≡ acquires (n', w')
        → (is_held w ≡ false) × (n ≡ 0) × (is_held w' ≡ true) × (n' ≡ 0)
    write thread n (some w) n' w' h = absurd (refused (thread == w) (n', w') h)
    write thread zero none n' w' h =
        let e : some thread ≡ w' = cc in (refl, refl, rw (sym e) refl, cc)
    write thread (suc n) none n' w' h = absurd (cc)

    wrote :
        (n : ℕ) (w : Option ℕ)
        → is_held w ≡ true
        → (is_held (count_less n w).1 ≡ false) × ((count_less n w).0 ≡ n)
    wrote n (some w) h = (refl, refl)
    wrote n none h = absurd (cc)

    was_read :
        (n : ℕ) (w : Option ℕ) (k : ℕ)
        → is_held w ≡ false
        → n ≡ suc k
        → (is_held (count_less n w).1 ≡ false) × ((count_less n w).0 ≡ k)
    was_read n (some w) k h e = absurd (cc)
    was_read n none k h e = (refl, omega arith)

-- Two threads, the first of which has the places 0 and 1.
abbrev owners : ℕ → ℕ
owners zero = 0
owners (suc zero) = 0
owners _ = 1

-- The first thread nests two scoped locks for reading, while the second waits to write.
abbrev uses : List (ℕ × Use)
uses =
    (0, open_read)
    ∷ (1, open_read)
    ∷ (2, open_write)
    ∷ (0, close)
    ∷ (1, release)
    ∷ (2, open_write)
    ∷ (1, relock)
    ∷ []

uses_go_well : any_error counting owners (counting.free, idle 3) uses ≡ false
unfolding rw_step use_slot new_read_guard new_write_guard read_guard_lock read_guard_unlock
    end_read_guard
uses_go_well = refl

rw_run-Exclusive_example : Exclusive (rw_run counting owners (counting.free, idle 3) uses).1
rw_run-Exclusive_example = rw_run-Exclusive counting counting-Laws owners 3 uses uses_go_well

-- A thread that locks for writing and then for reading gets an error, which leaves both scoped locks
-- locked.
both_locked :
    (rw_run counting owners (counting.free, idle 2) ((0, open_write) ∷ (1, open_read) ∷ [])).1
    ≡ write_guard true ∷ read_guard true ∷ []
unfolding rw_run rw_step use_slot new_read_guard new_write_guard
both_locked = refl

join_each-Released_example :
    Released (end_thread (join_each created (false ∷ true ∷ true ∷ []))).calls
join_each-Released_example = join_each-Released (false ∷ true ∷ true ∷ [])

-- A semaphore that counts to two.
abbrev count_down : ℕ → Waited ℕ
count_down zero = Waited.blocks
count_down (suc n) = goes_on n

abbrev to_two : PosixSem
to_two = record {
  Sem = ℕ;
  value = λ n. n;
  sem_init = λ n. if leb n 2 then some n else none;
  sem_wait = count_down;
  sem_post = λ n. if leb n 1 then some (n + 1) else none;
}

to_two-Documented : Documented to_two
to_two-Documented = record {
  starts = λ n m h. ground arith;
  takes = taken;
  gives = λ n m h. ground arith;
  passes = passed;
}
  where
    taken : (m n : ℕ) → count_down m ≡ goes_on n → m ≡ n + 1
    taken zero n h = absurd (cc)
    taken (suc m) n h = let e : m ≡ n = cc in omega arith

    passed : (m : ℕ) → m ≢ 0 → count_down m ≢ Waited.blocks
    passed zero ne h = ne refl
    passed (suc m) ne h = cc

abbrev shared : Counted to_two
shared = use_each to_two (unused to_two 1) (false ∷ false ∷ true ∷ true ∷ true ∷ false ∷ [])

use_each-unused_example :
    (shared.waits ≤ 1 + shared.notifies)
    × (shared.waits ≢ 1 + shared.notifies → semaphore_wait to_two shared.semaphore ≢ stays)
unfolding new_semaphore
use_each-unused_example =
    use_each-unused to_two 1 1 (false ∷ false ∷ true ∷ true ∷ true ∷ false ∷ []) to_two-Documented
      refl
