-- ===== src/Lock/Sharing.antt =====
-- sylar/thread.h: who holds a `RWMutex` through scoped locks.
use sylar_server_study.Base.{
  ℕ, zero, suc, Bool, true, false, List, [], ◌∷◌, Option, none, some, ◌>>=◌, get_elem?, ◌≡◌, ◌⊎◌,
  ◌≤◌, inl, inr, refl, sym, ap, ◌∙◌, arith, Bool-cases, Option-cases, eq_of_some, subst,
}
use sylar_server_study.Lock.ReadWrite.{
  RwLock, RwLockLaws, Answer, blocks, fails, acquires, Slot, no_guard, read_guard, write_guard, Use,
  open_read, open_write, relock, release, close, new_read_guard, new_write_guard, read_guard_lock,
  write_guard_lock, read_guard_unlock, write_guard_unlock, end_read_guard, end_write_guard,
  use_slot, is_failed, gets_error, RwSystem, error_at, any_error, rw_step, rw_run,
}
use sylar_server_study.Lock.Counts.{
  as_reader, as_writer, as_count, total, Exclusive, idle, idle-total, Counted, Moves, Moves-Counted,
  stays, starts_reading, starts_writing,
}

module _ (l : RwLock) (laws : RwLockLaws l) where
  open laws use {readers, writing}

  -- What the counts say of one slot.
  record Allows (m : l.State) (a : Slot) : Type 0 where
    exclusive : (writing m ≡ false) ⊎ (readers m ≡ 0)
    as_reading : as_reader a ≡ 1 → (writing m ≡ false) × ((n : ℕ) × (readers m ≡ suc n))
    as_writing : as_writer a ≡ 1 → writing m ≡ true

  total-get_elem? :
      (w : Slot → ℕ) (xs : List Slot) (i : ℕ) (a : Slot)
      → get_elem? xs i ≡ some a
      → w a ≤ total w xs
  total-get_elem? w [] i a h = absurd (cc)
  total-get_elem? w (x ∷ xs) zero a h = let e : x ≡ a = eq_of_some h in rw (sym e) (omega arith)
  total-get_elem? w (x ∷ xs) (suc i) a h = omega (arith, total-get_elem? w xs i a h)

  positive : (n : ℕ) → 1 ≤ n → (k : ℕ) × (n ≡ suc k)
  positive zero h = absurd (omega arith)
  positive (suc k) h = (k, refl)

  Counted-Allows :
      (m : l.State) (slots : List Slot) (i : ℕ) (a : Slot)
      → get_elem? slots i ≡ some a
      → Counted l laws (m, slots)
      → Allows m a
  Counted-Allows m slots i a q c = record {
    exclusive = c.exclusive;
    as_reading = λ r.
        let p =
          positive (readers m)
            (omega (arith, r, c.reading, total-get_elem? as_reader slots i a q)) in
        (not_writing p.0 p.1 c.exclusive, p);
    as_writing = λ r.
        is_writing (writing m) (omega (arith, r, c.written, total-get_elem? as_writer slots i a q));
  }
    where
      not_writing :
          (n : ℕ) → readers m ≡ suc n → ((writing m ≡ false) ⊎ (readers m ≡ 0)) → writing m ≡ false
      not_writing n h (inl x) = x
      not_writing n h (inr x) = absurd (omega arith)

      is_writing : (b : Bool) → 1 ≤ as_count b → b ≡ true
      is_writing true h = refl
      is_writing false h = absurd (omega arith)

  ends_reading :
      (thread : ℕ) (m : l.State) (b : Slot)
      → as_reader b ≡ 0
      → as_writer b ≡ 0
      → Allows m (read_guard true)
      → Moves l laws m (l.pthread_unlock thread m) (read_guard true) b
  ends_reading thread m b r w c =
      let (x, (n, y)) = c.as_reading refl in
      let (z, u) = laws.after_reading thread m n x y in
      record {
        reading = rw (y, u, r) (omega arith);
        written = rw (x, z, w) refl;
        exclusive = inl z;
      }

  ends_writing :
      (thread : ℕ) (m : l.State) (b : Slot)
      → as_reader b ≡ 0
      → as_writer b ≡ 0
      → Allows m (write_guard true)
      → Moves l laws m (l.pthread_unlock thread m) (write_guard true) b
  ends_writing thread m b r w c =
      let x = c.as_writing refl in
      let (z, u) = laws.after_writing thread m x in
      record { reading = rw (u, r) refl; written = rw (x, z, w) refl; exclusive = inl z }

  -- A call that does not block moves the counts of the lock as it moves those of the slot.
  abbrev Moving : l.State → Slot → Option (l.State × Slot) → Type 0
  Moving m a none = Unit
  Moving m a (some r) = Moves l laws m r.0 a r.1

  locks_reading :
      (thread : ℕ) (m : l.State) (a : Slot)
      → as_reader a ≡ 0
      → as_writer a ≡ 0
      → is_failed l thread (l.pthread_rdlock thread m) ≡ false
      → Moving m a (new_read_guard l thread m >>= λ (m', b). some (m', read_guard b))
  unfolding new_read_guard
  locks_reading thread m a r w g = go (l.pthread_rdlock thread m) refl
    where
      go :
          (x : Answer l.State)
          → l.pthread_rdlock thread m ≡ x
          → Moving m a (new_read_guard l thread m >>= λ (m', b). some (m', read_guard b))
      go blocks q = rw q tt
      go fails q = absurd (ground arith)
      go (acquires m') q = rw q (starts_reading l laws thread m m' a r w q)

  locks_writing :
      (thread : ℕ) (m : l.State) (a : Slot)
      → as_reader a ≡ 0
      → as_writer a ≡ 0
      → is_failed l thread (l.pthread_wrlock thread m) ≡ false
      → Moving m a (new_write_guard l thread m >>= λ (m', b). some (m', write_guard b))
  unfolding new_write_guard
  locks_writing thread m a r w g = go (l.pthread_wrlock thread m) refl
    where
      go :
          (x : Answer l.State)
          → l.pthread_wrlock thread m ≡ x
          → Moving m a (new_write_guard l thread m >>= λ (m', b). some (m', write_guard b))
      go blocks q = rw q tt
      go fails q = absurd (ground arith)
      go (acquires m') q = rw q (starts_writing l laws thread m m' a r w q)

  use_slot-Moving :
      (thread : ℕ) (u : Use) (m : l.State) (a : Slot)
      → gets_error l thread u m a ≡ false
      → Allows m a
      → Moving m a (use_slot l thread u m a)
  unfolding use_slot new_read_guard new_write_guard read_guard_lock write_guard_lock
      read_guard_unlock write_guard_unlock end_read_guard end_write_guard
  use_slot-Moving thread open_read m no_guard g c = locks_reading thread m no_guard refl refl g
  use_slot-Moving thread open_read m (read_guard b) g c = stays l laws m (read_guard b) c.exclusive
  use_slot-Moving thread open_read m (write_guard b) g c =
      stays l laws m (write_guard b) c.exclusive
  use_slot-Moving thread open_write m no_guard g c = locks_writing thread m no_guard refl refl g
  use_slot-Moving thread open_write m (read_guard b) g c = stays l laws m (read_guard b) c.exclusive
  use_slot-Moving thread open_write m (write_guard b) g c =
      stays l laws m (write_guard b) c.exclusive
  use_slot-Moving thread relock m no_guard g c = stays l laws m no_guard c.exclusive
  use_slot-Moving thread relock m (read_guard true) g c =
      stays l laws m (read_guard true) c.exclusive
  use_slot-Moving thread relock m (read_guard false) g c =
      locks_reading thread m (read_guard false) refl refl g
  use_slot-Moving thread relock m (write_guard true) g c =
      stays l laws m (write_guard true) c.exclusive
  use_slot-Moving thread relock m (write_guard false) g c =
      locks_writing thread m (write_guard false) refl refl g
  use_slot-Moving thread release m no_guard g c = stays l laws m no_guard c.exclusive
  use_slot-Moving thread release m (read_guard true) g c =
      ends_reading thread m (read_guard false) refl refl c
  use_slot-Moving thread release m (read_guard false) g c =
      stays l laws m (read_guard false) c.exclusive
  use_slot-Moving thread release m (write_guard true) g c =
      ends_writing thread m (write_guard false) refl refl c
  use_slot-Moving thread release m (write_guard false) g c =
      stays l laws m (write_guard false) c.exclusive
  use_slot-Moving thread close m no_guard g c = stays l laws m no_guard c.exclusive
  use_slot-Moving thread close m (read_guard true) g c = ends_reading thread m no_guard refl refl c
  use_slot-Moving thread close m (read_guard false) g c = record {
    reading = refl;
    written = refl;
    exclusive = c.exclusive;
  }
  use_slot-Moving thread close m (write_guard true) g c = ends_writing thread m no_guard refl refl c
  use_slot-Moving thread close m (write_guard false) g c = record {
    reading = refl;
    written = refl;
    exclusive = c.exclusive;
  }

  module _ (owner : ℕ → ℕ) where
    abbrev System : Type 0
    System = RwSystem l owner

    rw_step-Counted :
        (s : System) (i : ℕ) (u : Use)
        → error_at l owner u i s.0 (get_elem? s.1 i) ≡ false
        → Counted l laws s
        → Counted l laws (rw_step l owner s i u)
    unfolding rw_step
    rw_step-Counted (m, slots) i u g c = elim (Option-cases (get_elem? slots i)) [
      | inl q ↦ rw (q, rw_step) c
      | inr (a, q) ↦
          let moving =
            use_slot-Moving (owner i) u m a (ap (error_at l owner u i m) (sym q) ∙ g)
              (Counted-Allows m slots i a q c) in
          elim (Option-cases (use_slot l (owner i) u m a)) [
            | inl q' ↦ rw (q, q', rw_step) c
            | inr (r, q') ↦
                rw (q, q', rw_step)
                  (Moves-Counted l laws m r.0 slots i a r.1 q (subst (Moving m a) q' moving) c)
          ]
    ]

    rw_run-Counted :
        (us : List (ℕ × Use)) (s : System)
        → any_error l owner s us ≡ false
        → Counted l laws s
        → Counted l laws (rw_run l owner s us)
    unfolding rw_run
    rw_run-Counted [] s g c = c
    rw_run-Counted ((i, u) ∷ us) s g c =
        let now : error_at l owner u i s.0 (get_elem? s.1 i) ≡ false = ground arith in
        let later : any_error l owner (rw_step l owner s i u) us ≡ false = ground arith in
        rw_run-Counted us (rw_step l owner s i u) later (rw_step-Counted s i u now c)

    Counted-Exclusive : (s : System) → Counted l laws s → Exclusive s.1
    Counted-Exclusive (m, slots) c = elim (Bool-cases (writing m)) [
      | inl yes' ↦ elim c.exclusive [
        | inl no' ↦ absurd (ground arith)
        | inr r ↦ inr (sym c.written ∙ ap as_count yes', sym c.reading ∙ r)
      ]
      | inr no' ↦ inl (sym c.written ∙ ap as_count no')
    ]

    -- In whatever order threads construct scoped locks of a `RWMutex`, each any number, call their
    -- `lock` and `unlock`, and destroy them, as long as no call of pthread that asks for the lock
    -- returns an error: either no scoped lock is locked for writing, or one is, and none is locked
    -- for reading. The pthread lock counts how often it is held, and gives itself for reading only
    -- while it is not held for writing, and for writing only while it is not held; at first it is
    -- free, and there are no scoped locks.
    pub rw_run-Exclusive :
        (n : ℕ) (us : List (ℕ × Use))
        → any_error l owner (l.free, idle n) us ≡ false
        → Exclusive (rw_run l owner (l.free, idle n) us).1
    rw_run-Exclusive n us g = Counted-Exclusive (rw_run l owner (l.free, idle n) us) (
        rw_run-Counted us (l.free, idle n) g
          (record {
            reading = laws.at_first.0 ∙ sym (idle-total n).0;
            written = ap as_count laws.at_first.1 ∙ sym (idle-total n).1;
            exclusive = inl laws.at_first.1;
          }))
