-- ===== src/Lock/Counts.antt =====
-- How the holders of a `RWMutex` are counted.
use sylar_server_study.Base.{
  ℕ, zero, suc, ◌+◌, Bool, true, false, List, [], ◌∷◌, some, get_elem?, modify, ◌≡◌, ◌⊎◌, inl, inr,
  refl, sym, arith, eq_of_some,
}
use sylar_server_study.Lock.ReadWrite.{
  RwLock, RwLockLaws, acquires, Slot, no_guard, read_guard, write_guard,
}

abbrev pub as_reader : Slot → ℕ
as_reader (read_guard true) = 1
as_reader _ = 0

abbrev pub as_writer : Slot → ℕ
as_writer (write_guard true) = 1
as_writer _ = 0

abbrev pub total : (Slot → ℕ) → List Slot → ℕ
total w [] = 0
total w (x ∷ xs) = w x + total w xs

abbrev pub as_count : Bool → ℕ
as_count true = 1
as_count false = 0

pub total-modify :
    (w : Slot → ℕ) (xs : List Slot) (i : ℕ) (a b : Slot)
    → get_elem? xs i ≡ some a
    → total w (modify xs i (λ old. b)) + w a ≡ total w xs + w b
total-modify w [] i a b h = absurd (cc)
total-modify w (x ∷ xs) zero a b h = let e : x ≡ a = eq_of_some h in rw (sym e) (omega arith)
total-modify w (x ∷ xs) (suc i) a b h = omega (arith, total-modify w xs i a b h)

-- No writer, or one and no reader.
abbrev pub Exclusive : List Slot → Type 0
Exclusive slots =
    (total as_writer slots ≡ 0) ⊎ ((total as_writer slots ≡ 1) × (total as_reader slots ≡ 0))

abbrev pub idle : ℕ → List Slot
idle zero = []
idle (suc n) = no_guard ∷ idle n

pub idle-total : (n : ℕ) → (total as_reader (idle n) ≡ 0) × (total as_writer (idle n) ≡ 0)
idle-total zero = (refl, refl)
idle-total (suc n) = (omega (arith, (idle-total n).0), omega (arith, (idle-total n).1))

module _ (l : RwLock) (laws : RwLockLaws l) where
  open laws use {readers, writing}

  -- What the lock counts is what the scoped locks hold.
  pub record Counted (s : l.State × List Slot) : Type 0 where
    pub reading : readers s.0 ≡ total as_reader s.1
    pub written : as_count (writing s.0) ≡ total as_writer s.1
    pub exclusive : (writing s.0 ≡ false) ⊎ (readers s.0 ≡ 0)

  -- A change of the lock and of one slot by the same amounts.
  pub record Moves (m m' : l.State) (a b : Slot) : Type 0 where
    pub reading : readers m' + as_reader a ≡ readers m + as_reader b
    pub written : as_count (writing m') + as_writer a ≡ as_count (writing m) + as_writer b
    pub exclusive : (writing m' ≡ false) ⊎ (readers m' ≡ 0)

  pub Moves-Counted :
      (m m' : l.State) (slots : List Slot) (i : ℕ) (a b : Slot)
      → get_elem? slots i ≡ some a
      → Moves m m' a b
      → Counted (m, slots)
      → Counted (m', modify slots i (λ old. b))
  Moves-Counted m m' slots i a b q mv c = record {
    reading = omega (arith, mv.reading, c.reading, total-modify as_reader slots i a b q);
    written = omega (arith, mv.written, c.written, total-modify as_writer slots i a b q);
    exclusive = mv.exclusive;
  }

  pub stays : (m : l.State) (a : Slot) → ((writing m ≡ false) ⊎ (readers m ≡ 0)) → Moves m m a a
  stays m a x = record { reading = refl; written = refl; exclusive = x }

  pub starts_reading :
      (thread : ℕ) (m m' : l.State) (a : Slot)
      → as_reader a ≡ 0
      → as_writer a ≡ 0
      → l.pthread_rdlock thread m ≡ acquires m'
      → Moves m m' a (read_guard true)
  starts_reading thread m m' a r w h =
      let (x, y, z) = laws.for_reading thread m m' h in
      record { reading = omega (arith, r, z); written = rw (x, y, w) refl; exclusive = inl y }

  pub starts_writing :
      (thread : ℕ) (m m' : l.State) (a : Slot)
      → as_reader a ≡ 0
      → as_writer a ≡ 0
      → l.pthread_wrlock thread m ≡ acquires m'
      → Moves m m' a (write_guard true)
  starts_writing thread m m' a r w h =
      let (x, y, z, u) = laws.for_writing thread m m' h in
      record { reading = rw (y, u, r) refl; written = rw (x, z, w) refl; exclusive = inr u }
