-- ===== src/Lock/Exclusion.antt =====
-- Mutual exclusion of a `CASLock`.
use sylar_server_study.Base.{
  ℕ, suc, zero, Bool, true, false, if◌then◌else◌, List, [], ◌∷◌, some, get_elem?,
  get_elem?-modify_self, modify, ◌≡◌, refl, ◌∙◌, arith, Option-cases, Bool-cases, inl, inr,
}
use sylar_server_study.Lock.{
  Place, outside, spinning, inside, CasSystem, is_inside, test_and_set, cas_unlock, cas_step,
}

abbrev pub count_inside : List Place → ℕ
count_inside [] = 0
count_inside (p ∷ ps) = if is_inside p then suc (count_inside ps) else count_inside ps

-- The threads take their accesses in any order.
abbrev pub cas_run : CasSystem → List ℕ → CasSystem
cas_run s [] = s
cas_run s (i ∷ is) = cas_run (cas_step s i) is

abbrev pub as_count : Bool → ℕ
as_count true = 1
as_count false = 0

count-leave :
    (ps : List Place) (i : ℕ) (p : Place)
    → get_elem? ps i ≡ some p
    → is_inside p ≡ true
    → suc (count_inside (modify ps i (λ q. outside))) ≡ count_inside ps
count-leave [] i p q h = absurd (cc)
count-leave (r ∷ ps) zero p q h = ground arith
count-leave (r ∷ ps) (suc i) p q h = ground (arith, count-leave ps i p)

count-try :
    (flag : Bool) (ps : List Place) (i : ℕ) (p : Place)
    → get_elem? ps i ≡ some p
    → is_inside p ≡ false
    → count_inside (modify ps i (λ q. if flag then spinning else inside))
      ≡ (if flag then count_inside ps else suc (count_inside ps))
count-try flag [] i p q h = absurd (cc)
count-try flag (r ∷ ps) zero p q h = ground arith
count-try flag (r ∷ ps) (suc i) p q h = ground (arith, count-try flag ps i p)

cas_step-count :
    (s : CasSystem) (i : ℕ)
    → count_inside s.places ≡ as_count s.flag
    → count_inside (cas_step s i).places ≡ as_count (cas_step s i).flag
unfolding cas_step test_and_set cas_unlock
cas_step-count s i h = elim (Option-cases (get_elem? s.places i)) [
  | inl q ↦ rw (q, cas_step) h
  | inr (p, q) ↦ elim (Bool-cases (is_inside p)) [
    | inl yes' ↦ rw (q, cas_step) (simp yes' (ground (arith, count-leave s.places i p)))
    | inr no' ↦ rw (q, cas_step) (simp no' (ground (arith, count-try s.flag s.places i p)))
  ]
]

-- In whatever order threads that use a `CASLock` take their atomic accesses, from a state in which
-- the flag is set exactly if one thread is inside, at most one thread is inside, and the flag is set
-- exactly if one is.
pub count-cas_run :
    (is : List ℕ) (s : CasSystem)
    → count_inside s.places ≡ as_count s.flag
    → count_inside (cas_run s is).places ≡ as_count (cas_run s is).flag
count-cas_run [] s h = h
count-cas_run (i ∷ is) s h = count-cas_run is (cas_step s i) (cas_step-count s i h)

none_inside : (flag : Bool) (n : ℕ) → n ≡ as_count flag → n ≡ 0 → flag ≡ false
none_inside true n h e = absurd (ground arith)
none_inside false n h e = refl

-- If the flag of a `CASLock` is set exactly if one thread is inside, and none is, the next access
-- of any thread lets it in.
pub cas_step-enters :
    (s : CasSystem) (i : ℕ) (p : Place)
    → count_inside s.places ≡ as_count s.flag
    → count_inside s.places ≡ 0
    → get_elem? s.places i ≡ some p
    → is_inside p ≡ false
    → get_elem? (cas_step s i).places i ≡ some inside
unfolding cas_step test_and_set
cas_step-enters s i p h e q no' =
    let free = none_inside s.flag (count_inside s.places) h e in
    rw (q, cas_step)
      (simp no' (
        get_elem?-modify_self s.places i (λ z. if s.flag then spinning else inside) p q
        ∙ rw free refl))
