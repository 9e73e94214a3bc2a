-- ===== src/Config/Overlap/Serial.antt =====
-- sylar/config.h: calls of `ConfigVar::setValue` that overlap, and calls one after another.
use sylar_server_study.Base.{
  ℕ, zero, suc, Bool, true, false, all, all-get, all-modify, all-append_one, length, List, [], ◌∷◌,
  ◌++◌, get_elem?, ◌≡◌, refl, sym, ap, ◌∙◌, arith, Bool-cases, Option-cases, inl, inr,
}
use sylar_server_study.Config.{Callback, Cast, Var, set_value, call_all}
use sylar_server_study.Config.Overlap.{
  SetCall, reading, assigning, Setting, SetStep, begins, goes_on, without, some_reading, begin_call,
  call_step, set_step, set_steps, set_each, calm, repeat, in_turn, differ,
}

module _ {T W : Type 0} (c : Cast T) where
  abbrev call_differs : T → SetCall T W → Bool
  call_differs old (reading x cbs) = differ c (old, x)
  call_differs old (assigning x) = true

  -- The value is another than each call's that holds the read lock, and was where listeners were told.
  record Distinct (s : Setting T W) : Type 0 where
    by_calls : all (call_differs s.var.value) s.calls ≡ true
    as_told : all (differ c) s.told ≡ true

  all-without :
      (q : SetCall T W → Bool) (i : ℕ) (ks : List (SetCall T W))
      → all q ks ≡ true
      → all q (without i ks) ≡ true
  all-without q i [] h = refl
  all-without q zero (k ∷ ks) h = ground arith
  all-without q (suc i) (k ∷ ks) h = ground (arith, all-without q i ks)

  none_reading :
      (ks : List (SetCall T W)) (v : T) → some_reading c ks ≡ false → all (call_differs v) ks ≡ true
  none_reading [] v h = refl
  none_reading (reading x cbs ∷ ks) v h = absurd (cc)
  none_reading (assigning x ∷ ks) v h = none_reading ks v h

  call_step-Distinct :
      (k : SetCall T W) (i : ℕ) (s : Setting T W)
      → call_differs s.var.value k ≡ true
      → Distinct s
      → Distinct (call_step c k i s)
  unfolding call_step
  call_step-Distinct (reading x []) i s h d = record {
    by_calls = all-modify _ s.calls i (λ k. assigning x) (λ k z. refl) d.by_calls;
    as_told = d.as_told;
  }
  call_step-Distinct (reading x ((id, cb) ∷ cbs)) i s h d = record {
    by_calls = all-modify _ s.calls i (λ k. reading x cbs) (λ k z. h) d.by_calls;
    as_told = all-append_one (differ c) s.told (s.var.value, x) d.as_told h;
  }
  call_step-Distinct (assigning x) i s h d = elim (Bool-cases (some_reading c s.calls)) [
    | inl busy ↦ rw (busy, call_step) d
    | inr free ↦
        rw (free, call_step)
          (record {
            by_calls = all-without _ i s.calls (none_reading s.calls x free);
            as_told = d.as_told;
          })
  ]

  set_step-Distinct : (u : SetStep T) (s : Setting T W) → Distinct s → Distinct (set_step c u s)
  unfolding set_step begin_call
  set_step-Distinct (begins x) s d = elim (Bool-cases (c.equal x s.var.value)) [
    | inl same ↦ rw (same, begin_call) d
    | inr other ↦
        rw (other, begin_call)
          (record {
            by_calls = all-append_one _ s.calls (reading x s.var.cbs) d.by_calls (ground arith);
            as_told = d.as_told;
          })
  ]
  set_step-Distinct (goes_on i) s d = elim (Option-cases (get_elem? s.calls i)) [
    | inl q ↦ rw (q, set_step) d
    | inr (k, q) ↦
        rw (q, set_step) (call_step-Distinct k i s (all-get _ s.calls i k d.by_calls q) d)
  ]

  set_steps-Distinct :
      (us : List (SetStep T)) (s : Setting T W) → Distinct s → Distinct (set_steps c s us)
  unfolding set_steps
  set_steps-Distinct [] s d = d
  set_steps-Distinct (u ∷ us) s d = set_steps-Distinct us (set_step c u s) (set_step-Distinct u s d)

  -- A state in which no call is under way, whatever was told.
  abbrev pub IsCalm : Setting T W → Var T W × W → Type 0
  IsCalm s (v, w) = (told : List (T × T)) × (s ≡ calm v w told)

  -- The only call tells the listeners, and assigns.
  alone-IsCalm :
      (cbs : List (ℕ × Callback T W)) (v : Var T W) (x : T) (w : W) (told : List (T × T))
      → IsCalm
          (set_steps c
            (record { var = v; world = w; calls = reading x cbs ∷ []; told = told })
            (repeat (suc (suc (length cbs))) (goes_on 0)))
          (record v { value = x }, call_all cbs v.value x w)
  unfolding set_steps set_step call_step call_all
  alone-IsCalm [] v x w told = (told, refl)
  alone-IsCalm ((id, cb) ∷ cbs) v x w told =
      alone-IsCalm cbs v x (cb v.value x w) (told ++ (v.value, x) ∷ [])

  vain-steps :
      (n : ℕ) (v : Var T W) (w : W) (told : List (T × T))
      → set_steps c (calm v w told) (repeat n (goes_on 0)) ≡ calm v w told
  unfolding set_steps set_step
  vain-steps zero v w told = refl
  vain-steps (suc n) v w told = vain-steps n v w told

  begin_same : (x : T) (s : Setting T W) → c.equal x s.var.value ≡ true → begin_call c x s ≡ s
  unfolding begin_call
  begin_same x s h = rw (h, begin_call) refl

  begin_other :
      (x : T) (s : Setting T W)
      → c.equal x s.var.value ≡ false
      → begin_call c x s ≡ record s { calls = s.calls ++ reading x s.var.cbs ∷ [] }
  unfolding begin_call
  begin_other x s h = rw (h, begin_call) refl

  one-IsCalm :
      (v : Var T W) (x : T) (w : W) (told : List (T × T))
      → IsCalm
          (set_steps c (calm v w told) (begins x ∷ repeat (suc (suc (length v.cbs))) (goes_on 0)))
          (set_value c v x w)
  unfolding set_steps set_step set_value
  one-IsCalm v x w told = elim (Bool-cases (c.equal x v.value)) [
    | inl same ↦
        rw (same, set_value)
          (
            told,
            ap (λ s. set_steps c s steps) (begin_same x (calm v w told) same)
                ∙ vain-steps (suc (suc (length v.cbs))) v w told,
          )
    | inr other ↦
        let (told', e) = alone-IsCalm v.cbs v x w told in
        rw (other, set_value)
          (told', ap (λ s. set_steps c s steps) (begin_other x (calm v w told) other) ∙ e)
  ]
    where
      steps : List (SetStep T)
      steps = repeat (suc (suc (length v.cbs))) (goes_on 0)

  set_steps-append :
      (s : Setting T W) (us vs : List (SetStep T))
      → set_steps c s (us ++ vs) ≡ set_steps c (set_steps c s us) vs
  unfolding set_steps
  set_steps-append s [] vs = refl
  set_steps-append s (u ∷ us) vs = set_steps-append (set_step c u s) us vs

  cbs-set_value : (v : Var T W) (x : T) (w : W) → (set_value c v x w).0.cbs ≡ v.cbs
  unfolding set_value
  cbs-set_value v x w = elim (Bool-cases (c.equal x v.value)) [
    | inl same ↦ rw (same, set_value) refl
    | inr other ↦ rw (other, set_value) refl
  ]

  in_turn-IsCalm :
      (xs : List T) (v : Var T W) (w : W) (told : List (T × T))
      → IsCalm (set_steps c (calm v w told) (in_turn (length v.cbs) xs)) (set_each c v xs w)
  unfolding set_steps set_each
  in_turn-IsCalm [] v w told = (told, refl)
  in_turn-IsCalm (x ∷ xs) v w told =
      let first : List (SetStep T) = begins x ∷ repeat (suc (suc (length v.cbs))) (goes_on 0) in
      let (v', w') = set_value c v x w in
      let (told', e) = one-IsCalm v x w told in
      let (told'', e') = in_turn-IsCalm xs v' w' told' in
      (
        told'',
        set_steps-append (calm v w told) first (in_turn (length v.cbs) xs)
            ∙ ap (λ s. set_steps c s (in_turn (length v.cbs) xs)) e
            ∙ ap (λ cbs. set_steps c (calm v' w' told') (in_turn (length cbs) xs))
                (sym (cbs-set_value v x w))
            ∙ e',
      )

  -- Whatever calls of `setValue` by whatever threads take their steps in whatever order: whenever a
  -- listener is called, `operator==` tells the new value apart from the value that the variable has
  -- then, which is the old one. And calls that do not overlap, one after another, come to the
  -- same variable and the same effects of the listeners as `set_value` called for each.
  pub set_steps-calm :
      (v : Var T W) (w : W) (us : List (SetStep T)) (xs : List T)
      → (all (differ c) (set_steps c (calm v w []) us).told ≡ true)
        × IsCalm (set_steps c (calm v w []) (in_turn (length v.cbs) xs)) (set_each c v xs w)
  set_steps-calm v w us xs = (
    (set_steps-Distinct us (calm v w []) (record { by_calls = refl; as_told = refl })).as_told,
    in_turn-IsCalm xs v w [],
  )
