-- ===== src/Config/Overlap.antt =====
-- sylar/config.h: `ConfigVar::setValue` called by several threads, as steps in any order. The read lock
-- is shared: calls that hold it tell the listeners in turns. The write lock waits for them, and the
-- assignment under it is one step.
pub mod Serial
use sylar_server_study.Base.{
  ℕ, zero, suc, Bool, true, false, not, if◌then◌else◌, all, all-get, all-modify, all-append_one,
  length, List, [], ◌∷◌, ◌++◌, none, some, get_elem?, modify, ◌≡◌, refl, sym, ap, ◌∙◌, arith,
  Bool-cases, Option-cases, inl, inr,
}
use sylar_server_study.Config.{Callback, Cast, Var, set_value, call_all}

-- Where a call stands: under the read lock, with the listeners that it has still to call; or before
-- the write lock.
pub data SetCall (T W : Type 0) : Type 0 where
  reading : T → List (ℕ × Callback T W) → SetCall T W
  assigning : T → SetCall T W

-- The variable, what the listeners change, the calls under way, and the old and the new value with
-- which listeners were called.
pub record Setting (T W : Type 0) : Type 0 where
  pub var : Var T W
  pub world : W
  pub calls : List (SetCall T W)
  pub told : List (T × T)

-- A thread calls `setValue`, or the call at this place goes on.
pub data SetStep (T : Type 0) : Type 0 where
  begins : T → SetStep T
  goes_on : ℕ → SetStep T

abbrev pub without : {A : Type 0} → ℕ → List A → List A
without i [] = []
without zero (x ∷ xs) = xs
without (suc i) (x ∷ xs) = x ∷ without i xs

module _ {T W : Type 0} (c : Cast T) where
  abbrev pub some_reading : List (SetCall T W) → Bool
  some_reading [] = false
  some_reading (reading x cbs ∷ ks) = true
  some_reading (assigning x ∷ ks) = some_reading ks

  -- The read lock, and `if (v == m_val) return`.
  unfoldable pub begin_call : T → Setting T W → Setting T W
  begin_call x s =
      if c.equal x s.var.value then s else record s { calls = s.calls ++ reading x s.var.cbs ∷ [] }

  -- The next listener, the end of the read lock, or the assignment under the write lock, which waits
  -- while another call holds the read lock.
  unfoldable pub call_step : SetCall T W → ℕ → Setting T W → Setting T W
  call_step (reading x []) i s = record s { calls = modify s.calls i (λ k. assigning x) }
  call_step (reading x ((id, cb) ∷ cbs)) i s = record s {
    world = cb s.var.value x s.world;
    told = s.told ++ (s.var.value, x) ∷ [];
    calls = modify s.calls i (λ k. reading x cbs);
  }
  call_step (assigning x) i s =
      if some_reading s.calls
      then s
      else record s { var = record s.var { value = x }; calls = without i s.calls }

  unfoldable pub set_step : SetStep T → Setting T W → Setting T W
  unfolding begin_call call_step
  set_step (begins x) s = begin_call x s
  set_step (goes_on i) s = elim (get_elem? s.calls i) [ none ↦ s | some k ↦ call_step k i s ]

  unfoldable pub set_steps : Setting T W → List (SetStep T) → Setting T W
  unfolding set_step
  set_steps s [] = s
  set_steps s (u ∷ us) = set_steps (set_step u s) us

  -- The calls one after another.
  unfoldable pub set_each : Var T W → List T → W → Var T W × W
  set_each v [] w = (v, w)
  set_each v (x ∷ xs) w = let (v', w') = set_value c v x w in set_each v' xs w'

abbrev pub calm : {T W : Type 0} → Var T W → W → List (T × T) → Setting T W
calm v w told = record { var = v; world = w; calls = []; told = told }

abbrev pub repeat : {A : Type 0} → ℕ → A → List A
repeat zero a = []
repeat (suc n) a = a ∷ repeat n a

-- The steps of calls that do not overlap, for a variable with `n` listeners.
abbrev pub in_turn : {T : Type 0} → ℕ → List T → List (SetStep T)
in_turn n [] = []
in_turn n (x ∷ xs) = begins x ∷ (repeat (suc (suc n)) (goes_on 0) ++ in_turn n xs)

-- `operator==` tells the two values apart.
abbrev pub differ : {T : Type 0} → Cast T → T × T → Bool
differ c (old, new) = not (c.equal new old)
