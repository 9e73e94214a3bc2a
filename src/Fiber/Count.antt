-- ===== src/Fiber/Count.antt =====
-- `TotalFibers` counts the fibers that have not been destroyed.
use sylar_server_study.Base.{
  ℕ, suc, zero, ◌+◌, Bool, true, false, ◌&&◌, if◌then◌else◌, List, [], ◌∷◌, ◌++◌, Option, none,
  some, eq_of_some, get_elem?, modify, length, ◌≡◌, ◌≢◌, refl, sym, subst, ◌∙◌, arith, Option-cases,
  Bool-cases, inl, inr,
}
use sylar_server_study.Fiber.{
  exec, Fiber, System, is_idle, at_fiber, destroyed, destroy, reset, new_fiber, get_this, swap_in,
  yield_to, main_func_end, child, with_child, same_pointer,
}
use sylar_server_study.Fiber.Turns.{
  IsOrderly, put, yielded, ended, swap_in_lem, yield_to_lem, main_func_end_lem,
}
use sylar_server_study.Fiber.Changes.{
  swap_in-not_exec, new_fiber_step, reset_step, destroy_step, counted, renew,
}
use sylar_server_study.Fiber.Runs.{
  Step, make, enter, pause, finish, again, drop, Reach, start, next, Reach-IsOrderly,
}

-- How many are alive.
abbrev pub alive : List Fiber → ℕ
alive [] = 0
alive (x ∷ xs) = if x.is_alive then suc (alive xs) else alive xs

alive-modify :
    (xs : List Fiber) (f : ℕ) (g : Fiber → Fiber)
    → ((x : Fiber) → (g x).is_alive ≡ x.is_alive)
    → alive (modify xs f g) ≡ alive xs
alive-modify [] f g k = refl
alive-modify (x ∷ xs) zero g k = rw (k x) refl
alive-modify (x ∷ xs) (suc f) g k = rw (alive-modify xs f g k) refl

alive-append :
    (xs : List Fiber) (x : Fiber) → x.is_alive ≡ true → alive (xs ++ x ∷ []) ≡ suc (alive xs)
alive-append [] x h = rw h refl
alive-append (y ∷ xs) x h = ground (arith, alive-append xs x h)

alive-killed :
    (xs : List Fiber) (f : ℕ) (x : Fiber)
    → get_elem? xs f ≡ some x
    → x.is_alive ≡ true
    → suc (alive (modify xs f (λ y. record y { is_alive = false }))) ≡ alive xs
alive-killed [] f x q h = absurd (cc)
alive-killed (y ∷ xs) zero x q h =
    let y=x : y ≡ x = eq_of_some q in ground (arith, rw (sym y=x) at h)
alive-killed (y ∷ xs) (suc f) x q h = ground (arith, alive-killed xs f x q h)

IsCounted : System → Type 0
IsCounted s = s.s_fiber_count ≡ alive s.fibers

IsCounted-result :
    {t u : System} (r : Option System) → r ≡ some t → r ≡ some u → IsCounted u → IsCounted t
IsCounted-result r h k c = subst IsCounted (eq_of_some (sym k ∙ h)) c

ended-alive : (returned : Bool) (x : Fiber) → (ended returned x).is_alive ≡ x.is_alive
ended-alive true x = refl
ended-alive false x = refl

reset-IsCounted :
    (main f : ℕ) (s t : System) (has_cb : Bool)
    → IsOrderly main s
    → reset s f has_cb ≡ some t
    → IsCounted s
    → IsCounted t
unfolding reset IsCounted
reset-IsCounted main f s t has_cb v h c = elim (Option-cases (get_elem? s.fibers f)) [
  | inl q ↦
      let failed : reset s f has_cb ≡ none = rw (q, reset) refl in absurd (cc (sym failed ∙ h))
  | inr (x, q) ↦ elim (Bool-cases (x.has_stack && is_idle x.state)) [
    | inl good ↦
        IsCounted-result {u = at_fiber s f (renew f main has_cb)} (reset s f has_cb) h
          (reset_step s f main has_cb x q v.thread ∙ simp good refl)
          (c ∙ sym (alive-modify s.fibers f (renew f main has_cb) (λ y. refl)))
    | inr bad ↦
        let failed : reset s f has_cb ≡ none =
          reset_step s f main has_cb x q v.thread ∙ simp bad refl in
        absurd (cc (sym failed ∙ h))
  ]
]

destroy-IsCounted :
    (main f : ℕ) (s t : System) (x : Fiber)
    → f ≢ main
    → IsOrderly main s
    → get_elem? s.fibers f ≡ some x
    → x.is_alive ≡ true
    → destroy s f ≡ some t
    → IsCounted s
    → IsCounted t
unfolding IsCounted
destroy-IsCounted main f s t x ne v q l h c = elim (Bool-cases (is_idle x.state)) [
  | inl good ↦
      IsCounted-result {u = destroyed s f} (destroy s f) h
        (destroy_step main f s x ne v q ∙ simp good refl)
        (omega (arith, alive-killed s.fibers f x q l, c))
  | inr bad ↦
      let failed : destroy s f ≡ none = destroy_step main f s x ne v q ∙ simp bad refl in
      absurd (cc (sym failed ∙ h))
]

abbrev with_child_new : System → ℕ → Bool → ℕ → ℕ → Fiber
with_child_new s main has_cb size default_size =
    child (length s.fibers) (s.s_fiber_id + 1) main has_cb size default_size

new_fiber-IsCounted :
    (main f size default_size : ℕ) (s t : System) (has_cb : Bool)
    → IsOrderly main s
    → new_fiber s has_cb size default_size ≡ some (t, f)
    → IsCounted s
    → IsCounted t
unfolding IsCounted
new_fiber-IsCounted main f size default_size s t has_cb v h c =
    elim (Bool-cases (same_pointer s.t_fiber (some main))) [
      | inl good ↦
          let done : new_fiber s has_cb size default_size
              ≡ some (with_child (counted s) main has_cb size default_size) =
            new_fiber_step s has_cb main size default_size v.thread ∙ simp good refl in
          subst (λ u. IsCounted u.0) (eq_of_some (sym done ∙ h))
            (omega (
              arith,
              c,
              alive-append s.fibers (with_child_new s main has_cb size default_size) refl,
            ))
      | inr bad ↦
          let failed : new_fiber s has_cb size default_size ≡ none =
            new_fiber_step s has_cb main size default_size v.thread ∙ simp bad refl in
          absurd (cc (sym failed ∙ h))
    ]

Step-IsCounted :
    {main : ℕ} {s t : System} → Step main s t → IsOrderly main s → IsCounted s → IsCounted t
unfolding IsCounted
Step-IsCounted {main} {s} {t} (make has_cb size default_size f h) v c =
    new_fiber-IsCounted main f size default_size s t has_cb v h c
Step-IsCounted {main} {s} {t} (enter f x r ne q there h) v c =
    IsCounted-result (swap_in s f) h
      (swap_in_lem main f s x v r q ne (swap_in-not_exec s t f x q h) there)
      (c ∙ sym (alive-modify s.fibers f (put exec) (λ y. refl)))
Step-IsCounted {main} {s} {t} (pause state ne idle h) v c =
    IsCounted-result (yield_to state s) h (yield_to_lem main state s v ne)
      (c ∙ sym (alive-modify s.fibers s.running (yielded state s.running) (λ y. refl)))
Step-IsCounted {main} {s} {t} (finish returned ne h) v c =
    IsCounted-result (main_func_end s s.running returned) h (main_func_end_lem main returned s v ne)
      (c ∙ sym (alive-modify s.fibers s.running (ended returned) (ended-alive returned)))
Step-IsCounted {main} {s} {t} (again f has_cb h) v c = reset-IsCounted main f s t has_cb v h c
Step-IsCounted {main} {s} {t} (drop f x ne q l h) v c = destroy-IsCounted main f s t x ne v q l h c

-- However a thread makes, enters, pauses, finishes, resets and destroys children, `TotalFibers` is
-- the number of its fibers that have not been destroyed, if no other thread has any. Children are
-- entered by the main fiber only, which does not yield and is not destroyed, and not if their
-- context is gone; and none is destroyed twice. A failed assertion ends the program.
pub Reach-counted : {s : System} → Reach s → s.s_fiber_count ≡ alive s.fibers
unfolding IsCounted get_this
Reach-counted start = refl
Reach-counted (next r st) = Step-IsCounted st (Reach-IsOrderly r) (Reach-counted r)
