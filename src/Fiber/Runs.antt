-- ===== src/Fiber/Runs.antt =====
-- Sequences of uses of fibers on one thread.
use sylar_server_study.Base.{
  ℕ, suc, zero, Bool, true, false, [], ◌∷◌, none, some, ◌>>=◌, eq_of_some, get_elem?, modify, ◌≡◌,
  ◌≢◌, refl, sym, ap, subst, ◌∙◌, arith, inl, inr,
}
use sylar_server_study.Fiber.{
  State, exec, behind_swap, gone, Fiber, System, is_exec, at_fiber, main_fiber, swap_in, yield_to,
  main_func_end, get_this, new_fiber, reset, destroy,
}
use sylar_server_study.Fiber.Turns.{
  IsFiber, IsOrderly, entered, left, put, yielded, ended, modify_twice, swap_in_lem, yield_to_lem,
  main_func_end_lem,
}
use sylar_server_study.Fiber.Changes.{
  swap_in-not_exec, new_fiber-IsOrderly, reset-IsOrderly, destroy-IsOrderly,
}
use sylar_server_study.Fiber.Invariant.{entered-IsOrderly, left-IsOrderly}

-- A thread that has no fibers yet.
abbrev pub fresh : System
fresh = record {
  fibers = [];
  t_fiber = none;
  t_thread_fiber = none;
  s_fiber_id = 0;
  s_fiber_count = 0;
  running = 0;
}

-- The main fiber enters a child whose context is not gone; a child yields, or its function ends; and
-- children are made, reset and destroyed at any time. Each use succeeds.
pub data Step (main : ℕ) (s : System) : System → Type 0 where
  make :
      (has_cb : Bool) (size default_size f : ℕ) {t : System}
      → new_fiber s has_cb size default_size ≡ some (t, f)
      → Step main s t
  enter :
      (f : ℕ) (x : Fiber) {t : System}
      → s.running ≡ main
      → f ≢ main
      → get_elem? s.fibers f ≡ some x
      → x.point ≢ gone
      → swap_in s f ≡ some t
      → Step main s t
  pause :
      (state : State) {t : System}
      → s.running ≢ main
      → is_exec state ≡ false
      → yield_to state s ≡ some t
      → Step main s t
  finish :
      (returned : Bool) {t : System}
      → s.running ≢ main
      → main_func_end s s.running returned ≡ some t
      → Step main s t
  again : (f : ℕ) (has_cb : Bool) {t : System} → reset s f has_cb ≡ some t → Step main s t
  drop :
      (f : ℕ) (x : Fiber) {t : System}
      → f ≢ main
      → get_elem? s.fibers f ≡ some x
      → x.is_alive ≡ true
      → destroy s f ≡ some t
      → Step main s t

pub data Reach : System → Type 0 where
  start : Reach (get_this fresh).0
  next : {s t : System} → Reach s → Step 0 s t → Reach t

ended_lem :
    (returned : Bool) (x : Fiber)
    → ((ended returned x).owner ≡ x.owner)
      × ((ended returned x).has_stack ≡ x.has_stack)
      × (is_exec (ended returned x).state ≡ false)
      × ((ended returned x).uc_link ≡ x.uc_link)
ended_lem true x = (refl, refl, refl, refl)
ended_lem false x = (refl, refl, refl, refl)

pub Step-IsOrderly : {main : ℕ} {s t : System} → Step main s t → IsOrderly main s → IsOrderly main t
Step-IsOrderly {main} {s} {t} (make has_cb size default_size f h) v =
    new_fiber-IsOrderly main f size default_size s t has_cb v h
Step-IsOrderly {main} {s} {t} (enter f x r ne q there h) v =
    let idle = swap_in-not_exec s t f x q h in
    subst (λ u. IsOrderly main u)
      (eq_of_some (sym (swap_in_lem main f s x v r q ne idle there) ∙ h))
      (entered-IsOrderly main f s x v r q ne)
Step-IsOrderly {main} {s} {t} (pause state ne idle h) v =
    subst (λ u. IsOrderly main u) (eq_of_some (sym (yield_to_lem main state s v ne) ∙ h))
      (left-IsOrderly main s (yielded state s.running) v ne (λ x. inl refl) (λ x. refl) (λ x. idle)
        (λ x. refl))
Step-IsOrderly {main} {s} {t} (finish returned ne h) v =
    subst (λ u. IsOrderly main u) (eq_of_some (sym (main_func_end_lem main returned s v ne) ∙ h))
      (left-IsOrderly main s (ended returned) v ne (λ x. inr (ended_lem returned x).0)
        (λ x. (ended_lem returned x).1) (λ x. (ended_lem returned x).2)
        (λ x. (ended_lem returned x).3))
Step-IsOrderly {main} {s} {t} (again f has_cb h) v = reset-IsOrderly main f s t has_cb v h
Step-IsOrderly {main} {s} {t} (drop f x ne q l h) v = destroy-IsOrderly main f s t x ne v q h

one_fiber : (i : ℕ) (x : Fiber) → get_elem? (main_fiber 0 ∷ []) i ≡ some x → IsFiber 0 0 i x
one_fiber zero x h =
    subst (λ u. IsFiber 0 0 0 u) (eq_of_some h)
      (record {
        own = refl;
        kind = ground arith;
        alone = λ n. absurd (n refl);
        link = λ n. absurd (n refl);
        base = λ e. refl;
      })
one_fiber (suc i) x h = absurd (cc)

start-IsOrderly : IsOrderly 0 (get_this fresh).0
unfolding get_this
start-IsOrderly = record {
  thread = refl;
  current = refl;
  there = (main_fiber 0, refl);
  lives = (main_fiber 0, refl);
  each = one_fiber;
}

-- However children are made, entered by the main fiber, paused, finished, reset and destroyed on a
-- thread, the current fiber is the one whose stack the thread runs on; a child is in the state EXEC
-- exactly if it is that one; every saved context lies on its fiber's own stack; and every child
-- returns to the main fiber. Children are entered by the main fiber only, which does not yield and
-- is not destroyed, and not if their context is gone. A failed assertion ends the program.
pub Reach-IsOrderly : {s : System} → Reach s → IsOrderly 0 s
Reach-IsOrderly start = start-IsOrderly
Reach-IsOrderly (next r st) = Step-IsOrderly st (Reach-IsOrderly r)

-- From a well-formed state in which the main fiber runs, to enter a child and have it yield is
-- defined, gives the main fiber its turn back, and changes only the child: its state is the one that it
-- yielded with, and its context lies on its own stack behind the switch. The child is not in the state
-- EXEC and its context is not gone.
pub swap_in-yield_to :
    (main f : ℕ) (state : State) (s : System) (x : Fiber)
    → IsOrderly main s
    → s.running ≡ main
    → get_elem? s.fibers f ≡ some x
    → f ≢ main
    → is_exec x.state ≡ false
    → x.point ≢ gone
    → (swap_in s f >>= λ t. yield_to state t)
      ≡ some (at_fiber s f (λ y. record y { state = state; owner = f; point = behind_swap }))
swap_in-yield_to main f state s x v r q ne idle there =
    ap (λ o. o >>= λ t. yield_to state t) (swap_in_lem main f s x v r q ne idle there)
    ∙ (yield_to_lem main state (entered s f) (entered-IsOrderly main f s x v r q ne) ne
        ∙ ap some (back (sym v.current) r))
  where
    back :
        some s.running ≡ s.t_fiber
        → s.running ≡ main
        → left (entered s f) main f (yielded state f) ≡ at_fiber s f (yielded state f)
    back c e =
        let twice = modify_twice s.fibers f (put exec) (yielded state f) in
        ap (λ fs. record s { fibers = fs; t_fiber = some main; running = main }) twice
        ∙ (ap
              (λ m. record s {
                fibers = modify s.fibers f (yielded state f);
                t_fiber = some m;
                running = m;
              })
              (sym e)
            ∙ ap (λ z. record s { fibers = modify s.fibers f (yielded state f); t_fiber = z }) c)
