-- ===== src/Fiber/Turns.antt =====
-- What the switches do, from a state in which the main fiber runs one child at a time.
use sylar_server_study.Base.{
  ℕ, suc, zero, Bool, false, not, if◌then◌else◌, ◌==◌, List, [], ◌∷◌, none, some, eq_of_some,
  get_elem?, modify, modify_fixed, get_elem?-modify_self, get_elem?-modify_ne, ◌≡◌, ◌≢◌, refl, sym,
  ap, ◌∙◌, arith,
}
use sylar_server_study.Fiber.{
  State, exec, term, excep, Point, entry, behind_swap, gone, Fiber, System, is_exec, at_fiber,
  set_this, set_context, swap_context, swap_in, swap_out, yield_to, returned_point, main_func_end,
  get_this,
}

-- The context of a fiber lies on its own stack; a child links to the main fiber, and is in the state
-- EXEC exactly if it runs; the context of the main fiber is behind a `swapcontext`.
pub record IsFiber (main running f : ℕ) (x : Fiber) : Type 0 where
  pub own : x.owner ≡ f
  pub kind : x.has_stack ≡ not (f == main)
  pub alone : f ≢ main → is_exec x.state ≡ (f == running)
  pub link : f ≢ main → x.uc_link ≡ some main
  pub base : f ≡ main → x.point ≡ behind_swap

-- The current fiber is the one whose stack the thread runs on.
pub record IsOrderly (main : ℕ) (s : System) : Type 0 where
  pub thread : s.t_thread_fiber ≡ some main
  pub current : s.t_fiber ≡ some s.running
  pub there : (b : Fiber) × (get_elem? s.fibers main ≡ some b)
  pub lives : (x : Fiber) × (get_elem? s.fibers s.running ≡ some x)
  pub each : (f : ℕ) (x : Fiber) → get_elem? s.fibers f ≡ some x → IsFiber main s.running f x

-- What `swapIn` changes.
abbrev pub entered : System → ℕ → System
entered s f = record s {
  fibers = modify s.fibers f (λ y. record y { state = exec });
  t_fiber = some f;
  running = f;
}

abbrev pub save : ℕ → Fiber → Fiber
save running y = record y { owner = running; point = behind_swap }

abbrev pub put : State → Fiber → Fiber
put state y = record y { state = state }

saved_same : (r : ℕ) (b : Fiber) → b.owner ≡ r → b.point ≡ behind_swap → save r b ≡ b
saved_same r b o p = rw (sym o, sym p) refl

set_context_lem :
    (s : System) (to : ℕ) (y : Fiber)
    → get_elem? s.fibers to ≡ some y
    → y.point ≢ gone
    → set_context s to ≡ some (record s { running = y.owner })
set_context_lem s to y q there = rw (q, set_context) (go y.point there)
  where
    go :
        (p : Point)
        → p ≢ gone
        → (elim p [ gone ↦ none | _ ↦ some (record s { running = y.owner }) ])
          ≡ some (record s { running = y.owner })
    go entry n = refl
    go behind_swap n = refl
    go gone n = absurd (n refl)

swap_in_step :
    (main f : ℕ) (s : System) (x : Fiber)
    → s.t_thread_fiber ≡ some main
    → get_elem? s.fibers f ≡ some x
    → is_exec x.state ≡ false
    → swap_in s f ≡ swap_context (at_fiber (set_this (some f) s) f (put exec)) main f
unfolding swap_in
swap_in_step main f s x t q idle = rw (q, swap_in) (simp idle (rw t refl))

-- From a well-formed state in which the main fiber runs, `swapIn` of a child that is not in the state
-- EXEC and whose context is not gone succeeds: the child is in the state EXEC, current and running,
-- and nothing else is changed.
pub swap_in_lem :
    (main f : ℕ) (s : System) (x : Fiber)
    → IsOrderly main s
    → s.running ≡ main
    → get_elem? s.fibers f ≡ some x
    → f ≢ main
    → is_exec x.state ≡ false
    → x.point ≢ gone
    → swap_in s f ≡ some (entered s f)
unfolding swap_context
swap_in_lem main f s x v r q ne idle there =
    let (b, h) = v.there in
    let fs = modify s.fibers f (put exec) in
    let main' = get_elem?-modify_ne s.fibers f main (put exec) ne ∙ h in
    let m = v.each main b h in
    let fixed : modify fs main (save s.running) ≡ fs =
      modify_fixed fs main (save s.running) b main'
        (saved_same s.running b (m.own ∙ sym r) (m.base refl)) in
    let x' = get_elem?-modify_self s.fibers f (put exec) x q in
    swap_in_step main f s x v.thread q idle
    ∙ (set_context_lem (record (set_this (some f) s) { fibers = modify fs main (save s.running) }) f
          (put exec x) (ap (λ z. get_elem? z f) fixed ∙ x') there
        ∙ rw fixed (rw (v.each f x q).own refl))

pub modify_twice :
    (xs : List Fiber) (i : ℕ) (f g : Fiber → Fiber)
    → modify (modify xs i f) i g ≡ modify xs i (λ y. g (f y))
modify_twice [] i f g = refl
modify_twice (x ∷ xs) zero f g = refl
modify_twice (x ∷ xs) (suc i) f g = ap (◌∷◌ x) (modify_twice xs i f g)

-- What is at a place of a list behind a change at one place.
pub modified_at :
    (xs : List Fiber) (f i : ℕ) (g : Fiber → Fiber) (z : Fiber)
    → get_elem? (modify xs f g) i ≡ some z
    → (y : Fiber) × (get_elem? xs i ≡ some y) × (z ≡ (if f == i then g y else y))
modified_at [] f i g z h = absurd (cc)
modified_at (x ∷ xs) zero zero g z h = (x, refl, sym (eq_of_some h))
modified_at (x ∷ xs) zero (suc i) g z h = (z, h, ground arith)
modified_at (x ∷ xs) (suc f) zero g z h = (z, h, ground arith)
modified_at (x ∷ xs) (suc f) (suc i) g z h =
    let (y, q, e) = modified_at xs f i g z h in (y, q, ground arith)

-- The state in which the child `f` is left, and the main fiber runs.
abbrev pub left : System → ℕ → ℕ → (Fiber → Fiber) → System
left s main f g = record s { fibers = modify s.fibers f g; t_fiber = some main; running = main }

abbrev pub yielded : State → ℕ → Fiber → Fiber
yielded state f y = save f (put state y)

get_this_current : (s : System) (f : ℕ) → s.t_fiber ≡ some f → get_this s ≡ (s, f)
unfolding get_this
get_this_current s f c = rw (c, get_this) (ap (λ z. (record s { t_fiber = z }, f)) c)

swap_out_step :
    (main f : ℕ) (s : System)
    → s.t_thread_fiber ≡ some main
    → swap_out s f ≡ swap_context (set_this (some main) s) f main
unfolding swap_out
swap_out_step main f s t = rw (t, swap_out) refl

yield_to_step :
    (main : ℕ) (state : State) (s : System)
    → s.t_thread_fiber ≡ some main
    → s.t_fiber ≡ some s.running
    → yield_to state s
      ≡ swap_context (set_this (some main) (at_fiber s s.running (put state))) s.running main
unfolding yield_to
yield_to_step main state s t c =
    ap (λ r. swap_out (at_fiber r.0 r.1 (put state)) r.1) (get_this_current s s.running c)
    ∙ swap_out_step main s.running (at_fiber s s.running (put state)) t

-- From a well-formed state in which a child runs, `YieldToReady` and `YieldToHold` succeed: the child
-- is in that state with its context saved, the main fiber is current and running, and nothing else
-- is changed.
pub yield_to_lem :
    (main : ℕ) (state : State) (s : System)
    → IsOrderly main s
    → s.running ≢ main
    → yield_to state s ≡ some (left s main s.running (yielded state s.running))
unfolding swap_context
yield_to_lem main state s v ne =
    let (b, h) = v.there in
    let f = s.running in
    let twice = modify_twice s.fibers f (put state) (save f) in
    let main' = get_elem?-modify_ne s.fibers f main (yielded state f) ne ∙ h in
    let m = v.each main b h in
    yield_to_step main state s v.thread v.current
    ∙ (ap (λ fs. set_context (record s { fibers = fs; t_fiber = some main }) main) twice
        ∙ (set_context_lem
              (record s { fibers = modify s.fibers f (yielded state f); t_fiber = some main }) main
              b main' (λ e. absurd (cc (sym (m.base refl) ∙ e)))
            ∙ rw m.own refl))

abbrev pub ended : Bool → Fiber → Fiber
ended returned y =
    record (if returned then record y { has_cb = false; state = term } else put excep y) {
      point = returned_point y.point;
    }

main_func_end_step :
    (s : System) (cur to : ℕ) (returned : Bool) (x : Fiber)
    → get_elem? s.fibers cur ≡ some x
    → x.uc_link ≡ some to
    → main_func_end s cur returned
      ≡ set_context (at_fiber (set_this s.t_thread_fiber s) cur (ended returned)) to
unfolding main_func_end
main_func_end_step s cur to returned x q l = rw (q, main_func_end) (rw l refl)

-- From a well-formed state in which a child runs, the end of its function succeeds too, by a return
-- or by an exception, and goes on in the main fiber.
pub main_func_end_lem :
    (main : ℕ) (returned : Bool) (s : System)
    → IsOrderly main s
    → s.running ≢ main
    → main_func_end s s.running returned ≡ some (left s main s.running (ended returned))
main_func_end_lem main returned s v ne =
    let (b, h) = v.there in
    let (x, q) = v.lives in
    let f = s.running in
    let main' = get_elem?-modify_ne s.fibers f main (ended returned) ne ∙ h in
    let m = v.each main b h in
    main_func_end_step s f main returned x q ((v.each f x q).link ne)
    ∙ (ap
          (λ t.
            set_context (record s { fibers = modify s.fibers f (ended returned); t_fiber = t })
              main)
          v.thread
        ∙ (set_context_lem
              (record s { fibers = modify s.fibers f (ended returned); t_fiber = some main }) main b
              main' (λ e. absurd (cc (sym (m.base refl) ∙ e)))
            ∙ rw m.own refl))
