-- ===== src/Fiber/Changes.antt =====
-- What making, resetting and destroying a child do.
use sylar_server_study.Base.{
  ℕ, suc, zero, ◌+◌, Bool, true, false, ◌&&◌, if◌then◌else◌, List, [], ◌∷◌, ◌++◌, none, some, ◌>>=◌,
  eq_of_some, get_elem?, length, get_elem?-lt, get_elem?-append_old, ◌≡◌, ◌≢◌, ◌⊎◌, refl, sym, ap,
  subst, ◌∙◌, arith, Option-cases, Bool-cases, inl, inr,
}
use sylar_server_study.Fiber.{
  State, init, hold, exec, term, ready, excep, entry, Fiber, System, is_exec, is_idle, at_fiber,
  swap_in, child, with_child, with_main, construct, new_fiber, reset, destroyed, destroy,
  same_pointer,
}
use sylar_server_study.Fiber.Turns.{IsFiber, IsOrderly}
use sylar_server_study.Fiber.Invariant.{kept-IsOrderly}

pub swap_in-not_exec :
    (s t : System) (f : ℕ) (x : Fiber)
    → get_elem? s.fibers f ≡ some x
    → swap_in s f ≡ some t
    → is_exec x.state ≡ false
unfolding swap_in
swap_in-not_exec s t f x q h = elim (Bool-cases (is_exec x.state)) [
  | inl yes' ↦
      let failed : swap_in s f ≡ none = rw (q, swap_in) (simp yes' refl) in
      absurd (cc (sym failed ∙ h))
  | inr no' ↦ no'
]

abbrev pub renew : ℕ → ℕ → Bool → Fiber → Fiber
renew f m has_cb y = record y {
  has_cb = has_cb;
  owner = f;
  point = entry;
  uc_link = some m;
  state = init;
}

pub reset_step :
    (s : System) (f m : ℕ) (has_cb : Bool) (x : Fiber)
    → get_elem? s.fibers f ≡ some x
    → s.t_thread_fiber ≡ some m
    → reset s f has_cb
      ≡ (if x.has_stack && is_idle x.state then some (at_fiber s f (renew f m has_cb)) else none)
unfolding reset
reset_step s f m has_cb x q th = elim (Bool-cases (x.has_stack && is_idle x.state)) [
  | inl good ↦
      rw (q, reset) (simp good (ap (λ z. z >>= λ m'. some (at_fiber s f (renew f m' has_cb))) th))
  | inr bad ↦ rw (q, reset) (simp bad refl)
]

not_exec_idle : (st : State) → is_idle st ≡ true → is_exec st ≡ false
not_exec_idle init h = refl
not_exec_idle hold h = refl
not_exec_idle exec h = absurd (cc)
not_exec_idle term h = refl
not_exec_idle ready h = refl
not_exec_idle excep h = refl

pub reset-IsOrderly :
    (main f : ℕ) (s t : System) (has_cb : Bool)
    → IsOrderly main s
    → reset s f has_cb ≡ some t
    → IsOrderly main t
unfolding reset
reset-IsOrderly main f s t has_cb v h = elim (Option-cases (get_elem? s.fibers f)) [
  | inl q ↦
      let failed : reset s f has_cb ≡ none = rw (q, reset) refl in absurd (cc (sym failed ∙ h))
  | inr (x, q) ↦ elim (Bool-cases (x.has_stack && is_idle x.state)) [
    | inl good ↦
        let o = v.each f x q in
        let idle = not_exec_idle x.state (ground arith) in
        let done : reset s f has_cb ≡ some (at_fiber s f (renew f main has_cb)) =
          reset_step s f main has_cb x q v.thread ∙ simp good refl in
        subst (λ u. IsOrderly main u) (eq_of_some (sym done ∙ h))
          (kept-IsOrderly main f s (at_fiber s f (renew f main has_cb)) x (renew f main has_cb) v
            refl refl refl refl q
            (record {
              own = refl;
              kind = o.kind;
              alone = λ n. sym idle ∙ o.alone n;
              link = λ n. refl;
              base = λ e. absurd (ground (arith, o.kind, good));
            }))
    | inr bad ↦
        let failed : reset s f has_cb ≡ none =
          reset_step s f main has_cb x q v.thread ∙ simp bad refl in
        absurd (cc (sym failed ∙ h))
  ]
]

pub destroy_step :
    (main f : ℕ) (s : System) (x : Fiber)
    → f ≢ main
    → IsOrderly main s
    → get_elem? s.fibers f ≡ some x
    → destroy s f ≡ (if is_idle x.state then some (destroyed s f) else none)
unfolding destroy
destroy_step main f s x ne v q =
    let stack : x.has_stack ≡ true = ground (arith, (v.each f x q).kind) in
    rw (q, destroy) (simp stack refl)

pub destroy-IsOrderly :
    (main f : ℕ) (s t : System) (x : Fiber)
    → f ≢ main
    → IsOrderly main s
    → get_elem? s.fibers f ≡ some x
    → destroy s f ≡ some t
    → IsOrderly main t
destroy-IsOrderly main f s t x ne v q h = elim (Bool-cases (is_idle x.state)) [
  | inl good ↦
      let o = v.each f x q in
      let done : destroy s f ≡ some (destroyed s f) =
        destroy_step main f s x ne v q ∙ simp good refl in
      subst (λ u. IsOrderly main u) (eq_of_some (sym done ∙ h))
        (kept-IsOrderly main f s (destroyed s f) x (λ y. record y { is_alive = false }) v refl refl
          refl refl q
          (record { own = o.own; kind = o.kind; alone = o.alone; link = o.link; base = o.base }))
  | inr bad ↦
      let failed : destroy s f ≡ none = destroy_step main f s x ne v q ∙ simp bad refl in
      absurd (cc (sym failed ∙ h))
]

abbrev pub counted : System → System
counted s = record s { s_fiber_id = s.s_fiber_id + 1 }

with_main_step : (s : System) (m : ℕ) → s.t_thread_fiber ≡ some m → with_main s ≡ s
unfolding with_main
with_main_step s m th = rw (th, with_main) (ap (λ z. record s { t_thread_fiber = z }) th)

construct_step :
    (s : System) (has_cb : Bool) (main size default_size : ℕ)
    → s.t_thread_fiber ≡ some main
    → construct s has_cb size default_size ≡ (
        if same_pointer s.t_fiber (some main)
        then some (with_child s main has_cb size default_size)
        else none)
unfolding construct
construct_step s has_cb main size default_size th =
    ap
      (λ z. z >>= λ m.
        if same_pointer s.t_fiber (some m)
        then some (with_child s m has_cb size default_size)
        else none)
      th

pub new_fiber_step :
    (s : System) (has_cb : Bool) (main size default_size : ℕ)
    → s.t_thread_fiber ≡ some main
    → new_fiber s has_cb size default_size ≡ (
        if same_pointer s.t_fiber (some main)
        then some (with_child (counted s) main has_cb size default_size)
        else none)
unfolding new_fiber
new_fiber_step s has_cb main size default_size th =
    ap (λ z. construct z has_cb size default_size) (with_main_step (counted s) main th)
    ∙ construct_step (counted s) has_cb main size default_size th

appended_at :
    (xs : List Fiber) (new : Fiber) (i : ℕ) (z : Fiber)
    → get_elem? (xs ++ new ∷ []) i ≡ some z
    → (get_elem? xs i ≡ some z) ⊎ ((i ≡ length xs) × (z ≡ new))
appended_at [] new zero z h = inr (refl, sym (eq_of_some h))
appended_at [] new (suc i) z h = absurd (cc)
appended_at (x ∷ xs) new zero z h = inl h
appended_at (x ∷ xs) new (suc i) z h = elim (appended_at xs new i z h) [
  | inl old ↦ inl old
  | inr (a, b) ↦ inr (omega arith, b)
]

with_child-IsOrderly :
    (main size default_size : ℕ) (s : System) (has_cb : Bool)
    → IsOrderly main s
    → IsOrderly main (with_child (counted s) main has_cb size default_size).0
with_child-IsOrderly main size default_size s has_cb v = record {
  thread = v.thread;
  current = v.current;
  there = let (b, h) = v.there in (b, kept main b h);
  lives = let (x, q) = v.lives in (x, kept s.running x q);
  each = λ i z h. elim (appended_at s.fibers new i z h) [
    | inl old ↦ v.each i z old
    | inr (i=n, z=new) ↦
        subst (λ j. IsFiber main s.running j z) (sym i=n)
          (subst (λ u. IsFiber main s.running n u) (sym z=new)
            (record {
              own = refl;
              kind = ground (arith, get_elem?-lt s.fibers main v.there.0 v.there.1);
              alone = λ m. ground (arith, get_elem?-lt s.fibers s.running v.lives.0 v.lives.1);
              link = λ m. refl;
              base = λ e. absurd (ground (arith, get_elem?-lt s.fibers main v.there.0 v.there.1));
            }))
  ];
}
  where
    n : ℕ
    n = length s.fibers

    new : Fiber
    new = child n (s.s_fiber_id + 1) main has_cb size default_size

    kept :
        (i : ℕ) (w : Fiber)
        → get_elem? s.fibers i ≡ some w
        → get_elem? (s.fibers ++ new ∷ []) i ≡ some w
    kept i w k = get_elem?-append_old s.fibers (new ∷ []) i (get_elem?-lt s.fibers i w k) ∙ k

pub new_fiber-IsOrderly :
    (main f size default_size : ℕ) (s t : System) (has_cb : Bool)
    → IsOrderly main s
    → new_fiber s has_cb size default_size ≡ some (t, f)
    → IsOrderly main t
new_fiber-IsOrderly main f size default_size s t has_cb v h =
    elim (Bool-cases (same_pointer s.t_fiber (some main))) [
      | inl good ↦
          let done : new_fiber s has_cb size default_size
              ≡ some (with_child (counted s) main has_cb size default_size) =
            new_fiber_step s has_cb main size default_size v.thread ∙ simp good refl in
          subst (λ u. IsOrderly main u.0) (eq_of_some (sym done ∙ h))
            (with_child-IsOrderly main size default_size s has_cb v)
      | inr bad ↦
          let failed : new_fiber s has_cb size default_size ≡ none =
            new_fiber_step s has_cb main size default_size v.thread ∙ simp bad refl in
          absurd (cc (sym failed ∙ h))
    ]
