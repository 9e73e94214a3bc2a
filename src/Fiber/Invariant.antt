-- ===== src/Fiber/Invariant.antt =====
-- Every use of fibers by which the main fiber enters children, and children yield to it, keeps the
-- state well formed.
use sylar_server_study.Base.{
  ℕ, suc, zero, false, ◌==◌, List, [], ◌∷◌, some, eq_of_some, get_elem?, modify, ◌≡◌, ◌≢◌, ◌⊎◌,
  refl, sym, ap, subst, ◌∙◌, arith, Bool-cases, inl, inr,
}
use sylar_server_study.Fiber.{exec, Fiber, System, is_exec}
use sylar_server_study.Fiber.Turns.{IsFiber, IsOrderly, entered, left, put, modified_at}

still_there :
    (xs : List Fiber) (f i : ℕ) (g : Fiber → Fiber) (w : Fiber)
    → get_elem? xs i ≡ some w
    → (u : Fiber) × (get_elem? (modify xs f g) i ≡ some u)
still_there [] f i g w h = (w, h)
still_there (x ∷ xs) zero zero g w h = (g x, refl)
still_there (x ∷ xs) zero (suc i) g w h = (w, h)
still_there (x ∷ xs) (suc f) zero g w h = (w, h)
still_there (x ∷ xs) (suc f) (suc i) g w h = still_there xs f i g w h

-- A change of one fiber, and of the fiber that runs.
modified-IsOrderly :
    (main f : ℕ) (s t : System) (x y : Fiber) (g : Fiber → Fiber)
    → IsOrderly main s
    → t.fibers ≡ modify s.fibers f g
    → t.t_thread_fiber ≡ some main
    → t.t_fiber ≡ some t.running
    → get_elem? s.fibers f ≡ some x
    → get_elem? s.fibers t.running ≡ some y
    → IsFiber main t.running f (g x)
    → ((i : ℕ) (z : Fiber) → i ≢ f → IsFiber main s.running i z → IsFiber main t.running i z)
    → IsOrderly main t
modified-IsOrderly main f s t x y g v e th cur q l here others = record {
  thread = th;
  current = cur;
  there = let (b, h) = v.there in still main b h;
  lives = still t.running y l;
  each = λ i z h.
      let (w, k, c) = modified_at s.fibers f i g z (ap (λ fs. get_elem? fs i) (sym e) ∙ h) in
      elim (Bool-cases (f == i)) [
        | inl same ↦
            let i=f : f ≡ i = ground arith in
            let w=x : w ≡ x = eq_of_some (sym k ∙ (ap (λ j. get_elem? s.fibers j) (sym i=f) ∙ q)) in
            let z=gx : z ≡ g x = c ∙ simp same (ap g w=x) in
            subst (λ j. IsFiber main t.running j z) i=f
              (subst (λ u. IsFiber main t.running f u) (sym z=gx) here)
        | inr differs ↦
            let z=w : z ≡ w = c ∙ simp differs refl in
            subst (λ u. IsFiber main t.running i u) (sym z=w)
              (others i w (λ r. absurd (ground (arith, differs))) (v.each i w k))
      ];
}
  where
    still :
        (i : ℕ) (w : Fiber)
        → get_elem? s.fibers i ≡ some w
        → (u : Fiber) × (get_elem? t.fibers i ≡ some u)
    still i w k =
        let (u, a) = still_there s.fibers f i g w k in (u, ap (λ fs. get_elem? fs i) e ∙ a)

pub entered-IsOrderly :
    (main f : ℕ) (s : System) (x : Fiber)
    → IsOrderly main s
    → s.running ≡ main
    → get_elem? s.fibers f ≡ some x
    → f ≢ main
    → IsOrderly main (entered s f)
entered-IsOrderly main f s x v r q ne =
    let o = v.each f x q in
    modified-IsOrderly main f s (entered s f) x x (put exec) v refl v.thread refl q q
      (record {
        own = o.own;
        kind = o.kind;
        alone = λ n. ground arith;
        link = o.link;
        base = o.base;
      })
      (λ i z n w. record {
        own = w.own;
        kind = w.kind;
        alone = λ m. w.alone m ∙ ground arith;
        link = w.link;
        base = w.base;
      })

-- The child that runs is left in a state other than EXEC, with its links as they were.
pub left-IsOrderly :
    (main : ℕ) (s : System) (g : Fiber → Fiber)
    → IsOrderly main s
    → s.running ≢ main
    → ((x : Fiber) → (g x).owner ≡ s.running ⊎ (g x).owner ≡ x.owner)
    → ((x : Fiber) → (g x).has_stack ≡ x.has_stack)
    → ((x : Fiber) → is_exec (g x).state ≡ false)
    → ((x : Fiber) → (g x).uc_link ≡ x.uc_link)
    → IsOrderly main (left s main s.running g)
left-IsOrderly main s g v ne own kind state link =
    let (x, q) = v.lives in
    let (b, h) = v.there in
    let o = v.each s.running x q in
    modified-IsOrderly main s.running s (left s main s.running g) x b g v refl v.thread refl q h
      (record {
        own = elim (own x) [ inl a ↦ a | inr a ↦ a ∙ o.own ];
        kind = kind x ∙ o.kind;
        alone = λ n. state x ∙ ground arith;
        link = λ n. link x ∙ o.link n;
        base = λ e. absurd (ne e);
      })
      (λ i z n w. record {
        own = w.own;
        kind = w.kind;
        alone = λ m. w.alone m ∙ ground arith;
        link = w.link;
        base = w.base;
      })

-- A change that keeps the fiber that runs.
pub kept-IsOrderly :
    (main f : ℕ) (s t : System) (x : Fiber) (g : Fiber → Fiber)
    → IsOrderly main s
    → t.fibers ≡ modify s.fibers f g
    → t.t_thread_fiber ≡ s.t_thread_fiber
    → t.t_fiber ≡ s.t_fiber
    → t.running ≡ s.running
    → get_elem? s.fibers f ≡ some x
    → IsFiber main s.running f (g x)
    → IsOrderly main t
kept-IsOrderly main f s t x g v e th cur r q here =
    let (y, l) = v.lives in
    modified-IsOrderly main f s t x y g v e (th ∙ v.thread)
      (cur ∙ (v.current ∙ ap (λ z. some z) (sym r))) q (ap (λ i. get_elem? s.fibers i) r ∙ l)
      (subst (λ i. IsFiber main i f (g x)) (sym r) here)
      (λ i z n w. subst (λ j. IsFiber main j i z) (sym r) w)
