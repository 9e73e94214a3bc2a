-- ===== src/Fiber.antt =====
-- sylar/fiber.h and sylar/fiber.cc: `Fiber`, for one thread, with SYLAR_FIBER_RETURN_USE_UCLINK, as the
-- build defines it, and with assertions that end the program, as `assert` does unless NDEBUG is
-- defined; a build with NDEBUG goes on behind a failed SYLAR_ASSERT. `none` stands for a failed
-- assertion, a null pointer that is read, and a jump into a frame that is gone. A context that is saved by `getcontext`, `makecontext` or `swapcontext`
-- is the stack that it lies on, and where it goes on.
pub mod Turns
pub mod Invariant
pub mod Changes
pub mod Runs
pub mod Count
use sylar_server_study.Base.{
  ℕ, ◌+◌, ◌-◌, ◌%◌, ◌^◌, Bool, true, false, not, ◌&&◌, ◌||◌, if◌then◌else◌, ◌==◌, List, [], ◌∷◌,
  ◌++◌, Option, none, some, ◌>>=◌, get_elem?, modify, length,
}

pub data State : Type 0 where
  init hold exec term ready excep : State

-- At the start of `MainFunc`; behind a `swapcontext`; and behind one whose `MainFunc` has returned.
pub data Point : Type 0 where
  entry behind_swap gone : Point

-- `m_ctx` is the fiber on whose stack it lies, the point, and the fiber whose context `uc_link` is;
-- `has_stack` and `has_cb` are whether `m_stack` and `m_cb` are not null; `is_alive` is whether the
-- fiber has not been destroyed.
pub record Fiber : Type 0 where
  pub id : ℕ
  pub stacksize : ℕ
  pub state : State
  pub owner : ℕ
  pub point : Point
  pub uc_link : Option ℕ
  pub has_stack : Bool
  pub has_cb : Bool
  pub is_alive : Bool

-- The fibers that were made, the two thread-local pointers, the two counters, and the fiber on whose
-- stack the thread runs.
pub record System : Type 0 where
  pub fibers : List Fiber
  pub t_fiber : Option ℕ
  pub t_thread_fiber : Option ℕ
  pub s_fiber_id : ℕ
  pub s_fiber_count : ℕ
  pub running : ℕ

abbrev pub is_exec : State → Bool
is_exec exec = true
is_exec _ = false

-- `m_state == State::TERM || m_state == State::INIT || m_state == State::EXCEP`
abbrev pub is_idle : State → Bool
is_idle term = true
is_idle init = true
is_idle excep = true
is_idle _ = false

abbrev pub at_fiber : System → ℕ → (Fiber → Fiber) → System
at_fiber s f g = record s { fibers = modify s.fibers f g }

abbrev pub set_this : Option ℕ → System → System
set_this f s = record s { t_fiber = f }

-- `Fiber::Fiber()`, at the place `f`.
abbrev pub main_fiber : ℕ → Fiber
main_fiber f = record {
  id = 0;
  stacksize = 0;
  state = exec;
  owner = f;
  point = behind_swap;
  uc_link = none;
  has_stack = false;
  has_cb = false;
  is_alive = true;
}

-- `Fiber::GetThis`, which makes the main fiber of the thread if there is no current fiber.
unfoldable pub get_this : System → System × ℕ
get_this s = elim s.t_fiber [
  | some f ↦ (s, f)
  | none ↦
      let f = length s.fibers in
      (
        record s {
          fibers = s.fibers ++ main_fiber f ∷ [];
          t_fiber = some f;
          t_thread_fiber = some f;
          s_fiber_count = s.s_fiber_count + 1;
          running = f;
        },
        f,
      )
]

abbrev pub same_pointer : Option ℕ → Option ℕ → Bool
same_pointer none none = true
same_pointer (some f) (some g) = f == g
same_pointer _ _ = false

-- `if (!t_threadFiber) Fiber::GetThis();`
unfoldable pub with_main : System → System
unfolding get_this
with_main s = elim s.t_thread_fiber [ none ↦ (get_this s).0 | some m ↦ s ]

-- The fiber that `Fiber::Fiber(cb, stacksize)` makes: the stack size is that of the configuration if
-- none is given, `m_stacksize` has 32 bits, and `makecontext` links to the main fiber.
abbrev pub child : ℕ → ℕ → ℕ → Bool → ℕ → ℕ → Fiber
child f id main has_cb stacksize default_size = record {
  id = id;
  stacksize = (if stacksize == 0 then default_size else stacksize) % 2 ^ 32;
  state = init;
  owner = f;
  point = entry;
  uc_link = some main;
  has_stack = true;
  has_cb = has_cb;
  is_alive = true;
}

abbrev pub with_child : System → ℕ → Bool → ℕ → ℕ → System × ℕ
with_child s main has_cb stacksize default_size =
    let f = length s.fibers in
    (
      record s {
        fibers = s.fibers ++ child f s.s_fiber_id main has_cb stacksize default_size ∷ [];
        s_fiber_count = s.s_fiber_count + 1;
      },
      f,
    )

-- The body of the constructor: its two assertions, and the new fiber's place.
unfoldable pub construct : System → Bool → ℕ → ℕ → Option (System × ℕ)
construct s has_cb stacksize default_size = do
  m ← s.t_thread_fiber
  if same_pointer s.t_fiber (some m)
      then some (with_child s m has_cb stacksize default_size)
      else none

-- `Fiber::Fiber(cb, stacksize)`
unfoldable pub new_fiber : System → Bool → ℕ → ℕ → Option (System × ℕ)
unfolding with_main construct
new_fiber s has_cb stacksize default_size =
    construct (with_main (record s { s_fiber_id = s.s_fiber_id + 1 })) has_cb stacksize default_size

-- `Fiber::~Fiber`, of a fiber that has a stack and of a main fiber.
abbrev pub destroyed : System → ℕ → System
destroyed s f =
    at_fiber (record s { s_fiber_count = s.s_fiber_count - 1 }) f
      (λ y. record y { is_alive = false })

unfoldable pub destroy : System → ℕ → Option System
destroy s f = do
  x ← get_elem? s.fibers f
  if x.has_stack
      then (if is_idle x.state then some (destroyed s f) else none)
      else if x.has_cb || not (is_exec x.state)
      then none
      else some
          (if same_pointer s.t_fiber (some f) then set_this none (destroyed s f) else destroyed s f)

-- `reset`, whose assertions end the program.
unfoldable pub reset : System → ℕ → Bool → Option System
reset s f has_cb = do
  x ← get_elem? s.fibers f
  if x.has_stack && is_idle x.state
      then (do
        m ← s.t_thread_fiber
        some (
            at_fiber s f (λ y. record y {
              has_cb = has_cb;
              owner = f;
              point = entry;
              uc_link = some m;
              state = init;
            })))
      else none

-- A jump to the context of a fiber.
abbrev pub set_context : System → ℕ → Option System
set_context s to = do
  y ← get_elem? s.fibers to
  elim y.point [ gone ↦ none | _ ↦ some (record s { running = y.owner }) ]

-- `swapcontext` from the context of one fiber to that of another.
unfoldable pub swap_context : System → ℕ → ℕ → Option System
swap_context s from to =
    set_context (at_fiber s from (λ y. record y { owner = s.running; point = behind_swap })) to

-- `swapIn`
unfoldable pub swap_in : System → ℕ → Option System
unfolding swap_context
swap_in s f = do
  x ← get_elem? s.fibers f
  if not (is_exec x.state)
      then (do
        m ← s.t_thread_fiber
        swap_context (at_fiber (set_this (some f) s) f (λ y. record y { state = exec })) m f)
      else none

-- `swapOut`
unfoldable pub swap_out : System → ℕ → Option System
unfolding swap_context
swap_out s f = do m ← s.t_thread_fiber; swap_context (set_this (some m) s) f m

-- `YieldToReady` and `YieldToHold`, which put the current fiber into the state.
unfoldable pub yield_to : State → System → Option System
unfolding swap_out get_this
yield_to state s =
    let (s', cur) = get_this s in swap_out (at_fiber s' cur (λ y. record y { state = state })) cur

-- The context of a fiber whose `MainFunc` returns: a frame that it was saved in is gone.
abbrev pub returned_point : Point → Point
returned_point entry = entry
returned_point _ = gone

-- `MainFunc` of the fiber `cur` from the return of `m_cb`, or from an exception, on: the state, the
-- current fiber, and the return, which goes on in the context of `uc_link`.
unfoldable pub main_func_end : System → ℕ → Bool → Option System
main_func_end s cur returned = do
  x ← get_elem? s.fibers cur
  to ← x.uc_link
  set_context
      (at_fiber (set_this s.t_thread_fiber s) cur (λ y.
        record (if returned
          then record y { has_cb = false; state = term }
          else record y { state = excep }) { point = returned_point y.point }))
      to

unfoldable pub get_fiber_id : System → ℕ
get_fiber_id s = elim s.t_fiber [
  | none ↦ 0
  | some f ↦ elim (get_elem? s.fibers f) [ none ↦ 0 | some x ↦ x.id ]
]
