-- ===== src/Tests/Fibers.antt =====
-- Fibers on one thread, and the queue of the scheduler.
use sylar_server_study.Base.{◌>>=◌, true, [], ◌∷◌, none, some, ◌≡◌, refl}
use sylar_server_study.Fiber.{
  hold, ready, behind_swap, System, main_fiber, child, get_this, new_fiber, swap_in, yield_to,
  main_func_end, at_fiber,
}
use sylar_server_study.Fiber.Turns.{IsOrderly, entered}
use sylar_server_study.Fiber.Runs.{
  Reach, start, next, make, enter, fresh, Reach-IsOrderly, swap_in-yield_to,
}
use sylar_server_study.Scheduler.{a_fiber, a_cb, new_task}
use sylar_server_study.Scheduler.Queue.{Requests, schedule_each, schedule_each_lem}
use sylar_server_study.Fiber.Count.{alive, Reach-counted}

-- A main fiber and one child.
abbrev pair : System
pair = record {
  fibers = main_fiber 0 ∷ child 1 1 0 true 0 4096 ∷ [];
  t_fiber = some 0;
  t_thread_fiber = some 0;
  s_fiber_id = 1;
  s_fiber_count = 2;
  running = 0;
}

first_child : new_fiber (get_this fresh).0 true 0 4096 ≡ some (pair, 1)
unfolding new_fiber get_this
first_child = refl

pair-Reach : Reach pair
pair-Reach = next start (make true 0 4096 1 first_child)

child_runs : swap_in pair 1 ≡ some (entered pair 1)
unfolding swap_in
child_runs = refl

entered-Reach : Reach (entered pair 1)
entered-Reach =
    next pair-Reach (enter 1 (child 1 1 0 true 0 4096) refl (λ e. cc) refl (λ e. cc) child_runs)

Reach-IsOrderly_example : IsOrderly 0 (entered pair 1)
Reach-IsOrderly_example = Reach-IsOrderly entered-Reach

Reach-counted_example : 2 ≡ alive (entered pair 1).fibers
Reach-counted_example = Reach-counted entered-Reach

swap_in-yield_to_example :
    (swap_in pair 1 >>= λ t. yield_to hold t)
    ≡ some (at_fiber pair 1 (λ y. record y { state = hold; owner = 1; point = behind_swap }))
swap_in-yield_to_example =
    swap_in-yield_to 0 1 hold pair (child 1 1 0 true 0 4096) (Reach-IsOrderly pair-Reach) refl refl
      (λ e. cc) refl (λ e. cc)

-- A child that has yielded once and then ended is not in the state EXEC, but it cannot be entered.
enters_the_dead :
    (swap_in pair 1 >>= λ t.
    yield_to ready t >>= λ u. swap_in u 1 >>= λ w. main_func_end w 1 true >>= λ z. swap_in z 1)
    ≡ none
unfolding swap_in yield_to main_func_end
enters_the_dead = refl

abbrev requests : Requests
requests = (a_cb none, none) ∷ (a_fiber (some 7), none) ∷ (a_cb (some 3), some 2) ∷ []

schedule_each_lem_example :
    ((schedule_each (record { fibers = []; tickles = 0 }) requests).fibers
      ≡ new_task (a_fiber (some 7)) none ∷ new_task (a_cb (some 3)) (some 2) ∷ [])
    × ((schedule_each (record { fibers = []; tickles = 0 }) requests).tickles ≡ 2)
schedule_each_lem_example = schedule_each_lem requests (record { fibers = []; tickles = 0 })
