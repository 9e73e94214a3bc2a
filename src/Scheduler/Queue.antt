-- ===== src/Scheduler/Queue.antt =====
-- The queue behind any number of calls of `schedule`.
use sylar_server_study.Base.{
  ℕ, suc, ◌+◌, false, if◌then◌else◌, List, [], ◌∷◌, ◌++◌, append-nil, append_assoc, Option, ◌≡◌,
  refl, sym, ◌∙◌, arith, Bool-cases, inl, inr,
}
use sylar_server_study.Scheduler.{
  FiberOrCb, FiberAndThread, Scheduler, new_task, has_work, is_empty_queue, schedule,
}

abbrev pub Requests : Type 0
Requests = List (FiberOrCb × Option ℕ)

abbrev pub schedule_each : Scheduler → Requests → Scheduler
schedule_each s [] = s
schedule_each s ((fc, thread) ∷ rs) = schedule_each (schedule s fc thread) rs

-- The tasks that are not empty, in order.
abbrev pub tasks : Requests → List FiberAndThread
tasks [] = []
tasks ((fc, thread) ∷ rs) =
    if has_work (new_task fc thread) then new_task fc thread ∷ tasks rs else tasks rs

-- On an empty queue every request calls for a tickle, up to the first that is not empty.
abbrev pub wakes : Requests → ℕ
wakes [] = 0
wakes ((fc, thread) ∷ rs) = if has_work (new_task fc thread) then 1 else suc (wakes rs)

is_empty-append :
    (q : List FiberAndThread) (t : FiberAndThread) → is_empty_queue (q ++ t ∷ []) ≡ false
is_empty-append [] t = refl
is_empty-append (u ∷ q) t = refl

-- Requests that follow each other are queued in their order, behind what was there, the empty ones
-- left out; and the threads are tickled only while the queue is empty: by each empty request, and by
-- the first that is not.
pub schedule_each_lem :
    (rs : Requests) (s : Scheduler)
    → ((schedule_each s rs).fibers ≡ s.fibers ++ tasks rs)
      × ((schedule_each s rs).tickles
          ≡ s.tickles + (if is_empty_queue s.fibers then wakes rs else 0))
unfolding schedule
schedule_each_lem [] s = (sym (append-nil s.fibers), ground arith)
schedule_each_lem ((fc, thread) ∷ rs) s =
    let (queued, tickled) = schedule_each_lem rs (schedule s fc thread) in
    elim (Bool-cases (has_work (new_task fc thread))) [
      | inl work ↦ (
        queued ∙ simp work (append_assoc s.fibers (new_task fc thread ∷ []) (tasks rs)),
        tickled ∙ simp work (ground (arith, is_empty-append s.fibers (new_task fc thread))),
      )
      | inr none' ↦ (queued ∙ simp none' refl, tickled ∙ simp none' (ground arith))
    ]
