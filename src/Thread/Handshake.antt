-- ===== src/Thread/Handshake.antt =====
-- When the constructor of a thread returns, and that it does.
use sylar_server_study.Base.{
  ℕ, Bool, true, false, Text, if◌then◌else◌, List, [], ◌∷◌, ◌++◌, none, some, ◌≡◌, refl, sym, ap,
  subst, ◌∙◌,
}
use sylar_server_study.Thread.{
  returned, thrown, Runner, not_started, at_this, at_name, at_id, at_swap, at_notify, at_call,
  ended, Shared, constructed, is_thrown, Turn, creates_on, runs_on, either_step,
}
use sylar_server_study.Thread.Phases.{
  run_both, all_wait, Phase, begun, failed, through_call, through_ended, waiting, thrown_at,
  lost_at, is_sound, creator_of, full_name, state_of, start-phase,
}
use sylar_server_study.Thread.Progress.{At, run-phase, lost-thrown}

module _ (creates : Bool) (id cb : ℕ) (name : Text) where
  abbrev pub HandedOver : Shared → Type 0
  HandedOver s =
      (s.m_id ≡ some id)
      × (s.m_cb ≡ none)
      × (s.cb ≡ some cb)
      × (s.t_thread ≡ true)
      × (s.t_thread_name ≡ full_name creates id cb name)

  through : (q : Phase) → creator_of q ≡ returned → HandedOver (state_of creates id cb name q)
  through through_call h = (refl, refl, refl, refl, refl)
  through through_ended h = (refl, refl, refl, refl, refl)
  through begun h = absurd (cc)
  through failed h = absurd (cc)
  through (waiting r) h = absurd (cc)
  through (thrown_at r) h = absurd (cc)
  through (lost_at r) h = absurd (cc)

  abbrev after : List Turn → Shared
  after ws = run_both creates id (constructed name cb) ws

  abbrev reach : (ws : List Turn) → At creates id cb name ws begun
  reach ws = run-phase creates id cb name ws begun

  after-stage : (ws : List Turn) → after ws ≡ state_of creates id cb name (reach ws).stage
  after-stage ws =
      ap (λ s. run_both creates id s ws) (start-phase creates id cb name) ∙ (reach ws).reached

  -- In whatever order the two threads take their steps, and whether or not calls of `sem_wait` fail,
  -- when the constructor of a thread has returned, the new thread has stored its id, taken the
  -- callback over, and set its thread-local name, which is "UNKNOW" if the given name is empty.
  pub returned-HandedOver :
      (ws : List Turn)
      → (run_both creates id (constructed name cb) ws).creator ≡ returned
      → HandedOver (run_both creates id (constructed name cb) ws)
  returned-HandedOver ws h =
      let e = after-stage ws in
      subst HandedOver (sym e) (through (reach ws).stage (sym (ap (λ s. s.creator) e) ∙ h))

-- Enough turns from any stage: the creating thread, the new one to its `notify`, and the creating one,
-- whose `sem_wait` succeeds.
abbrev pub rest : List Turn
rest = creates_on true ∷ runs_on ∷ runs_on ∷ runs_on ∷ runs_on ∷ runs_on ∷ creates_on true ∷ []

run_both-append :
    (creates : Bool) (id : ℕ) (s : Shared) (ws vs : List Turn)
    → run_both creates id s (ws ++ vs) ≡ run_both creates id (run_both creates id s ws) vs
run_both-append creates id s [] vs = refl
run_both-append creates id s (w ∷ ws) vs =
    run_both-append creates id (either_step creates id w s) ws vs

module _ (id cb : ℕ) (name : Text) where
  abbrev Ends : Phase → Type 0
  Ends q =
      (run_both true id (state_of true id cb name q) rest).creator
      ≡ (if is_thrown (creator_of q) then thrown else returned)

  waiting-Ends : (r : Runner) → is_sound (waiting r) ≡ true → Ends (waiting r)
  unfolding either_step
  waiting-Ends not_started h = absurd (cc)
  waiting-Ends at_this h = refl
  waiting-Ends at_name h = refl
  waiting-Ends at_id h = refl
  waiting-Ends at_swap h = refl
  waiting-Ends at_notify h = refl
  waiting-Ends at_call h = refl
  waiting-Ends ended h = refl

  thrown_at-Ends : (r : Runner) → Ends (thrown_at r)
  unfolding either_step
  thrown_at-Ends not_started = refl
  thrown_at-Ends at_this = refl
  thrown_at-Ends at_name = refl
  thrown_at-Ends at_id = refl
  thrown_at-Ends at_swap = refl
  thrown_at-Ends at_notify = refl
  thrown_at-Ends at_call = refl
  thrown_at-Ends ended = refl

  lost_at-Ends : (r : Runner) → Ends (lost_at r)
  unfolding either_step
  lost_at-Ends not_started = refl
  lost_at-Ends at_this = refl
  lost_at-Ends at_name = refl
  lost_at-Ends at_id = refl
  lost_at-Ends at_swap = refl
  lost_at-Ends at_notify = refl
  lost_at-Ends at_call = refl
  lost_at-Ends ended = refl

  rest-Ends : (q : Phase) → is_sound q ≡ true → Ends q
  unfolding either_step
  rest-Ends begun h = refl
  rest-Ends failed h = refl
  rest-Ends through_call h = refl
  rest-Ends through_ended h = refl
  rest-Ends (waiting r) h = waiting-Ends r h
  rest-Ends (thrown_at r) h = thrown_at-Ends r
  rest-Ends (lost_at r) h = lost_at-Ends r

  -- If `pthread_create` succeeds, then after any turns of the two threads a few more of each are
  -- enough for the constructor to end: it returns, unless a call of `sem_wait` has made it throw
  -- before. If no call of `sem_wait` has failed, it has not thrown, and the new thread has not used
  -- a destroyed object.
  pub run_both-returned :
      (ws : List Turn)
      → let s = run_both true id (constructed name cb) ws in
        ((run_both true id (constructed name cb) (ws ++ rest)).creator
          ≡ (if is_thrown s.creator then thrown else returned))
        × (all_wait ws ≡ true → (is_thrown s.creator ≡ false) × (s.is_undefined ≡ false))
  run_both-returned ws =
      let e = after-stage true id cb name ws in
      let r = run-phase true id cb name ws begun in
      (
        ap (λ s. s.creator)
              (run_both-append true id (constructed name cb) ws rest
                ∙ ap (λ s. run_both true id s rest) e)
            ∙ rest-Ends r.stage (r.sound refl)
            ∙ ap (λ s. if is_thrown s.creator then thrown else returned) (sym e),
        λ a.
            let u = r.unthrown refl a refl in
            (
              ap (λ s. is_thrown s.creator) e ∙ u,
              ap (λ s. s.is_undefined) e ∙ lost-thrown r.stage u,
            ),
      )
