-- ===== src/Thread/Progress.antt =====
-- What the stages of `Thread::Thread` keep from one turn to the next.
use sylar_server_study.Base.{ℕ, Bool, true, false, Text, List, [], ◌∷◌, ◌≡◌, refl, ap, ◌∙◌, arith}
use sylar_server_study.Thread.{
  Runner, not_started, at_this, at_name, at_id, at_swap, at_notify, at_call, ended, is_thrown, Turn,
  creates_on, runs_on,
}
use sylar_server_study.Thread.Phases.{
  run_both, all_wait, Phase, begun, through_call, waiting, thrown_at, lost_at, is_started, is_sound,
  creator_of, is_lost, after_wait, next_point, state_of, next_phase, step-next_phase,
}

module _ (creates : Bool) (id cb : ℕ) (name : Text) where
  abbrev next : Turn → Phase → Phase
  next = next_phase creates id cb name

  next_point-is_started : (r : Runner) → is_started r ≡ true → is_started (next_point r) ≡ true
  next_point-is_started not_started h = h
  next_point-is_started at_this h = refl
  next_point-is_started at_name h = refl
  next_point-is_started at_id h = refl
  next_point-is_started at_swap h = refl
  next_point-is_started at_notify h = refl
  next_point-is_started at_call h = refl
  next_point-is_started ended h = refl

  after_wait-is_sound : (r : Runner) → is_started r ≡ true → is_sound (after_wait r) ≡ true
  after_wait-is_sound not_started h = h
  after_wait-is_sound at_this h = refl
  after_wait-is_sound at_name h = refl
  after_wait-is_sound at_id h = refl
  after_wait-is_sound at_swap h = refl
  after_wait-is_sound at_notify h = refl
  after_wait-is_sound at_call h = refl
  after_wait-is_sound ended h = refl

  next_phase-is_sound : (w : Turn) (p : Phase) → is_sound p ≡ true → is_sound (next w p) ≡ true
  next_phase-is_sound (creates_on waits) begun h = ground arith
  next_phase-is_sound (creates_on true) (waiting r) h = after_wait-is_sound r h
  next_phase-is_sound (creates_on false) (waiting r) h = refl
  next_phase-is_sound runs_on (waiting r) h = next_point-is_started r h
  next_phase-is_sound runs_on (thrown_at r) h = ground arith
  next_phase-is_sound runs_on (lost_at r) h = ground arith
  next_phase-is_sound w p h = refl

  after_wait-is_thrown : (r : Runner) → is_thrown (creator_of (after_wait r)) ≡ false
  after_wait-is_thrown not_started = refl
  after_wait-is_thrown at_this = refl
  after_wait-is_thrown at_name = refl
  after_wait-is_thrown at_id = refl
  after_wait-is_thrown at_swap = refl
  after_wait-is_thrown at_notify = refl
  after_wait-is_thrown at_call = refl
  after_wait-is_thrown ended = refl

  -- The constructor does not throw where both calls succeed.
  next_phase-is_thrown :
      (w : Turn) (p : Phase)
      → creates ≡ true
      → all_wait (w ∷ []) ≡ true
      → is_thrown (creator_of p) ≡ false
      → is_thrown (creator_of (next w p)) ≡ false
  next_phase-is_thrown (creates_on waits) begun c a h = ground arith
  next_phase-is_thrown (creates_on true) (waiting r) c a h = after_wait-is_thrown r
  next_phase-is_thrown (creates_on false) (waiting r) c a h = absurd (cc)
  next_phase-is_thrown runs_on (waiting r) c a h = refl
  next_phase-is_thrown runs_on through_call c a h = refl
  next_phase-is_thrown runs_on (thrown_at r) c a h = absurd (cc)
  next_phase-is_thrown runs_on (lost_at r) c a h = absurd (cc)
  next_phase-is_thrown w p c a h = h

  -- After any turns the two threads are at a stage.
  pub record At (ws : List Turn) (p : Phase) : Type 0 where
    pub stage : Phase
    pub reached :
        run_both creates id (state_of creates id cb name p) ws ≡ state_of creates id cb name stage
    pub sound : is_sound p ≡ true → is_sound stage ≡ true
    pub unthrown :
        creates ≡ true
        → all_wait ws ≡ true
        → is_thrown (creator_of p) ≡ false
        → is_thrown (creator_of stage) ≡ false

  pub run-phase : (ws : List Turn) (p : Phase) → At ws p
  run-phase [] p = record { stage = p; reached = refl; sound = λ h. h; unthrown = λ c a h. h }
  run-phase (w ∷ ws) p =
      let r = run-phase ws (next w p) in
      record {
        stage = r.stage;
        reached =
            ap (λ s. run_both creates id s ws) (step-next_phase creates id cb name w p) ∙ r.reached;
        sound = λ h. r.sound (next_phase-is_sound w p h);
        unthrown =
            λ c a h. r.unthrown c (later w ws a) (next_phase-is_thrown w p c (first w ws a) h);
      }
    where
      first : (w : Turn) (ws : List Turn) → all_wait (w ∷ ws) ≡ true → all_wait (w ∷ []) ≡ true
      first (creates_on waits) ws a = ground arith
      first runs_on ws a = refl

      later : (w : Turn) (ws : List Turn) → all_wait (w ∷ ws) ≡ true → all_wait ws ≡ true
      later (creates_on waits) ws a = ground arith
      later runs_on ws a = a

pub lost-thrown : (p : Phase) → is_thrown (creator_of p) ≡ false → is_lost p ≡ false
lost-thrown (lost_at r) h = absurd (cc)
lost-thrown p h = refl
