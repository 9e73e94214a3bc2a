-- ===== src/Lock/Scoped.antt =====
-- A scoped lock and its mutex.
use sylar_server_study.Base.{
  Bool, true, false, List, [], ◌∷◌, ◌++◌, Option, none, some, ◌>>=◌, ◌≡◌, refl, ◌∙◌, Bool-cases,
  Option-cases, inl, inr,
}
use sylar_server_study.Lock.{
  Call, unlock, Kind, scoped, read_scoped, write_scoped, acquire, Guard, new_guard, guard_lock,
  guard_unlock, end_guard,
}

-- A mutex that can be acquired only when it is free, and released only when it is held.
abbrev pub after_call : Bool → Call → Option Bool
after_call true unlock = some false
after_call false unlock = none
after_call true _ = none
after_call false _ = some true

abbrev pub held : Bool → List Call → Option Bool
held h [] = some h
held h (c ∷ cs) = do h' ← after_call h c; held h' cs

-- What the owner of the scoped lock does with it: true is `lock`, false is `unlock`.
abbrev pub use_guard : Kind → Guard → List Bool → Guard
use_guard k g [] = g
use_guard k g (true ∷ us) = use_guard k (guard_lock k g) us
use_guard k g (false ∷ us) = use_guard k (guard_unlock g) us

after_call-acquire : (k : Kind) → after_call false (acquire k) ≡ some true
after_call-acquire scoped = refl
after_call-acquire read_scoped = refl
after_call-acquire write_scoped = refl

held-append :
    (h : Bool) (cs : List Call) (c : Call)
    → held h (cs ++ c ∷ []) ≡ (held h cs >>= λ h'. after_call h' c)
held-append h [] c = elim (Option-cases (after_call h c)) [
  | inl q ↦ rw q refl
  | inr (h', q) ↦ rw q refl
]
held-append h (d ∷ cs) c = elim (Option-cases (after_call h d)) [
  | inl q ↦ rw q refl
  | inr (h', q) ↦ rw q (held-append h' cs c)
]

-- The mutex is held exactly if `m_locked` is set.
Agrees : Guard → Type 0
Agrees g = held false g.calls ≡ some g.locked

guard_lock-Agrees : (k : Kind) (g : Guard) → Agrees g → Agrees (guard_lock k g)
unfolding guard_lock Agrees
guard_lock-Agrees k g a = elim (Bool-cases g.locked) [
  | inl yes' ↦ simp yes' (a ∙ rw yes' refl)
  | inr no' ↦ simp no' (held-append false g.calls (acquire k) ∙ rw (a, no') (after_call-acquire k))
]

guard_unlock-Agrees : (g : Guard) → Agrees g → Agrees (guard_unlock g)
unfolding guard_unlock Agrees
guard_unlock-Agrees g a = elim (Bool-cases g.locked) [
  | inl yes' ↦ simp yes' (held-append false g.calls unlock ∙ rw (a, yes') refl)
  | inr no' ↦ simp no' (a ∙ rw no' refl)
]

use_guard-Agrees : (k : Kind) (us : List Bool) (g : Guard) → Agrees g → Agrees (use_guard k g us)
use_guard-Agrees k [] g a = a
use_guard-Agrees k (true ∷ us) g a =
    use_guard-Agrees k us (guard_lock k g) (guard_lock-Agrees k g a)
use_guard-Agrees k (false ∷ us) g a =
    use_guard-Agrees k us (guard_unlock g) (guard_unlock-Agrees g a)

end_guard-free : (g : Guard) → Agrees g → held false (end_guard g).calls ≡ some false
unfolding end_guard guard_unlock Agrees
end_guard-free g a = elim (Bool-cases g.locked) [
  | inl yes' ↦ simp yes' (held-append false g.calls unlock ∙ rw (a, yes') refl)
  | inr no' ↦ simp no' (a ∙ rw no' refl)
]

new_guard-Agrees : (k : Kind) → Agrees (new_guard k)
unfolding new_guard Agrees
new_guard-Agrees k = rw (after_call-acquire k) refl

-- However often its owner calls `lock` and `unlock` on a scoped lock of any of the three kinds, from
-- its construction to the end of its life it acquires the mutex only while it does not hold it,
-- releases it only while it does, and leaves it free.
pub held-guard :
    (k : Kind) (us : List Bool)
    → held false (end_guard (use_guard k (new_guard k) us)).calls ≡ some false
held-guard k us =
    end_guard-free (use_guard k (new_guard k) us)
      (use_guard-Agrees k us (new_guard k) (new_guard-Agrees k))
