-- ===== src/Backtrace/Bounds.antt =====
-- sylar/util.cc: which frames a backtrace has, and when it fails.
use sylar_server_study.Base.{
  ℕ, suc, zero, ◌+◌, ◌-◌, ◌^◌, ◌≤◌, ◌<◌, Text, leb, true, false, Bool-cases, inl, inr,
  if◌then◌else◌, List, [], ◌∷◌, ◌++◌, append-nil, append_assoc, none, some, ◌>>=◌, length, ◌≡◌,
  refl, sym, ap, ◌∙◌, arith,
}
use sylar_server_study.Backtrace.{
  max_size, reserve, wrapped_difference, frame_at, push_frames, backtrace, backtrace_libc,
}

-- All but the first frames.
abbrev pub drop : ℕ → List Text → List Text
drop zero vec = vec
drop (suc n) [] = []
drop (suc n) (t ∷ vec) = drop n vec

drop_all : (vec : List Text) (i : ℕ) → i ≡ length vec → drop i vec ≡ []
drop_all [] zero h = refl
drop_all [] (suc i) h = refl
drop_all (t ∷ vec) zero h = absurd (omega arith)
drop_all (t ∷ vec) (suc i) h = drop_all vec i (omega arith)

drop_at :
    (vec : List Text) (i : ℕ) → i < length vec → drop i vec ≡ frame_at vec i ∷ drop (i + 1) vec
drop_at [] i h = absurd (omega arith)
drop_at (t ∷ vec) zero h = refl
drop_at (t ∷ vec) (suc i) h =
    let e : suc i + 1 ≡ suc (i + 1) = omega arith in rw e (drop_at vec i (omega arith))

push_frames-drop :
    (vec : List Text) (i left : ℕ) (bt : List Text)
    → i + left ≡ length vec
    → push_frames vec i left bt ≡ bt ++ drop i vec
unfolding push_frames
push_frames-drop vec i zero bt h = rw (drop_all vec i (omega arith)) (sym (append-nil bt))
push_frames-drop vec i (suc left) bt h =
    push_frames-drop vec (i + 1) left (bt ++ frame_at vec i ∷ []) (omega arith)
    ∙ (append_assoc bt (frame_at vec i ∷ []) (drop (i + 1) vec)
        ∙ ap (λ z. bt ++ z) (sym (drop_at vec i (omega arith))))

wrapped_fits :
    (size skip : ℕ)
    → size ≤ max_size
    → skip < 2 ^ 63
    → skip ≤ size
    → wrapped_difference size skip ≤ max_size
wrapped_fits size skip h k le = omega arith

wrapped_exceeds :
    (size skip : ℕ)
    → size ≤ max_size
    → skip < 2 ^ 63
    → size < skip
    → max_size < wrapped_difference size skip
wrapped_exceeds size skip h k lt = omega arith

-- What follows the reading of the stack in both versions.
reserve_push :
    (vec : List Text) (skip : ℕ) (bt : List Text)
    → length vec ≤ max_size
    → skip < 2 ^ 63
    → (reserve (wrapped_difference (length vec) skip) bt >>= λ bt'.
        some (push_frames vec skip (length vec - skip) bt'))
      ≡ (if leb skip (length vec) then some (bt ++ drop skip vec) else none)
reserve_push vec skip bt h k = elim (Bool-cases (leb skip (length vec))) [
  | inl le ↦
      let fits : leb (wrapped_difference (length vec) skip) max_size ≡ true =
        ground (arith, wrapped_fits (length vec) skip h k) in
      rw (fits, le) (ap some (push_frames-drop vec skip (length vec - skip) bt (ground arith)))
  | inr gt ↦
      let exceeds : leb (wrapped_difference (length vec) skip) max_size ≡ false =
        ground (arith, wrapped_exceeds (length vec) skip h k) in
      rw (exceeds, gt) refl
]

-- In both builds a backtrace appends all frames but the first `skip`, or fails if there are fewer
-- than `skip`: then the difference wraps around, and is more than a vector can hold. The frames fit
-- into a vector, and `skip` is not negative.
pub backtrace-drop :
    (vec : List Text) (skip : ℕ) (bt : List Text)
    → length vec ≤ max_size
    → skip < 2 ^ 63
    → let expected = if leb skip (length vec) then some (bt ++ drop skip vec) else none in
      (backtrace vec skip bt ≡ expected) × (backtrace_libc (some vec) skip bt ≡ expected)
unfolding backtrace backtrace_libc
backtrace-drop vec skip bt h k = (reserve_push vec skip bt h k, reserve_push vec skip bt h k)
