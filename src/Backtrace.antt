-- ===== src/Backtrace.antt =====
-- sylar/util.cc: `Backtrace` and `BacktraceToString`. The frames of the stack, as text, come from
-- boost::stacktrace or from libc. `skip` is the number that it is converted to for the subtraction and
-- the loop; `none` stands for the `std::length_error` of `reserve`.
pub mod Bounds
use sylar_server_study.Base.{
  ℕ, suc, zero, ◌+◌, ◌-◌, ◌%◌, ◌^◌, Text, codes, leb, if◌then◌else◌, List, [], ◌∷◌, ◌++◌, Option,
  none, some, ◌>>=◌, length, get_elem?, show_nat,
}

-- `max_size()` of a vector of strings of 32 bytes.
abbrev pub max_size : ℕ
max_size = 288230376151711743

-- `bt.reserve(n)`
abbrev pub reserve : ℕ → List Text → Option (List Text)
reserve n bt = if leb n max_size then some bt else none

-- `vec.size() - skip` of the type `size_t`.
abbrev pub wrapped_difference : ℕ → ℕ → ℕ
wrapped_difference size skip = (size + (2 ^ 64 - skip)) % 2 ^ 64

-- An access out of range does not occur below.
abbrev pub frame_at : List Text → ℕ → Text
frame_at vec i = elim (get_elem? vec i) [ none ↦ [] | some t ↦ t ]

-- `for (size_t i = skip; i < vec.size(); ++i)`, with `left` rounds to go.
unfoldable pub push_frames : List Text → ℕ → ℕ → List Text → List Text
push_frames vec i zero bt = bt
push_frames vec i (suc left) bt = push_frames vec (i + 1) left (bt ++ frame_at vec i ∷ [])

-- `Backtrace` with BOOST_STACKTRACE_USE_BACKTRACE.
unfoldable pub backtrace : List Text → ℕ → List Text → Option (List Text)
unfolding push_frames
backtrace vec skip bt = reserve (wrapped_difference (length vec) skip) bt >>= λ bt'.
    some (push_frames vec skip (length vec - skip) bt')

-- `Backtrace` without it: `backtrace_symbols` may fail, which is logged.
unfoldable pub backtrace_libc : Option (List Text) → ℕ → List Text → Option (List Text)
unfolding push_frames
backtrace_libc none skip bt = some bt
backtrace_libc (some strings) skip bt =
    reserve (wrapped_difference (length strings) skip) bt >>= λ bt'.
    some (push_frames strings skip (length strings - skip) bt')

-- The loop of `BacktraceToString`.
unfoldable pub numbered : Text → ℕ → List Text → Text
numbered prefix i [] = []
numbered prefix i (t ∷ bt) =
    prefix ++ (show_nat i ++ (codes "# " ++ (t ++ b'\n' ∷ numbered prefix (i + 1) bt)))

unfoldable pub backtrace_to_string : List Text → ℕ → Text → Option Text
unfolding backtrace numbered
backtrace_to_string vec skip prefix = backtrace vec skip [] >>= λ bt. some (numbered prefix 0 bt)
