-- ===== src/Formatter.antt =====
-- sylar/log.cc: `LogFormatter::init` up to the end of the scan, as a state machine over the bytes of
-- the pattern. `i + 1 < m_pattern.size()` and `m_pattern[i + 1]` are the optional next byte; the
-- extra `++i` is a flag that makes the loop drop one byte.
pub mod Pieces
mod Boundary
pub mod Scan
pub mod Items
pub mod Errors
pub mod Meaning
mod Table
pub mod Format
pub mod Total
use sylar_server_study.Base.{
  ℕ, Bool, true, false, not, ◌&&◌, Text, codes, is_empty, is_alpha, if◌then◌else◌, ◌==◌, List, [],
  ◌∷◌, ◌++◌, Option, none, some, head?,
}

-- An element of `vec`: kind 0 is plain text, kind 1 a directive.
pub record Entry : Type 0 where
  pub str : Text
  pub fmt : Text
  pub kind : ℕ

pub data Status : Type 0 where
  normal_string parsing_str parsing_fmt : Status

pub record Parser : Type 0 where
  pub vec : List Entry
  pub nstr : Text
  pub pstr : Text
  pub pfmt : Text
  pub status : Status
  pub is_error : Bool

abbrev pub error_pattern : Entry
error_pattern = record { str = codes "<<error_pattern>>"; fmt = []; kind = 0 }

-- `vec.emplace_back(str, fmt, kind)`
abbrev pub emplace : Parser → Text → Text → ℕ → Parser
emplace p s f k = record p { vec = p.vec ++ (record { str = s; fmt = f; kind = k }) ∷ [] }

-- `vec.emplace_back(pstr, pfmt, 1); pstr.clear(); pfmt.clear();`
abbrev pub emplace_directive : Parser → Parser
emplace_directive p = record (emplace p p.pstr p.pfmt 1) { pstr = []; pfmt = [] }

-- The three assignments of an error inside the loop, back to the normal state.
abbrev pub fail : Parser → Parser
fail p = record p {
  vec = p.vec ++ error_pattern ∷ [];
  pstr = [];
  pfmt = [];
  status = normal_string;
  is_error = true;
}

abbrev pub next_is_percent : Option ℕ → Bool
next_is_percent none = false
next_is_percent (some d) = d == b'%'

-- `if (!nstr.empty()) { vec.emplace_back(nstr, "", 0); nstr.clear(); }`
abbrev pub flush : Parser → Parser
flush p = if is_empty p.nstr then p else record (emplace p p.nstr [] 0) { nstr = [] }

-- One pass through the loop: the new state, and whether `i` is advanced once more.
unfoldable pub step_in : Status → Parser → ℕ → Option ℕ → Parser × Bool
step_in normal_string p c next =
    if c == b'%'
    then (if next_is_percent next
        then (record p { nstr = p.nstr ++ b'%' ∷ [] }, true)
        else (record (flush p) { status = parsing_str }, false))
    else (record p { nstr = p.nstr ++ c ∷ [] }, false)
step_in parsing_str p c next =
    if c == b'{'
    then (record p { status = parsing_fmt }, false)
    else if c == b'}'
    then (fail p, false)
    else if c == b'%'
    then (if next_is_percent next
        then (
          record (emplace_directive p) { status = normal_string; nstr = p.nstr ++ b'%' ∷ [] },
          true,
        )
        else (record (emplace_directive p) { status = parsing_str }, false))
    else if not (is_alpha c)
    then (record (emplace_directive p) { status = normal_string; nstr = p.nstr ++ c ∷ [] }, false)
    else (record p { pstr = p.pstr ++ c ∷ [] }, false)
step_in parsing_fmt p c next =
    if c == b'}'
    then (record (emplace_directive p) { status = normal_string }, false)
    else if c == b'{'
    then (fail p, false)
    else (record p { pfmt = p.pfmt ++ c ∷ [] }, false)

abbrev pub step : Parser → ℕ → Option ℕ → Parser × Bool
step p = step_in p.status p

unfoldable pub run : Parser → Bool → Text → Parser
run p skip [] = p
run p true (c ∷ rest) = run p false rest
run p false (c ∷ rest) = let (p', skip) = step p c (head? rest) in run p' skip rest

-- "parse end check"
unfoldable pub finish_in : Status → Parser → Parser
finish_in normal_string p =
    if not (is_empty p.nstr)
    then emplace p p.nstr [] 0
    else record p { vec = p.vec ++ error_pattern ∷ []; is_error = true }
finish_in parsing_str p = emplace p p.pstr p.pfmt 1
finish_in parsing_fmt p = record p { vec = p.vec ++ error_pattern ∷ []; is_error = true }

abbrev pub finish : Parser → Parser
finish p = finish_in p.status p

abbrev pub initial : Parser
initial = record {
  vec = [];
  nstr = [];
  pstr = [];
  pfmt = [];
  status = normal_string;
  is_error = false;
}

-- `vec` and `m_error` behind the end check.
unfoldable pub scan : Text → Parser
unfolding run step_in finish_in
scan pattern = finish (run initial false pattern)
