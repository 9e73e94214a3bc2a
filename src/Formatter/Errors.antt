-- ===== src/Formatter/Errors.antt =====
-- Malformed patterns: an error is never forgotten, and an unmatched brace is one.
use sylar_server_study.Base.{
  all, ℕ, Bool, true, false, not, Text, is_alpha, List, [], ◌∷◌, ◌++◌, ◌≡◌, refl, arith, head?,
}
use sylar_server_study.Formatter.{
  Parser, Status, normal_string, parsing_str, parsing_fmt, run, step_in, step, finish_in, finish,
  scan, initial, fail,
}
use sylar_server_study.Formatter.Pieces.{Piece, print_onto, is_brace, IsPattern}
use sylar_server_study.Formatter.Boundary.{
  fresh, to_parser, emitted, in_name, in_format, after_all, run_open, run_pieces,
  after_all-FlushesText, run-in_name, run-in_format, name_ne_percent,
}

step_in_keeps :
    (m : Status) (p : Parser) (c : ℕ) (next : _)
    → p.is_error ≡ true
    → (step_in m p c next).0.is_error ≡ true
unfolding step_in
step_in_keeps normal_string p c next h = ground arith
step_in_keeps parsing_str p c next h = ground arith
step_in_keeps parsing_fmt p c next h = ground arith

run_keeps :
    (text : Text) (skip : Bool) (p : Parser) → p.is_error ≡ true → (run p skip text).is_error ≡ true
unfolding run
run_keeps [] skip p h = h
run_keeps (c ∷ t) true p h = run_keeps t false p h
run_keeps (c ∷ t) false p h =
    run_keeps t (step p c (head? t)).1 (step p c (head? t)).0
      (step_in_keeps p.status p c (head? t) h)

finish_in_keeps : (m : Status) (p : Parser) → p.is_error ≡ true → (finish_in m p).is_error ≡ true
unfolding finish_in
finish_in_keeps normal_string p h = ground arith
finish_in_keeps parsing_str p h = h
finish_in_keeps parsing_fmt p h = refl

-- An error found anywhere in the loop is the result of the scan.
finish_keeps :
    (text : Text) (skip : Bool) (p : Parser)
    → p.is_error ≡ true
    → (finish (run p skip text)).is_error ≡ true
finish_keeps text skip p h = finish_in_keeps _ _ (run_keeps text skip p h)

run-pattern :
    (ps : List Piece) (rest : Text)
    → IsPattern ps
    → run initial false (print_onto ps rest) ≡ run (to_parser (after_all (fresh []) ps)) false rest
run-pattern [] rest h = refl
run-pattern (p ∷ ps) rest h = run_pieces (fresh []) p ps rest h tt

-- Behind any written pattern, a directive whose name is closed by `}` with no `{` before it makes
-- the scan an error, whatever follows.
pub scan-unopened :
    (ps : List Piece) (n rest : Text)
    → IsPattern ps
    → all is_alpha n ≡ true
    → (scan (print_onto ps (b'%' ∷ (n ++ (b'}' ∷ rest))))).is_error ≡ true
unfolding scan run step_in
scan-unopened ps n rest h a =
    let b = after_all (fresh []) ps in
    rw (run-pattern ps _ h) (
      rw (run_open b _ (name_ne_percent n _ a refl) (after_all-FlushesText (fresh []) ps h tt)) (
        rw (run-in_name n (emitted b) [] (b'}' ∷ rest) a)
          (finish_keeps rest false (fail (in_name (emitted b) n)) refl)))

-- Behind any written pattern, a `{` inside the braces of a format makes the scan an error, whatever
-- follows.
pub scan-nested :
    (ps : List Piece) (n f rest : Text)
    → IsPattern ps
    → all is_alpha n ≡ true
    → all (λ c. not (is_brace c)) f ≡ true
    → (scan (print_onto ps (b'%' ∷ (n ++ (b'{' ∷ (f ++ (b'{' ∷ rest))))))).is_error ≡ true
unfolding scan run step_in
scan-nested ps n f rest h a k =
    let b = after_all (fresh []) ps in
    rw (run-pattern ps _ h) (
      rw (run_open b _ (name_ne_percent n _ a refl) (after_all-FlushesText (fresh []) ps h tt)) (
        rw (run-in_name n (emitted b) [] _ a) (
          rw (run-in_format f (emitted b) n [] (b'{' ∷ rest) k)
            (finish_keeps rest false (fail (in_format (emitted b) n f)) refl))))
