-- ===== src/Formatter/Scan.antt =====
-- The scanner reads back what the pattern language writes.
use sylar_server_study.Base.{
  Bool, false, not, if◌then◌else◌, List, [], ◌∷◌, ◌++◌, ◌≡◌, refl, append_assoc, map,
}
use sylar_server_study.Formatter.{Entry, Parser, error_pattern, run, finish_in, finish, scan}
use sylar_server_study.Formatter.Pieces.{
  Piece, literal, bare, braced, print, entry, IsPiece, IsPattern, ends_open,
}
use sylar_server_study.Formatter.Boundary.{
  Boundary, fresh, to_parser, emitted, after, Accepts, run_piece, after-Accepts, emitted-after,
}

-- What `vec` and `m_error` are to be, from the pieces alone.
abbrev pub entries : List Piece → List Entry
entries ps = map entry ps ++ (if ends_open ps then [] else error_pattern ∷ [])

abbrev Finished : List Entry → Bool → Parser → Type 0
Finished v clean q = (q.vec ≡ v) × (q.is_error ≡ not clean)

finish-last :
    (b : Boundary) (p : Piece)
    → IsPiece p
    → Finished (emitted b ++ entries (p ∷ [])) (ends_open (p ∷ [])) (finish (to_parser (after b p)))
unfolding finish_in
finish-last b (literal []) h = absurd (h refl)
finish-last b (literal (c ∷ t)) h = (refl, refl)
finish-last b (bare n) h = (refl, refl)
finish-last b (braced n f) h = (append_assoc (emitted b) _ _, refl)

finish-print :
    (b : Boundary) (p : Piece) (ps : List Piece)
    → IsPattern (p ∷ ps)
    → Accepts b p
    → Finished
        (emitted b ++ entries (p ∷ ps))
        (ends_open (p ∷ ps))
        (finish (run (to_parser b) false (print (p ∷ ps))))
unfolding run
finish-print b p [] h a = rw (run_piece b p [] h.0 a) (finish-last b p h.0)
finish-print b p (q ∷ ps) h a =
    let ih = finish-print (after b p) q ps h.2 (after-Accepts b p q ps h.0 h.1) in
    rw (run_piece b p (print (q ∷ ps)) h.0 a) (rw (emitted-after b p, append_assoc) at ih)

-- Scanning a pattern that is written from texts and directives gives one entry for each, in order,
-- and no error, if the pattern ends in a text or in a directive without braces. Otherwise, that is
-- for an empty pattern or one that ends in `}`, the scan reports an error and appends an error
-- entry. No two texts follow each other, and a text behind a directive without braces begins with
-- neither a letter nor a brace.
pub scan-print :
    (ps : List Piece)
    → IsPattern ps
    → ((scan (print ps)).vec ≡ entries ps) × ((scan (print ps)).is_error ≡ not (ends_open ps))
unfolding scan
scan-print [] h = (refl, refl)
scan-print (p ∷ ps) h = finish-print (fresh []) p ps h tt
