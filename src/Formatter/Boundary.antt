-- ===== src/Formatter/Boundary.antt =====
-- What the scanner holds back between two pieces of a pattern, and how it reads one piece.
use sylar_server_study.Base.{
  all, true, false, not, Text, is_alpha, List, [], ◌∷◌, ◌++◌, ◌≡◌, refl, ◌∙◌, arith, append-nil,
  append_assoc, ◌≢◌, head?,
}
use sylar_server_study.Formatter.{
  Entry, Parser, normal_string, parsing_str, parsing_fmt, run, step_in, next_is_percent,
}
use sylar_server_study.Formatter.Pieces.{
  Piece, literal, bare, braced, escape_onto, print_piece, print_onto, entry, is_brace, EndsName,
  MayFollow, IsPiece, IsPattern,
}

-- What the scanner still holds back between two pieces.
pub data Boundary : Type 0 where
  fresh : List Entry → Boundary
  text_held : List Entry → Text → Boundary
  name_held : List Entry → Text → Boundary

abbrev pub in_text : List Entry → Text → Parser
in_text v t = record {
  vec = v;
  nstr = t;
  pstr = [];
  pfmt = [];
  status = normal_string;
  is_error = false;
}

abbrev pub in_name : List Entry → Text → Parser
in_name v n = record {
  vec = v;
  nstr = [];
  pstr = n;
  pfmt = [];
  status = parsing_str;
  is_error = false;
}

abbrev pub in_format : List Entry → Text → Text → Parser
in_format v n f = record {
  vec = v;
  nstr = [];
  pstr = n;
  pfmt = f;
  status = parsing_fmt;
  is_error = false;
}

abbrev pub to_parser : Boundary → Parser
to_parser (fresh v) = in_text v []
to_parser (text_held v t) = in_text v t
to_parser (name_held v n) = in_name v n

abbrev pub emitted : Boundary → List Entry
emitted (fresh v) = v
emitted (text_held v t) = v ++ entry (literal t) ∷ []
emitted (name_held v n) = v ++ entry (bare n) ∷ []

abbrev pub after : Boundary → Piece → Boundary
after b (literal t) = text_held (emitted b) t
after b (bare n) = name_held (emitted b) n
after b (braced n f) = fresh (emitted b ++ entry (braced n f) ∷ [])

abbrev pub Accepts : Boundary → Piece → Type 0
Accepts (fresh v) p = Unit
Accepts (text_held v t) (literal u) = ⊥
Accepts (text_held v t) p = t ≢ []
Accepts (name_held v n) (literal u) = EndsName u
Accepts (name_held v n) p = Unit

abbrev pub FlushesText : Boundary → Type 0
FlushesText (text_held v t) = t ≢ []
FlushesText _ = Unit

pub Accepts-bare : (b : Boundary) (n : Text) → Accepts b (bare n) → FlushesText b
Accepts-bare (fresh v) n a = tt
Accepts-bare (text_held v t) n a = a
Accepts-bare (name_held v m) n a = tt

pub Accepts-braced : (b : Boundary) (n f : Text) → Accepts b (braced n f) → FlushesText b
Accepts-braced (fresh v) n f a = tt
Accepts-braced (text_held v t) n f a = a
Accepts-braced (name_held v m) n f a = tt

run-in_text :
    (t : Text) (v : List Entry) (u rest : Text)
    → run (in_text v u) false (escape_onto t rest) ≡ run (in_text v (u ++ t)) false rest
unfolding run step_in
run-in_text [] v u rest = rw append-nil
run-in_text (c ∷ t) v u rest =
    ground (arith, run-in_text t v (u ++ c ∷ []) rest, append_assoc u (c ∷ []) t)

pub run-in_name :
    (n : Text) (v : List Entry) (m rest : Text)
    → all is_alpha n ≡ true
    → run (in_name v m) false (n ++ rest) ≡ run (in_name v (m ++ n)) false rest
unfolding run step_in is_alpha
run-in_name [] v m rest h = rw append-nil
run-in_name (c ∷ n) v m rest h =
    ground (arith, run-in_name n v (m ++ c ∷ []) rest, append_assoc m (c ∷ []) n)

pub run-in_format :
    (f : Text) (v : List Entry) (n g rest : Text)
    → all (λ c. not (is_brace c)) f ≡ true
    → run (in_format v n g) false (f ++ rest) ≡ run (in_format v n (g ++ f)) false rest
unfolding run step_in
run-in_format [] v n g rest h = rw append-nil
run-in_format (c ∷ f) v n g rest h =
    ground (arith, run-in_format f v n (g ++ c ∷ []) rest, append_assoc g (c ∷ []) f)

-- A percent sign that is not doubled flushes what is held and opens a name.
pub run_open :
    (b : Boundary) (rest : Text)
    → next_is_percent (head? rest) ≡ false
    → FlushesText b
    → run (to_parser b) false (b'%' ∷ rest) ≡ run (in_name (emitted b) []) false rest
unfolding run step_in
run_open (fresh v) rest h a = rw h
run_open (text_held v []) rest h a = absurd (a refl)
run_open (text_held v (d ∷ t)) rest h a = rw h
run_open (name_held v n) rest h a = rw h

-- A name that a brace closes, and its format.
run-braced :
    (n f : Text) (v : List Entry) (rest : Text)
    → IsPiece (braced n f)
    → run (in_name v []) false (n ++ (b'{' ∷ (f ++ (b'}' ∷ rest))))
      ≡ run (in_text (v ++ entry (braced n f) ∷ []) []) false rest
unfolding run step_in
run-braced n f v rest h = run-in_name n v [] _ h.0 ∙ run-in_format f v n [] (b'}' ∷ rest) h.1

pub name_ne_percent :
    (n rest : Text)
    → all is_alpha n ≡ true
    → next_is_percent (head? rest) ≡ false
    → next_is_percent (head? (n ++ rest)) ≡ false
unfolding is_alpha
name_ne_percent [] rest h e = e
name_ne_percent (c ∷ n) rest h e = ground arith

-- A piece is read whole, whatever comes behind it.
pub run_piece :
    (b : Boundary) (p : Piece) (rest : Text)
    → IsPiece p
    → Accepts b p
    → run (to_parser b) false (print_piece p rest) ≡ run (to_parser (after b p)) false rest
unfolding run step_in is_alpha
run_piece (fresh v) (literal t) rest h a = run-in_text t v [] rest
run_piece (text_held v u) (literal t) rest h a = absurd a
run_piece (name_held v n) (literal []) rest h a = absurd a
run_piece (name_held v n) (literal (c ∷ t)) rest h a =
    ground (arith, run-in_text t (v ++ entry (bare n) ∷ []) (c ∷ []) rest)
run_piece b (bare []) rest h a = absurd (h.0 refl)
run_piece b (bare (c ∷ n)) rest h a =
    run_open b ((c ∷ n) ++ rest) (ground arith) (Accepts-bare b (c ∷ n) a)
    ∙ run-in_name (c ∷ n) (emitted b) [] rest h.1
run_piece b (braced n f) rest h a =
    run_open b _ (name_ne_percent n _ h.0 refl) (Accepts-braced b n f a)
    ∙ run-braced n f (emitted b) rest h

pub after-Accepts :
    (b : Boundary) (p q : Piece) (ps : List Piece)
    → IsPiece p
    → MayFollow p (q ∷ ps)
    → Accepts (after b p) q
after-Accepts b (literal t) (literal u) ps h m = m
after-Accepts b (literal t) (bare n) ps h m = h
after-Accepts b (literal t) (braced n f) ps h m = h
after-Accepts b (bare n) (literal u) ps h m = m
after-Accepts b (bare n) (bare _) ps h m = tt
after-Accepts b (bare n) (braced _ _) ps h m = tt
after-Accepts b (braced n f) q ps h m = tt

pub emitted-after : (b : Boundary) (p : Piece) → emitted (after b p) ≡ emitted b ++ entry p ∷ []
emitted-after b (literal t) = refl
emitted-after b (bare n) = refl
emitted-after b (braced n f) = refl

-- A whole pattern is read, whatever comes behind it, and what is held then can be flushed.
abbrev pub after_all : Boundary → List Piece → Boundary
after_all b [] = b
after_all b (p ∷ ps) = after_all (after b p) ps

pub run_pieces :
    (b : Boundary) (p : Piece) (ps : List Piece) (rest : Text)
    → IsPattern (p ∷ ps)
    → Accepts b p
    → run (to_parser b) false (print_onto (p ∷ ps) rest)
      ≡ run (to_parser (after_all b (p ∷ ps))) false rest
run_pieces b p [] rest h a = run_piece b p rest h.0 a
run_pieces b p (q ∷ ps) rest h a =
    run_piece b p (print_onto (q ∷ ps) rest) h.0 a
    ∙ run_pieces (after b p) q ps rest h.2 (after-Accepts b p q ps h.0 h.1)

pub after_all-FlushesText :
    (b : Boundary) (ps : List Piece) → IsPattern ps → FlushesText b → FlushesText (after_all b ps)
after_all-FlushesText b [] h f = f
after_all-FlushesText b (literal t ∷ ps) h f =
    after_all-FlushesText (after b (literal t)) ps h.2 h.0
after_all-FlushesText b (bare n ∷ ps) h f = after_all-FlushesText (after b (bare n)) ps h.2 tt
after_all-FlushesText b (braced n g ∷ ps) h f =
    after_all-FlushesText (after b (braced n g)) ps h.2 tt
