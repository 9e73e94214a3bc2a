-- ===== src/Formatter/Meaning.antt =====
-- What each directive stands for: the comment above `LogFormatter` in sylar/log.h lists all but `%n`,
-- which the patterns of the program use for the end of a line.
use sylar_server_study.Base.{
  ℕ, zero, suc, Bool, true, false, ◌&&◌, ◌||◌, Text, codes, text_eq, is_empty, show_nat,
  if◌then◌else◌, ◌==◌, List, [], ◌∷◌, ◌++◌, Option, none, some, ◌>>=◌, ◌≡◌, refl, arith,
}
use sylar_server_study.Level
use sylar_server_study.Formatter.Pieces.{Piece, literal, bare, braced}
use sylar_server_study.Formatter.Items.{Event, Outside, default_date}

-- The name `n` is the one letter `d`.
abbrev pub is_single : ℕ → Text → Bool
is_single d (c ∷ []) = d == c
is_single d _ = false

pub text_eq_single : (d : ℕ) (n : Text) → text_eq (d ∷ []) n ≡ is_single d n
unfolding text_eq
text_eq_single d [] = refl
text_eq_single d (c ∷ []) = ground arith
text_eq_single d (c ∷ b ∷ n) = ground arith

unfoldable pub among : Text → Text → Bool
among n [] = false
among n (d ∷ ds) = is_single d n || among n ds

-- The letters in the comment above `LogFormatter` in sylar/log.h.
abbrev pub comment_letters : Text
comment_letters = codes "mpPrctdflTFN"

-- The directives: those of the comment, and `%n`, which it leaves out.
abbrev pub is_letter : Text → Bool
is_letter n = among n comment_letters || among n (codes "n")

abbrev pub is_known : Piece → Bool
is_known (literal t) = true
is_known (bare n) = is_letter n
is_known (braced n f) = is_letter n

abbrev pub all_known : List Piece → Bool
all_known [] = true
all_known (p ∷ ps) = is_known p && all_known ps

abbrev pub Meanings : Type 0
Meanings = List (ℕ × (Text → Option Text))

unfoldable pub meaning : Text → Text → Meanings → Option Text
meaning n f [] = some (codes "<<error_format %" ++ (n ++ codes ">>"))
meaning n f ((d, write) ∷ ms) = if is_single d n then write f else meaning n f ms

-- The terminal's codes for the colour of a level, and for its end.
abbrev pub paint : Level.Level → Option Text
paint zero = none
paint (suc zero) = some (0x1b ∷ (codes "[32m" ++ (0x1b ∷ codes "[1m")))
paint (suc (suc zero)) = some (0x1b ∷ (codes "[0m" ++ (0x1b ∷ codes "[1m ")))
paint (suc (suc (suc zero))) = some (0x1b ∷ (codes "[33m" ++ (0x1b ∷ codes "[1m ")))
paint (suc (suc (suc (suc zero)))) = some (0x1b ∷ (codes "[31m" ++ (0x1b ∷ codes "[1m")))
paint (suc (suc (suc (suc (suc zero))))) = some (0x1b ∷ (codes "[35m" ++ (0x1b ∷ codes "[1m")))
paint _ = none

abbrev pub unpaint : Text
unpaint = 0x1b ∷ codes "[0m"

-- A directory in short: its first letter and a slash, and the root as it is.
abbrev pub short_name : Text → Text
short_name [] = 0 ∷ b'/' ∷ []
short_name (c ∷ d ∷ s) = c ∷ b'/' ∷ []
short_name (c ∷ []) = if c == b'/' then b'/' ∷ [] else c ∷ b'/' ∷ []

abbrev pub short_names : List Text → Text
short_names [] = []
short_names (s ∷ ds) = short_name s ++ short_names ds

module _ (o : Outside) (names : ℕ → Text) (e : Event) where
  -- A file: with its directories in short for the style `s`, relative for `r`, and as it is.
  abbrev pub named_file : Text → Text
  named_file style =
      if is_single b's' style
      then short_names (o.directories e.file) ++ o.filename e.file
      else if is_single b'r' style
      then o.relative e.file
      else e.file

  abbrev pub documented : Meanings
  documented =
      (b'm', λ f. some e.content)
      ∷ (b'p', λ f. some (Level.to_string e.level))
      ∷ (b'r', λ f. some (show_nat e.elapse))
      ∷ (b'c', λ f. some (names e.logger))
      ∷ (b't', λ f. some (show_nat e.thread_id))
      ∷ (b'n', λ f. some (b'\n' ∷ []))
      ∷ (b'd', λ f. some (o.strftime (if is_empty f then default_date else f) e.time))
      ∷ (b'f', λ f. some (named_file f))
      ∷ (b'l', λ f. some (show_nat e.line))
      ∷ (b'T', λ f. some (b'\t' ∷ []))
      ∷ (b'F', λ f. some (show_nat e.fiber_id))
      ∷ (b'P', λ f. paint e.level >>= λ c. some (c ++ (Level.to_string e.level ++ unpaint)))
      ∷ (b'N', λ f. some e.thread_name)
      ∷ []

  abbrev pub directive_text : Text → Text → Option Text
  directive_text n f = meaning n f documented

  -- What a piece stands for.
  abbrev pub piece_text : Piece → Option Text
  piece_text (literal t) = some t
  piece_text (bare n) = directive_text n []
  piece_text (braced n f) = directive_text n f

  abbrev pub pieces_text : List Piece → Option Text
  pieces_text [] = some []
  pieces_text (p ∷ ps) = do t ← piece_text p; ts ← pieces_text ps; some (t ++ ts)
