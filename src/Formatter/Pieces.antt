-- ===== src/Formatter/Pieces.antt =====
-- The pattern language, independently of the scanner: texts, `%name` and `%name{format}`, and how a
-- list of them is written as a pattern.
use sylar_server_study.Base.{
  all, ℕ, Bool, true, false, not, ◌||◌, Text, is_alpha, if◌then◌else◌, ◌==◌, List, [], ◌∷◌, ◌++◌,
  ◌≡◌, ◌≢◌,
}
use sylar_server_study.Formatter.{Entry}

pub data Piece : Type 0 where
  literal : Text → Piece
  bare : Text → Piece
  braced : Text → Text → Piece

-- A percent sign in a text is doubled.
abbrev pub escape_onto : Text → Text → Text
escape_onto [] rest = rest
escape_onto (c ∷ t) rest =
    if c == b'%' then b'%' ∷ b'%' ∷ escape_onto t rest else c ∷ escape_onto t rest

-- A piece written in front of `rest`.
abbrev pub print_piece : Piece → Text → Text
print_piece (literal t) rest = escape_onto t rest
print_piece (bare n) rest = b'%' ∷ (n ++ rest)
print_piece (braced n f) rest = b'%' ∷ (n ++ (b'{' ∷ (f ++ (b'}' ∷ rest))))

abbrev pub print_onto : List Piece → Text → Text
print_onto [] rest = rest
print_onto (p ∷ ps) rest = print_piece p (print_onto ps rest)

abbrev pub print : List Piece → Text
print ps = print_onto ps []

abbrev pub entry : Piece → Entry
entry (literal t) = record { str = t; fmt = []; kind = 0 }
entry (bare n) = record { str = n; fmt = []; kind = 1 }
entry (braced n f) = record { str = n; fmt = f; kind = 1 }

abbrev pub is_brace : ℕ → Bool
is_brace c = c == b'{' || c == b'}'

-- What ends the name of a directive without braces.
abbrev pub EndsName : Text → Type 0
EndsName [] = ⊥
EndsName (c ∷ t) = (is_alpha c ≡ false) × (is_brace c ≡ false)

-- What may follow a piece, so that the two do not run together.
abbrev pub MayFollow : Piece → List Piece → Type 0
MayFollow (literal t) (literal u ∷ ps) = ⊥
MayFollow (bare n) (literal u ∷ ps) = EndsName u
MayFollow _ _ = Unit

abbrev pub IsPiece : Piece → Type 0
IsPiece (literal t) = t ≢ []
IsPiece (bare n) = (n ≢ []) × (all is_alpha n ≡ true)
IsPiece (braced n f) = (all is_alpha n ≡ true) × (all (λ c. not (is_brace c)) f ≡ true)

abbrev pub IsPattern : List Piece → Type 0
IsPattern [] = Unit
IsPattern (p ∷ ps) = IsPiece p × MayFollow p ps × IsPattern ps

-- The pattern is not empty and its last piece is a text or a directive without braces.
abbrev pub ends_open : List Piece → Bool
ends_open [] = false
ends_open (literal t ∷ []) = true
ends_open (bare n ∷ []) = true
ends_open (braced n f ∷ []) = false
ends_open (p ∷ q ∷ ps) = ends_open (q ∷ ps)
