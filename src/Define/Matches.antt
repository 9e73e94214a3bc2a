-- ===== src/Define/Matches.antt =====
-- What an appender, or a list of them, has of its definition.
use sylar_server_study.Base.{ℕ, Text, List, [], ◌∷◌, Option, some, get_elem?, ◌≡◌, ◌≢◌}
use sylar_server_study.Formatter.Items.{Formatter, make}
use sylar_server_study.Logger.{Sink, stdout, file, Appender}
use sylar_server_study.Define.{AppenderType, type_unknow, type_file, type_stdout, AppenderDefine}
use sylar_server_study.Define.Changed.{Extends}

-- An appender of the class, with the file.
abbrev pub HasClass : AppenderType → Text → Sink → Type 0
HasClass type_stdout name stdout = Unit
HasClass type_file name (file sink) = sink.filename ≡ name
HasClass _ _ _ = ⊥

abbrev pub HasFormatter : Text → Option Formatter → Type 0
HasFormatter [] f = Unit
HasFormatter (c ∷ t) f = f ≡ some (make (c ∷ t))

-- The appender is as its definition says.
abbrev pub Matches : List Appender → ℕ → AppenderDefine → Type 0
Matches xs i a =
    (x : Appender) × (get_elem? xs i ≡ some x)
    × (x.level ≡ a.level)
    × HasClass a.kind a.file x.sink
    × HasFormatter a.formatter x.formatter

abbrev pub MatchesAll : List Appender → List ℕ → List AppenderDefine → Type 0
MatchesAll xs [] [] = Unit
MatchesAll xs (i ∷ is) (a ∷ bs) = Matches xs i a × MatchesAll xs is bs
MatchesAll xs _ _ = ⊥

pub MatchesAll-Extends :
    (xs ys : List Appender) (is : List ℕ) (ds : List AppenderDefine)
    → Extends xs ys
    → MatchesAll xs is ds
    → MatchesAll ys is ds
MatchesAll-Extends xs ys [] [] e m = tt
MatchesAll-Extends xs ys [] (d ∷ ds) e m = absurd m
MatchesAll-Extends xs ys (i ∷ is) [] e m = absurd m
MatchesAll-Extends xs ys (i ∷ is) (d ∷ ds) e (m, ms) =
    ((m.0, e i m.0 m.1, m.2, m.3, m.4), MatchesAll-Extends xs ys is ds e ms)

-- No definition has an unknown type.
abbrev pub AllKnown : List AppenderDefine → Type 0
AllKnown [] = Unit
AllKnown (a ∷ bs) = (a.kind ≢ type_unknow) × AllKnown bs
