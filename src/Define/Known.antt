-- ===== src/Define/Known.antt =====
-- What is read from a YAML node has no appender of an unknown type.
use sylar_server_study.Base.{true, false, List, [], ◌∷◌, ◌++◌, Bool-cases, inl, inr, ◌≡◌, ◌≢◌, refl}
use sylar_server_study.Define.{
  AppenderType, type_unknow, type_file, type_stdout, AppenderDefine, LogDefine, string_to_type,
}
use sylar_server_study.Define.Matches.{AllKnown}
use sylar_server_study.Define.Yaml.{
  Reading, Field, undefined, scalar, other, AppenderNode, Appenders, no_appenders, sequence,
  not_sequence, DefineNode, empty_define, empty_appender, and_then, read_name, read_level,
  read_formatter, read_type, read_file, read_appender_level, read_appender_formatter,
  read_an_appender, read_each_appender, read_appenders, read_define,
}

-- A fact about what was read, if the reading goes on.
Good : {T : Type 0} → (T → Type 0) → Reading T → Type 0
Good P r = r.1 ≡ true → P r.0

and_then-Good :
    {T : Type 0} (P : T → Type 0) (r : Reading T) (f : T → Reading T)
    → Good P r
    → ((x : T) → P x → Good P (f x))
    → Good P (and_then r f)
unfolding Good
and_then-Good P (x, true) f h k = k x (h refl)
and_then-Good P (x, false) f h k = λ e. absurd (cc)

IsKnown : AppenderDefine → Type 0
IsKnown a = a.kind ≢ type_unknow

read_type-Good : (lad : AppenderDefine) (f : Field) → Good IsKnown (read_type lad f)
unfolding Good IsKnown
read_type-Good lad undefined = λ e. absurd (cc)
read_type-Good lad (scalar t) = go (string_to_type t)
  where
    go : (k : AppenderType) → (elim k [ type_unknow ↦ false | _ ↦ true ]) ≡ true → k ≢ type_unknow
    go type_unknow e = absurd (cc)
    go type_file e = λ q. cc
    go type_stdout e = λ q. cc
read_type-Good lad other = λ e. absurd (cc)

read_file-Good :
    (k : AppenderType) (lad : AppenderDefine) (f : Field)
    → IsKnown lad
    → Good IsKnown (read_file k lad f)
unfolding Good IsKnown
read_file-Good type_file lad undefined h e = h
read_file-Good type_file lad (scalar t) h e = h
read_file-Good type_file lad other h e = h
read_file-Good type_stdout lad f h e = h
read_file-Good type_unknow lad f h e = h

read_appender_level-Good :
    (lad : AppenderDefine) (f : Field) → IsKnown lad → Good IsKnown (read_appender_level lad f)
unfolding Good IsKnown
read_appender_level-Good lad undefined h e = h
read_appender_level-Good lad (scalar t) h e = h
read_appender_level-Good lad other h e = h

read_appender_formatter-Good :
    (lad : AppenderDefine) (f : Field) → IsKnown lad → Good IsKnown (read_appender_formatter lad f)
unfolding Good IsKnown
read_appender_formatter-Good lad undefined h e = h
read_appender_formatter-Good lad (scalar t) h e = h
read_appender_formatter-Good lad other h e = h

read_an_appender-Good : (a : AppenderNode) → Good IsKnown (read_an_appender a)
unfolding read_an_appender
read_an_appender-Good a =
    and_then-Good IsKnown (read_type empty_appender a.type_field) _
      (read_type-Good empty_appender a.type_field)
      (λ x h.
        and_then-Good IsKnown (read_file x.kind x a.file_field) _
          (read_file-Good x.kind x a.file_field h)
          (λ y k.
            and_then-Good IsKnown (read_appender_level y a.level_field) _
              (read_appender_level-Good y a.level_field k)
              (λ z m. read_appender_formatter-Good z a.formatter_field m)))

AllKnown-append :
    (lads : List AppenderDefine) (a : AppenderDefine)
    → AllKnown lads
    → IsKnown a
    → AllKnown (lads ++ a ∷ [])
unfolding IsKnown
AllKnown-append [] a h k = (k, tt)
AllKnown-append (b ∷ lads) a (h, hs) k = (h, AllKnown-append lads a hs k)

read_each_appender-AllKnown :
    (nodes : List AppenderNode) (lads : List AppenderDefine)
    → AllKnown lads
    → AllKnown (read_each_appender lads nodes)
unfolding read_each_appender Good
read_each_appender-AllKnown [] lads h = h
read_each_appender-AllKnown (a ∷ nodes) lads h = elim (Bool-cases (read_an_appender a).1) [
  | inl ok ↦ simp ok (
      read_each_appender-AllKnown nodes (lads ++ (read_an_appender a).0 ∷ [])
        (AllKnown-append lads (read_an_appender a).0 h (read_an_appender-Good a ok)))
  | inr bad ↦ simp bad (read_each_appender-AllKnown nodes lads h)
]

HasKnown : LogDefine → Type 0
HasKnown ld = AllKnown ld.appenders

and_then-Always :
    {T : Type 0} (P : T → Type 0) (r : Reading T) (f : T → Reading T)
    → P r.0
    → ((x : T) → P x → P (f x).0)
    → P (and_then r f).0
and_then-Always P (x, true) f h k = k x h
and_then-Always P (x, false) f h k = h

read_name-HasKnown : (ld : LogDefine) (f : Field) → HasKnown ld → HasKnown (read_name ld f).0
unfolding HasKnown
read_name-HasKnown ld undefined h = h
read_name-HasKnown ld (scalar t) h = h
read_name-HasKnown ld other h = h

read_level-HasKnown : (ld : LogDefine) (f : Field) → HasKnown ld → HasKnown (read_level ld f).0
unfolding HasKnown
read_level-HasKnown ld undefined h = h
read_level-HasKnown ld (scalar t) h = h
read_level-HasKnown ld other h = h

read_formatter-HasKnown :
    (ld : LogDefine) (f : Field) → HasKnown ld → HasKnown (read_formatter ld f).0
unfolding HasKnown
read_formatter-HasKnown ld undefined h = h
read_formatter-HasKnown ld (scalar t) h = h
read_formatter-HasKnown ld other h = h

read_appenders-HasKnown :
    (ld : LogDefine) (f : Appenders) → HasKnown ld → HasKnown (read_appenders ld f).0
unfolding HasKnown
read_appenders-HasKnown ld no_appenders h = h
read_appenders-HasKnown ld (sequence nodes) h = read_each_appender-AllKnown nodes ld.appenders h
read_appenders-HasKnown ld not_sequence h = h

-- Whatever the node, no appender of the definition that is read from it has an unknown type, also where
-- the reading stops at an error.
pub read_define-AllKnown : (node : DefineNode) → AllKnown (read_define node).appenders
unfolding read_define HasKnown
read_define-AllKnown node =
    and_then-Always HasKnown (read_name empty_define node.name_field) _
      (read_name-HasKnown empty_define node.name_field tt)
      (λ a h.
        and_then-Always HasKnown (read_level a node.level_field) _
          (read_level-HasKnown a node.level_field h)
          (λ b k.
            and_then-Always HasKnown (read_formatter b node.formatter_field) _
              (read_formatter-HasKnown b node.formatter_field k)
              (λ c m. read_appenders-HasKnown c node.appenders_field m)))
