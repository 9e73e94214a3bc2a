-- ===== src/Define.antt =====
-- sylar/log.cc: `LogAppenderDefine`, `LogDefine` and the listener that `LogIniter` puts on the
-- variable "logs". The debug line that the listener begins with is left out.
pub mod Yaml
pub mod Written
pub mod Changed
pub mod Known
pub mod Matches
pub mod Last
pub mod Appender
pub mod Configure
pub mod Frame
pub mod Each
pub mod Change
pub mod Listener
pub mod Printed
pub mod Described
use sylar_server_study.Base.{
  ℕ, Bool, true, false, not, ◌&&◌, Text, codes, text_eq, to_upper, is_empty, map, if◌then◌else◌,
  ◌==◌, List, [], ◌∷◌, Option, none, some, length,
}
use sylar_server_study.Level.{Level}
use sylar_server_study.Formatter.Items.{make}
use sylar_server_study.Logger.{
  Store, at_appender, print_line, set_appender_formatter, add_appender, clear_appenders, set_level,
  set_formatter_pattern, new_file_appender, new_stdout_appender,
}
use sylar_server_study.Manager.{get_logger}

pub data AppenderType : Type 0 where
  type_unknow type_file type_stdout : AppenderType

pub record AppenderDefine : Type 0 where
  pub kind : AppenderType
  pub level : Level
  pub formatter : Text
  pub file : Text

pub record LogDefine : Type 0 where
  pub name : Text
  pub level : Level
  pub formatter : Text
  pub appenders : List AppenderDefine

abbrev pub kind_eq : AppenderType → AppenderType → Bool
kind_eq type_unknow type_unknow = true
kind_eq type_file type_file = true
kind_eq type_stdout type_stdout = true
kind_eq _ _ = false

-- The two `operator==`.
unfoldable pub appender_eq : AppenderDefine → AppenderDefine → Bool
appender_eq a b =
    kind_eq a.kind b.kind
    && (a.level == b.level && (text_eq a.formatter b.formatter && text_eq a.file b.file))

unfoldable pub appenders_eq : List AppenderDefine → List AppenderDefine → Bool
unfolding appender_eq
appenders_eq [] [] = true
appenders_eq [] (b ∷ bs) = false
appenders_eq (a ∷ bs) [] = false
appenders_eq (a ∷ bs) (c ∷ cs) = appender_eq a c && appenders_eq bs cs

unfoldable pub define_eq : LogDefine → LogDefine → Bool
unfolding appenders_eq
define_eq a b =
    text_eq a.name b.name
    && (a.level == b.level
        && (text_eq a.formatter b.formatter && appenders_eq a.appenders b.appenders))

unfoldable pub string_to_type : Text → AppenderType
unfolding text_eq
string_to_type str =
    let ucstr = map to_upper str in
    if text_eq ucstr (codes "FILELOGAPPENDER")
    then type_file
    else if text_eq ucstr (codes "STDOUTLOGAPPENDER")
    then type_stdout
    else type_unknow

unfoldable pub type_to_string : AppenderType → Text
type_to_string type_file = codes "FileLogAppender"
type_to_string type_stdout = codes "StdoutLogAppender"
type_to_string type_unknow = codes "UNKNOW"

-- `find` in a `std::set<LogDefine>`, whose order is that of the names.
unfoldable pub find_define : Text → List LogDefine → Option LogDefine
find_define name [] = none
find_define name (d ∷ ds) = if text_eq d.name name then some d else find_define name ds

module _ (openable : Text → Bool) (now : ℕ) where
  -- `ap.reset(new …)`, for the two types that have a class.
  abbrev pub new_appender : AppenderType → Store → Text → Store
  new_appender type_file s file = new_file_appender openable s file now
  new_appender type_stdout s file = new_stdout_appender s
  new_appender type_unknow s file = s

  -- One round of the loop over `i.appenders`, behind the choice of the class.
  unfoldable pub configure_appender : Store → ℕ → AppenderDefine → Store
  configure_appender s p a =
      let ap = length s.appenders in
      let s1 = at_appender (new_appender a.kind s a.file) ap (λ x. record x { level = a.level }) in
      let s2 =
        if not (is_empty a.formatter)
        then at_appender s1 ap (set_appender_formatter (some (make a.formatter)))
        else s1 in
      add_appender s2 p ap

  -- The loop, which an unknown type ends.
  unfoldable pub add_appenders : Store → ℕ → List AppenderDefine → Store
  add_appenders s p [] = s
  add_appenders s p (a ∷ bs) = elim a.kind [
    | type_unknow ↦ print_line s (codes "Unknown Appender Type")
    | _ ↦ add_appenders (configure_appender s p a) p bs
  ]

  -- From `logger->setLevel(i.level)` to the end of that loop.
  unfoldable pub configure_logger : Store → ℕ → LogDefine → Store
  configure_logger s p d =
      let s1 = set_level s p d.level in
      let s2 = if not (is_empty d.formatter) then set_formatter_pattern s1 p d.formatter else s1 in
      add_appenders (clear_appenders s2 p) p d.appenders

  unfoldable pub configure : Store → LogDefine → Store
  configure s d = let (s', p) = get_logger s d.name in configure_logger s' p d

  -- The body of the loop over `new_value`.
  unfoldable pub on_new : List LogDefine → Store → LogDefine → Store
  on_new old s d = elim (find_define d.name old) [
    | none ↦ configure s d
    | some d' ↦ if not (define_eq d d') then configure s d else s
  ]

  unfoldable pub on_each_new : List LogDefine → Store → List LogDefine → Store
  on_each_new old s [] = s
  on_each_new old s (d ∷ ds) = on_each_new old (on_new old s d) ds

  -- The body of the loop over `old_value`.
  unfoldable pub on_old : List LogDefine → Store → LogDefine → Store
  on_old new s d = elim (find_define d.name new) [
    | none ↦ let (s', p) = get_logger s d.name in clear_appenders (set_level s' p 100) p
    | some d' ↦ s
  ]

  unfoldable pub on_each_old : List LogDefine → Store → List LogDefine → Store
  on_each_old new s [] = s
  on_each_old new s (d ∷ ds) = on_each_old new (on_old new s d) ds

  -- The listener.
  unfoldable pub on_change : List LogDefine → List LogDefine → Store → Store
  on_change old new s = on_each_old new (on_each_new old s new) old
