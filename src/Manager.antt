-- ===== src/Manager.antt =====
-- sylar/log.cc: `LoggerManager`, and how a new store of loggers begins.
pub mod Registry
pub mod Reach
pub mod Named
use sylar_server_study.Base.{
  ℕ, Bool, Text, codes, find, assign, List, [], ◌∷◌, ◌++◌, none, some, length,
}
use sylar_server_study.Formatter.Items.{make}
use sylar_server_study.Logger.{
  Store, new_logger, at_appender, at_logger, set_appender_formatter, add_appender,
  new_file_appender, new_stdout_appender,
}

-- `LoggerManager::getLogger`: the pointer to the logger of that name, which is made if it is missing.
unfoldable pub get_logger : Store → Text → Store × ℕ
get_logger s name = elim (find name s.names) [
  | some p ↦ (s, p)
  | none ↦
      let p = length s.loggers in
      let logger = record (new_logger name) { root = some s.root } in
      (record s { loggers = s.loggers ++ logger ∷ []; names = assign name p s.names }, p)
]

abbrev pub root_name : Text
root_name = codes "root"

-- `LoggerManager::LoggerManager`: the root logger with its two appenders.
abbrev pub console_pattern : Text
console_pattern = codes "%d{%Y-%m-%d %H:%M:%S}%T%t%T%F%T[%P]%T[%c](dft)%T%f{}:%l%T%m%n"

abbrev pub file_pattern : Text
file_pattern = codes "%d{%Y-%m-%d %H:%M:%S}%T%t%T%F%T[%p]%T[%c](dft)%T%f{}:%l%T%m%n"

-- `m_root.reset(new Logger("root"))`
abbrev pub rooted : Store
rooted = record {
  appenders = [];
  loggers = new_logger root_name ∷ [];
  console = [];
  files = [];
  names = [];
  root = 0;
}

unfoldable pub new_manager : (Text → Bool) → ℕ → Store
new_manager openable now =
    let formatter = make console_pattern in
    let s1 = at_appender (new_stdout_appender rooted) 0 (set_appender_formatter (some formatter)) in
    let s2 = add_appender s1 0 0 in
    let file_formatter = make file_pattern in
    let s3 = new_file_appender openable s2 (codes "root.log") now in
    let s4 = add_appender (at_appender s3 1 (set_appender_formatter (some file_formatter))) 0 1 in
    record s4 { names = assign root_name 0 s4.names }
