-- ===== src/Logger.antt =====
-- sylar/log.cc and sylar/log.h: `LogAppender`, `StdoutLogAppender`, `FileLogAppender` and `Logger`.
-- Objects behind shared pointers live in a store and are named by their place in it; formatters are
-- never changed after construction, and so are values. The locks are left out: each operation is one
-- step.
pub mod Log
pub mod Valid
pub mod Operations
pub mod Routing
pub mod Views
pub mod Output
pub mod Files
pub mod Frozen
pub mod Statement
pub mod Spoken
use sylar_server_study.Base.{
  ℕ, suc, zero, Bool, true, false, not, Text, codes, find, assign, if◌then◌else◌, ◌==◌, leb, List,
  [], ◌∷◌, ◌++◌, Option, none, some, ◌>>=◌, get_elem?, modify, length, show_nat,
}
use sylar_server_study.Level
use sylar_server_study.Level.{Level}
use sylar_server_study.Formatter.Items.{Event, Outside, Formatter, make, format}

-- `m_filename`, whether `m_filestream` is good, `m_lastTime`.
pub record FileSink : Type 0 where
  pub filename : Text
  pub is_open : Bool
  pub last_time : ℕ

pub data Sink : Type 0 where
  stdout : Sink
  file : FileSink → Sink

pub record Appender : Type 0 where
  pub sink : Sink
  pub level : Level
  pub formatter : Option Formatter
  pub has_formatter : Bool

pub record Logger : Type 0 where
  pub name : Text
  pub level : Level
  pub appenders : List ℕ
  pub formatter : Formatter
  pub root : Option ℕ

-- All objects, what stands on `std::cout`, the files, and the `LoggerManager`: its map and its root.
pub record Store : Type 0 where
  pub appenders : List Appender
  pub loggers : List Logger
  pub console : Text
  pub files : List (Text × Text)
  pub names : List (Text × ℕ)
  pub root : ℕ

abbrev pub default_pattern : Text
default_pattern = codes "%d{%Y-%m-%d %H:%M:%S}%T%t%T%N%T%F%T[%p]%T[%c]%T%f:%l%T%m%n"

-- `Logger::Logger`
unfoldable pub new_logger : Text → Logger
new_logger name = record {
  name = name;
  level = Level.debug;
  appenders = [];
  formatter = make default_pattern;
  root = none;
}

abbrev pub print_line : Store → Text → Store
print_line s t = record s { console = s.console ++ (t ++ b'\n' ∷ []) }

abbrev pub content : Text → List (Text × Text) → Text
content name files = elim (find name files) [ none ↦ [] | some t ↦ t ]

-- The object that a pointer to an appender, or to a logger, names.
abbrev pub at_appender : Store → ℕ → (Appender → Appender) → Store
at_appender s a f = record s { appenders = modify s.appenders a f }

abbrev pub at_logger : Store → ℕ → (Logger → Logger) → Store
at_logger s p f = record s { loggers = modify s.loggers p f }

-- `LogAppender::setFormatter`
unfoldable pub set_appender_formatter : Option Formatter → Appender → Appender
set_appender_formatter val x = record x { formatter = val; has_formatter = true }

-- `if (!appender->getFormatter()) appender->setFormatter(m_formatter);`
unfoldable pub inherit : Formatter → Appender → Appender
unfolding set_appender_formatter
inherit val x = elim x.formatter [ none ↦ set_appender_formatter (some val) x | some f ↦ x ]

-- `Logger::addAppender`
unfoldable pub add_appender : Store → ℕ → ℕ → Store
add_appender s p a = elim (get_elem? s.loggers p) [
  | none ↦ s
  | some l ↦
      at_logger (at_appender s a (inherit l.formatter)) p
        (λ k. record k { appenders = k.appenders ++ a ∷ [] })
]

-- `m_appenders.erase` at the first equal pointer.
unfoldable pub erase_first : ℕ → List ℕ → List ℕ
erase_first a [] = []
erase_first a (b ∷ bs) = if b == a then bs else b ∷ erase_first a bs

-- `Logger::delAppender`
unfoldable pub del_appender : Store → ℕ → ℕ → Store
del_appender s p a = at_logger s p (λ l. record l { appenders = erase_first a l.appenders })

-- `Logger::clearAppenders`
unfoldable pub clear_appenders : Store → ℕ → Store
clear_appenders s p = at_logger s p (λ l. record l { appenders = [] })

-- `Logger::setLevel`
unfoldable pub set_level : Store → ℕ → Level → Store
set_level s p level = at_logger s p (λ l. record l { level = level })

-- `if (!i->hasFormatter()) i->setFormatter(m_formatter);`
unfoldable pub refresh : Formatter → Appender → Appender
unfolding set_appender_formatter
refresh val x = if not x.has_formatter then set_appender_formatter (some val) x else x

unfoldable pub refresh_all : Formatter → List ℕ → Store → Store
refresh_all val [] s = s
refresh_all val (a ∷ bs) s = refresh_all val bs (at_appender s a (refresh val))

-- `Logger::setFormatter(LogFormatter::ptr)`
unfoldable pub set_formatter : Store → ℕ → Formatter → Store
set_formatter s p val = if val.is_error then s else elim (get_elem? s.loggers p) [
  | none ↦ s
  | some l ↦ refresh_all val l.appenders (at_logger s p (λ k. record k { formatter = val }))
]

abbrev pub name_of : Store → ℕ → Text
name_of s p = elim (get_elem? s.loggers p) [ none ↦ [] | some l ↦ l.name ]

-- `Logger::setFormatter(const std::string&)`
unfoldable pub set_formatter_pattern : Store → ℕ → Text → Store
set_formatter_pattern s p val =
    let new_val = make val in
    if new_val.is_error
    then print_line s (
        codes "Logger::setFormatter name="
        ++ (name_of s p ++ (codes " value=" ++ (val ++ codes " invalid formatter"))))
    else set_formatter s p new_val

-- The file system: whether a file can be opened for writing.
module _ (openable : Text → Bool) where
  -- `FileLogAppender::reopen`, in the mode `std::ios::app`: `open` creates a missing file.
  unfoldable pub reopen : List (Text × Text) → FileSink → List (Text × Text) × FileSink
  reopen files x =
      if openable x.filename
      then (assign x.filename (content x.filename files) files, record x { is_open = true })
      else (files, record x { is_open = false })

  -- `FileLogAppender::FileLogAppender`, with SYLAR_LOG_FILE_APPEND as the build defines it.
  unfoldable pub new_file_appender : Store → Text → ℕ → Store
  unfolding reopen
  new_file_appender s filename now =
      let closed : FileSink = record { filename = filename; is_open = false; last_time = now } in
      let (files, sink) = reopen s.files closed in
      let s' = record s {
        files = files;
        appenders =
            s.appenders
            ++ (record {
              sink = file sink;
              level = Level.debug;
              formatter = none;
              has_formatter = false;
            })
              ∷ [];
      } in
      if sink.is_open then s' else print_line s' (codes "open log file failed:" ++ filename)

unfoldable pub new_stdout_appender : Store → Store
new_stdout_appender s = record s {
  appenders =
      s.appenders
      ++ (record { sink = stdout; level = Level.debug; formatter = none; has_formatter = false })
        ∷ [];
}
