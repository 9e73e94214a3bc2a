-- ===== src/Tests/Data.antt =====
-- The patterns, events and stores that the tests share.
use sylar_server_study.Base.{
  is_alpha, Bool, true, Text, codes, text_eq, find, List, [], ◌∷◌, none, some, refl, arith,
  Bool-cases, inl, inr,
}
use sylar_server_study.Level
use sylar_server_study.Formatter.Pieces.{Piece, literal, bare, braced, IsPattern}
use sylar_server_study.Formatter.Items.{Event, Outside, Formatter, make}
use sylar_server_study.Logger.{stdout, file, FileSink, Appender, Logger, Store}
use sylar_server_study.Logger.Valid.{IsValid}
use sylar_server_study.Manager.Registry.{IsNamed}

abbrev pub outside : Outside
outside = record {
  strftime = λ f t. f;
  relative = λ f. f;
  filename = λ f. f;
  directories = λ f. codes "/" ∷ codes "src" ∷ [];
}

abbrev pub openable : Text → Bool
openable name = true

abbrev pub event : Event
event = record {
  file = codes "a.cc";
  line = 7;
  elapse = 0;
  thread_id = 12;
  fiber_id = 3;
  time = 100;
  logger = 1;
  level = Level.warn;
  thread_name = codes "main";
  content = codes "hi";
}

abbrev pub pieces : List Piece
pieces =
    literal (codes "100%")
    ∷ braced (codes "d") (codes "%Y")
    ∷ bare (codes "p")
    ∷ literal (codes ": ")
    ∷ bare (codes "m")
    ∷ []

pub pieces-IsPattern : IsPattern pieces
unfolding is_alpha
pieces-IsPattern = (
  λ e. cc,
  tt,
  ((refl, refl), tt, ((λ e. cc, refl), (refl, refl), (λ e. cc, tt, ((λ e. cc, refl), tt, tt)))),
)

abbrev pub short : Formatter
short = make (codes "[%p] %m%n")

abbrev pub sink : FileSink
sink = record { filename = codes "root.log"; is_open = true; last_time = 99 }

abbrev pub to_file : Appender
to_file = record {
  sink = file sink;
  level = Level.debug;
  formatter = some short;
  has_formatter = true;
}

abbrev pub root_logger : Logger
root_logger = record {
  name = codes "root";
  level = Level.info;
  appenders = 0 ∷ 1 ∷ [];
  formatter = short;
  root = none;
}

abbrev pub net_logger : Logger
net_logger = record {
  name = codes "net";
  level = Level.debug;
  appenders = [];
  formatter = short;
  root = some 0;
}

-- The root logger writes to the console and to a file; the logger "net" has no appenders.
abbrev pub shop : Store
shop = record {
  appenders =
      record { sink = stdout; level = Level.warn; formatter = some short; has_formatter = true }
      ∷ to_file
      ∷ [];
  loggers = root_logger ∷ net_logger ∷ [];
  console = codes "> ";
  files = [];
  names = (codes "root", 0) ∷ (codes "net", 1) ∷ [];
  root = 0;
}

pub shop-IsValid : IsValid shop
shop-IsValid = record { loggers_ok = refl; coherent = refl; manager_root = refl }

pub shop-IsNamed : IsNamed shop
unfolding find
shop-IsNamed k p h = elim (Bool-cases (text_eq (codes "root") k)) [
  | inl a ↦ ground (arith, a)
  | inr a ↦ elim (Bool-cases (text_eq (codes "net") k)) [
    | inl b ↦ ground (arith, a, b)
    | inr b ↦ absurd (ground (arith, a, b))
  ]
]
