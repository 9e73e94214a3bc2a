-- ===== src/Tests/Containers.antt =====
-- The casts of containers, the variable "logs", backtraces, log statements and printed loggers.
use sylar_server_study.Base.{
  ℕ, true, Text, codes, text_eq, text_eq_iff, List, [], ◌∷◌, Option, some, ◌>>=◌, ◌≡◌, ◌≢◌, ap,
  refl, arith,
}
use sylar_server_study.Level
use sylar_server_study.Formatter.Items.{make}
use sylar_server_study.Logger.{stdout, Appender, Logger}
use sylar_server_study.Logger.Log.{log_all}
use sylar_server_study.Logger.Statement.{Site, new_event, log_level}
use sylar_server_study.Logger.Spoken.{log_level-targets}
use sylar_server_study.Define.Yaml.{scalar, undefined, sequence, DefineNode, read_define}
use sylar_server_study.Define.Printed.{logger_to_yaml}
use sylar_server_study.Define.Described.{Describes, read_define-logger_to_yaml}
use sylar_server_study.Config.{Cast}
use sylar_server_study.Config.Members.{Node, mapping, member, other, none_left}
use sylar_server_study.Config.Members as Tree
use sylar_server_study.Logs.Events.{
  Element, Action, load, declare, log_to, after_actions, at_launch,
}
use sylar_server_study.Config.Registry.{Configs}
use sylar_server_study.Logs.{World}
use sylar_server_study.Logs.Settled.{Configured}
use sylar_server_study.Logs.Loaded.{after_actions-at_launch}
use sylar_server_study.Container.Order.{text_less, text_less-IsWeakOrder}
use sylar_server_study.Container.Cast.{
  key_less, itself, key_of, unordered_set_from_str, set_from_str, set_to_str, map_from_str,
  map_to_str, unordered_map_from_str,
}
use sylar_server_study.Container.RoundTrip.{Survives, set_from_str-set_to_str}
use sylar_server_study.Container.Views.{
  IsFirstOf, IsFirstIn, unordered_set_from_str-first, elements, members, set_from_str-first,
}
use sylar_server_study.Container.Maps.{map_from_str-map_to_str}
use sylar_server_study.Backtrace.{backtrace, backtrace_libc}
use sylar_server_study.Backtrace.Bounds.{backtrace-drop}
use sylar_server_study.Tests.Notation.{notation, notation-Reloads, encode}
use sylar_server_study.Tests.Nodes.{node_text, node_text-Reloads}
use sylar_server_study.Tests.Data.{outside, event, openable, shop, shop-IsValid, net_logger, short}

abbrev text_cast : Cast Text
text_cast = record { equal = text_eq; from_str = λ t. some t; to_str = λ t. some t }

text-Survives : (t : Text) → Survives notation text_cast t
text-Survives t = record { doc = t; written = refl; back = refl }

abbrev ports : List Text
ports = codes "80" ∷ codes "443" ∷ []

abbrev hosts : List Text
hosts = codes "a" ∷ codes "b" ∷ []

set_from_str-set_to_str_example :
    (set_to_str notation text_cast hosts >>= set_from_str notation text_cast text_less) ≡ some hosts
unfolding text_less
set_from_str-set_to_str_example =
    set_from_str-set_to_str notation text_cast notation-Reloads text_less hosts
      text_less-IsWeakOrder ((refl, tt), (tt, tt))
      (text-Survives (codes "a"), (text-Survives (codes "b"), tt))

abbrev twice : Text
twice = encode (codes "b" ∷ codes "a" ∷ codes "b" ∷ [])

set_from_str-first_example :
    IsFirstOf text_less
      (elements notation text_cast twice)
      (set_from_str notation text_cast text_less twice)
    × IsFirstOf key_less (members notation text_cast twice) (map_from_str notation text_cast twice)
set_from_str-first_example =
    set_from_str-first notation text_cast text_less twice text_less-IsWeakOrder

unordered_set_from_str-first_example :
    IsFirstIn itself text_eq
      (elements notation text_cast twice)
      (unordered_set_from_str notation text_cast twice)
    × IsFirstIn key_of text_eq
        (members notation text_cast twice)
        (unordered_map_from_str notation text_cast twice)
unordered_set_from_str-first_example =
    unordered_set_from_str-first notation text_cast twice text_eq_iff

abbrev limits : List (Text × Text)
limits = (codes "cpu", codes "2") ∷ (codes "mem", codes "8") ∷ []

map_from_str-map_to_str_example :
    (map_to_str notation text_cast limits >>= map_from_str notation text_cast) ≡ some limits
unfolding text_less
map_from_str-map_to_str_example =
    map_from_str-map_to_str notation text_cast notation-Reloads limits ((refl, tt), (tt, tt))
      (text-Survives (codes "2"), (text-Survives (codes "8"), tt))

-- Every element is the name of a definition with one appender.
abbrev named : Text → Option DefineNode
named name = some (record {
  name_field = scalar name;
  level_field = scalar (codes "warn");
  formatter_field = undefined;
  appenders_field = sequence (
      (record {
        type_field = scalar (codes "StdoutLogAppender");
        file_field = undefined;
        level_field = undefined;
        formatter_field = undefined;
      })
      ∷ []);
})

abbrev frames : List Text
frames = codes "f" ∷ codes "g" ∷ codes "main" ∷ []

backtrace-drop_example :
    (backtrace frames 2 [] ≡ some (codes "main" ∷ []))
    × (backtrace_libc (some frames) 2 [] ≡ some (codes "main" ∷ []))
backtrace-drop_example = backtrace-drop frames 2 [] (omega arith) (omega arith)

abbrev site : Site
site = record {
  file = codes "a.cc";
  line = 7;
  thread_id = 12;
  fiber_id = 3;
  time = 100;
  thread_name = codes "main";
}

log_level-targets_example :
    log_level outside openable 100 2 shop 1 Level.warn site (λ s. (codes "hi", s))
    ≡ log_all outside openable 100 shop
        (0 ∷ 1 ∷ [])
        (record (new_event 1 Level.warn site) { content = codes "hi" })
unfolding new_event
log_level-targets_example =
    log_level-targets outside openable 100 shop shop 1 Level.warn site (λ s. (codes "hi", s))
      (codes "hi") net_logger net_logger refl refl shop-IsValid refl

-- A logger with one appender.
abbrev printed_appender : Appender
printed_appender = record {
  sink = stdout;
  level = Level.error;
  formatter = some short;
  has_formatter = true;
}

abbrev printed_logger : Logger
printed_logger = record {
  name = codes "net";
  level = Level.info;
  appenders = 0 ∷ [];
  formatter = short;
  root = some 0;
}

read_define-logger_to_yaml_example : Describes (printed_appender ∷ []) printed_logger (
    logger_to_yaml node_text (printed_appender ∷ []) printed_logger >>= λ t.
    node_text.load_define t >>= λ n. some (read_define n))
unfolding make
read_define-logger_to_yaml_example =
    read_define-logger_to_yaml node_text node_text-Reloads (printed_appender ∷ []) printed_logger
      (omega arith) ((printed_appender, refl, (omega arith), refl), tt)

-- A port is declared, two trees are loaded, and loggers are asked for meanwhile.
abbrev day : List (Action (λ t. Text))
day =
    declare (codes "port") 0 (codes "80") []
    ∷ load 6
        (mapping (member (codes "logs") (other (encode (codes "net" ∷ codes "db" ∷ []))) none_left))
    ∷ log_to 7 (codes "net") event
    ∷ log_to 8 (codes "cache") (record event { level = Level.error })
    ∷ load 9 (
        mapping (
          member (codes "logs") (other (encode (codes "net" ∷ [])))
            (member (codes "port") (Tree.scalar (codes "81")) none_left)))
    ∷ []

abbrev first_byte : Text → ℕ
first_byte [] = 0
first_byte (c ∷ t) = c

port_logs : codes "port" ≢ codes "logs"
port_logs e = apart (ap first_byte e) refl refl
  where
    apart : {m n : ℕ} → m ≡ n → m ≡ 112 → n ≡ 108 → ⊥
    apart h a b = omega arith

abbrev first_variables : Configs (Element (λ t. Text)) World
first_variables =
    at_launch (λ t. Text) (λ t. text_cast) openable notation named (λ n. []) (λ ms. []) 5

abbrev last_variables : Option (Configs (Element (λ t. Text)) World)
last_variables =
    after_actions (λ t. Text) (λ t. text_cast) openable notation named (λ n. []) (λ ms. []) outside
      first_variables day

after_actions-at_launch_example :
    (t : Configs (Element (λ t. Text)) World) × (last_variables ≡ some t)
    × Configured (λ t. Text) (λ t. text_cast) openable notation named (λ n. []) (λ ms. []) t
after_actions-at_launch_example =
    after_actions-at_launch (λ t. Text) (λ t. text_cast) openable notation named (λ n. [])
      (λ ms. []) outside 5 day
      (port_logs, ((omega arith), (omega arith), ((omega arith), (omega arith), tt)))
