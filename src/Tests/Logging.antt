-- ===== src/Tests/Logging.antt =====
-- Loggers and the manager.
use sylar_server_study.Formatter.{scan}
use sylar_server_study.Base.{
  assign, is_alpha, true, Text, codes, find, [], ◌∷◌, ◌++◌, some, ◌≡◌, refl, arith, text_eq,
}
use sylar_server_study.Formatter.Items.{item_text, build, s_format_items, make, format, item_of}
use sylar_server_study.Logger.{file, at_appender, Store, at_logger, content, set_formatter}
use sylar_server_study.Logger.Log.{log, log_all, file_log, formatted}
use sylar_server_study.Logger.Valid.{IsValid}
use sylar_server_study.Logger.Routing.{targets, log-targets}
use sylar_server_study.Logger.Views.{console_text}
use sylar_server_study.Logger.Output.{log-console}
use sylar_server_study.Logger.Files.{content-file_log}
use sylar_server_study.Logger.Frozen.{set_formatter_lem}
use sylar_server_study.Manager.{get_logger, new_manager}
use sylar_server_study.Manager.Registry.{is_named, find-get_logger}
use sylar_server_study.Manager.Reach.{start, next, get, Reach-IsValid}
use sylar_server_study.Tests.Data.{
  outside, openable, event, sink, to_file, net_logger, shop, shop-IsValid, shop-IsNamed,
}

log-targets_example :
    log outside openable 100 2 shop 1 event ≡ log_all outside openable 100 shop (0 ∷ 1 ∷ []) event
log-targets_example = log-targets outside openable 100 shop event 0 1 net_logger shop-IsValid refl

log-console_example :
    (t : Store) × (w : Text) × (log outside openable 100 2 shop 1 event ≡ some t)
    × (console_text outside shop (targets shop net_logger event) event ≡ some w)
    × (t.console ≡ shop.console ++ w)
    × IsValid t
    × (t.loggers ≡ shop.loggers)
    × (t.names ≡ shop.names)
log-console_example =
    log-console outside openable 100 event (omega arith) (omega arith) 0 1 net_logger shop
      shop-IsValid refl

-- The line that the console shows.
console_line :
    console_text outside shop (targets shop net_logger event) event ≡ some (codes "[WARN] hi\n")
unfolding format make build scan is_alpha item_text item_of find s_format_items
console_line = refl

set_formatter_lem_example :
    set_formatter shop 0 (make (codes "%m"))
    ≡ at_logger shop 0 (λ k. record k { formatter = make (codes "%m") })
unfolding make build scan is_alpha item_of find s_format_items text_eq
set_formatter_lem_example = set_formatter_lem shop 0 (make (codes "%m")) _ shop-IsValid refl

Reach-IsValid_example : IsValid (get_logger (new_manager openable 5) (codes "net")).0
Reach-IsValid_example = Reach-IsValid {o = outside} (next (start 5) (get (codes "net")))

find-get_logger_example :
    (find (codes "db") (get_logger shop (codes "db")).0.names
      ≡ some (get_logger shop (codes "db")).1)
    × (is_named
          (get_logger shop (codes "db")).0.loggers
          (get_logger shop (codes "db")).1
          (codes "db")
        ≡ true)
    × ((get_logger shop (codes "db")).0.appenders ≡ shop.appenders)
unfolding text_eq
find-get_logger_example = find-get_logger shop (codes "db") (codes "db") shop-IsNamed

abbrev written : Store
written =
    record (at_appender shop 1 (λ y. record y { sink = file (record sink { last_time = 100 }) })) {
      files = (codes "root.log", codes "[WARN] hi\n") ∷ [];
    }

formatted_run : formatted outside openable 100 shop to_file event ≡ some (codes "[WARN] hi\n")
unfolding formatted format make build scan is_alpha item_text item_of find s_format_items
formatted_run = refl

file_log_run : file_log outside openable 100 shop 1 to_file sink event ≡ some written
unfolding file_log format make build scan is_alpha item_text item_of find s_format_items assign
file_log_run = refl

content-file_log_example :
    content (codes "root.log") written.files
    ≡ content (codes "root.log") shop.files ++ codes "[WARN] hi\n"
unfolding text_eq
content-file_log_example =
    content-file_log outside openable 100 shop written 1 to_file sink event (codes "[WARN] hi\n")
      (codes "root.log") refl formatted_run file_log_run
