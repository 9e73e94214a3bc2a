-- ===== src/Logs.antt =====
-- sylar/log.cc: the variable "logs", a `std::set<LogDefine>` ordered by name, with its cast over
-- yaml-cpp and the listener that `LogIniter` registers. `view` is what the casts of a definition ask
-- of a node, `none` where asking throws, and `build` the node they write.
mod Equal
mod Names
pub mod Agree
pub mod Logging
pub mod Events
pub mod Settled
pub mod Loaded
use sylar_server_study.Base.{
  ℕ, Bool, true, false, not, Text, codes, List, [], ◌∷◌, Option, none, some, ◌>>=◌,
}
use sylar_server_study.Logger.{Store, print_line}
use sylar_server_study.Manager.{new_manager}
use sylar_server_study.Define.{LogDefine, define_eq, on_change}
use sylar_server_study.Define.Yaml.{DefineNode, read_define, write_define}
use sylar_server_study.Config.{to_string, Cast, Callback, Var, new_var, add_listener, from_string}
use sylar_server_study.Container.Yaml.{Yaml}
use sylar_server_study.Container.Order.{text_less}
use sylar_server_study.Container.Cast.{set_cast}

-- `operator<`
unfoldable pub define_less : LogDefine → LogDefine → Bool
define_less a b = text_less a.name b.name

-- The loggers, and what `time(0)` returns.
pub record World : Type 0 where
  pub store : Store
  pub now : ℕ

abbrev pub LogsVar : Type 0
LogsVar = Var (List LogDefine) World

-- `g_log_defines`
unfoldable pub log_defines : LogsVar
log_defines = new_var (codes "logs") [] (codes "logs config")

module _ (y : Yaml) (view : y.Doc → Option DefineNode) (build : DefineNode → y.Doc) where
  open y use {load, emit}

  unfoldable pub define_from_str : Text → Option LogDefine
  define_from_str v = load v >>= λ node. view node >>= λ n. some (read_define n)

  unfoldable pub define_to_str : LogDefine → Option Text
  define_to_str ld = some (emit (build (write_define ld)))

  abbrev pub define_cast : Cast LogDefine
  define_cast = record { equal = define_eq; from_str = define_from_str; to_str = define_to_str }

  abbrev pub logs_cast : Cast (List LogDefine)
  logs_cast = set_cast y define_cast define_less

module _ (openable : Text → Bool) where
  -- The callback of `addListener`.
  abbrev pub listener : Callback (List LogDefine) World
  listener old_value new_value w = record w {
    store = on_change openable w.now old_value new_value w.store;
  }

  -- `LogIniter::LogIniter`, with the counter of the callbacks.
  unfoldable pub log_initer : ℕ → LogsVar → ℕ × LogsVar
  log_initer s_fun_id v = add_listener s_fun_id v listener

  -- The variable and the loggers before `main`.
  abbrev pub launched : ℕ → LogsVar × World
  launched now =
      ((log_initer 0 log_defines).1, record { store = new_manager openable now; now = now })

-- `print_log_config_var`
unfoldable pub print_log_config_var : Cast (List LogDefine) → LogsVar → World → World
print_log_config_var c v w = record w { store = print_line w.store (to_string c v) }
