-- ===== src/Define/Printed.antt =====
-- sylar/log.cc: `toYamlString` of the appenders, of a logger and of the manager. What they write is a
-- node as the cast of a definition reads it; the text of such a node, and loading it, are yaml-cpp's.
use sylar_server_study.Base.{
  not, ℕ, Text, codes, ◌==◌, List, [], ◌∷◌, Option, none, some, ◌>>=◌, get_elem?, ◌≡◌,
}
use sylar_server_study.Level
use sylar_server_study.Level.{to_string}
use sylar_server_study.Formatter.Items.{Formatter}
use sylar_server_study.Logger.{Sink, stdout, file, FileSink, Appender, Logger, Store}
use sylar_server_study.Container.Loops.{insert_all}
use sylar_server_study.Container.Sorted.{set_insert}
use sylar_server_study.Container.Cast.{key_less}
use sylar_server_study.Define.Yaml.{
  Field, undefined, scalar, AppenderNode, Appenders, no_appenders, sequence, DefineNode, field_if,
}

-- `<<` and `YAML::Load` for the nodes of an appender, of a logger, and of all loggers.
pub record NodeText : Type 0 where
  pub emit_appender : AppenderNode → Text
  pub load_appender : Text → Option AppenderNode
  pub emit_define : DefineNode → Text
  pub load_define : Text → Option DefineNode
  pub emit_defines : List DefineNode → Text

-- A node that is written and loaded again is the same.
pub record NodeTextReloads (w : NodeText) : Type 0 where
  pub appender : (n : AppenderNode) → w.load_appender (w.emit_appender n) ≡ some n
  pub define : (n : DefineNode) → w.load_define (w.emit_define n) ≡ some n

-- `if (m_formatter) node["formatter"] = m_formatter->getPattern();`
abbrev pub pattern_field : Option Formatter → Field
pattern_field none = undefined
pattern_field (some f) = scalar f.pattern

-- `StdoutLogAppender::toYamlString`, before the node is written.
unfoldable pub stdout_node : Appender → AppenderNode
stdout_node x = record {
  type_field = scalar (codes "StdoutLogAppender");
  file_field = undefined;
  level_field = field_if (not (x.level == Level.unknow)) (to_string x.level);
  formatter_field = pattern_field x.formatter;
}

-- `FileLogAppender::toYamlString`, before the node is written.
unfoldable pub file_node : Appender → FileSink → AppenderNode
file_node x sink = record {
  type_field = scalar (codes "FileLogAppender");
  file_field = scalar sink.filename;
  level_field = field_if (not (x.level == Level.unknow)) (to_string x.level);
  formatter_field = pattern_field x.formatter;
}

-- `node["appenders"]`, which is defined by the first `push_back`.
abbrev pub appenders_field_of : List AppenderNode → Appenders
appenders_field_of [] = no_appenders
appenders_field_of (n ∷ ns) = sequence (n ∷ ns)

module _ (w : NodeText) where
  open w use {emit_appender, load_appender, emit_define, load_define, emit_defines}

  -- The virtual call `i->toYamlString()`.
  abbrev pub sink_to_yaml : Sink → Appender → Text
  sink_to_yaml stdout x = emit_appender (stdout_node x)
  sink_to_yaml (file sink) x = emit_appender (file_node x sink)

  -- The loop over `m_appenders`.
  unfoldable pub appender_nodes : List Appender → List ℕ → Option (List AppenderNode)
  unfolding stdout_node file_node
  appender_nodes xs [] = some []
  appender_nodes xs (a ∷ bs) = do
    x ← get_elem? xs a
    n ← load_appender (sink_to_yaml x.sink x)
    ns ← appender_nodes xs bs
    some (n ∷ ns)

  -- `Logger::toYamlString`
  unfoldable pub logger_to_yaml : List Appender → Logger → Option Text
  unfolding appender_nodes
  logger_to_yaml xs l = do
    ns ← appender_nodes xs l.appenders
    some (
        emit_define (record {
          name_field = scalar l.name;
          level_field = scalar (to_string l.level);
          formatter_field = scalar l.formatter.pattern;
          appenders_field = appenders_field_of ns;
        }))

  -- The loop over `m_loggers`, which is in the order of its keys.
  unfoldable pub define_nodes : Store → List (Text × ℕ) → Option (List DefineNode)
  unfolding logger_to_yaml
  define_nodes s [] = some []
  define_nodes s ((k, p) ∷ names) = do
    l ← get_elem? s.loggers p
    t ← logger_to_yaml s.appenders l
    n ← load_define t
    ns ← define_nodes s names
    some (n ∷ ns)

  -- `LoggerManager::toYamlString`
  unfoldable pub manager_to_yaml : Store → Option Text
  unfolding define_nodes
  manager_to_yaml s = do
    ns ← define_nodes s (insert_all (set_insert key_less) [] s.names)
    some (emit_defines ns)
