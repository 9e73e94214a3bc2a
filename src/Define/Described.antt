-- ===== src/Define/Described.antt =====
-- sylar/log.cc: what `Logger::toYamlString` writes, read as a definition.
use sylar_server_study.Base.{
  true, not, if◌then◌else◌, ℕ, Text, text_eq, to_upper, ◌==◌, List, [], ◌∷◌, ◌++◌, append-nil,
  append_assoc, Option, none, some, ◌>>=◌, get_elem?, ◌≡◌, ◌≤◌, refl, sym, ap, ◌∙◌,
}
use sylar_server_study.Level
use sylar_server_study.Level.{to_string, from_string}
use sylar_server_study.Formatter.Items.{Formatter, make}
use sylar_server_study.Logger.{Sink, stdout, file, Appender, Logger}
use sylar_server_study.Define.{
  AppenderType, type_file, type_stdout, AppenderDefine, LogDefine, string_to_type,
}
use sylar_server_study.Define.Yaml.{
  scalar, AppenderNode, DefineNode, field_if, empty_appender, read_an_appender, read_each_appender,
  read_define, read_appenders, and_then, read_appender_level, read_appender_formatter,
}
use sylar_server_study.Define.Written.{read_level_field, level_back}
use sylar_server_study.Define.Matches.{MatchesAll, HasFormatter, HasClass}
use sylar_server_study.Define.Change.{AsDefined}
use sylar_server_study.Define.Printed.{
  NodeText, NodeTextReloads, pattern_field, stdout_node, file_node, sink_to_yaml, appender_nodes,
  appenders_field_of, logger_to_yaml,
}

-- The definition that describes an appender.
abbrev kind_of : Sink → AppenderType
kind_of stdout = type_stdout
kind_of (file sink) = type_file

abbrev file_of : Sink → Text
file_of stdout = []
file_of (file sink) = sink.filename

abbrev pattern_of : Option Formatter → Text
pattern_of none = []
pattern_of (some f) = f.pattern

abbrev described : Appender → AppenderDefine
described x = record {
  kind = kind_of x.sink;
  level = x.level;
  formatter = pattern_of x.formatter;
  file = file_of x.sink;
}

abbrev node_of : Sink → Appender → AppenderNode
node_of stdout x = stdout_node x
node_of (file sink) x = file_node x sink

read_pattern :
    (lad : AppenderDefine) (f : Option Formatter)
    → lad.formatter ≡ []
    → read_appender_formatter lad (pattern_field f)
      ≡ (record lad { formatter = pattern_of f }, true)
read_pattern lad none e = ap (λ z. (record lad { formatter = z }, true)) e
read_pattern lad (some f) e = refl

-- The members behind the type and the file.
read_level_and_pattern :
    (x : Appender) (lad : AppenderDefine)
    → x.level ≤ Level.fatal
    → lad.level ≡ Level.unknow
    → lad.formatter ≡ []
    → and_then
        (read_appender_level lad (field_if (not (x.level == Level.unknow)) (to_string x.level)))
        (λ z. read_appender_formatter z (pattern_field x.formatter))
      ≡ (record lad { level = x.level; formatter = pattern_of x.formatter }, true)
read_level_and_pattern x lad h e f =
    ap (λ r. and_then r (λ z. read_appender_formatter z (pattern_field x.formatter)))
      (read_level_field lad x.level e h)
    ∙ read_pattern (record lad { level = x.level }) x.formatter f

read_node :
    (x : Appender) (sink : Sink)
    → x.level ≤ Level.fatal
    → read_an_appender (node_of sink x)
      ≡ (record (described x) { kind = kind_of sink; file = file_of sink }, true)
unfolding read_an_appender stdout_node file_node string_to_type text_eq to_upper
read_node x stdout h =
    read_level_and_pattern x (record empty_appender { kind = type_stdout }) h refl refl
read_node x (file sink) h =
    read_level_and_pattern x (record empty_appender { kind = type_file; file = sink.filename }) h
      refl refl

-- The appender has one of the levels of the enumeration, and a formatter, if any, that was made from
-- its pattern.
abbrev pub IsMade : Option Formatter → Type 0
IsMade none = Unit
IsMade (some f) = make f.pattern ≡ f

abbrev pub AllPrintable : List Appender → List ℕ → Type 0
AllPrintable xs [] = Unit
AllPrintable xs (a ∷ bs) =
    ((x : Appender) × (get_elem? xs a ≡ some x) × (x.level ≤ Level.fatal) × IsMade x.formatter)
    × AllPrintable xs bs

described-HasClass : (sink : Sink) → HasClass (kind_of sink) (file_of sink) sink
described-HasClass stdout = tt
described-HasClass (file sink) = refl

formatter_of_pattern :
    (t : Text) (f : Formatter) → f.pattern ≡ t → make f.pattern ≡ f → HasFormatter t (some f)
formatter_of_pattern [] f e h = tt
formatter_of_pattern (c ∷ t) f e h = ap some (sym h ∙ ap make e)

described-HasFormatter : (f : Option Formatter) → IsMade f → HasFormatter (pattern_of f) f
described-HasFormatter none h = tt
described-HasFormatter (some f) h = formatter_of_pattern f.pattern f refl h

-- The definition has the logger's name, level and pattern, and describes its appenders.
pub record Describes (xs : List Appender) (l : Logger) (result : Option LogDefine) : Type 0 where
  pub define : LogDefine
  pub read : result ≡ some define
  pub name : define.name ≡ l.name
  pub formatter : define.formatter ≡ l.formatter.pattern
  pub as_defined : AsDefined define xs l

read_field :
    (ld : LogDefine) (ns : List AppenderNode)
    → (read_appenders ld (appenders_field_of ns)).0
      ≡ record ld { appenders = read_each_appender ld.appenders ns }
unfolding read_each_appender
read_field ld [] = refl
read_field ld (n ∷ ns) = refl

module _ (w : NodeText) (reloads : NodeTextReloads w) where
  record ReadBack (xs : List Appender) (is : List ℕ) : Type 0 where
    nodes : List AppenderNode
    defines : List AppenderDefine
    written : appender_nodes w xs is ≡ some nodes
    back : (done : List AppenderDefine) → read_each_appender done nodes ≡ done ++ defines
    matches : MatchesAll xs is defines

  load_sink :
      (sink : Sink) (x : Appender) → w.load_appender (sink_to_yaml w sink x) ≡ some (node_of sink x)
  load_sink stdout x = reloads.appender (stdout_node x)
  load_sink (file sink) x = reloads.appender (file_node x sink)

  read_back : (xs : List Appender) (is : List ℕ) → AllPrintable xs is → ReadBack xs is
  unfolding appender_nodes read_each_appender
  read_back xs [] h = record {
    nodes = [];
    defines = [];
    written = refl;
    back = λ done. sym (append-nil done);
    matches = tt;
  }
  read_back xs (a ∷ bs) ((x, q, l, m), hs) =
      let r = read_back xs bs hs in
      record {
        nodes = node_of x.sink x ∷ r.nodes;
        defines = described x ∷ r.defines;
        written = rw (q, load_sink x.sink x, r.written) refl;
        back = λ done.
            ap (λ z. read_each_appender (if z.1 then done ++ z.0 ∷ [] else done) r.nodes)
              (read_node x x.sink l)
            ∙ (r.back (done ++ described x ∷ []) ∙ append_assoc done (described x ∷ []) r.defines);
        matches = (
          (x, q, refl, described-HasClass x.sink, described-HasFormatter x.formatter m),
          r.matches,
        );
      }

  -- What `Logger::toYamlString` writes, read by the cast of a log definition, is a definition of the
  -- logger's name and pattern that the logger and its appenders agree with: its level, and for each
  -- appender, in order, the class, the level, the file and the formatter. The levels are those of
  -- the enumeration, the pointers to the appenders are valid, a formatter of an appender was made
  -- from its pattern, and a node that is written and loaded is the same.
  pub read_define-logger_to_yaml :
      (xs : List Appender) (l : Logger)
      → l.level ≤ Level.fatal
      → AllPrintable xs l.appenders
      → Describes xs l
          (logger_to_yaml w xs l >>= λ t. w.load_define t >>= λ n. some (read_define n))
  unfolding logger_to_yaml read_define
  read_define-logger_to_yaml xs l h hs =
      let r = read_back xs l.appenders hs in
      let node : DefineNode = record {
        name_field = scalar l.name;
        level_field = scalar (to_string l.level);
        formatter_field = scalar l.formatter.pattern;
        appenders_field = appenders_field_of r.nodes;
      } in
      let ld : LogDefine = record {
        name = l.name;
        level = from_string (to_string l.level);
        formatter = l.formatter.pattern;
        appenders = [];
      } in
      record {
        define = record ld { level = l.level; appenders = r.defines };
        read =
            rw (r.written, reloads.define node)
              (ap some (read_field ld r.nodes ∙ (rw (r.back [], level_back l.level h) refl)));
        name = refl;
        formatter = refl;
        as_defined = (refl, r.matches);
      }
