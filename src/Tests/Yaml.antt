-- ===== src/Tests/Yaml.antt =====
-- Definitions of loggers as YAML nodes.
use sylar_server_study.Base.{to_upper, codes, [], ◌∷◌, ◌≡◌, refl, arith}
use sylar_server_study.Level
use sylar_server_study.Define.{string_to_type, LogDefine, type_file, type_stdout}
use sylar_server_study.Define.Matches.{AllKnown}
use sylar_server_study.Define.Yaml.{
  undefined, scalar, other, sequence, DefineNode, read_define, write_define,
}
use sylar_server_study.Define.Written.{read-write_define}
use sylar_server_study.Define.Known.{read_define-AllKnown}

abbrev net : LogDefine
net = record {
  name = codes "net";
  level = Level.warn;
  formatter = [];
  appenders =
      record {
        kind = type_file;
        level = Level.unknow;
        formatter = codes "%m%n";
        file = codes "net.log";
      }
      ∷ record { kind = type_stdout; level = Level.error; formatter = []; file = [] }
      ∷ [];
}

read-write_define_example : read_define (write_define net) ≡ net
read-write_define_example =
    read-write_define net (omega arith) ((λ e. cc, omega arith), ((refl, omega arith), tt))

-- The first appender has an unknown type, the second no file, and the third is good.
abbrev mixed : DefineNode
mixed = record {
  name_field = scalar (codes "net");
  level_field = scalar (codes "info");
  formatter_field = undefined;
  appenders_field = sequence (
      record {
        type_field = scalar (codes "Socket");
        file_field = undefined;
        level_field = undefined;
        formatter_field = undefined;
      }
      ∷ record {
        type_field = scalar (codes "FileLogAppender");
        file_field = undefined;
        level_field = undefined;
        formatter_field = undefined;
      }
      ∷ record {
        type_field = scalar (codes "stdoutlogappender");
        file_field = undefined;
        level_field = scalar (codes "debug");
        formatter_field = undefined;
      }
      ∷ []);
}

read-mixed :
    (read_define mixed).appenders
    ≡ record { kind = type_stdout; level = Level.debug; formatter = []; file = [] } ∷ []
unfolding read_define string_to_type to_upper Level.from_string
read-mixed = refl

-- A node without a name gives a definition with an empty name, level UNKNOW and nothing else.
read-nameless :
    read_define (record mixed { name_field = other })
    ≡ record { name = []; level = Level.unknow; formatter = []; appenders = [] }
unfolding read_define
read-nameless = refl

read_define-AllKnown_example : AllKnown (read_define mixed).appenders
read_define-AllKnown_example = read_define-AllKnown mixed
