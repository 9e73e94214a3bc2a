-- ===== src/Define/Yaml.antt =====
-- sylar/log.cc: the casts between YAML and `LogDefine`, on a node as the casts see it through
-- `operator[]`, `IsDefined`, `IsScalar`, `IsSequence` and `as`. The messages on the console are left
-- out.
use sylar_server_study.Base.{
  Bool, true, false, not, Text, is_empty, if◌then◌else◌, ◌==◌, List, [], ◌∷◌, ◌++◌,
}
use sylar_server_study.Level
use sylar_server_study.Level.{Level, to_string, from_string}
use sylar_server_study.Define.{
  AppenderType, type_unknow, type_file, AppenderDefine, LogDefine, string_to_type, type_to_string,
}

-- A member that should be a scalar: not defined, a scalar with its text, or something else.
pub data Field : Type 0 where
  undefined : Field
  scalar : Text → Field
  other : Field

pub record AppenderNode : Type 0 where
  pub type_field : Field
  pub file_field : Field
  pub level_field : Field
  pub formatter_field : Field

-- The member "appenders"; a null node, which has no elements, is another.
pub data Appenders : Type 0 where
  no_appenders : Appenders
  sequence : List AppenderNode → Appenders
  not_sequence : Appenders

pub record DefineNode : Type 0 where
  pub name_field : Field
  pub level_field : Field
  pub formatter_field : Field
  pub appenders_field : Appenders

-- What was read so far, and whether the reading goes on.
abbrev pub Reading : Type 0 → Type 0
Reading T = T × Bool

abbrev pub empty_define : LogDefine
empty_define = record { name = []; level = Level.unknow; formatter = []; appenders = [] }

abbrev pub empty_appender : AppenderDefine
empty_appender = record { kind = type_unknow; level = Level.unknow; formatter = []; file = [] }

abbrev pub read_name : LogDefine → Field → Reading LogDefine
read_name ld (scalar t) = (record ld { name = t }, true)
read_name ld _ = (ld, false)

abbrev pub read_level : LogDefine → Field → Reading LogDefine
read_level ld (scalar t) = (record ld { level = from_string t }, true)
read_level ld _ = (ld, false)

abbrev pub read_formatter : LogDefine → Field → Reading LogDefine
read_formatter ld undefined = (ld, true)
read_formatter ld (scalar t) = (record ld { formatter = t }, true)
read_formatter ld other = (ld, false)

-- The parts of `_read_an_appender`.
abbrev pub read_type : AppenderDefine → Field → Reading AppenderDefine
read_type lad (scalar t) =
    let kind = string_to_type t in
    (record lad { kind = kind }, elim kind [ type_unknow ↦ false | _ ↦ true ])
read_type lad _ = (lad, false)

abbrev pub read_file_field : AppenderDefine → Field → Reading AppenderDefine
read_file_field lad (scalar t) = (record lad { file = t }, true)
read_file_field lad _ = (lad, false)

-- A file only for a file appender.
abbrev pub read_file : AppenderType → AppenderDefine → Field → Reading AppenderDefine
read_file type_file lad field = read_file_field lad field
read_file _ lad field = (lad, true)

abbrev pub read_appender_level : AppenderDefine → Field → Reading AppenderDefine
read_appender_level lad undefined = (lad, true)
read_appender_level lad (scalar t) = (record lad { level = from_string t }, true)
read_appender_level lad other = (lad, false)

abbrev pub read_appender_formatter : AppenderDefine → Field → Reading AppenderDefine
read_appender_formatter lad undefined = (lad, true)
read_appender_formatter lad (scalar t) = (record lad { formatter = t }, true)
read_appender_formatter lad other = (lad, false)

-- The next part, unless the reading has stopped.
abbrev pub and_then : {T : Type 0} → Reading T → (T → Reading T) → Reading T
and_then (x, true) f = f x
and_then (x, false) f = (x, false)

-- `_read_an_appender`
unfoldable pub read_an_appender : AppenderNode → Reading AppenderDefine
read_an_appender a = and_then (read_type empty_appender a.type_field) (λ x.
    and_then (read_file x.kind x a.file_field) (λ y.
      and_then (read_appender_level y a.level_field)
        (λ z. read_appender_formatter z a.formatter_field)))

-- The loop, which goes on behind an appender that cannot be read.
unfoldable pub read_each_appender : List AppenderDefine → List AppenderNode → List AppenderDefine
unfolding read_an_appender
read_each_appender lads [] = lads
read_each_appender lads (a ∷ nodes) =
    let (lad, ok) = read_an_appender a in
    read_each_appender (if ok then lads ++ lad ∷ [] else lads) nodes

abbrev pub read_appenders : LogDefine → Appenders → Reading LogDefine
read_appenders ld no_appenders = (ld, true)
read_appenders ld (sequence nodes) =
    (record ld { appenders = read_each_appender ld.appenders nodes }, true)
read_appenders ld not_sequence = (ld, false)

-- `LexicalCast<std::string, LogDefine>`, behind `YAML::Load`. What was read before an error is
-- returned.
unfoldable pub read_define : DefineNode → LogDefine
unfolding read_each_appender
read_define node =
    (and_then (read_name empty_define node.name_field) (λ a.
      and_then (read_level a node.level_field) (λ b.
        and_then (read_formatter b node.formatter_field)
          (λ c. read_appenders c node.appenders_field)))).0

-- A member that is only written if a condition holds.
abbrev pub field_if : Bool → Text → Field
field_if true t = scalar t
field_if false t = undefined

unfoldable pub write_an_appender : AppenderDefine → AppenderNode
write_an_appender a = record {
  file_field = field_if (not (is_empty a.file)) a.file;
  formatter_field = field_if (not (is_empty a.formatter)) a.formatter;
  level_field = field_if (not (a.level == Level.unknow)) (to_string a.level);
  type_field = scalar (type_to_string a.kind);
}

unfoldable pub write_each_appender : List AppenderDefine → List AppenderNode
unfolding write_an_appender
write_each_appender [] = []
write_each_appender (a ∷ lads) = write_an_appender a ∷ write_each_appender lads

-- `appenders_node`, which stays null without appenders.
abbrev pub appenders_node : List AppenderDefine → Appenders
appenders_node [] = not_sequence
appenders_node (a ∷ lads) = sequence (write_each_appender (a ∷ lads))

-- `LexicalCast<LogDefine, std::string>`, before the node is written as text.
unfoldable pub write_define : LogDefine → DefineNode
unfolding write_each_appender
write_define ld = record {
  name_field = scalar ld.name;
  level_field = scalar (to_string ld.level);
  formatter_field = scalar ld.formatter;
  appenders_field = appenders_node ld.appenders;
}
