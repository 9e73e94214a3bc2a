-- ===== src/Define/Written.antt =====
-- A definition that is written and read again.
use sylar_server_study.Base.{
  Bool, true, false, not, Text, is_empty, text_eq, to_upper, if◌then◌else◌, ◌==◌, List, [], ◌∷◌,
  ◌++◌, append-nil, append_assoc, Bool-cases, inl, inr, ◌≡◌, ◌≢◌, ◌≤◌, refl, sym, ap, ◌∙◌, arith,
}
use sylar_server_study.Level
use sylar_server_study.Level.{Level, to_string, from_string}
use sylar_server_study.Level.RoundTrip.{from_string-to_string}
use sylar_server_study.Define.{
  AppenderType, type_unknow, type_file, type_stdout, AppenderDefine, LogDefine, string_to_type,
  type_to_string,
}
use sylar_server_study.Define.Yaml.{
  scalar, empty_appender, field_if, and_then, read_type, read_file, read_appender_level,
  read_appender_formatter, read_an_appender, read_each_appender, read_define, write_an_appender,
  write_each_appender, write_define, read_appenders, appenders_node,
}

-- A file appender has a file, a console appender has none.
abbrev pub HasFile : AppenderType → Text → Type 0
HasFile type_file file = file ≢ []
HasFile type_stdout file = file ≡ []
HasFile type_unknow file = ⊥

abbrev pub IsWritable : AppenderDefine → Type 0
IsWritable a = HasFile a.kind a.file × (a.level ≤ Level.fatal)

abbrev pub AllWritable : List AppenderDefine → Type 0
AllWritable [] = Unit
AllWritable (a ∷ lads) = IsWritable a × AllWritable lads

-- The names of the two classes are read back.
string_to_type-type_to_string : (k : AppenderType) → string_to_type (type_to_string k) ≡ k
unfolding string_to_type type_to_string text_eq to_upper
string_to_type-type_to_string type_unknow = refl
string_to_type-type_to_string type_file = refl
string_to_type-type_to_string type_stdout = refl

pub level_back : (level : Level) → level ≤ Level.fatal → from_string (to_string level) ≡ level
level_back level h = ground (arith, from_string-to_string level)

pub read_level_field :
    (lad : AppenderDefine) (level : Level)
    → lad.level ≡ Level.unknow
    → level ≤ Level.fatal
    → read_appender_level lad (field_if (not (level == Level.unknow)) (to_string level))
      ≡ (record lad { level = level }, true)
read_level_field lad level e h = elim (Bool-cases (level == Level.unknow)) [
  | inl yes' ↦
      let level=unknow : level ≡ Level.unknow = ground arith in
      simp yes' (ap (λ z. (record lad { level = z }, true)) (e ∙ sym level=unknow))
  | inr no' ↦ simp no' (ap (λ z. (record lad { level = z }, true)) (level_back level h))
]

read_formatter_field :
    (lad : AppenderDefine) (t : Text)
    → lad.formatter ≡ []
    → read_appender_formatter lad (field_if (not (is_empty t)) t)
      ≡ (record lad { formatter = t }, true)
read_formatter_field lad [] e = ap (λ z. (record lad { formatter = z }, true)) e
read_formatter_field lad (c ∷ t) e = refl

-- The members behind the type and the file.
read_rest :
    (a lad : AppenderDefine)
    → a.level ≤ Level.fatal
    → lad.level ≡ Level.unknow
    → lad.formatter ≡ []
    → and_then
        (read_appender_level lad (write_an_appender a).level_field)
        (λ z. read_appender_formatter z (write_an_appender a).formatter_field)
      ≡ (record lad { level = a.level; formatter = a.formatter }, true)
unfolding write_an_appender
read_rest a lad h e f =
    ap
      (λ r.
        and_then r
          (λ z. read_appender_formatter z (field_if (not (is_empty a.formatter)) a.formatter)))
      (read_level_field lad a.level e h)
    ∙ read_formatter_field (record lad { level = a.level }) a.formatter f

-- The type and the file, and then the rest.
read_kind :
    (k : AppenderType) (file : Text)
    → HasFile k file
    → and_then
        (read_type empty_appender (scalar (type_to_string k)))
        (λ x. read_file x.kind x (field_if (not (is_empty file)) file))
      ≡ (record empty_appender { kind = k; file = file }, true)
unfolding string_to_type type_to_string text_eq to_upper
read_kind type_unknow file h = absurd h
read_kind type_file [] h = absurd (h refl)
read_kind type_file (c ∷ t) h = refl
read_kind type_stdout [] h = refl
read_kind type_stdout (c ∷ t) h = absurd (cc)

and_then_assoc :
    {T : Type 0} (r : T × Bool) (f g : T → T × Bool)
    → and_then (and_then r f) g ≡ and_then r (λ x. and_then (f x) g)
and_then_assoc (x, true) f g = refl
and_then_assoc (x, false) f g = refl

read-write_an_appender :
    (a : AppenderDefine) → IsWritable a → read_an_appender (write_an_appender a) ≡ (a, true)
unfolding read_an_appender write_an_appender
read-write_an_appender a (hf, hl) =
    let then_rest : AppenderDefine → AppenderDefine × Bool = λ y.
      and_then (read_appender_level y (write_an_appender a).level_field)
        (λ z. read_appender_formatter z (write_an_appender a).formatter_field) in
    sym (
      and_then_assoc (read_type empty_appender (scalar (type_to_string a.kind)))
        (λ x. read_file x.kind x (field_if (not (is_empty a.file)) a.file)) then_rest)
    ∙ (ap (λ r. and_then r then_rest) (read_kind a.kind a.file hf)
        ∙ read_rest a (record empty_appender { kind = a.kind; file = a.file }) hl refl refl)

read-write_each_appender :
    (lads done : List AppenderDefine)
    → AllWritable lads
    → read_each_appender done (write_each_appender lads) ≡ done ++ lads
unfolding read_each_appender write_each_appender
read-write_each_appender [] done h = sym (append-nil done)
read-write_each_appender (a ∷ lads) done (h, hs) =
    ap (λ r. read_each_appender (if r.1 then done ++ r.0 ∷ [] else done) (write_each_appender lads))
      (read-write_an_appender a h)
    ∙ (read-write_each_appender lads (done ++ a ∷ []) hs ∙ append_assoc done (a ∷ []) lads)

read_list :
    (lads : List AppenderDefine) (ld : LogDefine)
    → ld.appenders ≡ []
    → AllWritable lads
    → (read_appenders ld (appenders_node lads)).0 ≡ record ld { appenders = lads }
read_list [] ld e hs = ap (λ z. record ld { appenders = z }) e
read_list (a ∷ lads) ld e hs =
    ap (λ z. record ld { appenders = z })
      (read-write_each_appender (a ∷ lads) ld.appenders hs ∙ ap (λ z. z ++ a ∷ lads) e)

-- A definition that is written as a YAML node is read back the same, if its levels are those of the
-- enumeration, none of its appenders has an unknown type, every file appender has a file, and no other
-- has one.
pub read-write_define :
    (ld : LogDefine)
    → ld.level ≤ Level.fatal
    → AllWritable ld.appenders
    → read_define (write_define ld) ≡ ld
unfolding read_define write_define
read-write_define ld hl hs =
    ap
      (λ level.
        (read_appenders
          (record { name = ld.name; level = level; formatter = ld.formatter; appenders = [] })
          (appenders_node ld.appenders)).0)
      (level_back ld.level hl)
    ∙ read_list ld.appenders
        (record { name = ld.name; level = ld.level; formatter = ld.formatter; appenders = [] }) refl
        hs
