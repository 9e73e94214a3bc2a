-- ===== src/Tests/Nodes.antt =====
-- The nodes of log definitions in the small notation.
use sylar_server_study.Base.{
  zero, suc, Text, List, [], ◌∷◌, Option, none, some, ◌>>=◌, ◌≡◌, refl, ap, ◌∙◌,
}
use sylar_server_study.Define.Yaml.{
  Field, undefined, scalar, other, AppenderNode, Appenders, no_appenders, sequence, not_sequence,
  DefineNode,
}
use sylar_server_study.Define.Printed.{NodeText, NodeTextReloads}
use sylar_server_study.Tests.Notation.{encode, decode, decode-encode}

abbrev put_field : Field → Text
put_field undefined = 0 ∷ []
put_field other = 1 ∷ []
put_field (scalar t) = 2 ∷ t

abbrev get_field : Text → Field
get_field [] = other
get_field (zero ∷ t) = undefined
get_field (suc zero ∷ t) = other
get_field (suc (suc n) ∷ t) = scalar t

get-put_field : (f : Field) → get_field (put_field f) ≡ f
get-put_field undefined = refl
get-put_field (scalar t) = refl
get-put_field other = refl

abbrev appender_texts : AppenderNode → List Text
appender_texts n =
    put_field n.type_field
    ∷ put_field n.file_field
    ∷ put_field n.level_field
    ∷ put_field n.formatter_field
    ∷ []

abbrev put_appender : AppenderNode → Text
put_appender n = encode (appender_texts n)

abbrev appender_of : List Text → Option AppenderNode
appender_of (a ∷ b ∷ c ∷ d ∷ []) = some (record {
  type_field = get_field a;
  file_field = get_field b;
  level_field = get_field c;
  formatter_field = get_field d;
})
appender_of _ = none

abbrev get_appender : Text → Option AppenderNode
get_appender t = appender_of (decode [] t)

get-put_appender : (n : AppenderNode) → get_appender (put_appender n) ≡ some n
get-put_appender n =
    ap appender_of (decode-encode (appender_texts n))
    ∙ (rw
        (
          get-put_field n.type_field,
          get-put_field n.file_field,
          get-put_field n.level_field,
          get-put_field n.formatter_field,
        )
        refl)

abbrev put_each : List AppenderNode → List Text
put_each [] = []
put_each (n ∷ ns) = put_appender n ∷ put_each ns

abbrev get_each : List Text → Option (List AppenderNode)
get_each [] = some []
get_each (t ∷ ts) = get_appender t >>= λ n. get_each ts >>= λ ns. some (n ∷ ns)

get-put_each : (ns : List AppenderNode) → get_each (put_each ns) ≡ some ns
get-put_each [] = refl
get-put_each (n ∷ ns) = rw (get-put_appender n, get-put_each ns) refl

abbrev put_appenders : Appenders → Text
put_appenders no_appenders = 0 ∷ []
put_appenders not_sequence = 1 ∷ []
put_appenders (sequence ns) = 2 ∷ encode (put_each ns)

abbrev get_appenders : Text → Option Appenders
get_appenders [] = none
get_appenders (zero ∷ t) = some no_appenders
get_appenders (suc zero ∷ t) = some not_sequence
get_appenders (suc (suc n) ∷ t) = get_each (decode [] t) >>= λ ns. some (sequence ns)

get-put_appenders : (a : Appenders) → get_appenders (put_appenders a) ≡ some a
get-put_appenders no_appenders = refl
get-put_appenders not_sequence = refl
get-put_appenders (sequence ns) = rw (decode-encode (put_each ns), get-put_each ns) refl

abbrev define_texts : DefineNode → List Text
define_texts n =
    put_field n.name_field
    ∷ put_field n.level_field
    ∷ put_field n.formatter_field
    ∷ put_appenders n.appenders_field
    ∷ []

abbrev put_define : DefineNode → Text
put_define n = encode (define_texts n)

abbrev define_of : List Text → Option DefineNode
define_of (a ∷ b ∷ c ∷ d ∷ []) = get_appenders d >>= λ appenders. some (record {
  name_field = get_field a;
  level_field = get_field b;
  formatter_field = get_field c;
  appenders_field = appenders;
})
define_of _ = none

get-put_define : (n : DefineNode) → define_of (decode [] (put_define n)) ≡ some n
get-put_define n =
    ap define_of (decode-encode (define_texts n))
    ∙ (rw
        (
          get-put_appenders n.appenders_field,
          get-put_field n.name_field,
          get-put_field n.level_field,
          get-put_field n.formatter_field,
        )
        refl)

abbrev put_defines : List DefineNode → List Text
put_defines [] = []
put_defines (n ∷ ns) = put_define n ∷ put_defines ns

abbrev pub node_text : NodeText
node_text = record {
  emit_appender = put_appender;
  load_appender = get_appender;
  emit_define = put_define;
  load_define = λ t. define_of (decode [] t);
  emit_defines = λ ns. encode (put_defines ns);
}

pub node_text-Reloads : NodeTextReloads node_text
node_text-Reloads = record { appender = get-put_appender; define = get-put_define }
