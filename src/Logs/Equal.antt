-- ===== src/Logs/Equal.antt =====
-- `operator==` of log definitions decides equality.
use sylar_server_study.Base.{==_iff, true, text_eq_iff, List, [], ◌∷◌, ◌≡◌, refl, arith}
use sylar_server_study.Define.{
  AppenderType, type_unknow, type_file, type_stdout, AppenderDefine, LogDefine, kind_eq,
  appender_eq, appenders_eq, define_eq,
}

kind_eq_sound : (a b : AppenderType) → kind_eq a b ≡ true → a ≡ b
kind_eq_sound type_unknow type_unknow h = refl
kind_eq_sound type_file type_file h = refl
kind_eq_sound type_stdout type_stdout h = refl
kind_eq_sound type_unknow type_file h = absurd (cc)
kind_eq_sound type_unknow type_stdout h = absurd (cc)
kind_eq_sound type_file type_unknow h = absurd (cc)
kind_eq_sound type_file type_stdout h = absurd (cc)
kind_eq_sound type_stdout type_unknow h = absurd (cc)
kind_eq_sound type_stdout type_file h = absurd (cc)

appender_eq_sound : (a b : AppenderDefine) → appender_eq a b ≡ true → a ≡ b
unfolding appender_eq
appender_eq_sound a b h =
    let k : a.kind ≡ b.kind = kind_eq_sound a.kind b.kind (ground arith) in
    let l : a.level ≡ b.level = (==_iff a.level b.level).0 (ground arith) in
    let f : a.formatter ≡ b.formatter = (text_eq_iff a.formatter b.formatter).0 (ground arith) in
    let g : a.file ≡ b.file = (text_eq_iff a.file b.file).0 (ground arith) in cc

appenders_eq_sound : (xs ys : List AppenderDefine) → appenders_eq xs ys ≡ true → xs ≡ ys
unfolding appenders_eq
appenders_eq_sound [] [] h = refl
appenders_eq_sound [] (b ∷ bs) h = absurd (cc)
appenders_eq_sound (a ∷ xs) [] h = absurd (cc)
appenders_eq_sound (a ∷ xs) (b ∷ bs) h =
    let p : a ≡ b = appender_eq_sound a b (ground arith) in
    let q : xs ≡ bs = appenders_eq_sound xs bs (ground arith) in cc

pub define_eq_sound : (a b : LogDefine) → define_eq a b ≡ true → a ≡ b
unfolding define_eq
define_eq_sound a b h =
    let n : a.name ≡ b.name = (text_eq_iff a.name b.name).0 (ground arith) in
    let l : a.level ≡ b.level = (==_iff a.level b.level).0 (ground arith) in
    let f : a.formatter ≡ b.formatter = (text_eq_iff a.formatter b.formatter).0 (ground arith) in
    let s : a.appenders ≡ b.appenders = appenders_eq_sound a.appenders b.appenders (ground arith) in
    cc
