-- ===== src/Tests/Configuring.antt =====
-- The definitions of loggers.
use sylar_server_study.Base.{find, text_eq, codes, List, [], ◌∷◌, ◌≡◌, refl}
use sylar_server_study.Level
use sylar_server_study.Define.{
  define_eq, AppenderDefine, LogDefine, type_file, type_stdout, find_define, on_change,
}
use sylar_server_study.Define.Frame.{Holds}
use sylar_server_study.Define.Each.{Distinct, Each}
use sylar_server_study.Define.Change.{AsDefined, IsSilent}
use sylar_server_study.Define.Listener.{
  HasKnown, on_change-AsDefined, on_change-IsSilent, on_change-spared,
}
use sylar_server_study.Tests.Data.{openable, root_logger, shop, shop-IsValid, shop-IsNamed}

-- The logger "net" gets a second appender and another level, and "db" is withdrawn.
abbrev console_define : AppenderDefine
console_define = record {
  kind = type_stdout;
  level = Level.debug;
  formatter = codes "%m%n";
  file = [];
}

abbrev file_define : AppenderDefine
file_define = record {
  kind = type_file;
  level = Level.error;
  formatter = [];
  file = codes "net.log";
}

abbrev net_before : LogDefine
net_before = record {
  name = codes "net";
  level = Level.info;
  formatter = [];
  appenders = console_define ∷ [];
}

abbrev net_after : LogDefine
net_after = record {
  name = codes "net";
  level = Level.warn;
  formatter = codes "%p %m%n";
  appenders = console_define ∷ file_define ∷ [];
}

abbrev db : LogDefine
db = record { name = codes "db"; level = Level.info; formatter = []; appenders = [] }

abbrev old : List LogDefine
old = db ∷ net_before ∷ []

abbrev new : List LogDefine
new = net_after ∷ []

old-Distinct : Distinct old
old-Distinct = ((λ h e. cc, tt), (tt, tt))

new-Distinct : Distinct new
new-Distinct = (tt, tt)

new-HasKnown : Each HasKnown new
new-HasKnown = (((λ e. cc), ((λ e. cc), tt)), tt)

on_change-AsDefined_example :
    Holds (codes "net") (AsDefined net_after) (on_change openable 100 old new shop)
unfolding find_define text_eq define_eq
on_change-AsDefined_example =
    on_change-AsDefined openable 100 old new shop net_after old-Distinct new-Distinct new-HasKnown
      shop-IsValid shop-IsNamed refl refl

on_change-IsSilent_example : Holds (codes "db") IsSilent (on_change openable 100 old new shop)
unfolding find_define text_eq
on_change-IsSilent_example =
    on_change-IsSilent openable 100 old new shop db old-Distinct new-Distinct new-HasKnown
      shop-IsValid shop-IsNamed refl refl

on_change-spared_example :
    Holds (codes "root") (λ xs k. k ≡ root_logger) (on_change openable 100 old new shop)
unfolding find text_eq
on_change-spared_example =
    on_change-spared openable 100 old new shop (codes "root") 0 root_logger old-Distinct
      new-Distinct new-HasKnown shop-IsValid shop-IsNamed ((λ h e. cc), tt)
      ((λ h e. cc), ((λ h e. cc), tt)) refl refl
