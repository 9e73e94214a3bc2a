-- ===== src/Level.antt =====
-- sylar/log.cc and sylar/log.h: `LogLevel`. The enumeration is unscoped and the program casts other
-- numbers into it, so a level is its number.
pub mod RoundTrip
use sylar_server_study.Base.{ℕ, Bool, ◌≡◌, Text, codes, map, text_eq, to_upper, if◌then◌else◌, ◌==◌}

abbrev pub Level : Type 0
Level = ℕ

abbrev pub unknow : Level
unknow = 0

abbrev pub debug : Level
debug = 1

abbrev pub info : Level
info = 2

abbrev pub warn : Level
warn = 3

abbrev pub error : Level
error = 4

abbrev pub fatal : Level
fatal = 5

unfoldable pub to_string : Level → Text
to_string level =
    if level == debug
    then codes "DEBUG"
    else if level == info
    then codes "INFO"
    else if level == warn
    then codes "WARN"
    else if level == error
    then codes "ERROR"
    else if level == fatal
    then codes "FATAL"
    else codes "UNKNOW"

unfoldable pub from_string : Text → Level
unfolding text_eq
from_string str =
    let ucstr = map to_upper str in
    if text_eq ucstr (codes "DEBUG")
    then debug
    else if text_eq ucstr (codes "INFO")
    then info
    else if text_eq ucstr (codes "WARN")
    then warn
    else if text_eq ucstr (codes "ERROR")
    then error
    else if text_eq ucstr (codes "FATAL")
    then fatal
    else unknow
