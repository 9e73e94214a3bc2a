-- ===== src/Tests/Formatting.antt =====
-- Levels, patterns and formatters.
use sylar_server_study.Formatter.Meaning.{meaning, among}
use sylar_server_study.Base.{ℕ, false, Text, codes, some, ◌≡◌, refl, arith}
use sylar_server_study.Level.{to_string}
use sylar_server_study.Formatter.{scan}
use sylar_server_study.Formatter.Pieces.{print}
use sylar_server_study.Formatter.Scan.{entries, scan-print}
use sylar_server_study.Formatter.Items.{make, format}
use sylar_server_study.Formatter.Format.{make-print-is_error, format-make-print}
use sylar_server_study.Formatter.Total.{format-total}
use sylar_server_study.Tests.Data.{outside, event, pieces, pieces-IsPattern, short}

pieces-print : print pieces ≡ codes "100%%%d{%Y}%p: %m"
pieces-print = refl

name_of_one : ℕ → Text
name_of_one p = codes "net"

scan-print_example :
    ((scan (print pieces)).vec ≡ entries pieces) × ((scan (print pieces)).is_error ≡ false)
scan-print_example = scan-print pieces pieces-IsPattern

make-print-is_error_example : (make (print pieces)).is_error ≡ false
unfolding among
make-print-is_error_example = make-print-is_error pieces pieces-IsPattern

format-make-print_example :
    format outside name_of_one (make (print pieces)) event ≡ some (codes "100%%YWARN: hi")
unfolding meaning to_string
format-make-print_example = format-make-print outside name_of_one event pieces pieces-IsPattern

format-total_example : (t : Text) × (format outside name_of_one short event ≡ some t)
format-total_example = format-total outside name_of_one event (omega arith) (omega arith) short
