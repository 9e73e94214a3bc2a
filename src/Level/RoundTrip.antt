-- ===== src/Level/RoundTrip.antt =====
-- `LogLevel::FromString` against `LogLevel::ToString`.
use sylar_server_study.Base.{ℕ, ◌≡◌, refl, Text, map, to_upper, if◌then◌else◌, leb, arith, ◌∷◌, []}
use sylar_server_study.Level.{Level, unknow, fatal, to_string, from_string}

-- Reading the name that a level is printed as gives the level back for every enumerator; any other
-- number is printed as UNKNOW and read back as the level UNKNOW.
pub from_string-to_string :
    (level : Level) → from_string (to_string level) ≡ (if leb level fatal then level else unknow)
unfolding to_string from_string to_upper
from_string-to_string level = ground arith

to_upper_idem : (c : ℕ) → to_upper (to_upper c) ≡ to_upper c
unfolding to_upper
to_upper_idem c = ground arith

map-to_upper_idem : (s : Text) → map to_upper (map to_upper s) ≡ map to_upper s
map-to_upper_idem [] = refl
map-to_upper_idem (c ∷ s) = cc (to_upper_idem c, map-to_upper_idem s)

-- Reading a level does not depend on the case of the letters.
pub from_string-to_upper : (s : Text) → from_string (map to_upper s) ≡ from_string s
unfolding from_string
from_string-to_upper s = rw map-to_upper_idem
