-- ===== src/Decimal.antt =====
-- What the program uses of Go's strconv: Itoa, FormatInt and `%d` in base 10, Atoi, ParseInt(s, 10,
-- 64) and ParseBool, on 64-bit integers. Called in logging/syslog.go, datastore/influxdb/influxdb.go
-- and apiserver/controllers/controllers.go.
pub mod RoundTrip
use Prim.Native.Char.{Char, code}
use Prim.Native.String.{[] as «end», ◌∷◌ as ◌◂◌}
use coriolis_logger.Common.{
  ℕ, zero, suc, ◌+◌, ◌-◌, ◌*◌, ◌/◌, ◌%◌, String, Bool, true, false, ◌&&◌, ◌||◌, Option, none, some,
  ltb, leb, eqb, if◌then◌else◌, ℤ, pos, negsuc, neg, word_mod, int_half, ◌==◌, ◌⧺◌,
}

unfoldable pub digit : ℕ → Char
digit zero = "0"
digit (suc zero) = "1"
digit (suc (suc zero)) = "2"
digit (suc (suc (suc zero))) = "3"
digit (suc (suc (suc (suc zero)))) = "4"
digit (suc (suc (suc (suc (suc zero))))) = "5"
digit (suc (suc (suc (suc (suc (suc zero)))))) = "6"
digit (suc (suc (suc (suc (suc (suc (suc zero))))))) = "7"
digit (suc (suc (suc (suc (suc (suc (suc (suc zero)))))))) = "8"
digit _ = "9"

-- The digits of `n` before `out`, at most as many as the fuel.
unfoldable pub emit : ℕ → ℕ → String → String
emit zero n out = out
emit (suc fuel) n out =
    let rest = emit fuel (n / 10) (String.◌∷◌ (digit (n % 10)) out) in
    if ltb n 10 then String.◌∷◌ (digit n) out else rest

-- A 64-bit number has at most 20 digits.
unfoldable pub format_uint : ℕ → String
format_uint n = emit 20 n ""

unfoldable pub itoa : ℤ → String
itoa (pos n) = format_uint n
itoa (negsuc n) = "-" ⧺ format_uint (suc n)

pub data NumError : Type 0 where
  syntax range : NumError

pub data Scan : Type 0 where
  scanned : ℕ → Scan
  bad_syntax out_of_range : Scan

is_digit : ℕ → Bool
is_digit c = leb b'0' c && leb c b'9'

-- The loop of ParseUint: it stops at the first character that is no digit or that overflows.
scan : String → ℕ → Scan
scan String.[] n = scanned n
scan (String.◌∷◌ c s) n =
    let next = n * 10 + (code c - b'0') in
    let rest = scan s next in
    if is_digit (code c) then (if ltb next word_mod then rest else out_of_range) else bad_syntax

parse_uint : String → Scan
unfolding scan is_digit
parse_uint String.[] = bad_syntax
parse_uint (String.◌∷◌ c s) = scan (String.◌∷◌ c s) 0

-- The value with its error: the bound that was passed beside `range`, 0 beside `syntax`.
signed : Bool → ℕ → ℤ × Option NumError
signed true n = if ltb int_half n then (neg (pos int_half), some range) else (neg (pos n), none)
signed false n = if ltb n int_half then (pos n, none) else (pos (int_half - 1), some range)

with_sign : Bool → Scan → ℤ × Option NumError
unfolding signed
with_sign negative (scanned n) = signed negative n
with_sign negative bad_syntax = (pos 0, some syntax)
with_sign negative out_of_range = signed negative (word_mod - 1)

unfoldable pub parse_int : String → ℤ × Option NumError
unfolding parse_uint with_sign
parse_int String.[] = (pos 0, some syntax)
parse_int (String.◌∷◌ c s) =
    if eqb (code c) b'-'
    then with_sign true (parse_uint s)
    else if eqb (code c) b'+'
    then with_sign false (parse_uint s)
    else with_sign false (parse_uint (String.◌∷◌ c s))

-- Atoi reads an int, which has 64 bits.
abbrev pub atoi : String → ℤ × Option NumError
atoi = parse_int

-- The value of ParseBool; its error, beside which the value is false, is not used.
unfoldable pub parse_bool : String → Bool
parse_bool s = s == "1" || s == "t" || s == "T" || s == "TRUE" || s == "true" || s == "True"
