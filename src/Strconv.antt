-- ===== src/Strconv.antt =====
-- What the program uses of Go's strconv: Atoi, in internal/handler/handler.go and
-- internal/config/config.go, and Itoa, in internal/middleware/metrics.go.
pub mod RoundTrip
use Prim.Native.Char.{Char, code}
use Prim.Native.String
use community_waste_collecti.Base.{
  ℕ, zero, suc, ◌+◌, ◌-◌, ◌*◌, ◌/◌, ◌%◌, String, Bool, ◌&&◌, Option, none, some, ◌==◌, nat_eq, ltb,
  leb, if◌then◌else◌, ℤ, pos, negative,
}

abbrev pub is_digit : Char → Bool
is_digit c = leb 48 (code c) && leb (code c) 57

-- Digits to the end of the text, after those that make up `value`.
unfoldable pub digits_from : ℕ → String → Option ℕ
digits_from value String.[] = some value
digits_from value (String.◌∷◌ c s) =
    let rest = digits_from (value * 10 + (code c - 48)) s in if is_digit c then rest else none

abbrev pub unsigned : String → Option ℕ
unsigned String.[] = none
unsigned (String.◌∷◌ c s) = digits_from 0 (String.◌∷◌ c s)

-- The largest int64
abbrev pub max_int : ℕ
max_int = 9223372036854775807

abbrev pub in_range : Option ℕ → Option ℤ
in_range none = none
in_range (some n) = if leb n max_int then some (pos n) else none

abbrev pub in_range_below : Option ℕ → Option ℤ
in_range_below none = none
in_range_below (some n) = if leb n (max_int + 1) then some (negative n) else none

-- strconv.Atoi; `none` is its error, for a text that is no number and for one out of range.
unfoldable pub atoi : String → Option ℤ
unfolding digits_from
atoi String.[] = none
atoi (String.◌∷◌ c s) =
    if code c == 45
    then in_range_below (unsigned s)
    else if code c == 43
    then in_range (unsigned s)
    else in_range (unsigned (String.◌∷◌ c s))

abbrev pub digit : ℕ → Char
digit zero = "0"
digit (suc zero) = "1"
digit (suc (suc zero)) = "2"
digit (suc (suc (suc zero))) = "3"
digit (suc (suc (suc (suc zero)))) = "4"
digit (suc (suc (suc (suc (suc zero))))) = "5"
digit (suc (suc (suc (suc (suc (suc zero)))))) = "6"
digit (suc (suc (suc (suc (suc (suc (suc zero))))))) = "7"
digit (suc (suc (suc (suc (suc (suc (suc (suc zero)))))))) = "8"
digit _ = "9"

-- The digits of a number before a text, from the last one; the fuel counts the digits at most.
unfoldable pub itoa_from : ℕ → ℕ → String → String
itoa_from zero n text = text
itoa_from (suc fuel) n text =
    let longer = itoa_from fuel (n / 10) (String.◌∷◌ (digit (n % 10)) text) in
    if ltb n 10 then String.◌∷◌ (digit n) text else longer

-- strconv.Itoa, of a number that is not negative
unfoldable pub itoa : ℕ → String
unfolding itoa_from
itoa n = itoa_from (suc n) n ""
