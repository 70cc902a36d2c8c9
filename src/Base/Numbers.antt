-- ===== src/Base/Numbers.antt =====
-- Package strconv on decimal numbers: Atoi, ParseInt and Itoa.
-- The value of decimal digits after `acc`.
use proxmox_desk_display.Base.{
  [], ◌∷◌, some, none, true, false, suc, zero, ℕ, Bool, Option, ◌/◌, ◌*◌, if◌then◌else◌, ◌+◌, ltb,
  ◌==◌, ◌-◌, ◌^◌, ◌++◌, leb, ◌%◌, ◌&&◌,
}
use proxmox_desk_display.Base.Text.{Text}
use proxmox_desk_display.Base.Int.{negsuc, ℤ, pos, ◌-ℤ◌}

unfoldable pub digits : ℕ → Text → Option ℕ
digits acc [] = some acc
digits acc (c ∷ s) =
    let rest = digits (10 * acc + (c - b'0')) s in if leb b'0' c && leb c b'9' then rest else none

-- A number of at least one digit.
unfoldable pub number : Text → Option ℕ
unfolding digits
number [] = none
number (c ∷ s) = digits 0 (c ∷ s)

-- An int64 from its sign and its absolute value.
unfoldable pub signed : Bool → Option ℕ → Option ℤ
signed minus none = none
signed true (some n) = if ltb (2 ^ 63) n then none else some (pos 0 -ℤ pos n)
signed false (some n) = if ltb n (2 ^ 63) then some (pos n) else none

-- strconv.Atoi: a sign, digits, and the range of an int64.
unfoldable pub atoi : Text → Option ℤ
unfolding signed number
atoi [] = none
atoi (c ∷ s) =
    if c == b'-'
    then signed true (number s)
    else if c == b'+'
    then signed false (number s)
    else signed false (number (c ∷ s))

-- The decimal digits of a number, for enough fuel, as the format `%d` writes it.
unfoldable pub decimal_digits : ℕ → ℕ → Text
decimal_digits zero n = []
decimal_digits (suc fuel) n =
    let high = decimal_digits fuel (n / 10) in
    if ltb n 10 then (b'0' + n) ∷ [] else high ++ (b'0' + n % 10) ∷ []

unfoldable pub decimal : ℕ → Text
unfolding decimal_digits
decimal n = decimal_digits (suc n) n

-- strconv.Itoa and strconv.FormatInt
unfoldable pub itoa : ℤ → Text
unfolding decimal
itoa (pos n) = decimal n
itoa (negsuc n) = b'-' ∷ decimal (suc n)

-- The result of strconv.ParseInt, its error dropped: a number outside int64 gives the nearest one in it.
clamped : Bool → Option ℕ → ℤ
clamped minus none = pos 0
clamped true (some n) = if ltb (2 ^ 63) n then pos 0 -ℤ pos (2 ^ 63) else pos 0 -ℤ pos n
clamped false (some n) = if ltb n (2 ^ 63) then pos n else pos (2 ^ 63 - 1)

unfoldable pub parse_int : Text → ℤ
unfolding clamped number
parse_int [] = pos 0
parse_int (c ∷ s) =
    if c == b'-'
    then clamped true (number s)
    else if c == b'+'
    then clamped false (number s)
    else clamped false (number (c ∷ s))
