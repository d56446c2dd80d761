-- ===== src/Text/Decimal.antt =====
-- Decimal numbers: fmt's %d and strconv.ParseUint(s, 10, 64); the text behind the first `_`.
use Prim.Native.Char.{Char, code}
use runspace.Prelude.{
  ℕ, zero, suc, ◌+◌, ◌-◌, ◌*◌, ◌/◌, ◌%◌, String, ◌&&◌, Option, none, some, leb, ltb, eqb,
  if◌then◌else◌,
}

nth : String → ℕ → Char
nth String.[] n = "0"
nth (String.◌∷◌ c s) zero = c
nth (String.◌∷◌ c s) (suc n) = nth s n

unfoldable pub digit : ℕ → Char
unfolding nth
digit n = nth "0123456789" n

-- The digits of `n` in front of a text; a number has no more digits than its value and one.
digits : ℕ → ℕ → String → String
unfolding digit
digits zero n rest = rest
digits (suc fuel) n rest =
    let longer = String.◌∷◌ (digit (n % 10)) rest in
    let more = digits fuel (n / 10) longer in if ltb n 10 then longer else more

unfoldable pub decimal : ℕ → String
unfolding digits
decimal n = digits (suc n) n ""

abbrev digit_value : Char → Option ℕ
digit_value c = if leb 48 (code c) && leb (code c) 57 then some (code c - 48) else none

abbrev grown : ℕ → Option ℕ → Option ℕ
grown n none = none
grown n (some d) = if ltb (n * 10 + d) 18446744073709551616 then some (n * 10 + d) else none

-- The rest of a number; none at a character that is no digit, and above 64 bits.
parse_from : Option ℕ → String → Option ℕ
parse_from none s = none
parse_from (some n) String.[] = some n
parse_from (some n) (String.◌∷◌ c s) = parse_from (grown n (digit_value c)) s

unfoldable pub parse_uint64 : String → Option ℕ
unfolding parse_from
parse_uint64 String.[] = none
parse_uint64 (String.◌∷◌ c s) = parse_from (some 0) (String.◌∷◌ c s)

-- strings.SplitN(s, "_", 2)[1], where there is one
unfoldable pub after_underscore : String → Option String
after_underscore String.[] = none
after_underscore (String.◌∷◌ c s) =
    let rest = after_underscore s in if eqb (code c) 95 then some s else rest
