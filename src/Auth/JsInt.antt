-- ===== src/Auth/JsInt.antt =====
-- JavaScript's `parseInt`, which gives a number that may be negative or `NaN`. A number that is too
-- large for a double is kept exact here.
use Prim.Native.Char.{code}
use gateway_realtime.Common.{
  leb, nat_beq, if◌then◌else◌, or_default, ℕ, ◌+◌, ◌-◌, ◌*◌, String, ◌≡◌, refl, Bool, ◌&&◌, ◌||◌,
  Option, none, some,
}

pub data JsInt : Type 0 where
  nan : JsInt
  plus minus : ℕ → JsInt

abbrev is_digit : ℕ → Bool
is_digit c = leb b'0' c && leb c b'9'

abbrev is_blank : ℕ → Bool
is_blank c =
    (leb 9 c && leb c 13)
    || ((leb 8192 c && leb c 8202)
        || (nat_beq c 32
            || (nat_beq c 160
                || (nat_beq c 5760
                    || (nat_beq c 8232
                        || (nat_beq c 8233
                            || (nat_beq c 8239
                                || (nat_beq c 8287 || (nat_beq c 12288 || (nat_beq c 65279))))))))))

-- The decimal digits at the start of a text; `none` before the first.
abbrev read_digits : Option ℕ → String → Option ℕ
read_digits before String.[] = before
read_digits none (String.◌∷◌ c s) =
    let rest = read_digits (some (code c - b'0')) s in if is_digit (code c) then rest else none
read_digits (some n) (String.◌∷◌ c s) =
    let rest = read_digits (some (n * 10 + (code c - b'0'))) s in
    if is_digit (code c) then rest else some n

abbrev signed : (ℕ → JsInt) → Option ℕ → JsInt
signed sign none = nan
signed sign (some n) = sign n

abbrev read_signed : (String → Option ℕ) → String → JsInt
read_signed magnitude String.[] = nan
read_signed magnitude (String.◌∷◌ c s) =
    if nat_beq (code c) b'-'
    then signed minus (magnitude s)
    else if nat_beq (code c) b'+'
    then signed plus (magnitude s)
    else signed plus (magnitude (String.◌∷◌ c s))

unfoldable pub hex_digit : ℕ → Option ℕ
hex_digit c =
    if leb b'0' c && leb c b'9'
    then some (c - b'0')
    else if leb b'a' c && leb c b'f'
    then some (c - b'a' + 10)
    else if leb b'A' c && leb c b'F'
    then some (c - b'A' + 10)
    else none

-- The hexadecimal digits at the start of a text.
abbrev read_hex : Option ℕ → String → Option ℕ
unfolding hex_digit
read_hex before String.[] = before
read_hex before (String.◌∷◌ c s) = elim (hex_digit (code c)) [
  | none ↦ before
  | some d ↦ read_hex (some (or_default before 0 * 16 + d)) s
]

abbrev is_x : ℕ → Bool
is_x c = nat_beq c b'x' || nat_beq c b'X'

-- `0x` starts a hexadecimal number when no radix is given.
any_magnitude : String → Option ℕ
unfolding read_hex
any_magnitude (String.◌∷◌ c (String.◌∷◌ d s)) =
    if nat_beq (code c) b'0' && is_x (code d)
    then read_hex none s
    else read_digits none (String.◌∷◌ c (String.◌∷◌ d s))
any_magnitude s = read_digits none s

parse_with : (String → Option ℕ) → String → JsInt
parse_with magnitude String.[] = nan
parse_with magnitude (String.◌∷◌ c s) =
    let rest = parse_with magnitude s in
    if is_blank (code c) then rest else read_signed magnitude (String.◌∷◌ c s)

-- `parseInt(text, 10)`
unfoldable pub parse_decimal : String → JsInt
unfolding parse_with
parse_decimal text = parse_with (read_digits none) text

-- `parseInt(text)`
unfoldable pub parse_int : String → JsInt
unfolding parse_with any_magnitude
parse_int text = parse_with any_magnitude text

parse_negative_hex : parse_int "  -0x1Fz" ≡ minus 31
unfolding parse_int
parse_negative_hex = refl

parse_plus : parse_int "+1700.5" ≡ plus 1700
unfolding parse_int
parse_plus = refl

parse_word : parse_int "abc" ≡ nan
unfolding parse_int
parse_word = refl
