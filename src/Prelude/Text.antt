-- ===== src/Prelude/Text.antt =====
-- C strings as byte lists: literals, `strdup`, `strcasecmp`, `isdigit` and `strtoul`.
use Prim.Native.Char.{code}
use Prim.Native.String.{String}
use compostela.Prelude.{
  ℕ, ◌+◌, ◌-◌, ◌*◌, ◌%◌, ◌^◌, min, List, [], ◌∷◌, map, Bool, ◌&&◌, ◌||◌, ◌==◌, leb, if◌then◌else◌,
  str_eq,
}

-- The bytes of an ASCII literal.
abbrev pub codes : String → List ℕ
codes String.[] = []
codes (String.◌∷◌ c s) = code c ∷ codes s

-- The string that starts at a place in memory: the bytes before the first NUL.
unfoldable pub c_str : List ℕ → List ℕ
c_str [] = []
c_str (b ∷ bs) = if b == 0 then [] else b ∷ c_str bs

unfoldable pub to_lower : ℕ → ℕ
to_lower c = if leb b'A' c && leb c b'Z' then c + 32 else c

-- `strcasecmp(a, b) == 0`.
unfoldable pub str_case_eq : List ℕ → List ℕ → Bool
unfolding to_lower
str_case_eq a b = str_eq (map to_lower a) (map to_lower b)

unfoldable pub is_digit : ℕ → Bool
is_digit c = leb b'0' c && leb c b'9'

unfoldable pub skip_spaces : List ℕ → List ℕ
skip_spaces [] = []
skip_spaces (c ∷ cs) = if (c == 32) || (leb 9 c && leb c 13) then skip_spaces cs else c ∷ cs

-- The digits from here on; `ULONG_MAX` where the number is larger.
unfoldable pub digits_from : ℕ → List ℕ → ℕ
unfolding is_digit
digits_from acc [] = acc
digits_from acc (c ∷ cs) =
    let more = digits_from (min (2 ^ 64 - 1) (acc * 10 + (c - b'0'))) cs in
    if is_digit c then more else acc

signed_digits : List ℕ → ℕ
signed_digits [] = 0
signed_digits (c ∷ cs) =
    if c == b'-'
    then (2 ^ 64 - digits_from 0 cs) % 2 ^ 64
    else digits_from 0 (if c == b'+' then cs else c ∷ cs)

-- `(int)strtoul(s, NULL, 10)`, as the bit pattern of the `int`.
unfoldable pub strtoul_int : List ℕ → ℕ
unfolding signed_digits digits_from skip_spaces
strtoul_int s = signed_digits (skip_spaces s) % 2 ^ 32
