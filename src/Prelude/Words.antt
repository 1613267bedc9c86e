-- ===== src/Prelude/Words.antt =====
-- C integers: `size_t` and `int` as wrapping numbers, and the signed result codes.
use compostela.Prelude.{ℕ, zero, suc, ◌+◌, ◌-◌, ◌%◌, ◌^◌, Bool, true, false, ltb, if◌then◌else◌}

-- `negsuc n` is -(n + 1).
pub data ℤ : Type 0 where
  pos : ℕ → ℤ
  negsuc : ℕ → ℤ

-- `size_t` (64 bits) addition and subtraction wrap.
abbrev pub add64 : ℕ → ℕ → ℕ
add64 a b = (a + b) % 2 ^ 64

abbrev pub sub64 : ℕ → ℕ → ℕ
sub64 a b = (a + 2 ^ 64 - b) % 2 ^ 64

-- The value of a `w`-bit pattern as a signed number, at the widths in use.
abbrev pub signed64 : ℕ → ℤ
signed64 w = if ltb w (2 ^ 63) then pos w else negsuc (2 ^ 64 - w - 1)

abbrev pub signed32 : ℕ → ℤ
signed32 w = if ltb w (2 ^ 31) then pos w else negsuc (2 ^ 32 - w - 1)

-- The conversion of a `size_t` to an `int` on return.
abbrev pub to_int : ℕ → ℤ
to_int n = signed32 (n % 2 ^ 32)

-- `x > 0`, `x < 0` and `x == 0` on a signed result.
abbrev pub is_pos : ℤ → Bool
is_pos (pos zero) = false
is_pos (pos (suc n)) = true
is_pos (negsuc n) = false

abbrev pub is_neg : ℤ → Bool
is_neg (pos n) = false
is_neg (negsuc n) = true
