-- ===== src/Base/Int64.antt =====
-- Go's `int64`, `int` and `uint64` as bit patterns below 2 ^ 64, with wrap-around written out.
use namros.Base.{ℕ, ◌+◌, ◌-◌, ◌%◌, ◌^◌, Bool, ◌&&◌, ltb, leb}

abbrev pub word_mod : ℕ
word_mod = 2 ^ 64

abbrev pub sign_bit : ℕ
sign_bit = 2 ^ 63

-- `a + b`, `a - b` at 64 bits, signed or unsigned.
abbrev pub add64 : ℕ → ℕ → ℕ
add64 a b = (a + b) % word_mod

abbrev pub sub64 : ℕ → ℕ → ℕ
sub64 a b = (a + (word_mod - b % word_mod)) % word_mod

-- `a < 0` for an `int64`.
abbrev pub is_negative : ℕ → Bool
is_negative a = leb sign_bit a

-- `a > 0` for an `int64`.
abbrev pub is_positive : ℕ → Bool
is_positive a = ltb 0 a && ltb a sign_bit

-- The order of `int64` values: flipping the sign bit makes it the order of the patterns.
abbrev pub biased : ℕ → ℕ
biased a = (a + sign_bit) % word_mod

abbrev pub signed_ltb : ℕ → ℕ → Bool
signed_ltb a b = ltb (biased a) (biased b)

abbrev pub signed_leb : ℕ → ℕ → Bool
signed_leb a b = leb (biased a) (biased b)

-- The pattern of -1.
abbrev pub minus_one : ℕ
minus_one = word_mod - 1
