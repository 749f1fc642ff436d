-- ===== src/Base/Word.antt =====
-- Go's uint64 arithmetic, the casts to narrower words, and what package math/bits computes.
use golinux.Base.{ℕ, ◌+◌, ◌-◌, ◌*◌, ◌/◌, ◌%◌, ◌^◌, ltb, if◌then◌else◌}
use golinux.Base.Int.{ℤ, pos, negsuc}

abbrev pub u8 : ℕ → ℕ
u8 n = n % 2 ^ 8

abbrev pub u16 : ℕ → ℕ
u16 n = n % 2 ^ 16

abbrev pub u32 : ℕ → ℕ
u32 n = n % 2 ^ 32

abbrev pub u64 : ℕ → ℕ
u64 n = n % 2 ^ 64

infixl 65 ◌+w◌ ◌-w◌
abbrev pub ◌+w◌ : ℕ → ℕ → ℕ
a +w b = (a + b) % 2 ^ 64

-- The modulus is added first, since `-` stops at 0; `b` is a word.
abbrev pub ◌-w◌ : ℕ → ℕ → ℕ
a -w b = (a + 2 ^ 64 - b) % 2 ^ 64

infixl 70 ◌*w◌
abbrev pub ◌*w◌ : ℕ → ℕ → ℕ
a *w b = a * b % 2 ^ 64

infixl 75 ◌<<w◌ ◌>>w◌
abbrev pub ◌<<w◌ : ℕ → ℕ → ℕ
a <<w k = a * 2 ^ k % 2 ^ 64

abbrev pub ◌>>w◌ : ℕ → ℕ → ℕ
a >>w k = a / 2 ^ k

-- ^a
abbrev pub not_word : ℕ → ℕ
not_word a = 2 ^ 64 - 1 - a

-- The integer that the lowest `n` bits of a word stand for in two's complement.
abbrev pub signed : ℕ → ℕ → ℤ
signed n a =
    let low = a % 2 ^ n in if ltb low (2 ^ (n - 1)) then pos low else negsuc (2 ^ n - 1 - low)

-- The bit pattern of an integer, as the conversion uint64(x) gives it.
abbrev pub to_word : ℤ → ℕ
to_word (pos n) = n % 2 ^ 64
to_word (negsuc n) = 2 ^ 64 - 1 - n % 2 ^ 64
