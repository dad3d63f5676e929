-- ===== src/Ssa/Meaning/Bits.antt =====
-- Bitwise operations on numbers of a given width, digit by digit.
use mavros.Prelude.{ℕ, zero, suc, ◌+◌, ◌-◌, ◌*◌, ◌/◌, ◌%◌, ◌^◌, ◌<◌, ◌≡◌, refl, arith}

unfoldable pub bitwise : (ℕ → ℕ → ℕ) → (width a b : ℕ) → ℕ
bitwise digit zero a b = 0
bitwise digit (suc w) a b = digit (a % 2) (b % 2) + 2 * bitwise digit w (a / 2) (b / 2)

abbrev pub and_digit : ℕ → ℕ → ℕ
and_digit x y = x * y

abbrev pub or_digit : ℕ → ℕ → ℕ
or_digit x y = x + y - x * y

abbrev pub xor_digit : ℕ → ℕ → ℕ
xor_digit x y = (x + y) % 2

halves : (a : ℕ) → a ≡ a % 2 + 2 * (a / 2)
halves a = omega arith

pub bitwise_and_zero : (w a : ℕ) → bitwise and_digit w a 0 ≡ 0
unfolding bitwise
bitwise_and_zero zero a = refl
bitwise_and_zero (suc w) a = omega (arith, bitwise_and_zero w (a / 2))

pub bitwise_zero_and : (w b : ℕ) → bitwise and_digit w 0 b ≡ 0
unfolding bitwise
bitwise_zero_and zero b = refl
bitwise_zero_and (suc w) b = omega (arith, bitwise_zero_and w (b / 2))

pub bitwise_or_zero : (w a : ℕ) → a < 2 ^ w → bitwise or_digit w a 0 ≡ a
unfolding bitwise
bitwise_or_zero zero a h = omega arith
bitwise_or_zero (suc w) a h = omega (arith, bitwise_or_zero w (a / 2) (omega arith))

pub bitwise_zero_or : (w b : ℕ) → b < 2 ^ w → bitwise or_digit w 0 b ≡ b
unfolding bitwise
bitwise_zero_or zero b h = omega arith
bitwise_zero_or (suc w) b h = omega (arith, bitwise_zero_or w (b / 2) (omega arith))

pub bitwise_xor_zero : (w a : ℕ) → a < 2 ^ w → bitwise xor_digit w a 0 ≡ a
unfolding bitwise
bitwise_xor_zero zero a h = omega arith
bitwise_xor_zero (suc w) a h = omega (arith, bitwise_xor_zero w (a / 2) (omega arith))

pub bitwise_zero_xor : (w b : ℕ) → b < 2 ^ w → bitwise xor_digit w 0 b ≡ b
unfolding bitwise
bitwise_zero_xor zero b h = omega arith
bitwise_zero_xor (suc w) b h = omega (arith, bitwise_zero_xor w (b / 2) (omega arith))

pub bitwise_xor_self : (w a : ℕ) → bitwise xor_digit w a a ≡ 0
unfolding bitwise
bitwise_xor_self zero a = refl
bitwise_xor_self (suc w) a = omega (arith, bitwise_xor_self w (a / 2))

square : (x : ℕ) → x < 2 → x * x ≡ x
square zero h = refl
square (suc zero) h = refl
square (suc (suc x)) h = absurd (omega arith)

pub bitwise_and_self : (w a : ℕ) → a < 2 ^ w → bitwise and_digit w a a ≡ a
unfolding bitwise
bitwise_and_self zero a h = omega arith
bitwise_and_self (suc w) a h =
    omega (arith, square (a % 2) (omega arith), bitwise_and_self w (a / 2) (omega arith))

pub bitwise_or_self : (w a : ℕ) → a < 2 ^ w → bitwise or_digit w a a ≡ a
unfolding bitwise
bitwise_or_self zero a h = omega arith
bitwise_or_self (suc w) a h =
    omega (arith, square (a % 2) (omega arith), bitwise_or_self w (a / 2) (omega arith))

pub pow_pos : (w : ℕ) → 0 < 2 ^ w
pow_pos zero = omega arith
pow_pos (suc w) = omega (arith, pow_pos w)

mask_digit : (w : ℕ) → (2 ^ suc w - 1) % 2 ≡ 1
mask_digit w = omega (arith, pow_pos w)

mask_half : (w : ℕ) → (2 ^ suc w - 1) / 2 ≡ 2 ^ w - 1
mask_half w = omega (arith, pow_pos w)

pub bitwise_and_mask : (w a : ℕ) → a < 2 ^ w → bitwise and_digit w a (2 ^ w - 1) ≡ a
unfolding bitwise
bitwise_and_mask zero a h = omega arith
bitwise_and_mask (suc w) a h =
    rw (mask_digit w, mask_half w) (omega (arith, bitwise_and_mask w (a / 2) (omega arith)))

pub bitwise_mask_and : (w b : ℕ) → b < 2 ^ w → bitwise and_digit w (2 ^ w - 1) b ≡ b
unfolding bitwise
bitwise_mask_and zero b h = omega arith
bitwise_mask_and (suc w) b h =
    rw (mask_digit w, mask_half w) (omega (arith, bitwise_mask_and w (b / 2) (omega arith)))
