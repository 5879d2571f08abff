-- ===== src/Int64.antt =====
-- Go's int64: integers over the native numbers, with the wrap-around of every operation written
-- out, and division that rounds towards zero and panics at zero.
pub mod Laws
use classicswarm.Prelude.{
  ℕ, suc, ◌+◌, ◌-◌, ◌*◌, ◌/◌, ◌%◌, ◌^◌, ◌≤◌, ◌<◌, Bool, Option, none, some, ltb, leb, ◌==◌,
  if◌then◌else◌,
}

-- `negsuc n` is -(n + 1).
pub data ℤ : Type 0 where
  pos : ℕ → ℤ
  negsuc : ℕ → ℤ

abbrev pub pos_part : ℤ → ℕ
pos_part (pos n) = n
pos_part (negsuc n) = 0

abbrev pub neg_part : ℤ → ℕ
neg_part (pos n) = 0
neg_part (negsuc n) = suc n

-- a - b, as an integer.
abbrev pub sub_ℕ : ℕ → ℕ → ℤ
sub_ℕ a b = if leb b a then pos (a - b) else negsuc (b - a - 1)

-- The value of an int64 from its 64 bits.
unfoldable pub of_bits : ℕ → ℤ
of_bits r = if ltb r 9223372036854775808 then pos r else negsuc (18446744073709551615 - r)

-- What is stored of an exact result.
unfoldable pub wrap : ℤ → ℤ
unfolding of_bits
wrap (pos n) = of_bits (n % 18446744073709551616)
wrap (negsuc n) = of_bits (18446744073709551615 - n % 18446744073709551616)

-- The exact sum and product.
unfoldable pub plus : ℤ → ℤ → ℤ
plus a b = sub_ℕ (pos_part a + pos_part b) (neg_part a + neg_part b)

unfoldable pub times : ℤ → ℤ → ℤ
times a b =
    sub_ℕ (pos_part a * pos_part b + neg_part a * neg_part b)
      (pos_part a * neg_part b + neg_part a * pos_part b)

infixl 65 ◌+ℤ◌ ◌-ℤ◌
infixl 70 ◌*ℤ◌
unfoldable pub ◌+ℤ◌ : ℤ → ℤ → ℤ
unfolding wrap plus
a +ℤ b = wrap (plus a b)

unfoldable pub ◌*ℤ◌ : ℤ → ℤ → ℤ
unfolding wrap times
a *ℤ b = wrap (times a b)

unfoldable pub ◌-ℤ◌ : ℤ → ℤ → ℤ
unfolding wrap
a -ℤ b = wrap (sub_ℕ (pos_part a + neg_part b) (neg_part a + pos_part b))

-- The quotient of two magnitudes under a sign.
abbrev pub negated : ℕ → ℤ
negated n = sub_ℕ 0 n

-- `a / b`: `none` is the panic of a division by zero.
unfoldable pub quot : ℤ → ℤ → Option ℤ
unfolding wrap
quot (pos a) (pos b) = if b == 0 then none else some (pos (a / b))
quot (pos a) (negsuc b) = some (negated (a / suc b))
quot (negsuc a) (pos b) = if b == 0 then none else some (negated (suc a / b))
quot (negsuc a) (negsuc b) = some (wrap (pos (suc a / suc b)))

infix 50 ◌≤ℤ◌ ◌<ℤ◌
abbrev pub ◌≤ℤ◌ : ℤ → ℤ → Type 0
a ≤ℤ b = pos_part a + neg_part b ≤ pos_part b + neg_part a

abbrev pub ◌<ℤ◌ : ℤ → ℤ → Type 0
a <ℤ b = pos_part a + neg_part b < pos_part b + neg_part a

abbrev pub ltb_ℤ : ℤ → ℤ → Bool
ltb_ℤ a b = ltb (pos_part a + neg_part b) (pos_part b + neg_part a)

abbrev pub leb_ℤ : ℤ → ℤ → Bool
leb_ℤ a b = leb (pos_part a + neg_part b) (pos_part b + neg_part a)

abbrev pub eqb_ℤ : ℤ → ℤ → Bool
eqb_ℤ a b = (pos_part a + neg_part b) == (pos_part b + neg_part a)
