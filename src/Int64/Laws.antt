-- ===== src/Int64/Laws.antt =====
-- Where nothing wraps an int64 operation is the exact one.
use classicswarm.Prelude.{◌+◌, ◌≤◌, ◌<◌, ◌≡◌, arith}
use classicswarm.Int64.{ℤ, pos, negsuc, pos_part, neg_part, wrap, plus}

-- The range of an int64.
abbrev pub InRange : ℤ → Type 0
InRange a = (pos_part a < 9223372036854775808) × (neg_part a ≤ 9223372036854775808)

pub wrap-InRange : (a : ℤ) → InRange (wrap a)
unfolding wrap
wrap-InRange (pos n) = ground arith
wrap-InRange (negsuc n) = ground arith

pub wrap_id : (a : ℤ) → InRange a → wrap a ≡ a
unfolding wrap
wrap_id (pos n) h = ground arith
wrap_id (negsuc n) h = ground arith

pub plus_parts :
    (a b : ℤ)
    → pos_part (plus a b) + neg_part a + neg_part b ≡ neg_part (plus a b) + pos_part a + pos_part b
unfolding plus
plus_parts a b = ground arith
