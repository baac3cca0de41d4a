-- ===== src/Numbers/Bounds.antt =====
-- The ranges that the integer helpers keep their results in.
use lillian_backend.Common.{ℤ, pos, ◌≤ℤ◌, ◌≡◌, arith}
use lillian_backend.Numbers.{max_int, positive_or, min_positive, bounded_int}

-- A bounded integer lies between its bounds whatever the value and the fallback are.
pub bounded_int_bounds :
    (value min max fallback : ℤ)
    → min ≤ℤ max
    → (min ≤ℤ bounded_int value min max fallback) × (bounded_int value min max fallback ≤ℤ max)
unfolding bounded_int
bounded_int_bounds value min max fallback h = ground arith

-- A value that is positive and within the bounds is kept.
pub bounded_int_kept :
    (value min max fallback : ℤ)
    → pos 1 ≤ℤ value
    → min ≤ℤ value
    → value ≤ℤ max
    → bounded_int value min max fallback ≡ value
unfolding bounded_int
bounded_int_kept value min max fallback p h k = ground arith

pub min_positive_bounds :
    (value fallback max : ℤ)
    → pos 1 ≤ℤ fallback
    → pos 1 ≤ℤ max
    → (pos 1 ≤ℤ min_positive value fallback max) × (min_positive value fallback max ≤ℤ max)
unfolding min_positive positive_or
min_positive_bounds value fallback max h k = ground arith

pub max_int_bounds : (a b : ℤ) → (a ≤ℤ max_int a b) × (b ≤ℤ max_int a b)
unfolding max_int
max_int_bounds a b = ground arith
