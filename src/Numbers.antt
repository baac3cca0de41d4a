-- ===== src/Numbers.antt =====
-- The integer helpers of internal/httpapi (product_api.go, runtime_settings.go, tasks.go).
pub mod Bounds
pub mod Gcd
use lillian_backend.Common.{ℤ, pos, Bool, if◌then◌else◌, leb_ℤ, ltb_ℤ}

unfoldable pub max_int : ℤ → ℤ → ℤ
max_int a b = if ltb_ℤ b a then a else b

unfoldable pub positive_or : ℤ → ℤ → ℤ
positive_or value fallback = if ltb_ℤ (pos 0) value then value else fallback

unfoldable pub min_positive : ℤ → ℤ → ℤ → ℤ
unfolding positive_or
min_positive value fallback max =
    let v = positive_or value fallback in if ltb_ℤ max v then max else v

unfoldable pub bounded_int : ℤ → ℤ → ℤ → ℤ → ℤ
bounded_int value min max fallback =
    let v = if leb_ℤ value (pos 0) then fallback else value in
    if ltb_ℤ v min then min else if ltb_ℤ max v then max else v
