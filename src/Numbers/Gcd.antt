-- ===== src/Numbers/Gcd.antt =====
-- The loop of gcd (tasks.go), on the sizes of an image, which are positive.
use lillian_backend.Common.{
  ℕ, zero, suc, ◌+◌, ◌-◌, ◌*◌, ◌/◌, ◌%◌, ◌<◌, ◌==◌, ◌≡◌, refl, ap, sym, ◌∙◌, arith, Option, none,
  some, if◌then◌else◌, Bool-cases, inl, inr,
}
use native.Mathlib.Nat.{mul_assoc, mul-add, mul-sub, div-add-mod, mod-eq-sub-mul-div}

-- Each round of the loop takes one unit of fuel; none where it runs out.
unfoldable pub gcd_loop : ℕ → ℕ → ℕ → Option ℕ
gcd_loop zero a b = none
gcd_loop (suc fuel) a b = let rest = gcd_loop fuel b (a % b) in if b == 0 then some a else rest

-- b + 1 rounds are enough.
unfoldable pub gcd : ℕ → ℕ → Option ℕ
unfolding gcd_loop
gcd a b = gcd_loop (suc b) a b

abbrev pub Divides : ℕ → ℕ → Type 0
Divides d n = (k : ℕ) × (n ≡ d * k)

-- A common divisor that every common divisor divides.
pub record IsGreatest (a b g : ℕ) : Type 0 where
  pub left : Divides g a
  pub right : Divides g b
  pub greatest : (d : ℕ) → Divides d a → Divides d b → Divides d g

factor_difference : (d x y q a b : ℕ) → a ≡ d * x → b ≡ d * y → a - b * q ≡ d * (x - y * q)
factor_difference d x y q a b e f =
    rw (e, f) (ap (λ t. d * x - t) (mul_assoc d y q) ∙ sym (mul-sub d x (y * q)))

factor_sum : (d x y q b r : ℕ) → b ≡ d * x → r ≡ d * y → b * q + r ≡ d * (x * q + y)
factor_sum d x y q b r e f =
    rw (e, f) (ap (λ t. t + d * y) (mul_assoc d x q) ∙ sym (mul-add d (x * q) y))

rest-Divides : (d a b : ℕ) → Divides d a → Divides d b → Divides d (a % b)
rest-Divides d a b (x, p) (y, q) =
    (x - y * (a / b), mod-eq-sub-mul-div a b ∙ factor_difference d x y (a / b) a b p q)

whole-Divides : (d a b : ℕ) → Divides d b → Divides d (a % b) → Divides d a
whole-Divides d a b (x, p) (y, q) =
    (x * (a / b) + y, sym (div-add-mod a b) ∙ factor_sum d x y (a / b) b (a % b) p q)

step : (a b g : ℕ) → IsGreatest b (a % b) g → IsGreatest a b g
step a b g h = record {
  left = whole-Divides g a b h.left h.right;
  right = h.left;
  greatest = λ d p q. h.greatest d q (rest-Divides d a b p q);
}

gcd_loop_runs :
    (fuel a b : ℕ) → b < fuel → (g : ℕ) × (gcd_loop fuel a b ≡ some g) × IsGreatest a b g
unfolding gcd_loop
gcd_loop_runs zero a b h = absurd (omega arith)
gcd_loop_runs (suc fuel) a b h = elim (Bool-cases (b == 0)) [
  | inl done ↦ (
    a,
    rw done refl,
    record { left = (1, grind arith); right = (0, grind arith); greatest = λ d p q. p },
  )
  | inr more ↦
      let (g, e, is) = gcd_loop_runs fuel b (a % b) (grind arith) in (g, rw more e, step a b g is)
]

-- The loop ends, and with the greatest common divisor: gcd returns for all a and b a number that
-- divides both and that every number which divides both divides.
pub gcd_runs : (a b : ℕ) → (g : ℕ) × (gcd a b ≡ some g) × IsGreatest a b g
unfolding gcd
gcd_runs a b = gcd_loop_runs (suc b) a b (omega arith)
