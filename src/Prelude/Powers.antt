-- ===== src/Prelude/Powers.antt =====
-- Powers of a fixed base.
use native.Mathlib.Nat.{pow-zero, pow-suc, pow-le-pow_right}
use binapi.Prelude.{ℕ, zero, suc, ◌+◌, ◌*◌, ◌^◌, ◌≤◌, ◌<◌, ◌≡◌, ◌∙◌, ap, arith}

pub pow-add : (b m n : ℕ) → b ^ (m + n) ≡ b ^ m * b ^ n
pow-add b zero n =
    ap (λ (t : ℕ). b ^ t) {x = 0 + n} {y = n} (omega arith)
    ∙ omega (arith, ap (λ (t : ℕ). t * b ^ n) (pow-zero b))
pow-add b (suc m) n =
    ap (λ (t : ℕ). b ^ t) {x = suc m + n} {y = suc (m + n)} (omega arith)
    ∙ pow-suc b (m + n)
    ∙ omega (arith, ap (λ (t : ℕ). t * b) (pow-add b m n), ap (λ (t : ℕ). t * b ^ n) (pow-suc b m))

pub pow_pos : (b k : ℕ) → 0 < b → 0 < b ^ k
pow_pos b zero h = omega (arith, pow-zero b)
pow_pos b (suc k) h = grind (arith, pow-suc b k, pow_pos b k h)

pub pow_mono : (b : ℕ) {j k : ℕ} → 0 < b → j ≤ k → b ^ j ≤ b ^ k
pow_mono b h k = pow-le-pow_right {n = b} h k
