-- ===== src/Prelude/Digits.antt =====
-- A number written in decimal is no empty text.
use Prim.Native.String.{len}
use text.Mathlib.TextPositions.{len-append}
use Prim.Native.Nat.{ℕ, zero, suc, ◌%◌, ◌/◌, ◌<◌, ◌≤◌}
use mathlib.Core.Path.{◌≡◌, ap, refl}
use mathlib.Core.Logic.{◌≢◌}
use native.Mathlib.Omega.{arith}
use chaosplane.Prelude.Int.{pos}
use chaosplane.Prelude.Text.{itoa_ℤ, itoa, digits_of, digit}

len-digit : (d : ℕ) → d < 10 → len (digit d) ≡ 1
unfolding digit
len-digit zero h = refl
len-digit (suc zero) h = refl
len-digit (suc (suc zero)) h = refl
len-digit (suc (suc (suc zero))) h = refl
len-digit (suc (suc (suc (suc zero)))) h = refl
len-digit (suc (suc (suc (suc (suc zero))))) h = refl
len-digit (suc (suc (suc (suc (suc (suc zero)))))) h = refl
len-digit (suc (suc (suc (suc (suc (suc (suc zero))))))) h = refl
len-digit (suc (suc (suc (suc (suc (suc (suc (suc zero)))))))) h = refl
len-digit (suc (suc (suc (suc (suc (suc (suc (suc (suc zero))))))))) h = refl
len-digit (suc (suc (suc (suc (suc (suc (suc (suc (suc (suc d)))))))))) h = omega arith

len-digits_of : (fuel n : ℕ) → 1 ≤ len (digits_of (suc fuel) n)
unfolding digits_of
len-digits_of fuel n =
    ground (
      arith,
      len-digit n,
      len-digit (n % 10),
      len-append (digits_of fuel (n / 10)) (digit (n % 10)),
    )

pub itoa-nonempty : (n : ℕ) → itoa_ℤ (pos n) ≢ ""
unfolding itoa_ℤ itoa
itoa-nonempty n e =
    let l : len (digits_of (suc n) n) ≡ 0 = ap len e in omega (arith, l, len-digits_of n n)
