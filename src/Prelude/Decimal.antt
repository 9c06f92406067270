-- ===== src/Prelude/Decimal.antt =====
-- Numbers as decimal texts, as Rust's `Display` prints them.
use Prim.Native.Nat.{ℕ, zero, suc, ◌+◌, ◌-◌, ◌/◌, ◌%◌, ◌*◌, ◌^◌, ◌<◌}
use mathlib.Core.Path.{◌≡◌, refl, ap, ◌∙◌}
use mathlib.Core.Bool.{Bool, true, false}
use mathlib.Core.List.{[], ◌∷◌, ◌++◌}
use native.Mathlib.Omega.{arith}
use jefferies.Prelude.Bools.{ltb, if◌then◌else◌}
use jefferies.Prelude.Keys.{Str}
use jefferies.Prelude.Text.{bytes}

-- The digits in front of `rest`, on fuel that exceeds the number.
unfoldable pub digits : ℕ → ℕ → Str → Str
digits zero n rest = rest
digits (suc fuel) n rest =
    let here = (b'0' + n % 10) ∷ rest in
    let more = digits fuel (n / 10) here in if ltb n 10 then here else more

unfoldable pub show_nat : ℕ → Str
unfolding digits
show_nat n = digits (suc n) n []

-- An `i32`, given as its bit pattern.
unfoldable pub show_i32 : ℕ → Str
unfolding show_nat
show_i32 n = if ltb n (2 ^ 31) then show_nat n else bytes "-" ++ show_nat (2 ^ 32 - n)

-- The number that a text of digits continues.
abbrev value : ℕ → Str → ℕ
value n [] = n
value n (c ∷ s) = value (10 * n + (c - b'0')) s

picked :
    (b : Bool) (x y : Str) (n : ℕ)
    → (b ≡ true → value 0 x ≡ n)
    → (b ≡ false → value 0 y ≡ n)
    → value 0 (if b then x else y) ≡ n
picked true x y n f g = f refl
picked false x y n f g = g refl

value-digits : (fuel n : ℕ) (rest : Str) → n < fuel → value 0 (digits fuel n rest) ≡ value n rest
unfolding digits
value-digits zero n rest h = omega arith
value-digits (suc fuel) n rest h =
    picked (ltb n 10) _ _ _ (λ small. ap (λ k. value k rest) (ground arith))
      (λ large.
        value-digits fuel (n / 10) ((b'0' + n % 10) ∷ rest) (ground arith)
        ∙ ap (λ k. value k rest) (ground arith))

-- The fuel is enough: the digits of a number are read back as the number.
value-show_nat : (n : ℕ) → value 0 (show_nat n) ≡ n
unfolding show_nat
value-show_nat n = value-digits (suc n) n [] (omega arith)
