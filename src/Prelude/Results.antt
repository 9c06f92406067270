-- ===== src/Prelude/Results.antt =====
-- Rust's `Result`, with the `?` operator as the bind of a `do` block.
use mathlib.Core.Path.{◌≡◌, refl}

pub data Result {ε α} (E : Type ε) (A : Type α) : Type (ε ⊔ α) where
  err : E → Result E A
  ok : A → Result E A

infixl 5 ◌>>=◌
abbrev pub ◌>>=◌ {ε α β} :
    {E : Type ε} {A : Type α} {B : Type β} (first : Result E A) (next : A → Result E B) → Result E B
err reason >>= next = err reason
ok x >>= next = next x

infixl 5 ◌>>◌
abbrev pub ◌>>◌ {ε β} :
    {E : Type ε} {B : Type β} (first : Result E (Unit {0})) (next : Result E B) → Result E B
first >> next = first >>= λ done. next

-- A chain that ends well has a first step that ended well.
pub >>=-ok {ε α β} :
    {E : Type ε} {A : Type α} {B : Type β} (first : Result E A) (next : A → Result E B) {y : B}
    → (first >>= next) ≡ ok y
    → (x : A) × (first ≡ ok x) × (next x ≡ ok y)
>>=-ok (err reason) next h = cc
>>=-ok (ok x) next h = (x, refl, h)
