-- ===== src/Prelude/Keys.antt =====
-- Equality of keys as an interface, and its instances: numbers and texts.
use Prim.Native.Nat.{ℕ}
use mathlib.Core.Path.{◌≡◌, refl, ap, subst}
use mathlib.Core.Logic.{◌↔◌, inl, inr}
use mathlib.Core.Bool.{Bool, true, false, ◌&&◌, ◌||◌}
use mathlib.Core.List.{List, [], ◌∷◌}
use native.Mathlib.Omega.{arith}
use jefferies.Prelude.Bools.{nat_beq, nat_beq_iff, Bool-cases}

-- A type of keys has a Boolean test that decides equality.
pub record Key {α} (K : Type α) : Type α where
  pub same : (x y : K) → Bool
  pub same_iff : (x y : K) → (same x y ≡ true) ↔ (x ≡ y)

infix 50 ◌==◌
abbrev pub ◌==◌ {α} : {K : Type α} ⦃key : Key K⦄ (x y : K) → Bool
◌==◌ ⦃key⦄ x y = key.same x y

-- The bytes of a text.
abbrev pub Str : Type 0
Str = List ℕ

unfoldable pub str_eq : Str → Str → Bool
str_eq [] [] = true
str_eq (x ∷ xs) (y ∷ ys) = nat_beq x y && str_eq xs ys
str_eq _ _ = false

pub str_eq_iff : (a b : Str) → (str_eq a b ≡ true) ↔ (a ≡ b)
unfolding str_eq
str_eq_iff [] [] = (λ _. refl, λ _. refl)
str_eq_iff [] (y ∷ ys) = (λ h. cc, λ h. cc)
str_eq_iff (x ∷ xs) [] = (λ h. cc, λ h. cc)
str_eq_iff (x ∷ xs) (y ∷ ys) =
    (λ h. ground (arith, str_eq_iff xs ys), λ h. ground (arith, str_eq_iff xs ys))

pub str_eq_refl : (a : Str) → str_eq a a ≡ true
str_eq_refl a = (str_eq_iff a a).1 refl

instance abbrev pub nat_eq : Key ℕ
nat_eq = record { same = nat_beq; same_iff = nat_beq_iff }

instance abbrev pub str_inst : Key Str
str_inst = record { same = str_eq; same_iff = str_eq_iff }

-- Pairs of keys, as `HashMap<(A, B), _>` compares them.
module _ {α β} {A : Type α} {B : Type β} ⦃a : Key A⦄ ⦃b : Key B⦄ where
  abbrev pub same_pair : A × B → A × B → Bool
  same_pair x y = x.0 == y.0 && x.1 == y.1

  pub same_pair_iff : (x y : A × B) → (same_pair x y ≡ true) ↔ (x ≡ y)
  same_pair_iff (x, u) (y, v) = (
    λ h.
        let first : x ≡ y = (a.same_iff x y).0 (ground arith) in
        let second : u ≡ v = (b.same_iff u v).0 (ground arith) in cc,
    λ h.
        let first = (a.same_iff x y).1 (ap (λ p. p.0) h) in
        let second = (b.same_iff u v).1 (ap (λ p. p.1) h) in ground arith,
  )

  instance abbrev pub pair_inst : Key (A × B)
  pair_inst = record { same = same_pair; same_iff = same_pair_iff }

module _ {ℓ} {K : Type ℓ} ⦃e : Key K⦄ where
  pub beq_refl : (k : K) → (k == k) ≡ true
  beq_refl k = (e.same_iff k k).1 refl

  pub beq_false_sym : (k j : K) → (k == j) ≡ false → (j == k) ≡ false
  beq_false_sym k j h = elim (Bool-cases (j == k)) [
    | inl same ↦
        let clash : (k == k) ≡ false = subst (λ x. (k == x) ≡ false) ((e.same_iff j k).0 same) h in
        let fine = beq_refl k in cc
    | inr differ ↦ differ
  ]

  unfoldable pub contains : List K → K → Bool
  contains [] k = false
  contains (x ∷ xs) k = x == k || contains xs k
