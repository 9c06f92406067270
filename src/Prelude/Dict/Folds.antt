-- ===== src/Prelude/Dict/Folds.antt =====
-- Iterations over a hash map (`filter`, `all`, `any`) against its lookups.
use mathlib.Core.Path.{◌≡◌, refl}
use mathlib.Core.Logic.{inl, inr}
use mathlib.Core.Bool.{Bool, true, false}
use mathlib.Core.Option.{Option, none, some}
use mathlib.Core.List.{List, [], ◌∷◌}
use native.Mathlib.Omega.{arith}
use jefferies.Prelude.Bools.{if◌then◌else◌, Bool-cases}
use jefferies.Prelude.Lists.{all, any, filter}
use jefferies.Prelude.Keys.{Key, beq_refl, contains}
use jefferies.Prelude.Dict.{get, contains_key, keys, IsMap}
use jefferies.Prelude.Dict.Laws.{contains_key_of_get}

module _ {ℓ κ} {K : Type ℓ} {V : Type κ} ⦃e : Key K⦄ where
  pub contains-keys-get :
      (k : K) (m : List (K × V)) → contains (keys m) k ≡ (if contains_key k m then true else false)
  unfolding contains contains_key
  contains-keys-get k [] = refl
  contains-keys-get k ((j, v) ∷ m) = ground (arith, contains-keys-get k m)

  abbrev passes : (K × V → Bool) → K → Option V → Bool
  passes p k none = false
  passes p k (some v) = p (k, v)

  pub contains-filter_absent :
      (p : K × V → Bool) (k : K) (m : List (K × V))
      → contains_key k m ≡ false
      → contains (keys (filter p m)) k ≡ false
  unfolding contains contains_key
  contains-filter_absent p k [] h = refl
  contains-filter_absent p k ((j, v) ∷ m) h = ground (arith, contains-filter_absent p k m)

  -- A filtered iteration over a map meets the keys whose entry passes.
  pub contains-filter-keys :
      (p : K × V → Bool) (k : K) (m : List (K × V))
      → IsMap m
      → contains (keys (filter p m)) k ≡ passes p k (get k m)
  unfolding contains contains_key get
  contains-filter-keys p k [] h = refl
  contains-filter-keys p k ((j, v) ∷ m) h =
      ground (arith, e.same_iff j k, contains-filter-keys p k m h.1, contains-filter_absent p k m)

  -- An iteration with `all` or `any` against the lookups.
  pub all-get :
      (p : K × V → Bool) (k : K) {v : V} (m : List (K × V))
      → all p m ≡ true
      → get k m ≡ some v
      → p (k, v) ≡ true
  unfolding get
  all-get p k [] h g = cc
  all-get p k {v} ((j, w) ∷ m) h g = ground (arith, e.same_iff j k, all-get p k {v = v} m)

  pub all_of_get :
      (p : K × V → Bool) (m : List (K × V))
      → IsMap m
      → ((k : K) (v : V) → get k m ≡ some v → p (k, v) ≡ true)
      → all p m ≡ true
  unfolding get
  all_of_get p [] h f = refl
  all_of_get p ((j, w) ∷ m) h f =
      let here : p (j, w) ≡ true = f j w (rw (beq_refl j)) in
      let rest : all p m ≡ true = all_of_get p m h.1 later in rw (here, rest)
    where
      later : (k : K) (v : V) → get k m ≡ some v → p (k, v) ≡ true
      later k v g = ground (arith, f k v, e.same_iff j k, contains_key_of_get k {v = v} m)

  pub any-get :
      (p : K × V → Bool) (k : K) {v : V} (m : List (K × V))
      → any p m ≡ false
      → get k m ≡ some v
      → p (k, v) ≡ false
  unfolding get
  any-get p k [] h g = cc
  any-get p k {v} ((j, w) ∷ m) h g = ground (arith, e.same_iff j k, any-get p k {v = v} m)

  pub any_of_get :
      (p : K × V → Bool) (m : List (K × V))
      → IsMap m
      → any p m ≡ true
      → (k : K) × (v : V) × (get k m ≡ some v) × (p (k, v) ≡ true)
  unfolding get
  any_of_get p [] h a = cc
  any_of_get p ((j, w) ∷ m) h a = elim (Bool-cases (p (j, w))) [
    | inl now ↦ (j, w, rw (beq_refl j), now)
    | inr later ↦
        let (k, v, g, q) = any_of_get p m h.1 (ground arith) in
        (k, v, ground (arith, e.same_iff j k, contains_key_of_get k {v = v} m), q)
  ]
