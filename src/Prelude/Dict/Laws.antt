-- ===== src/Prelude/Dict/Laws.antt =====
-- Lemmas on lookups after the operations of a hash map, and on distinct keys.
use mathlib.Core.Path.{◌≡◌, refl}
use mathlib.Core.Logic.{inl, inr}
use mathlib.Core.Bool.{true, false, ◌||◌}
use mathlib.Core.Option.{none, some}
use mathlib.Core.List.{List, [], ◌∷◌}
use native.Mathlib.Omega.{arith}
use jefferies.Prelude.Bools.{if◌then◌else◌, Bool-cases}
use jefferies.Prelude.Keys.{Key, ◌==◌}
use jefferies.Prelude.Dict.{get, contains_key, insert, remove, collect_from, collect, IsMap}

module _ {ℓ κ} {K : Type ℓ} {V : Type κ} ⦃e : Key K⦄ where
  pub contains_key-get : (k : K) (m : List (K × V)) → contains_key k m ≡ false → get k m ≡ none
  unfolding get contains_key
  contains_key-get k [] h = refl
  contains_key-get k ((j, v) ∷ m) h = ground (arith, contains_key-get k m)

  pub get-insert :
      (k j : K) (v : V) (m : List (K × V))
      → get j (insert k v m) ≡ (if k == j then some v else get j m)
  unfolding get insert
  get-insert k j v [] = refl
  get-insert k j v ((i, w) ∷ m) =
      ground (arith, e.same_iff k j, e.same_iff i k, e.same_iff i j, get-insert k j v m)

  pub get-remove :
      (k j : K) (m : List (K × V)) → get j (remove k m) ≡ (if k == j then none else get j m)
  unfolding get remove
  get-remove k j [] = ground arith
  get-remove k j ((i, w) ∷ m) =
      ground (arith, e.same_iff k j, e.same_iff i k, e.same_iff i j, get-remove k j m)

  pub contains_key-insert :
      (k j : K) (v : V) (m : List (K × V))
      → contains_key j (insert k v m) ≡ (k == j || contains_key j m)
  unfolding contains_key insert
  contains_key-insert k j v [] = refl
  contains_key-insert k j v ((i, w) ∷ m) =
      ground (arith, e.same_iff k j, e.same_iff i k, e.same_iff i j, contains_key-insert k j v m)

  contains_key-remove :
      (k j : K) (m : List (K × V)) → contains_key j m ≡ false → contains_key j (remove k m) ≡ false
  unfolding contains_key remove
  contains_key-remove k j [] h = refl
  contains_key-remove k j ((i, w) ∷ m) h = ground (arith, contains_key-remove k j m)

  pub insert-IsMap : (k : K) (v : V) (m : List (K × V)) → IsMap m → IsMap (insert k v m)
  unfolding contains_key insert
  insert-IsMap k v [] h = (refl, tt)
  insert-IsMap k v ((i, w) ∷ m) h =
      ground
        (arith, e.same_iff i k, e.same_iff k i, insert-IsMap k v m h.1, contains_key-insert k i v m)

  pub remove-IsMap : (k : K) (m : List (K × V)) → IsMap m → IsMap (remove k m)
  unfolding contains_key remove
  remove-IsMap k [] h = tt
  remove-IsMap k ((i, w) ∷ m) h = ground (arith, remove-IsMap k m h.1, contains_key-remove k i m)

  collect_from-IsMap : (m es : List (K × V)) → IsMap m → IsMap (collect_from m es)
  unfolding collect_from
  collect_from-IsMap m [] h = h
  collect_from-IsMap m ((k, v) ∷ es) h = collect_from-IsMap (insert k v m) es (insert-IsMap k v m h)

  pub collect-IsMap : (es : List (K × V)) → IsMap (collect es)
  unfolding collect
  collect-IsMap es = collect_from-IsMap [] es tt

  pub contains_key_of_get :
      (k : K) {v : V} (m : List (K × V)) → get k m ≡ some v → contains_key k m ≡ true
  unfolding get contains_key
  contains_key_of_get k [] g = cc
  contains_key_of_get k {v} ((j, w) ∷ m) g = ground (arith, contains_key_of_get k {v = v} m)

  -- Of a list of entries with distinct keys `collect` looks every entry up.
  get-collect_from :
      (k : K) (m es : List (K × V))
      → IsMap es
      → get k (collect_from m es) ≡ (elim (get k es) [ none ↦ get k m | some v ↦ some v ])
  unfolding get collect_from
  get-collect_from k m [] h = refl
  get-collect_from k m ((j, v) ∷ es) h = ground (
    arith,
    e.same_iff j k,
    get-collect_from k (insert j v m) es h.1,
    get-insert j k v m,
    contains_key-get k es,
  )

  pub get-collect : (k : K) (es : List (K × V)) → IsMap es → get k (collect es) ≡ get k es
  unfolding collect get
  get-collect k es h = ground (arith, get-collect_from k [] es h)

  pub get_of_contains_key :
      (k : K) (m : List (K × V)) → contains_key k m ≡ true → (v : V) × (get k m ≡ some v)
  unfolding get contains_key
  get_of_contains_key k [] h = cc
  get_of_contains_key k ((j, w) ∷ m) h = elim (Bool-cases (j == k)) [
    | inl here ↦ (w, rw here)
    | inr later ↦ let (v, g) = get_of_contains_key k m (ground arith) in (v, rw later g)
  ]
