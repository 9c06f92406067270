-- ===== src/Prelude/Dict/Append.antt =====
-- Hash maps that grow at their end: a key that is new goes behind the others.
use mathlib.Core.Path.{◌≡◌, refl, ap, subst}
use mathlib.Core.Bool.{Bool, true, false, ◌||◌}
use mathlib.Core.Option.{some}
use mathlib.Core.List.{List, [], ◌∷◌, ◌++◌, map}
use native.Mathlib.Omega.{arith}
use jefferies.Prelude.Bools.{Bool-cases, if◌then◌else◌}
use mathlib.Core.Logic.{inl, inr}
use jefferies.Prelude.Keys.{Key, ◌==◌, beq_refl, beq_false_sym}
use jefferies.Prelude.Lists.{find, find-cases, find-All, All}
use jefferies.Prelude.Dict.{get, contains_key, insert, IsMap}
use jefferies.Prelude.Dict.Laws.{insert-IsMap}

module _ {ℓ κ} {K : Type ℓ} {V : Type κ} ⦃e : Key K⦄ where
  pub contains_key-append :
      (k : K) (m es : List (K × V))
      → contains_key k (m ++ es) ≡ (contains_key k m || contains_key k es)
  unfolding contains_key
  contains_key-append k [] es = refl
  contains_key-append k ((j, w) ∷ m) es = ground (arith, contains_key-append k m es)

  pub insert-absent :
      (k : K) (v : V) (m : List (K × V))
      → contains_key k m ≡ false
      → insert k v m ≡ m ++ (k, v) ∷ []
  unfolding contains_key insert
  insert-absent k v [] h = refl
  insert-absent k v ((j, w) ∷ m) h = ground (arith, insert-absent k v m)

  pub append_nil : (m : List (K × V)) → m ++ [] ≡ m
  append_nil [] = refl
  append_nil (x ∷ m) = ap (λ r. x ∷ r) (append_nil m)

  pub snoc_append :
      (m : List (K × V)) (x : K × V) (es : List (K × V)) → (m ++ x ∷ []) ++ es ≡ m ++ x ∷ es
  snoc_append [] x es = refl
  snoc_append (y ∷ m) x es = ap (λ r. y ∷ r) (snoc_append m x es)

  pub append_append : (m a b : List (K × V)) → (m ++ a) ++ b ≡ m ++ (a ++ b)
  append_append [] a b = refl
  append_append (y ∷ m) a b = ap (λ r. y ∷ r) (append_append m a b)

  pub append-IsMap_absent :
      (k : K) (v : V) (m es : List (K × V)) → IsMap (m ++ (k, v) ∷ es) → contains_key k m ≡ false
  unfolding contains_key
  append-IsMap_absent k v [] es h = refl
  append-IsMap_absent k v ((j, w) ∷ m) es (fresh, h) =
      let other : (k == j) ≡ false = ground (arith, contains_key-append j m ((k, v) ∷ es)) in
      let below = append-IsMap_absent k v m es h in
      elim (Bool-cases (j == k)) [
        | inl same ↦
            let clash : (k == j) ≡ true =
              subst (λ x. (x == j) ≡ true) ((e.same_iff j k).0 same) (beq_refl j) in
            cc
        | inr differ ↦ ground arith
      ]

  pub append-IsMap_front : (m es : List (K × V)) → IsMap (m ++ es) → IsMap m
  append-IsMap_front [] es h = tt
  append-IsMap_front ((j, w) ∷ m) es (fresh, h) =
      (ground (arith, contains_key-append j m es), append-IsMap_front m es h)

  pub snoc-IsMap :
      (k : K) (v : V) (m : List (K × V))
      → IsMap m
      → contains_key k m ≡ false
      → IsMap (m ++ (k, v) ∷ [])
  snoc-IsMap k v m h absent = subst IsMap (insert-absent k v m absent) (insert-IsMap k v m h)

  -- The entries of the values in a list, each under its own key.
  pub get-map_entry :
      (key : V → K) (k : K) (xs : List V)
      → get k (map (λ x. (key x, x)) xs) ≡ find (λ x. key x == k) xs
  unfolding get
  get-map_entry key k [] = refl
  get-map_entry key k (x ∷ xs) = ground (arith, get-map_entry key k xs)

  pub get-append :
      (k : K) (m es : List (K × V))
      → get k (m ++ es) ≡ (if contains_key k m then get k m else get k es)
  unfolding get contains_key
  get-append k [] es = refl
  get-append k ((j, w) ∷ m) es = ground (arith, get-append k m es)

  absent_key :
      (key : V → K) (k : K) (p : V → Bool) (xs : List V) (x : V)
      → contains_key k (map (λ y. (key y, y)) xs) ≡ false
      → find p xs ≡ some x
      → (key x == k) ≡ false
  unfolding contains_key
  absent_key key k p xs x absent found =
      find-All (λ y. (key y == k) ≡ false) p xs x (all_absent xs absent) found
    where
      all_absent :
          (ys : List V)
          → contains_key k (map (λ y. (key y, y)) ys) ≡ false
          → All (λ y. (key y == k) ≡ false) ys
      all_absent [] h = tt
      all_absent (y ∷ ys) h = (ground arith, all_absent ys (ground arith))

  -- A value that a search finds is the one under its key.
  pub find_again :
      (key : V → K) (p : V → Bool) (xs : List V) (x : V)
      → IsMap (map (λ y. (key y, y)) xs)
      → find p xs ≡ some x
      → find (λ y. key y == key x) xs ≡ some x
  find_again key p [] x h found = cc
  find_again key p (y ∷ ys) x (fresh, h) found = elim (find-cases p y ys x found) [
    | inl (here, same) ↦
        let again : (key y == key x) ≡ true =
          subst (λ z. (key y == key z) ≡ true) same (beq_refl (key y)) in
        rw again (ap some same)
    | inr (later, below) ↦
        rw (beq_false_sym (key x) (key y) (absent_key key (key y) p ys x fresh below))
          (find_again key p ys x h below)
  ]
