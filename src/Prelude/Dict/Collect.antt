-- ===== src/Prelude/Dict/Collect.antt =====
-- Lemmas on hash maps that are collected from entries.
use mathlib.Core.Path.{◌≡◌, refl, subst}
use mathlib.Core.Bool.{false, ◌||◌}
use mathlib.Core.List.{List, [], ◌∷◌, ◌++◌, append_assoc, append-nil}
use mathlib.Core.Option.{some}
use mathlib.Core.Logic.{inl, inr}
use native.Mathlib.Omega.{arith}
use jefferies.Prelude.Keys.{Key, ◌==◌}
use jefferies.Prelude.Bools.{Bool-cases}
use jefferies.Prelude.Lists.{All}
use jefferies.Prelude.Dict.{get, contains_key, insert, collect_from, collect, IsMap}
use jefferies.Prelude.Dict.Append.{contains_key-append, insert-absent}
use jefferies.Prelude.Dict.Laws.{contains_key-insert}

module _ {ℓ κ} {K : Type ℓ} {V : Type κ} ⦃e : Key K⦄ where
  contains_key-collect_from :
      (k : K) (m es : List (K × V))
      → contains_key k (collect_from m es) ≡ (contains_key k m || contains_key k es)
  unfolding contains_key collect_from
  contains_key-collect_from k m [] = ground arith
  contains_key-collect_from k m ((j, v) ∷ es) =
      ground (arith, contains_key-collect_from k (insert j v m) es, contains_key-insert j k v m)

  pub contains_key-collect :
      (k : K) (es : List (K × V)) → contains_key k (collect es) ≡ contains_key k es
  unfolding collect contains_key
  contains_key-collect k es = contains_key-collect_from k [] es

  -- No key of the second list stands in the first.
  abbrev Fresh : List (K × V) → List (K × V) → Type 0
  Fresh m [] = Unit
  Fresh m ((k, v) ∷ es) = (contains_key k m ≡ false) × Fresh m es

  Fresh-snoc :
      (j : K) (w : V) (m es : List (K × V))
      → contains_key j es ≡ false
      → Fresh m es
      → Fresh (m ++ (j, w) ∷ []) es
  unfolding contains_key
  Fresh-snoc j w m [] a f = tt
  Fresh-snoc j w m ((k, v) ∷ es) a f = ground (
    arith,
    contains_key-append k m ((j, w) ∷ []),
    e.same_iff j k,
    e.same_iff k j,
    Fresh-snoc j w m es,
  )

  collect_from-append : (m es : List (K × V)) → IsMap es → Fresh m es → collect_from m es ≡ m ++ es
  unfolding collect_from
  collect_from-append m [] h f = rw append-nil
  collect_from-append m ((k, v) ∷ es) h f = rw (insert-absent k v m f.0) (
      rw (collect_from-append (m ++ (k, v) ∷ []) es h.1 (Fresh-snoc k v m es h.0 f.1))
        (rw append_assoc))

  Fresh-nil : (es : List (K × V)) → Fresh [] es
  unfolding contains_key
  Fresh-nil [] = tt
  Fresh-nil ((k, v) ∷ es) = (refl, Fresh-nil es)

  pub collect-IsMap_id : (es : List (K × V)) → IsMap es → collect es ≡ es
  unfolding collect
  collect-IsMap_id es h = collect_from-append [] es h (Fresh-nil es)

  insert-All {ι} :
      (P : K × V → Type ι) (k : K) (v : V) (m : List (K × V))
      → P (k, v)
      → All P m
      → All P (insert k v m)
  unfolding insert
  insert-All P k v [] p h = (p, tt)
  insert-All P k v ((j, w) ∷ m) p h = elim (Bool-cases (j == k)) [
    | inl same ↦ rw same (p, h.1)
    | inr other ↦ rw other (h.0, insert-All P k v m p h.1)
  ]

  collect_from-All {ι} :
      (P : K × V → Type ι) (m es : List (K × V)) → All P m → All P es → All P (collect_from m es)
  unfolding collect_from
  collect_from-All P m [] h g = h
  collect_from-All P m ((k, v) ∷ es) h g =
      collect_from-All P (insert k v m) es (insert-All P k v m g.0 h) g.1

  same_entry : {j k : K} {w v : V} → j ≡ k → w ≡ v → ◌≡◌ {A = K × V} (j, w) (k, v)
  same_entry p q = cc

  get-All {ι} :
      (P : K × V → Type ι) (k : K) {v : V} (m : List (K × V))
      → All P m
      → get k m ≡ some v
      → P (k, v)
  unfolding get
  get-All P k [] h g = cc
  get-All P k {v} ((j, w) ∷ m) h g = elim (Bool-cases (j == k)) [
    | inl same ↦ subst P (same_entry ((e.same_iff j k).0 same) (ground arith)) h.0
    | inr other ↦ get-All P k m h.1 (ground arith)
  ]

  -- What holds of every entry that is collected holds of every entry that is found.
  pub get-collect-All {ι} :
      (P : K × V → Type ι) (k : K) {v : V} (es : List (K × V))
      → All P es
      → get k (collect es) ≡ some v
      → P (k, v)
  unfolding collect
  get-collect-All P k es h g = get-All P k (collect_from [] es) (collect_from-All P [] es tt h) g
