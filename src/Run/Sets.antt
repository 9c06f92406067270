-- ===== src/Run/Sets.antt =====
-- Lemmas on the hash sets of texts that a run collects from lists (coordinator/src/run.rs).
use mathlib.Core.List.{append_assoc, append-nil}
use jefferies.Prelude.{
  Str, str_inst, ◌≡◌, refl, false, ◌||◌, List, [], ◌∷◌, ◌++◌, contains, arith, if◌then◌else◌,
}
use jefferies.Run.{to_set_from, to_set}

-- No text stands twice.
abbrev pub IsDistinct : List Str → Type 0
IsDistinct [] = Unit
IsDistinct (x ∷ xs) = (contains xs x ≡ false) × IsDistinct xs

contains-append :
    (x : Str) (xs ys : List Str) → contains (xs ++ ys) x ≡ (contains xs x || contains ys x)
unfolding contains
contains-append x [] ys = refl
contains-append x (y ∷ xs) ys = ground (arith, contains-append x xs ys)

IsDistinct-snoc :
    (x : Str) (xs : List Str) → contains xs x ≡ false → IsDistinct xs → IsDistinct (xs ++ x ∷ [])
unfolding contains
IsDistinct-snoc x [] a h = (refl, tt)
IsDistinct-snoc x (y ∷ xs) a h = ground (
  arith,
  contains-append y xs (x ∷ []),
  str_inst.same_iff x y,
  str_inst.same_iff y x,
  IsDistinct-snoc x xs,
)

to_set_from-IsDistinct : (seen xs : List Str) → IsDistinct seen → IsDistinct (to_set_from seen xs)
unfolding to_set_from
to_set_from-IsDistinct seen [] h = h
to_set_from-IsDistinct seen (x ∷ xs) h =
    to_set_from-IsDistinct (if contains seen x then seen else seen ++ x ∷ []) xs
      (ground (arith, IsDistinct-snoc x seen))

pub to_set-IsDistinct : (xs : List Str) → IsDistinct (to_set xs)
unfolding to_set
to_set-IsDistinct xs = to_set_from-IsDistinct [] xs tt

contains-to_set_from :
    (x : Str) (seen xs : List Str)
    → contains (to_set_from seen xs) x ≡ (contains seen x || contains xs x)
unfolding to_set_from contains
contains-to_set_from x seen [] = ground arith
contains-to_set_from x seen (y ∷ xs) = ground (
  arith,
  contains-to_set_from x (if contains seen y then seen else seen ++ y ∷ []) xs,
  contains-append x seen (y ∷ []),
  str_inst.same_iff y x,
)

pub contains-to_set : (x : Str) (xs : List Str) → contains (to_set xs) x ≡ contains xs x
unfolding to_set contains
contains-to_set x xs = contains-to_set_from x [] xs

abbrev Disjoint : List Str → List Str → Type 0
Disjoint seen [] = Unit
Disjoint seen (x ∷ xs) = (contains seen x ≡ false) × Disjoint seen xs

Disjoint-snoc :
    (y : Str) (seen xs : List Str)
    → contains xs y ≡ false
    → Disjoint seen xs
    → Disjoint (seen ++ y ∷ []) xs
unfolding contains
Disjoint-snoc y seen [] a d = tt
Disjoint-snoc y seen (x ∷ xs) a d = ground (
  arith,
  contains-append x seen (y ∷ []),
  str_inst.same_iff x y,
  str_inst.same_iff y x,
  Disjoint-snoc y seen xs,
)

to_set_from-append :
    (seen xs : List Str) → IsDistinct xs → Disjoint seen xs → to_set_from seen xs ≡ seen ++ xs
unfolding to_set_from
to_set_from-append seen [] h d = rw append-nil
to_set_from-append seen (x ∷ xs) h d = rw d.0 (
    rw (to_set_from-append (seen ++ x ∷ []) xs h.1 (Disjoint-snoc x seen xs h.0 d.1))
      (rw append_assoc))

Disjoint-nil : (xs : List Str) → Disjoint [] xs
unfolding contains
Disjoint-nil [] = tt
Disjoint-nil (x ∷ xs) = (refl, Disjoint-nil xs)

pub to_set-IsDistinct_id : (xs : List Str) → IsDistinct xs → to_set xs ≡ xs
unfolding to_set
to_set-IsDistinct_id xs h = to_set_from-append [] xs h (Disjoint-nil xs)
