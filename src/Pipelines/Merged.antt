-- ===== src/Pipelines/Merged.antt =====
-- The merges of the secrets of a pipeline and a node (pipelines/src/pipeline.rs).
use jefferies.Prelude.{
  Str, str_inst, str_eq, str_eq_iff, ◌≡◌, refl, ◌∙◌, true, false, ◌||◌, Option, none, some, List,
  [], ◌∷◌, ◌++◌, map, contains, get, All, arith, if◌then◌else◌,
}
use jefferies.Pipelines.{FileSecret, FileSecretSpec, file_secret_name, file_secret_path}
use jefferies.Pipelines.Merge.{
  str_lt, btree_insert, btree_add, btree_extend, merge_env_secrets, merge_files_into,
  merge_file_secrets,
}

str_lt_trans : (a b c : Str) → str_lt a b ≡ true → str_lt b c ≡ true → str_lt a c ≡ true
unfolding str_lt
str_lt_trans a b [] h g = cc
str_lt_trans a [] (z ∷ c) h g = cc
str_lt_trans [] (y ∷ b) (z ∷ c) h g = refl
str_lt_trans (x ∷ a) (y ∷ b) (z ∷ c) h g = ground (arith, str_lt_trans a b c)

str_lt_total : (a b : Str) → str_eq a b ≡ false → str_lt a b ≡ false → str_lt b a ≡ true
unfolding str_lt str_eq
str_lt_total [] [] h g = cc
str_lt_total [] (y ∷ b) h g = cc
str_lt_total (x ∷ a) [] h g = refl
str_lt_total (x ∷ a) (y ∷ b) h g = ground (arith, str_lt_total a b)

-- The texts ascend, and none stands twice.
abbrev pub Ascending : List Str → Type 0
Ascending [] = Unit
Ascending (x ∷ xs) = All (λ y. str_lt x y ≡ true) xs × Ascending xs

contains-btree_add :
    (k x : Str) (s : List Str) → contains (btree_add k s) x ≡ (str_eq k x || contains s x)
unfolding btree_add contains
contains-btree_add k x [] = refl
contains-btree_add k x (j ∷ s) = ground (arith, contains-btree_add k x s, str_eq_iff k j)

above-btree_add :
    (x k : Str) (s : List Str)
    → str_lt x k ≡ true
    → All (λ y. str_lt x y ≡ true) s
    → All (λ y. str_lt x y ≡ true) (btree_add k s)
unfolding btree_add
above-btree_add x k [] h a = (h, tt)
above-btree_add x k (j ∷ s) h a = ground (arith, above-btree_add x k s h a.1)

All-above :
    (k j : Str) (s : List Str)
    → str_lt k j ≡ true
    → All (λ y. str_lt j y ≡ true) s
    → All (λ y. str_lt k y ≡ true) s
All-above k j [] h a = tt
All-above k j (y ∷ s) h a = (str_lt_trans k j y h a.0, All-above k j s h a.1)

btree_add-Ascending : (k : Str) (s : List Str) → Ascending s → Ascending (btree_add k s)
unfolding btree_add
btree_add-Ascending k [] a = (tt, tt)
btree_add-Ascending k (j ∷ s) a =
    ground
      (arith, All-above k j s, str_lt_total k j, above-btree_add j k s, btree_add-Ascending k s a.1)

contains-btree_extend :
    (s xs : List Str) (x : Str) → contains (btree_extend s xs) x ≡ (contains s x || contains xs x)
unfolding btree_extend contains
contains-btree_extend s [] x = ground arith
contains-btree_extend s (k ∷ xs) x =
    ground (arith, contains-btree_extend (btree_add k s) xs x, contains-btree_add k x s)

btree_extend-Ascending : (s xs : List Str) → Ascending s → Ascending (btree_extend s xs)
unfolding btree_extend
btree_extend-Ascending s [] a = a
btree_extend-Ascending s (k ∷ xs) a =
    btree_extend-Ascending (btree_add k s) xs (btree_add-Ascending k s a)

-- The environment secrets of a node are those of the pipeline and its own, and their names ascend
-- without repetition.
pub merge_env_secrets_exact :
    (pipeline_env node_env : List Str) (x : Str)
    → (contains (merge_env_secrets pipeline_env node_env) x
        ≡ (contains pipeline_env x || contains node_env x))
      × Ascending (merge_env_secrets pipeline_env node_env)
unfolding merge_env_secrets contains
merge_env_secrets_exact p n x = (
  ground (arith, contains-btree_extend (btree_extend [] p) n x, contains-btree_extend [] p x),
  btree_extend-Ascending (btree_extend [] p) n (btree_extend-Ascending [] p tt),
)

abbrev spec_of : FileSecret → FileSecretSpec
spec_of file = record { name = file_secret_name file; path = file_secret_path file }

abbrev pub or_else : Option FileSecretSpec → Option FileSecretSpec → Option FileSecretSpec
or_else none other = other
or_else (some spec) other = some spec

-- The last file with a name, and the first one in a merged list.
unfoldable pub last_named : Str → List FileSecret → Option FileSecretSpec
last_named n [] = none
last_named n (file ∷ files) =
    or_else (last_named n files)
      (if str_eq (file_secret_name file) n then some (spec_of file) else none)

unfoldable pub find_file : Str → List FileSecretSpec → Option FileSecretSpec
find_file n [] = none
find_file n (spec ∷ specs) = if str_eq spec.name n then some spec else find_file n specs

abbrev KeyedByName : Str × FileSecretSpec → Type 0
KeyedByName e = e.1.name ≡ e.0

get-btree_insert :
    (k n : Str) (v : FileSecretSpec) (m : List (Str × FileSecretSpec))
    → get n (btree_insert k v m) ≡ (if str_eq k n then some v else get n m)
unfolding btree_insert get
get-btree_insert k n v [] = refl
get-btree_insert k n v ((j, w) ∷ m) =
    ground (arith, get-btree_insert k n v m, str_eq_iff k j, str_eq_iff k n, str_eq_iff j n)

get-merge_files_into :
    (m : List (Str × FileSecretSpec)) (files : List FileSecret) (n : Str)
    → get n (merge_files_into m files) ≡ or_else (last_named n files) (get n m)
unfolding merge_files_into last_named
get-merge_files_into m [] n = refl
get-merge_files_into m (file ∷ files) n = ground (
  arith,
  get-merge_files_into (btree_insert (file_secret_name file) (spec_of file) m) files n,
  get-btree_insert (file_secret_name file) n (spec_of file) m,
)

btree_insert-Keyed :
    (v : FileSecretSpec) (m : List (Str × FileSecretSpec))
    → All KeyedByName m
    → All KeyedByName (btree_insert v.name v m)
unfolding btree_insert
btree_insert-Keyed v [] h = (refl, tt)
btree_insert-Keyed v ((j, w) ∷ m) h = ground (arith, btree_insert-Keyed v m h.1)

merge_files_into-Keyed :
    (m : List (Str × FileSecretSpec)) (files : List FileSecret)
    → All KeyedByName m
    → All KeyedByName (merge_files_into m files)
unfolding merge_files_into
merge_files_into-Keyed m [] h = h
merge_files_into-Keyed m (file ∷ files) h =
    merge_files_into-Keyed (btree_insert (file_secret_name file) (spec_of file) m) files
      (btree_insert-Keyed (spec_of file) m h)

find_file-map :
    (n : Str) (m : List (Str × FileSecretSpec))
    → All KeyedByName m
    → find_file n (map (λ e. e.1) m) ≡ get n m
unfolding find_file get
find_file-map n [] h = refl
find_file-map n ((j, w) ∷ m) h = ground (arith, find_file-map n m h.1)

last_named-append :
    (n : Str) (xs ys : List FileSecret)
    → last_named n (xs ++ ys) ≡ or_else (last_named n ys) (last_named n xs)
unfolding last_named
last_named-append n [] ys = ground arith
last_named-append n (x ∷ xs) ys = ground (arith, last_named-append n xs ys)

-- Under each name the merged files have the last file of the node with that name, and where the node
-- has none the last one of the pipeline.
pub find_file-merge_file_secrets :
    (pipeline_files node_files : List FileSecret) (n : Str)
    → find_file n (merge_file_secrets pipeline_files node_files)
      ≡ or_else (last_named n node_files) (last_named n pipeline_files)
unfolding merge_file_secrets get
find_file-merge_file_secrets p q n =
    find_file-map n (merge_files_into [] (p ++ q)) (merge_files_into-Keyed [] (p ++ q) tt)
    ∙ get-merge_files_into [] (p ++ q) n
    ∙ ground (arith, last_named-append n p q)
