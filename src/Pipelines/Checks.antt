-- ===== src/Pipelines/Checks.antt =====
-- What each check of a document leaves standing (pipelines/src/pipeline.rs).
use jefferies.Prelude.{
  Str, str_inst, str_eq, str_eq_iff, ◌≡◌, ◌∙◌, refl, Bool, true, false, not, ◌||◌, Option, none,
  some, List, [], ◌∷◌, map, any, bytes, starts_with, contains, All, arith, Bool-cases, inl, inr,
  subst, is_empty, Result, ok, err, >>=-ok, if◌then◌else◌,
}
use jefferies.Pipelines.{Pipeline, PipelineNode}
use jefferies.Pipelines.Names.{
  is_valid_dns1123_label, is_reserved_path, secret_name_violation, SecretReason,
}
use jefferies.Pipelines.Quantity.{is_valid_quantity}
use jefferies.Pipelines.Merge.{merge_env_secrets}
use jefferies.Pipelines.Merged.{merge_env_secrets_exact}
use jefferies.Pipelines.Validate.{
  PipelineError, for_each, check_dependency, check_quantity, check_volume, check_volumes,
  no_violation, reserved_volume_names, reserved_mount_paths, validate_dependencies,
  validate_steps_present, validate_quantities, validate_volumes, validate_secrets,
}
use jefferies.Run.Sets.{IsDistinct}

pub for_each-All {ℓ} :
    {A : Type ℓ} (body : A → Result PipelineError (Unit {0})) (xs : List A)
    → for_each body xs ≡ ok tt
    → All (λ x. body x ≡ ok tt) xs
unfolding for_each
for_each-All body [] h = tt
for_each-All body (x ∷ xs) h =
    let (a, first, rest) = >>=-ok (body x) _ h in (first, for_each-All body xs rest)

-- A dependency is another node of the pipeline.
abbrev pub DependsOnNodes : Pipeline → PipelineNode → Type 0
DependsOnNodes p node =
    (d : Str)
    → contains node.after d ≡ true
    → (str_eq d node.name ≡ false) × (contains (map (λ n. n.name) p.nodes) d ≡ true)

check_dependency-ok :
    (names : List Str) (name d : Str)
    → check_dependency names name d ≡ ok tt
    → (str_eq d name ≡ false) × (contains names d ≡ true)
unfolding check_dependency
check_dependency-ok names name d h = (ground arith, ground arith)

pub All-map {ℓ κ ι} :
    {A : Type ℓ} {P : A → Type κ} {Q : A → Type ι}
    → ((x : A) → P x → Q x)
    → (xs : List A) → All P xs
    → All Q xs
All-map f [] h = tt
All-map f (x ∷ xs) h = (f x h.0, All-map f xs h.1)

pub All-contains :
    (P : Str → Type 0) (xs : List Str) → All P xs → (d : Str) → contains xs d ≡ true → P d
unfolding contains
All-contains P [] a d c = cc
All-contains P (x ∷ xs) a d c = elim (Bool-cases (str_eq x d)) [
  | inl e ↦ subst P ((str_eq_iff x d).0 e) a.0
  | inr e ↦ All-contains P xs a.1 d (ground arith)
]

pub dependencies-All :
    (p : Pipeline) → validate_dependencies p ≡ ok tt → All (DependsOnNodes p) p.nodes
unfolding validate_dependencies
dependencies-All p h =
    All-map
      (λ node accepted d c.
        check_dependency-ok (map (λ n. n.name) p.nodes) node.name d
          (All-contains _ node.after (for_each-All _ node.after accepted) d c))
      p.nodes (for_each-All _ p.nodes h)

pub steps-All :
    (p : Pipeline)
    → validate_steps_present p ≡ ok tt
    → All (λ node. is_empty node.steps ≡ false) p.nodes
unfolding validate_steps_present
steps-All p h = All-map (λ node accepted. ground arith) p.nodes (for_each-All _ p.nodes h)

-- A size that is given is a quantity.
abbrev pub ValidQuantity : Option Str → Type 0
ValidQuantity size = (v : Str) → size ≡ some v → is_valid_quantity v ≡ true

check_quantity-ok :
    (node field : Str) (size : Option Str)
    → check_quantity node (field, size) ≡ ok tt
    → ValidQuantity size
unfolding check_quantity
check_quantity-ok node field none h v e = cc
check_quantity-ok node field (some w) h v e = ground arith

sizes-ok :
    (node : PipelineNode)
    → for_each (check_quantity node.name) (
        (bytes "cpu", node.cpu)
        ∷ (bytes "memory", node.memory)
        ∷ (bytes "cache_size", node.cache_size)
        ∷ [])
      ≡ ok tt
    → ValidQuantity node.cpu × ValidQuantity node.memory × ValidQuantity node.cache_size
sizes-ok node h =
    let (cpu, (memory, (cache_size, _))) =
      for_each-All (check_quantity node.name)
        ((bytes "cpu", node.cpu)
          ∷ (bytes "memory", node.memory)
          ∷ (bytes "cache_size", node.cache_size)
          ∷ [])
        h in
    (
      check_quantity-ok node.name (bytes "cpu") node.cpu cpu,
      check_quantity-ok node.name (bytes "memory") node.memory memory,
      check_quantity-ok node.name (bytes "cache_size") node.cache_size cache_size,
    )

pub quantities-All :
    (p : Pipeline)
    → validate_quantities p ≡ ok tt
    → All
        (λ node. ValidQuantity node.cpu × ValidQuantity node.memory × ValidQuantity node.cache_size)
        p.nodes
unfolding validate_quantities
quantities-All p h =
    All-map (λ node accepted. sizes-ok node accepted) p.nodes (for_each-All _ p.nodes h)

-- A volume has a label as its name and a path that overlaps no reserved mount.
abbrev pub Mountable : Str × Str → Type 0
Mountable v =
    (is_valid_dns1123_label v.0 ≡ true)
    × (contains reserved_volume_names v.0 ≡ false)
    × (starts_with v.1 (bytes "/") ≡ true)
    × (any (is_reserved_path v.1) reserved_mount_paths ≡ false)

abbrev pub paths : List (Str × Str) → List Str
paths = map (λ v. v.1)

five_tests :
    (label reserved absolute overlaps taken : Bool) (v w x y z : PipelineError)
    → ◌≡◌ {A = Result PipelineError (Unit {0})}
        (if not label
          then err v
          else if reserved
          then err w
          else if not absolute
          then err x
          else if overlaps
          then err y
          else if taken
          then err z
          else ok tt)
        (ok tt)
    → (label ≡ true) × (reserved ≡ false) × (absolute ≡ true) × (overlaps ≡ false) × (taken ≡ false)
five_tests true false true false false v w x y z h = (refl, refl, refl, refl, refl)
five_tests false _ _ _ _ v w x y z h = cc
five_tests true true _ _ _ v w x y z h = cc
five_tests true false false _ _ v w x y z h = cc
five_tests true false true true _ v w x y z h = cc
five_tests true false true false true v w x y z h = cc

check_volume-ok :
    (seen : List Str) (node name path : Str)
    → check_volume seen node name path ≡ ok tt
    → Mountable (name, path) × (contains seen path ≡ false)
unfolding check_volume
check_volume-ok seen node name path h =
    let (label, free, absolute, apart, fresh) =
      five_tests (is_valid_dns1123_label name) (contains reserved_volume_names name)
        (starts_with path (bytes "/")) (any (is_reserved_path path) reserved_mount_paths)
        (contains seen path) _ _ _ _ _ h in
    ((label, free, absolute, apart), fresh)

unseen :
    (path : Str) (seen : List Str) (vs : List (Str × Str))
    → All (λ v. contains (path ∷ seen) v.1 ≡ false) vs
    → (contains (paths vs) path ≡ false) × All (λ v. contains seen v.1 ≡ false) vs
unfolding contains
unseen path seen [] h = (refl, tt)
unseen path seen (v ∷ vs) h =
    let (fresh, rest) = unseen path seen vs h.1 in
    (ground (arith, str_eq_iff path v.1, str_eq_iff v.1 path), (ground arith, rest))

check_volumes-ok :
    (seen : List Str) (node : Str) (vs : List (Str × Str))
    → check_volumes seen node vs ≡ ok tt
    → All Mountable vs × All (λ v. contains seen v.1 ≡ false) vs × IsDistinct (paths vs)
unfolding check_volumes
check_volumes-ok seen node [] h = (tt, tt, tt)
check_volumes-ok seen node ((name, path) ∷ vs) h =
    let (_, first, rest) = >>=-ok (check_volume seen node name path) _ h in
    let (mountable, fresh) = check_volume-ok seen node name path first in
    let (all_mountable, all_fresh, distinct) = check_volumes-ok (path ∷ seen) node vs rest in
    let (unused, all_unseen) = unseen path seen vs all_fresh in
    ((mountable, all_mountable), (fresh, all_unseen), (unused, distinct))

pub volumes-All :
    (p : Pipeline)
    → validate_volumes p ≡ ok tt
    → All (λ node. All Mountable node.volumes × IsDistinct (paths node.volumes)) p.nodes
unfolding validate_volumes
volumes-All p h =
    All-map
      (λ node accepted.
        let (mountable, _, distinct) = check_volumes-ok [] node.name node.volumes accepted in
        (mountable, distinct))
      p.nodes (for_each-All _ p.nodes h)

check_env_name :
    (reason : Option SecretReason) (node name : Str)
    → no_violation reason node name ≡ ok tt
    → reason ≡ none
check_env_name none node name h = refl
check_env_name (some reason) node name h = cc

-- Every environment secret of the pipeline and of the node has a name without a violation.
abbrev pub ValidEnvSecrets : Pipeline → PipelineNode → Type 0
ValidEnvSecrets p node =
    (x : Str)
    → (contains p.secrets.env x || contains node.secrets.env x) ≡ true
    → secret_name_violation x ≡ none

pub secrets-All : (p : Pipeline) → validate_secrets p ≡ ok tt → All (ValidEnvSecrets p) p.nodes
unfolding validate_secrets
secrets-All p h =
    All-map
      (λ node accepted x there.
        let merged = merge_env_secrets p.secrets.env node.secrets.env in
        let (_, names, _) =
          >>=-ok
            (for_each (λ name. no_violation (secret_name_violation name) node.name name) merged) _
            accepted in
        check_env_name (secret_name_violation x) node.name x (
          All-contains _ merged (for_each-All _ merged names) x
            ((merge_env_secrets_exact p.secrets.env node.secrets.env x).0 ∙ there)))
      p.nodes (for_each-All _ p.nodes h)
