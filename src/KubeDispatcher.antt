-- ===== src/KubeDispatcher.antt =====
-- The dispatcher to Kubernetes: the names, texts and settings that it computes for the job of a node
-- (coordinator/src/kube_dispatcher.rs). A text is its UTF-8 bytes; SHA-256 and the hexadecimal
-- encoding are libraries' and parameters.
pub mod Parts
pub mod Labels
pub mod Vault
pub mod Objects
pub mod Settings
pub mod Job
pub mod Dispatch
pub mod Rollback
pub mod Listing
pub mod Deadline
mod Tests
use jefferies.Prelude.{
  ℕ, zero, suc, ◌+◌, ◌/◌, ◌≤◌, Str, bytes, Bool, true, false, not, ◌&&◌, ◌||◌, Option, none, some,
  List, [], ◌∷◌, ◌++◌, length, is_empty, leb, ltb, nat_beq, is_ascii_lowercase, is_ascii_uppercase,
  is_ascii_alphanumeric, if◌then◌else◌,
}

abbrev pub dash : ℕ
dash = b'-'

abbrev pub to_ascii_lowercase : ℕ → ℕ
to_ascii_lowercase c = if is_ascii_uppercase c then c + 32 else c

-- The map over the characters: one outside ASCII gives one dash, so its later bytes give nothing.
unfoldable pub sanitized_chars : Str → Str
sanitized_chars [] = []
sanitized_chars (c ∷ s) =
    let rest = sanitized_chars s in
    if is_ascii_alphanumeric c
    then to_ascii_lowercase c ∷ rest
    else if leb 128 c && ltb c 192
    then rest
    else dash ∷ rest

-- `trim_start_matches('-')` and `trim_end_matches('-')`
unfoldable pub trim_start : Str → Str
trim_start [] = []
trim_start (c ∷ s) = let rest = trim_start s in if nat_beq c dash then rest else c ∷ s

unfoldable pub trim_end : Str → Str
trim_end [] = []
trim_end (c ∷ s) = let rest = trim_end s in if nat_beq c dash && is_empty rest then [] else c ∷ rest

unfoldable pub sanitize_k8s_name : Str → Str
unfolding sanitized_chars trim_start trim_end
sanitize_k8s_name s = trim_end (trim_start (sanitized_chars s))

abbrev pub run_id_prefix_len : ℕ
run_id_prefix_len = 8

abbrev pub node_name_prefix_len : ℕ
node_name_prefix_len = 24

abbrev pub stable_hash_len : ℕ
stable_hash_len = 8

abbrev pub take : ℕ → Str → Str
take zero s = []
take (suc n) [] = []
take (suc n) (c ∷ s) = c ∷ take n s

module _ (digest hex_encode : Str → Str) where
  unfoldable pub stable_hash : Str → Str
  stable_hash s = hex_encode (take (stable_hash_len / 2) (digest s))

  unfoldable pub truncate_with_hash : Str → ℕ → Str
  unfolding sanitize_k8s_name stable_hash trim_end
  truncate_with_hash s prefix_len =
      let sanitized = sanitize_k8s_name s in
      if leb (length sanitized) (prefix_len + 1 + stable_hash_len)
      then sanitized
      else trim_end (take prefix_len sanitized) ++ (dash ∷ []) ++ stable_hash s

  unfoldable pub short_run_id : Str → Str
  unfolding truncate_with_hash
  short_run_id run_id = truncate_with_hash run_id run_id_prefix_len

  unfoldable pub short_node_name : Str → Str
  unfolding truncate_with_hash
  short_node_name node_name = truncate_with_hash node_name node_name_prefix_len

  unfoldable pub job_name : Str → Str → Str
  unfolding short_run_id short_node_name
  job_name run_id node_name =
      bytes "run-" ++ short_run_id run_id ++ bytes "-" ++ short_node_name node_name

  unfoldable pub configmap_name : Str → Str → Str
  unfolding job_name
  configmap_name run_id node_name = job_name run_id node_name ++ bytes "-script"
