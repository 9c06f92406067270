-- ===== src/KubeDispatcher/Labels.antt =====
-- Which of the names of the objects are labels that Kubernetes accepts (`job_name` and
-- `configmap_name` of coordinator/src/kube_dispatcher.rs, by the test of pipelines/src/pipeline.rs).
use jefferies.Prelude.{
  ℕ, ◌+◌, ◌*◌, ◌≤◌, Str, bytes, ◌≡◌, refl, sym, ◌∙◌, Bool, true, false, [], ◌∷◌, ◌++◌, length,
  length-append, all, any, leb, is_ascii_alphanumeric, arith, if◌then◌else◌,
}
use jefferies.Pipelines.Names.{is_alnum, is_valid_dns1123_label}
use jefferies.KubeDispatcher.{
  dash, trim_end, sanitize_k8s_name, take, stable_hash, truncate_with_hash, short_run_id,
  short_node_name, job_name, configmap_name,
}
use jefferies.KubeDispatcher.Parts.{
  name_char, ends, label_parts, all-append, ends-tail, ends-append, trim_end-all, length-trim_end,
  length-take, take-all, take_exact, alnum_name, nonempty_ends, sanitized_all, sanitized_ends,
  sanitized_any, long_nonempty,
}

-- A part of a name: its length, its characters, and how it ends.
record Part (p : ℕ) (s part : Str) : Type 0 where
  short : length part ≤ p + 9
  chars : all name_char part ≡ true
  good_end : ends part ≡ any is_ascii_alphanumeric s

-- The name that is joined from the two parts.
abbrev joined : Str → Str → Str
joined a b = bytes "run-" ++ a ++ bytes "-" ++ b

module _ (r n a b : Str) (run : Part 8 r a) (node : Part 24 n b) where
  length-joined : length (joined a b) ≤ 55
  length-joined = omega (
    arith,
    run.short,
    node.short,
    length-append (bytes "run-" ++ a ++ bytes "-") b,
    length-append (bytes "run-" ++ a) (bytes "-"),
    length-append (bytes "run-") a,
  )

  joined-all : all name_char (joined a b) ≡ true
  joined-all =
      rw
        (
          all-append (bytes "run-" ++ a ++ bytes "-") b,
          all-append (bytes "run-" ++ a) (bytes "-"),
          all-append (bytes "run-") a,
          run.chars,
          node.chars,
        )
        refl

  joined-label : is_valid_dns1123_label (joined a b) ≡ any is_ascii_alphanumeric n
  joined-label =
      rw (label_parts (joined a b), joined-all, ends-append (bytes "run-" ++ a) b, node.good_end)
        (ground (arith, length-joined))

  script-label : is_valid_dns1123_label (joined a b ++ bytes "-script") ≡ true
  script-label =
      rw
        (
          label_parts (joined a b ++ bytes "-script"),
          all-append (joined a b) (bytes "-script"),
          joined-all,
          length-append (joined a b) (bytes "-script"),
          ends-tail (joined a b) b'-' (bytes "script"),
        )
        (ground (arith, length-joined))

module _ (digest hex_encode : Str → Str) (length-digest : (s : Str) → length (digest s) ≡ 32)
    (length-hex_encode : (s : Str) → length (hex_encode s) ≡ 2 * length s)
    (hex_encode_digits : (s : Str) → all is_alnum (hex_encode s) ≡ true) where
  hash_length : (s : Str) → length (stable_hash digest hex_encode s) ≡ 8
  unfolding stable_hash
  hash_length s = omega (
    arith,
    length-hex_encode (take 4 (digest s)),
    take_exact 4 (digest s) (omega (arith, length-digest s)),
  )

  hash_digits : (s : Str) → all is_alnum (stable_hash digest hex_encode s) ≡ true
  unfolding stable_hash
  hash_digits s = hex_encode_digits (take 4 (digest s))

  hashed-Part :
      (s : Str) (p : ℕ)
      → leb (length (sanitize_k8s_name s)) (p + 1 + 8) ≡ false
      → Part p s (
          trim_end (take p (sanitize_k8s_name s)) ++ (dash ∷ []) ++ stable_hash digest hex_encode s)
  hashed-Part s p long =
      let front = trim_end (take p (sanitize_k8s_name s)) in
      let hash = stable_hash digest hex_encode s in
      record {
        short = omega (
          arith,
          length-append (front ++ dash ∷ []) hash,
          length-append front (dash ∷ []),
          hash_length s,
          length-trim_end (take p (sanitize_k8s_name s)),
          length-take p (sanitize_k8s_name s),
        );
        chars = ground (
          arith,
          all-append (front ++ dash ∷ []) hash,
          all-append front (dash ∷ []),
          alnum_name hash (hash_digits s),
          trim_end-all (take p (sanitize_k8s_name s))
              (take-all p (sanitize_k8s_name s) (sanitized_all s)),
        );
        good_end =
            ends-append front hash
            ∙ nonempty_ends hash (hash_digits s) (hash_length s)
            ∙ sym (sanitized_any s (long_nonempty (sanitize_k8s_name s) p long));
      }

  choose-Part :
      (s : Str) (p : ℕ) (b : Bool) (x y : Str)
      → (b ≡ true → Part p s x)
      → (b ≡ false → Part p s y)
      → Part p s (if b then x else y)
  choose-Part s p true x y f g = f refl
  choose-Part s p false x y f g = g refl

  truncated-Part : (s : Str) (p : ℕ) → Part p s (truncate_with_hash digest hex_encode s p)
  unfolding truncate_with_hash
  truncated-Part s p =
      choose-Part s p (leb (length (sanitize_k8s_name s)) (p + 1 + 8)) (sanitize_k8s_name s) _
        (λ short. record {
          short = ground arith;
          chars = sanitized_all s;
          good_end = sanitized_ends s;
        })
        (hashed-Part s p)

  -- Under what SHA-256 and the hexadecimal encoding promise (a digest of 32 bytes; two lowercase
  -- digits or letters for each byte), the name of the job of a node is a label that Kubernetes accepts
  -- exactly when the name of the node has an ASCII letter or digit.
  pub job_name-label :
      (run_id node_name : Str)
      → is_valid_dns1123_label (job_name digest hex_encode run_id node_name)
        ≡ any is_ascii_alphanumeric node_name
  unfolding job_name short_run_id short_node_name
  job_name-label run_id node_name =
      joined-label run_id node_name _ _ (truncated-Part run_id 8) (truncated-Part node_name 24)

  -- Under what SHA-256 and the hexadecimal encoding promise (a digest of 32 bytes; two lowercase
  -- digits or letters for each byte), the name of the config map of a node is a label that Kubernetes
  -- accepts, whatever the names of the run and of the node.
  pub configmap_name-label :
      (run_id node_name : Str)
      → is_valid_dns1123_label (configmap_name digest hex_encode run_id node_name) ≡ true
  unfolding configmap_name job_name short_run_id short_node_name
  configmap_name-label run_id node_name =
      script-label run_id node_name _ _ (truncated-Part run_id 8) (truncated-Part node_name 24)
