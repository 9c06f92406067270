-- ===== src/Pipelines/Accepts.antt =====
-- What `from_yaml` promises of a pipeline that it returns (pipelines/src/pipeline.rs), and what a
-- run may rely on that is created from it (coordinator/src/run.rs).
use jefferies.Prelude.{
  Str, str_inst, ◌≡◌, refl, sym, ◌∙◌, true, false, List, [], ◌∷◌, map, contains, contains_key,
  collect, contains_key-collect, get_of_contains_key, get-collect-All, is_empty, All, arith, subst,
  Result, ok, err, >>=-ok,
}
use jefferies.Pipelines.{Pipeline, PipelineNode}
use jefferies.Pipelines.Merge.{node_info, node_info_of}
use jefferies.Pipelines.Checks.{
  DependsOnNodes, ValidQuantity, Mountable, paths, ValidEnvSecrets, dependencies-All,
}
use jefferies.Pipelines.Validate.{
  validated, from_yaml, validate_dependencies, validate_steps_present, validate_quantities,
  validate_volumes, validate_secrets,
}
use jefferies.Run.{pending, to_set, new}
use jefferies.Run.Sets.{IsDistinct, contains-to_set}
use jefferies.Run.Ready.{DepsKnown}

-- What the checks of `from_yaml` leave standing of one node.
pub record NodeAccepted (p : Pipeline) (node : PipelineNode) : Type 0 where
  pub depends : DependsOnNodes p node
  pub has_steps : is_empty node.steps ≡ false
  pub sizes : ValidQuantity node.cpu × ValidQuantity node.memory × ValidQuantity node.cache_size
  pub mountable : All Mountable node.volumes
  pub mounts_distinct : IsDistinct (paths node.volumes)
  pub env_secrets : ValidEnvSecrets p node

record Passed (p : Pipeline) : Type 0 where
  dependencies : validate_dependencies p ≡ ok tt
  steps : validate_steps_present p ≡ ok tt
  quantities : validate_quantities p ≡ ok tt
  volumes : validate_volumes p ≡ ok tt
  secrets : validate_secrets p ≡ ok tt

-- The dependencies of an entry of the run's map are names of nodes.
abbrev Known : Pipeline → Str × List Str → Type 0
Known p e = (d : Str) → contains e.1 d ≡ true → contains (map (λ n. n.name) p.nodes) d ≡ true

entries-Known :
    (p : Pipeline) (nodes : List PipelineNode)
    → All (DependsOnNodes p) nodes
    → All (Known p) (map (λ n. (n.name, to_set n.dependencies)) (map (node_info_of p) nodes))
unfolding node_info_of
entries-Known p [] h = tt
entries-Known p (n ∷ nodes) h =
    (λ d c. (h.0 d (sym (contains-to_set d n.after) ∙ c)).1, entries-Known p nodes h.1)

names_known :
    (p : Pipeline) (nodes : List PipelineNode) (d : Str)
    → contains_key d (map (λ n. (n.name, pending)) (map (node_info_of p) nodes))
      ≡ contains (map (λ n. n.name) nodes) d
unfolding node_info_of contains_key contains
names_known p [] d = refl
names_known p (n ∷ nodes) d = rw (names_known p nodes d)

module _ (parse : Str → Result Str Pipeline) where
  validated-ok :
      (r : Result Str Pipeline) (p : Pipeline) → validated parse r ≡ ok p → (r ≡ ok p) × Passed p
  validated-ok (err e) p h = cc
  validated-ok (ok q) p h =
      let (_, deps, h1) = >>=-ok (validate_dependencies q) _ h in
      let (_, steps, h2) = >>=-ok (validate_steps_present q) _ h1 in
      let (_, quantities, h3) = >>=-ok (validate_quantities q) _ h2 in
      let (_, volumes, h4) = >>=-ok (validate_volumes q) _ h3 in
      let (_, secrets, h5) = >>=-ok (validate_secrets q) _ h4 in
      subst (λ x. ◌≡◌ {A = Result Str Pipeline} (ok q) (ok x) × Passed x) (ground arith)
        (
          refl,
          record {
            dependencies = deps;
            steps = steps;
            quantities = quantities;
            volumes = volumes;
            secrets = secrets;
          },
        )

  accepted :
      (yaml : Str) (p : Pipeline) → from_yaml parse yaml ≡ ok p → (parse yaml ≡ ok p) × Passed p
  unfolding from_yaml
  accepted yaml p h = validated-ok (parse yaml) p h

  -- The run that is created from the nodes of a pipeline that `from_yaml` returns has no dependency on
  -- a node that it does not know.
  pub from_yaml-DepsKnown :
      (yaml : Str) (p : Pipeline) → from_yaml parse yaml ≡ ok p → DepsKnown (new (node_info p))
  unfolding new collect node_info node_info_of
  from_yaml-DepsKnown yaml p h n deps found d c absent =
      let (_, passed) = accepted yaml p h in
      let known =
        get-collect-All (Known p) n (map (λ n. (n.name, to_set n.dependencies)) (node_info p))
          (entries-Known p p.nodes (dependencies-All p passed.dependencies)) found d c in
      let (s, there) =
        get_of_contains_key d (collect (map (λ n. (n.name, pending)) (node_info p))) (
          contains_key-collect d (map (λ n. (n.name, pending)) (node_info p))
          ∙ names_known p p.nodes d
          ∙ known) in
      cc
