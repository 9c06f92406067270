-- ===== src/Pipelines/Tests.antt =====
-- A small document that passes the checks (pipelines/src/pipeline.rs).
use jefferies.Prelude.{
  Str, bytes, str_eq, ◌≡◌, refl, List, [], ◌∷◌, contains, ◌||◌, str_inst, Result, ok,
}
use jefferies.Pipelines.{Pipeline, FileSecret, default, custom}
use jefferies.Pipelines.Samples.{sample_pipeline}
use jefferies.Pipelines.Merge.{node_info, merge_env_secrets, merge_file_secrets}
use jefferies.Pipelines.Validate.{from_yaml}
use jefferies.Pipelines.Accepts.{from_yaml-DepsKnown}
use jefferies.Pipelines.Merged.{
  Ascending, merge_env_secrets_exact, last_named, find_file, or_else, find_file-merge_file_secrets,
}
use jefferies.Run.{new}
use jefferies.Run.Ready.{DepsKnown}

-- A parser that knows one document.
abbrev sample_parse : Str → Result Str Pipeline
sample_parse yaml = ok sample_pipeline

sample_passes : from_yaml sample_parse (bytes "name: ci") ≡ ok sample_pipeline
unfolding from_yaml str_eq
sample_passes = refl

from_yaml-DepsKnown_example : DepsKnown (new (node_info sample_pipeline))
from_yaml-DepsKnown_example =
    from_yaml-DepsKnown sample_parse (bytes "name: ci") sample_pipeline sample_passes

abbrev token : Str
token = bytes "TOKEN"

abbrev key : Str
key = bytes "KEY"

merge_env_secrets_exact_example :
    (contains (merge_env_secrets (token ∷ key ∷ []) (token ∷ [])) key
      ≡ (contains (token ∷ key ∷ []) key || contains (token ∷ []) key))
    × Ascending (merge_env_secrets (token ∷ key ∷ []) (token ∷ []))
merge_env_secrets_exact_example = merge_env_secrets_exact (token ∷ key ∷ []) (token ∷ []) key

abbrev pipeline_files : List FileSecret
pipeline_files = default token ∷ default key ∷ []

abbrev node_files : List FileSecret
node_files = custom token (bytes "/run/token") ∷ []

find_file-merge_file_secrets_example :
    find_file token (merge_file_secrets pipeline_files node_files)
    ≡ or_else (last_named token node_files) (last_named token pipeline_files)
find_file-merge_file_secrets_example = find_file-merge_file_secrets pipeline_files node_files token
