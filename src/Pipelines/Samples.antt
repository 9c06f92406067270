-- ===== src/Pipelines/Samples.antt =====
-- A pipeline of two nodes for the tests: `test` runs after `build`.
use jefferies.Prelude.{Str, bytes, false, none, some, List, [], ◌∷◌}
use jefferies.Pipelines.{Pipeline, PipelineNode, Secrets, inline}

abbrev pub build : Str
build = bytes "build"

abbrev pub test : Str
test = bytes "test"

abbrev no_secrets : Secrets
no_secrets = record { env = []; files = [] }

abbrev pub sample_node : Str → List Str → PipelineNode
sample_node name after = record {
  name = name;
  image = some (bytes "alpine");
  timeout_secs = some 60;
  startup_timeout_secs = none;
  checkout = none;
  after = after;
  env = [];
  secrets = no_secrets;
  steps = inline (bytes "make") ∷ [];
  privileged = false;
  cache_size = none;
  cpu = some (bytes "500m");
  memory = none;
  volumes = [];
}

abbrev pub sample_pipeline : Pipeline
sample_pipeline = record {
  name = bytes "ci";
  timeout_secs = none;
  fail_fast = none;
  on = none;
  env = [];
  secrets = no_secrets;
  nodes = sample_node build [] ∷ sample_node test (build ∷ []) ∷ [];
}
