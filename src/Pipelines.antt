-- ===== src/Pipelines.antt =====
-- The pipeline document and its nodes: pipelines/src/pipeline.rs. Maps are association lists. What
-- serde derives (defaults, renames, skipped fields) is part of the parser, a parameter of
-- `from_yaml`.
pub mod Names
pub mod Quantity
pub mod Merge
pub mod Validate
pub mod Accepts
pub mod Checks
pub mod Merged
pub mod Samples
mod Tests
use jefferies.Prelude.{ℕ, Str, Bool, Option, none, some, List}

pub record Refs : Type 0 where
  pub branches : Option (List Str)
  pub tags : Option (List Str)

pub record PipelineTriggers : Type 0 where
  pub push : Option Refs
  pub pull_request : Option Refs
  pub schedule : Option Str

pub record NamedStep : Type 0 where
  pub name : Str
  pub run : Str

pub data PipelineStep : Type 0 where
  inline : Str → PipelineStep
  named : NamedStep → PipelineStep

pub data FileSecret : Type 0 where
  default : Str → FileSecret
  custom : Str → Str → FileSecret

pub record Secrets : Type 0 where
  pub env : List Str
  pub files : List FileSecret

pub record PipelineNode : Type 0 where
  pub name : Str
  pub image : Option Str
  pub timeout_secs : Option ℕ
  pub startup_timeout_secs : Option ℕ
  pub checkout : Option Bool
  pub after : List Str
  pub env : List (Str × Str)
  pub secrets : Secrets
  pub steps : List PipelineStep
  pub privileged : Bool
  pub cache_size : Option Str
  pub cpu : Option Str
  pub memory : Option Str
  pub volumes : List (Str × Str)

pub record Pipeline : Type 0 where
  pub name : Str
  pub timeout_secs : Option ℕ
  pub fail_fast : Option Bool
  pub on : Option PipelineTriggers
  pub env : List (Str × Str)
  pub secrets : Secrets
  pub nodes : List PipelineNode

pub record FileSecretSpec : Type 0 where
  pub name : Str
  pub path : Option Str

pub record NodeInfo : Type 0 where
  pub name : Str
  pub image : Str
  pub steps : List Str
  pub dependencies : List Str
  pub timeout_secs : Option ℕ
  pub startup_timeout_secs : Option ℕ
  pub checkout : Bool
  pub env : List (Str × Str)
  pub env_secrets : List Str
  pub file_secrets : List FileSecretSpec
  pub privileged : Bool
  pub cache_size : Option Str
  pub cpu : Option Str
  pub memory : Option Str
  pub volumes : List (Str × Str)

-- `FileSecret::name` and `FileSecret::path`
abbrev pub file_secret_name : FileSecret → Str
file_secret_name (default name) = name
file_secret_name (custom name path) = name

abbrev pub file_secret_path : FileSecret → Option Str
file_secret_path (default name) = none
file_secret_path (custom name path) = some path
