-- ===== src/RunHistory.antt =====
-- What the coordinator writes to the history (run_history/src/lib.rs). Times are numbers of an
-- abstract clock, an `i64` is its bit pattern; the database is outside.
use jefferies.Prelude.{
  ℕ, Str, str_inst, Bool, Option, Result, ok, err, ◌==◌, bytes, if◌then◌else◌, str_eq, ◌≡◌, refl,
}

pub data RunStatus : Type 0 where
  in_progress success failure cancelled : RunStatus

unfoldable pub as_str : RunStatus → Str
as_str in_progress = bytes "in_progress"
as_str success = bytes "success"
as_str failure = bytes "failure"
as_str cancelled = bytes "cancelled"

-- The error carries the text that was not understood.
unfoldable pub from_db_str : Str → Result Str RunStatus
unfolding str_eq
from_db_str s =
    if s == bytes "in_progress"
    then ok in_progress
    else if s == bytes "success"
    then ok success
    else if s == bytes "failure"
    then ok failure
    else if s == bytes "cancelled"
    then ok cancelled
    else err s

pub record PipelineStartRecord : Type 0 where
  pub run_id : Str
  pub pipeline_name : Str
  pub owner : Str
  pub repo : Str
  pub sha : Str
  pub branch : Option Str
  pub target_branch : Option Str
  pub tag : Option Str
  pub pr_number : Option ℕ
  pub trigger : Str
  pub pipeline_definition : Str
  pub created_at : ℕ
  pub retry_of : Option Str
  pub tenant_slug : Option Str
  pub github_check_run_id : Option ℕ

pub record PipelineRunRecord : Type 0 where
  pub run_id : Str
  pub pipeline_name : Str
  pub owner : Str
  pub repo : Str
  pub sha : Str
  pub branch : Option Str
  pub target_branch : Option Str
  pub tag : Option Str
  pub pr_number : Option ℕ
  pub trigger : Str
  pub pipeline_definition : Str
  pub status : RunStatus
  pub created_at : ℕ
  pub completed_at : Option ℕ
  pub retry_of : Option Str
  pub tenant_slug : Option Str
  pub github_check_run_id : Option ℕ

pub record NodeDispatchRecord : Type 0 where
  pub run_id : Str
  pub node_name : Str
  pub node_definition : Str
  pub created_at : ℕ

pub record NodeRunRecord : Type 0 where
  pub run_id : Str
  pub node_name : Str
  pub node_definition : Str
  pub success : Bool
  pub created_at : ℕ
  pub started_at : Option ℕ
  pub completed_at : Option ℕ
  pub output_log : Option Str
  pub failure_reason : Option Str

-- Every run status is read back from the text that is stored for it.
from_db_str-as_str : (s : RunStatus) → from_db_str (as_str s) ≡ ok s
unfolding from_db_str as_str
from_db_str-as_str in_progress = refl
from_db_str-as_str s = refl

-- The rows that queries return. A `Uuid` is its text.
pub record PipelineRunRow : Type 0 where
  pub run_id : Str
  pub pipeline_name : Str
  pub owner : Str
  pub repo : Str
  pub sha : Str
  pub branch : Option Str
  pub target_branch : Option Str
  pub tag : Option Str
  pub pr_number : Option ℕ
  pub trigger : Str
  pub pipeline_definition : Str
  pub status : RunStatus
  pub created_at : ℕ
  pub completed_at : Option ℕ
  pub retry_of : Option Str
  pub tenant_slug : Option Str
  pub github_check_run_id : Option ℕ

pub record NodeRunRow : Type 0 where
  pub id : ℕ
  pub run_id : Str
  pub node_name : Str
  pub node_definition : Str
  pub success : Option Bool
  pub created_at : ℕ
  pub started_at : Option ℕ
  pub completed_at : Option ℕ
  pub failure_reason : Option Str
