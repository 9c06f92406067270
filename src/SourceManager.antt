-- ===== src/SourceManager.antt =====
-- What a node left in its status file, and how a reconcile pass reads it
-- (coordinator/src/source_manager.rs).
use jefferies.Prelude.{ℕ, Str, Bool, Option, some}

pub record NodeOutcome : Type 0 where
  pub success : Option Bool
  pub started_at : Option ℕ
  pub finished_at : Option ℕ

pub data ReconcileResult : Type 0 where
  completed : Bool → Option ℕ → ℕ → ReconcileResult
  in_progress : ℕ → ReconcileResult
  still_running : ReconcileResult
  transient_read_error : Str → ReconcileResult

abbrev classify : Option Bool → Option ℕ → Option ℕ → ReconcileResult
classify (some success) (some finished_at_ms) started_at_ms =
    completed success started_at_ms finished_at_ms
classify _ _ (some started_at_ms) = in_progress started_at_ms
classify _ _ _ = still_running

-- `ReconcileResult::from(&outcome)`
unfoldable pub from_outcome : NodeOutcome → ReconcileResult
from_outcome outcome = classify outcome.success outcome.finished_at outcome.started_at
