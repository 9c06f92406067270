-- ===== src/Reaper/Evidence.antt =====
-- The calls in the trace of the reaper that allow a state to be deleted or a coordinator to be started
-- (coordinator/src/reaper.rs).
use jefferies.Prelude.{
  Str, str_eq, str_inst, Bool, true, false, ◌&&◌, ◌||◌, Option, none, some, is_some, List, [], ◌∷◌,
  ◌≡◌, refl, if◌then◌else◌, nat_beq,
}
use jefferies.Pipelines.{Pipeline}
use jefferies.Coordinator.State.{RunContext}
use jefferies.Reaper.{
  Call, load_run, get_pipeline_run, delete_run, finalize_status, save_run, start, for_run, Env,
  each, each_listed, start_run,
}

abbrev pub holds {ℓ} : {A : Type ℓ} → Option (Option A) → Bool
holds (some (some a)) = true
holds _ = false

abbrev pub is_absent {ℓ} : {A : Type ℓ} → Option (Option A) → Bool
is_absent (some none) = true
is_absent _ = false

abbrev pub agreed : Option Bool → Bool
agreed (some true) = true
agreed _ = false

module _ (env : Env) (run_id : Str) where
  -- The last call of the trace lets the reaper delete the state of the run: the state is not there or
  -- not readable, the history answered the write of its final status without an error (whether or not
  -- a row was changed), or the history does not know the run.
  abbrev pub clears : List Call → Bool
  clears [] = false
  clears (load_run id ∷ t) =
      str_eq id run_id && (if holds (env.loaded (load_run id ∷ t)) then false else true)
  clears (finalize_status id s at ∷ t) =
      str_eq id run_id && is_some (env.finalized (finalize_status id s at ∷ t))
  clears (get_pipeline_run id ∷ t) =
      str_eq id run_id && is_absent (env.pipeline_run (get_pipeline_run id ∷ t))
  clears (_ ∷ t) = false

  -- The last call of the trace shows that the store holds a state of the run.
  abbrev pub backs : List Call → Bool
  backs [] = false
  backs (load_run id ∷ t) = str_eq id run_id && holds (env.loaded (load_run id ∷ t))
  backs (save_run id s v ∷ t) =
      str_eq id run_id && nat_beq v 0 && agreed (env.saved (save_run id s v ∷ t))
  backs (_ ∷ t) = false

-- The test holds at some point of the trace.
unfoldable pub sometime : (List Call → Bool) → List Call → Bool
sometime p [] = false
sometime p (c ∷ t) = p (c ∷ t) || sometime p t

-- Every state is deleted after a call that clears it, and every coordinator is started after one
-- that backs it.
unfoldable pub justified : Env → List Call → Bool
unfolding sometime str_eq
justified env [] = true
justified env (delete_run id ∷ t) = sometime (clears env id) t && justified env t
justified env (start id p c ∷ t) = sometime (backs env id) t && justified env t
justified env (_ ∷ t) = justified env t

module _ (env : Env) where
  abbrev pub Fine : List Call → Type 0
  Fine t = justified env t ≡ true

  pub each-Fine {ℓ} :
      {A : Type ℓ} (body : A → List Call → List Call)
      → ((x : A) (t : List Call) → Fine t → Fine (body x t))
      → (xs : List A) (t : List Call) → Fine t
      → Fine (each body xs t)
  unfolding each
  each-Fine body keeps [] t h = h
  each-Fine body keeps (x ∷ xs) t h = each-Fine body keeps xs (body x t) (keeps x t h)

  pub each_listed-Fine {ℓ} :
      {A : Type ℓ} (body : A → List Call → List Call)
      → ((x : A) (t : List Call) → Fine t → Fine (body x t))
      → (o : Option (List A)) (t : List Call) → Fine t
      → Fine (each_listed body o t)
  each_listed-Fine body keeps none t h = h
  each_listed-Fine body keeps (some xs) t h = each-Fine body keeps xs t h

  pub start-Fine :
      (reported : Bool) (id : Str) (p : Pipeline) (c : RunContext) (t : List Call)
      → Fine t
      → sometime (backs env id) t ≡ true
      → Fine (start id p c ∷ (if reported then for_run c ∷ t else t))
  unfolding justified sometime
  start-Fine true id p c t h b = rw (b, h) refl
  start-Fine false id p c t h b = rw (b, h) refl

  pub start_run-Fine :
      (id : Str) (p : Pipeline) (c : RunContext) (t : List Call)
      → Fine t
      → sometime (backs env id) t ≡ true
      → Fine (start_run env id p c t)
  start_run-Fine id p c t h b = start-Fine env.has_factory id p c t h b
