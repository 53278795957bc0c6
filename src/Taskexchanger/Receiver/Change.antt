-- ===== src/Taskexchanger/Receiver/Change.antt =====
-- A report is skipped only where nothing has changed.
use inference_manager.Base.{
  ==_iff, All, Bool, List, Option, Option-cases, String, [], ap, arith, false, inl, inr, insert,
  length, lookup, lookup-insert, nat_eq, none, or_else, refl, some, string_eq, true, ◌∙◌, ◌∷◌, ◌≡◌,
}
use inference_manager.Infprocessor.State.{EngineModel, EngineStatus, Processor, StatusDetails}
use inference_manager.Taskexchanger.Receiver.{
  TaskReceiver, any_changed, any_tenant_needs, build_statuses, models_by_id, need_status_update,
  need_status_update_for_all_tenants, reportable, same_bool, same_engine_status, same_model,
  same_model_status_details, same_models,
}

same_bool_iff : (a b : Bool) → same_bool a b ≡ true → a ≡ b
same_bool_iff true true h = refl
same_bool_iff true false h = absurd (cc h)
same_bool_iff false true h = absurd (cc h)
same_bool_iff false false h = refl

details_same : (a b : Option StatusDetails) → same_model_status_details a b ≡ true → a ≡ b
unfolding same_model_status_details
details_same none none h = refl
details_same none (some b) h = absurd (cc h)
details_same (some a) none h = absurd (cc h)
details_same (some a) (some b) h =
    let r : a.num_ready_pods ≡ b.num_ready_pods = ground (arith, h) in
    let t : a.num_total_pods ≡ b.num_total_pods = ground (arith, h) in
    let m : a.status_message ≡ b.status_message =
      (==_iff a.status_message b.status_message).0 (ground (arith, h)) in
    ap some (λ i. record { num_ready_pods = r i; num_total_pods = t i; status_message = m i })

model_same : (a b : EngineModel) → a.id ≡ b.id → same_model a b ≡ true → a ≡ b
unfolding same_model
model_same a b n h =
    let r : a.is_ready ≡ b.is_ready = same_bool_iff a.is_ready b.is_ready (ground (arith, h)) in
    let c : a.in_progress_task_count ≡ b.in_progress_task_count = ground (arith, h) in
    let g : a.gpu_allocated ≡ b.gpu_allocated = ground (arith, h) in
    let l : a.is_dynamically_loaded_lora ≡ b.is_dynamically_loaded_lora =
      same_bool_iff a.is_dynamically_loaded_lora b.is_dynamically_loaded_lora (ground (arith, h)) in
    let d : a.status_details ≡ b.status_details =
      details_same a.status_details b.status_details (ground (arith, h)) in
    λ i. record {
      id = n i;
      is_ready = r i;
      in_progress_task_count = c i;
      gpu_allocated = g i;
      is_dynamically_loaded_lora = l i;
      status_details = d i;
    }

lookup-models_by_id :
    (models : List EngineModel) (m : List (String × EngineModel)) (k : String) {a : EngineModel}
    → ((b : EngineModel) → lookup k m ≡ some b → b.id ≡ k)
    → lookup k (models_by_id models m) ≡ some a
    → a.id ≡ k
unfolding models_by_id
lookup-models_by_id [] m k {a} inv h = inv a h
lookup-models_by_id (x ∷ models) m k {a} inv h =
    lookup-models_by_id models (insert x.id x m) k
      (λ b e. ground (arith, lookup-insert k x.id x m, e, inv b, ==_iff x.id k)) h

-- The models of a report that are in another one, field by field.
abbrev pub Includes : List EngineModel → List EngineModel → Type 0
Includes models = All (λ m. lookup m.id (models_by_id models []) ≡ some m)

models_same :
    (xs ys : List EngineModel) → same_models (models_by_id xs []) ys ≡ true → Includes xs ys
unfolding same_models lookup
models_same xs [] h = tt
models_same xs (m ∷ models) h = elim (Option-cases (lookup m.id (models_by_id xs []))) [
  | inl n ↦ absurd (cc (rw (same_models, n) at h))
  | inr (a, n) ↦
      let s : (same_model a m ≡ true) × (same_models (models_by_id xs []) models ≡ true) =
        ground (arith, rw (same_models, n) at h) in
      let e : a ≡ m = model_same a m (lookup-models_by_id xs [] m.id (λ b k. cc k) n) s.0 in
      (n ∙ ap some e, models_same xs models s.1)
]

-- What the other server was told of an engine is what would be told now.
pub record Unchanged (cached : List (String × EngineStatus)) (e : EngineStatus) : Type 0 where
  pub told : EngineStatus
  pub found : lookup e.engine_id cached ≡ some told
  pub same_id : told.engine_id ≡ e.engine_id
  pub same_cluster : told.cluster_id ≡ e.cluster_id
  pub same_ready : told.ready ≡ e.ready
  pub same_length : length told.models ≡ length e.models
  pub same_models : Includes told.models e.models

engine_same :
    (cached : List (String × EngineStatus)) (c e : EngineStatus)
    → lookup e.engine_id cached ≡ some c
    → same_engine_status c e ≡ true
    → Unchanged cached e
unfolding same_engine_status
engine_same cached c e l h = record {
  told = c;
  found = l;
  same_id = (==_iff c.engine_id e.engine_id).0 (ground (arith, h));
  same_cluster = (==_iff c.cluster_id e.cluster_id).0 (ground (arith, h));
  same_ready = same_bool_iff c.ready e.ready (ground (arith, h));
  same_length = ground (arith, h);
  same_models = models_same c.models e.models (ground (arith, h));
}

any_changed-Unchanged :
    (cached : List (String × EngineStatus)) (es : List EngineStatus)
    → any_changed cached es ≡ false
    → All (Unchanged cached) es
unfolding any_changed lookup
any_changed-Unchanged cached [] h = tt
any_changed-Unchanged cached (e ∷ es) h = elim (Option-cases (lookup e.engine_id cached)) [
  | inl n ↦ absurd (cc (rw (any_changed, n) at h))
  | inr (c, n) ↦
      let s : (same_engine_status c e ≡ true) × (any_changed cached es ≡ false) =
        ground (arith, rw (any_changed, n) at h) in
      (engine_same cached c e n s.0, any_changed-Unchanged cached es s.1)
]

-- Each engine of each tenant is unchanged.
abbrev pub AllUnchanged :
    List (String × List (String × EngineStatus)) → List (String × List EngineStatus) → Type 0
AllUnchanged cached = All (λ x. All (Unchanged (or_else (lookup x.0 cached) [])) x.1)

tenants_unchanged :
    (cached : List (String × List (String × EngineStatus))) (m : List (String × List EngineStatus))
    → any_tenant_needs m cached ≡ false
    → AllUnchanged cached m
unfolding any_tenant_needs need_status_update
tenants_unchanged cached [] h = tt
tenants_unchanged cached ((t, es) ∷ m) h = (
  any_changed-Unchanged (or_else (lookup t cached) []) es (ground (arith, h)),
  tenants_unchanged cached m (ground (arith, h)),
)

-- A report is skipped only where every local engine is in the cache with the same ID, cluster,
-- readiness and number of models, and each of its models is there field by field; then the cache
-- stays as it is.
pub build_statuses-skipped :
    (ready : Bool) (p : Processor) (r : TaskReceiver)
    → (build_statuses ready p r).1 ≡ none
    → AllUnchanged r.engine_statuses (reportable ready p r) × ((build_statuses ready p r).0 ≡ r)
unfolding build_statuses need_status_update_for_all_tenants
build_statuses-skipped ready p r h = (
  tenants_unchanged r.engine_statuses (reportable ready p r) (ground (arith, h)),
  ground (arith, h),
)
