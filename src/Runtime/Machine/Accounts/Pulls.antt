-- ===== src/Runtime/Machine/Accounts/Pulls.antt =====
-- The channels after a pull.
use inference_manager.Base.{
  Bool-cases, Option, Option-cases, String, [], add, arith, false, inl, inr, lookup,
  lookup-insert_self, nat_eq, none, refl, some, string_eq, subst, ℕ, ◌++◌, ◌+◌, ◌∙◌, ◌∷◌, ◌≡◌, ◌⊎◌,
}
use inference_manager.Runtime.Events.{
  PullModelEvent, Runtime, lora_adapter_pull_status_check, new_pending_runtime,
  reconcile_stateful_set,
}
use inference_manager.Runtime.Manager.{Manager, ModelInfo, Outcome, and_then, put_runtime, spawn}
use inference_manager.Infprocessor.Task.{model}
use inference_manager.Router.RouteMap.{model_eq}
use inference_manager.Runtime.Machine.Accounts.{
  Keeps, at_model, holds, holds-close_with, holds-put_runtime, in_ch, in_chs-append,
  in_events-append, in_requests-append, in_runtime,
}
use inference_manager.Runtime.Pull.{
  LoraLoading, applicable, deploy_runtime, is_dynamic_lora_loading_applicable, lora_no_client,
  new_base_runtime, new_lora_runtime, not_applicable, process_pull_model_event, pull_applicable,
  pull_base, pull_known, pull_lora, pull_new, pull_on_base, pull_plain, start_lora_pull, wait_for,
}
use inference_manager.Runtime.World.{World}

in_runtime-wait_for :
    (c : ℕ) (ch : Option ℕ) (r : Runtime)
    → in_runtime c (wait_for ch r) ≡ in_runtime c r + in_ch c ch
in_runtime-wait_for c none r = ground (arith, in_chs-append c r.wait_chs [])
in_runtime-wait_for c (some ch) r = ground (arith, in_chs-append c r.wait_chs (ch ∷ []))

holds-pull_known :
    (c : ℕ) (e : PullModelEvent) (r : Runtime) (m : Manager)
    → lookup e.model_id m.runtimes ≡ some r
    → holds c (pull_known e r m) ≡ holds c m + in_ch c e.ready_wait_ch
unfolding pull_known
holds-pull_known c e r m h =
    let at : at_model c (lookup e.model_id m.runtimes) ≡ in_runtime c r = rw h refl in
    ground (
      arith,
      holds-close_with c "" e.ready_wait_ch m,
      holds-close_with c r.last_err_reason e.ready_wait_ch m,
      holds-put_runtime c e.model_id (wait_for e.ready_wait_ch r) m,
      in_runtime-wait_for c e.ready_wait_ch r,
      at,
    )

Keeps-deploy_runtime :
    (c n : ℕ) (w : World) (model : ModelInfo) (m : Manager)
    → holds c m ≡ n
    → Keeps c n (deploy_runtime w model m)
unfolding deploy_runtime
Keeps-deploy_runtime c n w model m h = elim (Option-cases (w.deploy model false)) [
  | inl q ↦ ground arith
  | inr (sts, q) ↦
      ground (arith, in_events-append c m.spawned (reconcile_stateful_set sts none ∷ []))
]

Keeps-deploy_then :
    (c n : ℕ) (w : World) (model : ModelInfo) (m : Manager) (f : Manager → Outcome)
    → ((m' : Manager) → m'.runtimes ≡ m.runtimes → holds c m' ≡ holds c m → Keeps c n (f m'))
    → Keeps c n (and_then (deploy_runtime w model m) f)
unfolding deploy_runtime
Keeps-deploy_then c n w info m f g = elim (Option-cases (w.deploy info false)) [
  | inl q ↦ ground arith
  | inr (sts, q) ↦
      let ev = reconcile_stateful_set sts none in
      let m' = spawn ev (record m { scalers = add sts m.scalers }) in
      ground (arith, g m' refl (ground (arith, in_events-append c m.spawned (ev ∷ []))))
]

holds-put_new :
    (c : ℕ) (k : String) (r : Runtime) (m : Manager)
    → at_model c (lookup k m.runtimes) ≡ 0
    → holds c (put_runtime k r m) ≡ holds c m + in_runtime c r
holds-put_new c k r m h = omega (arith, h, holds-put_runtime c k r m)

in_runtime-pending :
    (c : ℕ) (ch : Option ℕ) (name : String) (mci : Option String)
    → in_runtime c (wait_for ch (new_pending_runtime name mci)) ≡ in_ch c ch
unfolding new_pending_runtime
in_runtime-pending c none name mci = ground arith
in_runtime-pending c (some ch) name mci = ground arith

Keeps-pull_plain :
    (c : ℕ) (w : World) (e : PullModelEvent) (model : ModelInfo) (m : Manager)
    → at_model c (lookup e.model_id m.runtimes) ≡ 0
    → Keeps c (holds c m + in_ch c e.ready_wait_ch) (pull_plain w e model m)
unfolding pull_plain
Keeps-pull_plain c w e info m h =
    let name = w.get_name e.model_id e.model_id in
    let mci = some (w.model_config_item e.model_id info) in
    let r = wait_for e.ready_wait_ch (new_pending_runtime name mci) in
    Keeps-deploy_runtime c _ w info (put_runtime e.model_id r m)
      (holds-put_new c e.model_id r m h ∙ rw (in_runtime-pending c e.ready_wait_ch name mci) refl)

Keeps-start_lora_pull :
    (c : ℕ) (w : World) (e : PullModelEvent) (br : Runtime) (m : Manager)
    → Keeps c (holds c m) (start_lora_pull w e br m)
unfolding start_lora_pull
Keeps-start_lora_pull c w e br m = elim (Option-cases (w.select_target br.name)) [
  | inl q ↦ ground arith
  | inr (pod, q) ↦
      let ev =
        lora_adapter_pull_status_check
          (record { model_id = e.model_id; pod = pod; gpu = br.gpu; event_wait_ch = none }) in
      ground (arith, in_events-append c m.spawned (ev ∷ []))
]

in_runtime-lora :
    (c : ℕ) (w : World) (e : PullModelEvent)
    → in_runtime c (new_lora_runtime w e) ≡ in_ch c e.ready_wait_ch
in_runtime-lora c w e = in_runtime-pending c e.ready_wait_ch (w.get_name e.model_id e.model_id) none

abbrev ask_later : PullModelEvent → Runtime → Runtime
ask_later e br = record br {
  pending_pull_model_requests = br.pending_pull_model_requests ++ e ∷ [];
}

holds-ask_later :
    (c : ℕ) (e : PullModelEvent) (base : String) (br : Runtime) (m : Manager)
    → lookup base m.runtimes ≡ some br
    → holds c (put_runtime base (ask_later e br) m) ≡ holds c m + in_ch c e.ready_wait_ch
holds-ask_later c e base br m h =
    let at : at_model c (lookup base m.runtimes) ≡ in_runtime c br = rw h refl in
    omega (
      arith,
      at,
      holds-put_runtime c base (ask_later e br) m,
      in_requests-append c br.pending_pull_model_requests (e ∷ []),
    )

Keeps-pull_on_base :
    (c : ℕ) (w : World) (e : PullModelEvent) (base : String) (br : Runtime) (m : Manager)
    → lookup base m.runtimes ≡ some br
    → (br.ready ≡ false) ⊎ (at_model c (lookup e.model_id m.runtimes) ≡ 0)
    → Keeps c (holds c m + in_ch c e.ready_wait_ch) (pull_on_base w e base br m)
unfolding pull_on_base
Keeps-pull_on_base c w e base br m h new = elim (Bool-cases br.ready) [
  | inr r ↦ ground (arith, holds-ask_later c e base br m)
  | inl r ↦
      let m' = put_runtime e.model_id (new_lora_runtime w e) m in
      let held : holds c m' ≡ holds c m + in_ch c e.ready_wait_ch =
        ground
          (arith, holds-put_new c e.model_id (new_lora_runtime w e) m, in_runtime-lora c w e) in
      ground (
        arith,
        subst (λ n. Keeps c n (start_lora_pull w e br m')) held (Keeps-start_lora_pull c w e br m'),
      )
]

new_base-ready :
    (w : World) (e : PullModelEvent) (base : String) (info : ModelInfo)
    → (new_base_runtime w e base info).ready ≡ false
unfolding new_pending_runtime
new_base-ready w e base info = refl

holds-new_base :
    (c : ℕ) (w : World) (e : PullModelEvent) (base : String) (info : ModelInfo) (m : Manager)
    → lookup base m.runtimes ≡ none
    → holds c (put_runtime base (new_base_runtime w e base info) m) ≡ holds c m
unfolding new_pending_runtime
holds-new_base c w e base info m h =
    let at : at_model c (lookup base m.runtimes) ≡ 0 = rw h refl in
    omega (arith, holds-put_new c base (new_base_runtime w e base info) m at)

Keeps-pull_base :
    (c : ℕ) (w : World) (e : PullModelEvent) (base : String) (o : Option ModelInfo) (m : Manager)
    → lookup base m.runtimes ≡ none
    → Keeps c (holds c m + in_ch c e.ready_wait_ch) (pull_base w e base o m)
unfolding pull_base
Keeps-pull_base c w e base none m h = tt
Keeps-pull_base c w e base (some info) m h =
    let br = new_base_runtime w e base info in
    let m' = put_runtime base br m in
    let held : holds c m' ≡ holds c m = ground (arith, holds-new_base c w e base info m h) in
    Keeps-deploy_then c _ w info m' (pull_on_base w e base br) (λ m'' same kept.
      subst (λ n. Keeps c (n + in_ch c e.ready_wait_ch) (pull_on_base w e base br m''))
        (kept ∙ held)
        (Keeps-pull_on_base c w e base br m'' (rw same (lookup-insert_self base br m.runtimes))
          (inl (new_base-ready w e base info))))

Keeps-pull_lora :
    (c : ℕ) (w : World) (e : PullModelEvent) (base : String) (m : Manager)
    → at_model c (lookup e.model_id m.runtimes) ≡ 0
    → Keeps c (holds c m + in_ch c e.ready_wait_ch) (pull_lora w e base m)
unfolding pull_lora
Keeps-pull_lora c w e base m h = elim (Option-cases (lookup base m.runtimes)) [
  | inl n ↦ ground (arith, Keeps-pull_base c w e base (w.get_model base) m)
  | inr (br, n) ↦ ground (arith, Keeps-pull_on_base c w e base br m n (inr h))
]

Keeps-pull_applicable :
    (c : ℕ) (w : World) (e : PullModelEvent) (model : ModelInfo) (l : LoraLoading) (m : Manager)
    → at_model c (lookup e.model_id m.runtimes) ≡ 0
    → Keeps c (holds c m + in_ch c e.ready_wait_ch) (pull_applicable w e model l m)
Keeps-pull_applicable c w e info lora_no_client m h = tt
Keeps-pull_applicable c w e info not_applicable m h = Keeps-pull_plain c w e info m h
Keeps-pull_applicable c w e info (applicable base) m h = Keeps-pull_lora c w e base m h

Keeps-pull_new :
    (c : ℕ) (w : World) (e : PullModelEvent) (m : Manager)
    → at_model c (lookup e.model_id m.runtimes) ≡ 0
    → Keeps c (holds c m + in_ch c e.ready_wait_ch) (pull_new w e m)
unfolding pull_new
Keeps-pull_new c w e m h = elim (Option-cases (w.get_model e.model_id)) [
  | inl n ↦ ground arith
  | inr (info, n) ↦
      ground
        (arith, Keeps-pull_applicable c w e info (is_dynamic_lora_loading_applicable w m info) m)
]

pub process_pull_model_event-Keeps :
    (c : ℕ) (w : World) (e : PullModelEvent) (m : Manager)
    → Keeps c (holds c m + in_ch c e.ready_wait_ch) (process_pull_model_event w e m)
unfolding process_pull_model_event
process_pull_model_event-Keeps c w e m = elim (Option-cases (lookup e.model_id m.runtimes)) [
  | inl n ↦
      let absent : at_model c (lookup e.model_id m.runtimes) ≡ 0 = rw n refl in
      ground (arith, Keeps-pull_new c w e m absent)
  | inr (r, n) ↦ ground (arith, holds-pull_known c e r m)
]
