-- ===== src/Runtime/Machine/Settled/Pulls.antt =====
-- What a pull leaves behind.
use inference_manager.Base.{
  Option, Option-cases, String, [], arith, false, inl, inr, lookup, nat_eq, none, refl, some,
  string_eq, true, ℕ, ◌++◌, ◌∷◌, ◌≡◌,
}
use inference_manager.Runtime.Events.{PullModelEvent, Runtime, new_pending_runtime}
use inference_manager.Runtime.Manager.{Manager, ModelInfo, put_runtime}
use inference_manager.Infprocessor.Task.{model}
use inference_manager.Router.RouteMap.{model_eq}
use inference_manager.Runtime.Machine.Settled.{
  IsSettled, IsSettled-and_then, IsSettled-put_runtime, settled, state_of,
}
use inference_manager.Runtime.Pull.{
  LoraLoading, applicable, deploy_runtime, is_dynamic_lora_loading_applicable, lora_no_client,
  new_base_runtime, new_lora_runtime, not_applicable, process_pull_model_event, pull_applicable,
  pull_base, pull_known, pull_lora, pull_new, pull_on_base, pull_plain, start_lora_pull, wait_for,
}
use inference_manager.Runtime.World.{World}

settled-wait_for : (ch : Option ℕ) (r : Runtime) → r.ready ≡ false → settled (wait_for ch r) ≡ true
unfolding settled
settled-wait_for ch r h = ground arith

IsSettled-pull_known :
    (e : PullModelEvent) (r : Runtime) (m : Manager) → IsSettled m → IsSettled (pull_known e r m)
unfolding pull_known
IsSettled-pull_known e r m h = ground (
  arith,
  settled-wait_for e.ready_wait_ch r,
  IsSettled-put_runtime e.model_id (wait_for e.ready_wait_ch r) m,
)

IsSettled-deploy_runtime :
    (w : World) (model : ModelInfo) (m : Manager)
    → IsSettled m
    → IsSettled (state_of (deploy_runtime w model m))
unfolding deploy_runtime
IsSettled-deploy_runtime w model m h = ground arith

settled-pending :
    (ch : Option ℕ) (name : String) (mci : Option String)
    → settled (wait_for ch (new_pending_runtime name mci)) ≡ true
unfolding settled new_pending_runtime
settled-pending ch name mci = refl

IsSettled-pull_plain :
    (w : World) (e : PullModelEvent) (model : ModelInfo) (m : Manager)
    → IsSettled m
    → IsSettled (state_of (pull_plain w e model m))
unfolding pull_plain
IsSettled-pull_plain w e model m h =
    IsSettled-deploy_runtime w model _
      (IsSettled-put_runtime e.model_id _ m (settled-pending e.ready_wait_ch _ _) h)

IsSettled-start_lora_pull :
    (w : World) (e : PullModelEvent) (br : Runtime) (m : Manager)
    → IsSettled m
    → IsSettled (state_of (start_lora_pull w e br m))
unfolding start_lora_pull
IsSettled-start_lora_pull w e br m h = ground arith

settled-lora : (w : World) (e : PullModelEvent) → settled (new_lora_runtime w e) ≡ true
unfolding settled new_pending_runtime
settled-lora w e = refl

settled-not_ready : (r : Runtime) → r.ready ≡ false → settled r ≡ true
unfolding settled
settled-not_ready r h = ground arith

abbrev ask_later : PullModelEvent → Runtime → Runtime
ask_later e br = record br {
  pending_pull_model_requests = br.pending_pull_model_requests ++ e ∷ [];
}

IsSettled-pull_on_base :
    (w : World) (e : PullModelEvent) (base : String) (br : Runtime) (m : Manager)
    → IsSettled m
    → IsSettled (state_of (pull_on_base w e base br m))
unfolding pull_on_base
IsSettled-pull_on_base w e base br m h =
    let later = ask_later e br in
    let new = put_runtime e.model_id (new_lora_runtime w e) m in
    ground (
      arith,
      IsSettled-start_lora_pull w e br new,
      settled-lora w e,
      IsSettled-put_runtime e.model_id (new_lora_runtime w e) m,
      settled-not_ready later,
      IsSettled-put_runtime base later m,
    )

settled-new_base :
    (w : World) (e : PullModelEvent) (base : String) (info : ModelInfo)
    → settled (new_base_runtime w e base info) ≡ true
unfolding settled new_pending_runtime
settled-new_base w e base info = refl

IsSettled-pull_base :
    (w : World) (e : PullModelEvent) (base : String) (o : Option ModelInfo) (m : Manager)
    → IsSettled m
    → IsSettled (state_of (pull_base w e base o m))
unfolding pull_base
IsSettled-pull_base w e base none m h = h
IsSettled-pull_base w e base (some info) m h =
    let br = new_base_runtime w e base info in
    let m' = put_runtime base br m in
    IsSettled-and_then (deploy_runtime w info m') (pull_on_base w e base br)
      (IsSettled-deploy_runtime w info m'
        (IsSettled-put_runtime base br m (settled-new_base w e base info) h))
      (IsSettled-pull_on_base w e base br)

IsSettled-pull_lora :
    (w : World) (e : PullModelEvent) (base : String) (m : Manager)
    → IsSettled m
    → IsSettled (state_of (pull_lora w e base m))
unfolding pull_lora
IsSettled-pull_lora w e base m h = elim (Option-cases (lookup base m.runtimes)) [
  | inl n ↦ ground (arith, IsSettled-pull_base w e base (w.get_model base) m)
  | inr (br, n) ↦ ground (arith, IsSettled-pull_on_base w e base br m)
]

IsSettled-pull_applicable :
    (w : World) (e : PullModelEvent) (model : ModelInfo) (l : LoraLoading) (m : Manager)
    → IsSettled m
    → IsSettled (state_of (pull_applicable w e model l m))
IsSettled-pull_applicable w e model lora_no_client m h = h
IsSettled-pull_applicable w e model not_applicable m h = IsSettled-pull_plain w e model m h
IsSettled-pull_applicable w e model (applicable base) m h = IsSettled-pull_lora w e base m h

IsSettled-pull_new :
    (w : World) (e : PullModelEvent) (m : Manager)
    → IsSettled m
    → IsSettled (state_of (pull_new w e m))
unfolding pull_new
IsSettled-pull_new w e m h = elim (Option-cases (w.get_model e.model_id)) [
  | inl n ↦ ground arith
  | inr (info, n) ↦
      ground
        (arith, IsSettled-pull_applicable w e info (is_dynamic_lora_loading_applicable w m info) m)
]

pub process_pull_model_event-IsSettled :
    (w : World) (e : PullModelEvent) (m : Manager)
    → IsSettled m
    → IsSettled (state_of (process_pull_model_event w e m))
unfolding process_pull_model_event
process_pull_model_event-IsSettled w e m h = elim (Option-cases (lookup e.model_id m.runtimes)) [
  | inl n ↦ ground (arith, IsSettled-pull_new w e m)
  | inr (r, n) ↦ ground (arith, IsSettled-pull_known e r m)
]
