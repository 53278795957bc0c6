-- ===== src/Taskexchanger/Exchanger/History.antt =====
-- The exchanger over a history of other servers and of its own engines.
use inference_manager.Base.{Bool, List, String, [], arith, lookup, nat_eq, string_eq, ℕ, ◌∷◌}
use inference_manager.Infprocessor.State.{new_p}
use inference_manager.Infprocessor.History.{
  Operation, new_p-IsConsistent, operate, operate-IsConsistent,
}
use inference_manager.Router.Routing.{new}
use inference_manager.Taskexchanger.Exchanger.{
  Exchanger, add_or_update_server_status, new_e, remove_server,
}
use inference_manager.Router.RouteMap.{model_eq}
use inference_manager.Taskexchanger.Exchanger.Servers.{
  IsInStep, remove_server-IsInStep, server_status-IsInStep,
}
use inference_manager.Taskexchanger.Sender.{StatusWithTenantId}

pub data ServerEvent : Type 0 where
  server_reports : ℕ → String → List StatusWithTenantId → ServerEvent
  server_goes : String → ServerEvent
  here : Operation → ServerEvent

module _ (sender_for : ℕ → String → ℕ) where
  pub see : ServerEvent → Exchanger → Exchanger
  see (server_reports srv name statuses) e =
      add_or_update_server_status sender_for srv name statuses e
  see (server_goes name) e = remove_server sender_for name e
  see (here o) e = record e { inf_processor = operate o e.inf_processor }

  pub see_all : List ServerEvent → Exchanger → Exchanger
  see_all [] e = e
  see_all (v ∷ vs) e = see_all vs (see v e)

  see-IsInStep : (v : ServerEvent) (e : Exchanger) → IsInStep e → IsInStep (see v e)
  unfolding see
  see-IsInStep (server_reports srv name statuses) e h =
      server_status-IsInStep sender_for srv name statuses e h
  see-IsInStep (server_goes name) e h = remove_server-IsInStep sender_for name e h
  see-IsInStep (here o) e h = record {
    consistent = operate-IsConsistent o e.inf_processor h.consistent;
    keyed = h.keyed;
  }

  see_all-IsInStep : (vs : List ServerEvent) (e : Exchanger) → IsInStep e → IsInStep (see_all vs e)
  unfolding see_all
  see_all-IsInStep [] e h = h
  see_all-IsInStep (v ∷ vs) e h = see_all-IsInStep vs (see v e) (see-IsInStep v e h)

  -- After any history of reports and removals of other servers, and of the processor's own
  -- engines, on a new exchanger, the processor's engines and router are in step, and each sender's
  -- engines stand under their IDs.
  pub new_e-IsInStep :
      (dynamic : Bool) (pod_name port : String) (vs : List ServerEvent)
      → IsInStep (see_all vs (new_e (new_p (new dynamic)) pod_name port))
  unfolding new_e lookup
  new_e-IsInStep dynamic pod_name port vs =
      see_all-IsInStep vs (new_e (new_p (new dynamic)) pod_name port)
        (record { consistent = new_p-IsConsistent dynamic; keyed = λ name s h. ground arith })
