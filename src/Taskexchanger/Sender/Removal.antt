-- ===== src/Taskexchanger/Sender/Removal.antt =====
-- The engines that another server no longer reports are gone.
use inference_manager.Base.{
  ==_iff, All, Bool, Bool-cases, List, Option, Option-cases, String, [], ap, arith, contains,
  contains-keys, contains-keys-insert, false, inl, inr, insert, keys, lookup, map, nat_eq, none,
  not, refl, some, string_eq, sym, true, ℕ, ◌&&◌, ◌==◌, ◌||◌, ◌∙◌, ◌∷◌, ◌≡◌,
}
use inference_manager.Infprocessor.State.{Processor, tenant_engines}
use inference_manager.Infprocessor.Engines.{add_or_update_engine_status, remove_engine}
use inference_manager.Infprocessor.Engines.Consistency.{
  IsConsistent, lookup-remove_engine, lookup_reported, remove_engine-IsConsistent,
  status-IsConsistent,
}
use inference_manager.Taskexchanger.Sender.{
  ActiveEngineStatus, StatusWithTenantId, TaskSender, add_or_update_engines, register,
  remove_engines, reported_engines, to_delete,
}

-- Whether the processor has an engine of a tenant.
abbrev is_some {ℓ} : {A : Type ℓ} → Option A → Bool
is_some none = false
is_some (some x) = true

abbrev pub has_engine : Processor → String → String → Bool
has_engine p t x = is_some (lookup x (tenant_engines p t))

-- Whether a report names an engine of a tenant, and whether a list of engines does.
abbrev pub reports : String → String → List StatusWithTenantId → Bool
reports t x [] = false
reports t x (s ∷ statuses) =
    s.tenant_id == t && s.engine_status.engine_id == x || reports t x statuses

abbrev pub lists : String → String → List ActiveEngineStatus → Bool
lists t x [] = false
lists t x (a ∷ rest) = a.tenant_id == t && a.engine_id == x || lists t x rest

module _ (sender_for : ℕ → String → ℕ) where
  has_engine-register :
      (srv : ℕ) (statuses : List StatusWithTenantId) (p : Processor) (t x : String)
      → has_engine (register sender_for srv statuses p) t x
        ≡ (reports t x statuses || has_engine p t x)
  unfolding register
  has_engine-register srv [] p t x = refl
  has_engine-register srv (s ∷ statuses) p t x =
      let sender = sender_for srv s.tenant_id in
      has_engine-register srv statuses
        (add_or_update_engine_status sender s.engine_status s.tenant_id false p) t x
      ∙ ground (arith, ap is_some (lookup_reported p sender s.engine_status s.tenant_id false t x))

  register-IsConsistent :
      (srv : ℕ) (statuses : List StatusWithTenantId) (p : Processor)
      → IsConsistent p
      → IsConsistent (register sender_for srv statuses p)
  unfolding register
  register-IsConsistent srv [] p v = v
  register-IsConsistent srv (s ∷ statuses) p v =
      register-IsConsistent srv statuses _
        (status-IsConsistent p (sender_for srv s.tenant_id) s.engine_status s.tenant_id false v)

has_engine-remove_engines :
    (rest : List ActiveEngineStatus) (p : Processor) (t x : String)
    → has_engine (remove_engines rest p) t x ≡ (not (lists t x rest) && has_engine p t x)
unfolding remove_engines
has_engine-remove_engines [] p t x = refl
has_engine-remove_engines (a ∷ rest) p t x =
    has_engine-remove_engines rest (remove_engine a.engine_id a.tenant_id p) t x
    ∙ ground (arith, ap is_some (lookup-remove_engine a.engine_id a.tenant_id p t x))

remove_engines-IsConsistent :
    (rest : List ActiveEngineStatus) (p : Processor)
    → IsConsistent p
    → IsConsistent (remove_engines rest p)
unfolding remove_engines
remove_engines-IsConsistent [] p v = v
remove_engines-IsConsistent (a ∷ rest) p v =
    remove_engines-IsConsistent rest _ (remove_engine-IsConsistent a.engine_id a.tenant_id p v)

-- The active engines stand under their IDs.
abbrev pub Keyed : List (String × ActiveEngineStatus) → Type 0
Keyed = All (λ x. x.1.engine_id ≡ x.0)

Keyed-insert :
    (id t : String) (m : List (String × ActiveEngineStatus))
    → Keyed m
    → Keyed (insert id (record { engine_id = id; tenant_id = t }) m)
unfolding insert
Keyed-insert id t [] k = (refl, tt)
Keyed-insert id t ((j, a) ∷ m) (h, k) = elim (Bool-cases (j == id)) [
  | inl c ↦ rw c (sym ((==_iff j id).0 c), k)
  | inr c ↦ rw c (h, Keyed-insert id t m k)
]

reported_engines-Keyed :
    (statuses : List StatusWithTenantId) (m : List (String × ActiveEngineStatus))
    → Keyed m
    → Keyed (reported_engines statuses m)
unfolding reported_engines
reported_engines-Keyed [] m k = k
reported_engines-Keyed (s ∷ statuses) m k =
    reported_engines-Keyed statuses _ (Keyed-insert s.engine_status.engine_id s.tenant_id m k)

-- Whether a report names an engine of this ID, of whatever tenant.
abbrev pub reports_id : String → List StatusWithTenantId → Bool
reports_id x [] = false
reports_id x (s ∷ statuses) = s.engine_status.engine_id == x || reports_id x statuses

reports_id-reports :
    (t x : String) (statuses : List StatusWithTenantId)
    → reports t x statuses ≡ true
    → reports_id x statuses ≡ true
reports_id-reports t x [] h = absurd (cc h)
reports_id-reports t x (s ∷ statuses) h = ground (arith, h, reports_id-reports t x statuses)

contains-reported_engines :
    (x : String) (statuses : List StatusWithTenantId) (m : List (String × ActiveEngineStatus))
    → contains x (keys (reported_engines statuses m))
      ≡ (reports_id x statuses || contains x (keys m))
unfolding reported_engines
contains-reported_engines x [] m = refl
contains-reported_engines x (s ∷ statuses) m =
    let a : ActiveEngineStatus = record {
      engine_id = s.engine_status.engine_id;
      tenant_id = s.tenant_id;
    } in
    contains-reported_engines x statuses (insert s.engine_status.engine_id a m)
    ∙ ground (arith, contains-keys-insert x s.engine_status.engine_id a m)

abbrev pub active_list : List (String × ActiveEngineStatus) → List ActiveEngineStatus
active_list = map (λ x. x.1)

lists-to_delete :
    (t x : String) (engines active : List (String × ActiveEngineStatus))
    → Keyed active
    → lists t x (to_delete engines active)
      ≡ (not (contains x (keys engines)) && lists t x (active_list active))
unfolding to_delete
lists-to_delete t x engines [] k = ground arith
lists-to_delete t x engines ((id, a) ∷ active) (h, k) = elim (Option-cases (lookup id engines)) [
  | inl n ↦ rw (to_delete, n) (ground (arith, lists-to_delete t x engines active k, at_x n))
  | inr (b, n) ↦ rw (to_delete, n) (ground (arith, lists-to_delete t x engines active k, at_x n))
]
  where
    at_x :
        {o : Option ActiveEngineStatus}
        → lookup id engines ≡ o
        → (a.engine_id == x) ≡ true
        → contains x (keys engines) ≡ is_some o
    at_x n e =
        contains-keys x engines
        ∙ ap is_some (ap (λ i. lookup i engines) (sym ((==_iff a.engine_id x).0 e) ∙ h) ∙ n)

module _ (sender_for : ℕ → String → ℕ) (statuses : List StatusWithTenantId) (s : TaskSender)
    (p : Processor) (k : Keyed s.active_engines) where
  -- After a report of another server whose active engines stand under their IDs, the processor has
  -- exactly the engines of the report and those it had, less the active engines of this server
  -- whose IDs the report does not name.
  pub add_or_update_engines-has_engine :
      (t x : String)
      → has_engine (add_or_update_engines sender_for statuses s p).1 t x ≡ (
          not (lists t x (active_list s.active_engines) && not (reports_id x statuses))
          && (reports t x statuses || has_engine p t x))
  unfolding add_or_update_engines contains
  add_or_update_engines-has_engine t x =
      let engines = reported_engines statuses [] in
      has_engine-remove_engines (to_delete engines s.active_engines)
        (register sender_for s.task_sender_srv statuses p) t x
      ∙ ground (
        arith,
        lists-to_delete t x engines s.active_engines k,
        contains-reported_engines x statuses [],
        has_engine-register sender_for s.task_sender_srv statuses p t x,
      )

  -- After a report of another server whose active engines stand under their IDs, the processor has
  -- each engine that the report names for its tenant.
  pub reported_there :
      (t x : String)
      → reports t x statuses ≡ true
      → has_engine (add_or_update_engines sender_for statuses s p).1 t x ≡ true
  reported_there t x h =
      add_or_update_engines-has_engine t x ∙ ground (arith, h, reports_id-reports t x statuses h)

  -- After a report of another server whose active engines stand under their IDs, the processor no
  -- longer has an active engine whose ID the report does not name.
  pub unreported_gone :
      (t x : String)
      → lists t x (active_list s.active_engines) ≡ true
      → reports_id x statuses ≡ false
      → has_engine (add_or_update_engines sender_for statuses s p).1 t x ≡ false
  unreported_gone t x a r = add_or_update_engines-has_engine t x ∙ ground (arith, a, r)

  -- A report of another server to a sender whose active engines stand under their IDs keeps the
  -- processor's engines and router in step, and the new active engines stand under their IDs.
  pub add_or_update_engines-Kept :
      IsConsistent p
      → IsConsistent (add_or_update_engines sender_for statuses s p).1
        × Keyed (add_or_update_engines sender_for statuses s p).0.active_engines
  unfolding add_or_update_engines
  add_or_update_engines-Kept v = (
    remove_engines-IsConsistent (to_delete (reported_engines statuses []) s.active_engines) _
        (register-IsConsistent sender_for s.task_sender_srv statuses p v),
    reported_engines-Keyed statuses [] tt,
  )
