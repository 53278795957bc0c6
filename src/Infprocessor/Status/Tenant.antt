-- ===== src/Infprocessor/Status/Tenant.antt =====
-- The status of all tenants against the status of one.
use inference_manager.Base.{
  ==_iff, ==_refl, All, Bool, Bool-cases, List, String, [], ap, arith, contains, false,
  if◌then◌else◌, inl, inr, insert, keys, lookup, lookup-insert, lookup-map_values, nat_eq, none,
  or_else, refl, some, string_eq, subst, sym, true, ◌==◌, ◌∙◌, ◌∷◌, ◌≡◌, ◌⊎◌,
}
use inference_manager.Infprocessor.Task.{Task, model}
use inference_manager.Infprocessor.State.{Engine, Processor, in_progress}
use inference_manager.Infprocessor.Status.{
  Counts, ShownEngine, TenantStatus, count_model, count_task, dump_status, dump_tenant_status,
  finish_engine, finish_engines, finish_tenant, no_status, show_task, show_tasks, show_tenant_tasks,
  shown_engines, shown_tenants,
}

-- What `es` holds of an engine that is shown: one of its engines, or nothing but tasks.
abbrev Backed : List String → String × ShownEngine → Type 0
Backed ids x = (x.1.models ≡ []) ⊎ (contains x.0 ids ≡ true)

All-insert :
    (ids : List String) (k : String) (v : ShownEngine) (m : List (String × ShownEngine))
    → Backed ids (k, v)
    → All (Backed ids) m
    → All (Backed ids) (insert k v m)
unfolding insert
All-insert ids k v [] b a = (b, tt)
All-insert ids k v ((j, w) ∷ m) b (x, a) = elim (Bool-cases (j == k)) [
  | inl h ↦ rw h (subst (λ i. Backed ids (i, v)) (sym ((==_iff j k).0 h)) b, a)
  | inr h ↦ rw h (x, All-insert ids k v m b a)
]

Backed-lookup :
    (ids : List String) (k : String) (m : List (String × ShownEngine))
    → All (Backed ids) m
    → Backed ids (k, or_else (lookup k m) no_status)
unfolding lookup
Backed-lookup ids k [] a = inl refl
Backed-lookup ids k ((j, w) ∷ m) (x, a) = elim (Bool-cases (j == k)) [
  | inl h ↦ rw h (subst (λ i. Backed ids (i, w)) ((==_iff j k).0 h) x)
  | inr h ↦ rw h (Backed-lookup ids k m a)
]

Backed-show_task :
    (ids : List String) (t : Task) (s : TenantStatus)
    → All (Backed ids) s.engines
    → All (Backed ids) (show_task t s).engines
unfolding show_task
Backed-show_task ids t s a =
    All-insert ids t.engine_id _ s.engines (Backed-lookup ids t.engine_id s.engines a) a

Backed-shown :
    (ids : List String) (es : List (String × Engine))
    → ((k : String) → contains k (keys es) ≡ true → contains k ids ≡ true)
    → All (Backed ids) (shown_engines es)
unfolding shown_engines contains
Backed-shown ids [] sub = tt
Backed-shown ids ((k, e) ∷ es) sub =
    (inr (sub k (rw (==_refl k) refl)), Backed-shown ids es (λ j h. sub j (ground (arith, h))))

-- Two counts agree on the engines of the tenant.
abbrev Agree : List String → Counts → Counts → Type 0
Agree ids c d = (k : String) → contains k ids ≡ true → lookup k c ≡ lookup k d

lookup-count_task :
    (k : String) (t : Task) (c : Counts)
    → lookup k (count_task t c) ≡ (
        if t.engine_id == k
        then some (count_model (model t) (or_else (lookup t.engine_id c) []))
        else lookup k c)
unfolding count_task
lookup-count_task k t c =
    lookup-insert k t.engine_id (count_model (model t) (or_else (lookup t.engine_id c) [])) c

Agree-count_task :
    (ids : List String) (t : Task) (c d : Counts)
    → Agree ids c d
    → Agree ids (count_task t c) (count_task t d)
Agree-count_task ids t c d a k h = elim (Bool-cases (t.engine_id == k)) [
  | inl e ↦
      let same : lookup t.engine_id c ≡ lookup t.engine_id d =
        a t.engine_id (ap (λ i. contains i ids) ((==_iff t.engine_id k).0 e) ∙ h) in
      rw (lookup-count_task k t c, lookup-count_task k t d, e, same) refl
  | inr e ↦ rw (lookup-count_task k t c, lookup-count_task k t d, e) (a k h)
]

Agree-skip :
    (ids : List String) (t : Task) (c d : Counts)
    → contains t.engine_id ids ≡ false
    → Agree ids c d
    → Agree ids (count_task t c) d
Agree-skip ids t c d out a k h = elim (Bool-cases (t.engine_id == k)) [
  | inl e ↦ absurd (cc (out, h, (==_iff t.engine_id k).0 e))
  | inr e ↦ rw (lookup-count_task k t c, e) (a k h)
]

finish_engines-Agree :
    (ids : List String) (c d : Counts) (m : List (String × ShownEngine))
    → Agree ids c d
    → All (Backed ids) m
    → finish_engines c m ≡ finish_engines d m
unfolding finish_engines finish_engine
finish_engines-Agree ids c d [] a b = refl
finish_engines-Agree ids c d ((k, e) ∷ m) a (x, b) =
    λ i. (k, one x i) ∷ finish_engines-Agree ids c d m a b i
  where
    one : Backed ids (k, e) → finish_engine c k e ≡ finish_engine d k e
    one (inl n) = rw n refl
    one (inr h) = rw (a k h) refl

lookup-shown_tenants :
    (t : String) (m : List (String × List (String × Engine)))
    → lookup t (shown_tenants m)
      ≡ (elim (lookup t m) [ none ↦ none | some es ↦ some (record { engines = shown_engines es }) ])
unfolding lookup shown_tenants
lookup-shown_tenants t [] = refl
lookup-shown_tenants t ((j, es) ∷ m) = ground (arith, lookup-shown_tenants t m)

-- The tasks in progress do not mix engines that share an ID.
abbrev pub Unshared : String → List String → Task → Type 0
Unshared tenant_id ids t = ((t.tenant_id == tenant_id) ≡ true) ⊎ (contains t.engine_id ids ≡ false)

-- What the loops over the tasks have in common.
record Alike (tenant_id : String) (ids : List String) (m : List (String × TenantStatus))
    (c : Counts) (s : TenantStatus) (d : Counts) : Type 0 where
  shown : lookup tenant_id m ≡ some s
  agree : Agree ids c d
  backed : All (Backed ids) s.engines

shown_for : List (String × TenantStatus) → Task → TenantStatus
shown_for m t = show_task t (or_else (lookup t.tenant_id m) (record { engines = [] }))

step-Alike :
    (tenant_id : String) (ids : List String) (t : Task) (m : List (String × TenantStatus))
    (c : Counts) (s : TenantStatus) (d : Counts) (own : Bool)
    → (t.tenant_id == tenant_id) ≡ own
    → Unshared tenant_id ids t
    → Alike tenant_id ids m c s d
    → Alike tenant_id ids
        (insert t.tenant_id (shown_for m t) m)
        (count_task t c)
        (if own then show_task t s else s)
        (if own then count_task t d else d)
unfolding shown_for
step-Alike tenant_id ids t m c s d true own u a = record {
  shown =
      let there : lookup t.tenant_id m ≡ some s =
        ap (λ i. lookup i m) ((==_iff t.tenant_id tenant_id).0 own) ∙ a.shown in
      lookup-insert tenant_id t.tenant_id (shown_for m t) m ∙ rw (own, there) refl;
  agree = Agree-count_task ids t c d a.agree;
  backed = Backed-show_task ids t s a.backed;
}
step-Alike tenant_id ids t m c s d false other u a = record {
  shown = lookup-insert tenant_id t.tenant_id (shown_for m t) m ∙ rw other a.shown;
  agree = Agree-skip ids t c d (elim u [ inl o ↦ absurd (cc (o, other)) | inr o ↦ o ]) a.agree;
  backed = a.backed;
}

show_tasks-Alike :
    (tenant_id : String) (ids : List String) (ts : List Task) (m : List (String × TenantStatus))
    (c : Counts) (s : TenantStatus) (d : Counts)
    → All (Unshared tenant_id ids) ts
    → Alike tenant_id ids m c s d
    → Alike tenant_id ids
        (show_tasks ts m c).0
        (show_tasks ts m c).1
        (show_tenant_tasks tenant_id ts s d).0
        (show_tenant_tasks tenant_id ts s d).1
unfolding show_tasks show_tenant_tasks shown_for
show_tasks-Alike tenant_id ids [] m c s d u a = a
show_tasks-Alike tenant_id ids (t ∷ ts) m c s d (u, us) a =
    show_tasks-Alike tenant_id ids ts _ _ _ _ us
      (step-Alike tenant_id ids t m c s d (t.tenant_id == tenant_id) refl u a)

-- The status of all tenants shows a tenant that has engines as the status of this tenant alone
-- does, where no task of another tenant is on an engine with the ID of one of them.
pub dump_status-tenant :
    (p : Processor) (tenant_id : String) (es : List (String × Engine))
    → lookup tenant_id p.engines ≡ some es
    → All (Unshared tenant_id (keys es)) (in_progress p)
    → lookup tenant_id (dump_status p).tenants ≡ some (dump_tenant_status tenant_id p)
unfolding dump_status dump_tenant_status
dump_status-tenant p tenant_id es h u =
    let s : TenantStatus = record { engines = shown_engines es } in
    let a =
      show_tasks-Alike tenant_id (keys es) (in_progress p) (shown_tenants p.engines) [] s [] u
        (record {
          shown = lookup-shown_tenants tenant_id p.engines ∙ rw h refl;
          agree = λ k i. refl;
          backed = Backed-shown (keys es) es (λ k i. i);
        }) in
    lookup-map_values (finish_tenant _) tenant_id _
    ∙ rw (a.shown, h)
        (ap some
          (λ i. record { engines = finish_engines-Agree (keys es) _ _ _ a.agree a.backed i }))
