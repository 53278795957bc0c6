-- ===== src/Runtime/Machine/Accounts.antt =====
-- Where the channels are on which the callers of the manager wait.
use inference_manager.Base.{
  ==_iff, Distinct, List, Option, String, [], arith, contains, delete, false, if◌then◌else◌, insert,
  keys, lookup, map, nat_eq, none, refl, some, string_eq, ℕ, ◌++◌, ◌+◌, ◌==◌, ◌∷◌, ◌≡◌,
}
use inference_manager.Runtime.Events.{
  ManagerEvent, PullModelEvent, Runtime, Signal, closes, delete_model, errs, load_lora_adapter,
  lora_adapter_pull_status_check, lora_adapter_status_update, pull_model, readiness_check,
  reconcile_stateful_set, update_model,
}
use inference_manager.Runtime.Manager.{
  Closing, Manager, Outcome, and_then, close_all, close_pending, close_wait_chs, close_with,
  closed_all, closed_runtime, delete_runtime_unlocked, end_closing, goes_on, put_runtime,
  requeue_pending, signal, spawn, sticks, stops, stuck_at,
}
use inference_manager.Router.RouteMap.{model_eq}
pub mod Pulls
pub mod Deletions
pub mod Checks
pub mod Runs

abbrev pub one_if : ℕ → ℕ → ℕ
one_if c ch = if ch == c then 1 else 0

abbrev pub in_chs : ℕ → List ℕ → ℕ
in_chs c [] = 0
in_chs c (ch ∷ chs) = one_if c ch + in_chs c chs

abbrev pub in_ch : ℕ → Option ℕ → ℕ
in_ch c none = 0
in_ch c (some ch) = one_if c ch

abbrev pub in_requests : ℕ → List PullModelEvent → ℕ
in_requests c [] = 0
in_requests c (e ∷ es) = in_ch c e.ready_wait_ch + in_requests c es

-- How often the waiters and the pending requests of a runtime have the channel.
abbrev pub in_runtime : ℕ → Runtime → ℕ
in_runtime c r = in_chs c r.wait_chs + in_requests c r.pending_pull_model_requests

abbrev pub in_runtimes : ℕ → List (String × Runtime) → ℕ
in_runtimes c [] = 0
in_runtimes c ((k, r) ∷ m) = in_runtime c r + in_runtimes c m

abbrev pub in_event : ℕ → ManagerEvent → ℕ
in_event c (pull_model e) = in_ch c e.ready_wait_ch
in_event c (delete_model id ch) = in_ch c ch
in_event c (update_model id ch) = in_ch c ch
in_event c (reconcile_stateful_set name ch) = in_ch c ch
in_event c (readiness_check e) = in_ch c e.event_wait_ch
in_event c (lora_adapter_pull_status_check e) = in_ch c e.event_wait_ch
in_event c (lora_adapter_status_update u ch) = in_ch c ch
in_event c (load_lora_adapter id pod ch) = in_ch c ch

abbrev pub in_events : ℕ → List ManagerEvent → ℕ
in_events c [] = 0
in_events c (e ∷ es) = in_event c e + in_events c es

-- How often the channel was closed, or had an error sent.
abbrev pub answers : ℕ → List Signal → ℕ
answers c [] = 0
answers c (closes ch reason ∷ ss) = one_if c ch + answers c ss
answers c (errs ch err ∷ ss) = one_if c ch + answers c ss

abbrev pub waits_in : ℕ → Manager → ℕ
waits_in c m = in_runtimes c m.runtimes + in_events c m.spawned

abbrev pub holds : ℕ → Manager → ℕ
holds c m = waits_in c m + answers c m.signals

-- A handler that goes on leaves the channel at `n` places.
abbrev pub Keeps : ℕ → ℕ → Outcome → Type 0
Keeps c n (goes_on m) = holds c m ≡ n
Keeps c n (stops e m) = Unit {0}
Keeps c n (sticks s m) = Unit {0}

pub in_chs-append : (c : ℕ) (xs ys : List ℕ) → in_chs c (xs ++ ys) ≡ in_chs c xs + in_chs c ys
in_chs-append c [] ys = ground arith
in_chs-append c (x ∷ xs) ys = ground (arith, in_chs-append c xs ys)

pub in_requests-append :
    (c : ℕ) (xs ys : List PullModelEvent)
    → in_requests c (xs ++ ys) ≡ in_requests c xs + in_requests c ys
in_requests-append c [] ys = ground arith
in_requests-append c (x ∷ xs) ys = ground (arith, in_requests-append c xs ys)

pub in_events-append :
    (c : ℕ) (xs ys : List ManagerEvent) → in_events c (xs ++ ys) ≡ in_events c xs + in_events c ys
in_events-append c [] ys = ground arith
in_events-append c (x ∷ xs) ys = ground (arith, in_events-append c xs ys)

pub in_events-pull_model :
    (c : ℕ) (es : List PullModelEvent) → in_events c (map pull_model es) ≡ in_requests c es
in_events-pull_model c [] = refl
in_events-pull_model c (e ∷ es) = ground (arith, in_events-pull_model c es)

pub answers-append :
    (c : ℕ) (xs ys : List Signal) → answers c (xs ++ ys) ≡ answers c xs + answers c ys
answers-append c [] ys = ground arith
answers-append c (closes ch reason ∷ xs) ys = ground (arith, answers-append c xs ys)
answers-append c (errs ch err ∷ xs) ys = ground (arith, answers-append c xs ys)

pub answers-close_all :
    (c : ℕ) (reason : String) (chs : List ℕ) → answers c (close_all reason chs) ≡ in_chs c chs
answers-close_all c reason [] = refl
answers-close_all c reason (ch ∷ chs) = ground (arith, answers-close_all c reason chs)

pub answers-close_with :
    (c : ℕ) (reason : String) (ch : Option ℕ) → answers c (close_with reason ch) ≡ in_ch c ch
answers-close_with c reason none = refl
answers-close_with c reason (some ch) = ground arith

-- The channels of the runtime of a model.
abbrev pub at_model : ℕ → Option Runtime → ℕ
at_model c none = 0
at_model c (some r) = in_runtime c r

pub in_runtimes-insert :
    (c : ℕ) (k : String) (r : Runtime) (m : List (String × Runtime))
    → in_runtimes c (insert k r m) + at_model c (lookup k m) ≡ in_runtimes c m + in_runtime c r
unfolding insert lookup
in_runtimes-insert c k r [] = ground arith
in_runtimes-insert c k r ((j, s) ∷ m) = ground (arith, in_runtimes-insert c k r m)

in_runtimes-delete_absent :
    (c : ℕ) (k : String) (m : List (String × Runtime))
    → contains k (keys m) ≡ false
    → in_runtimes c (delete k m) ≡ in_runtimes c m
unfolding delete contains
in_runtimes-delete_absent c k [] h = refl
in_runtimes-delete_absent c k ((j, s) ∷ m) h = ground (arith, in_runtimes-delete_absent c k m)

pub in_runtimes-delete :
    (c : ℕ) (k : String) (m : List (String × Runtime))
    → Distinct (keys m)
    → in_runtimes c (delete k m) + at_model c (lookup k m) ≡ in_runtimes c m
unfolding delete lookup
in_runtimes-delete c k [] d = refl
in_runtimes-delete c k ((j, s) ∷ m) (out, d) =
    ground (arith, in_runtimes-delete c k m d, in_runtimes-delete_absent c k m, ==_iff j k)

pub holds-put_runtime :
    (c : ℕ) (k : String) (r : Runtime) (m : Manager)
    → holds c (put_runtime k r m) + at_model c (lookup k m.runtimes) ≡ holds c m + in_runtime c r
holds-put_runtime c k r m = ground (arith, in_runtimes-insert c k r m.runtimes)

pub holds-spawn :
    (c : ℕ) (e : ManagerEvent) (m : Manager) → holds c (spawn e m) ≡ holds c m + in_event c e
holds-spawn c e m = ground (arith, in_events-append c m.spawned (e ∷ []))

pub holds-signal :
    (c : ℕ) (ss : List Signal) (m : Manager) → holds c (signal ss m) ≡ holds c m + answers c ss
holds-signal c ss m = ground (arith, answers-append c m.signals ss)

pub holds-close_with :
    (c : ℕ) (reason : String) (ch : Option ℕ) (m : Manager)
    → holds c (signal (close_with reason ch) m) ≡ holds c m + in_ch c ch
holds-close_with c reason ch m =
    omega (arith, holds-signal c (close_with reason ch) m, answers-close_with c reason ch)

pub holds-requeue_pending :
    (c : ℕ) (r : Runtime) (m : Manager)
    → holds c (requeue_pending r m) ≡ holds c m + in_requests c r.pending_pull_model_requests
unfolding requeue_pending
holds-requeue_pending c r m =
    let ps = r.pending_pull_model_requests in
    ground (arith, in_events-append c m.spawned (map pull_model ps), in_events-pull_model c ps)

answers-close_pending :
    (c : ℕ) (reason : String) (es : List PullModelEvent) (ss : List Signal)
    → close_pending reason es ≡ closed_all ss
    → answers c ss ≡ in_requests c es
unfolding close_pending
answers-close_pending c reason [] ss h = ground arith
answers-close_pending c reason (e ∷ es) ss h =
    go (close_pending reason es) refl (answers-close_pending c reason es)
  where
    go :
        (x : Closing)
        → close_pending reason es ≡ x
        → ((ts : List Signal)
            → close_pending reason es ≡ closed_all ts
            → answers c ts ≡ in_requests c es)
        → answers c ss ≡ in_requests c (e ∷ es)
    go (stuck_at s ss) q rest = ground arith
    go (closed_all ts) q rest = ground (arith, rest ts)

-- `closeWaitChs` answers whoever waits for the runtime.
pub Keeps-close_wait_chs :
    (c n : ℕ) (reason k : String) (r : Runtime) (m : Manager)
    → n + at_model c (lookup k m.runtimes) ≡ holds c m + in_runtime c r
    → Keeps c n (close_wait_chs reason k r m)
unfolding close_wait_chs closed_runtime
Keeps-close_wait_chs c n reason k r m h =
    go (close_pending reason r.pending_pull_model_requests) refl
  where
    go :
        (x : Closing)
        → close_pending reason r.pending_pull_model_requests ≡ x
        → Keeps c n (end_closing reason k r m x)
    go (stuck_at s ss) q = tt
    go (closed_all ss) q =
        let m' = signal (close_all reason r.wait_chs ++ ss) m in
        omega (
          arith,
          h,
          holds-put_runtime c k (closed_runtime reason r) m',
          holds-signal c (close_all reason r.wait_chs ++ ss) m,
          answers-append c (close_all reason r.wait_chs) ss,
          answers-close_all c reason r.wait_chs,
          answers-close_pending c reason r.pending_pull_model_requests ss q,
        )

-- `deleteRuntimeUnlocked` answers the waiters, and the requests are to come again.
pub holds-delete_runtime_unlocked :
    (c : ℕ) (r : Runtime) (k : String) (m : Manager)
    → Distinct (keys m.runtimes)
    → at_model c (lookup k m.runtimes) ≡ in_runtime c r
    → holds c (delete_runtime_unlocked r k m) ≡ holds c m
unfolding delete_runtime_unlocked
holds-delete_runtime_unlocked c r k m d h =
    let closed = signal (close_all "runtime is deleted" r.wait_chs) m in
    omega (
      arith,
      h,
      in_runtimes-delete c k m.runtimes d,
      holds-requeue_pending c r closed,
      holds-signal c (close_all "runtime is deleted" r.wait_chs) m,
      answers-close_all c "runtime is deleted" r.wait_chs,
    )

pub Keeps-and_then :
    (c n k : ℕ) (o : Outcome) (f : Manager → Outcome)
    → Keeps c n o
    → ((m : Manager) → holds c m ≡ n → Keeps c k (f m))
    → Keeps c k (and_then o f)
Keeps-and_then c n k (goes_on m) f h g = g m h
Keeps-and_then c n k (stops e m) f h g = tt
Keeps-and_then c n k (sticks s m) f h g = tt
