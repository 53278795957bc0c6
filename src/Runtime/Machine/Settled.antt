-- ===== src/Runtime/Machine/Settled.antt =====
-- The runtimes that the handlers leave behind.
use inference_manager.Base.{
  Bool, Distinct, Distinct-delete, Distinct-insert, List, Option, String, [], arith, delete, false,
  insert, keys, lookup, nat_eq, none, not, refl, some, string_eq, true, ◌&&◌, ◌++◌, ◌||◌, ◌∷◌, ◌≡◌,
  ◌⊎◌,
}
use inference_manager.Runtime.Events.{Runtime}
use inference_manager.Runtime.Manager.{
  Closing, Manager, Outcome, and_then, close_all, close_pending, close_wait_chs, closed_all,
  closed_runtime, delete_runtime_unlocked, end_closing, goes_on, put_runtime, signal, sticks, stops,
  stuck_at,
}
use inference_manager.Router.RouteMap.{model_eq}
pub mod Pulls
pub mod Deletions
pub mod Checks
pub mod Runs

abbrev pub is_empty {ℓ} : {A : Type ℓ} → List A → Bool
is_empty [] = true
is_empty (x ∷ xs) = false

abbrev pub is_some {ℓ} : {A : Type ℓ} → Option A → Bool
is_some none = false
is_some (some x) = true

-- Nobody waits for a runtime that is ready, and it has an address set.
unfoldable pub settled : Runtime → Bool
settled r =
    not r.ready
    || (is_empty r.wait_chs && is_empty r.pending_pull_model_requests && is_some r.addr_set)

unfoldable pub all_settled : List (String × Runtime) → Bool
all_settled [] = true
all_settled ((k, r) ∷ m) = settled r && all_settled m

abbrev pub IsSettled : Manager → Type 0
IsSettled m = (all_settled m.runtimes ≡ true) × Distinct (keys m.runtimes)

-- The state after a handler, however it ends.
abbrev pub state_of : Outcome → Manager
state_of (goes_on m) = m
state_of (stops e m) = m
state_of (sticks s m) = m

pub all_settled-insert :
    (k : String) (r : Runtime) (m : List (String × Runtime))
    → settled r ≡ true
    → all_settled m ≡ true
    → all_settled (insert k r m) ≡ true
unfolding all_settled insert
all_settled-insert k r [] h a = ground arith
all_settled-insert k r ((j, s) ∷ m) h a = ground (arith, all_settled-insert k r m)

pub all_settled-delete :
    (k : String) (m : List (String × Runtime))
    → all_settled m ≡ true
    → all_settled (delete k m) ≡ true
unfolding all_settled delete
all_settled-delete k [] a = refl
all_settled-delete k ((j, s) ∷ m) a = ground (arith, all_settled-delete k m)

pub all_settled-lookup :
    (k : String) (m : List (String × Runtime)) (r : Runtime)
    → all_settled m ≡ true
    → lookup k m ≡ some r
    → settled r ≡ true
unfolding all_settled lookup
all_settled-lookup k [] r a h = ground arith
all_settled-lookup k ((j, s) ∷ m) r a h = ground (arith, all_settled-lookup k m r)

pub IsSettled-put_runtime :
    (k : String) (r : Runtime) (m : Manager)
    → settled r ≡ true
    → IsSettled m
    → IsSettled (put_runtime k r m)
IsSettled-put_runtime k r m h (a, d) =
    (all_settled-insert k r m.runtimes h a, Distinct-insert k r m.runtimes d)

pub IsSettled-and_then :
    (o : Outcome) (f : Manager → Outcome)
    → IsSettled (state_of o)
    → ((m : Manager) → IsSettled m → IsSettled (state_of (f m)))
    → IsSettled (state_of (and_then o f))
IsSettled-and_then (goes_on m) f h k = k m h
IsSettled-and_then (stops e m) f h k = h
IsSettled-and_then (sticks s m) f h k = h

-- A runtime that may be closed: nothing is pending for one that is ready.
abbrev pub Closable : Runtime → Type 0
Closable r =
    (r.ready ≡ false)
    ⊎ ((is_some r.addr_set ≡ true) × (is_empty r.pending_pull_model_requests ≡ true))

settled-closed_runtime :
    (reason : String) (r : Runtime) → Closable r → settled (closed_runtime reason r) ≡ true
unfolding settled closed_runtime
settled-closed_runtime reason r ok = ground arith

settled-half_closed :
    (reason : String) (r : Runtime)
    → Closable r
    → settled (record r { wait_chs = []; last_err_reason = reason }) ≡ true
unfolding settled
settled-half_closed reason r ok = ground arith

IsSettled-end_closing :
    (reason model_id : String) (r : Runtime) (m : Manager) (c : Closing)
    → Closable r
    → IsSettled m
    → IsSettled (state_of (end_closing reason model_id r m c))
IsSettled-end_closing reason model_id r m (stuck_at s ss) ok h =
    IsSettled-put_runtime model_id (record r { wait_chs = []; last_err_reason = reason })
      (signal (close_all reason r.wait_chs ++ ss) m) (settled-half_closed reason r ok) h
IsSettled-end_closing reason model_id r m (closed_all ss) ok h =
    IsSettled-put_runtime model_id (closed_runtime reason r)
      (signal (close_all reason r.wait_chs ++ ss) m) (settled-closed_runtime reason r ok) h

pub IsSettled-close_wait_chs :
    (reason model_id : String) (r : Runtime) (m : Manager)
    → Closable r
    → IsSettled m
    → IsSettled (state_of (close_wait_chs reason model_id r m))
unfolding close_wait_chs
IsSettled-close_wait_chs reason model_id r m =
    IsSettled-end_closing reason model_id r m (close_pending reason r.pending_pull_model_requests)

pub IsSettled-delete_runtime_unlocked :
    (r : Runtime) (k : String) (m : Manager)
    → IsSettled m
    → IsSettled (delete_runtime_unlocked r k m)
unfolding delete_runtime_unlocked
IsSettled-delete_runtime_unlocked r k m (a, d) =
    (all_settled-delete k m.runtimes a, Distinct-delete k m.runtimes d)
