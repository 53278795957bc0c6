-- ===== src/Engine/Runtimes/Attempts.antt =====
-- How often a runtime is tried, and whose answer is taken.
use inference_manager.Base.{
  Bool, List, Option, String, [], ap, arith, false, length, nat_eq, none, refl, some, string_eq,
  suc, true, zero, ℕ, ◌+◌, ◌<◌, ◌∙◌, ◌∷◌, ◌≡◌, ◌≤◌,
}
use inference_manager.Engine.Runtimes.{
  Attempt, Dialed, Reached, RuntimeResponse, attempts, cannot_connect, is_canceled, not_reached,
  one_attempt, reached, responds, send_http_request_to_runtime,
}
use inference_manager.Router.RouteMap.{model_eq}
use inference_manager.Router.Routing.{answer}
use inference_manager.Runtime.Machine.Accounts.{answers}

-- The addresses are those of the attempts from the n-th on, one after the other, and none of these
-- attempts could connect.
abbrev pub Failed : (ℕ → Attempt) → ℕ → List String → Type 0
Failed world n [] = Unit {0}
Failed world n (addr ∷ addrs) =
    ((world n).addr ≡ some addr) × ((world n).done ≡ cannot_connect) × Failed world (suc n) addrs

-- At most `left` addresses are blacklisted, and an answer is that of the attempt after them.
record Tried (left : ℕ) (world : ℕ → Attempt) (n : ℕ) (x : List String × Reached) : Type 0 where
  bound : length x.0 ≤ left
  failed : Failed world n x.0
  last_answers :
      (r : RuntimeResponse)
      → x.1 ≡ reached r
      → (length x.0 < left) × ((world (n + length x.0)).done ≡ responds r)

gives_up : (left : ℕ) (world : ℕ → Attempt) (n code : ℕ) → Tried left world n ([], not_reached code)
gives_up left world n code = record {
  bound = omega arith;
  failed = tt;
  last_answers = λ r h. absurd (cc h);
}

one_attempt-Tried :
    (left : ℕ) (world : ℕ → Attempt) (n : ℕ) (a : Option String) (built : Bool) (d : Dialed)
    (ok : Bool) (later : List String × Reached)
    → (world n).addr ≡ a
    → (world n).done ≡ d
    → Tried left world (suc n) later
    → Tried (suc left) world n (one_attempt a built d ok later)
one_attempt-Tried left world n none built d ok later p q t = gives_up (suc left) world n 500
one_attempt-Tried left world n (some addr) false d ok later p q t = gives_up (suc left) world n 500
one_attempt-Tried left world n (some addr) true (responds r) ok later p q t = record {
  bound = omega arith;
  failed = tt;
  last_answers = λ r' h. (omega arith, ap (λ k. (world k).done) (omega arith) ∙ q ∙ cc h);
}
one_attempt-Tried left world n (some addr) true is_canceled ok later p q t =
    gives_up (suc left) world n 503
one_attempt-Tried left world n (some addr) true cannot_connect false later p q t =
    gives_up (suc left) world n 500
one_attempt-Tried left world n (some addr) true cannot_connect true later p q t = record {
  bound = omega (arith, t.bound);
  failed = (p, q, t.failed);
  last_answers = λ r h.
      let (few, answers) = t.last_answers r h in
      (omega (arith, few), ap (λ k. (world k).done) (omega arith) ∙ answers);
}

attempts-Tried :
    (left : ℕ) (world : ℕ → Attempt) (n : ℕ) → Tried left world n (attempts left world n)
unfolding attempts
attempts-Tried zero world n = gives_up zero world n 500
attempts-Tried (suc left) world n =
    let a = world n in
    one_attempt-Tried left world n a.addr a.built a.done a.blacklisted (attempts left world (suc n))
      refl refl (attempts-Tried left world (suc n))

-- In all cases at most three addresses are blacklisted, and they are those of the first attempts,
-- none of which could connect; when a runtime is reached, they are fewer than three, and the
-- answer is that of the next attempt.
pub send_http_request-tried :
    (world : ℕ → Attempt)
    → let (addrs, answer) = send_http_request_to_runtime world in
      (length addrs ≤ 3)
      × Failed world 0 addrs
      × ((r : RuntimeResponse)
          → answer ≡ reached r
          → (length addrs < 3) × ((world (length addrs)).done ≡ responds r))
unfolding send_http_request_to_runtime
send_http_request-tried world =
    let t = attempts-Tried 3 world 0 in
    (
      t.bound,
      t.failed,
      λ r h.
          let (few, answers) = t.last_answers r h in
          (few, ap (λ k. (world k).done) (omega arith) ∙ answers),
    )
