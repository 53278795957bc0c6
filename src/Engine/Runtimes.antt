-- ===== src/Engine/Runtimes.antt =====
-- `sendHTTPRequestToRuntime`: the attempts to reach a runtime.
use inference_manager.Base.{
  Bool, List, Option, String, [], false, nat_eq, none, some, string_eq, suc, true, zero, ℕ, ◌∷◌,
}
use inference_manager.Router.RouteMap.{model_eq}
pub mod Attempts

-- What the runtime answers: the body is the bytes that can be read.
pub record RuntimeResponse : Type 0 where
  pub status_code : ℕ
  pub status : String
  pub header : List (String × List String)
  pub body : List ℕ
  -- Whether the end of the body is an error, and whether the reader gives its end together with the
  -- last bytes.
  pub read_fails : Bool
  pub end_with_data : Bool

pub data Dialed : Type 0 where
  responds : RuntimeResponse → Dialed
  is_canceled cannot_connect : Dialed

-- One attempt: `none` where there is no address, and what else can fail.
pub record Attempt : Type 0 where
  pub addr : Option String
  pub built : Bool
  pub done : Dialed
  pub blacklisted : Bool

-- The answer of the loop, with the status code of the error.
pub data Reached : Type 0 where
  reached : RuntimeResponse → Reached
  not_reached : ℕ → Reached

abbrev pub runtime_request_max_retries : ℕ
runtime_request_max_retries = 3

-- One round of the loop, with what the later rounds give: the addresses that are blacklisted,
-- oldest first, and the answer.
abbrev pub one_attempt :
    Option String → Bool → Dialed → Bool → List String × Reached → List String × Reached
one_attempt none built d blacklisted later = ([], not_reached 500)
one_attempt (some addr) false d blacklisted later = ([], not_reached 500)
one_attempt (some addr) true (responds r) blacklisted later = ([], reached r)
one_attempt (some addr) true is_canceled blacklisted later = ([], not_reached 503)
one_attempt (some addr) true cannot_connect false later = ([], not_reached 500)
one_attempt (some addr) true cannot_connect true later = (addr ∷ later.0, later.1)

-- `left` attempts may still fail; the next one is the n-th.
unfoldable pub attempts : ℕ → (ℕ → Attempt) → ℕ → List String × Reached
attempts zero world n = ([], not_reached 500)
attempts (suc left) world n =
    let a = world n in one_attempt a.addr a.built a.done a.blacklisted (attempts left world (suc n))

unfoldable pub send_http_request_to_runtime : (ℕ → Attempt) → List String × Reached
unfolding attempts
send_http_request_to_runtime world = attempts runtime_request_max_retries world 0
