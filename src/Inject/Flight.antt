-- ===== src/Inject/Flight.antt =====
-- The counters of inject.py against the handlers that are under way.
use browserbench.Prelude.{
  ℕ, suc, ◌+◌, String, ◌≡◌, Bool, true, false, some, List, [], arith, length, length-append,
}
use browserbench.Json.{pos}
use browserbench.Inject.Upstream.{Bytes, BytesDecoder}
use browserbench.Inject.State.{
  new_proxy, request_accepted, request_finished, count_forward, record_attempt, record_request,
  Proxy,
}
use browserbench.Inject.Threads.{
  is_send_work, move, run, System, Handler, accepted, attempted, forwarding, answered, dropping,
  closing, noted, recorded, finished, Step,
}
use browserbench.Inject.Count.{total, run-keeps, IsKept}

-- A handler thread that has not left.
abbrev pub live : Handler → ℕ
live finished = 0
live _ = 1

-- A request that is counted and has no receipt yet.
abbrev pub open_request : Handler → ℕ
open_request accepted = 0
open_request (noted w) = 0
open_request recorded = 0
open_request finished = 0
open_request _ = 1

abbrev pub one_if : Bool → ℕ
one_if true = 1
one_if false = 0

-- An attempt that is counted and has no receipt yet.
abbrev pub open_attempts : Handler → ℕ
open_attempts (attempted w) = one_if (is_send_work w)
open_attempts (forwarding w) = one_if (is_send_work w)
open_attempts (answered w) = one_if (is_send_work w)
open_attempts (dropping w) = one_if (is_send_work w)
open_attempts (closing w) = one_if (is_send_work w)
open_attempts (noted w) = one_if (is_send_work w)
open_attempts _ = 0

abbrev pub Always : Handler → Type 0
Always h = Unit

abbrev pub start_of : Proxy → System
start_of p = record { proxy = p; handlers = [] }

module _ (loads : BytesDecoder) (encode : String → Bytes) (sha256 : Bytes → String)
    (url_path : String → String) where
  abbrev IsBalanced : Proxy → ℕ → Type 0
  IsBalanced p k = p.in_flight ≡ pos k

  live-IsKept : IsKept loads encode sha256 url_path Always live IsBalanced
  unfolding move count_forward request_finished record_request record_attempt request_accepted
  live-IsKept = record {
    moves = λ e p h rest q i. (tt, ground arith);
    accepts = λ p k i. ground arith;
    accepted_ok = tt;
  }

  abbrev HasRequests : Proxy → ℕ → Type 0
  HasRequests p k = p.next_request_sequence ≡ suc (k + length p.requests)

  requests-IsKept : IsKept loads encode sha256 url_path Always open_request HasRequests
  unfolding move count_forward request_finished record_request record_attempt request_accepted
  requests-IsKept = record {
    moves = λ e p h rest q i. (tt, grind (arith, length-append p.requests));
    accepts = λ p k i. ground arith;
    accepted_ok = tt;
  }

  abbrev HasAttempts : Proxy → ℕ → Type 0
  HasAttempts p k = p.next_sequence ≡ suc (k + length p.attempts)

  attempts-IsKept : IsKept loads encode sha256 url_path Always open_attempts HasAttempts
  unfolding move count_forward request_finished record_request record_attempt request_accepted
  attempts-IsKept = record {
    moves = λ e p h rest q i. (tt, grind (arith, length-append p.attempts));
    accepts = λ p k i. ground arith;
    accepted_ok = tt;
  }

  -- The number of handlers that are still under way is the in-flight count, after any moves of any
  -- number of handlers in any order, so the count never falls below 0 and the error of
  -- `_request_finished` is never raised.
  pub run-in_flight :
      (inject : Bool) (n : ℕ) (path : String) (p : Proxy) (steps : List Step)
      → new_proxy inject n path ≡ some p
      → (run loads encode sha256 url_path steps (start_of p)).proxy.in_flight
        ≡ pos (total live (run loads encode sha256 url_path steps (start_of p)).handlers)
  unfolding new_proxy
  run-in_flight inject n path p steps made =
      let begin : IsBalanced p 0 = ground arith in
      (run-keeps loads encode sha256 url_path Always live IsBalanced live-IsKept steps (start_of p)
        tt begin).1

  pub run-requests :
      (inject : Bool) (n : ℕ) (path : String) (p : Proxy) (steps : List Step)
      → new_proxy inject n path ≡ some p
      → HasRequests
          (run loads encode sha256 url_path steps (start_of p)).proxy
          (total open_request (run loads encode sha256 url_path steps (start_of p)).handlers)
  unfolding new_proxy
  run-requests inject n path p steps made =
      let begin : HasRequests p 0 = ground arith in
      (run-keeps loads encode sha256 url_path Always open_request HasRequests requests-IsKept steps
        (start_of p) tt begin).1

  pub run-attempts :
      (inject : Bool) (n : ℕ) (path : String) (p : Proxy) (steps : List Step)
      → new_proxy inject n path ≡ some p
      → HasAttempts
          (run loads encode sha256 url_path steps (start_of p)).proxy
          (total open_attempts (run loads encode sha256 url_path steps (start_of p)).handlers)
  unfolding new_proxy
  run-attempts inject n path p steps made =
      let begin : HasAttempts p 0 = ground arith in
      (run-keeps loads encode sha256 url_path Always open_attempts HasAttempts attempts-IsKept steps
        (start_of p) tt begin).1
