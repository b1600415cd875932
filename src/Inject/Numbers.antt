-- ===== src/Inject/Numbers.antt =====
-- The sequence numbers of inject.py.
use browserbench.Prelude.{
  ℕ, ◌+◌, ◌≤◌, String, ◌≡◌, ◌&&◌, Option, none, some, List, [], ◌∷◌, ltb, leb, ◌==◌,
}
use browserbench.Inject.Upstream.{Bytes, BytesDecoder}
use browserbench.Inject.State.{Request, Attempt, AttemptReceipt, RequestReceipt, Proxy}
use browserbench.Inject.Threads.{
  Handler, counted, attempted, forwarding, answered, dropping, closing, noted,
}
use browserbench.Inject.Flight.{one_if}

abbrev pub is_request : ℕ → Request → ℕ
is_request s r = one_if (r.sequence == s)

-- Whether a handler works on the request with the number `s`, and has no receipt for it yet.
abbrev pub open_number : ℕ → Handler → ℕ
open_number s (counted r) = is_request s r
open_number s (attempted w) = is_request s w.request
open_number s (forwarding w) = is_request s w.request
open_number s (answered w) = is_request s w.request
open_number s (dropping w) = is_request s w.request
open_number s (closing w) = is_request s w.request
open_number s _ = 0

-- How many receipts have the number `s`.
abbrev pub receipts_of : ℕ → List RequestReceipt → ℕ
receipts_of s [] = 0
receipts_of s (r ∷ rs) = is_request s r.request + receipts_of s rs

abbrev pub is_attempt : ℕ → Option Attempt → ℕ
is_attempt s none = 0
is_attempt s (some a) = one_if (a.sequence == s)

abbrev pub open_attempt_number : ℕ → Handler → ℕ
open_attempt_number s (attempted w) = is_attempt s w.attempt
open_attempt_number s (forwarding w) = is_attempt s w.attempt
open_attempt_number s (answered w) = is_attempt s w.attempt
open_attempt_number s (dropping w) = is_attempt s w.attempt
open_attempt_number s (closing w) = is_attempt s w.attempt
open_attempt_number s (noted w) = is_attempt s w.attempt
open_attempt_number s _ = 0

abbrev pub attempts_of : ℕ → List AttemptReceipt → ℕ
attempts_of s [] = 0
attempts_of s (r ∷ rs) = is_attempt s (some r.attempt) + attempts_of s rs

-- A number that a counter which starts at 1 has given out before it came to `next`.
abbrev pub given : (s next : ℕ) → ℕ
given s next = one_if (leb 1 s && ltb s next)

module _ (loads : BytesDecoder) (encode : String → Bytes) (sha256 : Bytes → String)
    (url_path : String → String) (s : ℕ) where
  abbrev IsNumbered : Proxy → ℕ → Type 0
  IsNumbered p k =
      (1 ≤ p.next_request_sequence)
      × (k + receipts_of s p.requests ≡ given s p.next_request_sequence)

  abbrev HasNumberedAttempts : Proxy → ℕ → Type 0
  HasNumberedAttempts p k =
      (1 ≤ p.next_sequence) × (k + attempts_of s p.attempts ≡ given s p.next_sequence)
