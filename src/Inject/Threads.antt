-- ===== src/Inject/Threads.antt =====
-- One handler thread of inject.py, and any number of them over one proxy. A move is a stretch of
-- `_dispatch` with at most one critical section; what the moves of different threads do between two
-- of one thread is free.
use browserbench.Prelude.{
  ℕ, zero, suc, String, Bool, ◌&&◌, Option, none, some, List, [], ◌∷◌, str_eq, if◌then◌else◌,
}
use browserbench.Inject.Upstream.{
  Bytes, BytesDecoder, is_some, forward_result, is_verified_commit, UpstreamResult, Answer,
}
use browserbench.Inject.State.{
  request_accepted, request_finished, new_request, new_attempt, register_verified_commit,
  should_inject, count_forward, record_attempt, record_request, Request, Attempt, Proxy, Treatment,
  no_treatment, response_forwarded, downstream_disconnected_before_response,
  connection_dropped_after_commit,
}

-- What a handler carries from one move to the next. `attempt` is `none` for a request that is no
-- send.
pub record Work : Type 0 where
  pub request : Request
  pub attempt : Option Attempt
  pub body : Bytes
  pub upstream : Option UpstreamResult
  pub treatment : Treatment
  pub close_error : Option String

-- Where it stands: accepted by the server; with its request counted; with its attempt, if it is a
-- send; with its body read; with an upstream answer that is passed on; with a connection to drop; at
-- the `finally`; with its request recorded; with its attempt recorded; gone.
pub data Handler : Type 0 where
  accepted : Handler
  counted : Request → Handler
  attempted forwarding answered dropping closing noted : Work → Handler
  recorded finished : Handler

-- What the world answers the thread that moves: a request line, a body or an exception, the
-- upstream or an exception, how the connection took the answer or its loss, and the clock.
pub data Event : Type 0 where
  dispatch : (method path : String) (now : ℕ) → Event
  refuse : Event
  open_attempt : Event
  read_body : Option Bytes → Event
  upstream_answers : Option Answer → (now : ℕ) → Event
  connection_closes : (close_error : Option String) → Event
  downstream_fails : Event
  tick : (now : ℕ) → Event

abbrev new_work : Request → Option Attempt → Work
new_work request attempt = record {
  request = request;
  attempt = attempt;
  body = [];
  upstream = none;
  treatment = no_treatment;
  close_error = none;
}

-- Python's bool of an optional attempt
abbrev pub is_send_work : Work → Bool
is_send_work w = is_some w.attempt

abbrev open_work : Request → Attempt × Proxy → Proxy × Handler
open_work request (attempt, p) = (p, attempted (new_work request (some attempt)))

abbrev with_sequence : ℕ → Option Attempt → Option Attempt
with_sequence n none = none
with_sequence n (some a) = some (record a { committed_sequence = some n })

-- A verified commit: its number, and the decision to drop the connection.
abbrev pub decide : Work → UpstreamResult → ℕ × Proxy → Proxy × Handler
decide w u (n, p) =
    let w' : Work = record w { attempt = with_sequence n w.attempt; upstream = some u } in
    if should_inject p n
    then (p, dropping (record w' { treatment = connection_dropped_after_commit }))
    else (p, answered w')

abbrev pub treat : Work → UpstreamResult → Proxy → Proxy × Handler
treat w u p =
    if is_send_work w && is_verified_commit u
    then decide w u (register_verified_commit p)
    else (p, answered (record w { upstream = some u }))

-- The treatment by what `_forward_downstream` returns.
abbrev pub forwarded : Option String → Treatment
forwarded none = response_forwarded
forwarded (some e) = downstream_disconnected_before_response

-- An exception of a thread goes on after its `finally`. `url_path` is the path that `urlsplit` finds.
module _ (loads : BytesDecoder) (encode : String → Bytes) (sha256 : Bytes → String)
    (url_path : String → String) where
  -- method == "POST" and urlsplit(raw_path).path == proxy.send_path
  unfoldable pub is_send : Proxy → Request → Bool
  is_send p r = str_eq r.method "POST" && str_eq (url_path r.path) p.send_path

  unfoldable pub move : Event → Proxy → Handler → Proxy × Handler
  unfolding forward_result record_attempt new_request new_attempt register_verified_commit
      should_inject count_forward record_request request_finished is_send
  move (dispatch method path now) p accepted =
      let (r, p') = new_request method path now p in (p', counted r)
  move refuse p accepted = (p, recorded)
  move open_attempt p (counted r) =
      if is_send p r then open_work r (new_attempt r p) else (p, attempted (new_work r none))
  move (read_body none) p (attempted w) = (p, closing w)
  move (read_body (some body)) p (attempted w) =
      (count_forward (is_send_work w) p, forwarding (record w { body = body }))
  move (upstream_answers none now) p (forwarding w) = (p, closing w)
  move (upstream_answers (some a) now) p (forwarding w) =
      treat w (forward_result loads encode now a) p
  move (connection_closes e) p (answered w) =
      (p, closing (record w { treatment = forwarded e; close_error = e }))
  move downstream_fails p (answered w) = (p, closing w)
  move downstream_fails p (dropping w) = (p, closing w)
  move (connection_closes e) p (dropping w) = (p, closing (record w { close_error = e }))
  move (tick now) p (closing w) = (record_request now w.request w.upstream w.treatment p, noted w)
  move (tick now) p (noted w) = elim w.attempt [
    | none ↦ (p, recorded)
    | some a ↦
        (record_attempt loads sha256 now a w.body w.upstream w.treatment w.close_error p, recorded)
  ]
  move (tick now) p recorded = ((request_finished p).1, finished)
  move _ p h = (p, h)

-- The proxy and its handlers, the latest first.
pub record System : Type 0 where
  pub proxy : Proxy
  pub handlers : List Handler

-- What happens next: the server accepts a connection, or a handler moves.
pub data Step : Type 0 where
  accept : Step
  turn : (handler : ℕ) → Event → Step

module _ (loads : BytesDecoder) (encode : String → Bytes) (sha256 : Bytes → String)
    (url_path : String → String) where
  -- The handlers with the n-th of them moved, and the proxy that this leaves.
  unfoldable pub move_at : ℕ → Event → Proxy → List Handler → Proxy × List Handler
  move_at n e p [] = (p, [])
  move_at zero e p (h ∷ hs) =
      let (p', h') = move loads encode sha256 url_path e p h in (p', h' ∷ hs)
  move_at (suc n) e p (h ∷ hs) = let (p', hs') = move_at n e p hs in (p', h ∷ hs')

  unfoldable pub step : Step → System → System
  unfolding move_at request_accepted
  step accept s = record { proxy = request_accepted s.proxy; handlers = accepted ∷ s.handlers }
  step (turn n e) s =
      let (p, hs) = move_at n e s.proxy s.handlers in record { proxy = p; handlers = hs }

  unfoldable pub run : List Step → System → System
  unfolding step
  run [] s = s
  run (x ∷ xs) s = run xs (step x s)
