-- ===== src/Tests/Proxies.antt =====
-- Runs of the proxy of inject.py, alone and before the fixture, and of the set-up of a task.
use browserbench.Prelude.{◌+◌, String, ◌≡◌, refl, true, false, none, some, List, [], ◌∷◌, all}
use browserbench.Json.{lookup, pos}
use browserbench.Db.{chosen_uid, sent}
use browserbench.Server.{message_json, send_json, handle, send_in}
use browserbench.Inject.{
  Bytes, BytesDecoder, parse_json_object, committed_identity, states, classify, forward_result,
  committed, responded, new_proxy, Proxy, run, dispatch, refuse, open_attempt, read_body,
  upstream_answers, connection_closes, tick, Step, accept, turn,
}
use browserbench.Inject.Count.{total}
use browserbench.Inject.Flight.{live, start_of, run-in_flight}
use browserbench.Inject.Drops.{dropped, drop, sound_receipt, due, run-drops_one}
use browserbench.Fixture.{committed-IsProved, IsProved}
use browserbench.Tasks.{msg_send_01, prepare_initial_state}
use browserbench.Tasks.Prepared.{prepare_initial_state-IsFresh, IsFresh}
use browserbench.Tests.Samples.{before, message, after, before-IsValid}
use browserbench.Tests.Store.{fixture, acknowledges}

-- The decoder of one body.
abbrev reads : BytesDecoder
reads [] = none
reads (c ∷ cs) = some (send_json (sent message))

abbrev utf8 : String → Bytes
utf8 s = []

abbrev digest : Bytes → String
digest b = "digest"

abbrev same_path : String → String
same_path s = s

abbrev proxy : Proxy
proxy = record {
  inject_send = true;
  inject_after_committed = 1;
  send_path = "/api/messages/send";
  in_flight = pos 0;
  next_sequence = 1;
  next_request_sequence = 1;
  committed_count = 0;
  send_forwards = 0;
  attempts = [];
  requests = [];
  started = false;
  closed = false;
}

made : new_proxy true 1 "/api/messages/send" ≡ some proxy
unfolding new_proxy
made = refl

-- One send whose connection is dropped, and a second connection that brings no request.
abbrev steps : List Step
steps =
    accept
    ∷ turn 0 (dispatch "POST" "/api/messages/send" 1)
    ∷ turn 0 open_attempt
    ∷ turn 0 (read_body (some []))
    ∷ accept
    ∷ turn 1 (upstream_answers (some (responded 200 (1 ∷ []) none)) 2)
    ∷ turn 1 (connection_closes none)
    ∷ turn 1 (tick 3)
    ∷ turn 0 refuse
    ∷ turn 1 (tick 4)
    ∷ turn 1 (tick 5)
    ∷ turn 0 (tick 6)
    ∷ []

run-drops_one_example :
    (total drop (run reads utf8 digest same_path steps (start_of proxy)).handlers
        + dropped (run reads utf8 digest same_path steps (start_of proxy)).proxy.attempts
      ≡ due true 1 (run reads utf8 digest same_path steps (start_of proxy)).proxy.committed_count)
    × (all (sound_receipt 1) (run reads utf8 digest same_path steps (start_of proxy)).proxy.attempts
        ≡ true)
run-drops_one_example =
    run-drops_one reads utf8 digest same_path true 1 "/api/messages/send" proxy steps made

run-in_flight_example :
    (run reads utf8 digest same_path steps (start_of proxy)).proxy.in_flight
    ≡ pos (total live (run reads utf8 digest same_path steps (start_of proxy)).handlers)
run-in_flight_example =
    run-in_flight reads utf8 digest same_path true 1 "/api/messages/send" proxy steps made

classified_sent :
    (forward_result reads utf8 9 (responded 200 (1 ∷ []) none)).classification ≡ committed
unfolding forward_result parse_json_object classify states committed_identity send_json message_json
    lookup
classified_sent = refl

committed-IsProved_example :
    IsProved 9
      (chosen_uid "u1" none)
      1
      before
      (handle fixture 9 "u1" (some "token") (send_in 1 none) before).1
      (forward_result reads utf8 9 (responded 200 (1 ∷ []) none))
committed-IsProved_example =
    committed-IsProved reads utf8 9 200 (1 ∷ []) none (send_json (sent message)) fixture 9 "u1"
      (some "token") 1 none before before-IsValid acknowledges refl classified_sent

prepare_initial_state-IsFresh_example : IsFresh (prepare_initial_state 5 1 msg_send_01 after).1
prepare_initial_state-IsFresh_example = prepare_initial_state-IsFresh 5 1 msg_send_01 after
