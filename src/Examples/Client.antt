-- ===== src/Examples/Client.antt =====
-- Requests of the rendezvous client to a toy server.
use worddrop.Base.{◌≡◌, ◌↔◌, refl, false, none, some, [], ◌∷◌, ◌++◌, Text, codes, ok, arith}
use worddrop.Base.Decimal.{to_string}
use worddrop.Client.Http.{response, line_end, Backend, claim, parse_response}
use worddrop.Client.Http.Response.{status_line, header, parse_response-well_formed}
use worddrop.Client.Mqtt
use worddrop.Client.Mqtt.{
  Broker, incoming_publish, conn_ack, outgoing_publish, other_event, poll_error, publish, subscribe,
  disconnect,
}
use worddrop.Client.Mqtt.Claims.{Found, claim-Found}
use worddrop.Client.Mqtt.Delivery.{broker, publish-claim}
use worddrop.Client.Http.Answers.{IsAnswered, claim_iff}

parse_response-well_formed_example :
    parse_response {IoError = Text} (
      status_line (codes "HTTP/1.1") 404 (codes "Not Found")
      ++ (header (codes "content-length: 4" ∷ []) ++ (line_end ++ (line_end ++ codes "gone"))))
    ≡ ok (404, codes "gone")
parse_response-well_formed_example =
    parse_response-well_formed b'H' (codes "TTP/1.1") (codes "Not Found") (codes "gone") 404
      (codes "content-length: 4" ∷ []) refl refl refl (omega arith) (omega arith) (refl, tt)

-- The server answers with the ticket alone.
abbrev answer : Text
answer = codes "HTTP/1.1 200 OK" ++ (line_end ++ (line_end ++ codes "t"))

abbrev backend : Backend Text
backend = record {
  base = codes "http://h";
  parse_url = λ u. ok (record {
    scheme = codes "http";
    host = some (codes "h");
    port = none;
    known_port = some 80;
  });
  quoted = λ s. s;
  exchange = λ host port use_tls text. response answer;
  bodies = record {
    ticket_body = λ t. t;
    allocation = λ t. none;
    claimed_ticket = λ t. some t;
    state = λ t. some t;
  };
}

claim_iff_example : (claim backend 7 (codes "w") ≡ ok (codes "t")) ↔ (
    (body : Text) × IsAnswered backend
      (codes "POST")
      (codes "/v1/pairs/" ++ (to_string 7 ++ codes "/claim"))
      none
      200
      body
    × (backend.bodies.claimed_ticket body ≡ some (codes "t")))
claim_iff_example = claim_iff backend 7 (codes "w") (codes "t")

-- A broker on which the ticket of this topic is published; the texts are their own bytes.
abbrev mailbox : Mqtt.Backend
mailbox = record {
  base = codes "mqtt://h";
  parse_url = λ u.
      ok
        (record { scheme = codes "mqtt"; host = some (codes "h"); port = none; known_port = none });
  quoted = λ s. s;
  hash_password = λ words salt. words;
  to_lowercase = λ s. s;
  from_utf8 = λ bs. some bs;
  from_utf8_lossy = λ bs. bs;
}

endpoint_lem : Mqtt.endpoint {IoError = Text} mailbox ≡ ok (codes "h", 1883, false)
unfolding Mqtt.endpoint
endpoint_lem = refl

abbrev topic : Text
topic = Mqtt.derive_topic mailbox 7 (codes "w")

publish-claim_example :
    (Mqtt.publish_ticket {IoError = Text} mailbox
        (codes "t")
        7
        (codes "w")
        (broker (conn_ack false ∷ outgoing_publish ∷ []) [])
      ≡ (ok tt, broker [] (publish topic (codes "t") ∷ disconnect ∷ [])))
    × (Mqtt.claim {IoError = Text} mailbox 7 (codes "w") (
          broker
            (conn_ack false
              ∷ incoming_publish []
              ∷ incoming_publish (codes "t")
              ∷ outgoing_publish
              ∷ [])
            [])
        ≡ (
          ok (codes "t"),
          broker [] (subscribe topic ∷ subscribe topic ∷ publish topic [] ∷ disconnect ∷ []),
        ))
publish-claim_example =
    publish-claim Text mailbox (codes "t") (codes "w") 7 b't' [] (codes "h", 1883, false)
      (conn_ack false ∷ []) [] (conn_ack false ∷ incoming_publish [] ∷ []) [] [] endpoint_lem refl
      (omega arith) refl refl (tt, tt) (tt, (tt, tt)) tt

abbrev delivering : Broker
delivering = broker (other_event ∷ incoming_publish (codes "t") ∷ poll_error (codes "gone") ∷ []) []

abbrev closing : Broker
closing = broker [] (subscribe topic ∷ publish topic [] ∷ disconnect ∷ [])

claimed_lem :
    Mqtt.claim {IoError = Text} mailbox 7 (codes "w") delivering ≡ (ok (codes "t"), closing)
unfolding Mqtt.claim Mqtt.claim_loop Mqtt.endpoint Mqtt.await_event
claimed_lem = refl

claim-Found_example :
    Found mailbox topic delivering.events (codes "t") closing.asked (disconnect ∷ [])
claim-Found_example =
    claim-Found Text mailbox 7 (codes "w") (codes "t") delivering closing claimed_lem
