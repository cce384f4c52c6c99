-- ===== src/Client/Mqtt.antt =====
-- `MqttBackend`, crates/cli/src/rendezvous_client.rs. The events that the event loop yields within
-- the time are a list, at whose end the timer runs out; each request to the broker may fail. The
-- password hash, the lower case of Unicode and the reading of UTF-8 are parameters.
pub mod Claims
pub mod Delivery
use worddrop.Base.{
  ℕ, ◌+◌, ◌%◌, ◌^◌, Bool, true, false, List, [], ◌∷◌, ◌++◌, Option, none, some, Text, codes,
  text_eq, as_bytes, byte_len, is_empty, trim, Result, ok, err, ltb, if◌then◌else◌,
}
use worddrop.Base.Decimal.{to_string}
use worddrop.Protocol.Bytes.{Bytes}
use worddrop.Pairing.Handshake.{hex_encode}
use worddrop.Client.{
  Allocation, PairState, pending, RvError, io, bad_url, invalid_ticket, mqtt, timeout, parse, Url,
  UrlParser,
}
use worddrop.Client.Http.{or_bad}

-- In seconds.
abbrev pub rendezvous_ttl_secs : ℕ
rendezvous_ttl_secs = 600

abbrev pub topic_salt : Bytes
topic_salt = as_bytes (codes "worddrop-mailbox-v1")

abbrev pub topic_prefix : Text
topic_prefix = codes "worddrop/v1/"

abbrev pub max_ticket_length : ℕ
max_ticket_length = 4096

-- `rumqttc::Event`, or the error of a poll.
pub data Polled : Type 0 where
  incoming_publish : Bytes → Polled
  conn_ack : Bool → Polled
  outgoing_publish other_event : Polled
  poll_error : Text → Polled

-- What is asked of the client; a `publish` is retained by the broker.
pub data Request : Type 0 where
  publish : Text → Bytes → Request
  subscribe : Text → Request
  disconnect : Request

-- The events to come, how the requests to come end, and the requests that were made.
pub record Broker : Type 0 where
  pub events : List Polled
  pub faults : List (Option Text)
  pub asked : List Request

pub record Backend : Type 0 where
  pub base : Text
  pub parse_url : UrlParser
  pub quoted : Text → Text
  pub hash_password : Bytes → Bytes → Bytes
  pub to_lowercase : Text → Text
  pub from_utf8 : Bytes → Option Text
  pub from_utf8_lossy : Bytes → Text

-- `derive_topic`
unfoldable pub derive_topic : Backend → ℕ → Text → Text
derive_topic backend nameplate words =
    let password = to_string nameplate ++ b'-' ∷ backend.to_lowercase (trim words) in
    topic_prefix ++ hex_encode (backend.hash_password (as_bytes password) topic_salt)

abbrev pub or_default : ℕ → Option ℕ → ℕ
or_default n none = n
or_default n (some p) = p

abbrev pub tls_of : Text → Option Bool
tls_of scheme =
    if text_eq scheme (codes "mqtts")
    then some true
    else if text_eq scheme (codes "mqtt")
    then some false
    else none

abbrev pub Op {ℓ} : Type 0 → Type ℓ → Type ℓ
Op IoError A = Broker → Result (RvError IoError) A × Broker

abbrev pub is_outgoing_publish : Polled → Bool
is_outgoing_publish outgoing_publish = true
is_outgoing_publish _ = false

abbrev pub is_conn_ack : Polled → Bool
is_conn_ack (conn_ack present) = true
is_conn_ack _ = false

module _ {IoError : Type 0} where
  abbrev pub continue {ℓ κ} :
      {A : Type ℓ} {B : Type κ}
      → (A → Op IoError B)
      → Result (RvError IoError) A × Broker
      → Result (RvError IoError) B × Broker
  continue f (ok a, s) = f a s
  continue f (err e, s) = (err e, s)

  abbrev pub answer :
      Request → Broker → List (Option Text) → Result (RvError IoError) (Unit {0}) × Broker
  answer r s [] = (ok tt, record s { asked = s.asked ++ r ∷ [] })
  answer r s (none ∷ faults) = (ok tt, record s { faults = faults; asked = s.asked ++ r ∷ [] })
  answer r s (some e ∷ faults) =
      (err (mqtt e), record s { faults = faults; asked = s.asked ++ r ∷ [] })

  abbrev pub ask : Request → Op IoError (Unit {0})
  ask r s = answer r s s.faults

  -- `await_event`
  unfoldable pub await_event : (Polled → Bool) → List Polled → Op IoError (Unit {0})
  await_event test [] s = (err timeout, record s { events = [] })
  await_event test (poll_error e ∷ events) s = (err (mqtt e), record s { events = events })
  await_event test (event ∷ events) s =
      let rest = await_event test events s in
      if test event then (ok tt, record s { events = events }) else rest

  -- `MqttBackend::allocate`, with the draw and the seconds since the epoch, if the clock has them.
  unfoldable pub allocate : ℕ → Result IoError ℕ → Result (RvError IoError) Allocation
  allocate nameplate (err e) = err (io e)
  allocate nameplate (ok now) =
      ok (record { nameplate = nameplate; expires_at = (now + rendezvous_ttl_secs) % 2 ^ 64 })

  -- `close`, whose end changes nothing.
  abbrev pub closed {ℓ} :
      {A : Type ℓ} → Result (RvError IoError) A × Broker → Result (RvError IoError) A × Broker
  closed (ok a, s) = (ok a, (ask disconnect s).1)
  closed (err e, s) = (err e, s)

  module _ (backend : Backend) where
    abbrev pub with_url : Result Text Url → Result (RvError IoError) (Text × ℕ × Bool)
    with_url (err source) = err (bad_url backend.base source)
    with_url (ok url) =
        elim (or_bad {IoError = IoError} backend.base
          (codes "unsupported scheme "
            ++ (backend.quoted url.scheme ++ codes " (mqtt or mqtts only)"))
          (tls_of url.scheme)) [
            | err e ↦ err e
            | ok use_tls ↦
                elim (or_bad {IoError = IoError} backend.base (codes "missing host") url.host) [
                  | err e ↦ err e
                  | ok host ↦
                      ok (host, or_default (if use_tls then 8883 else 1883) url.port, use_tls)
                ]
          ]

    -- `MqttBackend::endpoint`
    unfoldable pub endpoint : Result (RvError IoError) (Text × ℕ × Bool)
    endpoint = with_url (backend.parse_url backend.base)

    -- `connect`: nothing is sent before the first poll.
    abbrev pub connect : Op IoError (Text × ℕ × Bool)
    connect s = (endpoint, s)

    -- A retained message, until it is on the wire.
    abbrev pub store : Text → Bytes → Op IoError (Unit {0})
    store topic payload s =
        continue (λ _ s'. await_event is_outgoing_publish s'.events s')
          (ask (publish topic payload) s)

    -- `MqttBackend::publish`
    unfoldable pub publish_ticket : Text → ℕ → Text → Op IoError (Unit {0})
    publish_ticket ticket nameplate words s =
        if is_empty (trim ticket)
        then (err (invalid_ticket (codes "ticket must not be empty")), s)
        else if ltb max_ticket_length (byte_len ticket)
        then (err (invalid_ticket (codes "ticket is too large")), s)
        else closed (
            continue (λ _. store (derive_topic backend nameplate words) (as_bytes ticket))
              (connect s))

    -- `MqttBackend::cleanup`
    unfoldable pub cleanup : ℕ → Text → Op IoError (Unit {0})
    cleanup nameplate words s =
        closed (continue (λ _. store (derive_topic backend nameplate words) []) (connect s))

    -- The wait for the clearing of a ticket: its end does not matter, but for that of the time.
    abbrev pub cleared :
        Text → Result (RvError IoError) (Unit {0}) × Broker → Result (RvError IoError) Text × Broker
    cleared ticket (ok u, s) = (ok ticket, s)
    cleared ticket (err timeout, s) = (err timeout, s)
    cleared ticket (err e, s) = (ok ticket, s)

    abbrev pub take_ticket : Text → Bytes → List Polled → Option Text → Op IoError Text
    take_ticket topic payload events none s =
        (err (parse (codes "ticket") (backend.from_utf8_lossy payload)), s)
    take_ticket topic payload events (some ticket) s =
        cleared ticket (await_event is_outgoing_publish events (ask (publish topic []) s).1)

    -- The loop of `claim`.
    unfoldable pub claim_loop : Text → List Polled → Op IoError Text
    claim_loop topic [] s = (err timeout, record s { events = [] })
    claim_loop topic (incoming_publish [] ∷ events) s = claim_loop topic events s
    claim_loop topic (incoming_publish (b ∷ bs) ∷ events) s =
        take_ticket topic (b ∷ bs) events (backend.from_utf8 (b ∷ bs)) s
    claim_loop topic (conn_ack true ∷ events) s = claim_loop topic events s
    claim_loop topic (conn_ack false ∷ events) s =
        continue (λ _. claim_loop topic events) (ask (subscribe topic) s)
    claim_loop topic (outgoing_publish ∷ events) s = claim_loop topic events s
    claim_loop topic (other_event ∷ events) s = claim_loop topic events s
    claim_loop topic (poll_error e ∷ events) s = (err (mqtt e), s)

    abbrev pub subscribed : Text → Op IoError Text
    subscribed topic s = continue (λ _ s'. claim_loop topic s'.events s') (ask (subscribe topic) s)

    -- `MqttBackend::claim`
    unfoldable pub claim : ℕ → Text → Op IoError Text
    claim nameplate words s =
        closed (continue (λ _. subscribed (derive_topic backend nameplate words)) (connect s))

    -- `MqttBackend::status`
    abbrev pub status : ℕ → Result (RvError IoError) PairState
    status nameplate = ok pending

    -- `MqttBackend::health`
    unfoldable pub health : Op IoError (Unit {0})
    health s = closed (continue (λ _ s'. await_event is_conn_ack s'.events s') (connect s))
