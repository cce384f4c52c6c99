-- ===== src/Client/Dispatch.antt =====
-- The methods of `RvClient`, crates/cli/src/rendezvous_client.rs, which give each call to the
-- backend that the scheme of the URL chose. A call over HTTP is one exchange, and leaves the broker.
use worddrop.Base.{ℕ, Text, Result, err}
use worddrop.Client.{
  Allocation, PairState, RvError, bad_url, RvClient, http_backend, mqtt_backend, invalid,
}
use worddrop.Client
use worddrop.Client.Http
use worddrop.Client.Mqtt
use worddrop.Client.Mqtt.{Broker, Op}

-- What the calls need of the libraries; the base of both is that of the client.
module _ {IoError : Type 0} (over_http : Http.Backend IoError) (over_mqtt : Mqtt.Backend)
    (client : RvClient) where
  abbrev by_http : Text → Http.Backend IoError
  by_http base = record over_http { base = base }

  abbrev by_mqtt : Text → Mqtt.Backend
  by_mqtt base = record over_mqtt { base = base }

  -- `RvClient::bad_url`
  abbrev refuse {ℓ} : {A : Type ℓ} → Text → Op IoError A
  refuse reason s = (err (bad_url client.base reason), s)

  abbrev answer {ℓ} : {A : Type ℓ} → Result (RvError IoError) A → Op IoError A
  answer r s = (r, s)

  -- The draw of a nameplate and the clock are for the broker.
  abbrev allocate_by : Client.Backend → Text → ℕ → Result IoError ℕ → Op IoError Allocation
  allocate_by (http_backend base) ticket draw clock = answer (Http.allocate (by_http base) ticket)
  allocate_by (mqtt_backend base) ticket draw clock = answer (Mqtt.allocate draw clock)
  allocate_by (invalid reason) ticket draw clock = refuse reason

  -- `RvClient::allocate`
  unfoldable pub allocate : Text → ℕ → Result IoError ℕ → Op IoError Allocation
  allocate = allocate_by client.backend

  abbrev publish_by : Client.Backend → Text → ℕ → Text → Op IoError (Unit {0})
  publish_by (http_backend base) ticket nameplate words =
      answer (Http.publish (by_http base) ticket nameplate words)
  publish_by (mqtt_backend base) ticket nameplate words =
      Mqtt.publish_ticket (by_mqtt base) ticket nameplate words
  publish_by (invalid reason) ticket nameplate words = refuse reason

  -- `RvClient::publish`
  unfoldable pub publish : Text → ℕ → Text → Op IoError (Unit {0})
  publish = publish_by client.backend

  abbrev claim_by : Client.Backend → ℕ → Text → Op IoError Text
  claim_by (http_backend base) nameplate words = answer (Http.claim (by_http base) nameplate words)
  claim_by (mqtt_backend base) nameplate words = Mqtt.claim (by_mqtt base) nameplate words
  claim_by (invalid reason) nameplate words = refuse reason

  -- `RvClient::claim`
  unfoldable pub claim : ℕ → Text → Op IoError Text
  claim = claim_by client.backend

  abbrev cleanup_by : Client.Backend → ℕ → Text → Op IoError (Unit {0})
  cleanup_by (http_backend base) nameplate words =
      answer (Http.cleanup (by_http base) nameplate words)
  cleanup_by (mqtt_backend base) nameplate words = Mqtt.cleanup (by_mqtt base) nameplate words
  cleanup_by (invalid reason) nameplate words = refuse reason

  -- `RvClient::cleanup`
  unfoldable pub cleanup : ℕ → Text → Op IoError (Unit {0})
  cleanup = cleanup_by client.backend

  abbrev status_by : Client.Backend → ℕ → Op IoError PairState
  status_by (http_backend base) nameplate = answer (Http.status (by_http base) nameplate)
  status_by (mqtt_backend base) nameplate = answer (Mqtt.status (by_mqtt base) nameplate)
  status_by (invalid reason) nameplate = refuse reason

  -- `RvClient::status`
  unfoldable pub status : ℕ → Op IoError PairState
  status = status_by client.backend

  abbrev health_by : Client.Backend → Op IoError (Unit {0})
  health_by (http_backend base) = answer (Http.health (by_http base))
  health_by (mqtt_backend base) = Mqtt.health (by_mqtt base)
  health_by (invalid reason) = refuse reason

  -- `RvClient::health`
  unfoldable pub health : Op IoError (Unit {0})
  health = health_by client.backend
