-- ===== src/Client/Mqtt/Claims.antt =====
-- A claim by `MqttBackend` of crates/cli/src/rendezvous_client.rs: the ticket that it returns, and
-- the clearing of its topic.
use worddrop.Base.{
  ℕ, ◌≡◌, refl, ap, sym, ◌∙◌, Bool, true, false, List, [], ◌∷◌, ◌++◌, append_assoc, Option, none,
  some, Text, Result, ok, err, All, err-ne-ok, ok_injective, if◌then◌else◌,
}
use worddrop.Protocol.Bytes.{Bytes}
use worddrop.Client.{
  RvError, http, io, bad_url, tls, mqtt, invalid_ticket, unimplemented, timeout, parse,
}
use worddrop.Client.Mqtt.{
  Polled, incoming_publish, conn_ack, outgoing_publish, other_event, poll_error, Request, publish,
  subscribe, disconnect, Broker, Backend, derive_topic, ask, answer, await_event,
  is_outgoing_publish, closed, endpoint, cleared, take_ticket, claim_loop, subscribed, continue,
  claim,
}

-- An event that a claim passes over: no error, and no ticket.
abbrev pub IsQuiet : Polled → Type 0
IsQuiet (incoming_publish []) = Unit
IsQuiet (incoming_publish (b ∷ bs)) = ⊥
IsQuiet (conn_ack present) = Unit
IsQuiet outgoing_publish = Unit
IsQuiet other_event = Unit
IsQuiet (poll_error e) = ⊥

module _ (backend : Backend) where
  -- The events have a first ticket, and the last thing that was asked is to clear the topic.
  abbrev pub Found : Text → List Polled → Text → List Request → List Request → Type 0
  Found topic events ticket asked tail =
      (quiet : List Polled) × (b : ℕ) × (bs : Bytes) × (rest : List Polled) × (events
        ≡ quiet ++ incoming_publish (b ∷ bs) ∷ rest)
      × All IsQuiet quiet
      × (backend.from_utf8 (b ∷ bs) ≡ some ticket)
      × (before : List Request) × (asked ≡ before ++ publish topic [] ∷ tail)

  passed :
      (topic : Text) (e : Polled) (events : List Polled) (ticket : Text) (asked : List Request)
      → IsQuiet e
      → Found topic events ticket asked []
      → Found topic (e ∷ events) ticket asked []
  passed topic e events ticket asked q (quiet, b, bs, rest, is, all, read, before, last) =
      (e ∷ quiet, b, bs, rest, ap (λ (es : List Polled). e ∷ es) is, (q, all), read, before, last)

module _ (IoError : Type 0) where
  either :
      (c : Bool) (x y : Result (RvError IoError) (Unit {0}) × Broker) (asked : List Request)
      → x.1.asked ≡ asked
      → y.1.asked ≡ asked
      → (if c then x else y).1.asked ≡ asked
  either true x y asked h k = h
  either false x y asked h k = k

  ask-asked :
      (r : Request) (s : Broker) (faults : List (Option Text))
      → (answer {IoError = IoError} r s faults).1.asked ≡ s.asked ++ r ∷ []
  ask-asked r s [] = refl
  ask-asked r s (none ∷ faults) = refl
  ask-asked r s (some e ∷ faults) = refl

  await_event-asked :
      (test : Polled → Bool) (events : List Polled) (s : Broker)
      → (await_event {IoError = IoError} test events s).1.asked ≡ s.asked
  unfolding await_event
  await_event-asked test [] s = refl
  await_event-asked test (poll_error e ∷ events) s = refl
  await_event-asked test (incoming_publish b ∷ events) s =
      either (test (incoming_publish b)) _ _ s.asked refl (await_event-asked test events s)
  await_event-asked test (conn_ack b ∷ events) s =
      either (test (conn_ack b)) _ _ s.asked refl (await_event-asked test events s)
  await_event-asked test (outgoing_publish ∷ events) s =
      either (test outgoing_publish) _ _ s.asked refl (await_event-asked test events s)
  await_event-asked test (other_event ∷ events) s =
      either (test other_event) _ _ s.asked refl (await_event-asked test events s)

module _ (IoError : Type 0) (backend : Backend) where
  cleared-ok :
      (t ticket : Text) (r : Result (RvError IoError) (Unit {0})) (s s' : Broker)
      → cleared backend t (r, s) ≡ (ok ticket, s')
      → (t ≡ ticket) × (s ≡ s')
  cleared-ok t ticket (ok u) s s' h = (ok_injective (ap (λ x. x.0) h), ap (λ x. x.1) h)
  cleared-ok t ticket (err timeout) s s' h = absurd (err-ne-ok (ap (λ x. x.0) h))
  cleared-ok t ticket (err (http a b)) s s' h = (ok_injective (ap (λ x. x.0) h), ap (λ x. x.1) h)
  cleared-ok t ticket (err (io a)) s s' h = (ok_injective (ap (λ x. x.0) h), ap (λ x. x.1) h)
  cleared-ok t ticket (err (bad_url a b)) s s' h = (ok_injective (ap (λ x. x.0) h), ap (λ x. x.1) h)
  cleared-ok t ticket (err (tls a)) s s' h = (ok_injective (ap (λ x. x.0) h), ap (λ x. x.1) h)
  cleared-ok t ticket (err (mqtt a)) s s' h = (ok_injective (ap (λ x. x.0) h), ap (λ x. x.1) h)
  cleared-ok t ticket (err (invalid_ticket a)) s s' h =
      (ok_injective (ap (λ x. x.0) h), ap (λ x. x.1) h)
  cleared-ok t ticket (err (unimplemented a)) s s' h =
      (ok_injective (ap (λ x. x.0) h), ap (λ x. x.1) h)
  cleared-ok t ticket (err (parse a b)) s s' h = (ok_injective (ap (λ x. x.0) h), ap (λ x. x.1) h)

  taken :
      (topic : Text) (b : ℕ) (bs : Bytes) (events : List Polled) (o : Option Text) (s s' : Broker)
      (ticket : Text)
      → backend.from_utf8 (b ∷ bs) ≡ o
      → take_ticket {IoError = IoError} backend topic (b ∷ bs) events o s ≡ (ok ticket, s')
      → Found backend topic (incoming_publish (b ∷ bs) ∷ events) ticket s'.asked []
  taken topic b bs events none s s' ticket e h = absurd (err-ne-ok (ap (λ x. x.0) h))
  taken topic b bs events (some t) s s' ticket e h =
      let asked = (ask {IoError = IoError} (publish topic []) s).1 in
      let waited = await_event {IoError = IoError} is_outgoing_publish events asked in
      let (same, at_end) = cleared-ok t ticket waited.0 waited.1 s' h in
      (
        [],
        b,
        bs,
        events,
        refl,
        tt,
        e ∙ ap some same,
        s.asked,
        ap (λ (x : Broker). x.asked) (sym at_end)
            ∙ await_event-asked IoError is_outgoing_publish events asked
            ∙ ask-asked IoError (publish topic []) s s.faults,
      )

  again :
      (topic : Text) (events : List Polled) (x : Result (RvError IoError) (Unit {0}) × Broker)
      (s' : Broker) (ticket : Text)
      → ((s : Broker)
          → claim_loop {IoError = IoError} backend topic events s ≡ (ok ticket, s')
          → Found backend topic events ticket s'.asked [])
      → continue (λ _. claim_loop backend topic events) x ≡ (ok ticket, s')
      → Found backend topic events ticket s'.asked []
  again topic events (ok u, s) s' ticket go h = go s h
  again topic events (err e, s) s' ticket go h = absurd (err-ne-ok (ap (λ x. x.0) h))

  claim_loop-Found :
      (topic : Text) (events : List Polled) (s s' : Broker) (ticket : Text)
      → claim_loop {IoError = IoError} backend topic events s ≡ (ok ticket, s')
      → Found backend topic events ticket s'.asked []
  unfolding claim_loop
  claim_loop-Found topic [] s s' ticket h = absurd (err-ne-ok (ap (λ x. x.0) h))
  claim_loop-Found topic (incoming_publish [] ∷ events) s s' ticket h =
      passed backend topic (incoming_publish []) events ticket s'.asked tt
        (claim_loop-Found topic events s s' ticket h)
  claim_loop-Found topic (incoming_publish (b ∷ bs) ∷ events) s s' ticket h =
      taken topic b bs events (backend.from_utf8 (b ∷ bs)) s s' ticket refl h
  claim_loop-Found topic (conn_ack true ∷ events) s s' ticket h =
      passed backend topic (conn_ack true) events ticket s'.asked tt
        (claim_loop-Found topic events s s' ticket h)
  claim_loop-Found topic (conn_ack false ∷ events) s s' ticket h =
      passed backend topic (conn_ack false) events ticket s'.asked tt (
        again topic events (ask (subscribe topic) s) s' ticket
          (λ s''. claim_loop-Found topic events s'' s' ticket) h)
  claim_loop-Found topic (outgoing_publish ∷ events) s s' ticket h =
      passed backend topic outgoing_publish events ticket s'.asked tt
        (claim_loop-Found topic events s s' ticket h)
  claim_loop-Found topic (other_event ∷ events) s s' ticket h =
      passed backend topic other_event events ticket s'.asked tt
        (claim_loop-Found topic events s s' ticket h)
  claim_loop-Found topic (poll_error e ∷ events) s s' ticket h =
      absurd (err-ne-ok (ap (λ x. x.0) h))

  subscribed-Found :
      (topic : Text) (s s' : Broker) (faults : List (Option Text)) (ticket : Text)
      → continue
          (λ _ (s'' : Broker). claim_loop {IoError = IoError} backend topic s''.events s'')
          (answer (subscribe topic) s faults)
        ≡ (ok ticket, s')
      → Found backend topic s.events ticket s'.asked []
  subscribed-Found topic s s' [] ticket h = claim_loop-Found topic s.events _ s' ticket h
  subscribed-Found topic s s' (none ∷ faults) ticket h =
      claim_loop-Found topic s.events _ s' ticket h
  subscribed-Found topic s s' (some e ∷ faults) ticket h = absurd (err-ne-ok (ap (λ x. x.0) h))

  -- A claim disconnects behind what its loop has asked.
  ended :
      (topic : Text) (events : List Polled) (x : Result (RvError IoError) Text × Broker)
      (s' : Broker) (ticket : Text)
      → ((s : Broker) → x ≡ (ok ticket, s) → Found backend topic events ticket s.asked [])
      → closed x ≡ (ok ticket, s')
      → Found backend topic events ticket s'.asked (disconnect ∷ [])
  ended topic events (err e, s) s' ticket go h = absurd (err-ne-ok (ap (λ x. x.0) h))
  ended topic events (ok t, s) s' ticket go h =
      let same : t ≡ ticket = ok_injective (ap (λ x. x.0) h) in
      let (quiet, b, bs, rest, is, all, read, before, last) =
        go s (ap (λ (t : Text). (ok t, s)) same) in
      (
        quiet,
        b,
        bs,
        rest,
        is,
        all,
        read,
        before,
        ap (λ (x : Result (RvError IoError) Text × Broker). x.1.asked) (sym h)
            ∙ ask-asked IoError disconnect s s.faults
            ∙ ap (λ (a : List Request). a ++ disconnect ∷ []) last
            ∙ append_assoc before (publish topic [] ∷ []) (disconnect ∷ []),
      )

  if_endpoint :
      (topic : Text) (r : Result (RvError IoError) (Text × ℕ × Bool)) (s s' : Broker)
      (ticket : Text)
      → continue (λ _. subscribed backend topic) (r, s) ≡ (ok ticket, s')
      → Found backend topic s.events ticket s'.asked []
  if_endpoint topic (ok e) s s' ticket h = subscribed-Found topic s s' s.faults ticket h
  if_endpoint topic (err e) s s' ticket h = absurd (err-ne-ok (ap (λ x. x.0) h))

  -- A claim gives nothing but the first message with a payload that came on the connection, read as
  -- text; no error came before it. The last requests of the claim are to store an empty message
  -- under the topic of the nameplate and the words, which clears it, and to disconnect.
  pub claim-Found :
      (nameplate : ℕ) (words ticket : Text) (s s' : Broker)
      → claim {IoError = IoError} backend nameplate words s ≡ (ok ticket, s')
      → Found backend
          (derive_topic backend nameplate words)
          s.events
          ticket
          s'.asked
          (disconnect ∷ [])
  unfolding claim
  claim-Found nameplate words ticket s s' h =
      ended (derive_topic backend nameplate words) s.events _ s' ticket
        (λ s''. if_endpoint (derive_topic backend nameplate words) (endpoint backend) s s'' ticket)
        h
