-- ===== src/Client/Mqtt/Delivery.antt =====
-- A ticket from its publication to its claim over a broker, `MqttBackend` of
-- crates/cli/src/rendezvous_client.rs.
use worddrop.Base.{
  ℕ, ◌≤◌, ◌≡◌, refl, ap, sym, ◌∙◌, Bool, true, false, List, [], ◌∷◌, ◌++◌, append_assoc, append_nil,
  some, Text, ok, All, as_bytes, byte_len, is_empty, trim, ltb, arith,
}
use worddrop.Protocol.Bytes.{Bytes}
use worddrop.Client.Mqtt.{
  Polled, incoming_publish, conn_ack, outgoing_publish, other_event, poll_error, Request, publish,
  subscribe, disconnect, Broker, Backend, derive_topic, await_event, is_outgoing_publish, endpoint,
  max_ticket_length, closed, claim_loop, claim, publish_ticket,
}
use worddrop.Client.Mqtt.Claims.{IsQuiet}

-- An event that a wait for a write passes over.
abbrev pub IsIdle : Polled → Type 0
IsIdle outgoing_publish = ⊥
IsIdle (poll_error e) = ⊥
IsIdle (incoming_publish payload) = Unit
IsIdle (conn_ack present) = Unit
IsIdle other_event = Unit

-- A connection on which no request fails.
abbrev pub broker : List Polled → List Request → Broker
broker events asked = record { events = events; faults = []; asked = asked }

-- A claim subscribes again after every new session.
abbrev pub resubscribed : Text → List Polled → List Request
resubscribed topic [] = []
resubscribed topic (conn_ack false ∷ quiet) = subscribe topic ∷ resubscribed topic quiet
resubscribed topic (e ∷ quiet) = resubscribed topic quiet

module _ (IoError : Type 0) where
  await_write :
      (idle rest events : List Polled) (asked : List Request)
      → All IsIdle idle
      → await_event {IoError = IoError} is_outgoing_publish
          (idle ++ outgoing_publish ∷ rest)
          (broker events asked)
        ≡ (ok tt, broker rest asked)
  unfolding await_event
  await_write [] rest events asked h = refl
  await_write (incoming_publish payload ∷ idle) rest events asked h =
      await_write idle rest events asked h.1
  await_write (conn_ack present ∷ idle) rest events asked h = await_write idle rest events asked h.1
  await_write (other_event ∷ idle) rest events asked h = await_write idle rest events asked h.1
  await_write (outgoing_publish ∷ idle) rest events asked h = absurd h.0
  await_write (poll_error e ∷ idle) rest events asked h = absurd h.0

  module _ (backend : Backend) where
    claim_loop_quiet :
        (topic : Text) (quiet onward events : List Polled) (asked : List Request)
        → All IsQuiet quiet
        → claim_loop {IoError = IoError} backend topic (quiet ++ onward) (broker events asked)
          ≡ claim_loop backend topic onward (broker events (asked ++ resubscribed topic quiet))
    unfolding claim_loop
    claim_loop_quiet topic [] onward events asked h = rw (append_nil asked)
    claim_loop_quiet topic (incoming_publish [] ∷ quiet) onward events asked h =
        claim_loop_quiet topic quiet onward events asked h.1
    claim_loop_quiet topic (incoming_publish (b ∷ bs) ∷ quiet) onward events asked h = absurd h.0
    claim_loop_quiet topic (conn_ack true ∷ quiet) onward events asked h =
        claim_loop_quiet topic quiet onward events asked h.1
    claim_loop_quiet topic (conn_ack false ∷ quiet) onward events asked h =
        claim_loop_quiet topic quiet onward events (asked ++ subscribe topic ∷ []) h.1
        ∙ ap
            (λ (a : List Request).
              claim_loop {IoError = IoError} backend topic onward (broker events a))
            (append_assoc asked (subscribe topic ∷ []) (resubscribed topic quiet))
    claim_loop_quiet topic (outgoing_publish ∷ quiet) onward events asked h =
        claim_loop_quiet topic quiet onward events asked h.1
    claim_loop_quiet topic (other_event ∷ quiet) onward events asked h =
        claim_loop_quiet topic quiet onward events asked h.1
    claim_loop_quiet topic (poll_error e ∷ quiet) onward events asked h = absurd h.0

    claim_loop_taken :
        (topic ticket : Text) (b : ℕ) (bs : Bytes) (idle rest events : List Polled)
        (asked : List Request)
        → backend.from_utf8 (b ∷ bs) ≡ some ticket
        → All IsIdle idle
        → claim_loop {IoError = IoError} backend topic
            (incoming_publish (b ∷ bs) ∷ (idle ++ outgoing_publish ∷ rest))
            (broker events asked)
          ≡ (ok ticket, broker rest (asked ++ publish topic [] ∷ []))
    unfolding claim_loop
    claim_loop_taken topic ticket b bs idle rest events asked read h =
        rw (read, await_write idle rest events (asked ++ publish topic [] ∷ []) h)

    -- The URL is a broker's; the ticket is not blank, has at most 4096 bytes, and is read back from
    -- them. The sender's broker takes the ticket, and the receiver's delivers it as the first message
    -- with a payload; no request fails, and what each stores is written in time. Then the publication
    -- succeeds, having stored the ticket under the topic of the nameplate and the words, and the
    -- claim for the same nameplate and words returns the ticket, having cleared that topic.
    pub publish-claim :
        (ticket words : Text) (nameplate b : ℕ) (bs : Bytes) (e : Text × ℕ × Bool)
        (before after quiet idle rest : List Polled)
        → endpoint {IoError = IoError} backend ≡ ok e
        → is_empty (trim ticket) ≡ false
        → byte_len ticket ≤ max_ticket_length
        → as_bytes ticket ≡ b ∷ bs
        → backend.from_utf8 (as_bytes ticket) ≡ some ticket
        → All IsIdle before
        → All IsQuiet quiet
        → All IsIdle idle
        → (publish_ticket {IoError = IoError} backend ticket nameplate words
              (broker (before ++ outgoing_publish ∷ after) [])
            ≡ (
              ok tt,
              broker after (
                  publish (derive_topic backend nameplate words) (as_bytes ticket)
                  ∷ disconnect
                  ∷ []),
            ))
          × (claim {IoError = IoError} backend nameplate words (
                broker
                  (quiet ++ incoming_publish (as_bytes ticket) ∷ (idle ++ outgoing_publish ∷ rest))
                  [])
              ≡ (
                ok ticket,
                broker rest (
                    ((subscribe (derive_topic backend nameplate words)
                        ∷ resubscribed (derive_topic backend nameplate words) quiet)
                      ++ publish (derive_topic backend nameplate words) [] ∷ [])
                    ++ disconnect ∷ []),
              ))
    unfolding publish_ticket claim
    publish-claim ticket words nameplate b bs e before after quiet idle rest there full short
          payload read writes passes clears =
        let topic = derive_topic backend nameplate words in
        let fits : ltb max_ticket_length (byte_len ticket) ≡ false = ground arith in
        (
          rw (
            full,
            fits,
            there,
            await_write before after (before ++ outgoing_publish ∷ after)
                (publish topic (as_bytes ticket) ∷ []) writes,
          ),
          rw (there, payload)
              (ap closed (
                claim_loop_quiet topic quiet
                  (incoming_publish (b ∷ bs) ∷ (idle ++ outgoing_publish ∷ rest))
                  (quiet ++ incoming_publish (b ∷ bs) ∷ (idle ++ outgoing_publish ∷ rest))
                  (subscribe topic ∷ []) passes
                ∙ claim_loop_taken topic ticket b bs idle rest
                    (quiet ++ incoming_publish (b ∷ bs) ∷ (idle ++ outgoing_publish ∷ rest))
                    (subscribe topic ∷ resubscribed topic quiet)
                    (sym (ap backend.from_utf8 payload) ∙ read) clears)),
        )
