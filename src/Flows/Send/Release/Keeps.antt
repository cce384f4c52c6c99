-- ===== src/Flows/Send/Release/Keeps.antt =====
-- Nothing that the send flow of crates/cli/src/send does on the control stream touches the pairing
-- that it keeps.
use worddrop.Base.{
  ℕ, ◌≡◌, Bool, true, false, List, [], ◌∷◌, Option, Text, Result, Bool-cases, inl, inr, codes,
  length, ◌%◌, ◌^◌, if◌then◌else◌, map, as_bytes,
}
use worddrop.Protocol.Wire.{Json}
use worddrop.Session
use worddrop.Session.{Session}
use worddrop.Session.State.{pair_confirmed, transfer_started, completed}
use worddrop.Session.Control.{ControlMessage, hello, offer, accept, decline, cancel, result}
use worddrop.Pairing.Handshake.{HandshakeMessage}
use worddrop.Pairing.Spake.{Library}
use worddrop.Pairing.Exchange.{recv_message_idle, recv_hello, spake_sender_side}
use worddrop.Transfer.Send.Prepare.{PreparedTransfer}
use worddrop.Flows.Talk.{
  World, ◌>>=◌, ◌>>◌, try_send, cancel_session, transition, return, receive, talk, send,
}
use worddrop.Flows.Talk.Keeps
use worddrop.Flows.Talk.Keeps.{
  then_keeps, session_keeps, peer_keeps, reader_keeps, send_keeps, try_send_keeps,
}
use worddrop.Flows.Send
use worddrop.Flows.Send.{
  Wake, interrupted, message, tick, SendError, SendOutcome, Sending, Env, run_send, run_send_inner,
  transfer_phase, wait_receiver, result_matches, finished, transition_failed, pair, control,
  connection, hung, acceptor_closed, rv, prepare, publish, word, Dialled, Accepted, opened, failed,
}

-- The pairing that a flow keeps, and the ones that it released.
abbrev pub Kept : Type 0
Kept = Option (ℕ × Text) × List (ℕ × Text)

abbrev pub held : Sending → Kept
held s = (s.pairing, s.released)

-- However a run ended, it kept this.
abbrev pub KeptAs :
    {IoError Er A : Type 0} → Kept → Option (Result Er A × World IoError Sending) → Type 0
KeptAs = Keeps.KeptAs held

module _ (IoError : Type 0) {E P Hash F X Addr Rv C Seed Inner : Type 0}
    (json : Json E ControlMessage) (handshakes : Json E HandshakeMessage)
    (library : Library Seed Inner P) (env : Env Hash F X Addr Rv C Seed) (k : Kept) where
  abbrev Er : Type 0
  Er = SendError E IoError P F X Rv C

  end_keeps :
      (o : SendOutcome) (w : World IoError Sending)
      → held w.own ≡ k
      → KeptAs k ((cancel_session {Er = Er} transition_failed >> return o) w)
  end_keeps o w h =
      then_keeps held k (cancel_session transition_failed w) (λ _. return o)
        (session_keeps held k w h transition_failed (Session.cancel w.session)) λ _ v g. g

  cancel_keeps :
      (w : World IoError Sending)
      → held w.own ≡ k
      → KeptAs k (Send.cancel_both IoError json handshakes library env w)
  cancel_keeps w h =
      then_keeps held k ((try_send json cancel >> cancel_session {Er = Er} transition_failed) w)
        (λ _. return SendOutcome.cancelled)
        (then_keeps held k (try_send json cancel w) (λ _. cancel_session transition_failed)
          (try_send_keeps held Er k w h json cancel)
          λ _ v g. session_keeps held k v g transition_failed (Session.cancel v.session))
        λ _ v g. g

  idle_keeps :
      (late : Bool) (what : Text) (w : World IoError Sending)
      → held w.own ≡ k
      → KeptAs k (Send.receive_idle IoError json handshakes library env late what w)
  idle_keeps late what w h =
      reader_keeps held k w h pair (recv_message_idle P json late what w.peer.reader)

  result_keeps :
      (total file_count b f sb sf : ℕ) (w : World IoError Sending)
      → held w.own ≡ k
      → KeptAs k (Send.on_result IoError json handshakes library env total file_count b f sb sf w)
  result_keeps total file_count b f sb sf w h =
      elim (Bool-cases (result_matches b f sb sf total file_count)) [
        | inl q ↦ rw q (
            then_keeps held k (transition transition_failed completed w)
              (λ _. return (finished b f sb sf))
              (session_keeps held k w h transition_failed (Session.apply w.session completed))
              λ _ v g. g)
        | inr q ↦ rw q h
      ]

  message_keeps :
      (total file_count : ℕ) (m : ControlMessage) (w : World IoError Sending)
      → held w.own ≡ k
      → KeptAs k (Send.on_message IoError json handshakes library env total file_count m w)
  message_keeps total file_count (result b f sb sf) w h =
      result_keeps total file_count b f sb sf w h
  message_keeps total file_count cancel w h = end_keeps SendOutcome.cancelled w h
  message_keeps total file_count (hello v) w h = h
  message_keeps total file_count (offer ms t) w h = h
  message_keeps total file_count accept w h = h
  message_keeps total file_count (decline reason) w h = h

  phase_keeps :
      (total file_count : ℕ) (wakes : List Wake) (w : World IoError Sending)
      → held w.own ≡ k
      → KeptAs k (transfer_phase IoError json handshakes library env total file_count wakes w)
  unfolding transfer_phase
  phase_keeps total file_count [] w h = tt
  phase_keeps total file_count (interrupted ∷ wakes) w h = cancel_keeps w h
  phase_keeps total file_count (message late ∷ wakes) w h =
      then_keeps held k
        (Send.receive_idle IoError json handshakes library env late
          (codes "transfer result or cancel") w)
        (Send.on_message IoError json handshakes library env total file_count)
        (idle_keeps late (codes "transfer result or cancel") w h) (message_keeps total file_count)
  phase_keeps total file_count (tick served lost ∷ wakes) w h =
      phase_keeps total file_count wakes _ h

  response_keeps :
      (total file_count : ℕ) (m : ControlMessage) (w : World IoError Sending)
      → held w.own ≡ k
      → KeptAs k (Send.on_response IoError json handshakes library env total file_count m w)
  response_keeps total file_count accept w h =
      then_keeps held k (transition transition_failed transfer_started w)
        (λ _. transfer_phase IoError json handshakes library env total file_count env.wakes)
        (session_keeps held k w h transition_failed (Session.apply w.session transfer_started))
        λ _. phase_keeps total file_count env.wakes
  response_keeps total file_count cancel w h = end_keeps SendOutcome.cancelled w h
  response_keeps total file_count (decline reason) w h = h
  response_keeps total file_count (hello v) w h = h
  response_keeps total file_count (offer ms t) w h = h
  response_keeps total file_count (result b f sb sf) w h = h

  wait_keeps :
      (p : PreparedTransfer Hash Addr) (w : World IoError Sending)
      → held w.own ≡ k
      → KeptAs k (Send.wait_response IoError json handshakes library env p w)
  wait_keeps p w h = branch env.interrupted_offer
    where
      branch :
          (b : Bool)
          → KeptAs k (
              (if b
                  then Send.cancel_both IoError json handshakes library env
                  else Send.receive_idle IoError json handshakes library env env.late_response
                      (codes "offer response")
                    >>= Send.on_response IoError json handshakes library env p.total_bytes
                        (length p.files % 2 ^ 32))
                w)
      branch true = cancel_keeps w h
      branch false =
          then_keeps held k
            (Send.receive_idle IoError json handshakes library env env.late_response
              (codes "offer response") w)
            (Send.on_response IoError json handshakes library env p.total_bytes
              (length p.files % 2 ^ 32))
            (idle_keeps env.late_response (codes "offer response") w h)
            (response_keeps p.total_bytes (length p.files % 2 ^ 32))

  stream_keeps :
      (p : PreparedTransfer Hash Addr) (words : Text) (w : World IoError Sending)
      → held w.own ≡ k
      → KeptAs k (Send.with_stream IoError json handshakes library env p words w)
  stream_keeps p words w h =
      let ask = receive pair (recv_hello P json env.late_hello) in
      let side =
        spake_sender_side handshakes library env.late env.later env.seed (as_bytes words) in
      let files = map (Send.file_meta IoError json handshakes library env) p.files in
      let offered = offer files p.total_bytes in
      let last = λ (v : World IoError Sending) (g : held v.own ≡ k).
        then_keeps held k
          ((transition transition_failed pair_confirmed >> send {Er = Er} json control offered) v)
          (λ _. Send.wait_response IoError json handshakes library env p)
          (then_keeps held k (transition transition_failed pair_confirmed v)
            (λ _. send json control offered)
            (session_keeps held k v g transition_failed (Session.apply v.session pair_confirmed))
            λ _ v' g'. send_keeps held k v' g' json control offered)
          λ _. wait_keeps p in
      then_keeps held k (ask w)
        (λ ours. send json control ours >> talk pair side >>= λ key.
          transition transition_failed pair_confirmed
          >> send json control offered
          >> Send.wait_response IoError json handshakes library env p)
        (reader_keeps held k w h pair (recv_hello P json env.late_hello w.peer.reader))
        λ ours v g.
          then_keeps held k ((send json control ours >> talk {Er = Er} pair side) v)
            (λ key.
              transition transition_failed pair_confirmed
              >> send json control offered
              >> Send.wait_response IoError json handshakes library env p)
            (then_keeps held k (send json control ours v) (λ _. talk pair side)
              (send_keeps held k v g json control ours)
              λ _ v' g'. peer_keeps held k v' g' pair (side v'.peer))
            λ key. last

  accepted_keeps :
      (a : Accepted C) (p : PreparedTransfer Hash Addr) (words : Text) (w : World IoError Sending)
      → held w.own ≡ k
      → KeptAs k (
          (Send.accept_control_stream IoError json handshakes library env a
              >> Send.with_stream IoError json handshakes library env p words)
            w)
  accepted_keeps Accepted.too_late p words w h = h
  accepted_keeps (failed e) p words w h = h
  accepted_keeps opened p words w h = stream_keeps p words w h

  pub receiver_keeps :
      (d : Dialled) (p : PreparedTransfer Hash Addr) (words : Text) (w : World IoError Sending)
      → held w.own ≡ k
      → KeptAs k (wait_receiver IoError json handshakes library env p words d w)
  receiver_keeps Dialled.interrupted p words w h = h
  receiver_keeps Dialled.too_late p words w h = h
  receiver_keeps Dialled.closed p words w h = h
  receiver_keeps Dialled.arrived p words w h = accepted_keeps env.accepted p words w h
