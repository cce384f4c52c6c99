-- ===== src/Flows/Agreement/Sender.antt =====
-- The send flow on what a receiver sends that accepts, crates/cli/src/send.
use worddrop.Base.{
  ℕ, ◌-◌, ◌%◌, ◌^◌, ◌≡◌, refl, true, false, some, List, [], ◌∷◌, ◌++◌, map, length, Text, as_bytes,
  ok,
}
use worddrop.Protocol.Bytes.{Bytes}
use worddrop.Protocol.Wire.{Json}
use worddrop.Session.{Session, apply}
use worddrop.Session.State.{transferring, done, pending_pair, transition}
use worddrop.Session.Control.{
  End, ControlMessage, hello, offer, accept, result, protocol_version, check_version, send_message,
  recv_message_timeout,
}
use worddrop.Session.Control.Streams.{recv-send}
use worddrop.Pairing.Handshake.{HandshakeMessage}
use worddrop.Pairing.Spake.{Library}
use worddrop.Pairing.Exchange.{recv_hello, recv_message_idle}
use worddrop.Pairing.Exchange.Agreement.Onward.{Agreed, sender_onward}
use worddrop.Transfer.Send.Prepare.{PreparedTransfer}
use worddrop.Transfer.Progress.{at_most}
use worddrop.Flows.Send
use worddrop.Flows.Send.{Wake, message, tick, SendOutcome, Sending, result_matches, transfer_phase}
use worddrop.Flows.Agreement.{world, Framed}

module _ (IoError : Type 0) {E P Hash F X Addr Rv C Seed Inner : Type 0}
    (json : Json E ControlMessage) (handshakes : Json E HandshakeMessage)
    (library : Library Seed Inner P) (env : Send.Env Hash F X Addr Rv C Seed) where
  -- Ticks that lose nothing only move the bar.
  abbrev pub moved : ℕ → Sending → List ℕ → Sending
  moved total own [] = own
  moved total own (n ∷ served) =
      moved total
        (record own { positions = own.positions ++ (at_most total (n - env.served_baseline)) ∷ [] })
        served

  ticks :
      (total file_count : ℕ) (served : List ℕ) (wakes : List Wake) (s : Session) (input : Bytes)
      (ending : End IoError) (sent : Bytes) (own : Sending)
      → transfer_phase IoError json handshakes library env total file_count
          (map (λ n. tick n 0) served ++ wakes)
          (world s input ending sent own)
        ≡ transfer_phase IoError json handshakes library env total file_count wakes
            (world s input ending sent (moved total own served))
  unfolding transfer_phase
  ticks total file_count [] wakes s input ending sent own = refl
  ticks total file_count (n ∷ served) wakes s input ending sent own =
      ticks total file_count served wakes s input ending sent
        (record own { positions = own.positions ++ (at_most total (n - env.served_baseline)) ∷ [] })

  -- A result that accounts for everything ends the transfer.
  phase_ends :
      (total file_count bytes files skipped_bytes skipped : ℕ) (wakes : List Wake)
      (frame rest : Bytes) (ending : End IoError) (sent : Bytes) (own : Sending)
      → send_message {IoError = IoError} json (result bytes files skipped_bytes skipped) ≡ ok frame
      → result_matches bytes files skipped_bytes skipped total file_count ≡ true
      → transfer_phase IoError json handshakes library env total file_count
          (message false ∷ wakes)
          (world
            (record { phase = transferring; cancel_tx = false })
            (frame ++ rest)
            ending
            sent
            own)
        ≡ some (
          ok (SendOutcome.finished bytes files skipped_bytes skipped),
          world (record { phase = done; cancel_tx = false }) rest ending sent own,
        )
  unfolding transfer_phase recv_message_idle recv_message_timeout check_version apply transition
  phase_ends total file_count bytes files skipped_bytes skipped wakes frame rest ending sent own
        framed matched =
      rw (
        recv-send json (result bytes files skipped_bytes skipped) frame rest ending framed refl,
        matched,
      )

-- Nothing interrupts the sender or makes it wait too long, and the ticks of its transfer, with
-- these served bytes, lose no bytes of the result.
pub record IsSmooth {Hash F X Addr Rv C Seed : Type 0} (env : Send.Env Hash F X Addr Rv C Seed)
    (served : List ℕ) (wakes : List Wake) : Type 0 where
  pub hello_in_time : env.late_hello ≡ false
  pub first_in_time : env.late ≡ false
  pub second_in_time : env.later ≡ false
  pub not_interrupted : env.interrupted_offer ≡ false
  pub response_in_time : env.late_response ≡ false
  pub woken : env.wakes ≡ map (λ n. tick n 0) served ++ message false ∷ wakes

module _ (IoError : Type 0) {E P Hash F X Addr Rv C Seed Inner : Type 0}
    (json : Json E ControlMessage) (handshakes : Json E HandshakeMessage)
    (library : Library Seed Inner P) (env : Send.Env Hash F X Addr Rv C Seed) (ending : End IoError)
    (seed' : Seed) (words : Text) (words' key : Bytes)
    (agreed : Agreed library handshakes env.seed seed' (as_bytes words) words' key)
    (p : PreparedTransfer Hash Addr) (bytes files skipped_bytes skipped : ℕ)
    (frames : Framed IoError json
      (offer (map (Send.file_meta IoError json handshakes library env) p.files) p.total_bytes)
      (result bytes files skipped_bytes skipped)) where
  -- What the receiver sends, and what the sender does.
  abbrev pub from_receiver : Bytes
  from_receiver =
      frames.hello_frame
      ++ (agreed.frame' ++ (agreed.token ++ (frames.accept_frame ++ (frames.result_frame ++ []))))

  abbrev pub sent_by_sender : Bytes
  sent_by_sender =
      ((([] ++ frames.hello_frame) ++ agreed.frame) ++ agreed.token) ++ frames.offer_frame

  pub sender_runs :
      (served : List ℕ) (wakes : List Wake) (own : Sending)
      → IsSmooth env served wakes
      → result_matches bytes files skipped_bytes skipped p.total_bytes (length p.files % 2 ^ 32)
        ≡ true
      → Send.with_stream IoError json handshakes library env p words
          (world (record { phase = pending_pair; cancel_tx = false }) from_receiver ending [] own)
        ≡ some (
          ok (SendOutcome.finished bytes files skipped_bytes skipped),
          world
              (record { phase = done; cancel_tx = false })
              []
              ending
              sent_by_sender
              (moved IoError json handshakes library env p.total_bytes own served),
        )
  unfolding recv_hello recv_message_idle recv_message_timeout check_version apply transition
      transfer_phase
  sender_runs served wakes own smooth matched = rw (
    smooth.hello_in_time,
    recv-send json (hello protocol_version) frames.hello_frame
        (agreed.frame' ++ (agreed.token ++ (frames.accept_frame ++ (frames.result_frame ++ []))))
        ending frames.hello_framed refl,
    frames.hello_framed,
    smooth.first_in_time,
    smooth.second_in_time,
    sender_onward library handshakes ending env.seed seed' (as_bytes words) words' key agreed
        (frames.accept_frame ++ (frames.result_frame ++ [])) ([] ++ frames.hello_frame),
    frames.offer_framed,
    smooth.not_interrupted,
    smooth.response_in_time,
    recv-send json accept frames.accept_frame (frames.result_frame ++ []) ending
        frames.accept_framed refl,
    smooth.woken,
    ticks IoError json handshakes library env p.total_bytes (length p.files % 2 ^ 32) served
        (message false ∷ wakes),
    phase_ends IoError json handshakes library env p.total_bytes (length p.files % 2 ^ 32) bytes
        files skipped_bytes skipped wakes frames.result_frame [] ending _ _ frames.result_framed
        matched,
  )
