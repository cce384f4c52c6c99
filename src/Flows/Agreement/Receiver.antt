-- ===== src/Flows/Agreement/Receiver.antt =====
-- The receive flow on what a sender sends, crates/cli/src/receive.rs.
use worddrop.Base.{
  ℕ, ◌%◌, ◌^◌, ◌≡◌, refl, true, false, none, some, List, [], ◌∷◌, ◌++◌, length, Text, as_bytes, ok,
}
use worddrop.Protocol.Bytes.{Bytes}
use worddrop.Protocol.Wire.{Json}
use worddrop.Session.{Session, apply}
use worddrop.Session.State.{done, transition}
use worddrop.Session.Control.{
  End, ControlMessage, hello, offer, result, protocol_version, check_version, recv_message_timeout,
  FileMeta,
}
use worddrop.Session.Control.Streams.{recv-send}
use worddrop.Pairing.Handshake.{HandshakeMessage}
use worddrop.Pairing.Spake.{Library}
use worddrop.Pairing.Exchange.Agreement.Onward.{Agreed, receiver_onward}
use worddrop.Transfer.Record.{Hashing, TransferRecord, RecordStore, load}
use worddrop.Transfer.Progress
use worddrop.Transfer.Progress.{TransferResult}
use worddrop.Transfer.Receive.{receive_resumable}
use worddrop.Flows.Receive
use worddrop.Flows.Receive.{CloseRead, at_end, ReceiveOutcome, await_peer_close, check_resume}
use worddrop.Flows.Agreement.{world, Framed}

-- Nothing interrupts the receiver or makes it wait too long, the offer is accepted, and the sender
-- closes the stream when it has the result.
pub record IsSmooth {Hash F Rv En C IoError Seed Ticket : Type 0}
    (env : Receive.Env Hash F Rv En C IoError Seed Ticket) (reads : List CloseRead) : Type 0 where
  pub hello_in_time : env.late_hello ≡ false
  pub pairing_not_interrupted : env.interrupted_pairing ≡ none
  pub first_in_time : env.late ≡ false
  pub second_in_time : env.later ≡ false
  pub not_interrupted : env.interrupted_offer ≡ false
  pub offer_in_time : env.late_offer ≡ false
  pub accepted : env.auto_accept ≡ some true
  pub closed : env.close_reads ≡ at_end ∷ reads

module _ (IoError X : Type 0) {E P Hash F Rv En C Seed Inner Ticket : Type 0}
    (json : Json E ControlMessage) (handshakes : Json E HandshakeMessage)
    (library : Library Seed Inner P) (hashing : Hashing Hash)
    (records : Json E (TransferRecord Hash)) (store : RecordStore)
    (download : Text → Progress.Env Hash F X) (env : Receive.Env Hash F Rv En C IoError Seed Ticket)
    (ending : End IoError) (seed : Seed) (words key : Bytes) (words' : Text)
    (agreed : Agreed library handshakes seed env.seed words (as_bytes words') key)
    (metas : List FileMeta) (total : ℕ) (r : TransferResult)
    (frames : Framed IoError json
      (offer metas total)
      (result r.bytes (r.files % 2 ^ 32) r.skipped_bytes (length r.skipped % 2 ^ 32))) where
  pub receiver_runs :
      (h : Hash) (target : Text) (s : Session) (reads : List CloseRead)
      (own own' : Progress.World Hash)
      → IsSmooth env reads
      → load hashing records env.stale_unreadable store h target own.disk ≡ none
      → receive_resumable hashing records store
          (download target)
          env.unreadable
          env.uncreated
          env.undeleted
          h
          target
          own
        ≡ (ok r, own')
      → Receive.with_stream IoError X json handshakes library hashing records store download env h
          target words'
          (world s
            (frames.hello_frame ++ (agreed.frame ++ (agreed.token ++ (frames.offer_frame ++ []))))
            ending
            []
            own)
        ≡ some (
          ok (ReceiveOutcome.finished r.bytes r.files r.skipped_bytes (length r.skipped)),
          world
              (record { phase = done; cancel_tx = false })
              []
              ending
              ((((([] ++ frames.hello_frame) ++ agreed.frame') ++ agreed.token)
                  ++ frames.accept_frame)
                ++ frames.result_frame)
              own',
        )
  unfolding recv_message_timeout check_version apply transition check_resume await_peer_close
  receiver_runs h target s reads own own' smooth fresh received = rw (
    frames.hello_framed,
    smooth.hello_in_time,
    recv-send json (hello protocol_version) frames.hello_frame
        (agreed.frame ++ (agreed.token ++ (frames.offer_frame ++ []))) ending frames.hello_framed
        refl,
    smooth.pairing_not_interrupted,
    smooth.first_in_time,
    smooth.second_in_time,
    receiver_onward library handshakes ending seed env.seed words (as_bytes words') key agreed
        (frames.offer_frame ++ []) ([] ++ frames.hello_frame),
    smooth.not_interrupted,
    smooth.offer_in_time,
    recv-send json (offer metas total) frames.offer_frame [] ending frames.offer_framed refl,
    smooth.accepted,
    frames.accept_framed,
    fresh,
    received,
    frames.result_framed,
    smooth.closed,
  )
