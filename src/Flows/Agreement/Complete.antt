-- ===== src/Flows/Agreement/Complete.antt =====
-- A transfer that completes on both sides, crates/cli/src/send and receive.rs.
use worddrop.Base.{
  ℕ, ◌+◌, ◌%◌, ◌^◌, ◌<◌, ◌≡◌, ap, ◌∙◌, true, false, none, some, List, [], ◌++◌, append_nil,
  append_assoc, map, length, Text, as_bytes, ok, ==_self, arith,
}
use worddrop.Protocol.Bytes.{Bytes}
use worddrop.Protocol.Wire.{Json}
use worddrop.Session.{Session}
use worddrop.Session.State.{pending_pair, done}
use worddrop.Session.Control.{End, ControlMessage, offer, result}
use worddrop.Pairing.Handshake.{HandshakeMessage}
use worddrop.Pairing.Spake.{Library}
use worddrop.Pairing.Exchange.Agreement.Onward.{Agreed}
use worddrop.Transfer.Record.{Hashing, TransferRecord, RecordStore, load}
use worddrop.Transfer.Progress
use worddrop.Transfer.Progress.{TransferResult}
use worddrop.Transfer.Receive.{receive_resumable}
use worddrop.Transfer.Send.Prepare.{PreparedTransfer}
use worddrop.Flows.Send
use worddrop.Flows.Send.{Wake, SendOutcome, Sending, result_matches}
use worddrop.Flows.Receive
use worddrop.Flows.Receive.{CloseRead, ReceiveOutcome}
use worddrop.Flows.Agreement.{world, Framed}
use worddrop.Flows.Agreement.Sender
use worddrop.Flows.Agreement.Sender.{moved, sender_runs}
use worddrop.Flows.Agreement.Receiver
use worddrop.Flows.Agreement.Receiver.{receiver_runs}

-- The receiver exported or skipped all that was prepared, and the numbers fit the message.
pub record Delivers {Hash Addr : Type 0} (p : PreparedTransfer Hash Addr) (r : TransferResult)
    : Type 0 where
  pub all_bytes : r.bytes + r.skipped_bytes ≡ p.total_bytes
  pub all_files : r.files + length r.skipped ≡ length p.files
  pub bytes_fit : p.total_bytes < 2 ^ 64
  pub files_fit : length p.files < 2 ^ 32

fits : (a b n : ℕ) → a + b ≡ n → n < 2 ^ 32 → (a % 2 ^ 32 ≡ a) × (b % 2 ^ 32 ≡ b) × (n % 2 ^ 32 ≡ n)
fits a b n e h = (omega arith, omega arith, omega arith)

delivered_matches :
    {Hash Addr : Type 0} (p : PreparedTransfer Hash Addr) (r : TransferResult)
    → Delivers p r
    → result_matches r.bytes
        (r.files % 2 ^ 32)
        r.skipped_bytes
        (length r.skipped % 2 ^ 32)
        p.total_bytes
        (length p.files % 2 ^ 32)
      ≡ true
unfolding result_matches
delivered_matches p r d =
    let (a, b, c) = fits r.files (length r.skipped) (length p.files) d.all_files d.files_fit in
    let total : (r.bytes + r.skipped_bytes) % 2 ^ 64 ≡ p.total_bytes =
      rw d.all_bytes (ground (arith, d.bytes_fit)) in
    rw (total, a, b, d.all_files, ==_self p.total_bytes, ==_self (length p.files % 2 ^ 32))

-- The bytes of a side, as it sends them.
four : (a b c d : Bytes) → ((a ++ b) ++ c) ++ d ≡ a ++ (b ++ (c ++ d))
four a b c d = append_assoc (a ++ b) c d ∙ append_assoc a b (c ++ d)

module _ (IoError : Type 0) {E P Hash F X Addr Rv C Rv' En C' Seed Inner Ticket : Type 0}
    (json : Json E ControlMessage) (handshakes : Json E HandshakeMessage)
    (library : Library Seed Inner P) (hashing : Hashing Hash)
    (records : Json E (TransferRecord Hash)) (store : RecordStore)
    (download : Text → Progress.Env Hash F X) (sender : Send.Env Hash F X Addr Rv C Seed)
    (receiver : Receive.Env Hash F Rv' En C' IoError Seed Ticket) (ending ending' : End IoError)
    (words words' : Text) (key : Bytes)
    (agreed : Agreed library handshakes sender.seed receiver.seed
      (as_bytes words)
      (as_bytes words')
      key)
    (p : PreparedTransfer Hash Addr) (r : TransferResult)
    (frames : Framed IoError json
      (offer (map (Send.file_meta IoError json handshakes library sender) p.files) p.total_bytes)
      (result r.bytes (r.files % 2 ^ 32) r.skipped_bytes (length r.skipped % 2 ^ 32))) where
  -- What each side sends.
  abbrev pub from_sender : Bytes
  from_sender = frames.hello_frame ++ (agreed.frame ++ (agreed.token ++ frames.offer_frame))

  abbrev pub from_receiver : Bytes
  from_receiver =
      frames.hello_frame
      ++ (agreed.frame' ++ (agreed.token ++ (frames.accept_frame ++ frames.result_frame)))

  -- A receiver that accepts, without a resume record, and a sender, with one key and nothing in
  -- their way, both read what the other sends and complete with the same numbers, if the download
  -- delivers all that was prepared.
  pub transfer_completes :
      (served : List ℕ) (wakes : List Wake) (sending : Sending) (h : Hash) (target : Text)
      (s : Session) (reads : List CloseRead) (own own' : Progress.World Hash)
      → Sender.IsSmooth sender served wakes
      → Receiver.IsSmooth receiver reads
      → load hashing records receiver.stale_unreadable store h target own.disk ≡ none
      → receive_resumable hashing records store
          (download target)
          receiver.unreadable
          receiver.uncreated
          receiver.undeleted
          h
          target
          own
        ≡ (ok r, own')
      → Delivers p r
      → (Send.with_stream IoError json handshakes library sender p words (
            world
              (record { phase = pending_pair; cancel_tx = false })
              from_receiver
              ending
              []
              sending)
          ≡ some (
            ok (SendOutcome.finished r.bytes r.files r.skipped_bytes (length r.skipped)),
            world
                (record { phase = done; cancel_tx = false })
                []
                ending
                from_sender
                (moved IoError json handshakes library sender p.total_bytes sending served),
          ))
        × (Receive.with_stream IoError X json handshakes library hashing records store download
              receiver h target words'
              (world s from_sender ending' [] own)
            ≡ some (
              ok (ReceiveOutcome.finished r.bytes r.files r.skipped_bytes (length r.skipped)),
              world (record { phase = done; cancel_tx = false }) [] ending' from_receiver own',
            ))
  transfer_completes served wakes sending h target s reads own own' calm calm' fresh got d =
      let (a, b, c) = fits r.files (length r.skipped) (length p.files) d.all_files d.files_fit in
      let sender_sent = four frames.hello_frame agreed.frame agreed.token frames.offer_frame in
      let receiver_sent =
        ap (λ (x : Bytes). x ++ frames.result_frame)
          (four frames.hello_frame agreed.frame' agreed.token frames.accept_frame)
        ∙ append_assoc frames.hello_frame (agreed.frame' ++ (agreed.token ++ frames.accept_frame))
            frames.result_frame
        ∙ ap (◌++◌ frames.hello_frame) (
            append_assoc agreed.frame' (agreed.token ++ frames.accept_frame) frames.result_frame
            ∙ ap (◌++◌ agreed.frame')
                (append_assoc agreed.token frames.accept_frame frames.result_frame)) in
      let sent =
        sender_runs IoError json handshakes library sender ending receiver.seed words
          (as_bytes words') key agreed p r.bytes (r.files % 2 ^ 32) r.skipped_bytes
          (length r.skipped % 2 ^ 32) frames served wakes sending calm (delivered_matches p r d) in
      let received =
        receiver_runs IoError X json handshakes library hashing records store download receiver
          ending' sender.seed (as_bytes words) key words' agreed
          (map (Send.file_meta IoError json handshakes library sender) p.files) p.total_bytes r
          frames h target s reads own own' calm' fresh got in
      (
        rw (a, b, sender_sent, append_nil frames.result_frame) at sent,
        rw (receiver_sent, append_nil frames.offer_frame) at received,
      )
