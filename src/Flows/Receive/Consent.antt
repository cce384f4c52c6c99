-- ===== src/Flows/Receive/Consent.antt =====
-- The disk of a receiver that does not accept, crates/cli/src/receive.rs.
pub mod Offer
use worddrop.Base.{
  ℕ, ◌≡◌, refl, Bool, true, false, ◌&&◌, Option, none, some, List, [], ◌∷◌, Text, codes, as_bytes,
  is_empty, trim, Result, subst, if◌then◌else◌,
}
use worddrop.Protocol.Bytes.{Bytes}
use worddrop.Protocol.Wire.{Json}
use worddrop.Session
use worddrop.Session.State.{start_pairing, pair_confirmed}
use worddrop.Session.Control.{
  ControlMessage, hello, offer, accept, decline, cancel, result, handshake_timeout,
  protocol_version, recv_message_timeout,
}
use worddrop.Pairing.Handshake.{HandshakeMessage}
use worddrop.Pairing.Spake.{Library}
use worddrop.Pairing.WordCode.{split_code}
use worddrop.Pairing.Exchange.{spake_receiver_side}
use worddrop.Transfer.Record.{Hashing, TransferRecord, RecordStore}
use worddrop.Transfer.Progress
use worddrop.Flows.Talk.{
  World, ◌>>=◌, ◌>>◌, return, fail, lift, transition, cancel_session, talk, receive, send, try_send,
}
use worddrop.Flows.Talk.Keeps
use worddrop.Flows.Talk.Keeps.{
  then_keeps, lift_keeps, session_keeps, peer_keeps, reader_keeps, send_keeps, try_send_keeps,
}
use worddrop.Flows.Receive
use worddrop.Flows.Receive.{
  Env, CloseRead, late, failed, at_end, more, Dial, Prompt, Line, typed, missing, unreadable,
  RecvError, ReceiveOutcome, await_peer_close, run_receive_inner, run_receive, says_yes, control,
  pair, connection, word, rv, engine, transition_failed,
}
use worddrop.Flows.Receive.Consent.Offer.{says_accept, paired_keeps}

module _ (IoError X : Type 0) {E P Hash F Rv En C Seed Inner Ticket : Type 0}
    (json : Json E ControlMessage) (handshakes : Json E HandshakeMessage)
    (library : Library Seed Inner P) (hashing : Hashing Hash)
    (records : Json E (TransferRecord Hash)) (store : RecordStore)
    (download : Text → Progress.Env Hash F X) (env : Env Hash F Rv En C IoError Seed Ticket)
    (k : Progress.World Hash) where
  abbrev Er : Type 0
  Er = RecvError E IoError P F X Rv En C

  abbrev Own : Type 0
  Own = Progress.World Hash

  abbrev whole : Own → Own
  whole d = d

  abbrev KeptAs : Option (Result Er ReceiveOutcome × World IoError Own) → Type 0
  KeptAs = Keeps.KeptAs whole k

  pairing_keeps :
      (hash : Hash) (target words : Text) (stop : Option Bytes) (w : World IoError Own)
      → says_accept env.auto_accept env.accept_prompt ≡ false
      → w.own ≡ k
      → KeptAs (
          Receive.with_pairing IoError X json handshakes library hashing records store download env
            hash target words stop w)
  pairing_keeps hash target words (some part) w refused h =
      then_keeps whole k (try_send json cancel (Receive.written w part))
        (λ _. return ReceiveOutcome.cancelled)
        (try_send_keeps whole Er k (Receive.written w part) h json cancel) λ _ v g. g
  pairing_keeps hash target words none w refused h =
      let side =
        spake_receiver_side handshakes library env.late env.later env.seed (as_bytes words) in
      then_keeps whole k (talk pair side w)
        (λ key.
          Receive.paired IoError X json handshakes library hashing records store download env hash
            target)
        (peer_keeps whole k w h pair (side w.peer))
        λ key v g.
          paired_keeps IoError X json handshakes library hashing records store download env k hash
            target v refused g

  stream_keeps :
      (hash : Hash) (target words : Text) (w : World IoError Own)
      → says_accept env.auto_accept env.accept_prompt ≡ false
      → w.own ≡ k
      → KeptAs (
          Receive.with_stream IoError X json handshakes library hashing records store download env
            hash target words w)
  stream_keeps hash target words w refused h =
      let ask = recv_message_timeout json env.late_hello (codes "sender hello") handshake_timeout in
      then_keeps whole k
        (Receive.say_hello IoError X json handshakes library hashing records store download env w)
        (λ theirs.
          Receive.with_pairing IoError X json handshakes library hashing records store download env
            hash target words env.interrupted_pairing)
        (then_keeps whole k (send json control (hello protocol_version) w)
          (λ _. receive control ask) (send_keeps whole k w h json control (hello protocol_version))
          λ _ v g. reader_keeps whole k v g control (ask v.peer.reader))
        λ theirs v g. pairing_keeps hash target words env.interrupted_pairing v refused g

  dial_keeps :
      (hash : Hash) (target words : Text) (d : Dial IoError) (w : World IoError Own)
      → says_accept env.auto_accept env.accept_prompt ≡ false
      → w.own ≡ k
      → KeptAs (
          Receive.with_dial IoError X json handshakes library hashing records store download env
            hash target words d w)
  dial_keeps hash target words Dial.interrupted w refused h = h
  dial_keeps hash target words Dial.too_late w refused h = h
  dial_keeps hash target words (Dial.refused e) w refused h = h
  dial_keeps hash target words Dial.connected w refused h =
      then_keeps whole k (lift connection env.open_bi w)
        (λ _.
          Receive.with_stream IoError X json handshakes library hashing records store download env
            hash target words)
        (lift_keeps whole k w h connection env.open_bi)
        λ _ v g. stream_keeps hash target words v refused g

  inner_keeps :
      (t : Ticket) (words : Text) (w : World IoError Own)
      → says_accept env.auto_accept env.accept_prompt ≡ false
      → w.own ≡ k
      → KeptAs (
          run_receive_inner IoError X json handshakes library hashing records store download env t
            words w)
  unfolding run_receive_inner
  inner_keeps t words w refused h =
      let unresolved : F → Er = λ f. Receive.receive_failed (Receive.target_dir_resolve f) in
      then_keeps whole k (lift unresolved env.output w)
        (λ target.
          Receive.with_dial IoError X json handshakes library hashing records store download env
            (env.ticket_hash t) target words env.dial)
        (lift_keeps whole k w h unresolved env.output)
        λ target v g. dial_keeps (env.ticket_hash t) target words env.dial v refused g

  relay_keeps :
      (t : Ticket) (words : Text) (stuck : Bool) (w : World IoError Own)
      → says_accept env.auto_accept env.accept_prompt ≡ false
      → w.own ≡ k
      → KeptAs (
          (if stuck
              then fail Receive.relay_hung
              else run_receive_inner IoError X json handshakes library hashing records store
                  download env t words)
            w)
  relay_keeps t words true w refused h = h
  relay_keeps t words false w refused h = inner_keeps t words w refused h

  ticket_keeps :
      (words text : Text) (o : Option Ticket) (w : World IoError Own)
      → says_accept env.auto_accept env.accept_prompt ≡ false
      → w.own ≡ k
      → KeptAs (
          Receive.with_ticket IoError X json handshakes library hashing records store download env
            words text o w)
  ticket_keeps words text none w refused h = h
  ticket_keeps words text (some t) w refused h =
      then_keeps whole k (lift engine env.engine_new w)
        (λ _.
          if env.relay_enabled && env.relay_late
          then fail Receive.relay_hung
          else run_receive_inner IoError X json handshakes library hashing records store download
              env t words)
        (lift_keeps whole k w h engine env.engine_new)
        λ _ v g. relay_keeps t words (env.relay_enabled && env.relay_late) v refused g

  claim_keeps :
      (nameplate : ℕ) (words : Text) (stop : Bool) (w : World IoError Own)
      → says_accept env.auto_accept env.accept_prompt ≡ false
      → w.own ≡ k
      → KeptAs (
          (if stop
              then return ReceiveOutcome.cancelled
              else (lift rv (env.claim nameplate words) >>= λ text.
                  Receive.with_ticket IoError X json handshakes library hashing records store
                    download env words text
                    (env.parse_ticket text)))
            w)
  claim_keeps nameplate words true w refused h = h
  claim_keeps nameplate words false w refused h =
      then_keeps whole k (lift rv (env.claim nameplate words) w)
        (λ text.
          Receive.with_ticket IoError X json handshakes library hashing records store download env
            words text (env.parse_ticket text))
        (lift_keeps whole k w h rv (env.claim nameplate words))
        λ text v g. ticket_keeps words text (env.parse_ticket text) v refused g

  code_keeps :
      (code : Text) (blank : Bool) (w : World IoError Own)
      → says_accept env.auto_accept env.accept_prompt ≡ false
      → w.own ≡ k
      → KeptAs (
          (if blank
              then fail Receive.no_code
              else (lift word (split_code code)
                  >>= Receive.claimed IoError X json handshakes library hashing records store
                      download env))
            w)
  code_keeps code true w refused h = h
  code_keeps code false w refused h =
      then_keeps whole k (lift word (split_code code) w)
        (Receive.claimed IoError X json handshakes library hashing records store download env)
        (lift_keeps whole k w h word (split_code code))
        λ (nameplate, words) v g. claim_keeps nameplate words env.interrupted_claim v refused g

  asked_keeps :
      (o : Option Text) (prompt : Prompt) (w : World IoError Own)
      → says_accept env.auto_accept env.accept_prompt ≡ false
      → w.own ≡ k
      → KeptAs (
          Receive.code_or_asked IoError X json handshakes library hashing records store download env
            o prompt w)
  asked_keeps (some code) prompt w refused h =
      code_keeps (trim code) (is_empty (trim code)) w refused h
  asked_keeps none Prompt.interrupted w refused h = h
  asked_keeps none (Prompt.answered (typed line)) w refused h =
      code_keeps (trim line) (is_empty (trim line)) w refused h
  asked_keeps none (Prompt.answered missing) w refused h = h
  asked_keeps none (Prompt.answered unreadable) w refused h = h

module _ (IoError X : Type 0) {E P Hash F Rv En C Seed Inner Ticket : Type 0}
    (json : Json E ControlMessage) (handshakes : Json E HandshakeMessage)
    (library : Library Seed Inner P) (hashing : Hashing Hash)
    (records : Json E (TransferRecord Hash)) (store : RecordStore)
    (download : Text → Progress.Env Hash F X) (env : Env Hash F Rv En C IoError Seed Ticket) where
  from_kept :
      (k : Progress.World Hash)
      (x : Option (
        Result (RecvError E IoError P F X Rv En C) ReceiveOutcome
        × World IoError (Progress.World Hash)))
      (r : Result (RecvError E IoError P F X Rv En C) ReceiveOutcome)
      (w' : World IoError (Progress.World Hash))
      → Keeps.KeptAs (λ (d : Progress.World Hash). d) k x
      → x ≡ some (r, w')
      → w'.own ≡ k
  from_kept k x r w' kept h = subst (Keeps.KeptAs (λ (d : Progress.World Hash). d) k) h kept

  -- A receiver whose option or user does not accept leaves the disk, the resume record and the
  -- reported progress as they were, however the receive ends: nothing is downloaded.
  pub refused_keeps :
      (w w' : World IoError (Progress.World Hash))
      (r : Result (RecvError E IoError P F X Rv En C) ReceiveOutcome)
      → says_accept env.auto_accept env.accept_prompt ≡ false
      → run_receive IoError X json handshakes library hashing records store download env w
        ≡ some (r, w')
      → w'.own ≡ w.own
  unfolding run_receive
  refused_keeps w w' r refused h =
      from_kept w.own
        (run_receive IoError X json handshakes library hashing records store download env w) r w'
        (asked_keeps IoError X json handshakes library hashing records store download env w.own
          env.code env.prompt w refused refl)
        h
