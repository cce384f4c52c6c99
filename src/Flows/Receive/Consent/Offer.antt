-- ===== src/Flows/Receive/Consent/Offer.antt =====
-- An offer that is refused, crates/cli/src/receive.rs.
use worddrop.Base.{
  ◌≡◌, Bool, true, false, Option, none, some, List, [], ◌∷◌, Text, codes, Result, if◌then◌else◌,
}
use worddrop.Protocol.Wire.{Json}
use worddrop.Session
use worddrop.Session.State.{start_pairing, pair_confirmed}
use worddrop.Session.Control.{
  ControlMessage, hello, offer, accept, decline, cancel, result, handshake_timeout,
  recv_message_timeout,
}
use worddrop.Pairing.Handshake.{HandshakeMessage}
use worddrop.Pairing.Spake.{Library}
use worddrop.Transfer.Record.{Hashing, TransferRecord, RecordStore}
use worddrop.Transfer.Progress
use worddrop.Flows.Talk.{
  World, ◌>>=◌, ◌>>◌, return, transition, cancel_session, receive, send, try_send,
}
use worddrop.Flows.Talk.Keeps
use worddrop.Flows.Talk.Keeps.{
  then_keeps, lift_keeps, session_keeps, peer_keeps, reader_keeps, send_keeps, try_send_keeps,
}
use worddrop.Flows.Receive
use worddrop.Flows.Receive.{
  Env, CloseRead, late, failed, at_end, more, Dial, Prompt, Line, typed, missing, unreadable,
  RecvError, ReceiveOutcome, await_peer_close, run_receive_inner, run_receive, says_yes, control,
  pair, connection, word, rv, engine, transition_failed,
}

-- Whether the user or the option accepts the offer.
abbrev pub says_accept : Option Bool → Prompt → Bool
says_accept (some accepted) prompt = accepted
says_accept none Prompt.interrupted = false
says_accept none (Prompt.answered line) = says_yes line

module _ (IoError X : Type 0) {E P Hash F Rv En C Seed Inner Ticket : Type 0}
    (json : Json E ControlMessage) (handshakes : Json E HandshakeMessage)
    (library : Library Seed Inner P) (hashing : Hashing Hash)
    (records : Json E (TransferRecord Hash)) (store : RecordStore)
    (download : Text → Progress.Env Hash F X) (env : Env Hash F Rv En C IoError Seed Ticket)
    (k : Progress.World Hash) where
  abbrev Er : Type 0
  Er = RecvError E IoError P F X Rv En C

  abbrev Own : Type 0
  Own = Progress.World Hash

  abbrev whole : Own → Own
  whole d = d

  abbrev KeptAs : Option (Result Er ReceiveOutcome × World IoError Own) → Type 0
  KeptAs = Keeps.KeptAs whole k

  cancel_keeps :
      (w : World IoError Own)
      → w.own ≡ k
      → KeptAs (
          Receive.cancel_both IoError X json handshakes library hashing records store download env
            w)
  cancel_keeps w h =
      then_keeps whole k ((try_send json cancel >> cancel_session {Er = Er} transition_failed) w)
        (λ _. return ReceiveOutcome.cancelled)
        (then_keeps whole k (try_send json cancel w) (λ _. cancel_session transition_failed)
          (try_send_keeps whole Er k w h json cancel)
          λ _ v g. session_keeps whole k v g transition_failed (Session.cancel v.session))
        λ _ v g. g

  close_keeps :
      (what : Text) (reads : List CloseRead) (w : World IoError Own)
      → w.own ≡ k
      → Keeps.KeptAs whole k (
          await_peer_close IoError X json handshakes library hashing records store download env what
            reads w)
  unfolding await_peer_close
  close_keeps what [] w h = tt
  close_keeps what (late ∷ reads) w h = h
  close_keeps what (failed ∷ reads) w h = h
  close_keeps what (at_end ∷ reads) w h = h
  close_keeps what (more ∷ reads) w h = close_keeps what reads w h

  declined_keeps :
      (hash : Hash) (target : Text) (w : World IoError Own)
      → w.own ≡ k
      → KeptAs (
          Receive.on_answer IoError X json handshakes library hashing records store download env
            hash target false w)
  declined_keeps hash target w h =
      let no = decline (codes "user declined") in
      let what = codes "sender to close after decline" in
      then_keeps whole k
        ((send {Er = Er} json control no
            >> await_peer_close IoError X json handshakes library hashing records store download env
                what env.close_reads)
          w)
        (λ _. return ReceiveOutcome.declined)
        (then_keeps whole k (send json control no w)
          (λ _.
            await_peer_close IoError X json handshakes library hashing records store download env
              what env.close_reads)
          (send_keeps whole k w h json control no) λ _. close_keeps what env.close_reads)
        λ _ v g. g

  prompt_keeps :
      (hash : Hash) (target : Text) (option : Option Bool) (prompt : Prompt) (w : World IoError Own)
      → says_accept option prompt ≡ false
      → w.own ≡ k
      → KeptAs (
          Receive.on_prompt IoError X json handshakes library hashing records store download env
            hash target option prompt w)
  prompt_keeps hash target (some accepted) prompt w refused h =
      rw refused (declined_keeps hash target w h)
  prompt_keeps hash target none Prompt.interrupted w refused h = cancel_keeps w h
  prompt_keeps hash target none (Prompt.answered line) w refused h =
      rw refused (declined_keeps hash target w h)

  offer_keeps :
      (hash : Hash) (target : Text) (m : ControlMessage) (w : World IoError Own)
      → says_accept env.auto_accept env.accept_prompt ≡ false
      → w.own ≡ k
      → KeptAs (
          Receive.on_offer IoError X json handshakes library hashing records store download env hash
            target m w)
  offer_keeps hash target (offer files total) w refused h =
      prompt_keeps hash target env.auto_accept env.accept_prompt w refused h
  offer_keeps hash target (hello v) w refused h = h
  offer_keeps hash target accept w refused h = h
  offer_keeps hash target (decline reason) w refused h = h
  offer_keeps hash target cancel w refused h = h
  offer_keeps hash target (result b f sb sf) w refused h = h

  wait_keeps :
      (hash : Hash) (target : Text) (stop : Bool) (w : World IoError Own)
      → says_accept env.auto_accept env.accept_prompt ≡ false
      → w.own ≡ k
      → KeptAs (
          (if stop
              then Receive.cancel_both IoError X json handshakes library hashing records store
                  download env
              else (receive control (
                    recv_message_timeout json env.late_offer
                      (codes "sender offer")
                      handshake_timeout)
                  >>= Receive.on_offer IoError X json handshakes library hashing records store
                      download env hash target))
            w)
  wait_keeps hash target true w refused h = cancel_keeps w h
  wait_keeps hash target false w refused h =
      let ask = recv_message_timeout json env.late_offer (codes "sender offer") handshake_timeout in
      then_keeps whole k (receive control ask w)
        (Receive.on_offer IoError X json handshakes library hashing records store download env hash
          target)
        (reader_keeps whole k w h control (ask w.peer.reader))
        λ m v g. offer_keeps hash target m v refused g

  pub paired_keeps :
      (hash : Hash) (target : Text) (w : World IoError Own)
      → says_accept env.auto_accept env.accept_prompt ≡ false
      → w.own ≡ k
      → KeptAs (
          Receive.paired IoError X json handshakes library hashing records store download env hash
            target w)
  paired_keeps hash target w refused h =
      let fresh =
        Receive.new_session IoError X json handshakes library hashing records store download env in
      then_keeps whole k
        ((fresh
            >> transition {Er = Er} transition_failed start_pairing
            >> transition transition_failed pair_confirmed)
          w)
        (λ _.
          Receive.wait_offer IoError X json handshakes library hashing records store download env
            hash target)
        (then_keeps whole k ((fresh >> transition {Er = Er} transition_failed start_pairing) w)
          (λ _. transition transition_failed pair_confirmed)
          (session_keeps whole k w h transition_failed (Session.apply Session.new start_pairing))
          λ _ v g.
            session_keeps whole k v g transition_failed (Session.apply v.session pair_confirmed))
        λ _ v g. wait_keeps hash target env.interrupted_offer v refused g
