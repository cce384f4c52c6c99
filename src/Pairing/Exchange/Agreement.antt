-- ===== src/Pairing/Exchange/Agreement.antt =====
-- Two peers that run the exchange of crates/cli/src/wire.rs with each other.
pub mod Onward
use worddrop.Base.{
  ◌≡◌, sym, ap, ◌∙◌, false, [], ◌++◌, append_nil, text_eq, text_eq_iff, Result, ok, err, length,
  length-append, take-append, drop-append, ltb, ge→ltb, if◌then◌else◌, Bool-cases, inl, inr, arith,
}
use worddrop.Protocol.Bytes.{Bytes, to_le_bytes, from_le_bytes, from_le_bytes-to_le_bytes}
use worddrop.Protocol.Wire.{Json, max_frame_bytes, encode, decode}
use worddrop.Protocol.Wire.Framing.{encode_ok, decode-encode}
use worddrop.Session.Control.{End}
use worddrop.Pairing.Handshake.{
  HandshakeMessage, confirmation_mismatch, spake, new_spake, new_confirm, into_pake, into_confirm,
  hex_encode, confirm_token_len,
}
use worddrop.Pairing.Handshake.Hex.{new_spake_total, into_pake-new_spake, into_confirm-new_confirm}
use worddrop.Pairing.Spake.{
  Library, app_identifier, confirm_info, start, finish, confirm_token, constant_time_eq,
  verify_confirm,
}
use worddrop.Pairing.Spake.Compare.{constant_time_eq_iff}
use worddrop.Pairing.Exchange.{
  PairError, spake_failed, Peer, continue, verified, read_bytes, read_body, recv_handshake,
  spake_sender_side, spake_receiver_side,
}

-- A peer that has this to read, and sent that.
abbrev pub peer : {IoError : Type 0} → Bytes → End IoError → Bytes → Peer IoError
peer input at_end sent = record { reader = record { input = input; at_end = at_end }; sent = sent }

module _ {E IoError P : Type 0} (at_end : End IoError) (sent : Bytes) where
  read_bytes-append :
      (front rest : Bytes)
      → read_bytes {E = E} {P = P} (length front) (peer (front ++ rest) at_end sent)
        ≡ (ok front, peer rest at_end sent)
  unfolding read_bytes
  read_bytes-append front rest =
      let enough : ltb (length (front ++ rest)) (length front) ≡ false =
        ge→ltb _ _ (omega (arith, length-append front rest)) in
      rw (enough, take-append front rest, drop-append front rest)

  module _ (json : Json E HandshakeMessage) where
    -- A handshake message that was sent is received from the front of the stream.
    pub recv_handshake-encode :
        (message : HandshakeMessage) (frame rest : Bytes)
        → encode json message ≡ ok frame
        → recv_handshake {P = P} json (peer (frame ++ rest) at_end sent)
          ≡ (ok message, peer rest at_end sent)
    unfolding recv_handshake
    recv_handshake-encode message frame rest framed =
        let (body, made, small, shape) = encode_ok json message frame framed in
        let back = decode-encode json message frame framed in
        let prefix : from_le_bytes (to_le_bytes (length body)) ≡ length body =
          from_le_bytes-to_le_bytes (length body) (omega arith) in
        let whole : decode json (to_le_bytes (length body) ++ body) ≡ ok message =
          rw shape at back in
        rw shape (
          ap (λ r. continue (read_body json) r)
            (read_bytes-append (to_le_bytes (length body)) (body ++ rest))
          ∙ rw (
            prefix,
            ge→ltb max_frame_bytes (length body) small,
            read_bytes-append body rest,
            whole,
          ))

    recv_handshake_last :
        (message : HandshakeMessage) (frame : Bytes)
        → encode json message ≡ ok frame
        → recv_handshake {P = P} json (peer frame at_end sent) ≡ (ok message, peer [] at_end sent)
    recv_handshake_last message frame framed =
        ap (λ input. recv_handshake {P = P} json (peer input at_end sent)) (sym (append_nil frame))
        ∙ recv_handshake-encode message frame [] framed

module _ {Seed Inner P : Type 0} (library : Library Seed Inner P) where
  -- The message of a session is accepted, as it has 33 bytes, and is read back.
  pub start_message :
      (seed : Seed) (words : Bytes)
      → let message = (start library seed words).1 in
        (new_spake {P = P} message ≡ ok (spake (hex_encode message)))
        × (into_pake {P = P} (spake (hex_encode message)) ≡ ok message)
  start_message seed words =
      let made =
        new_spake_total (start library seed words).1
          (library.message_length seed words app_identifier) in
      (
        made,
        (into_pake-new_spake (start library seed words).1
            (spake (hex_encode (start library seed words).1))
            (library.message_bytes seed words app_identifier) made).1,
      )

  pub token_read :
      (key : Bytes)
      → into_confirm {P = P} (new_confirm (confirm_token library key))
        ≡ ok (confirm_token library key)
  token_read key =
      (into_confirm-new_confirm (confirm_token library key)
        (library.expand_bytes key confirm_info confirm_token_len)
        (library.expand_length key confirm_info confirm_token_len)).0

  -- The tokens are compared as byte strings.
  pub verify_confirm_lem :
      (key other : Bytes)
      → verify_confirm library key (confirm_token library other) ≡ (
          if text_eq (confirm_token library key) (confirm_token library other)
          then ok tt
          else err confirmation_mismatch)
  unfolding verify_confirm
  verify_confirm_lem key other =
      let mine = confirm_token library key in
      let theirs = confirm_token library other in
      let same =
        constant_time_eq_iff mine theirs (library.expand_bytes key confirm_info confirm_token_len)
          (library.expand_bytes other confirm_info confirm_token_len) in
      elim (Bool-cases (text_eq mine theirs)) [
        | inl q ↦ rw (q, same.1 ((text_eq_iff mine theirs).0 q))
        | inr q ↦ elim (Bool-cases (constant_time_eq mine theirs)) [
          | inl r ↦ absurd (ground (arith, q, (text_eq_iff mine theirs).1 (same.0 r)))
          | inr r ↦ rw (q, r)
        ]
      ]

  module _ {E IoError : Type 0} (json : Json E HandshakeMessage) (at_end : End IoError)
      (seed seed' : Seed) (words words' key key' frame frame' token token' : Bytes)
      (framed : encode json (spake (hex_encode (start library seed words).1)) ≡ ok frame)
      (framed' : encode json (spake (hex_encode (start library seed' words').1)) ≡ ok frame')
      (confirmed : encode json (new_confirm (confirm_token library key)) ≡ ok token)
      (confirmed' : encode json (new_confirm (confirm_token library key')) ≡ ok token')
      (derived : finish library (start library seed words).0 (start library seed' words').1
        ≡ ok key)
      (derived' : finish library (start library seed' words').0 (start library seed words).1
        ≡ ok key') where
    -- A peer's end of the exchange, with its own key and that of the other.
    abbrev pub verdict : Bytes → Bytes → Result (PairError E IoError P) Bytes
    verdict mine theirs =
        if text_eq (confirm_token library mine) (confirm_token library theirs)
        then ok mine
        else err (spake_failed confirmation_mismatch)

    verdict_lem :
        (mine theirs : Bytes) (p : Peer IoError)
        → verified {E = E} {IoError = IoError} json library mine (confirm_token library theirs) p
          ≡ (verdict mine theirs, p)
    verdict_lem mine theirs p =
        elim (Bool-cases (text_eq (confirm_token library mine) (confirm_token library theirs))) [
          | inl q ↦ rw (verify_confirm_lem mine theirs, q)
          | inr q ↦ rw (verify_confirm_lem mine theirs, q)
        ]

    -- Two peers whose sessions derive `key` and `key'`, with each other's messages, both send their
    -- message and the token of their key, read all that the other sent, and end with their own key
    -- if the two tokens are equal, and otherwise with a confirmation mismatch.
    pub sender-receiver :
        (spake_sender_side json library false false seed words (peer (frame' ++ token') at_end [])
          ≡ (verdict key key', peer [] at_end (frame ++ token)))
        × (spake_receiver_side json library false false seed' words'
              (peer (frame ++ token) at_end [])
            ≡ (verdict key' key, peer [] at_end (frame' ++ token')))
    unfolding spake_sender_side spake_receiver_side
    sender-receiver =
        let ours = start_message seed words in
        let theirs = start_message seed' words' in
        (
          rw
              (
                recv_handshake-encode at_end [] json _ frame' token' framed',
                theirs.1,
                ours.0,
                framed,
                derived,
                recv_handshake_last at_end frame json _ token' confirmed',
                token_read key',
                confirmed,
              )
              (verdict_lem key key' (peer [] at_end (frame ++ token))),
          rw
              (
                theirs.0,
                framed',
                recv_handshake-encode at_end frame' json _ frame token framed,
                ours.1,
                derived',
                confirmed',
                recv_handshake_last at_end (frame' ++ token') json _ token confirmed,
                token_read key,
              )
              (verdict_lem key' key (peer [] at_end (frame' ++ token'))),
        )
