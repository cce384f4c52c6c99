-- ===== src/Pairing/Exchange/Agreement/Onward.antt =====
-- The pairing exchange of crates/cli/src/wire.rs between peers whose keys have one token, in the
-- middle of their streams.
use worddrop.Base.{◌≡◌, false, ◌++◌, text_eq_self, ok}
use worddrop.Protocol.Bytes.{Bytes}
use worddrop.Protocol.Wire.{Json, encode}
use worddrop.Session.Control.{End}
use worddrop.Pairing.Handshake.{HandshakeMessage, spake, new_confirm, hex_encode}
use worddrop.Pairing.Spake.{Library, start, finish, confirm_token, verify_confirm}
use worddrop.Pairing.Exchange.{spake_sender_side, spake_receiver_side}
use worddrop.Pairing.Exchange.Agreement.{
  peer, recv_handshake-encode, start_message, token_read, verify_confirm_lem,
}

-- The frames of an exchange in which both peers derive `key`.
pub record Agreed {Seed Inner P E : Type 0} (library : Library Seed Inner P)
    (json : Json E HandshakeMessage) (seed seed' : Seed) (words words' key : Bytes) : Type 0 where
  pub frame : Bytes
  pub frame' : Bytes
  pub token : Bytes
  pub framed : encode json (spake (hex_encode (start library seed words).1)) ≡ ok frame
  pub framed' : encode json (spake (hex_encode (start library seed' words').1)) ≡ ok frame'
  pub confirmed : encode json (new_confirm (confirm_token library key)) ≡ ok token
  pub derived : finish library (start library seed words).0 (start library seed' words').1 ≡ ok key
  pub derived' : finish library (start library seed' words').0 (start library seed words).1 ≡ ok key

module _ {Seed Inner P E IoError : Type 0} (library : Library Seed Inner P)
    (json : Json E HandshakeMessage) (at_end : End IoError) (seed seed' : Seed)
    (words words' key : Bytes) (agreed : Agreed library json seed seed' words words' key)
    (rest sent : Bytes) where
  same_token : verify_confirm library key (confirm_token library key) ≡ ok tt
  same_token = rw (verify_confirm_lem library key key, text_eq_self (confirm_token library key))

  -- The sender's side reads the receiver's frames, and goes on behind them.
  pub sender_onward :
      spake_sender_side json library false false seed words
        (peer (agreed.frame' ++ (agreed.token ++ rest)) at_end sent)
      ≡ (ok key, peer rest at_end ((sent ++ agreed.frame) ++ agreed.token))
  unfolding spake_sender_side
  sender_onward =
      let ours = start_message library seed words in
      let theirs = start_message library seed' words' in
      rw (
        recv_handshake-encode at_end sent json _ agreed.frame' (agreed.token ++ rest)
            agreed.framed',
        theirs.1,
        ours.0,
        agreed.framed,
        agreed.derived,
        recv_handshake-encode at_end (sent ++ agreed.frame) json _ agreed.token rest
            agreed.confirmed,
        token_read library key,
        agreed.confirmed,
        same_token,
      )

  -- The receiver's side likewise.
  pub receiver_onward :
      spake_receiver_side json library false false seed' words'
        (peer (agreed.frame ++ (agreed.token ++ rest)) at_end sent)
      ≡ (ok key, peer rest at_end ((sent ++ agreed.frame') ++ agreed.token))
  unfolding spake_receiver_side
  receiver_onward =
      let ours = start_message library seed words in
      let theirs = start_message library seed' words' in
      rw (
        theirs.0,
        agreed.framed',
        recv_handshake-encode at_end (sent ++ agreed.frame') json _ agreed.frame
            (agreed.token ++ rest) agreed.framed,
        ours.1,
        agreed.derived',
        agreed.confirmed,
        recv_handshake-encode at_end ((sent ++ agreed.frame') ++ agreed.token) json _ agreed.token
            rest agreed.confirmed,
        token_read library key,
        same_token,
      )
