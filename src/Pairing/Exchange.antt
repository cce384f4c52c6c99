-- ===== src/Pairing/Exchange.antt =====
-- The pairing exchange of the two peers, crates/cli/src/wire.rs. A peer reads what the other sent
-- and adds to what it sends; writes do not fail here, and a timer says whether a wait is too long.
pub mod Agreement
use worddrop.Base.{
  ℕ, ◌+◌, Bool, true, false, List, [], ◌∷◌, ◌++◌, Text, codes, Result, ok, err, map_err, length,
  take, drop, ltb, if◌then◌else◌,
}
use worddrop.Protocol.Bytes.{Bytes, from_le_bytes}
use worddrop.Protocol.Wire.{Json, WireError, frame_too_large, max_frame_bytes, encode, decode}
use worddrop.Session.Control.{
  End, Reader, SessionError, ControlMessage, hello, protocol_version, handshake_timeout,
  idle_timeout, recv_message_timeout,
}
use worddrop.Pairing.Handshake.{
  HandshakeMessage, SpakeError, new_spake, new_confirm, into_pake, into_confirm,
}
use worddrop.Pairing.Spake.{Library, start, finish, confirm_token, verify_confirm}

-- `PairError`
pub data PairError (E IoError P : Type 0) : Type 0 where
  io : End IoError → PairError E IoError P
  wire : WireError E → PairError E IoError P
  spake_failed : SpakeError P → PairError E IoError P
  hung : Text → PairError E IoError P
  control : SessionError E IoError → PairError E IoError P
  not_kind : Text → PairError E IoError P

-- What is still to be read, and what was sent.
pub record Peer (IoError : Type 0) : Type 0 where
  pub reader : Reader IoError
  pub sent : Bytes

abbrev pub Talk {ℓ} : (E IoError P : Type 0) → Type ℓ → Type ℓ
Talk E IoError P A = Peer IoError → Result (PairError E IoError P) A × Peer IoError

module _ {E IoError P : Type 0} where
  infixl 5 ◌>>=◌
  abbrev pub continue {ℓ κ} :
      {A : Type ℓ} {B : Type κ}
      → (A → Talk E IoError P B)
      → Result (PairError E IoError P) A × Peer IoError
      → Result (PairError E IoError P) B × Peer IoError
  continue f (ok a, p) = f a p
  continue f (err e, p) = (err e, p)

  abbrev pub ◌>>=◌ {ℓ κ} :
      {A : Type ℓ} {B : Type κ} → Talk E IoError P A → (A → Talk E IoError P B) → Talk E IoError P B
  ◌>>=◌ m f p = continue f (m p)

  -- `?` on a result of the SPAKE2 session.
  abbrev pub lift {ℓ} : {A : Type ℓ} → Result (SpakeError P) A → Talk E IoError P A
  lift r p = (map_err spake_failed r, p)

  -- `read_exact` of the stream.
  unfoldable pub read_bytes : ℕ → Talk E IoError P Bytes
  read_bytes n p = if ltb (length p.reader.input) n then (err (io p.reader.at_end), p) else (
    ok (take n p.reader.input),
    record p { reader = record { input = drop n p.reader.input; at_end = p.reader.at_end } },
  )

  abbrev pub written : Result (WireError E) Bytes → Talk E IoError P (Unit {0})
  written (err e) p = (err (wire e), p)
  written (ok frame) p = (ok tt, record p { sent = p.sent ++ frame })

module _ {E IoError P : Type 0} (json : Json E HandshakeMessage) where
  -- `send_handshake`
  abbrev pub send_handshake : HandshakeMessage → Talk E IoError P (Unit {0})
  send_handshake message = written (encode json message)

  abbrev pub decoded : Bytes → Bytes → Talk E IoError P HandshakeMessage
  decoded prefix body p = (map_err wire (decode json (prefix ++ body)), p)

  abbrev pub read_body : Bytes → Talk E IoError P HandshakeMessage
  read_body prefix p =
      if ltb max_frame_bytes (from_le_bytes prefix)
      then (err (wire (frame_too_large (from_le_bytes prefix) max_frame_bytes)), p)
      else continue (decoded prefix) (read_bytes (from_le_bytes prefix) p)

  -- `recv_handshake`
  unfoldable pub recv_handshake : Talk E IoError P HandshakeMessage
  recv_handshake p = continue read_body (read_bytes 4 p)

  -- `recv_handshake_timeout`
  abbrev pub recv_handshake_timeout : Bool → Text → Talk E IoError P HandshakeMessage
  recv_handshake_timeout true what p = (err (hung what), p)
  recv_handshake_timeout false what p = recv_handshake p

  module _ {Seed Inner : Type 0} (library : Library Seed Inner P) where
    -- Two confirmation tokens, and the key if they agree.
    abbrev pub verified : Bytes → Bytes → Talk E IoError P Bytes
    verified key token = lift (verify_confirm library key token) >>= λ _ p. (ok key, p)

    -- `spake_sender_side`; `late` and `later` are the timers of its two waits.
    unfoldable pub spake_sender_side : Bool → Bool → Seed → Bytes → Talk E IoError P Bytes
    spake_sender_side late later seed words =
        let (session, message) = start library seed words in
        recv_handshake_timeout late (codes "sender spake message") >>= λ m.
        lift (into_pake m) >>= λ inbound. lift (new_spake message) >>= λ ours.
        send_handshake ours >>= λ _. lift (finish library session inbound) >>= λ key.
        recv_handshake_timeout later (codes "sender confirm token") >>= λ n.
        lift (into_confirm n) >>= λ token.
        send_handshake (new_confirm (confirm_token library key)) >>= λ _. verified key token

    -- `spake_receiver_side`
    unfoldable pub spake_receiver_side : Bool → Bool → Seed → Bytes → Talk E IoError P Bytes
    spake_receiver_side late later seed words =
        let (session, message) = start library seed words in
        lift (new_spake message) >>= λ ours. send_handshake ours >>= λ _.
        recv_handshake_timeout late (codes "receiver spake message") >>= λ m.
        lift (into_pake m) >>= λ inbound. lift (finish library session inbound) >>= λ key.
        send_handshake (new_confirm (confirm_token library key)) >>= λ _.
        recv_handshake_timeout later (codes "receiver confirm token") >>= λ n.
        lift (into_confirm n) >>= λ token. verified key token

module _ {E IoError : Type 0} (P : Type 0) (json : Json E ControlMessage) where
  abbrev pub answer_hello :
      ControlMessage × Reader IoError
      → Result (PairError E IoError P) (ControlMessage × Reader IoError)
  answer_hello (hello version, reader) = ok (hello protocol_version, reader)
  answer_hello (message, reader) = err (not_kind (codes "hello"))

  abbrev pub answered :
      Result (SessionError E IoError) (ControlMessage × Reader IoError)
      → Result (PairError E IoError P) (ControlMessage × Reader IoError)
  answered (ok received) = answer_hello received
  answered (err e) = err (control e)

  -- `recv_hello`; `late` is the timer.
  unfoldable pub recv_hello :
      Bool → Reader IoError → Result (PairError E IoError P) (ControlMessage × Reader IoError)
  recv_hello late reader =
      answered (recv_message_timeout json late (codes "sender hello") handshake_timeout reader)

  -- `recv_message_idle`
  unfoldable pub recv_message_idle :
      Bool
      → Text
      → Reader IoError
      → Result (PairError E IoError P) (ControlMessage × Reader IoError)
  recv_message_idle late what reader =
      map_err control (recv_message_timeout json late what idle_timeout reader)
