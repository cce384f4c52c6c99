-- ===== src/Session/Control.antt =====
-- Control messages over a stream, crates/core/src/session/control.rs. A reader is what is still to
-- be read and how the stream ends behind it.
pub mod Streams
use worddrop.Base.{
  ℕ, ◌+◌, ◌*◌, ◌≡◌, Bool, true, false, not, List, [], ◌∷◌, ◌++◌, Text, Result, ok, err, ◌>>=◌,
  map_err, length, take, drop, ltb, ◌==◌, if◌then◌else◌,
}
use worddrop.Protocol.Bytes.{Bytes, from_le_bytes}
use worddrop.Protocol.Wire.{Json, WireError, frame_too_large, max_frame_bytes, encode, decode}

abbrev pub protocol_version : ℕ
protocol_version = 1

-- In seconds.
abbrev pub handshake_timeout : ℕ
handshake_timeout = 30

abbrev pub idle_timeout : ℕ
idle_timeout = 120

pub record FileMeta : Type 0 where
  pub name : Text
  pub size : ℕ
  pub hash : Text

pub data ControlMessage : Type 0 where
  hello : ℕ → ControlMessage
  offer : List FileMeta → ℕ → ControlMessage
  accept : ControlMessage
  decline : Text → ControlMessage
  cancel : ControlMessage
  result : ℕ → ℕ → ℕ → ℕ → ControlMessage

-- `IoError` stands for `io::Error`, of a kind other than an unexpected end.
pub data SessionError (E IoError : Type 0) : Type 0 where
  wire : WireError E → SessionError E IoError
  io : IoError → SessionError E IoError
  unexpected_eof : SessionError E IoError
  timeout : Text → ℕ → SessionError E IoError
  version_mismatch : ℕ → ℕ → SessionError E IoError

-- How a stream ends: closed by the peer, or with an error.
pub data End (IoError : Type 0) : Type 0 where
  closed : End IoError
  broken : IoError → End IoError

pub record Reader (IoError : Type 0) : Type 0 where
  pub input : Bytes
  pub at_end : End IoError

module _ {E IoError : Type 0} where
  -- `check_version`
  unfoldable pub check_version : ControlMessage → Result (SessionError E IoError) ControlMessage
  check_version (hello version) =
      if version == protocol_version
      then ok (hello version)
      else err (version_mismatch version protocol_version)
  check_version message = ok message

  abbrev pub end_error : End IoError → SessionError E IoError
  end_error closed = unexpected_eof
  end_error (broken e) = io e

  -- `read_exact_or_eof`: the bytes, and the reader behind them.
  unfoldable pub read_exact :
      ℕ → Reader IoError → Result (SessionError E IoError) (Bytes × Reader IoError)
  read_exact n reader =
      if ltb (length reader.input) n
      then err (end_error reader.at_end)
      else ok (take n reader.input, record reader { input = drop n reader.input })

module _ {E IoError : Type 0} (json : Json E ControlMessage) where
  -- `send_message`: the bytes that reach the peer.
  unfoldable pub send_message : ControlMessage → Result (SessionError E IoError) Bytes
  send_message message = map_err wire (encode json message)

  abbrev pub finish :
      Bytes
      → Bytes × Reader IoError
      → Result (SessionError E IoError) (ControlMessage × Reader IoError)
  finish prefix (body, reader) = map_err wire (decode json (prefix ++ body)) >>= λ message.
      check_version message >>= λ checked. ok (checked, reader)

  abbrev pub read_body :
      Bytes × Reader IoError → Result (SessionError E IoError) (ControlMessage × Reader IoError)
  read_body (prefix, reader) =
      let declared = from_le_bytes prefix in
      if ltb max_frame_bytes declared
      then err (wire (frame_too_large declared max_frame_bytes))
      else read_exact declared reader >>= finish prefix

  -- `recv_message`
  unfoldable pub recv_message :
      Reader IoError → Result (SessionError E IoError) (ControlMessage × Reader IoError)
  recv_message reader = read_exact 4 reader >>= read_body

  -- `recv_message_timeout`; the timer may run out first.
  unfoldable pub recv_message_timeout :
      Bool
      → Text
      → ℕ
      → Reader IoError
      → Result (SessionError E IoError) (ControlMessage × Reader IoError)
  recv_message_timeout expired context limit reader =
      if expired then err (timeout context limit) else recv_message reader
