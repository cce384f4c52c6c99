-- ===== src/Session/Control/Streams.antt =====
-- `send_message` and `recv_message` of crates/core/src/session/control.rs over whole and cut streams.
use worddrop.Base.{
  ℕ, zero, suc, ◌≤◌, ◌<◌, ◌≡◌, ap, ◌∙◌, false, ◌++◌, ok, err, ◌>>=◌, map_err_ok, length, take, ltb,
  arith, ge→ltb, lt→ltb, length-append, take-append, drop-append, length-take-le,
}
use worddrop.Protocol.Bytes.{Bytes, to_le_bytes, from_le_bytes, from_le_bytes-to_le_bytes}
use worddrop.Protocol.Wire.{Json, max_frame_bytes, encode, decode}
use worddrop.Protocol.Wire.Framing.{encode_ok, decode-encode}
use worddrop.Session.Control.{
  ControlMessage, wire, End, Reader, check_version, read_exact, send_message, recv_message,
  read_body, end_error,
}

module _ {E IoError : Type 0} where
  -- What stands at the front of the input is read, whole.
  pub read_exact-append :
      (front rest : Bytes) (at_end : End IoError)
      → read_exact {E = E} (length front) (record { input = front ++ rest; at_end = at_end })
        ≡ ok (front, record { input = rest; at_end = at_end })
  unfolding read_exact
  read_exact-append front rest at_end =
      let enough : ltb (length (front ++ rest)) (length front) ≡ false =
        ge→ltb _ _ (omega (arith, length-append front rest)) in
      rw (enough, take-append front rest, drop-append front rest)

  pub read_exact_short :
      (n : ℕ) (reader : Reader IoError)
      → length reader.input < n
      → read_exact {E = E} n reader ≡ err (end_error reader.at_end)
  unfolding read_exact
  read_exact_short n reader h = rw (lt→ltb _ _ h)

module _ {E IoError : Type 0} (json : Json E ControlMessage) (message : ControlMessage) where
  recv_framed :
      (body rest : Bytes) (at_end : End IoError)
      → length body ≤ max_frame_bytes
      → decode json (to_le_bytes (length body) ++ body) ≡ ok message
      → check_version {E = E} {IoError = IoError} message ≡ ok message
      → recv_message json
          (record { input = to_le_bytes (length body) ++ (body ++ rest); at_end = at_end })
        ≡ ok (message, record { input = rest; at_end = at_end })
  unfolding recv_message
  recv_framed body rest at_end small decoded version =
      let prefix : from_le_bytes (to_le_bytes (length body)) ≡ length body =
        from_le_bytes-to_le_bytes (length body) (omega arith) in
      ap (λ r. r >>= read_body json)
        (read_exact-append (to_le_bytes (length body)) (body ++ rest) at_end)
      ∙ rw (
        prefix,
        ge→ltb max_frame_bytes (length body) small,
        read_exact-append {E = E} body rest at_end,
        decoded,
        version,
      )

  cut_framed :
      (body : Bytes) (n : ℕ) (at_end : End IoError)
      → length body ≤ max_frame_bytes
      → n < length (to_le_bytes (length body) ++ body)
      → recv_message json
          (record { input = take n (to_le_bytes (length body) ++ body); at_end = at_end })
        ≡ err (end_error at_end)
  unfolding recv_message
  cut_framed body zero at_end small h =
      ap (λ r. r >>= read_body json) (read_exact_short 4 _ (omega arith))
  cut_framed body (suc zero) at_end small h =
      ap (λ r. r >>= read_body json) (read_exact_short 4 _ (omega arith))
  cut_framed body (suc (suc zero)) at_end small h =
      ap (λ r. r >>= read_body json) (read_exact_short 4 _ (omega arith))
  cut_framed body (suc (suc (suc zero))) at_end small h =
      ap (λ r. r >>= read_body json) (read_exact_short 4 _ (omega arith))
  cut_framed body (suc (suc (suc (suc k)))) at_end small h =
      let prefix : from_le_bytes (to_le_bytes (length body)) ≡ length body =
        from_le_bytes-to_le_bytes (length body) (omega arith) in
      let short : length (take k body) < length body =
        omega (arith, length-take-le k body (omega arith)) in
      ap (λ r. r >>= read_body json)
        (read_exact-append (to_le_bytes (length body)) (take k body) at_end)
      ∙ rw (
        prefix,
        ge→ltb max_frame_bytes (length body) small,
        read_exact_short {E = E} (length body) (record { input = take k body; at_end = at_end })
            short,
      )

  -- A message that was sent, and that carries no other version than ours, is received from the
  -- front of the stream; the stream goes on behind its frame.
  pub recv-send :
      (frame rest : Bytes) (at_end : End IoError)
      → send_message {IoError = IoError} json message ≡ ok frame
      → check_version {E = E} {IoError = IoError} message ≡ ok message
      → recv_message json (record { input = frame ++ rest; at_end = at_end })
        ≡ ok (message, record { input = rest; at_end = at_end })
  unfolding send_message
  recv-send frame rest at_end sent version =
      let framed = map_err_ok wire (encode json message) sent in
      let (body, written, small, shape) = encode_ok json message frame framed in
      let decoded = decode-encode json message frame framed in
      rw shape (recv_framed body rest at_end small (rw shape at decoded) version)

  -- A stream that ends inside the frame of a message gives no message: the end is reported, as a
  -- closed connection or as the error of the stream.
  pub recv_cut :
      (frame : Bytes) (n : ℕ) (at_end : End IoError)
      → send_message {IoError = IoError} json message ≡ ok frame
      → n < length frame
      → recv_message json (record { input = take n frame; at_end = at_end })
        ≡ err (end_error at_end)
  unfolding send_message recv_message
  recv_cut frame n at_end sent h =
      let framed = map_err_ok wire (encode json message) sent in
      let (body, written, small, shape) = encode_ok json message frame framed in
      rw shape (cut_framed body n at_end small (rw shape at h))
