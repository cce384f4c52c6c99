-- ===== src/Examples/Frames.antt =====
-- Frames and control messages, with a serializer for the messages that have no fields but numbers.
use worddrop.Base.{
  zero, suc, ◌+◌, ◌≤◌, ◌≡◌, ◌↔◌, refl, [], ◌∷◌, ◌++◌, Result, ok, err, ok_injective, err-ne-ok,
  Text, arith, length, take, drop,
}
use worddrop.Protocol.Bytes.{Bytes, from_le_bytes}
use worddrop.Protocol.Wire.{Json, frame_body, encode, decode, max_frame_bytes}
use worddrop.Protocol.Wire.Framing.{decode_iff}
use worddrop.Session.Control.{
  ControlMessage, hello, accept, cancel, offer, decline, result, End, closed, send_message,
  recv_message, check_version, end_error,
}
use worddrop.Session.Control.Streams.{recv-send, recv_cut}

abbrev to_vec : ControlMessage → Result Text Bytes
to_vec (hello version) = ok (0 ∷ version ∷ [])
to_vec accept = ok (1 ∷ [])
to_vec cancel = ok (2 ∷ [])
to_vec (result a b c d) = ok (3 ∷ a ∷ b ∷ c ∷ d ∷ [])
to_vec (offer files total) = err []
to_vec (decline reason) = err []

abbrev from_slice : Bytes → Result Text ControlMessage
from_slice (zero ∷ version ∷ []) = ok (hello version)
from_slice (suc zero ∷ []) = ok accept
from_slice (suc (suc zero) ∷ []) = ok cancel
from_slice (suc (suc (suc zero)) ∷ a ∷ b ∷ c ∷ d ∷ []) = ok (result a b c d)
from_slice _ = err []

round_trip :
    (message : ControlMessage) (body : Bytes)
    → to_vec message ≡ ok body
    → from_slice body ≡ ok message
round_trip (hello version) body h = rw (← ok_injective h)
round_trip accept body h = rw (← ok_injective h)
round_trip cancel body h = rw (← ok_injective h)
round_trip (result a b c d) body h = rw (← ok_injective h)
round_trip (offer files total) body h = absurd (err-ne-ok h)
round_trip (decline reason) body h = absurd (err-ne-ok h)

abbrev json : Json Text ControlMessage
json = record { to_vec = to_vec; from_slice = from_slice; round_trip = round_trip }

abbrev frame : Bytes
frame = 2 ∷ 0 ∷ 0 ∷ 0 ∷ 0 ∷ 1 ∷ []

framed : encode json (hello 1) ≡ ok frame
unfolding encode frame_body
framed = refl

decode_iff_example : (decode json frame ≡ ok (hello 1)) ↔ (
    (4 ≤ length frame)
    × (length frame ≡ 4 + from_le_bytes (take 4 frame))
    × (length frame ≤ 4 + max_frame_bytes)
    × (from_slice (drop 4 frame) ≡ ok (hello 1)))
decode_iff_example = decode_iff json frame (hello 1)

-- The stream's errors are texts here.
sent : send_message {IoError = Text} json (hello 1) ≡ ok frame
unfolding send_message encode frame_body
sent = refl

abbrev text_end : End Text
text_end = closed

recv-send_example :
    recv_message json (record { input = frame ++ frame; at_end = text_end })
    ≡ ok (hello 1, record { input = frame; at_end = text_end })
unfolding check_version
recv-send_example = recv-send json (hello 1) frame frame text_end sent refl

recv_cut_example :
    recv_message json (record { input = take 5 frame; at_end = text_end })
    ≡ err (end_error text_end)
recv_cut_example = recv_cut json (hello 1) frame 5 text_end sent (omega arith)
