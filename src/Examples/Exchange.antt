-- ===== src/Examples/Exchange.antt =====
-- Two peers with a toy library in the place of SPAKE2: the key is the password's first byte.
use worddrop.Base.{
  ℕ, zero, suc, ◌<◌, ◌≡◌, refl, false, [], ◌∷◌, ◌++◌, Text, Result, ok, err, ok_injective,
  unwrap_or, length, All, ◌==◌, if◌then◌else◌, arith,
}
use worddrop.Protocol.Bytes.{Bytes}
use worddrop.Protocol.Wire.{Json, frame_body, encode}
use worddrop.Session.Control.{closed}
use worddrop.Pairing.Handshake.{
  HandshakeMessage, confirmation_mismatch, spake, confirm, hex_encode, new_confirm,
}
use worddrop.Pairing.Spake.{Library, start, finish, confirm_token}
use worddrop.Pairing.Exchange.{spake_failed, spake_sender_side, spake_receiver_side}
use worddrop.Pairing.Exchange.Agreement.{peer, sender-receiver}

abbrev repeat : ℕ → ℕ → Bytes
repeat zero b = []
repeat (suc n) b = b ∷ repeat n b

abbrev low_bit : Bytes → ℕ
low_bit [] = 0
low_bit (b ∷ bs) = if b == 1 then 1 else 0

pub length-repeat : (n b : ℕ) → length (repeat n b) ≡ n
length-repeat zero b = refl
length-repeat (suc n) b = omega (arith, length-repeat n b)

pub small_repeat : (n b : ℕ) → b < 256 → All (λ x. x < 256) (repeat n b)
small_repeat zero b h = tt
small_repeat (suc n) b h = (h, small_repeat n b h)

pub low_bit_small : (bs : Bytes) → low_bit bs < 256
low_bit_small [] = omega arith
low_bit_small (b ∷ bs) = ground arith

abbrev pub library : Library (Unit {0}) Bytes Text
library = record {
  start_symmetric = λ s password identity. (password, repeat 33 2);
  finish_exchange = λ inner inbound. ok (repeat 32 (low_bit inner));
  expand = λ key info n. repeat n (low_bit key);
  message_length = λ s password identity. refl;
  message_bytes = λ s password identity. small_repeat 33 2 (omega arith);
  expand_length = λ key info n. length-repeat n (low_bit key);
  expand_bytes = λ key info n. small_repeat n (low_bit key) (low_bit_small key);
}

abbrev to_vec : HandshakeMessage → Result Text Bytes
to_vec (spake t) = ok (0 ∷ t)
to_vec (confirm t) = ok (1 ∷ t)

abbrev from_slice : Bytes → Result Text HandshakeMessage
from_slice (zero ∷ t) = ok (spake t)
from_slice (suc n ∷ t) = ok (confirm t)
from_slice [] = err []

pub round_trip :
    (message : HandshakeMessage) (body : Bytes)
    → to_vec message ≡ ok body
    → from_slice body ≡ ok message
round_trip (spake t) body h = rw (← ok_injective h)
round_trip (confirm t) body h = rw (← ok_injective h)

abbrev pub json : Json Text HandshakeMessage
json = record { to_vec = to_vec; from_slice = from_slice; round_trip = round_trip }

abbrev key : Bytes
key = repeat 32 1

abbrev pub other_key : Bytes
other_key = repeat 32 0

abbrev pub frame_of : HandshakeMessage → Bytes
frame_of message = unwrap_or [] (encode json message)

-- The words of the one peer start with the byte 1, those of the other do not.
abbrev mine : Bytes
mine = 1 ∷ 5 ∷ []

abbrev theirs : Bytes
theirs = 4 ∷ []

abbrev pub message : HandshakeMessage
message = spake (hex_encode (repeat 33 2))

pub message_framed : encode json message ≡ ok (frame_of message)
unfolding encode frame_body hex_encode
message_framed = refl

abbrev token : HandshakeMessage
token = new_confirm (confirm_token library key)

abbrev pub other_token : HandshakeMessage
other_token = new_confirm (confirm_token library other_key)

token_framed : encode json token ≡ ok (frame_of token)
unfolding encode frame_body new_confirm hex_encode
token_framed = refl

pub other_framed : encode json other_token ≡ ok (frame_of other_token)
unfolding encode frame_body new_confirm hex_encode
other_framed = refl

key_derived : finish library (start library tt mine).0 (start library tt theirs).1 ≡ ok key
unfolding finish
key_derived = refl

other_derived : finish library (start library tt theirs).0 (start library tt mine).1 ≡ ok other_key
unfolding finish
other_derived = refl

sender-receiver_example :
    (spake_sender_side {IoError = Text} json library false false tt mine
        (peer (frame_of message ++ frame_of other_token) closed [])
      ≡ (
        err (spake_failed confirmation_mismatch),
        peer [] closed (frame_of message ++ frame_of token),
      ))
    × (spake_receiver_side {IoError = Text} json library false false tt theirs
          (peer (frame_of message ++ frame_of token) closed [])
        ≡ (
          err (spake_failed confirmation_mismatch),
          peer [] closed (frame_of message ++ frame_of other_token),
        ))
sender-receiver_example =
    sender-receiver library json closed tt tt mine theirs key other_key (frame_of message)
      (frame_of message) (frame_of token) (frame_of other_token) message_framed message_framed
      token_framed other_framed key_derived other_derived
