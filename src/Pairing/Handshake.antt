-- ===== src/Pairing/Handshake.antt =====
-- Handshake messages and their hexadecimal fields, crates/core/src/pairing/handshake.rs.
pub mod Hex
use Prim.Native.Nat.{bit_and, bit_or}
use worddrop.Base.{
  ℕ, zero, suc, ◌+◌, ◌-◌, ◌*◌, ◌/◌, ◌%◌, ◌≡◌, Bool, not, ◌&&◌, List, [], ◌∷◌, ◌++◌, Option, none,
  some, Text, codes, as_bytes, length, Result, ok, err, ◌>>=◌, leb, ◌==◌, if◌then◌else◌,
}
use worddrop.Protocol.Bytes.{Bytes}

abbrev pub spake_msg_len : ℕ
spake_msg_len = 33

abbrev pub confirm_token_len : ℕ
confirm_token_len = 16

abbrev pub session_key_len : ℕ
session_key_len = 32

-- `SpakeError`, crates/core/src/pairing/spake.rs; `P` stands for the errors of the library.
pub data SpakeError (P : Type 0) : Type 0 where
  protocol : P → SpakeError P
  key_length_mismatch : ℕ → ℕ → SpakeError P
  confirmation_mismatch wrong_handshake_kind : SpakeError P
  bad_handshake_length : Text → ℕ → ℕ → SpakeError P
  invalid_hex : Text → SpakeError P

pub data HandshakeMessage : Type 0 where
  spake confirm : Text → HandshakeMessage

-- `HEX_DIGITS`
abbrev pub hex_digits : Text
hex_digits = codes "0123456789abcdef"

-- Indexing; every index is a nibble.
abbrev pub nth : Text → ℕ → ℕ
nth [] i = 0
nth (c ∷ s) zero = c
nth (c ∷ s) (suc i) = nth s i

-- `hex_encode`
unfoldable pub hex_encode : Bytes → Text
hex_encode [] = []
hex_encode (b ∷ bytes) =
    nth hex_digits (b / 16) ∷ nth hex_digits (bit_and b 0x0f) ∷ hex_encode bytes

-- `hex_val`
unfoldable pub hex_val : ℕ → Option ℕ
hex_val b =
    if leb b'0' b && leb b b'9'
    then some (b - b'0')
    else if leb b'a' b && leb b b'f'
    then some (b - b'a' + 10)
    else if leb b'A' b && leb b b'F'
    then some (b - b'A' + 10)
    else none

-- `(hi << 4) | lo` on bytes.
abbrev pub join_nibbles : Option ℕ → Option ℕ → Option ℕ
join_nibbles none lo = none
join_nibbles (some hi) none = none
join_nibbles (some hi) (some lo) = some (bit_or (hi * 16 % 256) lo)

abbrev pub cons_byte : Option ℕ → Option Bytes → Option Bytes
cons_byte none rest = none
cons_byte (some b) none = none
cons_byte (some b) (some bytes) = some (b ∷ bytes)

-- The loop over `chunks_exact(2)`; `none` is a character that is no hexadecimal digit.
unfoldable pub decode_pairs : Bytes → Option Bytes
decode_pairs (a ∷ b ∷ rest) = cons_byte (join_nibbles (hex_val a) (hex_val b)) (decode_pairs rest)
decode_pairs _ = some []

module _ {P : Type 0} where
  abbrev pub or_invalid : Text → Option Bytes → Result (SpakeError P) Bytes
  or_invalid hex none = err (invalid_hex hex)
  or_invalid hex (some bytes) = ok bytes

  -- `hex_decode`
  unfoldable pub hex_decode : Text → Result (SpakeError P) Bytes
  hex_decode hex =
      if not (length (as_bytes hex) % 2 == 0)
      then err (invalid_hex hex)
      else or_invalid hex (decode_pairs (as_bytes hex))

  abbrev pub fixed : ℕ → Text → Bytes → Result (SpakeError P) Bytes
  fixed n kind bytes =
      if length bytes == n then ok bytes else err (bad_handshake_length kind n (length bytes))

  -- `hex_decode_array`
  unfoldable pub hex_decode_array : ℕ → Text → Text → Result (SpakeError P) Bytes
  hex_decode_array n hex kind = hex_decode hex >>= fixed n kind

  -- `HandshakeMessage::spake`
  unfoldable pub new_spake : Bytes → Result (SpakeError P) HandshakeMessage
  new_spake msg =
      if not (length msg == spake_msg_len)
      then err (bad_handshake_length (codes "spake") spake_msg_len (length msg))
      else ok (spake (hex_encode msg))

  -- `into_pake`
  unfoldable pub into_pake : HandshakeMessage → Result (SpakeError P) Bytes
  into_pake (spake msg) = hex_decode_array spake_msg_len msg (codes "spake")
  into_pake (confirm token) = err wrong_handshake_kind

  -- `into_confirm`
  unfoldable pub into_confirm : HandshakeMessage → Result (SpakeError P) Bytes
  into_confirm (confirm token) = hex_decode_array confirm_token_len token (codes "confirm")
  into_confirm (spake msg) = err wrong_handshake_kind

-- `HandshakeMessage::confirm`, of a token of 16 bytes.
unfoldable pub new_confirm : Bytes → HandshakeMessage
new_confirm token = confirm (hex_encode token)
