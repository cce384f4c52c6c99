-- ===== src/Pairing/Handshake/Hex.antt =====
-- The hexadecimal coding of crates/core/src/pairing/handshake.rs, there and back.
use Prim.Native.Nat.{bit_and}
use worddrop.Base.{
  ℕ, zero, suc, ◌*◌, ◌/◌, ◌%◌, ◌≡◌, ◌<◌, refl, sym, ap, Bool, true, false, ◌&&◌, [], ◌∷◌, Option,
  none, some, Text, codes, utf8, as_bytes, length, All, ok, err, ok_injective, Bool-cases,
  if◌then◌else◌, inl, inr, ltb, ◌==◌, ==_iff, &&_split, arith,
}
use worddrop.Protocol.Bytes.{Bytes}
use worddrop.Pairing.Handshake.{
  wrong_handshake_kind, HandshakeMessage, spake, hex_digits, nth, hex_encode, hex_val, join_nibbles,
  decode_pairs, hex_decode, hex_decode_array, new_spake, new_confirm, into_pake, into_confirm,
  spake_msg_len, confirm_token_len,
}

abbrev high : ℕ → ℕ
high b = nth hex_digits (b / 16)

abbrev low : ℕ → ℕ
low b = nth hex_digits (bit_and b 0x0f)

abbrev same_byte : ℕ → Option ℕ → Bool
same_byte b none = false
same_byte b (some d) = d == b

-- The two digits of a byte are ASCII, and are read as the byte.
byte_check : ℕ → Bool
byte_check b =
    ltb (high b) 0x80
    && ltb (low b) 0x80
    && same_byte b (join_nibbles (hex_val (high b)) (hex_val (low b)))

-- Every byte below a bound passes a test.
unfoldable pub pass : (ℕ → Bool) → ℕ → Bool
pass test zero = true
pass test (suc bound) = let smaller = pass test bound in if test bound then smaller else false

pub pass_lem : (test : ℕ → Bool) (bound b : ℕ) → b < bound → pass test bound ≡ true → test b ≡ true
unfolding pass
pass_lem test zero b small passed = absurd (omega arith)
pass_lem test (suc bound) b small passed = ground (arith, pass_lem test bound b)

byte_table : pass byte_check 256 ≡ true
unfolding pass byte_check hex_val
byte_table = refl

same_byte_sound : (b : ℕ) (o : Option ℕ) → same_byte b o ≡ true → o ≡ some b
same_byte_sound b none h = absurd (ground arith)
same_byte_sound b (some d) h = ap some ((==_iff d b).0 h)

byte_digits :
    (b : ℕ)
    → b < 256
    → (ltb (high b) 0x80 ≡ true)
      × (ltb (low b) 0x80 ≡ true)
      × (join_nibbles (hex_val (high b)) (hex_val (low b)) ≡ some b)
unfolding byte_check
byte_digits b h =
    let checked = pass_lem byte_check 256 b h byte_table in
    let outer = &&_split (ltb (high b) 0x80 && ltb (low b) 0x80) _ checked in
    let inner = &&_split (ltb (high b) 0x80) (ltb (low b) 0x80) outer.0 in
    (inner.0, inner.1, same_byte_sound b _ outer.1)

utf8_ascii : (c : ℕ) → ltb c 0x80 ≡ true → utf8 c ≡ c ∷ []
utf8_ascii c h = rw h

as_bytes-hex_encode :
    (bs : Bytes) → All (λ b. b < 256) bs → as_bytes (hex_encode bs) ≡ hex_encode bs
unfolding hex_encode
as_bytes-hex_encode [] h = refl
as_bytes-hex_encode (b ∷ bs) (lt, h) =
    let digits = byte_digits b lt in
    rw (utf8_ascii (high b) digits.0, utf8_ascii (low b) digits.1, as_bytes-hex_encode bs h)

length-hex_encode : (bs : Bytes) → length (hex_encode bs) ≡ 2 * length bs
unfolding hex_encode
length-hex_encode [] = refl
length-hex_encode (b ∷ bs) = let rest = length-hex_encode bs in omega arith

decode_pairs-hex_encode :
    (bs : Bytes) → All (λ b. b < 256) bs → decode_pairs (hex_encode bs) ≡ some bs
unfolding hex_encode decode_pairs
decode_pairs-hex_encode [] h = refl
decode_pairs-hex_encode (b ∷ bs) (lt, h) = rw ((byte_digits b lt).2, decode_pairs-hex_encode bs h)

is_even : (n k : ℕ) → n ≡ 2 * k → n % 2 ≡ 0
is_even n k e = omega arith

module _ {P : Type 0} where
  hex_decode-hex_encode :
      (bs : Bytes) → All (λ b. b < 256) bs → hex_decode {P = P} (hex_encode bs) ≡ ok bs
  unfolding hex_decode
  hex_decode-hex_encode bs h = rw (
    as_bytes-hex_encode bs h,
    is_even _ (length bs) (length-hex_encode bs),
    decode_pairs-hex_encode bs h,
  )

  hex_decode_array-hex_encode :
      (n : ℕ) (kind : Text) (bs : Bytes)
      → All (λ b. b < 256) bs
      → length bs ≡ n
      → hex_decode_array {P = P} n (hex_encode bs) kind ≡ ok bs
  unfolding hex_decode_array
  hex_decode_array-hex_encode n kind bs h e =
      rw (hex_decode-hex_encode bs h, (==_iff (length bs) n).1 e)

  new_spake_ok :
      (msg : Bytes) (m : HandshakeMessage)
      → new_spake {P = P} msg ≡ ok m
      → (length msg ≡ spake_msg_len) × (m ≡ spake (hex_encode msg))
  unfolding new_spake
  new_spake_ok msg m h = elim (Bool-cases (length msg == spake_msg_len)) [
    | inl q ↦ ((==_iff (length msg) spake_msg_len).0 q, sym (ok_injective (rw q at h)))
    | inr q ↦ absurd (ground (arith, rw q at h))
  ]

  pub new_spake_total :
      (msg : Bytes)
      → length msg ≡ spake_msg_len
      → new_spake {P = P} msg ≡ ok (spake (hex_encode msg))
  unfolding new_spake
  new_spake_total msg h =
      let fits : (length msg == spake_msg_len) ≡ true = (==_iff (length msg) spake_msg_len).1 h in
      rw fits

  -- A SPAKE2 message that `HandshakeMessage::spake` accepts has 33 bytes, `into_pake` reads the
  -- same bytes back, and `into_confirm` refuses it as a handshake message of the wrong kind.
  pub into_pake-new_spake :
      (msg : Bytes) (m : HandshakeMessage)
      → All (λ b. b < 256) msg
      → new_spake {P = P} msg ≡ ok m
      → (length msg ≡ spake_msg_len)
        × (into_pake {P = P} m ≡ ok msg)
        × (into_confirm {P = P} m ≡ err wrong_handshake_kind)
  unfolding into_pake into_confirm
  into_pake-new_spake msg m h made =
      let (size, shape) = new_spake_ok msg m made in
      let back = hex_decode_array-hex_encode spake_msg_len (codes "spake") msg h size in
      rw shape ((size, back, refl))

  -- The token of a confirmation message, of 16 bytes, is read back by `into_confirm` unchanged,
  -- and `into_pake` refuses the message as the wrong kind.
  pub into_confirm-new_confirm :
      (token : Bytes)
      → All (λ b. b < 256) token
      → length token ≡ confirm_token_len
      → (into_confirm {P = P} (new_confirm token) ≡ ok token)
        × (into_pake {P = P} (new_confirm token) ≡ err wrong_handshake_kind)
  unfolding into_confirm into_pake new_confirm
  into_confirm-new_confirm token h e =
      (hex_decode_array-hex_encode confirm_token_len _ token h e, refl)
