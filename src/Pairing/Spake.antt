-- ===== src/Pairing/Spake.antt =====
-- The SPAKE2 session, crates/core/src/pairing/spake.rs. The exchange itself and the derivation of
-- the confirmation token belong to the crates spake2 and hkdf, and are parameters.
pub mod Compare
use Prim.Native.Nat.{bit_or, bit_xor}
use worddrop.Base.{
  ℕ, ◌<◌, ◌≡◌, Bool, true, false, not, List, [], ◌∷◌, Text, codes, as_bytes, length, All, Result,
  ok, err, ◌>>=◌, map_err, ◌==◌, if◌then◌else◌,
}
use worddrop.Protocol.Bytes.{Bytes}
use worddrop.Pairing.Handshake.{
  SpakeError, protocol, key_length_mismatch, confirmation_mismatch, session_key_len, spake_msg_len,
  confirm_token_len,
}

abbrev pub app_identifier : Bytes
app_identifier = as_bytes (codes "worddrop/v1")

abbrev pub confirm_info : Bytes
confirm_info = as_bytes (codes "worddrop/confirm")

-- `Spake2::<Ed25519Group>` and `Hkdf::<Sha256>`: `Seed` is the randomness of a session, `Inner` its
-- state. Messages have 33 bytes, and an expansion has the length that was asked for.
pub record Library (Seed Inner P : Type 0) : Type 0 where
  pub start_symmetric : Seed → Bytes → Bytes → Inner × Bytes
  pub finish_exchange : Inner → Bytes → Result P Bytes
  pub expand : Bytes → Bytes → ℕ → Bytes
  pub message_length :
      (s : Seed) (password identity : Bytes) → length (start_symmetric s password identity).1 ≡ 33
  pub message_bytes :
      (s : Seed) (password identity : Bytes)
      → All (λ b. b < 256) (start_symmetric s password identity).1
  pub expand_length : (key info : Bytes) (n : ℕ) → length (expand key info n) ≡ n
  pub expand_bytes : (key info : Bytes) (n : ℕ) → All (λ b. b < 256) (expand key info n)

-- The loop that gathers the differing bits.
unfoldable pub differing : ℕ → Bytes → Bytes → ℕ
differing diff (x ∷ a) (y ∷ b) = differing (bit_or diff (bit_xor x y)) a b
differing diff _ _ = diff

-- `constant_time_eq`
unfoldable pub constant_time_eq : Bytes → Bytes → Bool
constant_time_eq a b = if not (length a == length b) then false else differing 0 a b == 0

module _ {Seed Inner P : Type 0} (library : Library Seed Inner P) where
  -- `SpakeSession::start`
  abbrev pub start : Seed → Bytes → Inner × Bytes
  start seed words = library.start_symmetric seed words app_identifier

  -- `SessionKey::from_raw`
  abbrev pub from_raw : Bytes → Result (SpakeError P) Bytes
  from_raw key =
      if length key == session_key_len
      then ok key
      else err (key_length_mismatch session_key_len (length key))

  -- `SpakeSession::finish`
  unfoldable pub finish : Inner → Bytes → Result (SpakeError P) Bytes
  finish inner inbound = map_err protocol (library.finish_exchange inner inbound) >>= from_raw

  -- `SessionKey::confirm_token`
  abbrev pub confirm_token : Bytes → Bytes
  confirm_token key = library.expand key confirm_info confirm_token_len

  -- `SessionKey::verify_confirm`
  unfoldable pub verify_confirm : Bytes → Bytes → Result (SpakeError P) (Unit {0})
  verify_confirm key token =
      if constant_time_eq (confirm_token key) token then ok tt else err confirmation_mismatch
