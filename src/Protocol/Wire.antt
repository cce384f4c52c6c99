-- ===== src/Protocol/Wire.antt =====
-- `WireMessage`, crates/core/src/protocol/wire.rs. The JSON library is a parameter.
pub mod Framing
use worddrop.Base.{
  ℕ, ◌+◌, ◌-◌, ◌*◌, ◌%◌, ◌^◌, ◌≡◌, List, [], ◌∷◌, ◌++◌, Result, ok, err, ◌>>=◌, map_err, length,
  take, drop, ltb, ◌==◌, if◌then◌else◌, Bool, not,
}
use worddrop.Protocol.Bytes.{Bytes, to_le_bytes, from_le_bytes}

abbrev pub max_frame_bytes : ℕ
max_frame_bytes = 16 * 1024 * 1024

-- `serde_json` for one type of messages: what a body parses as, if it was serialized, is the
-- message again.
pub record Json (E T : Type 0) : Type 0 where
  pub to_vec : T → Result E Bytes
  pub from_slice : Bytes → Result E T
  pub round_trip :
      (message : T) (body : Bytes) → to_vec message ≡ ok body → from_slice body ≡ ok message

pub data WireError (E : Type 0) : Type 0 where
  missing_length_prefix : WireError E
  frame_too_large : ℕ → ℕ → WireError E
  length_mismatch : ℕ → ℕ → WireError E
  serialize deserialize : E → WireError E

module _ {E T : Type 0} (json : Json E T) where
  unfoldable pub frame_body : Bytes → Result (WireError E) Bytes
  frame_body body =
      if ltb max_frame_bytes (length body)
      then err (frame_too_large (length body) max_frame_bytes)
      else ok (to_le_bytes (length body % 2 ^ 32) ++ body)

  -- `WireMessage::encode`
  unfoldable pub encode : T → Result (WireError E) Bytes
  encode message = map_err serialize (json.to_vec message) >>= frame_body

  -- `WireMessage::decode`
  unfoldable pub decode : Bytes → Result (WireError E) T
  decode frame =
      let declared = from_le_bytes (take 4 frame) in
      let actual = length frame - 4 in
      if ltb (length frame) 4
      then err missing_length_prefix
      else if ltb max_frame_bytes declared
      then err (frame_too_large declared max_frame_bytes)
      else if not (actual == declared)
      then err (length_mismatch declared actual)
      else map_err deserialize (json.from_slice (drop 4 frame))
