-- ===== src/Protocol/Wire/Framing.antt =====
-- `encode` and `decode` of crates/core/src/protocol/wire.rs, against each other and the format.
use worddrop.Base.{
  ℕ, suc, ◌+◌, ◌-◌, ◌%◌, ◌^◌, ◌≡◌, ◌≢◌, ◌≤◌, ◌↔◌, sym, ap, ◌∙◌, ◌∷◌, ◌++◌, ok, err, >>=-eq-ok,
  map_err, map_err_ok, ok_injective, err-ne-ok, ==_iff, length, take, drop, ltb, ◌==◌, false, arith,
  Bool-cases, inl, inr, length-append, ge→ltb, ltb→ge,
}
use mathlib.Core.Path.{ap₂}
use worddrop.Protocol.Bytes.{Bytes, to_le_bytes, from_le_bytes, from_le_bytes-to_le_bytes}
use worddrop.Protocol.Wire.{
  Json, length_mismatch, serialize, deserialize, max_frame_bytes, frame_body, encode, decode,
}

module _ {E T : Type 0} (json : Json E T) where
  frame_body_ok :
      (body frame : Bytes)
      → frame_body json body ≡ ok frame
      → (length body ≤ max_frame_bytes) × (frame ≡ to_le_bytes (length body) ++ body)
  unfolding frame_body
  frame_body_ok body frame h = elim (Bool-cases (ltb max_frame_bytes (length body))) [
    | inl q ↦ absurd (err-ne-ok (rw q at h))
    | inr q ↦
        let small = ltb→ge max_frame_bytes (length body) q in
        let whole : length body % 2 ^ 32 ≡ length body = omega arith in
        (small, sym (ok_injective (rw q at h)) ∙ ap (λ (n : ℕ). to_le_bytes n ++ body) whole)
  ]

  -- An encoded frame: its prefix counts the body, which fits the cap.
  pub encode_ok :
      (message : T) (frame : Bytes)
      → encode json message ≡ ok frame
      → (body : Bytes) × (json.to_vec message ≡ ok body)
        × (length body ≤ max_frame_bytes)
        × (frame ≡ to_le_bytes (length body) ++ body)
  unfolding encode
  encode_ok message frame h =
      let (body, written, framed) =
        >>=-eq-ok (map_err serialize (json.to_vec message)) (frame_body json) h in
      let (small, shape) = frame_body_ok body frame framed in
      (body, map_err_ok serialize (json.to_vec message) written, small, shape)

  decode_inv :
      (frame : Bytes) (message : T)
      → decode json frame ≡ ok message
      → (4 ≤ length frame)
        × (length frame ≡ 4 + from_le_bytes (take 4 frame))
        × (length frame ≤ 4 + max_frame_bytes)
        × (json.from_slice (drop 4 frame) ≡ ok message)
  unfolding decode
  decode_inv frame message h = elim (Bool-cases (ltb (length frame) 4)) [
    | inl a ↦ absurd (err-ne-ok (rw a at h))
    | inr a ↦ elim (Bool-cases (ltb max_frame_bytes (from_le_bytes (take 4 frame)))) [
      | inl b ↦ absurd (err-ne-ok (rw (a, b) at h))
      | inr b ↦ elim (Bool-cases (length frame - 4 == from_le_bytes (take 4 frame))) [
        | inr c ↦ absurd (err-ne-ok (rw (a, b, c) at h))
        | inl c ↦
            let long = ltb→ge (length frame) 4 a in
            let fits = ltb→ge max_frame_bytes (from_le_bytes (take 4 frame)) b in
            let counts = (==_iff (length frame - 4) (from_le_bytes (take 4 frame))).0 c in
            (
              long,
              omega arith,
              omega arith,
              map_err_ok deserialize (json.from_slice (drop 4 frame)) (rw (a, b, c) at h),
            )
      ]
    ]
  ]

  decode_ok :
      (frame : Bytes) (message : T)
      → 4 ≤ length frame
      → length frame ≡ 4 + from_le_bytes (take 4 frame)
      → length frame ≤ 4 + max_frame_bytes
      → json.from_slice (drop 4 frame) ≡ ok message
      → decode json frame ≡ ok message
  unfolding decode
  decode_ok frame message long counts fits parses =
      let exact : length frame - 4 ≡ from_le_bytes (take 4 frame) = omega arith in
      rw (
        ge→ltb (length frame) 4 long,
        ge→ltb max_frame_bytes (from_le_bytes (take 4 frame)) (omega arith),
        (==_iff (length frame - 4) (from_le_bytes (take 4 frame))).1 exact,
        parses,
      )

  -- Exactly these frames are accepted: a prefix that counts the bytes behind it, at most the cap,
  -- and a body that parses.
  pub decode_iff :
      (frame : Bytes) (message : T)
      → (decode json frame ≡ ok message) ↔ (
          (4 ≤ length frame)
          × (length frame ≡ 4 + from_le_bytes (take 4 frame))
          × (length frame ≤ 4 + max_frame_bytes)
          × (json.from_slice (drop 4 frame) ≡ ok message))
  decode_iff frame message =
      (decode_inv frame message, λ h. decode_ok frame message h.0 h.1 h.2 h.3)

  -- A frame that was encoded is decoded to the message.
  pub decode-encode :
      (message : T) (frame : Bytes)
      → encode json message ≡ ok frame
      → decode json frame ≡ ok message
  decode-encode message frame h =
      let (body, written, small, shape) = encode_ok message frame h in
      let prefix : from_le_bytes (to_le_bytes (length body)) ≡ length body =
        from_le_bytes-to_le_bytes (length body) (omega arith) in
      rw shape (
        decode_ok (to_le_bytes (length body) ++ body) message (omega arith) (omega (arith, prefix))
          (omega arith) (json.round_trip message body written))

  decode_mismatch :
      (frame : Bytes)
      → 4 ≤ length frame
      → from_le_bytes (take 4 frame) ≤ max_frame_bytes
      → length frame - 4 ≢ from_le_bytes (take 4 frame)
      → decode json frame ≡ err (length_mismatch (from_le_bytes (take 4 frame)) (length frame - 4))
  unfolding decode
  decode_mismatch frame long fits differs =
      let unequal : (length frame - 4 == from_le_bytes (take 4 frame)) ≡ false = ground arith in
      rw (
        ge→ltb (length frame) 4 long,
        ge→ltb max_frame_bytes (from_le_bytes (take 4 frame)) fits,
        unequal,
      )

  -- Bytes behind a frame that was encoded are an error, which names both lengths.
  pub decode-trailing :
      (message : T) (frame : Bytes) (extra : ℕ) (rest : Bytes)
      → encode json message ≡ ok frame
      → decode json (frame ++ extra ∷ rest)
        ≡ err (length_mismatch (length frame - 4) (length frame - 4 + suc (length rest)))
  decode-trailing message frame extra rest h =
      let (body, written, small, shape) = encode_ok message frame h in
      let prefix : from_le_bytes (to_le_bytes (length body)) ≡ length body =
        from_le_bytes-to_le_bytes (length body) (omega arith) in
      let longer = length-append body (extra ∷ rest) in
      rw shape (
        decode_mismatch ((to_le_bytes (length body) ++ body) ++ extra ∷ rest) (omega arith)
          (omega (arith, prefix)) (omega (arith, prefix, longer))
        ∙ ap₂ (λ (a b : ℕ). err (length_mismatch a b)) (omega (arith, prefix))
            (omega (arith, longer)))
