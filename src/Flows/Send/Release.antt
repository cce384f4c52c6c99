-- ===== src/Flows/Send/Release.antt =====
-- Every end of the send flow of crates/cli/src/send/mod.rs releases what it published.
pub mod Keeps
use worddrop.Base.{
  ℕ, ◌≡◌, refl, ap, ◌∙◌, Bool, true, false, List, [], ◌∷◌, Option, none, some, Text, Result, ok,
  err, Bool-cases, inl, inr, codes, length, ◌%◌, ◌^◌, if◌then◌else◌, map, as_bytes, none-ne-some,
  some_injective, sym,
}
use worddrop.Protocol.Wire.{Json}
use worddrop.Session
use worddrop.Session.{Session}
use worddrop.Session.State.{
  transition as step, SessionPhase, pair_confirmed, transfer_started, completed, TransitionError,
}
use worddrop.Session.Control.{
  ControlMessage, hello, offer, accept, decline, cancel, result, Reader, SessionError, send_message,
}
use worddrop.Pairing.Handshake.{HandshakeMessage}
use worddrop.Pairing.Spake.{Library}
use worddrop.Pairing.WordCode.{WordCode, WordCodeError, generate, password}
use worddrop.Pairing.Exchange.{Peer, recv_message_idle, recv_hello, spake_sender_side}
use worddrop.Transfer
use worddrop.Transfer.Send.Prepare.{PreparedTransfer}
use worddrop.Flows.Talk.{
  World, Flow, continue, lift, ◌>>=◌, ◌>>◌, keep_session, keep_peer, keep_reader, sent, tried,
  try_send, cancel_session, transition, return, receive, talk, send,
}
use worddrop.Flows.Send
use worddrop.Flows.Send.{
  Wake, interrupted, message, tick, SendError, SendOutcome, Sending, Env, run_send, run_send_inner,
  transfer_phase, wait_receiver, result_matches, finished, transition_failed, pair, control,
  connection, hung, acceptor_closed, rv, prepare, publish, word, Dialled, Accepted, opened, failed,
}
use worddrop.Flows.Send.Release.Keeps.{Kept, held, KeptAs, receiver_keeps}

abbrev pub to_list {ℓ} : {A : Type ℓ} → Option A → List A
to_list none = []
to_list (some a) = a ∷ []

module _ (IoError : Type 0) {E P Hash F X Addr Rv C Seed Inner : Type 0}
    (json : Json E ControlMessage) (handshakes : Json E HandshakeMessage)
    (library : Library Seed Inner P) (env : Env Hash F X Addr Rv C Seed) where
  -- The pairing that a run publishes, if all up to it goes well.
  abbrev if_published : ℕ → Text → Result Rv (Unit {0}) → Option (ℕ × Text)
  if_published n words (ok u) = some (n, words)
  if_published n words (err e) = none

  abbrev if_drawn : Text → ℕ → Option (Result WordCodeError WordCode) → Option (ℕ × Text)
  if_drawn text n none = none
  if_drawn text n (some (err e)) = none
  if_drawn text n (some (ok code)) =
      if_published n (password code) (env.publish_pairing text n (password code))

  abbrev if_allocated : Text → Result Rv ℕ → Option (ℕ × Text)
  if_allocated text (err e) = none
  if_allocated text (ok n) = if_drawn text n (generate env.rounds n env.draw)

  abbrev if_prepared :
      Result (Transfer.Send.SendError F X) (PreparedTransfer Hash Addr) → Option (ℕ × Text)
  if_prepared (err e) = none
  if_prepared (ok p) =
      if_allocated (env.ticket_text p.ticket) (env.allocate (env.ticket_text p.ticket))

  abbrev pub published : Option (ℕ × Text)
  published = if_prepared env.prepared

  abbrev Outcome : Type 0
  Outcome = Option (Result (SendError E IoError P F X Rv C) SendOutcome × World IoError Sending)

  abbrev Step : Type 0 → Type 0
  Step A = A → Flow IoError Sending (SendError E IoError P F X Rv C) SendOutcome

  publish_keeps :
      (p : PreparedTransfer Hash Addr) (n : ℕ) (words : Text) (r : Result Rv (Unit {0}))
      (w : World IoError Sending)
      → held w.own ≡ (none, [])
      → KeptAs
          (if_published n words r, [])
          ((lift publish r
              >> Send.set_pairing IoError json handshakes library env n words
              >> wait_receiver IoError json handshakes library env p words env.dialled)
            w)
  publish_keeps p n words (err e) w h = h
  publish_keeps p n words (ok u) w h =
      receiver_keeps IoError json handshakes library env (some (n, words), []) env.dialled p words _
        (ap (λ (k : Kept). (some (n, words), k.1)) h)

  code_keeps :
      (p : PreparedTransfer Hash Addr) (n : ℕ) (r : Option (Result WordCodeError WordCode))
      (w : World IoError Sending)
      → held w.own ≡ (none, [])
      → KeptAs
          (if_drawn (env.ticket_text p.ticket) n r, [])
          ((Send.drawn IoError json handshakes library env r
              >>= Send.with_code IoError json handshakes library env p n)
            w)
  code_keeps p n none w h = tt
  code_keeps p n (some (err e)) w h = h
  code_keeps p n (some (ok code)) w h =
      publish_keeps p n (password code)
        (env.publish_pairing (env.ticket_text p.ticket) n (password code)) w h

  number_keeps :
      (p : PreparedTransfer Hash Addr) (r : Result Rv ℕ) (w : World IoError Sending)
      → held w.own ≡ (none, [])
      → KeptAs
          (if_allocated (env.ticket_text p.ticket) r, [])
          ((lift rv r >>= Send.with_number IoError json handshakes library env p) w)
  number_keeps p (err e) w h = h
  number_keeps p (ok n) w h = code_keeps p n (generate env.rounds n env.draw) w h

  prepared_keeps :
      (r : Result (Transfer.Send.SendError F X) (PreparedTransfer Hash Addr))
      (w : World IoError Sending)
      → held w.own ≡ (none, [])
      → KeptAs
          (if_prepared r, [])
          ((lift prepare r >>= Send.with_prepared IoError json handshakes library env) w)
  prepared_keeps (err e) w h = h
  prepared_keeps (ok p) w h = number_keeps p (env.allocate (env.ticket_text p.ticket)) w h

  release_lem :
      (q : Option (ℕ × Text)) (s : Sending)
      → s.released ≡ []
      → let s' = Send.release IoError json handshakes library env q s in
        (s'.released ≡ to_list q) × (s'.shut_down ≡ true)
  release_lem none s h = (h, refl)
  release_lem (some q) s h = (rw h, refl)

  wound_up :
      (pairing : Option (ℕ × Text)) (x : Outcome)
      (r : Result (SendError E IoError P F X Rv C) SendOutcome) (w' : World IoError Sending)
      → KeptAs (pairing, []) x
      → Send.wind_up IoError json handshakes library env x ≡ some (r, w')
      → (w'.own.released ≡ to_list pairing) × (w'.own.shut_down ≡ true)
  wound_up pairing none r w' k h = absurd (none-ne-some h)
  wound_up pairing (some (o, w)) r w' k h =
      let same =
        ap
          (λ (x : Result (SendError E IoError P F X Rv C) SendOutcome × World IoError Sending).
            x.1.own)
          (some_injective h) in
      let (listed, down) = release_lem w.own.pairing w.own (ap (λ (x : Kept). x.1) k) in
      (
        ap (λ (s : Sending). s.released) (sym same) ∙ listed ∙ ap (λ (x : Kept). to_list x.0) k,
        ap (λ (s : Sending). s.shut_down) (sym same) ∙ down,
      )

  -- However a send ends, with an outcome or an error, it has released the pairing that it
  -- published, once, and nothing if it published none; and the engine is shut down.
  pub run_send_releases :
      (w w' : World IoError Sending) (r : Result (SendError E IoError P F X Rv C) SendOutcome)
      → run_send IoError json handshakes library env w ≡ some (r, w')
      → (w'.own.released ≡ to_list published) × (w'.own.shut_down ≡ true)
  unfolding run_send run_send_inner Session.apply step
  run_send_releases w w' r h =
      wound_up published
        (run_send_inner IoError json handshakes library env
          (Send.started IoError json handshakes library env w))
        r w' (prepared_keeps env.prepared _ refl) h
