-- ===== src/Flows/Send/Accounting.antt =====
-- What a send that completed has checked, crates/cli/src/send.
use worddrop.Base.{
  ℕ, ◌+◌, ◌%◌, ◌^◌, ◌≡◌, refl, Bool, true, false, &&_split, ==_iff, List, [], ◌∷◌, map, length,
  Option, none, some, Text, codes, as_bytes, Result, ok, err, ◌==◌, if◌then◌else◌, Bool-cases, inl,
  inr, sym, ok_injective, some_injective, ap, subst, err-ne-ok,
}
use worddrop.Protocol.Wire.{Json}
use worddrop.Session
use worddrop.Session.State.{SessionPhase, done, completed}
use worddrop.Session.State
use worddrop.Session.Control.{ControlMessage, hello, offer, accept, decline, cancel, result}
use worddrop.Pairing.Handshake.{HandshakeMessage}
use worddrop.Pairing.Spake.{Library}
use worddrop.Transfer.Send.Prepare.{PreparedTransfer}
use worddrop.Flows.Talk.{
  World, Flow, continue, ◌>>=◌, ◌>>◌, return, transition, cancel_session, keep_session, lift,
}
use worddrop.Flows.Send
use worddrop.Flows.Send.{
  Wake, interrupted, message, tick, SendError, SendOutcome, finished, declined, Sending, Env,
  transition_failed, result_matches, transfer_phase, wait_receiver, run_send_inner, run_send,
  Dialled, Accepted,
}

-- If a run completed, its session is done, and the numbers that it ended with add up to these.
abbrev pub Accounted :
    {IoError Er : Type 0} → ℕ → ℕ → Option (Result Er SendOutcome × World IoError Sending) → Type 0
Accounted total count (some (ok (finished b f sb sf), w)) =
    ((b + sb) % 2 ^ 64 ≡ total) × ((f + sf) % 2 ^ 32 ≡ count) × (w.session.phase ≡ done)
Accounted total count (some (ok (declined reason), w)) = Unit
Accounted total count (some (ok SendOutcome.cancelled, w)) = Unit
Accounted total count (some (err e, w)) = Unit
Accounted total count none = Unit

then_accounted :
    {IoError Er A : Type 0} (total count : ℕ) (x : Option (Result Er A × World IoError Sending))
    (f : A → Flow IoError Sending Er SendOutcome)
    → ((a : A) (w : World IoError Sending) → Accounted total count (f a w))
    → Accounted total count (continue f x)
then_accounted total count none f next = tt
then_accounted total count (some (ok a, w)) f next = next a w
then_accounted total count (some (err e, w)) f next = tt

matches-split :
    (b f sb sf total count : ℕ)
    → result_matches b f sb sf total count ≡ true
    → ((b + sb) % 2 ^ 64 ≡ total) × ((f + sf) % 2 ^ 32 ≡ count)
unfolding result_matches
matches-split b f sb sf total count h =
    let (bytes, files) = &&_split ((b + sb) % 2 ^ 64 == total) ((f + sf) % 2 ^ 32 == count) h in
    ((==_iff ((b + sb) % 2 ^ 64) total).0 bytes, (==_iff ((f + sf) % 2 ^ 32) count).0 files)

completed_done : (from q : SessionPhase) → State.transition from completed ≡ ok q → q ≡ done
unfolding State.transition
completed_done State.transferring q h = sym (ok_injective h)
completed_done State.created q h = absurd (err-ne-ok h)
completed_done State.pending_pair q h = absurd (err-ne-ok h)
completed_done State.paired q h = absurd (err-ne-ok h)
completed_done State.done q h = absurd (err-ne-ok h)
completed_done SessionPhase.cancelled q h = absurd (err-ne-ok h)
completed_done SessionPhase.failed q h = absurd (err-ne-ok h)

module _ (IoError : Type 0) {E P Hash F X Addr Rv C Seed Inner : Type 0}
    (json : Json E ControlMessage) (handshakes : Json E HandshakeMessage)
    (library : Library Seed Inner P) (env : Env Hash F X Addr Rv C Seed) where
  cancelled_accounted :
      (total count : ℕ) (w : World IoError Sending)
      → Accounted total count (Send.cancel_both IoError json handshakes library env w)
  cancelled_accounted total count w =
      then_accounted total count _ (λ _. return SendOutcome.cancelled) λ _ v. tt

  session_done :
      (total count b f sb sf : ℕ) (w : World IoError Sending)
      → ((b + sb) % 2 ^ 64 ≡ total) × ((f + sf) % 2 ^ 32 ≡ count)
      → Accounted total count (
          (transition {Er = SendError E IoError P F X Rv C} transition_failed completed
              >> return (finished b f sb sf))
            w)
  unfolding Session.apply
  session_done total count b f sb sf w h =
      on (State.transition w.session.phase completed) (completed_done w.session.phase)
    where
      on :
          (r : Result State.TransitionError SessionPhase)
          → ((q : SessionPhase) → r ≡ ok q → q ≡ done)
          → Accounted total count (
              continue
                (λ _. return (finished b f sb sf))
                (keep_session {Er = SendError E IoError P F X Rv C} transition_failed w
                  (Session.store_phase w.session r)))
      on (ok q) to_done = (h.0, h.1, to_done q refl)
      on (err e) to_done = tt

  result_accounted :
      (total count b f sb sf : ℕ) (w : World IoError Sending)
      → Accounted total count
          (Send.on_result IoError json handshakes library env total count b f sb sf w)
  result_accounted total count b f sb sf w =
      elim (Bool-cases (result_matches b f sb sf total count)) [
        | inl q ↦
            rw q (session_done total count b f sb sf w (matches-split b f sb sf total count q))
        | inr q ↦ rw q tt
      ]

  closing :
      (total count : ℕ) (w : World IoError Sending)
      → Accounted total count (
          (cancel_session {Er = SendError E IoError P F X Rv C} transition_failed
              >> return SendOutcome.cancelled)
            w)
  closing total count w =
      then_accounted total count (cancel_session transition_failed w)
        (λ _. return SendOutcome.cancelled) λ _ v. tt

  message_accounted :
      (total count : ℕ) (m : ControlMessage) (w : World IoError Sending)
      → Accounted total count (Send.on_message IoError json handshakes library env total count m w)
  message_accounted total count (result b f sb sf) w = result_accounted total count b f sb sf w
  message_accounted total count cancel w = closing total count w
  message_accounted total count (hello v) w = tt
  message_accounted total count (offer ms t) w = tt
  message_accounted total count accept w = tt
  message_accounted total count (decline reason) w = tt

  phase_accounted :
      (total count : ℕ) (wakes : List Wake) (w : World IoError Sending)
      → Accounted total count
          (transfer_phase IoError json handshakes library env total count wakes w)
  unfolding transfer_phase
  phase_accounted total count [] w = tt
  phase_accounted total count (interrupted ∷ wakes) w = cancelled_accounted total count w
  phase_accounted total count (message late ∷ wakes) w =
      then_accounted total count
        (Send.receive_idle IoError json handshakes library env late
          (codes "transfer result or cancel") w)
        (Send.on_message IoError json handshakes library env total count)
        (message_accounted total count)
  phase_accounted total count (tick served lost ∷ wakes) w = phase_accounted total count wakes _

  response_accounted :
      (total count : ℕ) (m : ControlMessage) (w : World IoError Sending)
      → Accounted total count (Send.on_response IoError json handshakes library env total count m w)
  response_accounted total count accept w =
      then_accounted total count (transition transition_failed State.transfer_started w)
        (λ _. transfer_phase IoError json handshakes library env total count env.wakes)
        λ _. phase_accounted total count env.wakes
  response_accounted total count cancel w = closing total count w
  response_accounted total count (decline reason) w = tt
  response_accounted total count (hello v) w = tt
  response_accounted total count (offer ms t) w = tt
  response_accounted total count (result b f sb sf) w = tt

  wait_accounted :
      (p : PreparedTransfer Hash Addr) (stop : Bool) (w : World IoError Sending)
      → Accounted p.total_bytes (length p.files % 2 ^ 32) (
          (if stop
              then Send.cancel_both IoError json handshakes library env
              else (Send.receive_idle IoError json handshakes library env env.late_response
                    (codes "offer response")
                  >>= Send.on_response IoError json handshakes library env p.total_bytes
                      (length p.files % 2 ^ 32)))
            w)
  wait_accounted p true w = cancelled_accounted p.total_bytes (length p.files % 2 ^ 32) w
  wait_accounted p false w =
      then_accounted p.total_bytes (length p.files % 2 ^ 32)
        (Send.receive_idle IoError json handshakes library env env.late_response
          (codes "offer response") w)
        (Send.on_response IoError json handshakes library env p.total_bytes
          (length p.files % 2 ^ 32))
        (response_accounted p.total_bytes (length p.files % 2 ^ 32))

  offer_accounted :
      (p : PreparedTransfer Hash Addr) (w : World IoError Sending)
      → Accounted p.total_bytes
          (length p.files % 2 ^ 32)
          (Send.make_offer IoError json handshakes library env p w)
  offer_accounted p w =
      then_accounted p.total_bytes (length p.files % 2 ^ 32)
        ((transition {Er = SendError E IoError P F X Rv C} transition_failed State.pair_confirmed
            >> Send.send json Send.control (
                offer (map (Send.file_meta IoError json handshakes library env) p.files)
                  p.total_bytes))
          w)
        (λ _. Send.wait_response IoError json handshakes library env p)
        λ _. wait_accounted p env.interrupted_offer

  hello_accounted :
      (p : PreparedTransfer Hash Addr) (words : Text) (ours : ControlMessage)
      (w : World IoError Sending)
      → Accounted p.total_bytes
          (length p.files % 2 ^ 32)
          (Send.after_hello IoError json handshakes library env p words ours w)
  hello_accounted p words ours w =
      then_accounted p.total_bytes (length p.files % 2 ^ 32)
        ((Send.send {Er = SendError E IoError P F X Rv C} json Send.control ours
            >> Send.talk Send.pair (
                Send.spake_sender_side handshakes library env.late env.later env.seed
                  (as_bytes words)))
          w)
        (λ key. Send.make_offer IoError json handshakes library env p) λ key. offer_accounted p

  stream_accounted :
      (p : PreparedTransfer Hash Addr) (words : Text) (w : World IoError Sending)
      → Accounted p.total_bytes
          (length p.files % 2 ^ 32)
          (Send.with_stream IoError json handshakes library env p words w)
  stream_accounted p words w =
      then_accounted p.total_bytes (length p.files % 2 ^ 32)
        (Send.receive Send.pair (Send.recv_hello P json env.late_hello) w)
        (Send.after_hello IoError json handshakes library env p words) (hello_accounted p words)

  dialled_accounted :
      (p : PreparedTransfer Hash Addr) (words : Text) (d : Dialled) (w : World IoError Sending)
      → Accounted p.total_bytes
          (length p.files % 2 ^ 32)
          (wait_receiver IoError json handshakes library env p words d w)
  dialled_accounted p words Dialled.interrupted w = tt
  dialled_accounted p words Dialled.too_late w = tt
  dialled_accounted p words Dialled.closed w = tt
  dialled_accounted p words Dialled.arrived w =
      then_accounted p.total_bytes (length p.files % 2 ^ 32)
        (Send.accept_control_stream IoError json handshakes library env env.accepted w)
        (λ _. Send.with_stream IoError json handshakes library env p words)
        λ _. stream_accounted p words

  prepared_accounted :
      (p : PreparedTransfer Hash Addr) (w : World IoError Sending)
      → Accounted p.total_bytes
          (length p.files % 2 ^ 32)
          (Send.with_prepared IoError json handshakes library env p w)
  prepared_accounted p w =
      then_accounted p.total_bytes (length p.files % 2 ^ 32)
        (lift Send.rv (env.allocate (env.ticket_text p.ticket)) w)
        (Send.with_number IoError json handshakes library env p)
        λ n v.
          then_accounted p.total_bytes (length p.files % 2 ^ 32)
            (Send.generated IoError json handshakes library env n v)
            (Send.with_code IoError json handshakes library env p n)
            λ code v'.
              then_accounted p.total_bytes (length p.files % 2 ^ 32)
                ((lift Send.publish
                      (env.publish_pairing (env.ticket_text p.ticket) n (Send.password code))
                    >> Send.set_pairing IoError json handshakes library env n (Send.password code))
                  v')
                (λ _.
                  wait_receiver IoError json handshakes library env p (Send.password code)
                    env.dialled)
                λ _. dialled_accounted p (Send.password code) env.dialled

  wound_up :
      (total count : ℕ)
      (x : Option (Result (SendError E IoError P F X Rv C) SendOutcome × World IoError Sending))
      → Accounted total count x
      → Accounted total count (Send.wind_up IoError json handshakes library env x)
  wound_up total count none a = tt
  wound_up total count (some (err e, w)) a = tt
  wound_up total count (some (ok (finished b f sb sf), w)) a = a
  wound_up total count (some (ok (declined reason), w)) a = tt
  wound_up total count (some (ok SendOutcome.cancelled, w)) a = tt

  if_prepared :
      (r : Result (Send.Send.SendError F X) (PreparedTransfer Hash Addr))
      (w w' : World IoError Sending) (b f sb sf : ℕ)
      → Send.wind_up IoError json handshakes library env
          ((lift Send.prepare r >>= Send.with_prepared IoError json handshakes library env) w)
        ≡ some (ok (finished b f sb sf), w')
      → (p : PreparedTransfer Hash Addr) × (r ≡ ok p)
        × ((b + sb) % 2 ^ 64 ≡ p.total_bytes)
        × ((f + sf) % 2 ^ 32 ≡ length p.files % 2 ^ 32)
        × (w'.session.phase ≡ done)
  if_prepared (err e) w w' b f sb sf h = absurd (err-ne-ok (ap (λ r. r.0) (some_injective h)))
  if_prepared (ok p) w w' b f sb sf h =
      let (bytes, files, at_done) =
        subst (Accounted p.total_bytes (length p.files % 2 ^ 32)) h
          (wound_up p.total_bytes (length p.files % 2 ^ 32) _ (prepared_accounted p w)) in
      (p, refl, bytes, files, at_done)

  -- A send that completed had prepared a transfer, the bytes that the receiver reported, with those
  -- skipped, are its total modulo 2^64, the files likewise modulo 2^32, and the session is done.
  pub run_send_accounts :
      (w w' : World IoError Sending) (b f sb sf : ℕ)
      → run_send IoError json handshakes library env w ≡ some (ok (finished b f sb sf), w')
      → (p : PreparedTransfer Hash Addr) × (env.prepared ≡ ok p)
        × ((b + sb) % 2 ^ 64 ≡ p.total_bytes)
        × ((f + sf) % 2 ^ 32 ≡ length p.files % 2 ^ 32)
        × (w'.session.phase ≡ done)
  unfolding run_send run_send_inner Session.apply State.transition
  run_send_accounts w w' b f sb sf h = if_prepared env.prepared _ w' b f sb sf h
