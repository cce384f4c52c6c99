-- ===== src/Flows/Talk.antt =====
-- What both flows do: steps on the session and on the control stream, each of which may fail or
-- wait for ever (`none`). Writes do not fail; a message that cannot be encoded does.
pub mod Keeps
use worddrop.Base.{ℕ, Bool, Option, none, some, Text, Result, ok, err, ◌++◌}
use worddrop.Protocol.Bytes.{Bytes}
use worddrop.Protocol.Wire.{Json}
use worddrop.Session
use worddrop.Session.{Session}
use worddrop.Session.State.{SessionPhase, Transition, TransitionError}
use worddrop.Session.Control.{ControlMessage, Reader, SessionError, send_message}
use worddrop.Pairing.Exchange.{PairError, Peer, Talk}

-- The session, the control stream, and what else the flow keeps.
pub record World (IoError S : Type 0) : Type 0 where
  pub session : Session
  pub peer : Peer IoError
  pub own : S

abbrev pub Flow {ℓ} : (IoError S Er : Type 0) → Type ℓ → Type ℓ
Flow IoError S Er A = World IoError S → Option (Result Er A × World IoError S)

-- The stream behind what was written to it.
abbrev pub written : {IoError S : Type 0} → World IoError S → Bytes → World IoError S
written w frame = record w { peer = record { reader = w.peer.reader; sent = w.peer.sent ++ frame } }

module _ {IoError S Er : Type 0} where
  abbrev pub continue {ℓ κ} :
      {A : Type ℓ} {B : Type κ}
      → (A → Flow IoError S Er B)
      → Option (Result Er A × World IoError S)
      → Option (Result Er B × World IoError S)
  continue f none = none
  continue f (some (ok a, w)) = f a w
  continue f (some (err e, w)) = some (err e, w)

  infixl 5 ◌>>=◌ ◌>>◌
  abbrev pub ◌>>=◌ {ℓ κ} :
      {A : Type ℓ} {B : Type κ}
      → Flow IoError S Er A
      → (A → Flow IoError S Er B)
      → Flow IoError S Er B
  ◌>>=◌ m f w = continue f (m w)

  abbrev pub ◌>>◌ {κ} :
      {B : Type κ} → Flow IoError S Er (Unit {0}) → Flow IoError S Er B → Flow IoError S Er B
  m >> k = m >>= λ _. k

  abbrev pub return {ℓ} : {A : Type ℓ} → A → Flow IoError S Er A
  return a w = some (ok a, w)

  abbrev pub fail {ℓ} : {A : Type ℓ} → Er → Flow IoError S Er A
  fail e w = some (err e, w)

  -- `?` on a result, with the conversion of its error.
  abbrev pub lift {ℓ κ} : {E : Type ℓ} {A : Type κ} → (E → Er) → Result E A → Flow IoError S Er A
  lift f (ok a) w = some (ok a, w)
  lift f (err e) w = some (err (f e), w)

  abbrev pub keep_session :
      (TransitionError → Er)
      → World IoError S
      → Result TransitionError SessionPhase × Session
      → Option (Result Er (Unit {0}) × World IoError S)
  keep_session f w (ok next, s) = some (ok tt, record w { session = s })
  keep_session f w (err e, s) = some (err (f e), record w { session = s })

  -- `session.transition(event).await?`
  abbrev pub transition : (TransitionError → Er) → Transition → Flow IoError S Er (Unit {0})
  transition f event w = keep_session f w (Session.apply w.session event)

  -- `session.cancel().await?`
  abbrev pub cancel_session : (TransitionError → Er) → Flow IoError S Er (Unit {0})
  cancel_session f w = keep_session f w (Session.cancel w.session)

  -- A step of the pairing exchange.
  abbrev pub keep_peer {ℓ κ} :
      {E : Type ℓ} {A : Type κ}
      → (E → Er)
      → World IoError S
      → Result E A × Peer IoError
      → Option (Result Er A × World IoError S)
  keep_peer f w (ok a, p) = some (ok a, record w { peer = p })
  keep_peer f w (err e, p) = some (err (f e), record w { peer = p })

  module _ {E P : Type 0} where
    abbrev pub talk {κ} :
        {A : Type κ} → (PairError E IoError P → Er) → Talk E IoError P A → Flow IoError S Er A
    talk f m w = keep_peer f w (m w.peer)

  -- A message that was received, and the reader behind it.
  abbrev pub keep_reader {ℓ κ} :
      {E : Type ℓ} {A : Type κ}
      → (E → Er)
      → World IoError S
      → Result E (A × Reader IoError)
      → Option (Result Er A × World IoError S)
  keep_reader f w (ok (a, r)) =
      some (ok a, record w { peer = record { reader = r; sent = w.peer.sent } })
  keep_reader f w (err e) = some (err (f e), w)

  abbrev pub receive {ℓ κ} :
      {E : Type ℓ} {A : Type κ}
      → (E → Er)
      → (Reader IoError → Result E (A × Reader IoError))
      → Flow IoError S Er A
  receive f m w = keep_reader f w (m w.peer.reader)

  module _ {E : Type 0} (json : Json E ControlMessage) where
    abbrev pub sent :
        (SessionError E IoError → Er)
        → World IoError S
        → Result (SessionError E IoError) Bytes
        → Option (Result Er (Unit {0}) × World IoError S)
    sent f w (ok frame) = some (ok tt, written w frame)
    sent f w (err e) = some (err (f e), w)

    -- `send_message(&mut send, message).await?`
    abbrev pub send : (SessionError E IoError → Er) → ControlMessage → Flow IoError S Er (Unit {0})
    send f message w = sent f w (send_message json message)

    abbrev pub tried :
        World IoError S
        → Result (SessionError E IoError) Bytes
        → Option (Result Er (Unit {0}) × World IoError S)
    tried w (ok frame) = some (ok tt, written w frame)
    tried w (err e) = some (ok tt, w)

    -- `let _ = send_message(&mut send, message).await`
    abbrev pub try_send : ControlMessage → Flow IoError S Er (Unit {0})
    try_send message w = tried w (send_message {IoError = IoError} json message)
