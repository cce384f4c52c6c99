-- ===== src/Flows/Talk/Keeps.antt =====
-- What the steps of a flow on its session and its stream leave alone: a view of the rest.
use worddrop.Base.{◌≡◌, List, Option, none, some, Result, ok, err, ℕ}
use worddrop.Protocol.Wire.{Json}
use worddrop.Session.{Session}
use worddrop.Session.State.{SessionPhase, TransitionError}
use worddrop.Session.Control.{ControlMessage, Reader, SessionError, send_message}
use worddrop.Pairing.Exchange.{Peer}
use worddrop.Flows.Talk.{
  World, Flow, continue, lift, keep_session, keep_peer, keep_reader, sent, tried, send, try_send,
}

module _ {S K : Type 0} (view : S → K) where
  -- However a run ended, the view is this.
  abbrev pub KeptAs : {IoError Er A : Type 0} → K → Option (Result Er A × World IoError S) → Type 0
  KeptAs k none = Unit
  KeptAs k (some (r, w)) = view w.own ≡ k

  module _ {IoError Er A B : Type 0} (k : K) where
    pub then_keeps :
        (x : Option (Result Er A × World IoError S)) (f : A → Flow IoError S Er B)
        → KeptAs k x
        → ((a : A) (w : World IoError S) → view w.own ≡ k → KeptAs k (f a w))
        → KeptAs k (continue f x)
    then_keeps none f h next = tt
    then_keeps (some (ok a, w)) f h next = next a w h
    then_keeps (some (err e, w)) f h next = h

  module _ {IoError Er : Type 0} (k : K) (w : World IoError S) (h : view w.own ≡ k) where
    pub lift_keeps : {X A : Type 0} (f : X → Er) (r : Result X A) → KeptAs k (lift f r w)
    lift_keeps f (ok a) = h
    lift_keeps f (err e) = h

    pub session_keeps :
        (f : TransitionError → Er) (r : Result TransitionError SessionPhase × Session)
        → KeptAs k (keep_session f w r)
    session_keeps f (ok next, s) = h
    session_keeps f (err e, s) = h

    pub peer_keeps :
        {X A : Type 0} (f : X → Er) (r : Result X A × Peer IoError) → KeptAs k (keep_peer f w r)
    peer_keeps f (ok a, p) = h
    peer_keeps f (err e, p) = h

    pub reader_keeps :
        {X A : Type 0} (f : X → Er) (r : Result X (A × Reader IoError))
        → KeptAs k (keep_reader f w r)
    reader_keeps f (ok (a, r)) = h
    reader_keeps f (err e) = h

    module _ {E : Type 0} (json : Json E ControlMessage) where
      pub send_keeps :
          (f : SessionError E IoError → Er) (m : ControlMessage) → KeptAs k (send json f m w)
      send_keeps f m = on (send_message json m)
        where
          on : (r : Result (SessionError E IoError) (List ℕ)) → KeptAs k (sent json f w r)
          on (ok frame) = h
          on (err e) = h

  module _ {IoError E : Type 0} (Er : Type 0) (k : K) (w : World IoError S) (h : view w.own ≡ k)
      (json : Json E ControlMessage) where
    pub try_send_keeps : (m : ControlMessage) → KeptAs {Er = Er} k (try_send json m w)
    try_send_keeps m = on (send_message json m)
      where
        on : (r : Result (SessionError E IoError) (List ℕ)) → KeptAs {Er = Er} k (tried json w r)
        on (ok frame) = h
        on (err e) = h
