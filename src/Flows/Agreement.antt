-- ===== src/Flows/Agreement.antt =====
-- The two flows of the command line talking to each other, crates/cli/src/send and receive.rs: from
-- the control stream to the end. Sender and Receiver run each side on what the other sends.
pub mod Sender
pub mod Receiver
pub mod Complete
use worddrop.Base.{◌≡◌, Result, ok}
use worddrop.Protocol.Bytes.{Bytes}
use worddrop.Protocol.Wire.{Json}
use worddrop.Session.{Session}
use worddrop.Session.Control.{End, ControlMessage, hello, accept, protocol_version, send_message}
use worddrop.Pairing.Exchange.Agreement.{peer}
use worddrop.Flows.Talk.{World}

-- A flow in a phase that nobody has cancelled.
abbrev pub world :
    {IoError S : Type 0} → Session → Bytes → End IoError → Bytes → S → World IoError S
world s input ending sent own = record { session = s; peer = peer input ending sent; own = own }

-- The frames of the control messages of a transfer that is accepted.
pub record Framed {E : Type 0} (IoError : Type 0) (json : Json E ControlMessage)
    (offered received : ControlMessage) : Type 0 where
  pub hello_frame : Bytes
  pub offer_frame : Bytes
  pub accept_frame : Bytes
  pub result_frame : Bytes
  pub hello_framed : send_message {IoError = IoError} json (hello protocol_version) ≡ ok hello_frame
  pub offer_framed : send_message {IoError = IoError} json offered ≡ ok offer_frame
  pub accept_framed : send_message {IoError = IoError} json accept ≡ ok accept_frame
  pub result_framed : send_message {IoError = IoError} json received ≡ ok result_frame
