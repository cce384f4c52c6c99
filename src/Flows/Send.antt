-- ===== src/Flows/Send.antt =====
-- The send flow, crates/cli/src/send/mod.rs and send/transfer.rs. What the engine, the rendezvous,
-- the random generator, the timers and the user's interrupt answer is in `Env`. Progress output is
-- left out, but for the positions of the transfer bar.
pub mod Release
pub mod Accounting
pub mod Ticks
use worddrop.Base.{
  ℕ, ◌+◌, ◌-◌, ◌%◌, ◌^◌, Bool, true, false, ◌&&◌, List, [], ◌∷◌, ◌++◌, map, length, drop, Option,
  none, some, Text, codes, as_bytes, Result, ok, err, ◌==◌, if◌then◌else◌,
}
use worddrop.Protocol.Wire.{Json}
use worddrop.Session
use worddrop.Session.State.{
  Transition, start_pairing, pair_confirmed, transfer_started, completed, TransitionError,
}
use worddrop.Session.Control.{
  ControlMessage, offer, accept, decline, cancel, result, FileMeta, SessionError,
}
use worddrop.Pairing.Handshake.{HandshakeMessage}
use worddrop.Pairing.Spake.{Library}
use worddrop.Pairing.WordCode.{WordCode, WordCodeError, generate, password}
use worddrop.Pairing.Exchange.{PairError, spake_sender_side, recv_hello, recv_message_idle}
use worddrop.Transfer.Progress.{at_most}
use worddrop.Transfer.Send
use worddrop.Transfer.Send.Prepare.{PreparedFile, PreparedTransfer, Ticket}
use worddrop.Flows.Talk.{
  World, Flow, ◌>>=◌, ◌>>◌, return, fail, lift, transition, cancel_session, talk, receive, send,
  try_send,
}

-- `SendOutcome`: the bytes, the files, the skipped bytes and the skipped files of a completed one.
pub data SendOutcome : Type 0 where
  finished : ℕ → ℕ → ℕ → ℕ → SendOutcome
  declined : Text → SendOutcome
  cancelled : SendOutcome

-- `SendError`; a mismatch has the expected bytes and files, and those received.
pub data SendError (E IoError P F X Rv C : Type 0) : Type 0 where
  prepare : Send.SendError F X → SendError E IoError P F X Rv C
  rv publish : Rv → SendError E IoError P F X Rv C
  word : WordCodeError → SendError E IoError P F X Rv C
  pair : PairError E IoError P → SendError E IoError P F X Rv C
  control : SessionError E IoError → SendError E IoError P F X Rv C
  transition_failed : TransitionError → SendError E IoError P F X Rv C
  connection : C → SendError E IoError P F X Rv C
  acceptor_closed : SendError E IoError P F X Rv C
  unexpected_message : ControlMessage → SendError E IoError P F X Rv C
  result_mismatch : ℕ → ℕ → ℕ → ℕ → SendError E IoError P F X Rv C
  hung : Text → SendError E IoError P F X Rv C

-- What ends the wait for the receiver, and the wait for its control stream.
pub data Dialled : Type 0 where
  interrupted too_late closed arrived : Dialled

pub data Accepted (C : Type 0) : Type 0 where
  too_late opened : Accepted C
  failed : C → Accepted C

-- What wakes the select of the transfer phase: the interrupt; the read of a message, whose timer
-- may have run out; or a tick, with the bytes served so far. A tick drops the read that is pending,
-- and with it the bytes that the read had taken off the stream.
pub data Wake : Type 0 where
  interrupted : Wake
  message : Bool → Wake
  tick : ℕ → ℕ → Wake

pub record Env (Hash F X Addr Rv C Seed : Type 0) : Type 0 where
  pub prepared : Result (Send.SendError F X) (PreparedTransfer Hash Addr)
  pub to_hex : Hash → Text
  pub ticket_text : Ticket Hash Addr → Text
  pub allocate : Text → Result Rv ℕ
  pub rounds : ℕ
  pub draw : ℕ → ℕ
  pub publish_pairing : Text → ℕ → Text → Result Rv (Unit {0})
  pub dialled : Dialled
  pub accepted : Accepted C
  pub seed : Seed
  pub late_hello : Bool
  pub late : Bool
  pub later : Bool
  pub interrupted_offer : Bool
  pub late_response : Bool
  pub served_baseline : ℕ
  pub wakes : List Wake

-- What a send keeps: the pairing to release, the positions of the bar, the pairings that were
-- released, and whether the engine is shut down.
pub record Sending : Type 0 where
  pub pairing : Option (ℕ × Text)
  pub positions : List ℕ
  pub released : List (ℕ × Text)
  pub shut_down : Bool

-- `result_matches`; the sums of `u64` and `u32` wrap.
unfoldable pub result_matches : ℕ → ℕ → ℕ → ℕ → ℕ → ℕ → Bool
result_matches bytes files skipped_bytes skipped_files total file_count =
    (bytes + skipped_bytes) % 2 ^ 64 == total && (files + skipped_files) % 2 ^ 32 == file_count

module _ (IoError : Type 0) {E P Hash F X Addr Rv C Seed Inner : Type 0}
    (json : Json E ControlMessage) (handshakes : Json E HandshakeMessage)
    (library : Library Seed Inner P) (env : Env Hash F X Addr Rv C Seed) where
  abbrev pub Run : Type 0 → Type 0
  Run A = Flow IoError Sending (SendError E IoError P F X Rv C) A

  abbrev pub set_position : ℕ → Run (Unit {0})
  set_position n w =
      some (ok tt, record w { own = record w.own { positions = w.own.positions ++ n ∷ [] } })

  -- The bytes that a read had taken when it was dropped.
  abbrev pub lose : ℕ → Run (Unit {0})
  lose n w = some (
    ok tt,
    record w {
      peer = record {
        reader = record { input = drop n w.peer.reader.input; at_end = w.peer.reader.at_end };
        sent = w.peer.sent;
      };
    },
  )

  abbrev pub cancel_both : Run SendOutcome
  cancel_both = try_send json cancel >> cancel_session transition_failed >> return cancelled

  abbrev pub receive_idle : Bool → Text → Run ControlMessage
  receive_idle late what = receive pair (recv_message_idle P json late what)

  abbrev pub on_result : ℕ → ℕ → ℕ → ℕ → ℕ → ℕ → Run SendOutcome
  on_result total file_count bytes files skipped_bytes skipped_files =
      if result_matches bytes files skipped_bytes skipped_files total file_count
      then (transition transition_failed completed
          >> return (finished bytes files skipped_bytes skipped_files))
      else fail (result_mismatch total file_count bytes files)

  abbrev pub on_message : ℕ → ℕ → ControlMessage → Run SendOutcome
  on_message total file_count (result b f sb sf) = on_result total file_count b f sb sf
  on_message total file_count cancel = cancel_session transition_failed >> return cancelled
  on_message total file_count other = fail (unexpected_message other)

  -- `transfer_phase`, for as long as something wakes it.
  unfoldable pub transfer_phase : ℕ → ℕ → List Wake → Run SendOutcome
  transfer_phase total file_count [] w = none
  transfer_phase total file_count (interrupted ∷ wakes) w = cancel_both w
  transfer_phase total file_count (message late ∷ wakes) w =
      (receive_idle late (codes "transfer result or cancel") >>= on_message total file_count) w
  transfer_phase total file_count (tick served lost ∷ wakes) w =
      (lose lost
          >> set_position (at_most total (served - env.served_baseline))
          >> transfer_phase total file_count wakes)
        w

  abbrev pub on_response : ℕ → ℕ → ControlMessage → Run SendOutcome
  on_response total file_count accept =
      transition transition_failed transfer_started >> transfer_phase total file_count env.wakes
  on_response total file_count (decline reason) = return (declined reason)
  on_response total file_count cancel = cancel_session transition_failed >> return cancelled
  on_response total file_count other = fail (unexpected_message other)

  abbrev pub file_meta : PreparedFile Hash → FileMeta
  file_meta f = record { name = f.name; size = f.size; hash = env.to_hex f.hash }

  abbrev pub wait_response : PreparedTransfer Hash Addr → Run SendOutcome
  wait_response p =
      if env.interrupted_offer
      then cancel_both
      else (receive_idle env.late_response (codes "offer response")
          >>= on_response p.total_bytes (length p.files % 2 ^ 32))

  abbrev pub make_offer : PreparedTransfer Hash Addr → Run SendOutcome
  make_offer p =
      transition transition_failed pair_confirmed
      >> send json control (offer (map file_meta p.files) p.total_bytes)
      >> wait_response p

  abbrev pub after_hello : PreparedTransfer Hash Addr → Text → ControlMessage → Run SendOutcome
  after_hello p words ours =
      send json control ours
      >> talk pair
          (spake_sender_side handshakes library env.late env.later env.seed (as_bytes words))
      >>= λ key. make_offer p

  -- From the control stream to the end: hello, pairing, offer, answer.
  abbrev pub with_stream : PreparedTransfer Hash Addr → Text → Run SendOutcome
  with_stream p words = receive pair (recv_hello P json env.late_hello) >>= after_hello p words

  -- `accept_control_stream`
  abbrev pub accept_control_stream : Accepted C → Run (Unit {0})
  accept_control_stream too_late = fail (hung (codes "receiver to open the control stream"))
  accept_control_stream (failed e) = fail (connection e)
  accept_control_stream opened = return tt

  abbrev pub wait_receiver : PreparedTransfer Hash Addr → Text → Dialled → Run SendOutcome
  wait_receiver p words interrupted = return cancelled
  wait_receiver p words too_late = fail (hung (codes "receiver to dial in with the pairing code"))
  wait_receiver p words closed = fail acceptor_closed
  wait_receiver p words arrived = accept_control_stream env.accepted >> with_stream p words

  abbrev pub set_pairing : ℕ → Text → Run (Unit {0})
  set_pairing n words w =
      some (ok tt, record w { own = record w.own { pairing = some (n, words) } })

  abbrev pub drawn : Option (Result WordCodeError WordCode) → Run WordCode
  drawn none w = none
  drawn (some r) w = lift word r w

  abbrev pub generated : ℕ → Run WordCode
  generated n = drawn (generate env.rounds n env.draw)

  abbrev pub with_code : PreparedTransfer Hash Addr → ℕ → WordCode → Run SendOutcome
  with_code p n code =
      lift publish (env.publish_pairing (env.ticket_text p.ticket) n (password code))
      >> set_pairing n (password code)
      >> wait_receiver p (password code) env.dialled

  abbrev pub with_number : PreparedTransfer Hash Addr → ℕ → Run SendOutcome
  with_number p n = generated n >>= with_code p n

  abbrev pub with_prepared : PreparedTransfer Hash Addr → Run SendOutcome
  with_prepared p = lift rv (env.allocate (env.ticket_text p.ticket)) >>= with_number p

  -- `run_send_inner`
  unfoldable pub run_send_inner : Run SendOutcome
  run_send_inner =
      transition transition_failed start_pairing >> lift prepare env.prepared >>= with_prepared

  -- What follows on every end: the release of the pairing, if there is one, and the shutdown.
  abbrev pub release : Option (ℕ × Text) → Sending → Sending
  release none s = record s { shut_down = true }
  release (some pairing) s = record s { released = s.released ++ pairing ∷ []; shut_down = true }

  abbrev pub wind_up :
      Option (Result (SendError E IoError P F X Rv C) SendOutcome × World IoError Sending)
      → Option (Result (SendError E IoError P F X Rv C) SendOutcome × World IoError Sending)
  wind_up none = none
  wind_up (some (outcome, w)) = some (outcome, record w { own = release w.own.pairing w.own })

  abbrev pub started : World IoError Sending → World IoError Sending
  started w = record w {
    session = Session.new;
    own = record { pairing = none; positions = []; released = []; shut_down = false };
  }

  -- `run_send`
  unfoldable pub run_send : Run SendOutcome
  run_send w = wind_up (run_send_inner (started w))
