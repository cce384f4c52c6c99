-- ===== src/Flows/Receive.antt =====
-- The receive flow, crates/cli/src/receive.rs. What the rendezvous, the engine, the timers and the
-- user answer is in `Env`; the download is that of crates/core/src/transfer/receive.rs, on its
-- disk. Messages to the terminal are left out.
pub mod Consent
use worddrop.Base.{
  ℕ, ◌+◌, ◌-◌, ◌%◌, ◌^◌, Bool, true, false, not, ◌&&◌, ◌||◌, List, [], ◌∷◌, ◌++◌, map, length,
  Option, none, some, Text, codes, as_bytes, is_empty, trim, text_eq, Result, ok, err, leb,
  if◌then◌else◌,
}
use worddrop.Protocol.Bytes.{Bytes}
use worddrop.Protocol.Wire.{Json}
use worddrop.Session
use worddrop.Session.State.{
  Transition, start_pairing, pair_confirmed, transfer_started, completed, TransitionError,
}
use worddrop.Session.Control.{
  broken, handshake_timeout, protocol_version, ControlMessage, hello, offer, accept, decline,
  cancel, result, FileMeta, SessionError, recv_message_timeout,
}
use worddrop.Pairing.Handshake.{HandshakeMessage}
use worddrop.Pairing.Spake.{Library}
use worddrop.Pairing.WordCode.{WordCodeError, split_code}
use worddrop.Pairing.Exchange.{PairError, io, hung, spake_receiver_side}
use worddrop.Transfer.Record.{Hashing, TransferRecord, RecordStore, load, delete}
use worddrop.Transfer.Progress.{TransferResult, ReceiveError, target_dir_resolve}
use worddrop.Transfer.Progress
use worddrop.Transfer.Receive.{receive_resumable}
use worddrop.Flows.Talk.{
  World, Flow, ◌>>=◌, ◌>>◌, return, fail, lift, transition, cancel_session, talk, receive, send,
  try_send, written,
}

-- `ReceiveOutcome`
pub data ReceiveOutcome : Type 0 where
  finished : ℕ → ℕ → ℕ → ℕ → ReceiveOutcome
  declined cancelled : ReceiveOutcome

-- `RecvError`
pub data RecvError (E IoError P F X Rv En C : Type 0) : Type 0 where
  word : WordCodeError → RecvError E IoError P F X Rv En C
  rv : Rv → RecvError E IoError P F X Rv En C
  ticket : Text → RecvError E IoError P F X Rv En C
  engine : En → RecvError E IoError P F X Rv En C
  relay_hung no_code : RecvError E IoError P F X Rv En C
  pair : PairError E IoError P → RecvError E IoError P F X Rv En C
  control : SessionError E IoError → RecvError E IoError P F X Rv En C
  transition_failed : TransitionError → RecvError E IoError P F X Rv En C
  unexpected_message : ControlMessage → RecvError E IoError P F X Rv En C
  receive_failed : ReceiveError F X → RecvError E IoError P F X Rv En C
  connection : C → RecvError E IoError P F X Rv En C
  timed_out : Text → RecvError E IoError P F X Rv En C

-- A line that was asked for: typed, missing at the end of the input or of the time, or unreadable.
pub data Line : Type 0 where
  typed : Text → Line
  missing unreadable : Line

pub data Prompt : Type 0 where
  interrupted : Prompt
  answered : Line → Prompt

pub data Dial (IoError : Type 0) : Type 0 where
  interrupted too_late connected : Dial IoError
  refused : IoError → Dial IoError

-- One read while a peer is waited for to close.
pub data CloseRead : Type 0 where
  late failed at_end more : CloseRead

pub record Env (Hash F Rv En C IoError Seed Ticket : Type 0) : Type 0 where
  pub code : Option Text
  pub prompt : Prompt
  pub interrupted_claim : Bool
  pub claim : ℕ → Text → Result Rv Text
  pub parse_ticket : Text → Option Ticket
  pub ticket_hash : Ticket → Hash
  pub engine_new : Result En (Unit {0})
  pub relay_enabled : Bool
  pub relay_late : Bool
  pub output : Result F Text
  pub dial : Dial IoError
  pub open_bi : Result C (Unit {0})
  pub late_hello : Bool
  -- What the pairing had sent when it was interrupted.
  pub interrupted_pairing : Option Bytes
  pub seed : Seed
  pub late : Bool
  pub later : Bool
  pub interrupted_offer : Bool
  pub late_offer : Bool
  pub auto_accept : Option Bool
  pub accept_prompt : Prompt
  pub resume_answer : Line
  pub close_reads : List CloseRead
  -- The faults of the resume prompt's load and delete, and of the download.
  pub stale_unreadable : Option F
  pub stale_undeleted : Option F
  pub unreadable : Option F
  pub uncreated : Option F
  pub undeleted : Option F

-- `line.trim().to_lowercase()` is `y` or `yes`; no letter but these and their capitals has one of
-- them as its lower case.
abbrev pub to_lower : ℕ → ℕ
to_lower c = if leb b'A' c && leb c b'Z' then c + 32 else c

unfoldable pub says_yes : Line → Bool
says_yes (typed line) =
    let trimmed = map to_lower (trim line) in
    text_eq trimmed (codes "y") || text_eq trimmed (codes "yes")
says_yes missing = false
says_yes unreadable = false

module _ (IoError X : Type 0) {E P Hash F Rv En C Seed Inner Ticket : Type 0}
    (json : Json E ControlMessage) (handshakes : Json E HandshakeMessage)
    (library : Library Seed Inner P) (hashing : Hashing Hash)
    (records : Json E (TransferRecord Hash)) (store : RecordStore)
    (download : Text → Progress.Env Hash F X) (env : Env Hash F Rv En C IoError Seed Ticket) where
  abbrev pub Run : Type 0 → Type 0
  Run A = Flow IoError (Progress.World Hash) (RecvError E IoError P F X Rv En C) A

  abbrev pub cancel_both : Run ReceiveOutcome
  cancel_both = try_send json cancel >> cancel_session transition_failed >> return cancelled

  -- `await_peer_close`, for as long as something is read.
  unfoldable pub await_peer_close : Text → List CloseRead → Run (Unit {0})
  await_peer_close what [] w = none
  await_peer_close what (late ∷ reads) w = fail (pair (hung what)) w
  await_peer_close what (failed ∷ reads) w = return tt w
  await_peer_close what (at_end ∷ reads) w = return tt w
  await_peer_close what (more ∷ reads) w = await_peer_close what reads w

  abbrev pub forget_record : Hash → Run (Unit {0})
  forget_record h w = some (
    ok tt,
    record w {
      own = record w.own {
        disk = (delete hashing records env.stale_undeleted store h w.own.disk).1;
      };
    },
  )

  abbrev pub if_recorded : Hash → Option (TransferRecord Hash) → Run (Unit {0})
  if_recorded h none = return tt
  if_recorded h (some r) = if says_yes env.resume_answer then return tt else forget_record h

  -- `check_resume`
  unfoldable pub check_resume : Hash → Text → Run (Unit {0})
  check_resume h target w =
      if_recorded h (load hashing records env.stale_unreadable store h target w.own.disk) w

  abbrev pub on_received : Result (ReceiveError F X) TransferResult → Run ReceiveOutcome
  on_received (ok r) =
      send json control
        (result r.bytes (r.files % 2 ^ 32) r.skipped_bytes (length r.skipped % 2 ^ 32))
      >> await_peer_close (codes "sender to close after result") env.close_reads
      >> transition transition_failed completed
      >> return (finished r.bytes r.files r.skipped_bytes (length r.skipped))
  on_received (err e) =
      try_send json cancel >> cancel_session transition_failed >> fail (receive_failed e)

  abbrev pub with_download :
      World IoError (Progress.World Hash)
      → Result (ReceiveError F X) TransferResult × Progress.World Hash
      → Option (
          Result (RecvError E IoError P F X Rv En C) ReceiveOutcome
          × World IoError (Progress.World Hash))
  with_download w (r, disk) = on_received r (record w { own = disk })

  abbrev pub run_download : Hash → Text → Run ReceiveOutcome
  run_download h target w = with_download w (
      receive_resumable hashing records store (download target) env.unreadable env.uncreated
        env.undeleted h target w.own)

  abbrev pub on_answer : Hash → Text → Bool → Run ReceiveOutcome
  on_answer h target false =
      send json control (decline (codes "user declined"))
      >> await_peer_close (codes "sender to close after decline") env.close_reads
      >> return declined
  on_answer h target true =
      send json control accept
      >> transition transition_failed transfer_started
      >> check_resume h target
      >> run_download h target

  abbrev pub on_prompt : Hash → Text → Option Bool → Prompt → Run ReceiveOutcome
  on_prompt h target (some accepted) prompt = on_answer h target accepted
  on_prompt h target none interrupted = cancel_both
  on_prompt h target none (answered line) = on_answer h target (says_yes line)

  abbrev pub on_offer : Hash → Text → ControlMessage → Run ReceiveOutcome
  on_offer h target (offer files total) = on_prompt h target env.auto_accept env.accept_prompt
  on_offer h target other = fail (unexpected_message other)

  abbrev pub wait_offer : Hash → Text → Run ReceiveOutcome
  wait_offer h target =
      if env.interrupted_offer
      then cancel_both
      else (receive control
            (recv_message_timeout json env.late_offer (codes "sender offer") handshake_timeout)
          >>= on_offer h target)

  abbrev pub new_session : Run (Unit {0})
  new_session w = some (ok tt, record w { session = Session.new })

  abbrev pub paired : Hash → Text → Run ReceiveOutcome
  paired h target =
      new_session
      >> transition transition_failed start_pairing
      >> transition transition_failed pair_confirmed
      >> wait_offer h target

  abbrev pub with_pairing : Hash → Text → Text → Option Bytes → Run ReceiveOutcome
  with_pairing h target words (some part) w =
      (try_send json cancel >> return cancelled) (written w part)
  with_pairing h target words none w =
      (talk pair
            (spake_receiver_side handshakes library env.late env.later env.seed (as_bytes words))
          >>= λ key. paired h target)
        w

  abbrev pub say_hello : Run ControlMessage
  say_hello =
      send json control (hello protocol_version)
      >> receive control
          (recv_message_timeout json env.late_hello (codes "sender hello") handshake_timeout)

  abbrev pub with_stream : Hash → Text → Text → Run ReceiveOutcome
  with_stream h target words =
      say_hello >>= λ theirs. with_pairing h target words env.interrupted_pairing

  abbrev pub with_dial : Hash → Text → Text → Dial IoError → Run ReceiveOutcome
  with_dial h target words interrupted = return cancelled
  with_dial h target words too_late = fail (timed_out (codes "connect to sender"))
  with_dial h target words (refused e) = fail (pair (io (broken e)))
  with_dial h target words connected = lift connection env.open_bi >> with_stream h target words

  -- `run_receive_inner`
  unfoldable pub run_receive_inner : Ticket → Text → Run ReceiveOutcome
  run_receive_inner t words =
      lift (λ f. receive_failed (target_dir_resolve f)) env.output >>= λ target.
      with_dial (env.ticket_hash t) target words env.dial

  abbrev pub with_engine : Ticket → Text → Run ReceiveOutcome
  with_engine t words =
      lift engine env.engine_new
      >> (if env.relay_enabled && env.relay_late
          then fail relay_hung
          else run_receive_inner t words)

  abbrev pub with_ticket : Text → Text → Option Ticket → Run ReceiveOutcome
  with_ticket words text none = fail (ticket text)
  with_ticket words text (some t) = with_engine t words

  abbrev pub claimed : ℕ × Text → Run ReceiveOutcome
  claimed (nameplate, words) =
      if env.interrupted_claim
      then return cancelled
      else (lift rv (env.claim nameplate words) >>= λ text.
          with_ticket words text (env.parse_ticket text))

  abbrev pub with_code : Text → Run ReceiveOutcome
  with_code code =
      if is_empty (trim code)
      then fail no_code
      else (lift word (split_code (trim code)) >>= claimed)

  abbrev pub asked : Prompt → Run ReceiveOutcome
  asked interrupted = return cancelled
  asked (answered (typed line)) = with_code line
  asked (answered missing) = fail no_code
  asked (answered unreadable) = fail no_code

  abbrev pub code_or_asked : Option Text → Prompt → Run ReceiveOutcome
  code_or_asked (some code) prompt = with_code code
  code_or_asked none prompt = asked prompt

  -- `run_receive`
  unfoldable pub run_receive : Run ReceiveOutcome
  run_receive = code_or_asked env.code env.prompt
