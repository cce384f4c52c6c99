-- ===== src/Examples/Flows.antt =====
-- A send and a receive of one file, which the receiver has already, and flows that end early.
use worddrop.Base.{
  ℕ, zero, suc, ◌+◌, ◌≡◌, refl, ap, sym, Bool, true, false, none, some, List, [], ◌∷◌, ◌++◌, Text,
  codes, Result, ok, err, ok_injective, err-ne-ok, as_bytes, length, ◌%◌, ◌^◌, arith,
}
use worddrop.Protocol.Bytes.{Bytes}
use worddrop.Protocol.Wire.{Json, encode, frame_body}
use worddrop.Session
use worddrop.Session.State.{pending_pair, done}
use worddrop.Session.Control.{
  ControlMessage, hello, offer, accept, decline, cancel, result, FileMeta, closed, End,
  send_message, end_error,
}
use worddrop.Pairing.Spake.{start, finish}
use worddrop.Pairing.WordCode.{password, generate, pick_words}
use worddrop.Pairing.Exchange.Agreement.Onward.{Agreed}
use worddrop.Transfer.Send.Prepare.{PreparedTransfer}
use worddrop.Base.Table.{lookup, insert, remove}
use worddrop.Base.Decimal.{to_string}
use worddrop.Transfer.Record.{load, save, write_tmp, delete}
use worddrop.Transfer.Target.{export_target, push_parts}
use worddrop.Transfer.Progress
use worddrop.Transfer.Receive.{
  receive_resumable, receive_impl, export_files, export_file, save_record,
}
use worddrop.Flows.Send
use worddrop.Flows.Talk.{World}
use worddrop.Flows.Send.{
  Sending, SendOutcome, message, tick, run_send, run_send_inner, transfer_phase, pair,
}
use worddrop.Flows.Send.Release.{published, to_list, run_send_releases}
use worddrop.Flows.Send.Accounting.{run_send_accounts}
use worddrop.Flows.Send.Ticks.{tick_loses}
use worddrop.Pairing.Wordlist.{words as wordlist}
use worddrop.Pairing.Exchange.{PairError}
use worddrop.Pairing.Exchange.Agreement.{peer}
use worddrop.Session.State
use worddrop.Flows.Receive
use worddrop.Flows.Receive.{run_receive, run_receive_inner, await_peer_close}
use worddrop.Flows.Agreement.{world, Framed}
use worddrop.Flows.Agreement.Sender.{moved}
use worddrop.Flows.Agreement.Sender
use worddrop.Flows.Agreement.Receiver
use worddrop.Flows.Agreement.Complete.{Delivers, transfer_completes}
use worddrop.Examples.Exchange
use worddrop.Examples.Transfers
use worddrop.Examples.Codes

-- An offer of one file without a hash has a body.
abbrev offer_body : ℕ → ℕ → Text → Text → List FileMeta → Result Text Bytes
offer_body total size name [] [] = ok (4 ∷ total ∷ size ∷ name)
offer_body total size name (c ∷ hash) files = err []
offer_body total size name [] (f ∷ files) = err []

abbrev to_vec : ControlMessage → Result Text Bytes
to_vec (hello version) = ok (0 ∷ version ∷ [])
to_vec accept = ok (1 ∷ [])
to_vec cancel = ok (2 ∷ [])
to_vec (result a b c d) = ok (3 ∷ a ∷ b ∷ c ∷ d ∷ [])
to_vec (offer [] total) = err []
to_vec (offer (f ∷ files) total) = offer_body total f.size f.name f.hash files
to_vec (decline reason) = ok (5 ∷ reason)

abbrev from_slice : Bytes → Result Text ControlMessage
from_slice (zero ∷ version ∷ []) = ok (hello version)
from_slice (suc zero ∷ []) = ok accept
from_slice (suc (suc zero) ∷ []) = ok cancel
from_slice (suc (suc (suc zero)) ∷ a ∷ b ∷ c ∷ d ∷ []) = ok (result a b c d)
from_slice (suc (suc (suc (suc zero))) ∷ total ∷ size ∷ name) =
    ok (offer (record { name = name; size = size; hash = [] } ∷ []) total)
from_slice (suc (suc (suc (suc (suc zero)))) ∷ reason) = ok (decline reason)
from_slice _ = err []

offer_back :
    (total : ℕ) (f : FileMeta) (hash : Text) (files : List FileMeta) (body : Bytes)
    → f.hash ≡ hash
    → offer_body total f.size f.name hash files ≡ ok body
    → from_slice body ≡ ok (offer (f ∷ files) total)
offer_back total f [] [] body e h = rw (← ok_injective h) (
    ap
      (λ (hash : Text).
        ok (offer (record { name = f.name; size = f.size; hash = hash } ∷ []) total))
      (sym e))
offer_back total f (c ∷ hash) files body e h = absurd (err-ne-ok h)
offer_back total f [] (g ∷ files) body e h = absurd (err-ne-ok h)

pub round_trip :
    (message : ControlMessage) (body : Bytes)
    → to_vec message ≡ ok body
    → from_slice body ≡ ok message
round_trip (hello version) body h = rw (← ok_injective h)
round_trip accept body h = rw (← ok_injective h)
round_trip cancel body h = rw (← ok_injective h)
round_trip (result a b c d) body h = rw (← ok_injective h)
round_trip (offer [] total) body h = absurd (err-ne-ok h)
round_trip (offer (f ∷ files) total) body h = offer_back total f f.hash files body refl h
round_trip (decline reason) body h = rw (← ok_injective h)

abbrev pub json : Json Text ControlMessage
json = record { to_vec = to_vec; from_slice = from_slice; round_trip = round_trip }

abbrev words : Text
words = codes "adroitness-adviser-aftermath"

abbrev prepared : PreparedTransfer Bool (Unit {0})
prepared = record {
  ticket = record { addr = tt; hash = true };
  collection_hash = true;
  files = record { path = codes "a" ∷ []; name = codes "a"; size = 3; hash = false } ∷ [];
  total_bytes = 3;
}

-- Nothing interrupts the sender.
abbrev sender : Send.Env Bool Text Text (Unit {0}) Text Text (Unit {0})
sender = record {
  prepared = ok prepared;
  to_hex = λ h. [];
  ticket_text = λ t. codes "t";
  allocate = λ text. ok 7;
  rounds = 4;
  draw = Codes.draws;
  publish_pairing = λ text n words. ok tt;
  dialled = Send.arrived;
  accepted = Send.opened;
  seed = tt;
  late_hello = false;
  late = false;
  later = false;
  interrupted_offer = false;
  late_response = false;
  served_baseline = 10;
  wakes = tick 12 0 ∷ message false ∷ [];
}

abbrev sending : Sending
sending = record { pairing = some (7, words); positions = []; released = []; shut_down = false }

abbrev pub receiver : Receive.Env Bool Text Text Text Text Text (Unit {0}) Text
receiver = record {
  code = some (codes "7-adroitness-adviser-aftermath");
  prompt = Receive.interrupted;
  interrupted_claim = false;
  claim = λ n words. ok (codes "t");
  parse_ticket = λ t. some t;
  ticket_hash = λ t. true;
  engine_new = ok tt;
  relay_enabled = false;
  relay_late = false;
  output = ok (codes "out");
  dial = Receive.connected;
  open_bi = ok tt;
  late_hello = false;
  interrupted_pairing = none;
  seed = tt;
  late = false;
  later = false;
  interrupted_offer = false;
  late_offer = false;
  auto_accept = some true;
  accept_prompt = Receive.interrupted;
  resume_answer = Receive.missing;
  close_reads = Receive.at_end ∷ [];
  stale_unreadable = none;
  stale_undeleted = none;
  unreadable = none;
  uncreated = none;
  undeleted = none;
}

abbrev frame_of : ControlMessage → Bytes
frame_of (hello v) = 2 ∷ 0 ∷ 0 ∷ 0 ∷ 0 ∷ v ∷ []
frame_of accept = 1 ∷ 0 ∷ 0 ∷ 0 ∷ 1 ∷ []
frame_of (offer files total) = 4 ∷ 0 ∷ 0 ∷ 0 ∷ 4 ∷ total ∷ 3 ∷ codes "a"
frame_of (result a b c d) = 5 ∷ 0 ∷ 0 ∷ 0 ∷ 3 ∷ a ∷ b ∷ c ∷ d ∷ []
frame_of _ = []

abbrev offered : ControlMessage
offered = offer (record { name = codes "a"; size = 3; hash = [] } ∷ []) 3

hello_framed : send_message {IoError = Text} json (hello 1) ≡ ok (frame_of (hello 1))
unfolding send_message encode frame_body
hello_framed = refl

offer_framed : send_message {IoError = Text} json offered ≡ ok (frame_of offered)
unfolding send_message encode frame_body
offer_framed = refl

accept_framed : send_message {IoError = Text} json accept ≡ ok (frame_of accept)
unfolding send_message encode frame_body
accept_framed = refl

result_framed : send_message {IoError = Text} json (result 0 0 3 1) ≡ ok (frame_of (result 0 0 3 1))
unfolding send_message encode frame_body
result_framed = refl

abbrev frames : Framed Text json offered (result 0 0 3 1)
frames = record {
  hello_frame = frame_of (hello 1);
  offer_frame = frame_of offered;
  accept_frame = frame_of accept;
  result_frame = frame_of (result 0 0 3 1);
  hello_framed = hello_framed;
  offer_framed = offer_framed;
  accept_framed = accept_framed;
  result_framed = result_framed;
}

-- Both peers use the words, and derive the toy library's key.
pub derived :
    finish Exchange.library
      (start Exchange.library tt (as_bytes words)).0
      (start Exchange.library tt (as_bytes words)).1
    ≡ ok Exchange.other_key
unfolding finish
derived = refl

abbrev agreed :
    Agreed Exchange.library Exchange.json tt tt (as_bytes words) (as_bytes words) Exchange.other_key
agreed = record {
  frame = Exchange.frame_of Exchange.message;
  frame' = Exchange.frame_of Exchange.message;
  token = Exchange.frame_of Exchange.other_token;
  framed = Exchange.message_framed;
  framed' = Exchange.message_framed;
  confirmed = Exchange.other_framed;
  derived = derived;
  derived' = derived;
}

abbrev pub download : Text → Progress.Env Bool Text Text
download target = record Transfers.env { collection = ok ((codes "a", true) ∷ []) }

abbrev received :
    Result (Progress.ReceiveError Text Text) Progress.TransferResult × Progress.World Bool
received =
    receive_resumable Transfers.hashing Transfers.json Transfers.store (download (codes "out")) none
      none none true (codes "out") Transfers.world

abbrev skipped : Progress.TransferResult
skipped = record { bytes = 0; files = 0; skipped_bytes = 3; skipped = codes "a" ∷ [] }

received_lem : received.0 ≡ ok skipped
unfolding receive_resumable load save write_tmp insert lookup remove to_string receive_impl
    export_files export_file export_target push_parts save_record delete
received_lem = refl

fresh :
    load Transfers.hashing {F = Text} Transfers.json none Transfers.store true
      (codes "out")
      Transfers.world.disk
    ≡ none
unfolding load lookup
fresh = refl

delivers : Delivers prepared skipped
delivers = record {
  all_bytes = refl;
  all_files = refl;
  bytes_fit = omega arith;
  files_fit = omega arith;
}

abbrev pub from_sender : Bytes
from_sender = frame_of (hello 1) ++ (agreed.frame ++ (agreed.token ++ frame_of offered))

abbrev from_receiver : Bytes
from_receiver =
    frame_of (hello 1)
    ++ (agreed.frame' ++ (agreed.token ++ (frame_of accept ++ frame_of (result 0 0 3 1))))

sender-IsSmooth : Sender.IsSmooth sender (12 ∷ []) []
sender-IsSmooth = record {
  hello_in_time = refl;
  first_in_time = refl;
  second_in_time = refl;
  not_interrupted = refl;
  response_in_time = refl;
  woken = refl;
}

receiver-IsSmooth : Receiver.IsSmooth receiver []
receiver-IsSmooth = record {
  hello_in_time = refl;
  pairing_not_interrupted = refl;
  first_in_time = refl;
  second_in_time = refl;
  not_interrupted = refl;
  offer_in_time = refl;
  accepted = refl;
  closed = refl;
}

abbrev pub closed_end : End Text
closed_end = closed

transfer_completes_example :
    (Send.with_stream Text json Exchange.json Exchange.library sender prepared words (
        world
          (record { phase = pending_pair; cancel_tx = false })
          from_receiver
          closed_end
          []
          sending)
      ≡ some (
        ok (SendOutcome.finished 0 0 3 1),
        world
            (record { phase = done; cancel_tx = false })
            []
            closed_end
            from_sender
            (moved Text json Exchange.json Exchange.library sender 3 sending (12 ∷ [])),
      ))
    × (Receive.with_stream Text Text json Exchange.json Exchange.library Transfers.hashing
          Transfers.json Transfers.store download receiver true
          (codes "out")
          words
          (world Session.new from_sender closed_end [] Transfers.world)
        ≡ some (
          ok (Receive.ReceiveOutcome.finished 0 0 3 1),
          world (record { phase = done; cancel_tx = false }) [] closed_end from_receiver received.1,
        ))
transfer_completes_example =
    transfer_completes Text json Exchange.json Exchange.library Transfers.hashing Transfers.json
      Transfers.store download sender receiver closed_end closed_end words words Exchange.other_key
      agreed prepared skipped frames (12 ∷ []) [] sending true (codes "out") Session.new []
      Transfers.world received.1 sender-IsSmooth receiver-IsSmooth fresh
      (ap
        (λ (r : Result (Progress.ReceiveError Text Text) Progress.TransferResult). (r, received.1))
        received_lem)
      delivers

-- The whole send, up to the frames of the receiver.
abbrev at_start : World Text Sending
at_start =
    world Session.new from_receiver closed_end []
      (record { pairing = none; positions = []; released = []; shut_down = false })

abbrev sent_all : World Text Sending
sent_all =
    world (record { phase = done; cancel_tx = false }) [] closed_end from_sender
      (record {
        pairing = some (7, words);
        positions = 2 ∷ [];
        released = (7, words) ∷ [];
        shut_down = true;
      })

run_send_lem :
    run_send Text json Exchange.json Exchange.library sender at_start
    ≡ some (ok (SendOutcome.finished 0 0 3 1), sent_all)
unfolding run_send run_send_inner Session.apply State.transition generate pick_words wordlist
    password
run_send_lem =
    ap (Send.wind_up Text json Exchange.json Exchange.library sender) (transfer_completes_example.0)

run_send_releases_example :
    (sent_all.own.released ≡ to_list (published Text json Exchange.json Exchange.library sender))
    × (sent_all.own.shut_down ≡ true)
run_send_releases_example =
    run_send_releases Text json Exchange.json Exchange.library sender at_start sent_all
      (ok (SendOutcome.finished 0 0 3 1)) run_send_lem

run_send_accounts_example :
    (p : PreparedTransfer Bool (Unit {0})) × (sender.prepared ≡ ok p)
    × ((0 + 3) % 2 ^ 64 ≡ p.total_bytes)
    × ((0 + 1) % 2 ^ 32 ≡ length p.files % 2 ^ 32)
    × (sent_all.session.phase ≡ done)
run_send_accounts_example =
    run_send_accounts Text json Exchange.json Exchange.library sender at_start sent_all 0 0 3 1
      run_send_lem

tick_loses_example :
    transfer_phase Text json Exchange.json Exchange.library sender 3 1
      (tick 12 6 ∷ message false ∷ [])
      (record {
        session = Session.new;
        peer = peer (frame_of (result 0 0 3 1)) closed_end [];
        own = sending;
      })
    ≡ some (
      err (pair (PairError.control (end_error closed_end))),
      record {
        session = Session.new;
        peer = peer (0 ∷ 3 ∷ 1 ∷ []) closed_end [];
        own = record sending { positions = 2 ∷ [] };
      },
    )
tick_loses_example =
    tick_loses Text json Exchange.json Exchange.library sender 3 1 12 6 [] Session.new
      (frame_of (result 0 0 3 1)) [] closed_end sending (omega arith)
