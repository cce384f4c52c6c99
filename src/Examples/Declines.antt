-- ===== src/Examples/Declines.antt =====
-- A receiver that declines what the sender of Flows offers.
use worddrop.Base.{◌≡◌, refl, Bool, false, Option, none, some, [], Text, Result, ok}
use worddrop.Protocol.Wire.{encode, decode, frame_body}
use worddrop.Session
use worddrop.Session.State.{pending_pair, done}
use worddrop.Session.Control.{
  send_message, recv_message, recv_message_timeout, read_exact, check_version,
}
use worddrop.Pairing.Spake.{finish, constant_time_eq, differing, verify_confirm}
use worddrop.Pairing.Handshake.{
  hex_encode, hex_val, decode_pairs, hex_decode, hex_decode_array, into_pake, into_confirm,
  new_spake, new_confirm,
}
use worddrop.Pairing.WordCode.{
  split_code, split_parts, split_once, parse_nameplate, number_in_range,
}
use worddrop.Base.Decimal.{parse_u32, parse_digits}
use worddrop.Transfer.Progress
use worddrop.Flows.Talk.{World}
use worddrop.Pairing.Exchange.{spake_receiver_side, recv_handshake, read_bytes}
use worddrop.Session.State
use worddrop.Flows.Receive
use worddrop.Flows.Receive.{run_receive, run_receive_inner, await_peer_close}
use worddrop.Flows.Receive.Consent.{refused_keeps}
use worddrop.Flows.Agreement.{world}
use worddrop.Examples.Exchange
use worddrop.Examples.Transfers
use worddrop.Examples.Flows.{json, download, receiver, from_sender, closed_end}

-- The same receiver, but that it declines.
abbrev unwilling : Receive.Env Bool Text Text Text Text Text (Unit {0}) Text
unwilling = record receiver { auto_accept = some false }

abbrev declined_run : Option (
    Result (Receive.RecvError Text Text Text Text Text Text Text Text) Receive.ReceiveOutcome
    × World Text (Progress.World Bool))
declined_run =
    run_receive Text Text json Exchange.json Exchange.library Transfers.hashing Transfers.json
      Transfers.store download unwilling
      (world Session.new from_sender closed_end [] Transfers.world)

abbrev world_of :
    Option (
      Result (Receive.RecvError Text Text Text Text Text Text Text Text) Receive.ReceiveOutcome
      × World Text (Progress.World Bool))
    → World Text (Progress.World Bool)
world_of none = world Session.new [] closed_end [] Transfers.world
world_of (some (r, w)) = w

declined_lem : declined_run ≡ some (ok Receive.declined, world_of declined_run)
unfolding run_receive run_receive_inner split_code split_parts split_once parse_nameplate
    number_in_range parse_u32 parse_digits recv_message_timeout recv_message read_exact
    check_version await_peer_close send_message encode decode frame_body spake_receiver_side
    recv_handshake read_bytes hex_encode hex_val decode_pairs hex_decode hex_decode_array into_pake
    into_confirm new_spake new_confirm constant_time_eq differing finish verify_confirm
    Session.apply State.transition
declined_lem = refl

refused_keeps_example : (world_of declined_run).own ≡ Transfers.world
refused_keeps_example =
    refused_keeps Text Text json Exchange.json Exchange.library Transfers.hashing Transfers.json
      Transfers.store download unwilling
      (world Session.new from_sender closed_end [] Transfers.world) (world_of declined_run)
      (ok Receive.declined) refl declined_lem
