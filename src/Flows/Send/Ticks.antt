-- ===== src/Flows/Send/Ticks.antt =====
-- What a tick does to the read that it drops, crates/cli/src/send/transfer.rs.
use worddrop.Base.{
  ℕ, zero, suc, ◌+◌, ◌-◌, ◌<◌, ◌≡◌, false, List, [], ◌∷◌, ◌++◌, length, drop, some, err, arith,
}
use worddrop.Protocol.Bytes.{Bytes}
use worddrop.Protocol.Wire.{Json}
use worddrop.Session.{Session}
use worddrop.Session.Control.{End, ControlMessage, end_error, recv_message, recv_message_timeout}
use worddrop.Session.Control.Streams.{read_exact_short}
use worddrop.Pairing.Handshake.{HandshakeMessage}
use worddrop.Pairing.Spake.{Library}
use worddrop.Pairing.Exchange.{PairError, recv_message_idle}
use worddrop.Pairing.Exchange.Agreement.{peer}
use worddrop.Transfer.Progress.{at_most}
use worddrop.Flows.Send.{Wake, message, tick, Sending, pair, Env, transfer_phase}

length-drop : {A : Type 0} (n : ℕ) (xs : List A) → length (drop n xs) ≡ length xs - n
length-drop zero xs = omega arith
length-drop (suc n) [] = omega arith
length-drop (suc n) (x ∷ xs) = omega (arith, length-drop n xs)

module _ (IoError : Type 0) {E P Hash F X Addr Rv C Seed Inner : Type 0}
    (json : Json E ControlMessage) (handshakes : Json E HandshakeMessage)
    (library : Library Seed Inner P) (env : Env Hash F X Addr Rv C Seed) where
  -- A tick that drops a read which has taken all of the receiver's last bytes but three at most
  -- makes the transfer fail with the end of the stream, whatever these bytes are: also when they
  -- are the whole frame of a result that accounts for everything.
  pub tick_loses :
      (total count served n : ℕ) (wakes : List Wake) (s : Session) (frame sent : Bytes)
      (ending : End IoError) (own : Sending)
      → length frame < n + 4
      → transfer_phase IoError json handshakes library env total count
          (tick served n ∷ message false ∷ wakes)
          (record { session = s; peer = peer frame ending sent; own = own })
        ≡ some (
          err (pair (PairError.control (end_error ending))),
          record {
            session = s;
            peer = peer (drop n frame) ending sent;
            own = record own {
              positions = own.positions ++ at_most total (served - env.served_baseline) ∷ [];
            };
          },
        )
  unfolding transfer_phase recv_message_idle recv_message_timeout recv_message
  tick_loses total count served n wakes s frame sent ending own h =
      let short : length (drop n frame) < 4 = omega (arith, length-drop {A = ℕ} n frame) in
      rw (read_exact_short {E = E} 4 (record { input = drop n frame; at_end = ending }) short)
