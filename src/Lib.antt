-- ===== src/Lib.antt =====
-- Worddrop: files from one peer to another by a code of a number and three words. A sender gets a
-- number, the nameplate, from the rendezvous server, which keeps the sender's ticket under it; the
-- receiver claims the ticket once. The words are the password of a SPAKE2 exchange between the
-- peers, who then talk in framed control messages, move through the phases of a session, and
-- transfer a collection of files.
--
-- The files, and the code they model:
--
--   Base             Texts as lists of code points, results, tables for hash maps, decimal numbers,
--                    `split` and `join`: what the program uses of Rust's standard library.
--   Rendezvous       crates/rendezvous/src/mailbox.rs and lib.rs.
--     Nameplate      `Nameplate::parse`.
--     Mailbox        `Mailbox`: allocate, claim, status, purge_expired. View, Allocation and Runs
--                    are its theorems for one operation, for allocation, and for runs.
--     RateLimiter    `RateLimiter::check`; Sliding compares it with the history of all accesses.
--     Api            `AppState` and the handlers allocate, claim, status, health, and one round of
--                    `cleanup_task` of crates/rendezvous/src/server.rs; Api/Metrics is `metrics`.
--                    A handler is a function from the state to an answer and a state.
--   Pairing          crates/core/src/pairing.
--     Wordlist       wordlist.rs, and WordCode wordcode.rs: validate, split, generate, password.
--     Handshake      handshake.rs, with the hexadecimal coding.
--     Spake          spake.rs; Compare is about `constant_time_eq`.
--     Exchange       crates/cli/src/wire.rs: both sides of the pairing exchange, each a function
--                    of the bytes that the other sent.
--   Protocol         crates/core/src/protocol/wire.rs: `WireMessage::encode` and `decode`.
--   Session          crates/core/src/session.rs, session/state.rs (State), session/control.rs
--                    (Control). Cancel has the interleavings of transitions and cancellers.
--   Transfer         crates/core/src/transfer.
--     Files          The file operations, each with a fault that it may meet.
--     Record         record.rs: `TransferRecord` and `RecordStore`.
--     Target         `export_target` of receive.rs.
--     Progress       The types that a receive reports and answers with.
--     Receive        receive.rs and receive/core.rs: the whole receive, with its two loops;
--                    Downloads is about the reports of the download loop.
--     Send           send.rs: `walk_files`, and `prepare_send` in Prepare. Walk and Names compare
--                    a walk with a tree of files; Inventory and Complete are about `prepare_send`.
--   Flows            The two flows of the command line, over the session and the control stream.
--     Talk           What both do, as steps that may fail; Keeps has what they leave unchanged.
--     Send           crates/cli/src/send/mod.rs and send/transfer.rs: `run_send` to
--                    `transfer_phase`. Release, Accounting and Ticks are its theorems.
--     Receive        crates/cli/src/receive.rs: `run_receive` to the result, with
--                    `await_peer_close` of wire.rs; Consent is about an offer that is refused.
--     Agreement      Both flows, each on what the other sends.
--   Client           crates/cli/src/rendezvous_client.rs: the errors and `RvClient::new`; Dispatch
--                    has the methods of `RvClient`.
--     Http           `HttpBackend`: requests, the reading of responses (Response) and the calls
--                    (Answers).
--     Mqtt           `MqttBackend`, with the events of the broker as a list; Claims and Delivery
--                    are about the ticket that a claim returns.
--   Config           crates/cli/src/config.rs: `set`, `resolve`, `field`; File has `load_from` and
--                    `save_to`.
--   Terminal         crates/cli/src/ui.rs: `PlainBar`, the progress lines without a terminal; Steps
--                    counts them.
--   App              flutter/rust/src/api: Events has the events of events.rs that are made here,
--                    Sessions has session.rs. Flows has the steps of flows.rs on the session, its
--                    stage, events and the channel of the commands; they come in any order, so
--                    that a flow of the program is one of many. Runs has sequences of calls and of such steps, with
--                    what they keep; Starts and Order count the commands, Disposal is about ids.
--   Examples         Each theorem of the results at one concrete input.
--
-- How they interact: the handlers of Api run the operations of Mailbox and RateLimiter on their
-- part of the state, with the poisoning of each lock as a flag. Control frames its messages by
-- Wire. Receive saves its progress by Record and places files by Target. The flows run Session,
-- Exchange and Control, Flows/Receive also the whole of Transfer/Receive on its disk; what the
-- rendezvous client and `prepare_send` answer is in their environments. The sessions of App hold a
-- Session; the steps of their flows are among those of the runs.
--
-- Bounds and fuel. Numbers are natural numbers; counters of 64 bits wrap by `% 2 ^ 64`, the length
-- prefix of a frame by `% 2 ^ 32`, bytes of the hexadecimal coding by `% 256`. Instants are whole
-- nanoseconds. The loops of `Mailbox::allocate` and `WordCode::generate` draw from a random
-- generator: here they draw from a sequence and have a number of rounds, and give no result when
-- the rounds run out: the loop of the program is the same for every number of rounds that reaches
-- its end. The loop of `walk_files` has a number of rounds, and on a tree it ends when they are
-- more than its paths. The select of `transfer_phase`, the reads of `await_peer_close` and the
-- events of the broker are lists: a flow whose list ends waits for ever, and gives no result; a
-- broker's ends when the time of the client is over. All other loops are structural.
--
-- Parameters, for code that is not in the repository: the JSON and TOML libraries (Wire.Json, with
-- the round trip as the law), the random generators, the clocks, the hashes of the blob store
-- (Record.Hashing), the SPAKE2 and HKDF libraries (Spake.Library), the answers of the endpoint and
-- of the blob store (Progress.Env, Prepare.Importer), the file system that is sent, the URL library,
-- the password hash of the topics, the connection of an HTTP exchange, the timers and interrupts of
-- the flows (Env of Flows/Send and Flows/Receive), floating-point numbers (Terminal.Floats), and the
-- errors of libraries.
--
-- Not modelled: the HTTP router and the JSON bodies, logging, the setting up of the transfer engine,
-- the identity of a peer, the commands and the bars of the command line, and of the app its cache,
-- its settings, and what its flows do over the network and on the disk.
-- Handlers run one at a time; directories are not on the disk of a receiver. In the flows writes
-- to the control stream do not fail.
pub mod Base
pub mod Rendezvous
pub mod Pairing
pub mod Protocol
pub mod Session
pub mod Transfer
pub mod Flows
pub mod Client
pub mod Config
pub mod Terminal
pub mod App
pub mod Examples
