-- ===== src/Lib.antt =====
-- The ChirpStack Gateway Mesh: gateways without a network connection (relays) put the uplinks that
-- they receive into mesh packets, which relays send on until a border gateway unwraps them for the
-- network server; downlinks, events and commands travel the same way.
--
-- The parts, and the files that model them:
--   src/packets.rs   Packets/: one module per struct, named after it. `from_slice`, `to_vec`,
--                    `from_bytes`, `to_bytes`, `encode`, `decode`, `encrypt` and `decrypt` are the
--                    functions of these names. Packets/Crypt is `encrypt_events_commands`,
--                    Packets/Freq the frequency codec, Packets/Tlv and Packets/Items what the
--                    events and commands share.
--   src/aes128.rs    Aes128: the keys and their derivation.
--   src/cache.rs     Cache/: the cache, the key of a packet, and the window on the history.
--   src/helpers.rs   Helpers/: Mapping (channels, data rates), TxPower, Ack.
--   src/config.rs    Config: the configuration and its defaults, Config/Text: the texts of code rates,
--                    Config/Load: `Configuration::load`.
--   src/mesh.rs      Mesh/: Counters (the statics), Send (what all senders share), Proxy (the
--                    border gateway), Relay (the relay), Downlink, Handle (the entry points). Proofs
--                    about one handler are in Replay, Hops, Limit, Forward, Context, Seconds and
--                    Statuses; Deliver, Answer, Report and Order follow an uplink, a downlink, events and commands
--                    from the gateway that sends them to the one that receives them.
--   src/commands.rs  Commands, src/events.rs Events.
--   src/backend.rs   Backend (sending), Handlers (the two event handlers and their loops),
--                    Zmq/Requests (the threads of the command and the event sockets), with what
--                    the event threads pass on in Zmq/Events.
--   src/proxy.rs     Proxy: the handler of the proxy API's commands and its loop; Zmq/Replies: the
--                    thread of the command socket, with the loop.
--   src/cmd/root.rs  Setup: the tables and identifiers that the `setup`s of src/commands.rs,
--                    src/events.rs and src/backend.rs make of the configuration; Setup/Run: `run` with
--                    the setups that it calls, the statics that they set and what they spawn; proofs
--                    in Setup/Ready (after the start) and Setup/Early (while it goes on).
--   src/main.rs      Setup/Main: `main`, with src/logging.rs and the end of src/cmd/configfile.rs.
-- Runtime has the state, the surroundings and the monad of the handlers, with the rules for what a
-- handler keeps (Runtime/Keeps) and returns (Runtime/Returns, Runtime/Settles). Node is about the
-- program as a whole: what its handlers keep (Stable, Border, Api, Entries), the steps that it takes
-- and what holds in the states that it reaches (Invariant, Wire), what a relay and a border gateway
-- never send (Roles), and that the handlers return (Settled).
-- Gw has the messages of the `chirpstack_api` crate, with the fields that the source names.
-- Common has the shared helpers, Tests the runs of the theorems on concrete data.
--
-- How the code is modelled:
--   A fallible function returns a `Result`: a value, an error, a panic, or a loop out of fuel. A
--   handler is a function of the state (Runtime.State: the statics, and the frames and events sent
--   so far) that returns a result and the next state; it keeps its changes when it fails. `&mut
--   self` methods return the changed struct. Bytes and machine integers are natural numbers, signed
--   ones are ℤ; casts and wrap-around are written out. Texts are lists, and log output is left out.
--   The loops that decode events and commands run on one round more than there are bytes left:
--   every round reads at least the two bytes of type and length, so the fuel is enough. The loop
--   that sets up logging runs on fuel too: it ends when the fuel is more than the number of failures.
--   The loops of the threads, which never end, are given the number of their rounds.
--   The block cipher, the CMAC, the clock, random numbers, hex texts, the floats, the answers of the
--   Concentratord processes, the proxy channel and external programs are fields of Runtime.Env or
--   parameters. The cipher is assumed to make 16 bytes of 16 bytes, the CMAC to return 16 bytes. A
--   ZMQ socket is an interface (Zmq/Socket), with what is documented of REQ, REP and SUB sockets as laws;
--   a channel is the list of what it carries. Files, the environment, the TOML parser, the command
--   line and the loggers are parameters of Config/Load and Setup/Main, the signals one of Setup/Run.
--
-- Not modelled: when the timers of src/events.rs go off, which the program leaves to its runtime; the
-- text of the template of src/cmd/configfile.rs, the Display texts, and the derived readers and writers
-- of the configuration, which third-party crates interpret. Handlers run one after the other:
-- interleavings at their await points are not modelled.
pub mod Common
pub mod Aes128
pub mod Packets
pub mod Cache
pub mod Gw
pub mod Config
pub mod Helpers
pub mod Runtime
pub mod Backend
pub mod Mesh
pub mod Commands
pub mod Events
pub mod Handlers
pub mod Proxy
pub mod Setup
pub mod Zmq
pub mod Node
pub mod Tests
