-- ===== src/Runtime.antt =====
-- The program's state, its surroundings, and the monad of its handlers: a handler changes the
-- state whether it succeeds or fails.
pub mod Keeps
pub mod Returns
pub mod Settles
use chirpstack_gateway_mesh.Common.{ℕ, List, Option, none, some}
use chirpstack_gateway_mesh.Common.Int.{ℤ}
use chirpstack_gateway_mesh.Common.Bytes.{Bytes4}
use chirpstack_gateway_mesh.Common.Result.{Result, ok, err, panicked, diverged, unwrap}
use chirpstack_gateway_mesh.Common.Time.{SystemTime}
use chirpstack_gateway_mesh.Aes128.{BlockCipher}
use chirpstack_gateway_mesh.Packets.MeshPacket.{Mac}
use chirpstack_gateway_mesh.Cache.{Cache}
use chirpstack_gateway_mesh.Cache.PayloadCache.{PayloadCache}
use chirpstack_gateway_mesh.Config.{Configuration}
use chirpstack_gateway_mesh.Gw
use chirpstack_gateway_mesh.Gw.{DownlinkFrame, DownlinkTxAck}

-- What the program sends: a frame to the mesh Concentratord, a frame or a configuration to the
-- Concentratord, or an event to the proxy API.
pub data Output (F32 : Type 0) : Type 0 where
  mesh_frame : DownlinkFrame → Output F32
  downlink_frame : DownlinkFrame → Output F32
  proxy_event : Gw.Event F32 → Output F32
  gateway_configuration : List ℕ → Output F32

-- The statics of the modules, the frames and events sent so far, the latest last, and how often the
-- clock and the random numbers were read.
pub record State (F32 : Type 0) : Type 0 where
  pub mesh_channel : ℕ
  pub uplink_id : ℕ
  pub uplink_context : ℕ → Option (List ℕ)
  pub payload_cache : Cache PayloadCache
  pub last_timestamp : Option SystemTime
  pub sent : List (Output F32)
  pub reads : ℕ

-- What the source calls and does not implement, and its configuration.
pub record Env (F32 : Type 0) : Type 0 where
  pub conf : Configuration
  pub aes : BlockCipher
  pub cmac : Mac
  -- `rand::random` and `SystemTime::now`, by the number of reads before.
  pub random : ℕ → ℕ
  pub now : ℕ → SystemTime
  -- The identifiers of `backend`, if its setup has set them.
  pub relay_id : Option Bytes4
  pub gateway_id : Option (List ℕ)
  -- The answers of the two Concentratord processes to a frame, after what was sent before.
  pub mesh_reply : List (Output F32) → DownlinkFrame → Result DownlinkTxAck
  pub downlink_reply : List (Output F32) → DownlinkFrame → Result DownlinkTxAck
  pub configuration_reply : List (Output F32) → Result (Unit {0})
  -- Whether the channel to the proxy API takes an event.
  pub proxy_reply : List (Output F32) → Result (Unit {0})
  -- `COMMANDS` of `commands`, if its setup has set it: the program and its arguments by type.
  pub commands : Option (ℕ → Option (List (List ℕ)))
  -- The output of a program with these arguments on this input, or the failure to run it.
  pub run : List (List ℕ) → List ℕ → Result (List ℕ)
  -- `COMMANDS` of `events`, and the output of a program with these arguments.
  pub event_commands : Option (ℕ → Option (List (List ℕ)))
  pub output : List (List ℕ) → Result (List ℕ)
  -- The encodings of the answers to the proxy API.
  pub encode_tx_ack : DownlinkTxAck → List ℕ
  pub encode_gateway_id : List ℕ → List ℕ
  -- `hex::encode` and `hex::decode_to_slice` of four bytes.
  pub hex_encode : List ℕ → List ℕ
  pub hex_decode4 : List ℕ → Result Bytes4
  -- `snr as i8` and `snr.into()`.
  pub f32_as_i8 : F32 → ℤ
  pub f32_of_i8 : ℤ → F32

-- A handler over the state `S`.
abbrev pub M : Type 0 → Type 0 → Type 0
M S A = S → Result A × S

module _ {S : Type 0} where
  abbrev pub resume : {A B : Type 0} → Result A × S → (A → M S B) → Result B × S
  resume (ok a, s) f = f a s
  resume (err e, s) f = (err e, s)
  resume (panicked, s) f = (panicked, s)
  resume (diverged, s) f = (diverged, s)

  unfoldable pub pure : {A : Type 0} → A → M S A
  pure a s = (ok a, s)

  -- A step that neither reads nor changes the state.
  unfoldable pub lift : {A : Type 0} → Result A → M S A
  lift r s = (r, s)

  -- A step that only reads the state.
  unfoldable pub inspect : {A : Type 0} → (S → Result A) → M S A
  inspect f s = (f s, s)

  -- `match action { Ok(v) => .., Err(e) => .. }`: a panic is not caught.
  abbrev pub caught : {A : Type 0} → Result A × S → Result (Option A) × S
  caught (ok a, s) = (ok (some a), s)
  caught (err e, s) = (ok none, s)
  caught (panicked, s) = (panicked, s)
  caught (diverged, s) = (diverged, s)

  unfoldable pub attempt : {A : Type 0} → M S A → M S (Option A)
  attempt m s = caught (m s)

  -- A call whose result is kept as a value: a panic is not caught.
  abbrev pub kept : {A : Type 0} → Result A × S → Result (Result A) × S
  kept (ok a, s) = (ok (ok a), s)
  kept (err e, s) = (ok (err e), s)
  kept (panicked, s) = (panicked, s)
  kept (diverged, s) = (diverged, s)

  unfoldable pub outcome : {A : Type 0} → M S A → M S (Result A)
  outcome m s = kept (m s)

  -- `action.unwrap()`.
  unfoldable pub unwrapped : {A : Type 0} → M S A → M S A
  unwrapped m s = (unwrap (m s).0, (m s).1)

  -- Where this is open, the other steps are too.
  infixl 5 ◌>>=◌ ◌>>◌
  unfoldable pub ◌>>=◌ : {A B : Type 0} → M S A → (A → M S B) → M S B
  unfolding pure lift inspect attempt outcome unwrapped
  ◌>>=◌ m f s = resume (m s) f

  abbrev pub ◌>>◌ : {B : Type 0} → M S (Unit {0}) → M S B → M S B
  m >> k = m >>= λ u. k
