-- ===== src/Gw.antt =====
-- The messages of `chirpstack_api::gw`, as the source builds and reads them. A record has the fields
-- that the source names; the others are never read, and are the default where the source builds a
-- message. `F32` is the type of the floats in the receive information, which the source only casts.
use chirpstack_gateway_mesh.Common.{ℕ, Bool, List, Option}
use chirpstack_gateway_mesh.Common.Int.{ℤ}
use chirpstack_gateway_mesh.Common.Time.{SystemTime}

pub data CodeRate : Type 0 where
  cr_undefined cr45 cr46 cr47 cr48 cr38 cr26 cr14 cr16 cr56 cr_li45 cr_li46 cr_li48 : CodeRate

pub record LoraModulationInfo : Type 0 where
  pub bandwidth : ℕ
  pub spreading_factor : ℕ
  pub code_rate : CodeRate
  pub polarization_inversion : Bool

pub record FskModulationInfo : Type 0 where
  pub frequency_deviation : ℕ
  pub datarate : ℕ

-- `gw::modulation::Parameters`.
pub data ModulationParameters : Type 0 where
  lora : LoraModulationInfo → ModulationParameters
  fsk : FskModulationInfo → ModulationParameters
  lr_fhss : ModulationParameters

pub record Modulation : Type 0 where
  pub parameters : Option ModulationParameters

-- `gw::timing::Parameters`; the delay is in seconds, and may be missing.
pub data TimingParameters : Type 0 where
  immediately : TimingParameters
  delay : Option ℤ → TimingParameters
  gps_epoch : TimingParameters

pub record Timing : Type 0 where
  pub parameters : Option TimingParameters

pub record DownlinkTxInfo : Type 0 where
  pub frequency : ℕ
  pub power : ℤ
  pub modulation : Option Modulation
  pub timing : Option Timing
  pub context : List ℕ

pub record DownlinkFrameItem : Type 0 where
  pub phy_payload : List ℕ
  pub tx_info : Option DownlinkTxInfo

pub record DownlinkFrame : Type 0 where
  pub downlink_id : ℕ
  pub items : List DownlinkFrameItem
  pub gateway_id : List ℕ

pub data TxAckStatus : Type 0 where
  ignored ack_ok internal_error other_status : TxAckStatus

pub record DownlinkTxAck : Type 0 where
  pub gateway_id : List ℕ
  pub downlink_id : ℕ
  pub items : List TxAckStatus

pub data CrcStatus : Type 0 where
  crc_ok other_crc : CrcStatus

pub record UplinkTxInfo : Type 0 where
  pub frequency : ℕ
  pub modulation : Option Modulation

-- Texts are lists of characters.
pub record UplinkRxInfo (F32 : Type 0) : Type 0 where
  pub gateway_id : List ℕ
  pub uplink_id : ℕ
  pub rssi : ℤ
  pub snr : F32
  pub crc_status : CrcStatus
  pub context : List ℕ
  -- The two entries of `metadata` that the source sets.
  pub hop_count : Option ℕ
  pub relay_id : Option (List ℕ)

pub record UplinkFrame (F32 : Type 0) : Type 0 where
  pub phy_payload : List ℕ
  pub tx_info : Option UplinkTxInfo
  pub rx_info : Option (UplinkRxInfo F32)

pub record HeartbeatRelayPath : Type 0 where
  pub relay_id : List ℕ
  pub rssi : ℤ
  pub snr : ℤ

-- `gw::mesh_event_item::Event`.
pub data MeshEventItem : Type 0 where
  heartbeat : List HeartbeatRelayPath → MeshEventItem
  proprietary : ℕ → List ℕ → MeshEventItem

pub record MeshEvent : Type 0 where
  pub gateway_id : List ℕ
  pub relay_id : List ℕ
  pub time : SystemTime
  pub events : List MeshEventItem

-- `gw::event::Event`, with the gateway statistics as the bytes that are passed on.
pub data Event (F32 : Type 0) : Type 0 where
  uplink_frame : UplinkFrame F32 → Event F32
  gateway_stats : List ℕ → Event F32
  mesh : MeshEvent → Event F32
  other_event : Event F32

-- `gw::mesh_command_item::Command::Proprietary`, if it is set.
pub record MeshCommandItem : Type 0 where
  pub command : Option (ℕ × List ℕ)

pub record MeshCommand : Type 0 where
  pub relay_id : List ℕ
  pub commands : List MeshCommandItem

-- `gw::command::Command`, with the gateway configuration as the bytes that are passed on.
pub data Command : Type 0 where
  set_gateway_configuration : List ℕ → Command
  send_downlink_frame : DownlinkFrame → Command
  get_gateway_id : Command
  mesh : MeshCommand → Command
  other_command : Command
