-- ===== src/Mesh/Send.antt =====
-- What the senders of mesh packets share: the keys, and the frame around an encoded packet.
use chirpstack_gateway_mesh.Common.{ℕ, false, [], ◌∷◌, some}
use chirpstack_gateway_mesh.Aes128.{Aes128Key, get_encryption_key, mesh_signing_key}
use chirpstack_gateway_mesh.Packets.MeshPacket
use chirpstack_gateway_mesh.Packets.MeshPacket.{MeshPacket}
use chirpstack_gateway_mesh.Helpers.Mapping.{data_rate_to_gw_modulation}
use chirpstack_gateway_mesh.Gw
use chirpstack_gateway_mesh.Gw.{DownlinkFrame, DownlinkFrameItem, DownlinkTxInfo, Timing}
use chirpstack_gateway_mesh.Runtime.{State, Env, M, ◌>>=◌, pure, lift}
use chirpstack_gateway_mesh.Mesh.Counters.{get_mesh_frequency}

module _ {F32 : Type 0} (env : Env F32) where
  unfoldable pub signing_key : Aes128Key
  unfolding mesh_signing_key
  signing_key = mesh_signing_key env.aes env.conf.mesh.signing_key env.conf.mesh.root_key

  unfoldable pub encryption_key : Aes128Key
  unfolding get_encryption_key
  encryption_key = get_encryption_key env.aes env.conf.mesh.root_key

  -- The `DownlinkTxInfo` of a mesh frame on a frequency.
  unfoldable pub mesh_tx_info : ℕ → DownlinkTxInfo
  unfolding data_rate_to_gw_modulation
  mesh_tx_info frequency = record {
    frequency = frequency;
    power = env.conf.mesh.tx_power;
    modulation = some (data_rate_to_gw_modulation env.conf.mesh.data_rate false);
    timing = some (record { parameters = some Gw.TimingParameters.immediately });
    context = [];
  }

  -- The `DownlinkFrame` around a packet, which is encoded before the frequency is chosen.
  unfoldable pub mesh_frame_of : ℕ → MeshPacket → M (State F32) DownlinkFrame
  unfolding MeshPacket.to_vec get_mesh_frequency mesh_tx_info
  mesh_frame_of downlink_id packet = do
    phy_payload ← lift (MeshPacket.to_vec packet)
    frequency ← get_mesh_frequency env.conf.mesh.frequencies
    pure (record {
      downlink_id = downlink_id;
      items = record { phy_payload = phy_payload; tx_info = some (mesh_tx_info frequency) } ∷ [];
      gateway_id = [];
    })
