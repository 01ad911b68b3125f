-- ===== src/Mesh/Limit.antt =====
-- A mesh packet that has no hops left ends at the relay that receives it.
use chirpstack_gateway_mesh.Common.{◌≤◌, ◌<◌, ◌≡◌, ◌∙◌, ap, true, false, some}
use chirpstack_gateway_mesh.Common.Bytes.{Bytes4}
use chirpstack_gateway_mesh.Common.Result.{ok}
use chirpstack_gateway_mesh.Cache
use chirpstack_gateway_mesh.Cache.PayloadCache.{PayloadCache, payload_cache_eq, from_packet}
use chirpstack_gateway_mesh.Packets.MeshPacket
use chirpstack_gateway_mesh.Packets.MeshPacket.{MeshPacket}
use chirpstack_gateway_mesh.Gw.{UplinkFrame}
use chirpstack_gateway_mesh.Runtime.{State, Env}
use chirpstack_gateway_mesh.Mesh.Send.{signing_key, encryption_key}
use chirpstack_gateway_mesh.Mesh.Handle.{handle_mesh, dispatch}
use chirpstack_gateway_mesh.Mesh.Hops.{relay_id_of, relay_over_limit}
use chirpstack_gateway_mesh.Mesh.Forward.{fresh_packet}

module _ {F32 : Type 0} (env : Env F32) where
  -- A fresh packet with a correct code whose payload, decrypted, names another relay, and whose hop count has
  -- reached the configured maximum (and is below 255), is not sent on by a relay: nothing is
  -- sent, and nothing but the payload cache changes.
  pub handle_mesh_over_limit :
      (pl : UplinkFrame F32) (got packet : MeshPacket) (relay_id : Bytes4) (s : State F32)
      → env.relay_id ≡ some relay_id
      → MeshPacket.from_slice pl.phy_payload ≡ ok got
      → MeshPacket.validate_mic env.cmac (signing_key env) got ≡ ok true
      → Cache.contains payload_cache_eq s.payload_cache.deque (from_packet got) ≡ false
      → MeshPacket.decrypt env.aes (encryption_key env) got ≡ ok packet
      → MeshPacket.mic_eq (relay_id_of packet.payload) relay_id ≡ false
      → packet.mhdr.hop_count < 255
      → env.conf.mesh.max_hop_count ≤ packet.mhdr.hop_count
      → (c : Cache.Cache PayloadCache) × ((handle_mesh env false pl s).1
          ≡ record s { payload_cache = c })
  unfolding dispatch
  handle_mesh_over_limit pl got packet relay_id s id parsed valid fresh decrypted other small
        limit =
      let (c, run) = fresh_packet env false pl got packet s parsed valid fresh decrypted in
      (
        c,
        ap (λ x. x.1) run
            ∙ relay_over_limit env pl packet relay_id (record s { payload_cache = c }) id other
                small limit,
      )
