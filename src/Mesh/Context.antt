-- ===== src/Mesh/Context.antt =====
-- The context of an unwrapped uplink, which comes back with its downlink.
use chirpstack_gateway_mesh.Common.{◌/◌, ◌%◌, ◌<◌, ◌≡◌, refl, true, arith}
use chirpstack_gateway_mesh.Common.Bytes.{Bytes6, bytes4, bytes6, u16_from_be_bytes}
use chirpstack_gateway_mesh.Common.Result.{ok}
use chirpstack_gateway_mesh.Packets.UplinkPayload.{UplinkPayload}
use chirpstack_gateway_mesh.Mesh.Proxy.{relay_context}
use chirpstack_gateway_mesh.Mesh.Downlink.{is_relay_context, context_of}

-- The context that is set on an unwrapped uplink is recognised in the downlink, and names the relay
-- and the identifier of the uplink, if that fits 16 bits.
pub context_of-relay_context :
    (v : UplinkPayload)
    → v.metadata.uplink_id < 65536
    → (is_relay_context (relay_context v) ≡ true)
      × ((ctx : Bytes6) × (context_of (relay_context v) ≡ ok ctx)
          × (bytes4 ctx.b0 ctx.b1 ctx.b2 ctx.b3 ≡ v.relay_id)
          × (u16_from_be_bytes ctx.b4 ctx.b5 ≡ v.metadata.uplink_id))
unfolding is_relay_context context_of relay_context
context_of-relay_context v lt = (
  refl,
  (
    bytes6 v.relay_id.b0 v.relay_id.b1 v.relay_id.b2 v.relay_id.b3
        (v.metadata.uplink_id / 256 % 256) (v.metadata.uplink_id % 256),
    refl,
    refl,
    omega (arith, lt),
  ),
)
