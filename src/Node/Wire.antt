-- ===== src/Node/Wire.antt =====
-- The frames that are sent to the mesh are taken for mesh packets by those who receive them.
use chirpstack_gateway_mesh.Common.{
  ℕ, ◌≤◌, ◌<◌, ◌≡◌, ap, sym, ◌∙◌, true, List, [], ◌∷◌, ◌++◌, Option, none, some, ◌⊎◌, All, All-mono,
  arith,
}
use chirpstack_gateway_mesh.Common.Bits.{bit_and_masks}
use chirpstack_gateway_mesh.Common.Bytes.{Bytes4, to_list}
use chirpstack_gateway_mesh.Common.Result
use chirpstack_gateway_mesh.Common.Result.{ok, ok_injective}
use chirpstack_gateway_mesh.Packets.Mhdr
use chirpstack_gateway_mesh.Packets.Mhdr.{Mhdr}
use chirpstack_gateway_mesh.Packets.MeshPacket
use chirpstack_gateway_mesh.Packets.MeshPacket.{MeshPacket, append_mic}
use chirpstack_gateway_mesh.Gw.{DownlinkFrame}
use chirpstack_gateway_mesh.Runtime.{
  State, Env, Output, mesh_frame, downlink_frame, proxy_event, gateway_configuration,
}
use chirpstack_gateway_mesh.Handlers.{is_proprietary}
use chirpstack_gateway_mesh.Mesh.Send.{mesh_tx_info}
use chirpstack_gateway_mesh.Node.Frames.{IsMeshFrame}
use chirpstack_gateway_mesh.Node.Invariant.{IsSent, Reaches, Reaches-IsValid}

written :
    (x : ℕ) (b : List ℕ) (mic : Option Bytes4) {wire : List ℕ}
    → append_mic (x ∷ b) mic ≡ ok wire
    → (rest : List ℕ) × (wire ≡ x ∷ rest)
written x b none e = absurd (cc e)
written x b (some mic) e = (b ++ to_list mic, sym (ok_injective e))

-- The first byte of a written packet is that of its header.
header_first :
    (p : MeshPacket) {wire : List ℕ}
    → MeshPacket.to_vec p ≡ ok wire
    → (x : ℕ) × (rest : List ℕ) × (Mhdr.to_byte p.mhdr ≡ ok x) × (wire ≡ x ∷ rest)
unfolding MeshPacket.to_vec
header_first p e =
    let (x, first, then) = Result.>>=-eq-ok _ _ e in
    let (b, body, last) =
      Result.>>=-eq-ok (MeshPacket.payload_to_vec p.payload) (λ b. append_mic (x ∷ b) p.mic) then in
    let (rest, wire) = written x b p.mic last in (x, rest, first, wire)

proprietary : (x : ℕ) (rest : List ℕ) → 224 ≤ x → x < 256 → is_proprietary (x ∷ rest) ≡ true
unfolding is_proprietary
proprietary x rest lo hi = ground (arith, bit_and_masks x hi, lo)

module _ {F32 : Type 0} (env : Env F32) where
  -- One item, whose first byte decodes to a header with hops left, at most 8; the receiver's test for
  -- mesh frames holds.
  pub record IsReceivable (pl : DownlinkFrame) : Type 0 where
    pub wire : List ℕ
    pub frequency : ℕ
    pub items :
        pl.items ≡ record { phy_payload = wire; tx_info = some (mesh_tx_info env frequency) } ∷ []
    pub recognised : is_proprietary wire ≡ true
    pub first : ℕ
    pub rest : List ℕ
    pub bytes : wire ≡ first ∷ rest
    pub header : Mhdr
    pub decodes : Mhdr.from_byte first ≡ ok header
    pub hops : (header.hop_count ≡ 1) ⊎ (header.hop_count ≤ env.conf.mesh.max_hop_count)
    pub hops_max : header.hop_count ≤ 8

  abbrev pub IsSentReceivable : Output F32 → Type 0
  IsSentReceivable (mesh_frame pl) = IsReceivable pl
  IsSentReceivable (downlink_frame pl) = Unit
  IsSentReceivable (proxy_event pl) = Unit
  IsSentReceivable (gateway_configuration pl) = Unit

  IsMeshFrame-IsReceivable : (pl : DownlinkFrame) → IsMeshFrame env pl → IsReceivable pl
  IsMeshFrame-IsReceivable pl h =
      let (x, rest, first, wire) = header_first h.packet h.writes in
      let (lo, byte, hops_min, hops_max) = Mhdr.to_byte_range h.packet.mhdr first in
      record {
        wire = h.wire;
        frequency = h.frequency;
        items = h.items;
        recognised = ap is_proprietary wire ∙ proprietary x rest lo byte;
        first = x;
        rest = rest;
        bytes = wire;
        header = h.packet.mhdr;
        decodes = (Mhdr.to_byte-from_byte_iff h.packet.mhdr x byte).0 first;
        hops = h.hops;
        hops_max = hops_max;
      }

  sent_receivable : (o : Output F32) → IsSent env o → IsSentReceivable o
  sent_receivable (mesh_frame pl) h = IsMeshFrame-IsReceivable pl h
  sent_receivable (downlink_frame pl) h = tt
  sent_receivable (proxy_event pl) h = tt
  sent_receivable (gateway_configuration pl) h = tt

  -- Every frame that the program ever sends to the mesh passes the test by which a receiver tells mesh
  -- frames from LoRaWAN, and its first byte decodes to a header with a hop count of at most 8 that is 1 or at
  -- most the configured maximum.
  pub Reaches-IsSentReceivable : {s : State F32} → Reaches env s → All IsSentReceivable s.sent
  Reaches-IsSentReceivable r =
      All-mono (IsSent env) IsSentReceivable sent_receivable _ (Reaches-IsValid env r).frames
