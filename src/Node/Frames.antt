-- ===== src/Node/Frames.antt =====
-- The frames that are sent to the mesh: one item around an encoded packet.
use chirpstack_gateway_mesh.Common.{ℕ, ◌≤◌, ◌≡◌, ap, sym, List, [], ◌∷◌, some, ◌⊎◌}
use chirpstack_gateway_mesh.Common.Result.{ok, >>=-eq-ok, ok_injective}
use chirpstack_gateway_mesh.Aes128.{Aes128Key, BlockCipher}
use chirpstack_gateway_mesh.Packets.MeshPacket
use chirpstack_gateway_mesh.Packets.MeshPacket.{MeshPacket, Mac, encrypt_payload, Payload}
use chirpstack_gateway_mesh.Gw.{DownlinkFrame}
use chirpstack_gateway_mesh.Runtime.{State, Env, lift, pure}
use chirpstack_gateway_mesh.Runtime.Returns
use chirpstack_gateway_mesh.Mesh.Send.{mesh_frame_of, mesh_tx_info}
use chirpstack_gateway_mesh.Mesh.Counters.{get_mesh_frequency}

pub encrypt-mhdr :
    (aes : BlockCipher) (key : Aes128Key) (p : MeshPacket) {q : MeshPacket}
    → MeshPacket.encrypt aes key p ≡ ok q
    → q.mhdr ≡ p.mhdr
unfolding MeshPacket.encrypt
encrypt-mhdr aes key p e =
    let (pl, first, second) =
      >>=-eq-ok (encrypt_payload aes key p.payload) (λ pl. ok (record p { payload = pl })) e in
    ap (λ q. q.mhdr) (sym (ok_injective second))

pub set_mic-mhdr :
    (cmac : Mac) (key : Aes128Key) (p : MeshPacket) {q : MeshPacket}
    → MeshPacket.set_mic cmac key p ≡ ok q
    → q.mhdr ≡ p.mhdr
unfolding MeshPacket.set_mic
set_mic-mhdr cmac key p e =
    let (m, first, second) =
      >>=-eq-ok (MeshPacket.calculate_mic cmac key p) (λ m. ok (record p { mic = some m })) e in
    ap (λ q. q.mhdr) (sym (ok_injective second))

module _ {F32 : Type 0} (env : Env F32) where
  -- A packet that starts at this gateway, or has hops left.
  abbrev pub HasHops : MeshPacket → Type 0
  HasHops p = (p.mhdr.hop_count ≡ 1) ⊎ (p.mhdr.hop_count ≤ env.conf.mesh.max_hop_count)

  -- The frame holds one item: an encoded packet with hops left.
  pub record IsMeshFrame (pl : DownlinkFrame) : Type 0 where
    pub packet : MeshPacket
    pub hops : HasHops packet
    pub wire : List ℕ
    pub writes : MeshPacket.to_vec packet ≡ ok wire
    pub frequency : ℕ
    pub items :
        pl.items ≡ record { phy_payload = wire; tx_info = some (mesh_tx_info env frequency) } ∷ []

  pub mesh_frame_of-IsMeshFrame :
      (downlink_id : ℕ) (packet : MeshPacket) (s : State F32) {pl : DownlinkFrame}
      → HasHops packet
      → (mesh_frame_of env downlink_id packet s).0 ≡ ok pl
      → IsMeshFrame pl
  unfolding mesh_frame_of lift pure
  mesh_frame_of-IsMeshFrame downlink_id packet s hops e =
      let (wire, writes, rest) = Returns.>>=-eq-ok (lift (MeshPacket.to_vec packet)) _ s e in
      let (frequency, chosen, built) =
        Returns.>>=-eq-ok (get_mesh_frequency env.conf.mesh.frequencies) _ s rest in
      record {
        packet = packet;
        hops = hops;
        wire = wire;
        writes = writes;
        frequency = frequency;
        items = ap (λ pl. pl.items) (sym (ok_injective built));
      }
