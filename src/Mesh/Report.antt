-- ===== src/Mesh/Report.antt =====
-- The way of events: from the relay that reports them to the Border Gateway, which passes them on.
use chirpstack_gateway_mesh.Common.{
  ℕ, ◌+◌, ◌<◌, ◌≡◌, refl, sym, ◌∙◌, ap, true, false, List, [], ◌∷◌, ◌++◌, map, some, length, All,
}
use chirpstack_gateway_mesh.Common.Int.{pos_part}
use chirpstack_gateway_mesh.Common.Bytes.{Bytes4, to_list}
use chirpstack_gateway_mesh.Common.Result.{
  ok, ok_or, ok_injective, relay_id_not_set, gateway_id_not_set,
}
use chirpstack_gateway_mesh.Aes128.{IsBlockCipher}
use chirpstack_gateway_mesh.Cache
use chirpstack_gateway_mesh.Cache.PayloadCache.{payload_cache_eq, from_packet}
use chirpstack_gateway_mesh.Packets.Event
use chirpstack_gateway_mesh.Packets.Event.{Event}
use chirpstack_gateway_mesh.Packets.EventPayload
use chirpstack_gateway_mesh.Packets.EventPayload.{EventPayload}
use chirpstack_gateway_mesh.Packets.MeshPacket
use chirpstack_gateway_mesh.Packets.MeshPacket.{
  MeshPacket, Payload, IsMac, IsSendable, seal, transport,
}
use chirpstack_gateway_mesh.Gw
use chirpstack_gateway_mesh.Gw.{UplinkFrame, MeshEventItem}
use chirpstack_gateway_mesh.Runtime.{State, Env, proxy_event, ◌>>=◌, lift, pure}
use chirpstack_gateway_mesh.Runtime.Returns
use chirpstack_gateway_mesh.Backend.{get_relay_id, get_gateway_id, send_event, emit}
use chirpstack_gateway_mesh.Events.{now, event_packet, send_events}
use chirpstack_gateway_mesh.Mesh.Send.{signing_key, encryption_key}
use chirpstack_gateway_mesh.Mesh.Proxy.{
  hop_of, event_item, event_items, unwrap_event, proxy_event_mesh_packet,
}
use chirpstack_gateway_mesh.Mesh.Handle.{handle_mesh, dispatch, proxy_packet}
use chirpstack_gateway_mesh.Mesh.Forward.{SentOne, sealed_sent, fresh_packet, encryption_key-length}
use chirpstack_gateway_mesh.Mesh.Deliver.{SharesMesh}

module _ {F32 : Type 0} (env : Env F32) where
  -- The items that the network server gets, one for each event.
  abbrev pub shown : List Event → List MeshEventItem
  shown [] = []
  shown (Event.heartbeat v ∷ es) =
      MeshEventItem.heartbeat (map (hop_of env) v.relay_path) ∷ shown es
  shown (Event.proprietary t v ∷ es) = MeshEventItem.proprietary t v ∷ shown es
  shown (Event.encrypted v ∷ es) = shown es

  event_items-shown :
      (es : List Event) (s : State F32)
      → All Event.IsEncodable es
      → event_items env es s ≡ (ok (shown es), s)
  unfolding event_items event_item lift pure ◌>>=◌
  event_items-shown [] s h = refl
  event_items-shown (Event.heartbeat v ∷ es) s h = rw (event_items-shown es s h.1) refl
  event_items-shown (Event.proprietary t v ∷ es) s h = rw (event_items-shown es s h.1) refl
  event_items-shown (Event.encrypted v ∷ es) s h = absurd h.0

  -- The relay's part.
  events_sent :
      (events : List Event) (relay_id : Bytes4) (wire : List ℕ) (s : State F32)
      → env.relay_id ≡ some relay_id
      → seal env.aes env.cmac
          (encryption_key env)
          (signing_key env)
          (event_packet env (env.now s.reads) relay_id events)
        ≡ ok wire
      → 0 < length env.conf.mesh.frequencies
      → SentOne env wire s (send_events env events s).1
  unfolding send_events now get_relay_id pure
  events_sent events relay_id wire s id seals some_frequency =
      let t : State F32 = record s { reads = s.reads + 1 } in
      let (pl, frequency, items, sent) =
        sealed_sent env (event_packet env (env.now s.reads) relay_id events) wire t seals
          some_frequency in
      (
        pl,
        frequency,
        items,
        ap (λ x. x.1.sent)
              (Returns.>>=-ok (now env) _ s refl
                ∙ Returns.>>=-lift-ok _ _ t (ap (λ o. ok_or o relay_id_not_set) id))
            ∙ sent,
      )

  event_passed :
      (e : Gw.Event F32) (s : State F32)
      → env.proxy_reply s.sent ≡ ok tt
      → (send_event env e s).1.sent ≡ s.sent ++ proxy_event e ∷ []
  unfolding send_event emit ◌>>=◌
  event_passed e s proxy = rw proxy refl

  -- The Border Gateway's part.
  events_shown :
      (pl : UplinkFrame F32) (packet : MeshPacket) (v : EventPayload) (gateway_id : List ℕ)
      (s : State F32)
      → env.gateway_id ≡ some gateway_id
      → All Event.IsEncodable v.events
      → env.proxy_reply s.sent ≡ ok tt
      → packet.payload ≡ Payload.event v
      → (proxy_event_mesh_packet env pl packet s).1.sent
        ≡ s.sent
          ++ proxy_event (
              Gw.Event.mesh (record {
                gateway_id = env.hex_encode gateway_id;
                relay_id = env.hex_encode (to_list v.relay_id);
                time = v.timestamp;
                events = shown v.events;
              }))
            ∷ []
  unfolding proxy_event_mesh_packet unwrap_event get_gateway_id
  events_shown pl packet v gateway_id s id encodable proxy payload =
      ap (λ p. (unwrap_event env p s).1.sent) payload
      ∙ ap (λ x. x.1.sent)
          (Returns.>>=-lift-ok _ _ s (ap (λ o. ok_or o gateway_id_not_set) id)
            ∙ Returns.>>=-step (event_items env v.events) _ s
                (event_items-shown v.events s encodable))
      ∙ event_passed _ s proxy

module _ {F32 : Type 0} (relay border : Env F32) where
  -- The events that a relay reports reach the network server. If they are encodable and the relay's clock
  -- is not before 1970, the relay sends exactly one frame to the mesh. When a Border Gateway of the same mesh
  -- receives these bytes for the first time, exactly one event goes to the proxy API: it names
  -- the relay and the time in 32 bits of whole seconds, and has one item for each reported event, in their order.
  pub events_delivered :
      (events : List Event) (relay_id : Bytes4) (gateway_id wire : List ℕ)
      (at_border : UplinkFrame F32) (got : MeshPacket) (s t : State F32)
      → IsBlockCipher relay.aes
      → IsMac relay.cmac
      → length relay.conf.mesh.root_key.bytes ≡ 16
      → 0 < length relay.conf.mesh.frequencies
      → SharesMesh relay border
      → relay.relay_id ≡ some relay_id
      → let time = relay.now s.reads in
        let p = event_packet relay time relay_id events in
        All Event.IsEncodable events
        → IsSendable p
        → seal relay.aes relay.cmac (encryption_key relay) (signing_key relay) p ≡ ok wire
        → at_border.phy_payload ≡ wire
        → MeshPacket.from_slice wire ≡ ok got
        → Cache.contains payload_cache_eq t.payload_cache.deque (from_packet got) ≡ false
        → border.gateway_id ≡ some gateway_id
        → border.proxy_reply t.sent ≡ ok tt
        → SentOne relay wire s (send_events relay events s).1
          × ((handle_mesh border true at_border t).1.sent
              ≡ t.sent
                ++ proxy_event (
                    Gw.Event.mesh (record {
                      gateway_id = border.hex_encode gateway_id;
                      relay_id = border.hex_encode (to_list relay_id);
                      time = EventPayload.wire_time (pos_part time.secs);
                      events = shown border events;
                    }))
                  ∷ [])
  unfolding dispatch proxy_packet event_packet
  events_delivered events relay_id gateway_id wire at_border got s t cipher mac sixteen
        some_frequency share id encodable sendable seals arrives parsed fresh gateway proxy =
      let time = relay.now s.reads in
      let p = event_packet relay time relay_id events in
      let way =
        transport relay.aes cipher (encryption_key relay)
          (encryption_key-length relay cipher sixteen) relay.cmac mac (signing_key relay) p
          sendable in
      let wire_is : wire ≡ way.wire = ok_injective (sym seals ∙ way.seals) in
      let got_is : got ≡ way.packet =
        ok_injective (sym parsed ∙ ap MeshPacket.from_slice wire_is ∙ way.reads) in
      let v : EventPayload = record {
        timestamp = EventPayload.wire_time (pos_part time.secs);
        relay_id = relay_id;
        events = events;
      } in
      let arrived : MeshPacket = record {
        mhdr = p.mhdr;
        payload = Payload.event v;
        mic = way.packet.mic;
      } in
      let (c, dispatched) =
        fresh_packet border true at_border got arrived t (ap MeshPacket.from_slice arrives ∙ parsed)
          (rw (got_is, share.signing, share.cmac) way.validates) fresh
          (rw (got_is, share.encryption, share.aes) way.decrypts) in
      (
        events_sent relay events relay_id wire s id seals some_frequency,
        ap (λ x. x.1.sent) dispatched
            ∙ events_shown border at_border arrived v gateway_id (record t { payload_cache = c })
                gateway encodable proxy refl,
      )
