-- ===== src/Node/Invariant.antt =====
-- The states that the program reaches, one handler after the other, and what holds in all of them.
use mathlib.Core.Path.{subst}
use chirpstack_gateway_mesh.Common.{
  ℕ, ◌+◌, ◌≤◌, ◌<◌, ◌≡◌, refl, sym, ◌∙◌, Bool, List, [], ◌∷◌, Option, some, ◌⊎◌, inl, inr, arith,
  length, length-append, length-drop, All, All-append, drop,
}
use chirpstack_gateway_mesh.Common.Time.{SystemTime}
use chirpstack_gateway_mesh.Packets.MeshPacket.{MeshPacket}
use chirpstack_gateway_mesh.Cache
use chirpstack_gateway_mesh.Cache.PayloadCache.{payload_cache_eq, from_packet}
use chirpstack_gateway_mesh.Gw
use chirpstack_gateway_mesh.Gw.{DownlinkFrame}
use chirpstack_gateway_mesh.Runtime.{
  State, Env, Output, mesh_frame, downlink_frame, proxy_event, gateway_configuration, ◌>>=◌, pure,
}
use chirpstack_gateway_mesh.Runtime.Keeps.{Keeps}
use chirpstack_gateway_mesh.Backend.{emit, random}
use chirpstack_gateway_mesh.Commands.{set_last_timestamp}
use chirpstack_gateway_mesh.Events.{now, report_heartbeat, report_events}
use chirpstack_gateway_mesh.Mesh.Counters.{
  get_mesh_frequency, store_uplink_context, get_uplink_id, next_uplink_id, next_channel-lt,
}
use chirpstack_gateway_mesh.Mesh.Handle.{start, add_to_cache}
use chirpstack_gateway_mesh.Handlers.{handle_event_msg, handle_mesh_event_msg}
use chirpstack_gateway_mesh.Proxy.{handle_command}
use chirpstack_gateway_mesh.Node.Frames.{IsMeshFrame}
use chirpstack_gateway_mesh.Node.Stable.{IsStable, report_events-Keeps, send_events-Keeps}
use chirpstack_gateway_mesh.Node.Api.{handle_command-Keeps}
use chirpstack_gateway_mesh.Node.Entries.{
  dispatch-Keeps, handle_event_msg-Keeps, handle_mesh_event_msg-Keeps,
}

module _ {A : Type 0} (eq : A → A → Bool) where
  add-size : (c : Cache.Cache A) (value : A) → (Cache.add eq c value).1.size ≡ c.size
  unfolding Cache.add
  add-size c value = ground arith

  add-length :
      (c : Cache.Cache A) (value : A) (n : ℕ)
      → c.size ≡ n + 1
      → length c.deque ≤ n + 1
      → length (Cache.add eq c value).1.deque ≤ n + 1
  unfolding Cache.add
  add-length c value n size full = ground (
    arith,
    length-append (drop 1 c.deque) (value ∷ []),
    length-append c.deque (value ∷ []),
    length-drop 1 c.deque,
  )

module _ {F32 : Type 0} (env : Env F32) where
  -- A frame for the mesh holds one encoded packet with hops left.
  abbrev pub IsSent : Output F32 → Type 0
  IsSent (mesh_frame pl) = IsMeshFrame env pl
  IsSent (downlink_frame pl) = Unit
  IsSent (proxy_event pl) = Unit
  IsSent (gateway_configuration pl) = Unit

  -- The cache is never over its size, the channel is one of the configured frequencies, the
  -- identifiers fit 12 bits, and every frame for the mesh is well formed.
  pub record IsValid (s : State F32) : Type 0 where
    pub cache_size : s.payload_cache.size ≡ 64
    pub cache_length : length s.payload_cache.deque ≤ 64
    pub channel : (s.mesh_channel ≡ 0) ⊎ (s.mesh_channel < length env.conf.mesh.frequencies)
    pub identifier : s.uplink_id ≤ 4095
    pub contexts : (id : ℕ) (ctx : List ℕ) → s.uplink_context id ≡ some ctx → id ≤ 4095
    pub frames : All IsSent s.sent

  -- One handler runs: for an event of the Concentratord or of the mesh Concentratord, for a command
  -- of the proxy API, or at the end of an interval.
  pub data Step : State F32 → State F32 → Type 0 where
    event :
        (matches : List ℕ → Bool) (event : Gw.Event F32) (s : State F32)
        → Step s
            (handle_event_msg env matches env.conf.mesh.border_gateway
              env.conf.mesh.border_gateway_ignore_direct_uplinks event s).1
    mesh_event :
        (event : Gw.Event F32) (s : State F32)
        → Step s (handle_mesh_event_msg env env.conf.mesh.border_gateway event s).1
    command : (cmd : Gw.Command) (s : State F32) → Step s (handle_command env cmd s).1
    heartbeat : (s : State F32) → Step s (report_heartbeat env s).1
    report : (typs : List ℕ) (s : State F32) → Step s (report_events env typs s).1

  pub data Reaches : State F32 → Type 0 where
    at_start : Reaches start
    after : {s s' : State F32} → Reaches s → Step s s' → Reaches s'

  -- Two states that differ in neither of these are both valid.
  like :
      {s : State F32} {t : Option SystemTime} {n : ℕ}
      → IsValid s
      → IsValid (record s { last_timestamp = t; reads = n })
  like v = record {
    cache_size = v.cache_size;
    cache_length = v.cache_length;
    channel = v.channel;
    identifier = v.identifier;
    contexts = v.contexts;
    frames = v.frames;
  }

  sent-IsValid : (o : Output F32) → IsSent o → Keeps IsValid (emit o)
  unfolding emit pure
  sent-IsValid o h = record {
    at = λ s v. record {
      cache_size = v.cache_size;
      cache_length = v.cache_length;
      channel = v.channel;
      identifier = v.identifier;
      contexts = v.contexts;
      frames = All-append IsSent s.sent (o ∷ []) v.frames (h, tt);
    };
  }

  channel_valid :
      (fs : List ℕ) (s : State F32)
      → (s.mesh_channel ≡ 0) ⊎ (s.mesh_channel < length fs)
      → ((get_mesh_frequency fs s).1.mesh_channel ≡ 0)
        ⊎ ((get_mesh_frequency fs s).1.mesh_channel < length fs)
  unfolding get_mesh_frequency ◌>>=◌
  channel_valid [] s h = h
  channel_valid (f ∷ fs) s h = inr (next_channel-lt (length (f ∷ fs)) s.mesh_channel (omega arith))

  -- The choice of a frequency changes the channel alone.
  frequency_only :
      (fs : List ℕ) (s : State F32)
      → (get_mesh_frequency fs s).1
        ≡ record s { mesh_channel = (get_mesh_frequency fs s).1.mesh_channel }
  unfolding get_mesh_frequency ◌>>=◌
  frequency_only [] s = refl
  frequency_only (f ∷ fs) s = refl

  frequency-IsValid : Keeps IsValid (get_mesh_frequency env.conf.mesh.frequencies)
  frequency-IsValid = record {
    at = λ s v. subst IsValid (sym (frequency_only env.conf.mesh.frequencies s)) (record {
      cache_size = v.cache_size;
      cache_length = v.cache_length;
      channel = channel_valid env.conf.mesh.frequencies s v.channel;
      identifier = v.identifier;
      contexts = v.contexts;
      frames = v.frames;
    });
  }

  next_uplink_id-le : (id : ℕ) → next_uplink_id id ≤ 4095
  unfolding next_uplink_id
  next_uplink_id-le id = ground arith

  store-IsValid : (ctx : List ℕ) → Keeps IsValid (store_uplink_context ctx)
  unfolding store_uplink_context get_uplink_id ◌>>=◌
  store-IsValid ctx = record {
    at = λ s v. record {
      cache_size = v.cache_size;
      cache_length = v.cache_length;
      channel = v.channel;
      identifier = next_uplink_id-le s.uplink_id;
      contexts = λ id c e. ground (arith, e, v.contexts id c, next_uplink_id-le s.uplink_id);
      frames = v.frames;
    };
  }

  cached-IsValid : (packet : MeshPacket) → Keeps IsValid (add_to_cache packet)
  unfolding add_to_cache pure
  cached-IsValid packet = record {
    at = λ s v. record {
      cache_size = add-size payload_cache_eq s.payload_cache (from_packet packet) ∙ v.cache_size;
      cache_length =
          add-length payload_cache_eq s.payload_cache (from_packet packet) 63 v.cache_size
            v.cache_length;
      channel = v.channel;
      identifier = v.identifier;
      contexts = v.contexts;
      frames = v.frames;
    };
  }

  primitive-IsStable : IsStable env IsValid
  unfolding random now set_last_timestamp pure
  primitive-IsStable = record {
    random = record { at = λ s v. like v };
    now = record { at = λ s v. like v };
    frequency = frequency-IsValid;
    store = store-IsValid;
    timestamp = λ ts. record { at = λ s v. like v };
    mesh = λ pl h. sent-IsValid (mesh_frame pl) h;
    downlink = λ pl. sent-IsValid (downlink_frame pl) tt;
    configuration = λ pl. sent-IsValid (gateway_configuration pl) tt;
  }

  proxied-IsValid : (pl : Gw.Event F32) → Keeps IsValid (emit (proxy_event pl))
  proxied-IsValid pl = sent-IsValid (proxy_event pl) tt

  start-IsValid : IsValid start
  unfolding start
  start-IsValid = record {
    cache_size = refl;
    cache_length = omega arith;
    channel = inl refl;
    identifier = omega arith;
    contexts = λ id c e. cc;
    frames = tt;
  }

  Step-IsValid : {s s' : State F32} → Step s s' → IsValid s → IsValid s'
  unfolding report_heartbeat
  Step-IsValid (event matches e s) v =
      (handle_event_msg-Keeps env primitive-IsStable proxied-IsValid matches _ _ e).at s v
  Step-IsValid (mesh_event e s) v =
      (handle_mesh_event_msg-Keeps env _ (dispatch-Keeps env primitive-IsStable proxied-IsValid _)
          cached-IsValid e).at
        s v
  Step-IsValid (command cmd s) v = (handle_command-Keeps env primitive-IsStable cmd).at s v
  Step-IsValid (heartbeat s) v = (send_events-Keeps env primitive-IsStable _).at s v
  Step-IsValid (report typs s) v = (report_events-Keeps env primitive-IsStable typs).at s v

  -- In every state that the program reaches, whatever arrives and whatever the Concentratord
  -- processes and the programs answer: the payload cache holds at most its 64 keys, the channel in use
  -- is the first or one of the configured frequencies, uplink identifiers, stored ones included, fit
  -- 12 bits, and every frame ever sent to the mesh is one encoded packet that starts here, with hop
  -- count 1, or whose hop count is at most the configured maximum.
  pub Reaches-IsValid : {s : State F32} → Reaches s → IsValid s
  Reaches-IsValid at_start = start-IsValid
  Reaches-IsValid (after r step) = Step-IsValid step (Reaches-IsValid r)
