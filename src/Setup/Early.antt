-- ===== src/Setup/Early.antt =====
-- What happens to the events and commands that arrive while the program starts.
use Prim.Native.String.{String}
use mathlib.Core.Path.{subst}
use chirpstack_gateway_mesh.Common.{
  ℕ, ◌≡◌, refl, sym, ◌∙◌, ap, true, false, List, none, some, get_elem?, replicate,
}
use chirpstack_gateway_mesh.Common.Bytes.{Bytes4}
use chirpstack_gateway_mesh.Common.Result.{
  Result, ok, err, panicked, diverged, ok_or, rx_info_is_none, tx_info_is_none, modulation_is_none,
  relay_id_not_set,
}
use chirpstack_gateway_mesh.Config.{Configuration}
use chirpstack_gateway_mesh.Gw
use chirpstack_gateway_mesh.Gw.{UplinkFrame}
use chirpstack_gateway_mesh.Runtime.{M, State, Env, ◌>>=◌, pure, lift, attempt, resume}
use chirpstack_gateway_mesh.Backend.{get_relay_id, get_gateway_id}
use chirpstack_gateway_mesh.Proxy.{handle_command}
use chirpstack_gateway_mesh.Mesh.Counters.{store_uplink_context, get_uplink_id}
use chirpstack_gateway_mesh.Helpers.Mapping.{modulation_to_dr, frequency_to_chan}
use chirpstack_gateway_mesh.Mesh.Relay.{uplink_packet, relay_uplink_lora_packet}
use chirpstack_gateway_mesh.Mesh.Handle.{handle_uplink}
use chirpstack_gateway_mesh.Setup.{Table, no_commands, collect, gateway_id_of, relay_id_of}
use chirpstack_gateway_mesh.Setup.Run.{event_loop, command_loop, Start, nothing_set, Outside, run}
use chirpstack_gateway_mesh.Setup.Ready.{run_relay, run_border}

module _ {F32 : Type 0} (env : Env F32) (unset : env.relay_id ≡ none) (pl : UplinkFrame F32)
    (s : State F32) where
  -- It returns no value, and nothing has been sent.
  abbrev Fails : {A : Type 0} → Result A × State F32 → Type 0
  Fails (ok a, t) = ⊥
  Fails (err e, t) = t.sent ≡ s.sent
  Fails (panicked, t) = t.sent ≡ s.sent
  Fails (diverged, t) = t.sent ≡ s.sent

  resume-Fails :
      {A B : Type 0} (r : Result A) (f : A → M (State F32) B) (t : State F32)
      → t.sent ≡ s.sent
      → ((a : A) → Fails (f a t))
      → Fails (resume (r, t) f)
  resume-Fails (ok a) f t e h = h a
  resume-Fails (err x) f t e h = e
  resume-Fails panicked f t e h = e
  resume-Fails diverged f t e h = e

  ends-Fails :
      {A B : Type 0} (r : Result A × State F32) (f : A → M (State F32) B)
      → Fails r
      → Fails (resume r f)
  ends-Fails (ok a, t) f h = absurd h
  ends-Fails (err x, t) f h = h
  ends-Fails (panicked, t) f h = h
  ends-Fails (diverged, t) f h = h

  no_relay_id :
      {B : Type 0} (f : Bytes4 → M (State F32) B) (t : State F32)
      → t.sent ≡ s.sent
      → Fails (resume (get_relay_id env t) f)
  unfolding get_relay_id lift
  no_relay_id f t e = subst (λ o. Fails (resume (ok_or o relay_id_not_set, t) f)) (sym unset) e

  packet-Fails : Fails (uplink_packet env pl s)
  unfolding uplink_packet store_uplink_context get_uplink_id pure lift ◌>>=◌
  packet-Fails = resume-Fails (ok_or pl.rx_info rx_info_is_none) _ s refl λ rx_info.
      resume-Fails (ok_or pl.tx_info tx_info_is_none) _ s refl λ tx_info.
        resume-Fails (ok_or tx_info.modulation modulation_is_none) _ s refl λ modulation.
          let t = (store_uplink_context rx_info.context s).1 in
          resume-Fails (modulation_to_dr env.conf.mappings modulation) _ t refl λ dr.
            resume-Fails (frequency_to_chan env.conf.mappings tx_info.frequency) _ t refl
              λ channel. no_relay_id _ t refl

  -- An uplink is not relayed.
  uplink-Fails : Fails (handle_uplink env false pl s)
  unfolding handle_uplink relay_uplink_lora_packet ◌>>=◌
  uplink-Fails = ends-Fails (uplink_packet env pl s) _ packet-Fails

  not_sent : {A : Type 0} (r : Result A × State F32) → Fails r → r.1.sent ≡ s.sent
  not_sent (ok a, t) h = absurd h
  not_sent (err e, t) h = h
  not_sent (panicked, t) h = h
  not_sent (diverged, t) h = h

module _ {F32 : Type 0} (out : Outside) (conf : Configuration) (answer mesh_answer : String)
    (id : List ℕ) (relay_id : Bytes4) (event_table table : Table) where
  -- Of a relay whose Concentratord processes answer with identifiers, and whose tables have only bytes for
  -- keys, the loop over the uplinks is the third thing that is spawned, and with the relay ID that is set
  -- at that time, namely none, handling an uplink sends nothing.
  pub early_uplink_lost :
      (env : Env F32) (start : Start) (pl : UplinkFrame F32) (s : State F32)
      → out.answer ≡ ok answer
      → out.mesh_answer ≡ ok mesh_answer
      → gateway_id_of out.hex_decode answer ≡ ok id
      → relay_id_of out.hex_decode conf.mesh.relay_id mesh_answer ≡ ok relay_id
      → conf.mesh.border_gateway ≡ false
      → collect out.parse no_commands conf.events.commands ≡ ok event_table
      → collect out.parse no_commands conf.commands.commands ≡ ok table
      → get_elem? (run out conf nothing_set).1.starts 2 ≡ some start
      → env.relay_id ≡ start.relay_id
      → (start.spawned ≡ event_loop false conf.mesh.border_gateway_ignore_direct_uplinks)
        × ((handle_uplink env false pl s).1.sent ≡ s.sent)
  early_uplink_lost env start pl s answers mesh_answers id_is relay_id_is relay events_is table_is
        third same =
      let (beats, are, ready) =
        run_relay out conf answer mesh_answer id relay_id answers mesh_answers id_is relay_id_is
          event_table table relay events_is table_is in
      let started : some start
          ≡ some (record {
            spawned = event_loop false conf.mesh.border_gateway_ignore_direct_uplinks;
            gateway_id = some id;
            relay_id = none;
          }) =
        sym third
        ∙ ap (λ x. get_elem? x.1.starts 2) ready
        ∙ ap
            (λ b. some (record {
              spawned = event_loop b conf.mesh.border_gateway_ignore_direct_uplinks;
              gateway_id = some id;
              relay_id = none;
            }))
            relay in
      let unset : env.relay_id ≡ none = same ∙ cc started in
      (
        cc started,
        not_sent env unset pl s (handle_uplink env false pl s) (uplink-Fails env unset pl s),
      )

  -- Before the gateway ID is set, the proxy API answers with the ID of eight zeros.
  unnamed :
      (env : Env F32) (s : State F32)
      → env.gateway_id ≡ none
      → handle_command env Gw.Command.get_gateway_id s
        ≡ (ok (env.encode_gateway_id (env.hex_encode (replicate 8 0))), s)
  unfolding handle_command get_gateway_id attempt lift pure ◌>>=◌
  unnamed env s unset = rw unset refl

  -- Of a Border Gateway whose Concentratord processes answer with identifiers, the command loop is the third
  -- thing that is spawned, and with the gateway ID that is set at that time, namely none, the question
  -- for the gateway ID is answered without an error, with the ID of eight zeros.
  pub early_gateway_id :
      (env : Env F32) (start : Start) (s : State F32)
      → out.answer ≡ ok answer
      → out.mesh_answer ≡ ok mesh_answer
      → gateway_id_of out.hex_decode answer ≡ ok id
      → relay_id_of out.hex_decode conf.mesh.relay_id mesh_answer ≡ ok relay_id
      → conf.mesh.border_gateway ≡ true
      → get_elem? (run out conf nothing_set).1.starts 2 ≡ some start
      → env.gateway_id ≡ start.gateway_id
      → (start.spawned ≡ command_loop)
        × (handle_command env Gw.Command.get_gateway_id s
            ≡ (ok (env.encode_gateway_id (env.hex_encode (replicate 8 0))), s))
  early_gateway_id env start s answers mesh_answers id_is relay_id_is border third same =
      let started =
        sym third
        ∙ ap (λ x. get_elem? x.1.starts 2)
            (run_border out conf answer mesh_answer id relay_id answers mesh_answers id_is
              relay_id_is border) in
      (cc started, unnamed env s (same ∙ cc started))
