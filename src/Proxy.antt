-- ===== src/Proxy.antt =====
-- `src/proxy.rs`: the commands of the network server, which come in through the proxy API.
use chirpstack_gateway_mesh.Common.{ℕ, List, [], ◌∷◌, Option, none, some, replicate}
use chirpstack_gateway_mesh.Common.Result.{unexpected_command}
use chirpstack_gateway_mesh.Common.Result
use chirpstack_gateway_mesh.Helpers.Ack.{format_downlink}
use chirpstack_gateway_mesh.Gw
use chirpstack_gateway_mesh.Runtime.{State, Env, M, ◌>>=◌, ◌>>◌, pure, lift, attempt}
use chirpstack_gateway_mesh.Backend.{get_gateway_id, send_gateway_configuration}
use chirpstack_gateway_mesh.Mesh.Downlink.{handle_downlink}
use chirpstack_gateway_mesh.Mesh.Handle.{send_mesh_command}

-- `unwrap_or_default()` of eight bytes.
abbrev pub id_or_zeros : Option (List ℕ) → List ℕ
id_or_zeros none = replicate 8 0
id_or_zeros (some id) = id

-- `Err(e) => { let _ = cmd.1.send(vec![]); }`.
abbrev pub reply_of : Option (List ℕ) → List ℕ
reply_of none = []
reply_of (some reply) = reply

module _ {F32 : Type 0} (env : Env F32) where
  unfoldable pub handle_command : Gw.Command → M (State F32) (List ℕ)
  unfolding send_gateway_configuration format_downlink handle_downlink get_gateway_id
      send_mesh_command
  handle_command (Gw.Command.set_gateway_configuration v) = do
    send_gateway_configuration env v
    pure []
  handle_command (Gw.Command.send_downlink_frame v) = do
    lift (format_downlink v)
    tx_ack ← handle_downlink env v
    pure (env.encode_tx_ack tx_ack)
  handle_command Gw.Command.get_gateway_id = do
    id ← attempt (get_gateway_id env)
    pure (env.encode_gateway_id (env.hex_encode (id_or_zeros id)))
  handle_command (Gw.Command.mesh v) = do send_mesh_command env v; pure []
  handle_command Gw.Command.other_command = lift (Result.err unexpected_command)

  -- The replies to the commands that arrive, in their order.
  unfoldable pub command_loop : List Gw.Command → M (State F32) (List (List ℕ))
  unfolding handle_command
  command_loop [] = pure []
  command_loop (cmd ∷ cmds) = do
    reply ← attempt (handle_command cmd)
    replies ← command_loop cmds
    pure (reply_of reply ∷ replies)
