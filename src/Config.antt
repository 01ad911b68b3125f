-- ===== src/Config.antt =====
-- `src/config.rs`: the configuration and its defaults.
pub mod Text
pub mod Load
use Prim.Native.String.{String}
use chirpstack_gateway_mesh.Common.{ℕ, Bool, false, List, [], ◌∷◌, Option, none, some}
use chirpstack_gateway_mesh.Common.Result.{Result, ok, err, panicked, already_set}
use chirpstack_gateway_mesh.Common.Int.{ℤ, pos}
use chirpstack_gateway_mesh.Aes128.{Aes128Key, null}
use native.Mathlib.Decide.{ℕ_discrete}

pub data Modulation : Type 0 where
  lora fsk : Modulation

pub data CodeRate : Type 0 where
  cr45 cr46 cr47 cr48 cr38 cr26 cr14 cr16 cr56 cr_li45 cr_li46 cr_li48 : CodeRate

pub record DataRate : Type 0 where
  pub modulation : Modulation
  pub spreading_factor : ℕ
  pub bandwidth : ℕ
  pub code_rate : Option CodeRate
  pub bitrate : ℕ

pub record Mappings : Type 0 where
  pub channels : List ℕ
  pub tx_power : List ℤ
  pub data_rates : List DataRate

-- `std::time::Duration`.
pub record Duration : Type 0 where
  pub secs : ℕ
  pub nanos : ℕ

pub record Logging : Type 0 where
  pub level : String
  pub log_to_syslog : Bool

pub record ProxyApi : Type 0 where
  pub event_bind : String
  pub command_bind : String

pub record Concentratord : Type 0 where
  pub event_url : String
  pub command_url : String

pub record Backend : Type 0 where
  pub concentratord : Concentratord
  pub mesh_concentratord : Concentratord

-- Without the filters of uplinks, whose type is the `lrwn_filters` crate's.
pub record Mesh : Type 0 where
  pub relay_id : String
  pub root_key : Aes128Key
  pub signing_key : Aes128Key
  pub frequencies : List ℕ
  pub data_rate : DataRate
  pub tx_power : ℤ
  pub proxy_api : ProxyApi
  pub border_gateway : Bool
  pub border_gateway_ignore_direct_uplinks : Bool
  pub max_hop_count : ℕ

pub record EventsSet : Type 0 where
  pub interval : Duration
  pub events : List ℕ

-- A table by text is the list of its entries, in the order in which it is walked.
pub record Events : Type 0 where
  pub heartbeat_interval : Duration
  pub commands : List (String × List (List ℕ))
  pub sets : List EventsSet

pub record Commands : Type 0 where
  pub commands : List (String × List (List ℕ))

pub record Configuration : Type 0 where
  pub logging : Logging
  pub mesh : Mesh
  pub backend : Backend
  pub mappings : Mappings
  pub events : Events
  pub commands : Commands

abbrev pub default_logging : Logging
default_logging = record { level = "info"; log_to_syslog = false }

abbrev pub default_proxy_api : ProxyApi
default_proxy_api = record {
  event_bind = "ipc:///tmp/gateway_relay_event";
  command_bind = "ipc:///tmp/gateway_relay_command";
}

abbrev pub default_concentratord : Concentratord
default_concentratord = record {
  event_url = "ipc:///tmp/concentratord_event";
  command_url = "ipc:///tmp/concentratord_command";
}

abbrev pub default_mesh : Mesh
default_mesh = record {
  relay_id = "";
  root_key = null;
  signing_key = null;
  frequencies = 868100000 ∷ 868300000 ∷ 868500000 ∷ [];
  data_rate = record {
    modulation = Modulation.lora;
    spreading_factor = 7;
    bandwidth = 125000;
    code_rate = some CodeRate.cr45;
    bitrate = 0;
  };
  tx_power = pos 16;
  proxy_api = default_proxy_api;
  border_gateway = false;
  border_gateway_ignore_direct_uplinks = false;
  max_hop_count = 1;
}

abbrev pub default_events : Events
default_events = record {
  heartbeat_interval = record { secs = 300; nanos = 0 };
  commands = [];
  sets = [];
}

-- `Configuration::default()`, as derived.
abbrev pub default_configuration : Configuration
default_configuration = record {
  logging = default_logging;
  mesh = default_mesh;
  backend = record {
    concentratord = default_concentratord;
    mesh_concentratord = default_concentratord;
  };
  mappings = record { channels = []; tx_power = []; data_rates = [] };
  events = default_events;
  commands = record { commands = [] };
}

-- `CONFIG`: it is set once, and cannot be read before.
unfoldable pub set : Configuration → Option Configuration → Result (Unit {0}) × Option Configuration
set c none = (ok tt, some c)
set c (some old) = (err already_set, some old)

unfoldable pub get : Option Configuration → Result Configuration
get none = panicked
get (some c) = ok c

-- The derived equality of data rates.
unfoldable pub DataRate-discrete : Discrete DataRate
DataRate-discrete = hlevel ℕ_discrete
