-- ===== src/Tests/Radio.antt =====
-- Runs of the theorems on the mappings and the cache.
use chirpstack_gateway_mesh.Common.{
  ℕ, All, get_elem?, ◌≡◌, refl, true, false, not, [], ◌∷◌, some, arith, ◌==◌,
}
use chirpstack_gateway_mesh.Common.Int.{ℤ, pos, ◌≤ℤ◌}
use chirpstack_gateway_mesh.Common.Result.{ok, ◌>>=◌}
use chirpstack_gateway_mesh.Config.{Mappings}
use chirpstack_gateway_mesh.Gw
use chirpstack_gateway_mesh.Helpers.Mapping
use chirpstack_gateway_mesh.Helpers.TxPower.{tx_power_to_index, index_to_tx_power}
use chirpstack_gateway_mesh.Helpers.TxPower.Closest.{tx_power_closest, tx_power_lowest}
use chirpstack_gateway_mesh.Cache
use chirpstack_gateway_mesh.Cache.{Cache, Holds, note, last, add_all}
use native.Mathlib.Decide.{ℕ_discrete}
use chirpstack_gateway_mesh.Tests.Data.{mappings}

channel_found : Mapping.frequency_to_chan mappings 868300000 ≡ ok 1
unfolding Mapping.frequency_to_chan
channel_found = refl

abbrev sf7_parameters : Gw.ModulationParameters
sf7_parameters = Gw.ModulationParameters.lora (record {
  bandwidth = 125000;
  spreading_factor = 7;
  code_rate = Gw.CodeRate.cr45;
  polarization_inversion = false;
})

data_rate_found :
    Mapping.modulation_to_dr mappings (record { parameters = some sf7_parameters }) ≡ ok 0
unfolding Mapping.modulation_to_dr ℕ_discrete
data_rate_found = refl

tx_power_closest_example :
    (q : ℤ) × ((i : ℕ) × (tx_power_to_index mappings (pos 20) ≡ ok i)
      × (get_elem? mappings.tx_power i ≡ some q))
    × (q ≤ℤ pos 20)
    × All (λ p. p ≤ℤ pos 20 → p ≤ℤ q) mappings.tx_power
tx_power_closest_example =
    tx_power_closest mappings (pos 20) (pos 10) (pos 14 ∷ pos 27 ∷ []) refl (omega arith)
      (omega arith, (omega arith, tt)) (omega arith)

abbrev falling : Mappings
falling = record { channels = []; tx_power = pos 14 ∷ pos 10 ∷ []; data_rates = [] }

tx_power_lowest_example :
    (tx_power_to_index falling (pos 20) >>= index_to_tx_power falling) ≡ ok (pos 10)
tx_power_lowest_example =
    tx_power_lowest falling (pos 20) (pos 14) (pos 10 ∷ []) refl (omega arith) (omega arith, tt)
      refl

abbrev two_seen : Cache ℕ
two_seen = record { deque = 5 ∷ 6 ∷ []; size = 2 }

two_seen-Holds : Holds two_seen (4 ∷ 5 ∷ 6 ∷ [])
two_seen-Holds = record { room = omega arith; window = refl }

add-Holds_example :
    Holds (Cache.add ◌==◌ two_seen 7).1 (note ◌==◌ 2 (4 ∷ 5 ∷ 6 ∷ []) 7)
    × ((Cache.add ◌==◌ two_seen 7).0 ≡ not (Cache.contains ◌==◌ (last 2 (4 ∷ 5 ∷ 6 ∷ [])) 7))
    × ((Cache.add ◌==◌ two_seen 7).1.size ≡ 2)
add-Holds_example = Cache.add-Holds ◌==◌ two_seen (4 ∷ 5 ∷ 6 ∷ []) 7 two_seen-Holds

seven_accepted : (Cache.add ◌==◌ two_seen 7).0 ≡ true
unfolding Cache.add Cache.contains
seven_accepted = refl
