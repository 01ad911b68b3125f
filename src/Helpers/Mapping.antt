-- ===== src/Helpers/Mapping.antt =====
-- Channels and data rates: the index of a configured value, and the value at an index.
use chirpstack_gateway_mesh.Common.{
  ℕ, suc, ◌+◌, ◌/◌, ◌%◌, ◌≤◌, ◌<◌, ◌≡◌, refl, ◌∙◌, ap, ap₂, sym, Bool, List, [], ◌∷◌, Option, none,
  some, length, get_elem?, arith,
}
use chirpstack_gateway_mesh.Common.Result.{
  Result, ok, err, ◌>>=◌, >>=-eq-ok, ok_injective, ok_or, ok_or_injective, parameters_is_none,
  cr_is_undefined, lr_fhss_not_supported, no_channel, no_frequency, no_data_rate, no_modulation,
}
use chirpstack_gateway_mesh.Gw
use chirpstack_gateway_mesh.Config
use chirpstack_gateway_mesh.Config.{DataRate, DataRate-discrete, Mappings}
use mathlib.Core.Logic.{ite, if_pos, if_neg}
use native.Mathlib.Decide.{ℕ_discrete}

index_at : (i j : ℕ) → i < 256 → i % 256 ≡ j → j ≡ i + 0
index_at i j lt e = omega arith

some_injective : {A : Type 0} {a b : A} → some a ≡ some b → a ≡ b
some_injective e = cc e

module _ {A : Type 0} (dec : Discrete A) where
  -- `for (i, v) in table.iter().enumerate() { if a == *v { return Ok(i as u8) } }`
  unfoldable pub index_from : ℕ → A → List A → Option ℕ
  index_from i a [] = none
  index_from i a (v ∷ vs) = ite (dec a v) (some (i % 256)) (index_from (i + 1) a vs)

  index_from_sound :
      (i : ℕ) (a : A) (vs : List A) {j : ℕ}
      → i + length vs ≤ 256
      → index_from i a vs ≡ some j
      → (k : ℕ) × (j ≡ i + k) × (get_elem? vs k ≡ some a)
  unfolding index_from
  index_from_sound i a [] fits e = absurd (cc e)
  index_from_sound i a (v ∷ vs) {j = j} fits e = elim (dec a v) [
    | yes p ↦ (
      0,
      index_at i j (omega arith) (some_injective (sym (if_pos (dec a v) p _ _) ∙ e)),
      ap some (sym p),
    )
    | no p ↦
        let (k, at, found) =
          index_from_sound (i + 1) a vs (omega arith) (sym (if_neg (dec a v) p _ _) ∙ e) in
        (suc k, omega arith, found)
  ]

  -- An index that the search returns is that of the value, in a table of at most 256 entries.
  pub get_elem?-index_from :
      (a : A) (vs : List A) {j : ℕ}
      → length vs ≤ 256
      → index_from 0 a vs ≡ some j
      → get_elem? vs j ≡ some a
  get_elem?-index_from a vs fits e =
      let (k, at, found) = index_from_sound 0 a vs (omega arith) e in rw at (rw (zero_add k) found)
    where
      zero_add : (k : ℕ) → 0 + k ≡ k
      zero_add k = omega arith

module _ (conf : Mappings) where
  unfoldable pub frequency_to_chan : ℕ → Result ℕ
  unfolding index_from ℕ_discrete
  frequency_to_chan freq = ok_or (index_from ℕ_discrete 0 freq conf.channels) no_channel

  unfoldable pub chan_to_frequency : ℕ → Result ℕ
  chan_to_frequency chan = ok_or (get_elem? conf.channels chan) no_frequency

  -- A frequency is found at the channel that it maps to.
  pub chan_to_frequency-frequency_to_chan :
      (freq : ℕ) {chan : ℕ}
      → length conf.channels ≤ 256
      → frequency_to_chan freq ≡ ok chan
      → chan_to_frequency chan ≡ ok freq
  unfolding frequency_to_chan chan_to_frequency
  chan_to_frequency-frequency_to_chan freq fits e =
      rw (get_elem?-index_from ℕ_discrete freq conf.channels fits (ok_or_injective _ _ e)) refl

-- `match v.code_rate() { .. }`: the configuration has no undefined code rate.
unfoldable pub code_rate_from_gw : Gw.CodeRate → Option Config.CodeRate
code_rate_from_gw Gw.CodeRate.cr45 = some Config.CodeRate.cr45
code_rate_from_gw Gw.CodeRate.cr46 = some Config.CodeRate.cr46
code_rate_from_gw Gw.CodeRate.cr47 = some Config.CodeRate.cr47
code_rate_from_gw Gw.CodeRate.cr48 = some Config.CodeRate.cr48
code_rate_from_gw Gw.CodeRate.cr38 = some Config.CodeRate.cr38
code_rate_from_gw Gw.CodeRate.cr26 = some Config.CodeRate.cr26
code_rate_from_gw Gw.CodeRate.cr14 = some Config.CodeRate.cr14
code_rate_from_gw Gw.CodeRate.cr16 = some Config.CodeRate.cr16
code_rate_from_gw Gw.CodeRate.cr56 = some Config.CodeRate.cr56
code_rate_from_gw Gw.CodeRate.cr_li45 = some Config.CodeRate.cr_li45
code_rate_from_gw Gw.CodeRate.cr_li46 = some Config.CodeRate.cr_li46
code_rate_from_gw Gw.CodeRate.cr_li48 = some Config.CodeRate.cr_li48
code_rate_from_gw Gw.CodeRate.cr_undefined = none

-- `match dr.code_rate { .. }`.
unfoldable pub code_rate_to_gw : Option Config.CodeRate → Gw.CodeRate
code_rate_to_gw none = Gw.CodeRate.cr_undefined
code_rate_to_gw (some Config.CodeRate.cr45) = Gw.CodeRate.cr45
code_rate_to_gw (some Config.CodeRate.cr46) = Gw.CodeRate.cr46
code_rate_to_gw (some Config.CodeRate.cr47) = Gw.CodeRate.cr47
code_rate_to_gw (some Config.CodeRate.cr48) = Gw.CodeRate.cr48
code_rate_to_gw (some Config.CodeRate.cr38) = Gw.CodeRate.cr38
code_rate_to_gw (some Config.CodeRate.cr26) = Gw.CodeRate.cr26
code_rate_to_gw (some Config.CodeRate.cr14) = Gw.CodeRate.cr14
code_rate_to_gw (some Config.CodeRate.cr16) = Gw.CodeRate.cr16
code_rate_to_gw (some Config.CodeRate.cr56) = Gw.CodeRate.cr56
code_rate_to_gw (some Config.CodeRate.cr_li45) = Gw.CodeRate.cr_li45
code_rate_to_gw (some Config.CodeRate.cr_li46) = Gw.CodeRate.cr_li46
code_rate_to_gw (some Config.CodeRate.cr_li48) = Gw.CodeRate.cr_li48

-- The data rate that `modulation_to_dr` looks for.
unfoldable pub data_rate_from_gw : Gw.ModulationParameters → Result DataRate
unfolding code_rate_from_gw
data_rate_from_gw (Gw.ModulationParameters.lora v) = do
  code_rate ← ok_or (code_rate_from_gw v.code_rate) cr_is_undefined
  ok (record {
    modulation = Config.Modulation.lora;
    spreading_factor = v.spreading_factor % 256;
    bandwidth = v.bandwidth;
    code_rate = some code_rate;
    bitrate = 0;
  })
data_rate_from_gw (Gw.ModulationParameters.fsk v) = ok (record {
  modulation = Config.Modulation.fsk;
  spreading_factor = 0;
  bandwidth = 0;
  code_rate = none;
  bitrate = v.datarate;
})
data_rate_from_gw Gw.ModulationParameters.lr_fhss = err lr_fhss_not_supported

-- `match dr.modulation { .. }`.
unfoldable pub gw_parameters : Config.Modulation → DataRate → Bool → Gw.ModulationParameters
unfolding code_rate_to_gw
gw_parameters Config.Modulation.lora dr ipol = Gw.ModulationParameters.lora (record {
  bandwidth = dr.bandwidth;
  spreading_factor = dr.spreading_factor;
  code_rate = code_rate_to_gw dr.code_rate;
  polarization_inversion = ipol;
})
gw_parameters Config.Modulation.fsk dr ipol =
    Gw.ModulationParameters.fsk
      (record { frequency_deviation = dr.bitrate / 2; datarate = dr.bitrate })

unfoldable pub data_rate_to_gw_modulation : DataRate → Bool → Gw.Modulation
unfolding gw_parameters
data_rate_to_gw_modulation dr ipol = record {
  parameters = some (gw_parameters dr.modulation dr ipol);
}

module _ (conf : Mappings) where
  unfoldable pub modulation_to_dr : Gw.Modulation → Result ℕ
  unfolding data_rate_from_gw index_from DataRate-discrete
  modulation_to_dr modulation = do
    parameters ← ok_or modulation.parameters parameters_is_none
    dr ← data_rate_from_gw parameters
    ok_or (index_from DataRate-discrete 0 dr conf.data_rates) no_data_rate

  unfoldable pub dr_to_modulation : ℕ → Bool → Result Gw.Modulation
  dr_to_modulation dr ipol = do
    dr ← ok_or (get_elem? conf.data_rates dr) no_modulation
    ok (data_rate_to_gw_modulation dr ipol)

-- The parameters with the polarization set, and the frequency deviation of the bit rate.
abbrev pub as_sent : Gw.ModulationParameters → Bool → Gw.ModulationParameters
as_sent (Gw.ModulationParameters.lora v) ipol =
    Gw.ModulationParameters.lora (record v { polarization_inversion = ipol })
as_sent (Gw.ModulationParameters.fsk v) ipol =
    Gw.ModulationParameters.fsk (record v { frequency_deviation = v.datarate / 2 })
as_sent Gw.ModulationParameters.lr_fhss ipol = Gw.ModulationParameters.lr_fhss

-- Spreading factors are bytes.
abbrev pub HasByteFactor : Gw.ModulationParameters → Type 0
HasByteFactor (Gw.ModulationParameters.lora v) = v.spreading_factor < 256
HasByteFactor p = Unit

code_rate_back :
    (c : Gw.CodeRate) {d : Config.CodeRate}
    → code_rate_from_gw c ≡ some d
    → code_rate_to_gw (some d) ≡ c
unfolding code_rate_from_gw code_rate_to_gw
code_rate_back Gw.CodeRate.cr_undefined e = absurd (cc e)
code_rate_back _ e = rw (sym (some_injective e)) refl

data_rate_back :
    (p : Gw.ModulationParameters) (dr : DataRate) (ipol : Bool)
    → HasByteFactor p
    → data_rate_from_gw p ≡ ok dr
    → gw_parameters dr.modulation dr ipol ≡ as_sent p ipol
unfolding data_rate_from_gw gw_parameters
data_rate_back (Gw.ModulationParameters.lora v) dr ipol h e =
    let (c, found, same) = >>=-eq-ok (ok_or (code_rate_from_gw v.code_rate) cr_is_undefined) _ e in
    let dr_is = sym (ok_injective same) in
    rw dr_is (
      ap₂
        (λ sf cr.
          Gw.ModulationParameters.lora
            (record v { spreading_factor = sf; code_rate = cr; polarization_inversion = ipol }))
        (omega arith) (code_rate_back v.code_rate (ok_or_injective _ _ found)))
data_rate_back (Gw.ModulationParameters.fsk v) dr ipol h e = rw (sym (ok_injective e)) refl
data_rate_back Gw.ModulationParameters.lr_fhss dr ipol h e = absurd (cc e)

module _ (conf : Mappings) where
  -- The index of a modulation leads back to its parameters, with the polarization that is asked
  -- for and the frequency deviation that the bit rate gives.
  pub dr_to_modulation-modulation_to_dr :
      (p : Gw.ModulationParameters) (ipol : Bool) {dr : ℕ}
      → length conf.data_rates ≤ 256
      → HasByteFactor p
      → modulation_to_dr conf (record { parameters = some p }) ≡ ok dr
      → dr_to_modulation conf dr ipol ≡ ok (record { parameters = some (as_sent p ipol) })
  unfolding modulation_to_dr dr_to_modulation data_rate_to_gw_modulation
  dr_to_modulation-modulation_to_dr p ipol fits h e =
      let (r, rate, found) = >>=-eq-ok (data_rate_from_gw p) _ e in
      rw
        (
          get_elem?-index_from DataRate-discrete r conf.data_rates fits (ok_or_injective _ _ found),
          data_rate_back p r ipol h rate,
        )
        refl
