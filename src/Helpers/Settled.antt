-- ===== src/Helpers/Settled.antt =====
-- The helpers return on every input: they neither panic nor hang.
use chirpstack_gateway_mesh.Common.{
  ℕ, ◌+◌, ◌%◌, ◌≤◌, ◌<◌, ◌≡◌, refl, List, [], ◌∷◌, Option, none, some, Bool, Bool-cases, inl, inr,
  length, get_elem?, in_range, arith,
}
use chirpstack_gateway_mesh.Common.Int.{ℤ, leb_ℤ}
use chirpstack_gateway_mesh.Common.Result.{
  ok, IsSettled, IsSettled->>=, IsSettled-ok_or, ok_or, no_modulation, no_tx_power,
}
use chirpstack_gateway_mesh.Config.{Mappings}
use chirpstack_gateway_mesh.Gw
use chirpstack_gateway_mesh.Gw.{DownlinkFrame, DownlinkFrameItem, DownlinkTxAck, UplinkFrame}
use chirpstack_gateway_mesh.Helpers.Ack.{
  tx_ack_to_err, format_items, format_downlink, format_uplink,
}
use chirpstack_gateway_mesh.Helpers.Mapping.{
  frequency_to_chan, chan_to_frequency, modulation_to_dr, data_rate_from_gw, code_rate_from_gw,
  dr_to_modulation,
}
use chirpstack_gateway_mesh.Helpers.TxPower.{
  better, update, tx_power_loop, tx_power_to_index, index_to_tx_power,
}

pub tx_ack_to_err-IsSettled : (a : DownlinkTxAck) → IsSettled (tx_ack_to_err a)
unfolding tx_ack_to_err
tx_ack_to_err-IsSettled a = ground arith

format_items-IsSettled : (items : List DownlinkFrameItem) → IsSettled (format_items items)
unfolding format_items
format_items-IsSettled [] = tt
format_items-IsSettled (i ∷ items) = IsSettled->>= _ _ (IsSettled-ok_or i.tx_info _) λ t.
    IsSettled->>= _ _ (IsSettled-ok_or t.modulation _)
      λ m. IsSettled->>= _ _ (IsSettled-ok_or t.timing _) λ u. format_items-IsSettled items

pub format_downlink-IsSettled : (pl : DownlinkFrame) → IsSettled (format_downlink pl)
unfolding format_downlink
format_downlink-IsSettled pl = format_items-IsSettled pl.items

pub format_uplink-IsSettled : {F32 : Type 0} (pl : UplinkFrame F32) → IsSettled (format_uplink pl)
unfolding format_uplink
format_uplink-IsSettled pl = IsSettled->>= _ _ (IsSettled-ok_or pl.tx_info _) λ t.
    IsSettled->>= _ _ (IsSettled-ok_or pl.rx_info _)
      λ r. IsSettled->>= _ _ (IsSettled-ok_or t.modulation _) λ m. tt

data_rate-IsSettled : (p : Gw.ModulationParameters) → IsSettled (data_rate_from_gw p)
unfolding data_rate_from_gw
data_rate-IsSettled (Gw.ModulationParameters.lora v) =
    IsSettled->>= _ _ (IsSettled-ok_or (code_rate_from_gw v.code_rate) _) λ c. tt
data_rate-IsSettled (Gw.ModulationParameters.fsk v) = tt
data_rate-IsSettled Gw.ModulationParameters.lr_fhss = tt

module _ (conf : Mappings) where
  pub frequency_to_chan-IsSettled : (f : ℕ) → IsSettled (frequency_to_chan conf f)
  unfolding frequency_to_chan
  frequency_to_chan-IsSettled f = IsSettled-ok_or _ _

  pub chan_to_frequency-IsSettled : (c : ℕ) → IsSettled (chan_to_frequency conf c)
  unfolding chan_to_frequency
  chan_to_frequency-IsSettled c = IsSettled-ok_or _ _

  pub modulation_to_dr-IsSettled : (m : Gw.Modulation) → IsSettled (modulation_to_dr conf m)
  unfolding modulation_to_dr
  modulation_to_dr-IsSettled m =
      IsSettled->>= _ _ (IsSettled-ok_or m.parameters _)
        λ p. IsSettled->>= _ _ (data_rate-IsSettled p) λ dr. IsSettled-ok_or _ _

  pub dr_to_modulation-IsSettled :
      (dr : ℕ) (ipol : Bool) → IsSettled (dr_to_modulation conf dr ipol)
  unfolding dr_to_modulation
  dr_to_modulation-IsSettled dr ipol =
      IsSettled->>= (ok_or (get_elem? conf.data_rates dr) no_modulation) _ (IsSettled-ok_or _ _)
        λ d. tt

  pub index_to_tx_power-IsSettled : (i : ℕ) → IsSettled (index_to_tx_power conf i)
  unfolding index_to_tx_power
  index_to_tx_power-IsSettled i = IsSettled-ok_or _ _

-- An index into the table that the loop holds is in range.
abbrev InTable : List ℤ → Option ℕ → Type 0
InTable table none = Unit
InTable table (some v) = v < length table

module _ (table : List ℤ) (tx_power : ℤ) where
  update-InTable :
      (i : ℕ) (out : Option ℕ)
      → i < length table
      → InTable table out
      → (next : Option ℕ) × (update table tx_power i out ≡ ok next) × InTable table next
  unfolding update better
  update-InTable i none lt h = (some (i % 256), refl, omega (arith, lt))
  update-InTable i (some v) lt h =
      let (q, found) = in_range table v h in rw found (_, refl, ground (arith, lt, h))

  loop-IsSettled :
      (i : ℕ) (out : Option ℕ) (ps : List ℤ)
      → i + length ps ≤ length table
      → InTable table out
      → IsSettled (tx_power_loop table tx_power i out ps)
  unfolding tx_power_loop
  loop-IsSettled i out [] fits h = tt
  loop-IsSettled i out (p ∷ ps) fits h = elim (Bool-cases (leb_ℤ p tx_power)) [
    | inl low ↦
        let (next, e, k) = update-InTable i out (omega (arith, fits)) h in
        rw (low, e) (loop-IsSettled (i + 1) next ps (omega (arith, fits)) k)
    | inr high ↦ rw high (loop-IsSettled (i + 1) out ps (omega (arith, fits)) h)
  ]

-- The index that the loop holds never leaves the table, however long that is.
pub tx_power_to_index-IsSettled : (conf : Mappings) (p : ℤ) → IsSettled (tx_power_to_index conf p)
unfolding tx_power_to_index
tx_power_to_index-IsSettled conf p =
    IsSettled->>= _ _ (loop-IsSettled conf.tx_power p 0 none conf.tx_power (omega arith) tt)
      λ out. IsSettled-ok_or out no_tx_power
