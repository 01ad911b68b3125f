-- ===== src/Common/Result.antt =====
-- `anyhow::Result`: each error message of the source is a constructor of `Error`. A panic is an
-- outcome of its own, since the source aborts there, and so is a loop that its fuel does not end.
use chirpstack_gateway_mesh.Common.Tests.{if◌then◌else◌}
use Prim.Native.Nat.{ℕ}
use mathlib.Core.Path.{◌≡◌, refl, ap}
use mathlib.Core.Bool.{Bool, true, false}
use mathlib.Core.Option.{Option, none, some}

pub data Error : Type 0 where
  input_is_empty not_enough_bytes mic_is_none invalid_mtype min_hop_count max_hop_count : Error
  unexpected_payload_type : ℕ → Error
  at_least_9_bytes at_least_10_bytes max_uplink_id max_dr max_rssi min_rssi min_snr max_snr : Error
  min_delay max_tx_power max_delay max_frequency frequency_step three_bytes_expected : Error
  unexpected_eof invalid_relay_path before_epoch : Error
  one_item_expected encrypted_item_expected : Error
  sixteen_bytes_expected cmac_too_short : Error
  parameters_is_none cr_is_undefined lr_fhss_not_supported : Error
  no_channel no_frequency no_data_rate no_modulation no_tx_power no_tx_power_index : Error
  tx_ack_error tx_info_is_none rx_info_is_none modulation_is_none timing_is_none : Error
  only_delay_timing context_too_short no_mesh_frequencies max_hop_count_exceeded : Error
  no_uplink_context timestamp_not_increased gateway_id_not_set relay_id_not_set : Error
  expected_uplink_payload expected_event_payload event_chan_not_set : Error
  backend_error unexpected_command commands_not_set : Error
  command_not_configured command_is_empty spawn_error hex_error : Error
  unexpected_code_rate already_set relay_id_length : Error
  zmq_error no_response decode_error : Error

pub data Result {ℓ} (T : Type ℓ) : Type ℓ where
  panicked diverged : Result T
  err : Error → Result T
  ok : T → Result T

-- `m?`, followed by the rest of the function.
infixl 5 ◌>>◌ ◌>>=◌
abbrev pub ◌>>=◌ {ℓ κ} :
    {T : Type ℓ} {U : Type κ} (step : Result T) (rest : T → Result U) → Result U
panicked >>= rest = panicked
diverged >>= rest = diverged
err e >>= rest = err e
ok t >>= rest = rest t

-- The same for a step without a value.
abbrev pub ◌>>◌ {κ} : {U : Type κ} (step : Result (Unit {0})) (rest : Result U) → Result U
step >> rest = step >>= λ u. rest

-- `if failed { return Err(e) }`.
abbrev pub reject_if : Bool → Error → Result (Unit {0})
reject_if true e = err e
reject_if false e = ok tt

-- `o.ok_or_else(|| e)`.
abbrev pub ok_or {ℓ} : {A : Type ℓ} → Option A → Error → Result A
ok_or none e = err e
ok_or (some a) e = ok a

-- `r.map(f)`.
abbrev pub map_ok {ℓ κ} : {A : Type ℓ} {B : Type κ} → (A → B) → Result A → Result B
map_ok f r = r >>= λ a. ok (f a)

-- `r.unwrap()`.
abbrev pub unwrap {ℓ} : {A : Type ℓ} → Result A → Result A
unwrap (err e) = panicked
unwrap r = r

pub ok_injective {ℓ} : {A : Type ℓ} {a b : A} → ok a ≡ ok b → a ≡ b
ok_injective h = cc h

pub ok_or_injective {ℓ} :
    {A : Type ℓ} (o : Option A) (e : Error) {a : A} → ok_or o e ≡ ok a → o ≡ some a
ok_or_injective none e h = absurd (cc h)
ok_or_injective (some b) e h = ap some (ok_injective h)

-- The code returned: it neither panicked nor hung.
abbrev pub IsSettled {ℓ} : {A : Type ℓ} → Result A → Type 0
IsSettled (ok a) = Unit
IsSettled (err e) = Unit
IsSettled panicked = ⊥
IsSettled diverged = ⊥

pub IsSettled->>= {ℓ κ} :
    {A : Type ℓ} {B : Type κ} (m : Result A) (f : A → Result B)
    → IsSettled m
    → ((a : A) → IsSettled (f a))
    → IsSettled (m >>= f)
IsSettled->>= (ok a) f h k = k a
IsSettled->>= (err e) f h k = tt
IsSettled->>= panicked f h k = h
IsSettled->>= diverged f h k = h

pub IsSettled-ok_or {ℓ} : {A : Type ℓ} (o : Option A) (e : Error) → IsSettled (ok_or o e)
IsSettled-ok_or none e = tt
IsSettled-ok_or (some a) e = tt

pub IsSettled-reject_if : (b : Bool) (e : Error) → IsSettled (reject_if b e)
IsSettled-reject_if true e = tt
IsSettled-reject_if false e = tt

pub IsSettled-if {ℓ} :
    {A : Type ℓ} (b : Bool) (r s : Result A)
    → IsSettled r
    → IsSettled s
    → IsSettled (if b then r else s)
IsSettled-if true r s h k = h
IsSettled-if false r s h k = k

pub IsSettled-map_ok {ℓ κ} :
    {A : Type ℓ} {B : Type κ} (f : A → B) (r : Result A) → IsSettled r → IsSettled (map_ok f r)
IsSettled-map_ok f r h = IsSettled->>= r (λ a. ok (f a)) h (λ a. tt)

-- Inversion of a successful step.
pub >>=-eq-ok {ℓ κ} :
    {T : Type ℓ} {U : Type κ} (step : Result T) (rest : T → Result U) {u : U}
    → (step >>= rest) ≡ ok u
    → (t : T) × (step ≡ ok t) × (rest t ≡ ok u)
>>=-eq-ok panicked rest h = cc
>>=-eq-ok diverged rest h = cc
>>=-eq-ok (err e) rest h = cc
>>=-eq-ok (ok t) rest h = (t, refl, h)
