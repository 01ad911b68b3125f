-- ===== src/Helpers/Ack.antt =====
-- `tx_ack_to_err`, and the failures of `format_downlink` and `format_uplink`, whose texts are only
-- logged.
use chirpstack_gateway_mesh.Common.{Bool, true, false, List, [], ◌∷◌}
use chirpstack_gateway_mesh.Common.Result.{
  Result, ok, err, ◌>>=◌, ok_or, tx_ack_error, tx_info_is_none, rx_info_is_none, modulation_is_none,
  timing_is_none,
}
use chirpstack_gateway_mesh.Gw.{
  TxAckStatus, DownlinkFrame, DownlinkFrameItem, DownlinkTxAck, UplinkFrame,
}

-- An item with the status `Ok` is among the items of the answer.
unfoldable pub has_ok : List TxAckStatus → Bool
has_ok [] = false
has_ok (TxAckStatus.ack_ok ∷ items) = true
has_ok (TxAckStatus.ignored ∷ items) = has_ok items
has_ok (TxAckStatus.internal_error ∷ items) = has_ok items
has_ok (TxAckStatus.other_status ∷ items) = has_ok items

unfoldable pub tx_ack_to_err : DownlinkTxAck → Result (Unit {0})
unfolding has_ok
tx_ack_to_err tx_ack = elim (has_ok tx_ack.items) [ true ↦ ok tt | false ↦ err tx_ack_error ]

unfoldable pub format_items : List DownlinkFrameItem → Result (Unit {0})
format_items [] = ok tt
format_items (i ∷ items) = do
  tx_info ← ok_or i.tx_info tx_info_is_none
  modulation ← ok_or tx_info.modulation modulation_is_none
  timing ← ok_or tx_info.timing timing_is_none
  format_items items

unfoldable pub format_downlink : DownlinkFrame → Result (Unit {0})
unfolding format_items
format_downlink pl = format_items pl.items

unfoldable pub format_uplink : {F32 : Type 0} → UplinkFrame F32 → Result (Unit {0})
format_uplink pl = do
  tx_info ← ok_or pl.tx_info tx_info_is_none
  rx_info ← ok_or pl.rx_info rx_info_is_none
  modulation ← ok_or tx_info.modulation modulation_is_none
  ok tt
