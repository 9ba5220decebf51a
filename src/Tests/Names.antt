-- ===== src/Tests/Names.antt =====
-- The theorems on enums and sets of enums at concrete values.
use binapi.Prelude.{◌<◌, ◌≡◌, refl, arith, [], ◌∷◌, none, some, true, false, ◌||◌, ◌==◌, length}
use binapi.Spot.Enums.{
  Side, OrderType, Time, TradeRespType, Permissions, e_side_from_string, e_side_to_string,
  e_type_from_string, e_type_to_string, e_time_from_string, e_time_to_string,
  e_permissions_from_string, e_permissions_to_string, e_trade_resp_type_from_string,
  e_trade_resp_type_to_string,
}
use binapi.Spot.Enums.RoundTrip.{names_read_back, trade_resp_names}
use binapi.Fapi.Enums.Orders.{order_side_meta}
use binapi.Fapi.Enums.Contracts.{TradingPermission, trading_permission_meta}
use binapi.Fapi.EnumSet.{Bits, contains, add, enum_values_fit, values, size}
use binapi.Fapi.EnumSet.Laws.{Becomes, add_lem}
use binapi.Fapi.EnumSet.Values.{positions, values_lem}

names_read_back_example :
    (e_side_from_string (e_side_to_string Side.sell) ≡ some Side.sell)
    × (e_type_from_string (e_type_to_string OrderType.limit_maker) ≡ some OrderType.limit_maker)
    × (e_time_from_string (e_time_to_string Time.ioc) ≡ some Time.ioc)
    × (e_permissions_from_string (e_permissions_to_string Permissions.margin)
        ≡ some Permissions.margin)
names_read_back_example =
    names_read_back Side.sell OrderType.limit_maker Time.ioc Permissions.margin

trade_resp_names_example :
    e_trade_resp_type_from_string (e_trade_resp_type_to_string TradeRespType.ack) ≡ none
trade_resp_names_example = trade_resp_names TradeRespType.ack

-- The set of `copy`, out of five permissions.
abbrev copies : Bits
copies = false ∷ true ∷ false ∷ false ∷ false ∷ []

psb_fits : trading_permission_meta.number TradingPermission.psb < length copies
unfolding trading_permission_meta
psb_fits = omega arith

copy_fits : trading_permission_meta.number TradingPermission.copy < length copies
unfolding trading_permission_meta
copy_fits = omega arith

add_lem_example :
    Becomes trading_permission_meta copies
      (add trading_permission_meta TradingPermission.psb copies)
      (λ f.
        trading_permission_meta.number f == trading_permission_meta.number TradingPermission.psb
        || contains trading_permission_meta f copies)
add_lem_example = add_lem trading_permission_meta TradingPermission.psb copies psb_fits

permissions_fit : enum_values_fit trading_permission_meta 5 ≡ true
unfolding enum_values_fit trading_permission_meta
permissions_fit = refl

values_lem_example : (values copies ≡ positions 0 copies) × (length (values copies) ≡ size copies)
values_lem_example = values_lem copies
