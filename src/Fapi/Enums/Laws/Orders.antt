-- ===== src/Fapi/Enums/Laws/Orders.antt =====
-- The names of the enums of orders and positions read as the values they are of.
use binapi.Prelude.{refl}
use binapi.Fapi.Enums.{to_string}
use binapi.Fapi.Enums.Laws.{IsLawful}
use binapi.Fapi.Enums.Orders.{
  OrderSide, order_side_meta, OrderType, order_type_meta, TimeInForce, time_in_force_meta,
  PositionSide, position_side_meta, WorkingType, working_type_meta, ResponseType,
  response_type_meta, MarginType, margin_type_meta, OrderStatus, order_status_meta,
}

pub order_side_meta-IsLawful : IsLawful order_side_meta
unfolding order_side_meta to_string
order_side_meta-IsLawful OrderSide.buy = refl
order_side_meta-IsLawful OrderSide.sell = refl

pub order_type_meta-IsLawful : IsLawful order_type_meta
unfolding order_type_meta to_string
order_type_meta-IsLawful OrderType.limit = refl
order_type_meta-IsLawful OrderType.market = refl
order_type_meta-IsLawful OrderType.stop = refl
order_type_meta-IsLawful OrderType.stop_market = refl
order_type_meta-IsLawful OrderType.take_profit = refl
order_type_meta-IsLawful OrderType.take_profit_market = refl
order_type_meta-IsLawful OrderType.trailing_stop_market = refl

pub time_in_force_meta-IsLawful : IsLawful time_in_force_meta
unfolding time_in_force_meta to_string
time_in_force_meta-IsLawful TimeInForce.gtc = refl
time_in_force_meta-IsLawful TimeInForce.ioc = refl
time_in_force_meta-IsLawful TimeInForce.fok = refl
time_in_force_meta-IsLawful TimeInForce.gtx = refl
time_in_force_meta-IsLawful TimeInForce.gtd = refl
time_in_force_meta-IsLawful TimeInForce.rpi = refl

pub position_side_meta-IsLawful : IsLawful position_side_meta
unfolding position_side_meta to_string
position_side_meta-IsLawful PositionSide.both = refl
position_side_meta-IsLawful PositionSide.long_side = refl
position_side_meta-IsLawful PositionSide.short_side = refl

pub working_type_meta-IsLawful : IsLawful working_type_meta
unfolding working_type_meta to_string
working_type_meta-IsLawful WorkingType.mark_price_t = refl
working_type_meta-IsLawful WorkingType.contract_price = refl

pub response_type_meta-IsLawful : IsLawful response_type_meta
unfolding response_type_meta to_string
response_type_meta-IsLawful ResponseType.ack = refl
response_type_meta-IsLawful ResponseType.result = refl

pub margin_type_meta-IsLawful : IsLawful margin_type_meta
unfolding margin_type_meta to_string
margin_type_meta-IsLawful MarginType.isolated = refl
margin_type_meta-IsLawful MarginType.crossed = refl

pub order_status_meta-IsLawful : IsLawful order_status_meta
unfolding order_status_meta to_string
order_status_meta-IsLawful OrderStatus.new_order = refl
order_status_meta-IsLawful OrderStatus.partially_filled = refl
order_status_meta-IsLawful OrderStatus.filled = refl
order_status_meta-IsLawful OrderStatus.canceled = refl
order_status_meta-IsLawful OrderStatus.rejected = refl
order_status_meta-IsLawful OrderStatus.expired = refl
order_status_meta-IsLawful OrderStatus.expired_in_match = refl
