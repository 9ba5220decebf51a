-- ===== src/Fapi/Enums/Orders.antt =====
-- include/binapi2/fapi/types/enums.hpp: the enums of orders and positions, with the number of each value and
-- the `glz::meta` table of names.
use binapi.Prelude.{ℕ, [], ◌∷◌}
use binapi.Prelude.Text.{codes}
use binapi.Fapi.Enums.{EnumMeta}

pub data OrderSide : Type 0 where
  buy : OrderSide
  sell : OrderSide

unfoldable pub order_side_number : OrderSide → ℕ
order_side_number OrderSide.buy = 0
order_side_number OrderSide.sell = 1

instance unfoldable pub order_side_meta : EnumMeta OrderSide
unfolding order_side_number
order_side_meta = record {
  number = order_side_number;
  entries = (codes "BUY", OrderSide.buy) ∷ (codes "SELL", OrderSide.sell) ∷ [];
}

pub data OrderType : Type 0 where
  limit : OrderType
  market : OrderType
  stop : OrderType
  stop_market : OrderType
  take_profit : OrderType
  take_profit_market : OrderType
  trailing_stop_market : OrderType

unfoldable pub order_type_number : OrderType → ℕ
order_type_number OrderType.limit = 0
order_type_number OrderType.market = 1
order_type_number OrderType.stop = 2
order_type_number OrderType.stop_market = 3
order_type_number OrderType.take_profit = 4
order_type_number OrderType.take_profit_market = 5
order_type_number OrderType.trailing_stop_market = 6

instance unfoldable pub order_type_meta : EnumMeta OrderType
unfolding order_type_number
order_type_meta = record {
  number = order_type_number;
  entries =
      (codes "LIMIT", OrderType.limit)
      ∷ (codes "MARKET", OrderType.market)
      ∷ (codes "STOP", OrderType.stop)
      ∷ (codes "STOP_MARKET", OrderType.stop_market)
      ∷ (codes "TAKE_PROFIT", OrderType.take_profit)
      ∷ (codes "TAKE_PROFIT_MARKET", OrderType.take_profit_market)
      ∷ (codes "TRAILING_STOP_MARKET", OrderType.trailing_stop_market)
      ∷ [];
}

pub data TimeInForce : Type 0 where
  gtc : TimeInForce
  ioc : TimeInForce
  fok : TimeInForce
  gtx : TimeInForce
  gtd : TimeInForce
  rpi : TimeInForce

unfoldable pub time_in_force_number : TimeInForce → ℕ
time_in_force_number TimeInForce.gtc = 0
time_in_force_number TimeInForce.ioc = 1
time_in_force_number TimeInForce.fok = 2
time_in_force_number TimeInForce.gtx = 3
time_in_force_number TimeInForce.gtd = 4
time_in_force_number TimeInForce.rpi = 5

instance unfoldable pub time_in_force_meta : EnumMeta TimeInForce
unfolding time_in_force_number
time_in_force_meta = record {
  number = time_in_force_number;
  entries =
      (codes "GTC", TimeInForce.gtc)
      ∷ (codes "IOC", TimeInForce.ioc)
      ∷ (codes "FOK", TimeInForce.fok)
      ∷ (codes "GTX", TimeInForce.gtx)
      ∷ (codes "GTD", TimeInForce.gtd)
      ∷ (codes "RPI", TimeInForce.rpi)
      ∷ [];
}

pub data PositionSide : Type 0 where
  both : PositionSide
  long_side : PositionSide
  short_side : PositionSide

unfoldable pub position_side_number : PositionSide → ℕ
position_side_number PositionSide.both = 0
position_side_number PositionSide.long_side = 1
position_side_number PositionSide.short_side = 2

instance unfoldable pub position_side_meta : EnumMeta PositionSide
unfolding position_side_number
position_side_meta = record {
  number = position_side_number;
  entries =
      (codes "BOTH", PositionSide.both)
      ∷ (codes "LONG", PositionSide.long_side)
      ∷ (codes "SHORT", PositionSide.short_side)
      ∷ [];
}

pub data WorkingType : Type 0 where
  mark_price_t : WorkingType
  contract_price : WorkingType

unfoldable pub working_type_number : WorkingType → ℕ
working_type_number WorkingType.mark_price_t = 0
working_type_number WorkingType.contract_price = 1

instance unfoldable pub working_type_meta : EnumMeta WorkingType
unfolding working_type_number
working_type_meta = record {
  number = working_type_number;
  entries =
      (codes "MARK_PRICE", WorkingType.mark_price_t)
      ∷ (codes "CONTRACT_PRICE", WorkingType.contract_price)
      ∷ [];
}

pub data ResponseType : Type 0 where
  ack : ResponseType
  result : ResponseType

unfoldable pub response_type_number : ResponseType → ℕ
response_type_number ResponseType.ack = 0
response_type_number ResponseType.result = 1

instance unfoldable pub response_type_meta : EnumMeta ResponseType
unfolding response_type_number
response_type_meta = record {
  number = response_type_number;
  entries = (codes "ACK", ResponseType.ack) ∷ (codes "RESULT", ResponseType.result) ∷ [];
}

pub data MarginType : Type 0 where
  isolated : MarginType
  crossed : MarginType

unfoldable pub margin_type_number : MarginType → ℕ
margin_type_number MarginType.isolated = 0
margin_type_number MarginType.crossed = 1

instance unfoldable pub margin_type_meta : EnumMeta MarginType
unfolding margin_type_number
margin_type_meta = record {
  number = margin_type_number;
  entries =
      (codes "ISOLATED", MarginType.isolated)
      ∷ (codes "CROSSED", MarginType.crossed)
      ∷ (codes "isolated", MarginType.isolated)
      ∷ (codes "cross", MarginType.crossed)
      ∷ [];
}

pub data OrderStatus : Type 0 where
  new_order : OrderStatus
  partially_filled : OrderStatus
  filled : OrderStatus
  canceled : OrderStatus
  rejected : OrderStatus
  expired : OrderStatus
  expired_in_match : OrderStatus

unfoldable pub order_status_number : OrderStatus → ℕ
order_status_number OrderStatus.new_order = 0
order_status_number OrderStatus.partially_filled = 1
order_status_number OrderStatus.filled = 2
order_status_number OrderStatus.canceled = 3
order_status_number OrderStatus.rejected = 4
order_status_number OrderStatus.expired = 5
order_status_number OrderStatus.expired_in_match = 6

instance unfoldable pub order_status_meta : EnumMeta OrderStatus
unfolding order_status_number
order_status_meta = record {
  number = order_status_number;
  entries =
      (codes "NEW", OrderStatus.new_order)
      ∷ (codes "PARTIALLY_FILLED", OrderStatus.partially_filled)
      ∷ (codes "FILLED", OrderStatus.filled)
      ∷ (codes "CANCELED", OrderStatus.canceled)
      ∷ (codes "REJECTED", OrderStatus.rejected)
      ∷ (codes "EXPIRED", OrderStatus.expired)
      ∷ (codes "EXPIRED_IN_MATCH", OrderStatus.expired_in_match)
      ∷ [];
}
