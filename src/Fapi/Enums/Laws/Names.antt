-- ===== src/Fapi/Enums/Laws/Names.antt =====
-- All the names of include/binapi2/fapi/types/enums.hpp.
use binapi.Fapi.Enums.Laws.{IsLawful}
use binapi.Fapi.Enums.Orders.{
  order_side_meta, order_type_meta, time_in_force_meta, position_side_meta, working_type_meta,
  response_type_meta, margin_type_meta, order_status_meta,
}
use binapi.Fapi.Enums.Laws.Orders.{
  order_side_meta-IsLawful, order_type_meta-IsLawful, time_in_force_meta-IsLawful,
  position_side_meta-IsLawful, working_type_meta-IsLawful, response_type_meta-IsLawful,
  margin_type_meta-IsLawful, order_status_meta-IsLawful,
}
use binapi.Fapi.Enums.Matching.{
  stp_mode_meta, price_match_meta, execution_type_meta, auto_close_type_meta, algo_type_meta,
  algo_status_meta,
}
use binapi.Fapi.Enums.Laws.Matching.{
  stp_mode_meta-IsLawful, price_match_meta-IsLawful, execution_type_meta-IsLawful,
  auto_close_type_meta-IsLawful, algo_type_meta-IsLawful, algo_status_meta-IsLawful,
}
use binapi.Fapi.Enums.Contracts.{
  security_type_meta, futures_type_meta, position_control_side_meta, trading_permission_meta,
  contract_type_meta, contract_status_meta,
}
use binapi.Fapi.Enums.Laws.Contracts.{
  security_type_meta-IsLawful, futures_type_meta-IsLawful, position_control_side_meta-IsLawful,
  trading_permission_meta-IsLawful, contract_type_meta-IsLawful, contract_status_meta-IsLawful,
}
use binapi.Fapi.Enums.Periods.{
  kline_interval_meta, futures_data_period_meta, rate_limit_type_meta, rate_limit_interval_meta,
}
use binapi.Fapi.Enums.Laws.Periods.{
  kline_interval_meta-IsLawful, futures_data_period_meta-IsLawful, rate_limit_type_meta-IsLawful,
  rate_limit_interval_meta-IsLawful,
}
use binapi.Fapi.Enums.Incomes.{income_type_meta, reason_type_meta, delta_type_meta}
use binapi.Fapi.Enums.Laws.Incomes.{
  income_type_meta-IsLawful, reason_type_meta-IsLawful, delta_type_meta-IsLawful,
}
use binapi.Fapi.Enums.Events.{
  market_event_type_meta, user_event_type_meta, session_type_meta, strategy_type_meta,
  strategy_status_meta,
}
use binapi.Fapi.Enums.Laws.Events.{
  market_event_type_meta-IsLawful, user_event_type_meta-IsLawful, session_type_meta-IsLawful,
  strategy_type_meta-IsLawful, strategy_status_meta-IsLawful,
}

-- For every value of the 32 enums of the futures API, to_string gives a name and does not throw,
-- and the first entry of the enum's table with that name is the value's own.
pub all_names :
    IsLawful order_side_meta
    × IsLawful order_type_meta
    × IsLawful time_in_force_meta
    × IsLawful position_side_meta
    × IsLawful working_type_meta
    × IsLawful response_type_meta
    × IsLawful margin_type_meta
    × IsLawful order_status_meta
    × IsLawful stp_mode_meta
    × IsLawful price_match_meta
    × IsLawful execution_type_meta
    × IsLawful auto_close_type_meta
    × IsLawful algo_type_meta
    × IsLawful algo_status_meta
    × IsLawful security_type_meta
    × IsLawful futures_type_meta
    × IsLawful position_control_side_meta
    × IsLawful trading_permission_meta
    × IsLawful contract_type_meta
    × IsLawful contract_status_meta
    × IsLawful kline_interval_meta
    × IsLawful futures_data_period_meta
    × IsLawful rate_limit_type_meta
    × IsLawful rate_limit_interval_meta
    × IsLawful income_type_meta
    × IsLawful reason_type_meta
    × IsLawful delta_type_meta
    × IsLawful market_event_type_meta
    × IsLawful user_event_type_meta
    × IsLawful session_type_meta
    × IsLawful strategy_type_meta
    × IsLawful strategy_status_meta
all_names = (
  order_side_meta-IsLawful, order_type_meta-IsLawful, time_in_force_meta-IsLawful,
  position_side_meta-IsLawful, working_type_meta-IsLawful, response_type_meta-IsLawful,
  margin_type_meta-IsLawful, order_status_meta-IsLawful, stp_mode_meta-IsLawful,
  price_match_meta-IsLawful, execution_type_meta-IsLawful, auto_close_type_meta-IsLawful,
  algo_type_meta-IsLawful, algo_status_meta-IsLawful, security_type_meta-IsLawful,
  futures_type_meta-IsLawful, position_control_side_meta-IsLawful, trading_permission_meta-IsLawful,
  contract_type_meta-IsLawful, contract_status_meta-IsLawful, kline_interval_meta-IsLawful,
  futures_data_period_meta-IsLawful, rate_limit_type_meta-IsLawful,
  rate_limit_interval_meta-IsLawful, income_type_meta-IsLawful, reason_type_meta-IsLawful,
  delta_type_meta-IsLawful, market_event_type_meta-IsLawful, user_event_type_meta-IsLawful,
  session_type_meta-IsLawful, strategy_type_meta-IsLawful, strategy_status_meta-IsLawful,
)
