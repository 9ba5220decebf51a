-- ===== src/Fapi/Enums/Laws/Contracts.antt =====
-- The names of the enums of contracts and permissions read as the values they are of.
use binapi.Prelude.{refl}
use binapi.Fapi.Enums.{to_string}
use binapi.Fapi.Enums.Laws.{IsLawful}
use binapi.Fapi.Enums.Contracts.{
  SecurityType, security_type_meta, FuturesType, futures_type_meta, PositionControlSide,
  position_control_side_meta, TradingPermission, trading_permission_meta, ContractType,
  contract_type_meta, ContractStatus, contract_status_meta,
}

pub security_type_meta-IsLawful : IsLawful security_type_meta
unfolding security_type_meta to_string
security_type_meta-IsLawful SecurityType.none = refl
security_type_meta-IsLawful SecurityType.market_data = refl
security_type_meta-IsLawful SecurityType.user_stream = refl
security_type_meta-IsLawful SecurityType.user_data = refl
security_type_meta-IsLawful SecurityType.trade = refl

pub futures_type_meta-IsLawful : IsLawful futures_type_meta
unfolding futures_type_meta to_string
futures_type_meta-IsLawful FuturesType.u_margined = refl
futures_type_meta-IsLawful FuturesType.coin_margined = refl

pub position_control_side_meta-IsLawful : IsLawful position_control_side_meta
unfolding position_control_side_meta to_string
position_control_side_meta-IsLawful PositionControlSide.none = refl
position_control_side_meta-IsLawful PositionControlSide.long_side = refl
position_control_side_meta-IsLawful PositionControlSide.short_side = refl
position_control_side_meta-IsLawful PositionControlSide.both = refl

pub trading_permission_meta-IsLawful : IsLawful trading_permission_meta
unfolding trading_permission_meta to_string
trading_permission_meta-IsLawful TradingPermission.grid = refl
trading_permission_meta-IsLawful TradingPermission.copy = refl
trading_permission_meta-IsLawful TradingPermission.dca = refl
trading_permission_meta-IsLawful TradingPermission.rpi = refl
trading_permission_meta-IsLawful TradingPermission.psb = refl

pub contract_type_meta-IsLawful : IsLawful contract_type_meta
unfolding contract_type_meta to_string
contract_type_meta-IsLawful ContractType.perpetual = refl
contract_type_meta-IsLawful ContractType.current_month = refl
contract_type_meta-IsLawful ContractType.next_month = refl
contract_type_meta-IsLawful ContractType.current_quarter = refl
contract_type_meta-IsLawful ContractType.next_quarter = refl
contract_type_meta-IsLawful ContractType.perpetual_delivering = refl
contract_type_meta-IsLawful ContractType.current_quarter_delivering = refl
contract_type_meta-IsLawful ContractType.tradifi_perpetual = refl

pub contract_status_meta-IsLawful : IsLawful contract_status_meta
unfolding contract_status_meta to_string
contract_status_meta-IsLawful ContractStatus.pending_trading = refl
contract_status_meta-IsLawful ContractStatus.trading = refl
contract_status_meta-IsLawful ContractStatus.pre_delivering = refl
contract_status_meta-IsLawful ContractStatus.delivering = refl
contract_status_meta-IsLawful ContractStatus.delivered = refl
contract_status_meta-IsLawful ContractStatus.pre_settle = refl
contract_status_meta-IsLawful ContractStatus.settling = refl
contract_status_meta-IsLawful ContractStatus.close = refl
