-- ===== src/Fapi/Enums/Contracts.antt =====
-- include/binapi2/fapi/types/enums.hpp: the enums of contracts and permissions, with the number of each value and
-- the `glz::meta` table of names.
use binapi.Prelude.{ℕ, [], ◌∷◌}
use binapi.Prelude.Text.{codes}
use binapi.Fapi.Enums.{EnumMeta}

pub data SecurityType : Type 0 where
  none : SecurityType
  market_data : SecurityType
  user_stream : SecurityType
  user_data : SecurityType
  trade : SecurityType

unfoldable pub security_type_number : SecurityType → ℕ
security_type_number SecurityType.none = 0
security_type_number SecurityType.market_data = 1
security_type_number SecurityType.user_stream = 2
security_type_number SecurityType.user_data = 3
security_type_number SecurityType.trade = 4

instance unfoldable pub security_type_meta : EnumMeta SecurityType
unfolding security_type_number
security_type_meta = record {
  number = security_type_number;
  entries =
      (codes "none", SecurityType.none)
      ∷ (codes "market_data", SecurityType.market_data)
      ∷ (codes "user_stream", SecurityType.user_stream)
      ∷ (codes "user_data", SecurityType.user_data)
      ∷ (codes "trade", SecurityType.trade)
      ∷ [];
}

pub data FuturesType : Type 0 where
  u_margined : FuturesType
  coin_margined : FuturesType

unfoldable pub futures_type_number : FuturesType → ℕ
futures_type_number FuturesType.u_margined = 0
futures_type_number FuturesType.coin_margined = 1

instance unfoldable pub futures_type_meta : EnumMeta FuturesType
unfolding futures_type_number
futures_type_meta = record {
  number = futures_type_number;
  entries =
      (codes "U_MARGINED", FuturesType.u_margined)
      ∷ (codes "COIN_MARGINED", FuturesType.coin_margined)
      ∷ [];
}

pub data PositionControlSide : Type 0 where
  none : PositionControlSide
  long_side : PositionControlSide
  short_side : PositionControlSide
  both : PositionControlSide

unfoldable pub position_control_side_number : PositionControlSide → ℕ
position_control_side_number PositionControlSide.none = 0
position_control_side_number PositionControlSide.long_side = 1
position_control_side_number PositionControlSide.short_side = 2
position_control_side_number PositionControlSide.both = 3

instance unfoldable pub position_control_side_meta : EnumMeta PositionControlSide
unfolding position_control_side_number
position_control_side_meta = record {
  number = position_control_side_number;
  entries =
      (codes "NONE", PositionControlSide.none)
      ∷ (codes "LONG", PositionControlSide.long_side)
      ∷ (codes "SHORT", PositionControlSide.short_side)
      ∷ (codes "BOTH", PositionControlSide.both)
      ∷ [];
}

pub data TradingPermission : Type 0 where
  grid : TradingPermission
  copy : TradingPermission
  dca : TradingPermission
  rpi : TradingPermission
  psb : TradingPermission

unfoldable pub trading_permission_number : TradingPermission → ℕ
trading_permission_number TradingPermission.grid = 0
trading_permission_number TradingPermission.copy = 1
trading_permission_number TradingPermission.dca = 2
trading_permission_number TradingPermission.rpi = 3
trading_permission_number TradingPermission.psb = 4

instance unfoldable pub trading_permission_meta : EnumMeta TradingPermission
unfolding trading_permission_number
trading_permission_meta = record {
  number = trading_permission_number;
  entries =
      (codes "GRID", TradingPermission.grid)
      ∷ (codes "COPY", TradingPermission.copy)
      ∷ (codes "DCA", TradingPermission.dca)
      ∷ (codes "RPI", TradingPermission.rpi)
      ∷ (codes "PSB", TradingPermission.psb)
      ∷ [];
}

pub data ContractType : Type 0 where
  perpetual : ContractType
  current_month : ContractType
  next_month : ContractType
  current_quarter : ContractType
  next_quarter : ContractType
  perpetual_delivering : ContractType
  current_quarter_delivering : ContractType
  tradifi_perpetual : ContractType

unfoldable pub contract_type_number : ContractType → ℕ
contract_type_number ContractType.perpetual = 0
contract_type_number ContractType.current_month = 1
contract_type_number ContractType.next_month = 2
contract_type_number ContractType.current_quarter = 3
contract_type_number ContractType.next_quarter = 4
contract_type_number ContractType.perpetual_delivering = 5
contract_type_number ContractType.current_quarter_delivering = 6
contract_type_number ContractType.tradifi_perpetual = 7

instance unfoldable pub contract_type_meta : EnumMeta ContractType
unfolding contract_type_number
contract_type_meta = record {
  number = contract_type_number;
  entries =
      (codes "PERPETUAL", ContractType.perpetual)
      ∷ (codes "CURRENT_MONTH", ContractType.current_month)
      ∷ (codes "NEXT_MONTH", ContractType.next_month)
      ∷ (codes "CURRENT_QUARTER", ContractType.current_quarter)
      ∷ (codes "NEXT_QUARTER", ContractType.next_quarter)
      ∷ (codes "PERPETUAL_DELIVERING", ContractType.perpetual_delivering)
      ∷ (codes "CURRENT_QUARTER DELIVERING", ContractType.current_quarter_delivering)
      ∷ (codes "TRADIFI_PERPETUAL", ContractType.tradifi_perpetual)
      ∷ [];
}

pub data ContractStatus : Type 0 where
  pending_trading : ContractStatus
  trading : ContractStatus
  pre_delivering : ContractStatus
  delivering : ContractStatus
  delivered : ContractStatus
  pre_settle : ContractStatus
  settling : ContractStatus
  close : ContractStatus

unfoldable pub contract_status_number : ContractStatus → ℕ
contract_status_number ContractStatus.pending_trading = 0
contract_status_number ContractStatus.trading = 1
contract_status_number ContractStatus.pre_delivering = 2
contract_status_number ContractStatus.delivering = 3
contract_status_number ContractStatus.delivered = 4
contract_status_number ContractStatus.pre_settle = 5
contract_status_number ContractStatus.settling = 6
contract_status_number ContractStatus.close = 7

instance unfoldable pub contract_status_meta : EnumMeta ContractStatus
unfolding contract_status_number
contract_status_meta = record {
  number = contract_status_number;
  entries =
      (codes "PENDING_TRADING", ContractStatus.pending_trading)
      ∷ (codes "TRADING", ContractStatus.trading)
      ∷ (codes "PRE_DELIVERING", ContractStatus.pre_delivering)
      ∷ (codes "DELIVERING", ContractStatus.delivering)
      ∷ (codes "DELIVERED", ContractStatus.delivered)
      ∷ (codes "PRE_SETTLE", ContractStatus.pre_settle)
      ∷ (codes "SETTLING", ContractStatus.settling)
      ∷ (codes "CLOSE", ContractStatus.close)
      ∷ [];
}
