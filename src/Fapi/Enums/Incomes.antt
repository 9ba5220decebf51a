-- ===== src/Fapi/Enums/Incomes.antt =====
-- include/binapi2/fapi/types/enums.hpp: the enums of incomes and account updates, with the number of each value and
-- the `glz::meta` table of names.
use binapi.Prelude.{ℕ, [], ◌∷◌}
use binapi.Prelude.Text.{codes}
use binapi.Fapi.Enums.{EnumMeta}

pub data IncomeType : Type 0 where
  transfer : IncomeType
  welcome_bonus : IncomeType
  realized_pnl : IncomeType
  funding_fee : IncomeType
  commission : IncomeType
  insurance_clear : IncomeType
  referral_kickback : IncomeType
  commission_rebate : IncomeType
  api_rebate : IncomeType
  contest_reward : IncomeType
  cross_collateral_transfer : IncomeType
  options_premium_fee : IncomeType
  options_settle_profit : IncomeType
  internal_transfer : IncomeType
  auto_exchange : IncomeType
  delivered_settelment : IncomeType
  coin_swap_deposit : IncomeType
  coin_swap_withdraw : IncomeType
  position_limit_increase_fee : IncomeType

unfoldable pub income_type_number : IncomeType → ℕ
income_type_number IncomeType.transfer = 0
income_type_number IncomeType.welcome_bonus = 1
income_type_number IncomeType.realized_pnl = 2
income_type_number IncomeType.funding_fee = 3
income_type_number IncomeType.commission = 4
income_type_number IncomeType.insurance_clear = 5
income_type_number IncomeType.referral_kickback = 6
income_type_number IncomeType.commission_rebate = 7
income_type_number IncomeType.api_rebate = 8
income_type_number IncomeType.contest_reward = 9
income_type_number IncomeType.cross_collateral_transfer = 10
income_type_number IncomeType.options_premium_fee = 11
income_type_number IncomeType.options_settle_profit = 12
income_type_number IncomeType.internal_transfer = 13
income_type_number IncomeType.auto_exchange = 14
income_type_number IncomeType.delivered_settelment = 15
income_type_number IncomeType.coin_swap_deposit = 16
income_type_number IncomeType.coin_swap_withdraw = 17
income_type_number IncomeType.position_limit_increase_fee = 18

instance unfoldable pub income_type_meta : EnumMeta IncomeType
unfolding income_type_number
income_type_meta = record {
  number = income_type_number;
  entries =
      (codes "TRANSFER", IncomeType.transfer)
      ∷ (codes "WELCOME_BONUS", IncomeType.welcome_bonus)
      ∷ (codes "REALIZED_PNL", IncomeType.realized_pnl)
      ∷ (codes "FUNDING_FEE", IncomeType.funding_fee)
      ∷ (codes "COMMISSION", IncomeType.commission)
      ∷ (codes "INSURANCE_CLEAR", IncomeType.insurance_clear)
      ∷ (codes "REFERRAL_KICKBACK", IncomeType.referral_kickback)
      ∷ (codes "COMMISSION_REBATE", IncomeType.commission_rebate)
      ∷ (codes "API_REBATE", IncomeType.api_rebate)
      ∷ (codes "CONTEST_REWARD", IncomeType.contest_reward)
      ∷ (codes "CROSS_COLLATERAL_TRANSFER", IncomeType.cross_collateral_transfer)
      ∷ (codes "OPTIONS_PREMIUM_FEE", IncomeType.options_premium_fee)
      ∷ (codes "OPTIONS_SETTLE_PROFIT", IncomeType.options_settle_profit)
      ∷ (codes "INTERNAL_TRANSFER", IncomeType.internal_transfer)
      ∷ (codes "AUTO_EXCHANGE", IncomeType.auto_exchange)
      ∷ (codes "DELIVERED_SETTELMENT", IncomeType.delivered_settelment)
      ∷ (codes "COIN_SWAP_DEPOSIT", IncomeType.coin_swap_deposit)
      ∷ (codes "COIN_SWAP_WITHDRAW", IncomeType.coin_swap_withdraw)
      ∷ (codes "POSITION_LIMIT_INCREASE_FEE", IncomeType.position_limit_increase_fee)
      ∷ [];
}

pub data ReasonType : Type 0 where
  deposit : ReasonType
  withdraw : ReasonType
  order : ReasonType
  funding_fee : ReasonType
  withdraw_reject : ReasonType
  adjustment : ReasonType
  insurance_clear : ReasonType
  admin_deposit : ReasonType
  admin_withdraw : ReasonType
  margin_transfer : ReasonType
  margin_type_change : ReasonType
  asset_transfer : ReasonType
  options_premium_fee : ReasonType
  options_settle_profit : ReasonType
  auto_exchange : ReasonType
  coin_swap_deposit : ReasonType
  coin_swap_withdraw : ReasonType

unfoldable pub reason_type_number : ReasonType → ℕ
reason_type_number ReasonType.deposit = 0
reason_type_number ReasonType.withdraw = 1
reason_type_number ReasonType.order = 2
reason_type_number ReasonType.funding_fee = 3
reason_type_number ReasonType.withdraw_reject = 4
reason_type_number ReasonType.adjustment = 5
reason_type_number ReasonType.insurance_clear = 6
reason_type_number ReasonType.admin_deposit = 7
reason_type_number ReasonType.admin_withdraw = 8
reason_type_number ReasonType.margin_transfer = 9
reason_type_number ReasonType.margin_type_change = 10
reason_type_number ReasonType.asset_transfer = 11
reason_type_number ReasonType.options_premium_fee = 12
reason_type_number ReasonType.options_settle_profit = 13
reason_type_number ReasonType.auto_exchange = 14
reason_type_number ReasonType.coin_swap_deposit = 15
reason_type_number ReasonType.coin_swap_withdraw = 16

instance unfoldable pub reason_type_meta : EnumMeta ReasonType
unfolding reason_type_number
reason_type_meta = record {
  number = reason_type_number;
  entries =
      (codes "DEPOSIT", ReasonType.deposit)
      ∷ (codes "WITHDRAW", ReasonType.withdraw)
      ∷ (codes "ORDER", ReasonType.order)
      ∷ (codes "FUNDING_FEE", ReasonType.funding_fee)
      ∷ (codes "WITHDRAW_REJECT", ReasonType.withdraw_reject)
      ∷ (codes "ADJUSTMENT", ReasonType.adjustment)
      ∷ (codes "INSURANCE_CLEAR", ReasonType.insurance_clear)
      ∷ (codes "ADMIN_DEPOSIT", ReasonType.admin_deposit)
      ∷ (codes "ADMIN_WITHDRAW", ReasonType.admin_withdraw)
      ∷ (codes "MARGIN_TRANSFER", ReasonType.margin_transfer)
      ∷ (codes "MARGIN_TYPE_CHANGE", ReasonType.margin_type_change)
      ∷ (codes "ASSET_TRANSFER", ReasonType.asset_transfer)
      ∷ (codes "OPTIONS_PREMIUM_FEE", ReasonType.options_premium_fee)
      ∷ (codes "OPTIONS_SETTLE_PROFIT", ReasonType.options_settle_profit)
      ∷ (codes "AUTO_EXCHANGE", ReasonType.auto_exchange)
      ∷ (codes "COIN_SWAP_DEPOSIT", ReasonType.coin_swap_deposit)
      ∷ (codes "COIN_SWAP_WITHDRAW", ReasonType.coin_swap_withdraw)
      ∷ [];
}

pub data DeltaType : Type 0 where
  add : DeltaType
  reduce : DeltaType

unfoldable pub delta_type_number : DeltaType → ℕ
delta_type_number DeltaType.add = 1
delta_type_number DeltaType.reduce = 2

instance unfoldable pub delta_type_meta : EnumMeta DeltaType
unfolding delta_type_number
delta_type_meta = record {
  number = delta_type_number;
  entries = (codes "1", DeltaType.add) ∷ (codes "2", DeltaType.reduce) ∷ [];
}
