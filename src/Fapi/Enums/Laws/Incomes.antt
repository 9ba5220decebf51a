-- ===== src/Fapi/Enums/Laws/Incomes.antt =====
-- The names of the enums of incomes and account updates read as the values they are of.
use binapi.Prelude.{refl}
use binapi.Fapi.Enums.{to_string}
use binapi.Fapi.Enums.Laws.{IsLawful}
use binapi.Fapi.Enums.Incomes.{
  IncomeType, income_type_meta, ReasonType, reason_type_meta, DeltaType, delta_type_meta,
}

pub income_type_meta-IsLawful : IsLawful income_type_meta
unfolding income_type_meta to_string
income_type_meta-IsLawful IncomeType.transfer = refl
income_type_meta-IsLawful IncomeType.welcome_bonus = refl
income_type_meta-IsLawful IncomeType.realized_pnl = refl
income_type_meta-IsLawful IncomeType.funding_fee = refl
income_type_meta-IsLawful IncomeType.commission = refl
income_type_meta-IsLawful IncomeType.insurance_clear = refl
income_type_meta-IsLawful IncomeType.referral_kickback = refl
income_type_meta-IsLawful IncomeType.commission_rebate = refl
income_type_meta-IsLawful IncomeType.api_rebate = refl
income_type_meta-IsLawful IncomeType.contest_reward = refl
income_type_meta-IsLawful IncomeType.cross_collateral_transfer = refl
income_type_meta-IsLawful IncomeType.options_premium_fee = refl
income_type_meta-IsLawful IncomeType.options_settle_profit = refl
income_type_meta-IsLawful IncomeType.internal_transfer = refl
income_type_meta-IsLawful IncomeType.auto_exchange = refl
income_type_meta-IsLawful IncomeType.delivered_settelment = refl
income_type_meta-IsLawful IncomeType.coin_swap_deposit = refl
income_type_meta-IsLawful IncomeType.coin_swap_withdraw = refl
income_type_meta-IsLawful IncomeType.position_limit_increase_fee = refl

pub reason_type_meta-IsLawful : IsLawful reason_type_meta
unfolding reason_type_meta to_string
reason_type_meta-IsLawful ReasonType.deposit = refl
reason_type_meta-IsLawful ReasonType.withdraw = refl
reason_type_meta-IsLawful ReasonType.order = refl
reason_type_meta-IsLawful ReasonType.funding_fee = refl
reason_type_meta-IsLawful ReasonType.withdraw_reject = refl
reason_type_meta-IsLawful ReasonType.adjustment = refl
reason_type_meta-IsLawful ReasonType.insurance_clear = refl
reason_type_meta-IsLawful ReasonType.admin_deposit = refl
reason_type_meta-IsLawful ReasonType.admin_withdraw = refl
reason_type_meta-IsLawful ReasonType.margin_transfer = refl
reason_type_meta-IsLawful ReasonType.margin_type_change = refl
reason_type_meta-IsLawful ReasonType.asset_transfer = refl
reason_type_meta-IsLawful ReasonType.options_premium_fee = refl
reason_type_meta-IsLawful ReasonType.options_settle_profit = refl
reason_type_meta-IsLawful ReasonType.auto_exchange = refl
reason_type_meta-IsLawful ReasonType.coin_swap_deposit = refl
reason_type_meta-IsLawful ReasonType.coin_swap_withdraw = refl

pub delta_type_meta-IsLawful : IsLawful delta_type_meta
unfolding delta_type_meta to_string
delta_type_meta-IsLawful DeltaType.add = refl
delta_type_meta-IsLawful DeltaType.reduce = refl
