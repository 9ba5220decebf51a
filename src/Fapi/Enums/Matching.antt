-- ===== src/Fapi/Enums/Matching.antt =====
-- include/binapi2/fapi/types/enums.hpp: the enums of how orders match and end, with the number of each value and
-- the `glz::meta` table of names.
use binapi.Prelude.{ℕ, [], ◌∷◌}
use binapi.Prelude.Text.{codes}
use binapi.Fapi.Enums.{EnumMeta}

pub data StpMode : Type 0 where
  none : StpMode
  expire_taker : StpMode
  expire_both : StpMode
  expire_maker : StpMode

unfoldable pub stp_mode_number : StpMode → ℕ
stp_mode_number StpMode.none = 0
stp_mode_number StpMode.expire_taker = 1
stp_mode_number StpMode.expire_both = 2
stp_mode_number StpMode.expire_maker = 3

instance unfoldable pub stp_mode_meta : EnumMeta StpMode
unfolding stp_mode_number
stp_mode_meta = record {
  number = stp_mode_number;
  entries =
      (codes "NONE", StpMode.none)
      ∷ (codes "EXPIRE_TAKER", StpMode.expire_taker)
      ∷ (codes "EXPIRE_BOTH", StpMode.expire_both)
      ∷ (codes "EXPIRE_MAKER", StpMode.expire_maker)
      ∷ [];
}

pub data PriceMatch : Type 0 where
  none : PriceMatch
  opponent : PriceMatch
  opponent_5 : PriceMatch
  opponent_10 : PriceMatch
  opponent_20 : PriceMatch
  queue : PriceMatch
  queue_5 : PriceMatch
  queue_10 : PriceMatch
  queue_20 : PriceMatch

unfoldable pub price_match_number : PriceMatch → ℕ
price_match_number PriceMatch.none = 0
price_match_number PriceMatch.opponent = 1
price_match_number PriceMatch.opponent_5 = 2
price_match_number PriceMatch.opponent_10 = 3
price_match_number PriceMatch.opponent_20 = 4
price_match_number PriceMatch.queue = 5
price_match_number PriceMatch.queue_5 = 6
price_match_number PriceMatch.queue_10 = 7
price_match_number PriceMatch.queue_20 = 8

instance unfoldable pub price_match_meta : EnumMeta PriceMatch
unfolding price_match_number
price_match_meta = record {
  number = price_match_number;
  entries =
      (codes "NONE", PriceMatch.none)
      ∷ (codes "OPPONENT", PriceMatch.opponent)
      ∷ (codes "OPPONENT_5", PriceMatch.opponent_5)
      ∷ (codes "OPPONENT_10", PriceMatch.opponent_10)
      ∷ (codes "OPPONENT_20", PriceMatch.opponent_20)
      ∷ (codes "QUEUE", PriceMatch.queue)
      ∷ (codes "QUEUE_5", PriceMatch.queue_5)
      ∷ (codes "QUEUE_10", PriceMatch.queue_10)
      ∷ (codes "QUEUE_20", PriceMatch.queue_20)
      ∷ [];
}

pub data ExecutionType : Type 0 where
  new_order : ExecutionType
  partial_fill : ExecutionType
  fill : ExecutionType
  canceled : ExecutionType
  rejected : ExecutionType
  expired : ExecutionType
  trade : ExecutionType

unfoldable pub execution_type_number : ExecutionType → ℕ
execution_type_number ExecutionType.new_order = 0
execution_type_number ExecutionType.partial_fill = 1
execution_type_number ExecutionType.fill = 2
execution_type_number ExecutionType.canceled = 3
execution_type_number ExecutionType.rejected = 4
execution_type_number ExecutionType.expired = 5
execution_type_number ExecutionType.trade = 6

instance unfoldable pub execution_type_meta : EnumMeta ExecutionType
unfolding execution_type_number
execution_type_meta = record {
  number = execution_type_number;
  entries =
      (codes "NEW", ExecutionType.new_order)
      ∷ (codes "PARTIAL_FILL", ExecutionType.partial_fill)
      ∷ (codes "FILL", ExecutionType.fill)
      ∷ (codes "CANCELED", ExecutionType.canceled)
      ∷ (codes "REJECTED", ExecutionType.rejected)
      ∷ (codes "EXPIRED", ExecutionType.expired)
      ∷ (codes "TRADE", ExecutionType.trade)
      ∷ [];
}

pub data AutoCloseType : Type 0 where
  liquidation : AutoCloseType
  adl : AutoCloseType

unfoldable pub auto_close_type_number : AutoCloseType → ℕ
auto_close_type_number AutoCloseType.liquidation = 0
auto_close_type_number AutoCloseType.adl = 1

instance unfoldable pub auto_close_type_meta : EnumMeta AutoCloseType
unfolding auto_close_type_number
auto_close_type_meta = record {
  number = auto_close_type_number;
  entries =
      (codes "LIQUIDATION", AutoCloseType.liquidation) ∷ (codes "ADL", AutoCloseType.adl) ∷ [];
}

pub data AlgoType : Type 0 where
  twap : AlgoType
  vp : AlgoType

unfoldable pub algo_type_number : AlgoType → ℕ
algo_type_number AlgoType.twap = 0
algo_type_number AlgoType.vp = 1

instance unfoldable pub algo_type_meta : EnumMeta AlgoType
unfolding algo_type_number
algo_type_meta = record {
  number = algo_type_number;
  entries = (codes "TWAP", AlgoType.twap) ∷ (codes "VP", AlgoType.vp) ∷ [];
}

pub data AlgoStatus : Type 0 where
  working : AlgoStatus
  cancelled : AlgoStatus
  rejected : AlgoStatus
  expired : AlgoStatus
  triggered : AlgoStatus

unfoldable pub algo_status_number : AlgoStatus → ℕ
algo_status_number AlgoStatus.working = 0
algo_status_number AlgoStatus.cancelled = 1
algo_status_number AlgoStatus.rejected = 2
algo_status_number AlgoStatus.expired = 3
algo_status_number AlgoStatus.triggered = 4

instance unfoldable pub algo_status_meta : EnumMeta AlgoStatus
unfolding algo_status_number
algo_status_meta = record {
  number = algo_status_number;
  entries =
      (codes "WORKING", AlgoStatus.working)
      ∷ (codes "CANCELLED", AlgoStatus.cancelled)
      ∷ (codes "REJECTED", AlgoStatus.rejected)
      ∷ (codes "EXPIRED", AlgoStatus.expired)
      ∷ (codes "TRIGGERED", AlgoStatus.triggered)
      ∷ [];
}
