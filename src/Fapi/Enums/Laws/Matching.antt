-- ===== src/Fapi/Enums/Laws/Matching.antt =====
-- The names of the enums of how orders match and end read as the values they are of.
use binapi.Prelude.{refl}
use binapi.Fapi.Enums.{to_string}
use binapi.Fapi.Enums.Laws.{IsLawful}
use binapi.Fapi.Enums.Matching.{
  StpMode, stp_mode_meta, PriceMatch, price_match_meta, ExecutionType, execution_type_meta,
  AutoCloseType, auto_close_type_meta, AlgoType, algo_type_meta, AlgoStatus, algo_status_meta,
}

pub stp_mode_meta-IsLawful : IsLawful stp_mode_meta
unfolding stp_mode_meta to_string
stp_mode_meta-IsLawful StpMode.none = refl
stp_mode_meta-IsLawful StpMode.expire_taker = refl
stp_mode_meta-IsLawful StpMode.expire_both = refl
stp_mode_meta-IsLawful StpMode.expire_maker = refl

pub price_match_meta-IsLawful : IsLawful price_match_meta
unfolding price_match_meta to_string
price_match_meta-IsLawful PriceMatch.none = refl
price_match_meta-IsLawful PriceMatch.opponent = refl
price_match_meta-IsLawful PriceMatch.opponent_5 = refl
price_match_meta-IsLawful PriceMatch.opponent_10 = refl
price_match_meta-IsLawful PriceMatch.opponent_20 = refl
price_match_meta-IsLawful PriceMatch.queue = refl
price_match_meta-IsLawful PriceMatch.queue_5 = refl
price_match_meta-IsLawful PriceMatch.queue_10 = refl
price_match_meta-IsLawful PriceMatch.queue_20 = refl

pub execution_type_meta-IsLawful : IsLawful execution_type_meta
unfolding execution_type_meta to_string
execution_type_meta-IsLawful ExecutionType.new_order = refl
execution_type_meta-IsLawful ExecutionType.partial_fill = refl
execution_type_meta-IsLawful ExecutionType.fill = refl
execution_type_meta-IsLawful ExecutionType.canceled = refl
execution_type_meta-IsLawful ExecutionType.rejected = refl
execution_type_meta-IsLawful ExecutionType.expired = refl
execution_type_meta-IsLawful ExecutionType.trade = refl

pub auto_close_type_meta-IsLawful : IsLawful auto_close_type_meta
unfolding auto_close_type_meta to_string
auto_close_type_meta-IsLawful AutoCloseType.liquidation = refl
auto_close_type_meta-IsLawful AutoCloseType.adl = refl

pub algo_type_meta-IsLawful : IsLawful algo_type_meta
unfolding algo_type_meta to_string
algo_type_meta-IsLawful AlgoType.twap = refl
algo_type_meta-IsLawful AlgoType.vp = refl

pub algo_status_meta-IsLawful : IsLawful algo_status_meta
unfolding algo_status_meta to_string
algo_status_meta-IsLawful AlgoStatus.working = refl
algo_status_meta-IsLawful AlgoStatus.cancelled = refl
algo_status_meta-IsLawful AlgoStatus.rejected = refl
algo_status_meta-IsLawful AlgoStatus.expired = refl
algo_status_meta-IsLawful AlgoStatus.triggered = refl
