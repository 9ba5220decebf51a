-- ===== src/Fapi/Enums/Laws/Periods.antt =====
-- The names of the enums of periods and rate limits read as the values they are of.
use binapi.Prelude.{refl}
use binapi.Fapi.Enums.{to_string}
use binapi.Fapi.Enums.Laws.{IsLawful}
use binapi.Fapi.Enums.Periods.{
  KlineInterval, kline_interval_meta, FuturesDataPeriod, futures_data_period_meta, RateLimitType,
  rate_limit_type_meta, RateLimitInterval, rate_limit_interval_meta,
}

pub kline_interval_meta-IsLawful : IsLawful kline_interval_meta
unfolding kline_interval_meta to_string
kline_interval_meta-IsLawful KlineInterval.m1 = refl
kline_interval_meta-IsLawful KlineInterval.m3 = refl
kline_interval_meta-IsLawful KlineInterval.m5 = refl
kline_interval_meta-IsLawful KlineInterval.m15 = refl
kline_interval_meta-IsLawful KlineInterval.m30 = refl
kline_interval_meta-IsLawful KlineInterval.h1 = refl
kline_interval_meta-IsLawful KlineInterval.h2 = refl
kline_interval_meta-IsLawful KlineInterval.h4 = refl
kline_interval_meta-IsLawful KlineInterval.h6 = refl
kline_interval_meta-IsLawful KlineInterval.h8 = refl
kline_interval_meta-IsLawful KlineInterval.h12 = refl
kline_interval_meta-IsLawful KlineInterval.d1 = refl
kline_interval_meta-IsLawful KlineInterval.d3 = refl
kline_interval_meta-IsLawful KlineInterval.w1 = refl
kline_interval_meta-IsLawful KlineInterval.mo1 = refl

pub futures_data_period_meta-IsLawful : IsLawful futures_data_period_meta
unfolding futures_data_period_meta to_string
futures_data_period_meta-IsLawful FuturesDataPeriod.m5 = refl
futures_data_period_meta-IsLawful FuturesDataPeriod.m15 = refl
futures_data_period_meta-IsLawful FuturesDataPeriod.m30 = refl
futures_data_period_meta-IsLawful FuturesDataPeriod.h1 = refl
futures_data_period_meta-IsLawful FuturesDataPeriod.h2 = refl
futures_data_period_meta-IsLawful FuturesDataPeriod.h4 = refl
futures_data_period_meta-IsLawful FuturesDataPeriod.h6 = refl
futures_data_period_meta-IsLawful FuturesDataPeriod.h12 = refl
futures_data_period_meta-IsLawful FuturesDataPeriod.d1 = refl

pub rate_limit_type_meta-IsLawful : IsLawful rate_limit_type_meta
unfolding rate_limit_type_meta to_string
rate_limit_type_meta-IsLawful RateLimitType.request_weight = refl
rate_limit_type_meta-IsLawful RateLimitType.orders = refl
rate_limit_type_meta-IsLawful RateLimitType.orders_1s = refl
rate_limit_type_meta-IsLawful RateLimitType.orders_1m = refl
rate_limit_type_meta-IsLawful RateLimitType.orders_1h = refl
rate_limit_type_meta-IsLawful RateLimitType.orders_1d = refl

pub rate_limit_interval_meta-IsLawful : IsLawful rate_limit_interval_meta
unfolding rate_limit_interval_meta to_string
rate_limit_interval_meta-IsLawful RateLimitInterval.second = refl
rate_limit_interval_meta-IsLawful RateLimitInterval.minute = refl
rate_limit_interval_meta-IsLawful RateLimitInterval.hour = refl
rate_limit_interval_meta-IsLawful RateLimitInterval.day = refl
