-- ===== src/Fapi/Enums/Periods.antt =====
-- include/binapi2/fapi/types/enums.hpp: the enums of periods and rate limits, with the number of each value and
-- the `glz::meta` table of names.
use binapi.Prelude.{ℕ, [], ◌∷◌}
use binapi.Prelude.Text.{codes}
use binapi.Fapi.Enums.{EnumMeta}

pub data KlineInterval : Type 0 where
  m1 : KlineInterval
  m3 : KlineInterval
  m5 : KlineInterval
  m15 : KlineInterval
  m30 : KlineInterval
  h1 : KlineInterval
  h2 : KlineInterval
  h4 : KlineInterval
  h6 : KlineInterval
  h8 : KlineInterval
  h12 : KlineInterval
  d1 : KlineInterval
  d3 : KlineInterval
  w1 : KlineInterval
  mo1 : KlineInterval

unfoldable pub kline_interval_number : KlineInterval → ℕ
kline_interval_number KlineInterval.m1 = 0
kline_interval_number KlineInterval.m3 = 1
kline_interval_number KlineInterval.m5 = 2
kline_interval_number KlineInterval.m15 = 3
kline_interval_number KlineInterval.m30 = 4
kline_interval_number KlineInterval.h1 = 5
kline_interval_number KlineInterval.h2 = 6
kline_interval_number KlineInterval.h4 = 7
kline_interval_number KlineInterval.h6 = 8
kline_interval_number KlineInterval.h8 = 9
kline_interval_number KlineInterval.h12 = 10
kline_interval_number KlineInterval.d1 = 11
kline_interval_number KlineInterval.d3 = 12
kline_interval_number KlineInterval.w1 = 13
kline_interval_number KlineInterval.mo1 = 14

instance unfoldable pub kline_interval_meta : EnumMeta KlineInterval
unfolding kline_interval_number
kline_interval_meta = record {
  number = kline_interval_number;
  entries =
      (codes "1m", KlineInterval.m1)
      ∷ (codes "3m", KlineInterval.m3)
      ∷ (codes "5m", KlineInterval.m5)
      ∷ (codes "15m", KlineInterval.m15)
      ∷ (codes "30m", KlineInterval.m30)
      ∷ (codes "1h", KlineInterval.h1)
      ∷ (codes "2h", KlineInterval.h2)
      ∷ (codes "4h", KlineInterval.h4)
      ∷ (codes "6h", KlineInterval.h6)
      ∷ (codes "8h", KlineInterval.h8)
      ∷ (codes "12h", KlineInterval.h12)
      ∷ (codes "1d", KlineInterval.d1)
      ∷ (codes "3d", KlineInterval.d3)
      ∷ (codes "1w", KlineInterval.w1)
      ∷ (codes "1M", KlineInterval.mo1)
      ∷ [];
}

pub data FuturesDataPeriod : Type 0 where
  m5 : FuturesDataPeriod
  m15 : FuturesDataPeriod
  m30 : FuturesDataPeriod
  h1 : FuturesDataPeriod
  h2 : FuturesDataPeriod
  h4 : FuturesDataPeriod
  h6 : FuturesDataPeriod
  h12 : FuturesDataPeriod
  d1 : FuturesDataPeriod

unfoldable pub futures_data_period_number : FuturesDataPeriod → ℕ
futures_data_period_number FuturesDataPeriod.m5 = 0
futures_data_period_number FuturesDataPeriod.m15 = 1
futures_data_period_number FuturesDataPeriod.m30 = 2
futures_data_period_number FuturesDataPeriod.h1 = 3
futures_data_period_number FuturesDataPeriod.h2 = 4
futures_data_period_number FuturesDataPeriod.h4 = 5
futures_data_period_number FuturesDataPeriod.h6 = 6
futures_data_period_number FuturesDataPeriod.h12 = 7
futures_data_period_number FuturesDataPeriod.d1 = 8

instance unfoldable pub futures_data_period_meta : EnumMeta FuturesDataPeriod
unfolding futures_data_period_number
futures_data_period_meta = record {
  number = futures_data_period_number;
  entries =
      (codes "5m", FuturesDataPeriod.m5)
      ∷ (codes "15m", FuturesDataPeriod.m15)
      ∷ (codes "30m", FuturesDataPeriod.m30)
      ∷ (codes "1h", FuturesDataPeriod.h1)
      ∷ (codes "2h", FuturesDataPeriod.h2)
      ∷ (codes "4h", FuturesDataPeriod.h4)
      ∷ (codes "6h", FuturesDataPeriod.h6)
      ∷ (codes "12h", FuturesDataPeriod.h12)
      ∷ (codes "1d", FuturesDataPeriod.d1)
      ∷ [];
}

pub data RateLimitType : Type 0 where
  request_weight : RateLimitType
  orders : RateLimitType
  orders_1s : RateLimitType
  orders_1m : RateLimitType
  orders_1h : RateLimitType
  orders_1d : RateLimitType

unfoldable pub rate_limit_type_number : RateLimitType → ℕ
rate_limit_type_number RateLimitType.request_weight = 0
rate_limit_type_number RateLimitType.orders = 1
rate_limit_type_number RateLimitType.orders_1s = 2
rate_limit_type_number RateLimitType.orders_1m = 3
rate_limit_type_number RateLimitType.orders_1h = 4
rate_limit_type_number RateLimitType.orders_1d = 5

instance unfoldable pub rate_limit_type_meta : EnumMeta RateLimitType
unfolding rate_limit_type_number
rate_limit_type_meta = record {
  number = rate_limit_type_number;
  entries =
      (codes "REQUEST_WEIGHT", RateLimitType.request_weight)
      ∷ (codes "ORDERS", RateLimitType.orders)
      ∷ (codes "ORDERS_1S", RateLimitType.orders_1s)
      ∷ (codes "ORDERS_1M", RateLimitType.orders_1m)
      ∷ (codes "ORDERS_1H", RateLimitType.orders_1h)
      ∷ (codes "ORDERS_1D", RateLimitType.orders_1d)
      ∷ [];
}

pub data RateLimitInterval : Type 0 where
  second : RateLimitInterval
  minute : RateLimitInterval
  hour : RateLimitInterval
  day : RateLimitInterval

unfoldable pub rate_limit_interval_number : RateLimitInterval → ℕ
rate_limit_interval_number RateLimitInterval.second = 0
rate_limit_interval_number RateLimitInterval.minute = 1
rate_limit_interval_number RateLimitInterval.hour = 2
rate_limit_interval_number RateLimitInterval.day = 3

instance unfoldable pub rate_limit_interval_meta : EnumMeta RateLimitInterval
unfolding rate_limit_interval_number
rate_limit_interval_meta = record {
  number = rate_limit_interval_number;
  entries =
      (codes "SECOND", RateLimitInterval.second)
      ∷ (codes "MINUTE", RateLimitInterval.minute)
      ∷ (codes "HOUR", RateLimitInterval.hour)
      ∷ (codes "DAY", RateLimitInterval.day)
      ∷ [];
}
