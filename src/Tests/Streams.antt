-- ===== src/Tests/Streams.antt =====
-- Topics and targets of subscriptions.
use binapi.Prelude.{◌≡◌, refl, some}
use binapi.Prelude.Int.{pos}
use binapi.Prelude.Text.{codes}
use binapi.Fapi.Enums.{ok, to_string, enum_to_sv_impl, name_or_throw}
use binapi.Fapi.Enums.Contracts.{ContractType, contract_type_meta, contract_type_number}
use binapi.Fapi.Enums.Periods.{KlineInterval, kline_interval_meta, kline_interval_number}
use binapi.Fapi.Streams.{
  public_, partial_book_depth, continuous_contract_kline, topic, target, to_lower, to_upper,
  symbol_t,
}
use binapi.Fapi.Streams.Topics.{read_target, target_reads}
use binapi.Decimal.Print.{integer_text, push_digits}

depth_target :
    target (partial_book_depth (symbol_t (codes "btcUSDT")) (pos 10) (codes "250ms"))
    ≡ ok (codes "/public/ws/btcusdt@depth10@250ms")
unfolding target topic to_lower to_upper integer_text push_digits
depth_target = refl

kline_topic :
    topic (continuous_contract_kline (codes "BTCUSDT") ContractType.perpetual KlineInterval.m15)
    ≡ ok (codes "btcusdt_PERPETUAL@continuousKline_15m")
unfolding topic to_lower to_string enum_to_sv_impl name_or_throw contract_type_meta
    contract_type_number kline_interval_meta kline_interval_number
kline_topic = refl

target_reads_example :
    read_target (target (partial_book_depth (codes "BTCUSDT") (pos 10) (codes "250ms")))
    ≡ some (public_, some (codes "BTCUSDT"))
target_reads_example =
    target_reads (partial_book_depth (codes "BTCUSDT") (pos 10) (codes "250ms")) refl
