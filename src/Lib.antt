-- ===== src/Lib.antt =====
-- A model of parts of binapi, a C++ client library for the Binance exchange, and what is proved of it.
--
-- Decimal: include/binapi2/fapi/types/detail/decimal.hpp and src/binapi2/fapi/decimal.cpp. A
--   `decimal_t` is an integer at scale 10^-18. Decimal/Range has sums and differences; Decimal/Wide
--   the 256-bit helpers (`to_unsigned`, `mul256`, `divmod256`), with every wrap of `uint128_t`
--   written out; Decimal/Arith `pack_result`, `mul`, `div` and `operator*`; Decimal/Parse
--   `parse_decimal_t`, where a signed overflow of `int128_t` is the outcome `undefined`;
--   Decimal/Print `to_string`, whose loop over the integer part has 39 rounds, since an `int128_t` has
--   no more digits; Decimal/Scaled the constructor with an input scale.
-- OrderBook: src/binapi2/fapi/order_book. OrderBook/Side is one `std::map` of a book, by its order;
--   OrderBook/Levels `apply_levels`, `apply_event` and the book of a snapshot; OrderBook/Sync the
--   part that both books share; OrderBook/Local `local_order_book::async_run` and
--   OrderBook/Pipeline the logic stage of `pipeline_order_book::async_run`, with the stages before it in
--   OrderBook/Pipeline/Stages. What a coroutine awaits,
--   events, failed reads and REST answers, is a list of signals, of any length; the books use the
--   decimals of Decimal for prices and quantities.
-- Spot: include/binapi/fnv1a.hpp, include/binapi/enums.hpp and src/binapi/enums.cpp, the enums of the
--   first version, which are read by a switch on a hash; src/binapi/pairslist.cpp (Spot/PairsList),
--   the choice of pairs, with `split_string` as a parameter.
-- Fapi: include/binapi2/fapi/types/enums.hpp (Fapi/Enums, with one table of names for each enum) and
--   include/binapi2/fapi/types/detail/enum_set.hpp (Fapi/EnumSet, a bitset over these enums). Each loop
--   of the iterator has as many rounds as the set has bits. Fapi/StreamBuffer is
--   include/binapi2/fapi/detail/threadsafe_stream_buffer.hpp, whose producer, executor and forwarder
--   interleave as the steps of a relation. Fapi/Query is src/binapi2/fapi/signing.cpp and
--   include/binapi2/fapi/query.hpp, with OpenSSL's digest and signature as parameters. Fapi/Rest is the
--   REST client: Rest/Endpoints and Rest/Traits the tables of include/binapi2/fapi/rest, Rest/Http
--   src/binapi2/fapi/transport/http_client.cpp, whose arguments say how the exchanges with the network
--   end, and Rest/Pipeline include/binapi2/fapi/rest/pipeline.hpp, which signs, sends and decodes.
--   Fapi/Streams is include/binapi2/fapi/streams/stream_traits.hpp, the topics and targets of subscriptions.
--   Fapi/RotatingSink is include/binapi2/fapi/streams/detail/sinks/rotating_file_sink.hpp over a list of
--   files, with the clocks and the openings, writes and closings that throw as inputs.
-- Recorder: examples/binapi2/fapi/async-recorder. Recorder/Windows has the two rings of aggregates.hpp, over any
--   type with the operations of a double; Recorder/Selector is selector.cpp, with `std::sort` as a parameter.
-- WrapText: examples/binapi2/fapi/async-demo-ui/util/wrap_text.hpp; a round for each character is enough.
-- Prelude has the numbers, lists, integers and texts that the others share; Tests has examples.
--
-- Not modelled: network, coroutines and threads, JSON (libraries that the code calls), floating
-- point conversions, the stream clients, the records of the two APIs.
pub mod Prelude
pub mod Decimal
pub mod OrderBook
pub mod Spot
pub mod Fapi
pub mod Recorder
pub mod WrapText
pub mod Tests
