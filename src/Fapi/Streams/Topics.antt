-- ===== src/Fapi/Streams/Topics.antt =====
-- The topics of the subscriptions, read back.
use binapi.Prelude.{
  ℕ, ◌≡◌, refl, ap, Bool, true, false, not, ◌&&◌, [], ◌∷◌, ◌++◌, Option, none, some, ◌==◌,
  if◌then◌else◌, arith,
}
use binapi.Prelude.Text.{Bytes, codes}
use binapi.Fapi.Enums.{Name, ok, throws, to_string}
use binapi.Fapi.Enums.Laws.{IsRead}
use binapi.Fapi.Enums.Laws.Periods.{kline_interval_meta-IsLawful}
use binapi.Fapi.Enums.Periods.{KlineInterval, kline_interval_meta}
use binapi.Fapi.Streams.{
  StreamCategory, market, public_, private_, Subscription, aggregate_trade, book_ticker, mark_price,
  mini_ticker, ticker, diff_book_depth, partial_book_depth, kline, liquidation_order,
  composite_index, asset_index, rpi_diff_book_depth, all_market_mini_ticker, all_market_ticker,
  all_book_ticker, all_market_liquidation_order, all_market_mark_price, contract_info,
  all_asset_index, trading_session, continuous_contract_kline, category, in_front, topic, target,
  target_from_category, int_text, lower_char, upper_char, to_lower, to_upper,
}

-- The characters of a symbol: no lower-case letter, and neither mark of a topic.
abbrev pub is_symbol_char : ℕ → Bool
is_symbol_char c = upper_char c == c && not (c == b'@') && not (c == b'!')

abbrev pub is_symbol : Bytes → Bool
is_symbol [] = true
is_symbol (c ∷ s) = is_symbol_char c && is_symbol s

abbrev pub before_at : Bytes → Bytes
before_at [] = []
before_at (c ∷ s) = if c == b'@' then [] else c ∷ before_at s

-- The symbol that a topic begins with, if it is not one of all symbols.
abbrev pub read_text : Bytes → Option Bytes
read_text [] = some []
read_text (c ∷ s) = if c == b'!' then none else some (to_upper (before_at (c ∷ s)))

char_lem :
    (c : ℕ)
    → is_symbol_char c ≡ true
    → (upper_char (lower_char c) ≡ c)
      × ((lower_char c == b'@') ≡ false)
      × ((lower_char c == b'!') ≡ false)
char_lem c h = (ground (arith, h), ground (arith, h), ground (arith, h))

before_at_lem :
    (s t : Bytes) → is_symbol s ≡ true → to_upper (before_at (to_lower s ++ b'@' ∷ t)) ≡ s
unfolding to_lower to_upper
before_at_lem [] t h = refl
before_at_lem (c ∷ s) t h =
    let l = char_lem c (ground (arith, h)) in
    rw (l.1, l.0) (ap (λ u. c ∷ u) (before_at_lem s t (ground (arith, h))))

read_text_lem : (s t : Bytes) → is_symbol s ≡ true → read_text (to_lower s ++ b'@' ∷ t) ≡ some s
unfolding to_lower
read_text_lem [] t h = ap some (before_at_lem [] t h)
read_text_lem (c ∷ s) t h =
    rw ((char_lem c (ground (arith, h))).2) (ap some (before_at_lem (c ∷ s) t h))

-- What is behind a prefix.
abbrev pub strip : Bytes → Bytes → Option Bytes
strip [] s = some s
strip (c ∷ prefix) [] = none
strip (c ∷ prefix) (d ∷ s) = if c == d then strip prefix s else none

abbrev pub Route : Type 0
Route = Option (StreamCategory × Option Bytes)

abbrev pub read_behind : StreamCategory → Option Bytes → Route → Route
read_behind c (some rest) otherwise = some (c, read_text rest)
read_behind c none otherwise = otherwise

-- A target read back: its category, and the symbol that its topic begins with.
unfoldable pub read_target : Name → Route
read_target (ok s) = read_behind public_ (strip (codes "/public/ws/") s) (
    read_behind market (strip (codes "/market/ws/") s)
      (read_behind private_ (strip (codes "/private/ws/") s) none))
read_target (throws value) = none

-- The symbol of a subscription to one symbol.
abbrev pub symbol_of : Subscription → Option Bytes
symbol_of (aggregate_trade s) = some s
symbol_of (book_ticker s) = some s
symbol_of (mark_price s b) = some s
symbol_of (mini_ticker s) = some s
symbol_of (ticker s) = some s
symbol_of (diff_book_depth s v) = some s
symbol_of (partial_book_depth s n v) = some s
symbol_of (kline s i) = some s
symbol_of (liquidation_order s) = some s
symbol_of (composite_index s) = some s
symbol_of (asset_index s) = some s
symbol_of (rpi_diff_book_depth s) = some s
symbol_of all_market_mini_ticker = none
symbol_of all_market_ticker = none
symbol_of all_book_ticker = none
symbol_of all_market_liquidation_order = none
symbol_of (all_market_mark_price b) = none
symbol_of contract_info = none
symbol_of all_asset_index = none
symbol_of trading_session = none
symbol_of (continuous_contract_kline s t i) = none

-- The symbol is one, and the subscription is not to a continuous contract, whose topic begins with a pair.
abbrev pub is_readable : Subscription → Bool
is_readable (aggregate_trade s) = is_symbol s
is_readable (book_ticker s) = is_symbol s
is_readable (mark_price s b) = is_symbol s
is_readable (mini_ticker s) = is_symbol s
is_readable (ticker s) = is_symbol s
is_readable (diff_book_depth s v) = is_symbol s
is_readable (partial_book_depth s n v) = is_symbol s
is_readable (kline s i) = is_symbol s
is_readable (liquidation_order s) = is_symbol s
is_readable (composite_index s) = is_symbol s
is_readable (asset_index s) = is_symbol s
is_readable (rpi_diff_book_depth s) = is_symbol s
is_readable all_market_mini_ticker = true
is_readable all_market_ticker = true
is_readable all_book_ticker = true
is_readable all_market_liquidation_order = true
is_readable (all_market_mark_price b) = true
is_readable contract_info = true
is_readable all_asset_index = true
is_readable trading_session = true
is_readable (continuous_contract_kline s t i) = false

market_lem :
    (s t : Bytes)
    → is_symbol s ≡ true
    → read_target (target_from_category market (ok (to_lower s ++ b'@' ∷ t)))
      ≡ some (market, some s)
unfolding read_target
market_lem s t h = ap (λ o. some (market, o)) (read_text_lem s t h)

public_lem :
    (s t : Bytes)
    → is_symbol s ≡ true
    → read_target (target_from_category public_ (ok (to_lower s ++ b'@' ∷ t)))
      ≡ some (public_, some s)
unfolding read_target
public_lem s t h = ap (λ o. some (public_, o)) (read_text_lem s t h)

kline_lem :
    (s : Bytes) (n : Name) (i : KlineInterval)
    → is_symbol s ≡ true
    → IsRead kline_interval_meta.entries n i
    → read_target
        (target_from_category market (in_front (to_lower s) (in_front (codes "@kline_") n)))
      ≡ some (market, some s)
kline_lem s (ok text) i h r = market_lem s (codes "kline_" ++ text) h
kline_lem s (throws value) i h r = absurd r

-- For every subscription but that to a continuous contract, whose symbol, where it has one, has no
-- lower-case letter, no "@" and no "!": the target does not throw, begins with the prefix of its
-- category, and the topic behind it gives the symbol back in upper case, or begins with "!" if the
-- subscription is to all symbols.
pub target_reads :
    (sub : Subscription)
    → is_readable sub ≡ true
    → read_target (target sub) ≡ some (category sub, symbol_of sub)
unfolding target topic read_target
target_reads (aggregate_trade s) h = market_lem s (codes "aggTrade") h
target_reads (book_ticker s) h = public_lem s (codes "bookTicker") h
target_reads (mark_price s true) h = market_lem s (codes "markPrice@1s") h
target_reads (mark_price s false) h = market_lem s (codes "markPrice") h
target_reads (mini_ticker s) h = market_lem s (codes "miniTicker") h
target_reads (ticker s) h = market_lem s (codes "ticker") h
target_reads (diff_book_depth s v) h = public_lem s (codes "depth@" ++ v) h
target_reads (partial_book_depth s n v) h = public_lem s (codes "depth" ++ int_text n ++ b'@' ∷ v) h
target_reads (kline s i) h = kline_lem s (to_string i) i h (kline_interval_meta-IsLawful i)
target_reads (liquidation_order s) h = market_lem s (codes "forceOrder") h
target_reads (composite_index s) h = market_lem s (codes "compositeIndex") h
target_reads (asset_index s) h = market_lem s (codes "assetIndex") h
target_reads (rpi_diff_book_depth s) h = public_lem s (codes "rpiDepth") h
target_reads all_market_mini_ticker h = refl
target_reads all_market_ticker h = refl
target_reads all_book_ticker h = refl
target_reads all_market_liquidation_order h = refl
target_reads (all_market_mark_price true) h = refl
target_reads (all_market_mark_price false) h = refl
target_reads contract_info h = refl
target_reads all_asset_index h = refl
target_reads trading_session h = refl
target_reads (continuous_contract_kline s t i) h = absurd (ground arith)
