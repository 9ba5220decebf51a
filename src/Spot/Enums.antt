-- ===== src/Spot/Enums.antt =====
-- include/binapi/enums.hpp and src/binapi/enums.cpp: the enums of the spot API and their names.
-- `none` is `assert(!"unreachable")`: without assertions the function ends with no result.
pub mod RoundTrip
use binapi.Prelude.{List, [], ◌∷◌, Option}
use binapi.Prelude.Text.{Bytes, codes}
use binapi.Spot.Fnv1a.{fnv1a, switch}

pub data Side : Type 0 where
  buy : Side
  sell : Side

unfoldable pub e_side_from_string : Bytes → Option Side
unfolding fnv1a switch
e_side_from_string str =
    switch (fnv1a str) ((fnv1a (codes "BUY"), buy) ∷ (fnv1a (codes "SELL"), sell) ∷ [])

unfoldable pub e_side_to_string : Side → Bytes
e_side_to_string buy = codes "BUY"
e_side_to_string sell = codes "SELL"

pub data OrderType : Type 0 where
  limit : OrderType
  market : OrderType
  stop_loss : OrderType
  stop_loss_limit : OrderType
  take_profit : OrderType
  take_profit_limit : OrderType
  limit_maker : OrderType

unfoldable pub e_type_from_string : Bytes → Option OrderType
unfolding fnv1a switch
e_type_from_string str = switch (fnv1a str) (
    (fnv1a (codes "LIMIT"), limit)
    ∷ (fnv1a (codes "MARKET"), market)
    ∷ (fnv1a (codes "STOP_LOSS"), stop_loss)
    ∷ (fnv1a (codes "STOP_LOSS_LIMIT"), stop_loss_limit)
    ∷ (fnv1a (codes "TAKE_PROFIT"), take_profit)
    ∷ (fnv1a (codes "TAKE_PROFIT_LIMIT"), take_profit_limit)
    ∷ (fnv1a (codes "LIMIT_MAKER"), limit_maker)
    ∷ [])

unfoldable pub e_type_to_string : OrderType → Bytes
e_type_to_string limit = codes "LIMIT"
e_type_to_string market = codes "MARKET"
e_type_to_string stop_loss = codes "STOP_LOSS"
e_type_to_string stop_loss_limit = codes "STOP_LOSS_LIMIT"
e_type_to_string take_profit = codes "TAKE_PROFIT"
e_type_to_string take_profit_limit = codes "TAKE_PROFIT_LIMIT"
e_type_to_string limit_maker = codes "LIMIT_MAKER"

pub data Time : Type 0 where
  gtc : Time
  ioc : Time
  fok : Time

unfoldable pub e_time_from_string : Bytes → Option Time
unfolding fnv1a switch
e_time_from_string str =
    switch (fnv1a str)
      ((fnv1a (codes "GTC"), gtc) ∷ (fnv1a (codes "IOC"), ioc) ∷ (fnv1a (codes "FOK"), fok) ∷ [])

unfoldable pub e_time_to_string : Time → Bytes
e_time_to_string gtc = codes "GTC"
e_time_to_string ioc = codes "IOC"
e_time_to_string fok = codes "FOK"

pub data TradeRespType : Type 0 where
  ack : TradeRespType
  result : TradeRespType
  full : TradeRespType
  test : TradeRespType
  unknown : TradeRespType

unfoldable pub e_trade_resp_type_from_string : Bytes → Option TradeRespType
unfolding fnv1a switch
e_trade_resp_type_from_string str = switch (fnv1a str) (
    (fnv1a (codes "ACK"), ack)
    ∷ (fnv1a (codes "RESULT"), result)
    ∷ (fnv1a (codes "FULL"), full)
    ∷ (fnv1a (codes "TEST"), test)
    ∷ (fnv1a (codes "UNKNOWN"), unknown)
    ∷ [])

unfoldable pub e_trade_resp_type_to_string : TradeRespType → Bytes
e_trade_resp_type_to_string ack = codes "ASK"
e_trade_resp_type_to_string result = codes "RESULT"
e_trade_resp_type_to_string full = codes "FULL"
e_trade_resp_type_to_string test = codes "TEST"
e_trade_resp_type_to_string unknown = codes "UNKNOWN"

pub data Permissions : Type 0 where
  no_permission : Permissions
  spot : Permissions
  margin : Permissions
  leveraged : Permissions
  trd_grp_002 : Permissions
  trd_grp_003 : Permissions
  trd_grp_004 : Permissions
  trd_grp_005 : Permissions

unfoldable pub e_permissions_from_string : Bytes → Option Permissions
unfolding fnv1a switch
e_permissions_from_string str = switch (fnv1a str) (
    (fnv1a (codes "NONE"), no_permission)
    ∷ (fnv1a (codes "SPOT"), spot)
    ∷ (fnv1a (codes "MARGIN"), margin)
    ∷ (fnv1a (codes "LEVERAGED"), leveraged)
    ∷ (fnv1a (codes "TRD_GRP_002"), trd_grp_002)
    ∷ (fnv1a (codes "TRD_GRP_003"), trd_grp_003)
    ∷ (fnv1a (codes "TRD_GRP_004"), trd_grp_004)
    ∷ (fnv1a (codes "TRD_GRP_005"), trd_grp_005)
    ∷ [])

unfoldable pub e_permissions_to_string : Permissions → Bytes
e_permissions_to_string no_permission = codes "NONE"
e_permissions_to_string spot = codes "SPOT"
e_permissions_to_string margin = codes "MARGIN"
e_permissions_to_string leveraged = codes "LEVERAGED"
e_permissions_to_string trd_grp_002 = codes "TRD_GRP_002"
e_permissions_to_string trd_grp_003 = codes "TRD_GRP_003"
e_permissions_to_string trd_grp_004 = codes "TRD_GRP_004"
e_permissions_to_string trd_grp_005 = codes "TRD_GRP_005"
