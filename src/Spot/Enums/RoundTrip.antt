-- ===== src/Spot/Enums/RoundTrip.antt =====
-- Names and values: `*_from_string` after `*_to_string`.
use binapi.Prelude.{◌≡◌, refl, Option, none, some}
use binapi.Spot.Enums.{
  Side, e_side_from_string, e_side_to_string, OrderType, e_type_from_string, e_type_to_string, Time,
  e_time_from_string, e_time_to_string, TradeRespType, e_trade_resp_type_from_string,
  e_trade_resp_type_to_string, Permissions, e_permissions_from_string, e_permissions_to_string, buy,
  sell, limit, market, stop_loss, stop_loss_limit, take_profit, take_profit_limit, limit_maker, gtc,
  ioc, fok, ack, result, full, test, unknown, no_permission, spot, margin, leveraged, trd_grp_002,
  trd_grp_003, trd_grp_004, trd_grp_005,
}

side_name : (v : Side) → e_side_from_string (e_side_to_string v) ≡ some v
unfolding e_side_from_string e_side_to_string
side_name buy = refl
side_name sell = refl

type_name : (v : OrderType) → e_type_from_string (e_type_to_string v) ≡ some v
unfolding e_type_from_string e_type_to_string
type_name limit = refl
type_name market = refl
type_name stop_loss = refl
type_name stop_loss_limit = refl
type_name take_profit = refl
type_name take_profit_limit = refl
type_name limit_maker = refl

time_name : (v : Time) → e_time_from_string (e_time_to_string v) ≡ some v
unfolding e_time_from_string e_time_to_string
time_name gtc = refl
time_name ioc = refl
time_name fok = refl

permissions_name :
    (v : Permissions) → e_permissions_from_string (e_permissions_to_string v) ≡ some v
unfolding e_permissions_from_string e_permissions_to_string
permissions_name no_permission = refl
permissions_name spot = refl
permissions_name margin = refl
permissions_name leveraged = refl
permissions_name trd_grp_002 = refl
permissions_name trd_grp_003 = refl
permissions_name trd_grp_004 = refl
permissions_name trd_grp_005 = refl

-- The name of a side, an order type, a time in force or a permission is read as the value it is
-- the name of.
pub names_read_back :
    (side : Side) (type : OrderType) (time : Time) (permission : Permissions)
    → (e_side_from_string (e_side_to_string side) ≡ some side)
      × (e_type_from_string (e_type_to_string type) ≡ some type)
      × (e_time_from_string (e_time_to_string time) ≡ some time)
      × (e_permissions_from_string (e_permissions_to_string permission) ≡ some permission)
names_read_back side type time permission =
    (side_name side, type_name type, time_name time, permissions_name permission)

-- What the name of a response type is read as.
abbrev pub read_back : TradeRespType → Option TradeRespType
read_back ack = none
read_back result = some result
read_back full = some full
read_back test = some test
read_back unknown = some unknown

-- The name of a response type is read as that type, except the name of ACK, which
-- e_trade_resp_type_from_string does not know.
pub trade_resp_names :
    (v : TradeRespType)
    → e_trade_resp_type_from_string (e_trade_resp_type_to_string v) ≡ read_back v
unfolding e_trade_resp_type_from_string e_trade_resp_type_to_string
trade_resp_names ack = refl
trade_resp_names result = refl
trade_resp_names full = refl
trade_resp_names test = refl
trade_resp_names unknown = refl
