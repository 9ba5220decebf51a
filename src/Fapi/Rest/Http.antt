-- ===== src/Fapi/Rest/Http.antt =====
-- src/binapi2/fapi/transport/http_client.cpp: one request over a connection that is kept. What the network does
-- in a call is an argument: how the first exchange ends, how a new connection ends, how the second
-- exchange ends. The stream and the resolver are the libraries' and the calls of the logger are left out.
pub mod Retry
use binapi.Prelude.{ℕ, ◌+◌, Bool, true, false, List, [], ◌∷◌, Option, if◌then◌else◌}
use binapi.Prelude.Int.{ℤ, pos}
use binapi.Prelude.Text.{Bytes, codes}
use binapi.Fapi.Rest.Endpoints.{Verb}

pub data ErrorCode : Type 0 where
  none invalid_argument transport http_status json binance websocket internal : ErrorCode

pub record Error : Type 0 where
  pub code : ErrorCode
  pub http_status : ℤ
  pub binance_code : ℤ
  pub message : Bytes
  pub payload : Bytes

-- `result<T>` as its two factories make it.
pub data Result {ℓ} (A : Type ℓ) : Type ℓ where
  success : A → Result A
  failure : Error → Result A

pub record HttpResponse : Type 0 where
  pub status : ℤ
  pub body : Bytes

-- What a request says, less the fields that are the same for all. `none` is a header that is not set.
pub record HttpRequest : Type 0 where
  pub method : Verb
  pub target : Bytes
  pub content_type : Option Bytes
  pub api_key : Option Bytes
  pub body : Bytes

abbrev pub unless_empty : Bytes → Option Bytes
unless_empty [] = Option.none
unless_empty (c ∷ s) = Option.some (c ∷ s)

abbrev pub takes_body : Verb → Bool
takes_body Verb.get = false
takes_body Verb.delete = false
takes_body Verb.post = true
takes_body Verb.put = true

abbrev pub make_request : Verb → Bytes → Bytes → Bytes → Bytes → HttpRequest
make_request method target body content_type api_key = record {
  method = method;
  target = target;
  content_type = unless_empty content_type;
  api_key = unless_empty api_key;
  body = if takes_body method then body else [];
}

-- How `async_send_receive` ends: with a response, or with an exception while the request is written
-- or after that, while the response is read.
pub data Exchange : Type 0 where
  answered : HttpResponse → Exchange
  write_failed : Bytes → Exchange
  read_failed : Bytes → Exchange

-- How `impl::async_connect` ends, with the text of its error.
pub data Connect : Type 0 where
  connected : Connect
  refused : Bytes → Connect

-- What goes over the wire: requests written whole, and connections made and given up.
pub data Action : Type 0 where
  writes : HttpRequest → Action
  connects disconnects : Action

-- The flag `connected` of the client and the actions so far, the last one first.
pub record HttpClient : Type 0 where
  pub is_connected : Bool
  pub actions : List Action

abbrev pub transport_error : Bytes → Error
transport_error message = record {
  code = ErrorCode.transport;
  http_status = pos 0;
  binance_code = pos 0;
  message = message;
  payload = [];
}

abbrev pub act : Action → HttpClient → HttpClient
act a s = record s { actions = a ∷ s.actions }

abbrev pub disconnect : HttpClient → HttpClient
disconnect s = record { is_connected = false; actions = disconnects ∷ s.actions }

abbrev pub impl_connect : Connect → HttpClient → HttpClient × Option Error
impl_connect connected s =
    (record { is_connected = true; actions = connects ∷ s.actions }, Option.none)
impl_connect (refused e) s = (record s { is_connected = false }, Option.some (transport_error e))

-- The call that opens the connection at first; `none` is its success.
unfoldable pub async_connect : Connect → HttpClient → HttpClient × Option Error
async_connect link s = if s.is_connected then (s, Option.none) else impl_connect link s

-- The write of a request is an action once it is complete.
abbrev pub async_send_receive : HttpRequest → Exchange → HttpClient → HttpClient
async_send_receive req (answered r) s = act (writes req) s
async_send_receive req (read_failed e) s = act (writes req) s
async_send_receive req (write_failed e) s = s

-- The second attempt, on the new connection.
abbrev pub send_again : HttpRequest → Exchange → HttpClient → HttpClient × Result HttpResponse
send_again req (answered r) s = (async_send_receive req (answered r) s, success r)
send_again req (write_failed e) s =
    (disconnect (async_send_receive req (write_failed e) s), failure (transport_error e))
send_again req (read_failed e) s =
    (disconnect (async_send_receive req (read_failed e) s), failure (transport_error e))

abbrev pub reconnect :
    HttpRequest → Connect → Exchange → HttpClient → HttpClient × Result HttpResponse
reconnect req connected second s = send_again req second (impl_connect connected s).0
reconnect req (refused e) second s = ((impl_connect (refused e) s).0, failure (transport_error e))

abbrev pub send_first :
    HttpRequest → Exchange → Connect → Exchange → HttpClient → HttpClient × Result HttpResponse
send_first req (answered r) link second s = (async_send_receive req (answered r) s, success r)
send_first req (write_failed e) link second s =
    reconnect req link second (disconnect (async_send_receive req (write_failed e) s))
send_first req (read_failed e) link second s =
    reconnect req link second (disconnect (async_send_receive req (read_failed e) s))

abbrev pub send_if :
    Bool
    → HttpRequest
    → Exchange
    → Connect
    → Exchange
    → HttpClient
    → HttpClient × Result HttpResponse
send_if true req first link second s = send_first req first link second s
send_if false req first link second s =
    (s, failure (transport_error (codes "not connected — call async_connect() first")))

unfoldable pub async_request :
    HttpRequest → Exchange → Connect → Exchange → HttpClient → HttpClient × Result HttpResponse
async_request req first link second s = send_if s.is_connected req first link second s
