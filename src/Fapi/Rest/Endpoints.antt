-- ===== src/Fapi/Rest/Endpoints.antt =====
-- include/binapi2/fapi/rest/generated_endpoints.hpp: what each REST endpoint asks of a request.
pub mod Quotes
pub mod Orders
pub mod Accounts
use Prim.Native.String.{String}
use binapi.Prelude.{ℕ, Bool, true, false}
use binapi.Prelude.Text.{Bytes, codes}
use binapi.Fapi.Enums.Contracts.{SecurityType}

-- The verbs of HTTP that the endpoints use.
pub data Verb : Type 0 where
  get post put delete : Verb

pub record EndpointMetadata : Type 0 where
  pub name : Bytes
  pub method : Verb
  pub path : Bytes
  pub security : SecurityType
  pub signed_request : Bool
  pub requires_timestamp : Bool
  pub allows_recv_window : Bool

-- An endpoint from its fields in their order.
abbrev pub metadata : String → Verb → String → SecurityType → Bool → Bool → Bool → EndpointMetadata
metadata name method path security signed_request requires_timestamp allows_recv_window = record {
  name = codes name;
  method = method;
  path = codes path;
  security = security;
  signed_request = signed_request;
  requires_timestamp = requires_timestamp;
  allows_recv_window = allows_recv_window;
}
