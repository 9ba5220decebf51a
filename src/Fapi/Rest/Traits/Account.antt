-- ===== src/Fapi/Rest/Traits/Account.antt =====
-- include/binapi2/fapi/rest/endpoint_traits.hpp, from `position_risk_request_t` to `pm_account_info_request_t`.
use binapi.Fapi.Rest.Endpoints.Quotes.{position_risk_endpoint}
use binapi.Fapi.Rest.Endpoints.Accounts.{
  symbol_config_endpoint, income_history_endpoint, leverage_brackets_endpoint,
  commission_rate_endpoint, toggle_bnb_burn_endpoint, quantitative_rules_endpoint,
  pm_account_info_endpoint,
}
use binapi.Fapi.Rest.Traits.{EndpointTraits, ResponseType, vector, ServiceTag}

pub data AccountRequest : Type 0 where
  position_risk symbol_config income_history leverage_bracket commission_rate toggle_bnb_burn
        quantitative_rules pm_account_info :
      AccountRequest

unfoldable pub account_traits : AccountRequest → EndpointTraits
account_traits AccountRequest.position_risk = record {
  response_type = vector ResponseType.position_risk;
  service_tag = ServiceTag.account;
  endpoint = position_risk_endpoint;
}
account_traits AccountRequest.symbol_config = record {
  response_type = vector ResponseType.symbol_config_entry;
  service_tag = ServiceTag.account;
  endpoint = symbol_config_endpoint;
}
account_traits AccountRequest.income_history = record {
  response_type = vector ResponseType.income_history_entry;
  service_tag = ServiceTag.account;
  endpoint = income_history_endpoint;
}
account_traits AccountRequest.leverage_bracket = record {
  response_type = vector ResponseType.symbol_leverage_brackets;
  service_tag = ServiceTag.account;
  endpoint = leverage_brackets_endpoint;
}
account_traits AccountRequest.commission_rate = record {
  response_type = ResponseType.commission_rate_response;
  service_tag = ServiceTag.account;
  endpoint = commission_rate_endpoint;
}
account_traits AccountRequest.toggle_bnb_burn = record {
  response_type = ResponseType.bnb_burn_status_response;
  service_tag = ServiceTag.account;
  endpoint = toggle_bnb_burn_endpoint;
}
account_traits AccountRequest.quantitative_rules = record {
  response_type = ResponseType.quantitative_rules_response;
  service_tag = ServiceTag.account;
  endpoint = quantitative_rules_endpoint;
}
account_traits AccountRequest.pm_account_info = record {
  response_type = ResponseType.pm_account_info_response;
  service_tag = ServiceTag.account;
  endpoint = pm_account_info_endpoint;
}
