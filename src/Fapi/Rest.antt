-- ===== src/Fapi/Rest.antt =====
-- include/binapi2/fapi/rest: the REST client.
pub mod Endpoints
pub mod Traits
pub mod Requests
pub mod Registry
pub mod Laws
pub mod Http
pub mod Pipeline
