-- ===== src/Http.antt =====
-- services/map_query_api/main.cpp: the HTTP side of the map query service.
pub mod Strings
pub mod UrlDecode
pub mod Query
pub mod Response
pub mod Base64
pub mod Split
pub mod Request
pub mod Handler
