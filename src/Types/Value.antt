-- ===== src/Types/Value.antt =====
-- The errors of TON Connect scalar values (crates/ton-connect-core/src/value.rs).

pub data ValueError : Type 0 where
  invalid_client_id invalid_network_id invalid_decimal_string invalid_uint64_string : ValueError
  invalid_base64 invalid_trace_id invalid_https_url empty_array : ValueError
