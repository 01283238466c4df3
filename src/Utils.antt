-- ===== src/Utils.antt =====
-- Package `sippy_utils`.
pub mod UrlEncode
