-- ===== src/Protocol/Binary.antt =====
-- library/protocol/binary/user_settings_protocol_binary.c: decoding commands and encoding settings.
pub mod Decode
pub mod Encode
pub mod Wire
pub mod Full
pub mod Response
pub mod Requests
pub mod Overruns
