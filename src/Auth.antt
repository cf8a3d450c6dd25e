-- ===== src/Auth.antt =====
-- Package auth (auth/).
pub mod Cbor
pub mod Throttle
pub mod Tokens
pub mod TwoFactor
