-- ===== src/Tests/Units.antt =====
-- The unit tests of pallets/sponsorship/src/xcm_gateway.rs: what each asserts, and that it holds. A
-- test is the type of what it asserts; `assert_ok!` asks for a value, which `unwrap` then is.
pub mod Messages
pub mod Dispatching
pub mod Receiving
