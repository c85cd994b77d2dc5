-- ===== src/Tests.antt =====
-- Runs of the model on the inputs of pallets/sponsorship/src/tests.rs, and the theorems at
-- concrete inputs.
mod Setting
mod Scenario
mod Gateways
mod Pallets
mod Reading
mod Books
mod Abstracts
mod Units
mod Apis
mod Managing
mod Benches
mod Nodes
mod Services
mod Serving
