-- ===== src/Tests.antt =====
-- Runs of the models on concrete inputs, by part of the program.
pub mod Text
pub mod Logging
pub mod Bindings
pub mod Database
pub mod Transactions
pub mod Programs
pub mod Coroutines
