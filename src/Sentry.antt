-- ===== src/Sentry.antt =====
-- silkoroutine/bindings/p2psentry: the asynchronous call that sets the status of the sentry.
-- `Client` is the code, `Calls` counts what it keeps, `Safety` has what holds of every run,
-- and `Drain` how every run can end.
pub mod Client
pub mod Calls
pub mod Safety
pub mod Drain
