-- ===== src/Coro.antt =====
-- silkoroutine/coro/: tasks, and coroutines that wait for asynchronous operations.
pub mod Task
pub mod Direct
pub mod Frames
pub mod Steps
pub mod Ends
pub mod Runs
pub mod Safety
