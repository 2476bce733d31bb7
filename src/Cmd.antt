-- ===== src/Cmd.antt =====
-- cmd: the command-line programs.
pub mod ChainConfig
pub mod SetStatus
pub mod KvFlags
pub mod KvSeek
pub mod KvSeekAsync
pub mod KvSeekCallback
pub mod KvSeekCoroutines
pub mod KvPrograms
