-- ===== src/Cmd/KvFlags.antt =====
-- The flags of the programs that seek a key, as absl has parsed them, and the tests that each
-- `main` of cmd/kv_seek*.cpp begins with. Where a test fails, `main` prints a line and returns -1.
use silkoroutine.Common.{ℕ, Bool, Bytes, Option, none, some, ◌||◌, ltb, if◌then◌else◌}
use silkoroutine.Util.{from_hex}
use silkoroutine.Cmd.SetStatus.{is_empty, lacks_colon}

pub record Flags : Type 0 where
  pub table : Bytes
  pub seekkey : Bytes
  pub target : Bytes
  pub timeout : ℕ

-- The bytes of the seek key.
unfoldable pub check : Flags → Option Bytes
check f = if is_empty f.table then none else elim (from_hex f.seekkey) [
  | none ↦ none
  | some key ↦
      if is_empty f.seekkey
      then none
      else if is_empty f.target || lacks_colon f.target
      then none
      else some key
]

-- `timeout < 0`; `timeout` is a `uint32_t`.
abbrev is_negative : Flags → Bool
is_negative f = ltb f.timeout 0

-- The tests of the other programs, which have one more.
unfoldable pub check_timeout : Flags → Option Bytes
unfolding check
check_timeout f = elim (check f) [
  | none ↦ none
  | some key ↦ if is_negative f then none else some key
]
