-- ===== src/Log.antt =====
-- silkoroutine/common/log.hpp and log.cpp: the levels and their flag. An `int` that is no level is
-- left out.
pub mod RoundTrip
pub mod Tee
pub mod Output
pub mod Lock
pub mod Null
pub mod Threads
use silkoroutine.Common.{
  Bool, true, false, ◌&&◌, Bytes, [], ◌∷◌, Option, none, some, codes, ◌==◌, if◌then◌else◌,
}

pub data LogLevels : Type 0 where
  log_trace log_debug log_info log_warn log_error log_critical log_none : LogLevels

-- The equality of two texts.
abbrev pub is_same : Bytes → Bytes → Bool
is_same [] [] = true
is_same [] (d ∷ t) = false
is_same (c ∷ s) [] = false
is_same (c ∷ s) (d ∷ t) = c == d && is_same s t

-- `AbslParseFlag`; `none` is the result false.
unfoldable pub parse_flag : Bytes → Option LogLevels
parse_flag text =
    if is_same text (codes "n")
    then some log_none
    else if is_same text (codes "c")
    then some log_critical
    else if is_same text (codes "e")
    then some log_error
    else if is_same text (codes "w")
    then some log_warn
    else if is_same text (codes "i")
    then some log_info
    else if is_same text (codes "d")
    then some log_debug
    else if is_same text (codes "t")
    then some log_trace
    else none

-- `AbslUnparseFlag`.
unfoldable pub unparse_flag : LogLevels → Bytes
unparse_flag log_none = codes "n"
unparse_flag log_critical = codes "c"
unparse_flag log_error = codes "e"
unparse_flag log_warn = codes "w"
unparse_flag log_info = codes "i"
unparse_flag log_debug = codes "d"
unparse_flag log_trace = codes "t"
