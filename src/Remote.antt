-- ===== src/Remote.antt =====
-- The messages of the KV service, as silkoroutine/bindings/kv/generated/kv.pb.h declares them, and
-- the status of the sentry service: the fields that the client sets and reads. A message that is
-- made with `{}` has zeros and empty text.
use silkoroutine.Common.{ℕ, Bytes, List, []}

pub data Op : Type 0 where
  first first_dup seek seek_both current last last_dup next : Op
  next_dup next_no_dup prev prev_dup prev_no_dup seek_exact seek_both_exact open_op close_op : Op

-- `remote::Cursor`, what the client writes.
pub record Cursor : Type 0 where
  pub op : Op
  pub bucketname : Bytes
  pub cursor : ℕ
  pub k : Bytes
  pub v : Bytes

-- `remote::Pair`, what the server answers.
pub record Pair : Type 0 where
  pub k : Bytes
  pub v : Bytes
  pub cursorid : ℕ

abbrev pub empty_cursor : Cursor
empty_cursor = record { op = first; bucketname = []; cursor = 0; k = []; v = [] }

abbrev pub empty_pair : Pair
empty_pair = record { k = []; v = []; cursorid = 0 }

-- The messages that the client sends, each with the fields that it sets.
abbrev pub open_message : Bytes → Cursor
open_message table = record empty_cursor { op = open_op; bucketname = table }

abbrev pub seek_message : ℕ → Bytes → Cursor
seek_message id key = record empty_cursor { op = seek; cursor = id; k = key }

abbrev pub next_message : ℕ → Cursor
next_message id = record empty_cursor { op = next; cursor = id }

abbrev pub close_message : ℕ → Cursor
close_message id = record empty_cursor { op = close_op; cursor = id }

-- `sentry::StatusData` of bindings/p2psentry/generated/sentry.pb.h, with its `sentry::Forks`.
pub record StatusData : Type 0 where
  pub network_id : ℕ
  pub total_difficulty : Bytes
  pub best_hash : Bytes
  pub genesis : Bytes
  pub forks : List ℕ
