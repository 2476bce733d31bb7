-- ===== src/Tests/Programs.antt =====
-- Runs of the command line programs.
use silkoroutine.Common.{
  List, none, ℕ, Bool, true, false, Bytes, [], ◌∷◌, ◌++◌, Option, some, ◌≡◌, refl, inr, pos, codes,
  arith, if◌then◌else◌,
}
use silkoroutine.Util.{from_hex}
use silkoroutine.Remote.{StatusData, Pair, open_message}
use silkoroutine.Kv.World.{bad_optional_access}
use silkoroutine.Cmd.ChainConfig.Async
use silkoroutine.Cmd.SetStatus
use silkoroutine.Cmd.SetStatus.{exited, terminated}
use silkoroutine.Cmd.SetStatus.Agree.{Agree, main_async-Agree}
use silkoroutine.Cmd.SetStatus.Outcomes.{IsFor, main_sends, main_unset_fork}
use silkoroutine.Cmd.KvFlags
use silkoroutine.Cmd.KvFlags.{check, check_timeout}
use silkoroutine.Cmd.KvSeek.{Stream, main}
use silkoroutine.Cmd.KvSeek.Outcomes.{IsAnswered, requests, main-IsAnswered}
use silkoroutine.Cmd.KvSeekAsync.{Queue, new_queue, write, write_last, main_asio}
use silkoroutine.Cmd.KvSeekAsync
use silkoroutine.Cmd.KvSeekAsync.Outcomes.{
  Answers, event, exchange_events, exchanged, main_ignores_ok,
}
use silkoroutine.Cmd.KvSeekCallback.{
  Reactor, write_done, read_done, signal, comes, impossible, deliver_all, started,
}
use silkoroutine.Cmd.KvSeekCallback
use silkoroutine.Cmd.KvSeekCallback.Hangs.{IsGrpc, failure_hangs}
use silkoroutine.Util.{KeyValue}
use silkoroutine.Kv.Reactor.{start_call}
use silkoroutine.Kv.Awaitables.{async_open_cursor}
use silkoroutine.Kv.Unfinished.{unanswered, heard, calls_heard}
use silkoroutine.Ethdb.Session.{Session, value, drop}
use silkoroutine.Ethdb.TableMap.{find}
use silkoroutine.Ethdb.Interface.Remote.{remote_database}
use silkoroutine.Ethdb.Service.{Spec, Step, spec_cursor, spec_perform}
use silkoroutine.Ethdb.Service.Exchanges.{script, calls_in}
use silkoroutine.Ethdb.Service.Faults.{unfinished}
use silkoroutine.Cmd.KvSeekCoroutines
use silkoroutine.Cmd.KvSeekCoroutines.{before_begin}
use silkoroutine.Cmd.KvSeekCoroutines.Served.{spec_seek, end_of, main-spec_seek, main-interrupted}
use silkoroutine.Tests.Database.{numbering}
use silkoroutine.Cmd.KvPrograms.Agree.{SameAsBlocking, programs-SameAsBlocking}

abbrev key_flags : KvFlags.Flags
key_flags = record {
  table = codes "h";
  seekkey = codes "ab";
  target = codes "localhost:9090";
  timeout = 1000;
}

key_flags-check : check key_flags ≡ some (0xab ∷ [])
unfolding check from_hex
key_flags-check = refl

key_flags-check_timeout : check_timeout key_flags ≡ some (0xab ∷ [])
unfolding check_timeout from_hex
key_flags-check_timeout = refl

abbrev five : Pair
five = record { k = codes "k"; v = codes "v"; cursorid = 5 }

abbrev good_stream : Stream
good_stream = record {
  writes = true ∷ true ∷ true ∷ [];
  reads = some five ∷ some five ∷ some five ∷ [];
  sent = [];
  shown = [];
}

abbrev good_end : Stream
good_end = (main key_flags good_stream).1

main-IsAnswered_example :
    (key : Bytes) × (p : Pair) × (check key_flags ≡ some key)
    × IsAnswered p good_stream
    × (good_end.sent ≡ requests (codes "h") key p)
unfolding main check from_hex
main-IsAnswered_example = main-IsAnswered key_flags good_stream good_end refl

programs-SameAsBlocking_example :
    SameAsBlocking key_flags (record { opened = five; found = five; closed = five })
programs-SameAsBlocking_example =
    programs-SameAsBlocking key_flags (record { opened = five; found = five; closed = five })
      (omega arith)

-- No event is `ok`.
abbrev all_fail : Answers
all_fail = record { oks = λ i. false; pairs = λ i. five; status_ok = false }

main_ignores_ok_example :
    ((t : Queue) × (KvSeekAsync.main key_flags
          (new_queue (event all_fail 0 0 ∷ exchange_events all_fail))
        ≡ (pos 0, t))
      × (t.started ≡ exchanged write (codes "h") (0xab ∷ []) 0))
    × ((t : Queue) × (main_asio key_flags
            (new_queue (exchange_events all_fail ++ event all_fail 7 4 ∷ []))
          ≡ (pos 0, t))
        × (t.started ≡ exchanged write_last (codes "h") (0xab ∷ []) 0))
main_ignores_ok_example = main_ignores_ok key_flags (0xab ∷ []) all_fail key_flags-check_timeout

-- The message OPEN is written, but its answer is not read.
abbrev open_unread : List KvSeekCallback.Event
open_unread = write_done true ∷ read_done none ∷ []

open_unread-deliver :
    (t : Reactor) × (deliver_all (codes "h") (0xab ∷ []) open_unread (started (codes "h"))
      ≡ comes t)
unfolding deliver_all KvSeekCallback.deliver KvSeekCallback.happen KvSeekCallback.written
    KvSeekCallback.received
open_unread-deliver = (_, refl)

failure_hangs_example :
    (KvSeekCallback.main key_flags open_unread ≡ comes none)
    × ((d : KvSeekCallback.Event) (fs : List KvSeekCallback.Event)
        → IsGrpc d
        → KvSeekCallback.main key_flags (open_unread ++ d ∷ fs) ≡ impossible)
    × ((what : Bytes) (n : ℕ)
        → KvSeekCallback.main key_flags (open_unread ++ signal what n ∷ []) ≡ comes (some (pos 0)))
failure_hangs_example =
    failure_hangs key_flags (0xab ∷ []) (write_done true ∷ []) (read_done none)
      key_flags-check_timeout refl (λ e. cc (open_unread-deliver.1))

-- The service gives the cursor the id 5.
abbrev fresh_service : Spec numbering
fresh_service = record { ids = []; service = 0 }

abbrev seek_due : Step numbering (ℕ × KeyValue)
seek_due = spec_seek numbering (codes "h") (0xab ∷ []) fresh_service

main-spec_seek_example :
    (t : Session) × (KvSeekCoroutines.kv_seek remote_database
        (codes "h")
        (0xab ∷ [])
        (before_begin (script seek_due.exchanges))
      ≡ (value seek_due.result, record { begun = t ∷ []; to_come = [] }))
    × (KvSeekCoroutines.main key_flags (script seek_due.exchanges)
        ≡ (KvSeekCoroutines.exited (pos 0), record { begun = t ∷ []; to_come = [] }))
    × (t.world.reactor.calls ≡ start_call ∷ calls_in seek_due.exchanges)
    × (t.events ≡ [])
main-spec_seek_example = main-spec_seek numbering key_flags (0xab ∷ []) 0 key_flags-check_timeout

-- The answer to the OPEN does not come.
abbrev opened_first : Pair
opened_first = (numbering.answer (open_message (codes "h")) 0).0

seek_due-open :
    seek_due.exchanges
    ≡ [] ++ (async_open_cursor (codes "h"), opened_first) ∷ drop 1 (seek_due.exchanges)
unfolding spec_seek spec_cursor spec_perform find
seek_due-open = refl

main-interrupted_example :
    (t : Session) × (KvSeekCoroutines.main key_flags
        (heard unanswered (async_open_cursor (codes "h")) ∷ [])
      ≡ (
        end_of (unfinished unanswered) (async_open_cursor (codes "h")),
        record { begun = t ∷ []; to_come = [] },
      ))
    × (t.world.reactor.calls ≡ start_call ∷ calls_heard unanswered (async_open_cursor (codes "h")))
main-interrupted_example =
    main-interrupted numbering key_flags (0xab ∷ []) 0 [] (async_open_cursor (codes "h"))
      opened_first (drop 1 (seek_due.exchanges)) (unfinished unanswered) [] key_flags-check_timeout
      seek_due-open

abbrev flags_for : ℕ → SetStatus.Flags
flags_for i = record {
  chainid = i;
  target = codes "localhost:9091";
  block_hash = codes "0a";
  total_difficulty = codes "1";
  timeout = 1000;
}

-- A server that accepts each request.
abbrev accepts : StatusData → Bool
accepts r = true

abbrev finished : StatusData → Option ℕ
finished r = some 1

main_sends_example :
    (r : StatusData) × IsFor (flags_for 3) r
    × (SetStatus.main accepts (flags_for 3)
        ≡ (if accepts r then exited (pos 0) else exited (pos 1), r ∷ []))
main_sends_example = main_sends accepts (flags_for 3) refl (inr refl)

main_unset_fork_example :
    (SetStatus.main accepts (flags_for 61) ≡ (terminated bad_optional_access, []))
    × (SetStatus.main_async accepts finished (flags_for 61) ≡ (terminated bad_optional_access, []))
main_unset_fork_example = main_unset_fork accepts (flags_for 61) refl finished (inr refl)

main_async-Agree_example :
    Agree
      (SetStatus.main accepts (flags_for 3))
      (SetStatus.main_async accepts finished (flags_for 3))
main_async-Agree_example = main_async-Agree accepts finished (λ r. refl) (flags_for 3)
