-- ===== src/Log/Lock.antt =====
-- The lock of silkoroutine/common/log.hpp, for threads that log at the same time. A log statement
-- is the texts that it puts, header included: the constructor of `log_` takes the mutex and the
-- destructor, at the end of the statement, gives it back. A put does not look at the mutex.
pub mod Served
pub mod Entries
pub mod Lines
pub mod Progress
use silkoroutine.Common.{
  ℕ, Bytes, List, [], ◌∷◌, ◌++◌, Option, none, some, ◌≡◌, ◌==◌, if◌then◌else◌,
}

-- A thread: the texts that the statement under way has still to put, and the statements to come.
pub record Thread : Type 0 where
  pub writing : Option (List Bytes)
  pub todo : List (List Bytes)

-- `log_mtx_` with the thread that has it, the threads, and what was put.
pub record Threads : Type 0 where
  pub owner : Option ℕ
  pub threads : ℕ → Thread
  pub output : List Bytes

abbrev pub update : ℕ → Thread → (ℕ → Thread) → ℕ → Thread
update i t f j = if i == j then t else f j

abbrev pub start : (ℕ → List (List Bytes)) → Threads
start statements = record {
  owner = none;
  threads = λ i. record { writing = none; todo = statements i };
  output = [];
}

pub data Step (s : Threads) : Threads → Type 0 where
  lock :
      (i : ℕ) (texts : List Bytes) (rest : List (List Bytes))
      → s.owner ≡ none
      → s.threads i ≡ record { writing = none; todo = texts ∷ rest }
      → Step s (record s {
        owner = some i;
        threads = update i (record { writing = some texts; todo = rest }) s.threads;
      })
  put :
      (i : ℕ) (text : Bytes) (texts : List Bytes) (rest : List (List Bytes))
      → s.threads i ≡ record { writing = some (text ∷ texts); todo = rest }
      → Step s (record s {
        threads = update i (record { writing = some texts; todo = rest }) s.threads;
        output = s.output ++ text ∷ [];
      })
  unlock :
      (i : ℕ) (rest : List (List Bytes))
      → s.threads i ≡ record { writing = some []; todo = rest }
      → Step s (record s {
        owner = none;
        threads = update i (record { writing = none; todo = rest }) s.threads;
      })

pub data Reach (s : Threads) : Threads → Type 0 where
  here : Reach s s
  next : {t u : Threads} → Reach s t → Step t u → Reach s u
