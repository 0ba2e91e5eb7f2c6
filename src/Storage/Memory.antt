-- ===== src/Storage/Memory.antt =====
-- A database kept in memory, on which the theorems about storage are tried.
use libpaxos.Base.{ℕ, Option, none, some, ◌≡◌, refl, ==_refl, update, arith}
use libpaxos.Messages.{AcceptorRecord}
use libpaxos.Storage.{Db, DbResult, found, not_found}
use libpaxos.Storage.Laws.{IsReliable, to_option}

abbrev pub Memory : Type 0
Memory = ℕ → Option AcceptorRecord

abbrev pub read : Option AcceptorRecord → DbResult
read none = not_found
read (some rec) = found rec

abbrev pub memory_db : Db
memory_db = record {
  Store = Memory;
  get = λ s i. read (s i);
  put = λ s i rec. (0, update s i (some rec));
  txn_begin = λ s. (0, s);
  txn_commit = λ s. (0, s);
  sync = λ s. (0, s);
}

pub memory_reliable : IsReliable memory_db
memory_reliable = record {
  put_succeeds = λ s i r. refl;
  get-put = λ s i r. rw (==_refl i);
  get-put_ne = λ s i j r n. ground arith;
  begin_succeeds = λ s. refl;
  begin_keeps = λ s i. refl;
  commit_succeeds = λ s. refl;
  commit_keeps = λ s i. refl;
  sync_succeeds = λ s. refl;
  sync_keeps = λ s i. refl;
}

pub read-view : (o : Option AcceptorRecord) → to_option (read o) ≡ o
read-view none = refl
read-view (some rec) = refl
