-- ===== src/Storage.antt =====
-- lib/acceptor_stable_storage.c: the records of an acceptor, kept in Berkeley DB. The database is a
-- parameter, since its code is not in the repository; so is DURABILITY_MODE. `none` is a failed
-- assertion. The static record buffer is not modelled: each caller reads the record that it gets
-- before the next call, so a copy serves. Opening, recovery and closing
-- of the files are in a child module.
pub mod Laws
pub mod Memory
pub mod Setup
pub mod Opening
mod Tests
use libpaxos.Base.{ℕ, ◌-◌, Bool, true, false, ◌||◌, Option, none, some, List, []}
use libpaxos.Base.{◌==◌, if◌then◌else◌, ◌>>=◌, ◌>>◌, assert}
use libpaxos.Messages.{AcceptorRecord, PrepareReq, AcceptReq}

-- What `DB->get` returns: the data, DB_NOTFOUND or DB_KEYEMPTY, or another error.
pub data DbResult : Type 0 where
  found : AcceptorRecord → DbResult
  not_found : DbResult
  failure : DbResult

-- The calls of Berkeley DB that the code makes; a number is the result code.
pub record Db : Type 1 where
  pub Store : Type 0
  pub get : Store → ℕ → DbResult
  pub put : Store → ℕ → AcceptorRecord → ℕ × Store
  pub txn_begin : Store → ℕ × Store
  pub txn_commit : Store → ℕ × Store
  pub sync : Store → ℕ × Store

-- A call whose result code is asserted to be 0.
abbrev pub checked : {S : Type 0} → ℕ × S → Option S
checked (result, s) = assert (result == 0) >> some s

-- A new record has no value; an old one keeps all but its ballot.
abbrev pub promised : PrepareReq → Option AcceptorRecord → AcceptorRecord
promised pr none = record {
  iid = pr.iid;
  ballot = pr.ballot;
  value_ballot = 0;
  is_final = false;
  value = [];
}
promised pr (some rec) = record rec { ballot = pr.ballot }

module _ (db : Db) (durability_mode : ℕ) where
  open db use {Store, txn_begin, txn_commit, sync}

  unfoldable pub stablestorage_tx_begin : Store → Option Store
  stablestorage_tx_begin s =
      if durability_mode == 0 || durability_mode == 20 then some s else checked (txn_begin s)

  unfoldable pub stablestorage_tx_end : Store → Option Store
  stablestorage_tx_end s =
      if durability_mode == 0
      then some s
      else (if durability_mode == 20 then checked (sync s) else checked (txn_commit s))

module _ (db : Db) where
  open db use {Store, get, put}

  -- The inner option is the NULL of a record that does not exist or cannot be read.
  unfoldable pub stablestorage_get_record : Store → ℕ → Option (Option AcceptorRecord)
  stablestorage_get_record s iid = elim (get s iid) [
    | found rec ↦ assert (iid == rec.iid) >> some (some rec)
    | not_found ↦ some none
    | failure ↦ some none
  ]

  -- Writes a record under the instance, and returns both.
  unfoldable pub save : Store → ℕ → AcceptorRecord → Option (AcceptorRecord × Store)
  save s iid rec = do s' ← checked (put s iid rec); some (rec, s')

  unfoldable pub stablestorage_save_accept : Store → AcceptReq → Option (AcceptorRecord × Store)
  unfolding save
  stablestorage_save_accept s ar = save s ar.iid record {
    iid = ar.iid;
    ballot = ar.ballot;
    value_ballot = ar.ballot;
    is_final = false;
    value = ar.value;
  }

  unfoldable pub stablestorage_save_prepare :
      Store → PrepareReq → Option AcceptorRecord → Option (AcceptorRecord × Store)
  unfolding save
  stablestorage_save_prepare s pr rec = save s pr.iid (promised pr rec)

  unfoldable pub stablestorage_save_final_value :
      Store → List ℕ → ℕ → ℕ → Option (AcceptorRecord × Store)
  unfolding save
  stablestorage_save_final_value s value iid ballot =
      save s iid
        record { iid = iid; ballot = ballot; value_ballot = ballot; is_final = true; value = value }
