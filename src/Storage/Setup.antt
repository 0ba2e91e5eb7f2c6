-- ===== src/Storage/Setup.antt =====
-- lib/acceptor_stable_storage.c: the opening, the recovery and the closing of the files. What a
-- call of the file system or of Berkeley DB returns is a parameter, `ok`: whether the call
-- succeeds, by the calls before it; the calls are recorded, oldest first. `none` is a failed
-- assertion.
use libpaxos.Base.{
  ℕ, Bool, true, false, not, ◌&&◌, ◌||◌, Option, none, some, List, [], ◌∷◌, ◌++◌, ◌==◌,
}
use libpaxos.Base.{if◌then◌else◌}

-- The flag of the environment, by durability mode.
pub data TxFlag : Type 0 where
  log_in_memory txn_nosync txn_write_nosync no_flag : TxFlag

-- The two paths of the database file: with the directory of the environment, or within it.
pub data DbPath : Type 0 where
  full_path file_name : DbPath

pub data Call : Type 0 where
  mkdir remove_dir : Call
  env_create env_set_cachesize env_open env_close : Call
  env_set_flags : TxFlag → Call
  db_create db_set_cachesize db_close db_sync : Call
  db_open : DbPath → Call
  txn_begin txn_commit : Call

-- An action over the record of calls, which may fail an assertion.
abbrev pub Run : Type 0 → Type 0
Run A = List Call → Option (A × List Call)

infixl 5 ◌>>=◌ ◌>>◌
abbrev pub ◌>>=◌ : {A B : Type 0} → Run A → (A → Run B) → Run B
m >>= f = λ log. elim (m log) [ none ↦ none | some (a, log') ↦ f a log' ]

abbrev pub ◌>>◌ : {A B : Type 0} → Run A → Run B → Run B
m >> k = m >>= λ _. k

abbrev pub pure : {A : Type 0} → A → Run A
pure a log = some (a, log)

abbrev pub assert : Bool → Run (Unit {0})
assert true log = some (tt, log)
assert false log = none

-- `result != 0` of several calls in a row: those behind a failed one are not made.
abbrev pub and_then : Run Bool → Run Bool → Run Bool
and_then m k = do ok ← m; if ok then k else pure false

module _ (ok : List Call → Call → Bool) where
  abbrev pub call : Call → Run Bool
  call c log = some (ok log c, log ++ c ∷ [])

  -- Whether `dbenv` is not NULL: a call of `db_env_create` has succeeded.
  unfoldable pub env_made : List Call → List Call → Bool
  env_made before [] = false
  env_made before (env_create ∷ cs) =
      ok before env_create || env_made (before ++ env_create ∷ []) cs
  env_made before (c ∷ cs) = env_made (before ++ c ∷ []) cs

  -- A method of `dbenv` follows: NULL is a fault.
  abbrev pub use_env : Run (Unit {0})
  use_env log = assert (env_made [] log) log

  -- `stablestorage_tx_begin` and `stablestorage_tx_end`, by their calls.
  unfoldable pub tx_begin : ℕ → Run (Unit {0})
  tx_begin mode =
      if mode == 0 || mode == 20 then pure tt else (do use_env; call txn_begin >>= assert)

  unfoldable pub tx_end : ℕ → Run (Unit {0})
  tx_end mode =
      if mode == 0
      then pure tt
      else (if mode == 20 then call db_sync >>= assert else (call txn_commit >>= assert))

  unfoldable pub bdb_init_tx_handle : TxFlag → Run Bool
  bdb_init_tx_handle tx_mode =
      and_then (call env_create) (
        and_then (call (env_set_flags tx_mode)) (and_then (call env_set_cachesize) (call env_open)))

  unfoldable pub bdb_init_db : ℕ → DbPath → Run Bool
  bdb_init_db mode db_path = and_then (call db_create) (
      and_then (if mode == 0 || mode == 20 then call db_set_cachesize else pure true)
        (do tx_begin mode; result ← call (db_open db_path); tx_end mode; pure result))

  -- The directory: it is made where there is none; a fresh start removes the old one and makes it
  -- again, and goes on if that fails.
  unfoldable pub prepare_dir : Bool → Bool → Run Bool
  prepare_dir do_recovery dir_exists = and_then (if dir_exists then pure true else call mkdir) (
      if not do_recovery && dir_exists
      then (do recreated ← and_then (call remove_dir) (call mkdir); pure true)
      else pure true)

  -- The switch on the durability mode: the path to open, or none for an unknown mode. What
  -- `bdb_init_tx_handle` returns is only printed.
  unfoldable pub open_env : ℕ → Run (Option DbPath)
  open_env mode =
      if mode == 0 || mode == 20
      then pure (some full_path)
      else (if mode == 10
          then (do ret ← bdb_init_tx_handle log_in_memory; pure (some file_name))
          else (if mode == 11
              then (do ret ← bdb_init_tx_handle txn_nosync; pure (some file_name))
              else (if mode == 12
                  then (do ret ← bdb_init_tx_handle txn_write_nosync; pure (some file_name))
                  else (if mode == 13
                      then (do ret ← bdb_init_tx_handle no_flag; pure (some file_name))
                      else pure none))))

  -- Whether 0 is returned.
  unfoldable pub stablestorage_init : ℕ → Bool → Bool → Bool → Run Bool
  stablestorage_init mode do_recovery dir_exists db_exists =
      if do_recovery && (not dir_exists || not db_exists)
      then pure false
      else and_then (prepare_dir do_recovery dir_exists) (do
        path ← open_env mode
        elim path [ none ↦ pure false | some db_file ↦ bdb_init_db mode db_file ])

  -- Both closes are tried; the result is that of the two.
  unfoldable pub stablestorage_shutdown : ℕ → Run Bool
  stablestorage_shutdown mode = do
    closed ← call db_close
    if mode == 0 || mode == 20
        then pure closed
        else (if mode == 10 || mode == 11 || mode == 12 || mode == 13
            then (do use_env; env_closed ← call env_close; pure (closed && env_closed))
            else pure false)
