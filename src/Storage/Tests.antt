-- ===== src/Storage/Tests.antt =====
-- Runs of the opening of the storage.
use libpaxos.Base.{Bool, true, false, none, some, List, [], ◌∷◌, ◌≡◌, refl}
use libpaxos.Storage.Setup.{
  Call, mkdir, remove_dir, env_create, env_set_cachesize, env_open, env_set_flags, db_create,
  db_set_cachesize, db_sync, db_open, txn_begin, txn_commit, file_name, full_path, txn_nosync,
  stablestorage_init, prepare_dir, open_env, bdb_init_tx_handle, bdb_init_db, tx_begin, tx_end,
  env_made,
}

-- Every call succeeds.
abbrev all_work : List Call → Call → Bool
all_work log c = true

-- The environment cannot be created.
abbrev no_env : List Call → Call → Bool
no_env log env_create = false
no_env log _ = true

recovered :
    stablestorage_init all_work 11 true true true []
    ≡ some (
      true,
      env_create
          ∷ env_set_flags txn_nosync
          ∷ env_set_cachesize
          ∷ env_open
          ∷ db_create
          ∷ txn_begin
          ∷ db_open file_name
          ∷ txn_commit
          ∷ [],
    )
unfolding stablestorage_init prepare_dir open_env bdb_init_tx_handle bdb_init_db tx_begin tx_end
    env_made
recovered = refl

started_again :
    stablestorage_init all_work 20 false true true []
    ≡ some
        (true, remove_dir ∷ mkdir ∷ db_create ∷ db_set_cachesize ∷ db_open full_path ∷ db_sync ∷ [])
unfolding stablestorage_init prepare_dir open_env bdb_init_db tx_begin tx_end
started_again = refl

-- With no environment, the transaction around the opening of the database is begun on NULL.
no_dbenv : stablestorage_init no_env 13 true true true [] ≡ none
unfolding stablestorage_init prepare_dir open_env bdb_init_tx_handle bdb_init_db tx_begin env_made
no_dbenv = refl
