-- ===== src/Storage/Opening.antt =====
-- lib/acceptor_stable_storage.c: what opening the storage does to the files.
use libpaxos.Base.{ℕ, Bool, true, false, ◌&&◌, Option, none, some, List, [], ◌∷◌}
use libpaxos.Base.{◌≡◌, refl, if◌then◌else◌, All, All-append}
use libpaxos.Storage.Setup.{
  Call, TxFlag, DbPath, mkdir, remove_dir, Run, ◌>>=◌, pure, assert, call, env_made, use_env,
  tx_begin, tx_end, bdb_init_tx_handle, bdb_init_db, prepare_dir, open_env, stablestorage_init,
}

-- What is recorded at the end, if no assertion fails.
abbrev pub Records : {A : Type 0} → (Call → Type 0) → Option (A × List Call) → Type 0
Records P none = Unit
Records P (some (a, log)) = All P log

-- An action makes only calls of a kind.
pub record Makes {A : Type 0} (P : Call → Type 0) (m : Run A) : Type 0 where
  pub at : (log : List Call) → All P log → Records P (m log)

module _ {P : Call → Type 0} where
  pub Makes-pure : {A : Type 0} (a : A) → Makes P (pure a)
  Makes-pure a = record { at = λ log h. h }

  Makes-assert : (b : Bool) → Makes P (assert b)
  Makes-assert true = record { at = λ log h. h }
  Makes-assert false = record { at = λ log h. tt }

  Makes-call : (ok : List Call → Call → Bool) (c : Call) → P c → Makes P (call ok c)
  Makes-call ok c p = record { at = λ log h. All-append P log (c ∷ []) h (p, tt) }

  pub Makes-bind :
      {A B : Type 0} (m : Run A) (f : A → Run B)
      → Makes P m
      → ((a : A) → Makes P (f a))
      → Makes P (m >>= f)
  Makes-bind {A} {B} m f km kf = record { at = λ log h. go (m log) (km.at log h) }
    where
      go :
          (o : Option (A × List Call))
          → Records P o
          → Records P (elim o [ none ↦ none | some (a, log') ↦ f a log' ])
      go none h = tt
      go (some (a, log)) h = (kf a).at log h

  pub Makes-if :
      {A : Type 0} (b : Bool) (m n : Run A) → Makes P m → Makes P n → Makes P (if b then m else n)
  Makes-if true m n km kn = km
  Makes-if false m n km kn = kn

ruleset makes_rules = (Makes-pure, Makes-assert, Makes-call, Makes-bind, Makes-if)

-- A call that neither makes nor removes a directory.
abbrev pub LeavesFiles : Call → Type 0
LeavesFiles mkdir = ⊥
LeavesFiles remove_dir = ⊥
LeavesFiles _ = Unit

module _ (ok : List Call → Call → Bool) where
  use_env-Makes : Makes LeavesFiles (use_env ok)
  use_env-Makes = record { at = λ log h. (Makes-assert (env_made ok [] log)).at log h }

  tx_begin-Makes : (mode : ℕ) → Makes LeavesFiles (tx_begin ok mode)
  unfolding tx_begin
  tx_begin-Makes mode = search (makes_rules, use_env-Makes) depth 12

  tx_end-Makes : (mode : ℕ) → Makes LeavesFiles (tx_end ok mode)
  unfolding tx_end
  tx_end-Makes mode = search makes_rules depth 12

  bdb_init_tx_handle-Makes : (flag : TxFlag) → Makes LeavesFiles (bdb_init_tx_handle ok flag)
  unfolding bdb_init_tx_handle
  bdb_init_tx_handle-Makes flag = search makes_rules depth 12

  bdb_init_db-Makes : (mode : ℕ) (path : DbPath) → Makes LeavesFiles (bdb_init_db ok mode path)
  unfolding bdb_init_db
  bdb_init_db-Makes mode path = search (makes_rules, tx_begin-Makes, tx_end-Makes) depth 14

  open_env-Makes : (mode : ℕ) → Makes LeavesFiles (open_env ok mode)
  unfolding open_env
  open_env-Makes mode = search (makes_rules, bdb_init_tx_handle-Makes) depth 16

  -- The database is opened behind the environment.
  opens-Makes :
      (mode : ℕ)
      → Makes LeavesFiles (
          open_env ok mode >>= λ path. elim path [
            | none ↦ pure false
            | some db_file ↦ bdb_init_db ok mode db_file
          ])
  opens-Makes mode = Makes-bind (open_env ok mode) _ (open_env-Makes mode) by_path
    where
      by_path :
          (path : Option DbPath)
          → Makes LeavesFiles
              (elim path [ none ↦ pure false | some db_file ↦ bdb_init_db ok mode db_file ])
      by_path none = Makes-pure false
      by_path (some db_file) = bdb_init_db-Makes mode db_file

  -- Recovery makes and removes no directory, whatever the calls return.
  pub stablestorage_init-Makes :
      (mode : ℕ) (dir_exists db_exists : Bool)
      → Makes LeavesFiles (stablestorage_init ok mode true dir_exists db_exists)
  unfolding stablestorage_init prepare_dir
  stablestorage_init-Makes mode false db_exists = Makes-pure false
  stablestorage_init-Makes mode true false = Makes-pure false
  stablestorage_init-Makes mode true true =
      Makes-bind (pure true) _ (Makes-pure true)
        (λ b. Makes-if b _ _ (opens-Makes mode) (Makes-pure false))

  -- Where the directory or the file is missing, it fails without any call.
  pub recovery_fails :
      (mode : ℕ) (dir_exists db_exists : Bool) (log : List Call)
      → dir_exists && db_exists ≡ false
      → stablestorage_init ok mode true dir_exists db_exists log ≡ some (false, log)
  unfolding stablestorage_init
  recovery_fails mode true db_exists log h = rw h refl
  recovery_fails mode false db_exists log h = refl
