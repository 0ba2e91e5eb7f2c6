-- ===== src/Storage/Laws.antt =====
-- What the storage relies on, and what its functions then do to the table of records.
use libpaxos.Base.{ℕ, ◌||◌, Option, none, some, ◌≡◌, ◌≢◌, refl, sym, ap, ◌∙◌, arith}
use libpaxos.Base.{◌==◌, ==_iff, update, Bool-cases, inl, inr}
use libpaxos.Messages.{AcceptorRecord}
use libpaxos.Storage.{Db, DbResult, found, not_found, failure, checked, save}
use libpaxos.Storage.{stablestorage_tx_begin, stablestorage_tx_end, stablestorage_get_record}

-- A read as the table of an ideal store.
abbrev pub to_option : DbResult → Option AcceptorRecord
to_option (found rec) = some rec
to_option not_found = none
to_option failure = none

-- Each record stands under its own instance.
abbrev pub IsKeyed : (ℕ → Option AcceptorRecord) → Type 0
IsKeyed m = (i : ℕ) (rec : AcceptorRecord) → m i ≡ some rec → rec.iid ≡ i

module _ (db : Db) where
  open db use {Store, get, put, txn_begin, txn_commit, sync}

  abbrev pub view : Store → ℕ → Option AcceptorRecord
  view s iid = to_option (get s iid)

  -- The database as it is documented, where no call fails: a write is read back, and leaves the
  -- other keys; transactions and syncs change nothing of what is read.
  pub record IsReliable : Type 0 where
    pub put_succeeds : (s : Store) (i : ℕ) (r : AcceptorRecord) → (put s i r).0 ≡ 0
    pub get-put : (s : Store) (i : ℕ) (r : AcceptorRecord) → get (put s i r).1 i ≡ found r
    pub get-put_ne :
        (s : Store) (i j : ℕ) (r : AcceptorRecord) → i ≢ j → get (put s i r).1 j ≡ get s j
    pub begin_succeeds : (s : Store) → (txn_begin s).0 ≡ 0
    pub begin_keeps : (s : Store) (i : ℕ) → get (txn_begin s).1 i ≡ get s i
    pub commit_succeeds : (s : Store) → (txn_commit s).0 ≡ 0
    pub commit_keeps : (s : Store) (i : ℕ) → get (txn_commit s).1 i ≡ get s i
    pub sync_succeeds : (s : Store) → (sync s).0 ≡ 0
    pub sync_keeps : (s : Store) (i : ℕ) → get (sync s).1 i ≡ get s i

  -- The store holds the table.
  abbrev pub Holds : Store → (ℕ → Option AcceptorRecord) → Type 0
  Holds s m = (i : ℕ) → view s i ≡ m i

checked_lem : {S : Type 0} (r : ℕ × S) → r.0 ≡ 0 → checked r ≡ some r.1
checked_lem r e = rw ((==_iff r.0 0).1 e)

module _ (db : Db) (law : IsReliable db) where
  open db use {Store, get, put, txn_begin, txn_commit, sync}

  -- A transaction call succeeds and keeps the table, in every durability mode.
  pub stablestorage_tx_begin_lem :
      (mode : ℕ) (s : Store) (m : ℕ → Option AcceptorRecord)
      → Holds db s m
      → (s' : Store) × (stablestorage_tx_begin db mode s ≡ some s') × Holds db s' m
  unfolding stablestorage_tx_begin
  stablestorage_tx_begin_lem mode s m h = elim (Bool-cases (mode == 0 || mode == 20)) [
    | inl e ↦ (s, rw e, h)
    | inr e ↦ (
      (txn_begin s).1,
      rw (e, checked_lem (txn_begin s) (law.begin_succeeds s)),
      λ i. rw (law.begin_keeps s i) (h i),
    )
  ]

  pub stablestorage_tx_end_lem :
      (mode : ℕ) (s : Store) (m : ℕ → Option AcceptorRecord)
      → Holds db s m
      → (s' : Store) × (stablestorage_tx_end db mode s ≡ some s') × Holds db s' m
  unfolding stablestorage_tx_end
  stablestorage_tx_end_lem mode s m h = elim (Bool-cases (mode == 0)) [
    | inl e ↦ (s, rw e, h)
    | inr e ↦ elim (Bool-cases (mode == 20)) [
      | inl f ↦ (
        (sync s).1,
        rw (e, f, checked_lem (sync s) (law.sync_succeeds s)),
        λ i. rw (law.sync_keeps s i) (h i),
      )
      | inr f ↦ (
        (txn_commit s).1,
        rw (e, f, checked_lem (txn_commit s) (law.commit_succeeds s)),
        λ i. rw (law.commit_keeps s i) (h i),
      )
    ]
  ]

  pub stablestorage_get_record_lem :
      (s : Store) (m : ℕ → Option AcceptorRecord) (iid : ℕ)
      → Holds db s m
      → IsKeyed m
      → stablestorage_get_record db s iid ≡ some (m iid)
  unfolding stablestorage_get_record
  stablestorage_get_record_lem s m iid h k = go (get s iid) refl
    where
      go : (r : DbResult) → get s iid ≡ r → stablestorage_get_record db s iid ≡ some (m iid)
      go (found rec) e =
          let q : m iid ≡ some rec = sym (h iid) ∙ ap to_option e in
          rw (e, stablestorage_get_record, q, (==_iff iid rec.iid).1 (sym (k iid rec q)))
      go not_found e = rw (e, stablestorage_get_record) (ap some (sym (ap to_option e) ∙ h iid))
      go failure e = rw (e, stablestorage_get_record) (ap some (sym (ap to_option e) ∙ h iid))

  pub save_lem :
      (s : Store) (m : ℕ → Option AcceptorRecord) (iid : ℕ) (rec : AcceptorRecord)
      → Holds db s m
      → (s' : Store) × (save db s iid rec ≡ some (rec, s')) × Holds db s' (update m iid (some rec))
  unfolding save
  save_lem s m iid rec h = (
    (put s iid rec).1,
    rw (checked_lem (put s iid rec) (law.put_succeeds s iid rec)),
    λ j. elim (Bool-cases (iid == j)) [
      | inl e ↦ rw (e, ← (==_iff iid j).0 e, law.get-put s iid rec)
      | inr e ↦ rw (e, law.get-put_ne s iid j rec (λ q. ground arith)) (h j)
    ],
  )
