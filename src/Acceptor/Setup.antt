-- ===== src/Acceptor/Setup.antt =====
-- lib/acceptor.c: the start and the end of an acceptor. It runs on the thread of its learner, which
-- calls `init_acceptor` behind its own start; the calls on the files are recorded, oldest first.
-- Its call of learner_suspend, without ACCEPTOR_UPDATE_ON_DELIVER, is left out.
use libpaxos.Base.{
  ℕ, Bool, true, false, not, ◌&&◌, Option, none, some, sym, ap, ◌∙◌, List, [], ◌≤◌, ◌≡◌, ◌⊎◌, inl,
  inr, refl, leb, if◌then◌else◌, All, Bool-cases, arith,
}
use libpaxos.Config.{n_of_acceptors}
use libpaxos.Storage.Setup.{Call, Run, ◌>>=◌, pure, stablestorage_init, stablestorage_shutdown}
use libpaxos.Storage.Opening.{
  Makes, Makes-pure, Makes-bind, Makes-if, Records, LeavesFiles, stablestorage_init-Makes,
  recovery_fails,
}
use libpaxos.Learner.Startup.{
  Calls, Ready, Startup, Reach, error, returned, created, init_learner_thread, init_lea_network,
  init_lea_timers, init_lea_signal_ready, result_of,
}
use libpaxos.Learner.Threads.{returned_lem}
use mathlib.Core.Path.{subst}

-- What the calls for the sockets, the timer and the learner's thread return: whether each succeeds.
pub record SetupCalls : Type 0 where
  pub proposers_sender : Bool
  pub learners_sender : Bool
  pub acceptor_receiver : Bool
  pub repeat_timer : Bool
  pub learner_thread : Bool

unfoldable pub init_acc_network : SetupCalls → Bool
init_acc_network c =
    if not c.proposers_sender
    then false
    else (if not c.learners_sender then false else c.acceptor_receiver)

unfoldable pub init_acc_timers : SetupCalls → Bool
init_acc_timers c = c.repeat_timer

-- Whether the learner's thread gets to the function that is its custom init.
unfoldable pub calls_custom_init : Calls → Bool
unfolding init_lea_network init_lea_timers
calls_custom_init l = l.event_init && init_lea_network l && init_lea_timers l

custom_init_fails :
    (l : Calls) → init_learner_thread true (record l { custom_init = some false }) ≡ error
unfolding init_learner_thread init_lea_network init_lea_timers init_lea_signal_ready
custom_init_fails l = ground arith

learner_fails : (l : Calls) → calls_custom_init l ≡ false → init_learner_thread true l ≡ error
unfolding init_learner_thread init_lea_network init_lea_timers init_lea_signal_ready
    calls_custom_init
learner_fails l h = ground arith

-- What `stat` tells of the directory and the file of the database.
pub record Files : Type 0 where
  pub dir_exists : Bool
  pub db_exists : Bool

-- What `acceptor_init` may return, whether it is 0: behind the wait for a thread, what any course of
-- the two threads leads to.
abbrev pub MayReturn : Option Ready → Bool → Type 0
MayReturn none b = b ≡ false
MayReturn (some outcome) b =
    (s : Startup) × (r : Ready) × Reach outcome created s
    × (s.caller ≡ returned r)
    × (result_of r ≡ b)

only_false : (b : Bool) → MayReturn (some error) b → b ≡ false
only_false b (s, r, reach, e, h) =
    let same : r ≡ error = returned_lem error (λ q. cc) reach r e in sym h ∙ ap result_of same

module _ (ok : List Call → Call → Bool) (mode : ℕ) (files : Files) where
  -- Whether 0 is returned.
  unfoldable pub init_acceptor : Bool → SetupCalls → Run Bool
  init_acceptor do_recovery c =
      if not (init_acc_network c)
      then pure false
      else (if not (init_acc_timers c)
          then pure false
          else stablestorage_init ok mode do_recovery files.dir_exists files.db_exists)

  -- What the learner's thread signals, with `init_acceptor` as its custom init.
  unfoldable pub acceptor_thread : Bool → SetupCalls → Calls → Run Ready
  acceptor_thread do_recovery c l =
      if calls_custom_init l
      then (do
        success ← init_acceptor do_recovery c
        pure (init_learner_thread true (record l { custom_init = some success })))
      else pure (init_learner_thread true l)

  -- What the learner's thread signals, or none if -1 is returned without a thread; the number is
  -- not negative.
  unfoldable pub acceptor_init : Bool → ℕ → SetupCalls → Calls → Run (Option Ready)
  acceptor_init do_recovery acceptor_id c l =
      if leb 32 n_of_acceptors
      then pure none
      else (if leb n_of_acceptors acceptor_id
          then pure none
          else (if not c.learner_thread
              then pure none
              else (do outcome ← acceptor_thread do_recovery c l; pure (some outcome))))

  unfoldable pub acceptor_init_recover : ℕ → SetupCalls → Calls → Run (Option Ready)
  acceptor_init_recover = acceptor_init true

  unfoldable pub acceptor_exit : Run Bool
  acceptor_exit = do closed ← stablestorage_shutdown ok mode; pure true

  acceptor_thread-Makes :
      (c : SetupCalls) (l : Calls) → Makes LeavesFiles (acceptor_thread true c l)
  unfolding acceptor_thread init_acceptor
  acceptor_thread-Makes c l =
      Makes-if (calls_custom_init l) _ _
        (Makes-bind (init_acceptor true c) _
          (Makes-if (not (init_acc_network c)) _ _ (Makes-pure false) (
            Makes-if (not (init_acc_timers c)) _ _ (Makes-pure false)
              (stablestorage_init-Makes ok mode files.dir_exists files.db_exists)))
          (λ success. Makes-pure _))
        (Makes-pure _)

  acceptor_init_recover-Makes :
      (acceptor_id : ℕ) (c : SetupCalls) (l : Calls)
      → Makes LeavesFiles (acceptor_init_recover acceptor_id c l)
  unfolding acceptor_init_recover acceptor_init
  acceptor_init_recover-Makes acceptor_id c l =
      Makes-if (leb n_of_acceptors acceptor_id) _ _ (Makes-pure none) (
        Makes-if (not c.learner_thread) _ _ (Makes-pure none)
          (Makes-bind (acceptor_thread true c l) _ (acceptor_thread-Makes c l) (λ r. Makes-pure _)))

  -- What keeps an acceptor from starting, but for its number.
  abbrev IsHindered : SetupCalls → Type 0
  IsHindered c =
      (init_acc_network c ≡ false)
      ⊎ (init_acc_timers c ≡ false)
      ⊎ (files.dir_exists && files.db_exists ≡ false)

  init_acceptor_fails :
      (c : SetupCalls) (log : List Call)
      → IsHindered c
      → init_acceptor true c log ≡ some (false, log)
  unfolding init_acceptor
  init_acceptor_fails c log h = elim (Bool-cases (init_acc_network c)) [
    | inl e ↦ elim (Bool-cases (init_acc_timers c)) [
      | inl e' ↦
          let missing : files.dir_exists && files.db_exists ≡ false = ground arith in
          rw (e, e') (recovery_fails ok mode files.dir_exists files.db_exists log missing)
      | inr e' ↦ rw (e, e') refl
    ]
    | inr e ↦ rw e refl
  ]

  acceptor_thread_fails :
      (c : SetupCalls) (l : Calls) (log : List Call)
      → IsHindered c
      → acceptor_thread true c l log ≡ some (error, log)
  unfolding acceptor_thread
  acceptor_thread_fails c l log h = elim (Bool-cases (calls_custom_init l)) [
    | inl e ↦ rw (e, ◌>>=◌, init_acceptor_fails c log h, custom_init_fails l) refl
    | inr e ↦ rw (e, learner_fails l e) refl
  ]

  -- An acceptor is not started again where its number is out of range, a call for a socket or a timer
  -- of its own fails, or the directory or the file of the database is missing: beside the two of
  -- `stat` no call on the files is made, and if the start returns, it returns -1, whatever the two
  -- threads do in turn. In any case, where no assertion fails, no directory
  -- is made or removed.
  pub acceptor_init_recover_lem :
      (acceptor_id : ℕ) (c : SetupCalls) (l : Calls)
      → ((n_of_acceptors ≤ acceptor_id)
            ⊎ (init_acc_network c ≡ false)
            ⊎ (init_acc_timers c ≡ false)
            ⊎ (files.dir_exists && files.db_exists ≡ false)
          → (o : Option Ready) × (acceptor_init_recover acceptor_id c l [] ≡ some (o, []))
            × ((b : Bool) → MayReturn o b → b ≡ false))
        × ((result : Option Ready) (log : List Call)
            → acceptor_init_recover acceptor_id c l [] ≡ some (result, log)
            → All LeavesFiles log)
  unfolding acceptor_init_recover acceptor_init acceptor_thread calls_custom_init init_acceptor
      init_learner_thread init_acc_network init_acc_timers
  acceptor_init_recover_lem acceptor_id c l = (
    λ h. elim (Bool-cases (leb n_of_acceptors acceptor_id)) [
      | inl e ↦ (none, rw e refl, λ b r. r)
      | inr e ↦ elim (Bool-cases c.learner_thread) [
        | inr no_thread ↦ (none, rw (e, no_thread) refl, λ b r. r)
        | inl thread ↦
            let hindered : IsHindered c = ground arith in
            (
              some error,
              rw (e, thread, ◌>>=◌, acceptor_thread_fails c l [] hindered) refl,
              only_false,
            )
      ]
    ],
    λ result log e.
        subst (λ o. Records LeavesFiles o) e
          ((acceptor_init_recover-Makes acceptor_id c l).at [] tt),
  )
