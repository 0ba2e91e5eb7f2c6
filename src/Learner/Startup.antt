-- ===== src/Learner/Startup.antt =====
-- lib/learner.c: the start of a learner, by a thread of its own that the caller waits for. What the
-- calls of libevent and of the sockets return is an argument; a condition variable is what POSIX
-- says: a signal wakes a thread that waits, and is lost otherwise, and a wait may end unasked.
use libpaxos.Base.{Bool, true, false, not, Option, none, some, ◌≡◌}
use libpaxos.Base.{if◌then◌else◌}

-- `learner_ready`
pub data Ready : Type 0 where
  starting ready error : Ready

-- What the calls return: whether each succeeds. A client may have no function of its own to call.
-- What `event_add` returns for the event of the receiver is not looked at.
pub record Calls : Type 0 where
  pub event_init : Bool
  pub sender : Bool
  pub receiver : Bool
  pub learner_event : Bool
  pub hole_timer : Bool
  pub custom_init : Option Bool
  pub ready_timer : Bool

unfoldable pub init_lea_network : Calls → Bool
init_lea_network c = if not c.sender then false else c.receiver

unfoldable pub init_lea_timers : Calls → Bool
init_lea_timers c = c.hole_timer

unfoldable pub init_lea_signal_ready : Calls → Bool
init_lea_signal_ready c = c.ready_timer

abbrev pub custom_fails : Option Bool → Bool
custom_fails none = false
custom_fails (some ok) = not ok

-- What the thread signals; the flag tells whether there is a deliver function. The structures are
-- initialized without an error, since LEARNER_ARRAY_SIZE is a power of two.
unfoldable pub init_learner_thread : Bool → Calls → Ready
unfolding init_lea_network init_lea_timers init_lea_signal_ready
init_learner_thread has_delfun c =
    if not has_delfun
    then error
    else (if not c.event_init
        then error
        else (if not (init_lea_network c)
            then error
            else (if not (init_lea_timers c)
                then error
                else (if custom_fails c.custom_init
                    then error
                    else (if not (init_lea_signal_ready c) then error else ready)))))

-- The caller in `init_lea_wait_ready`: before the lock, in the wait, behind it, returned.
pub data Caller : Type 0 where
  before_lock waiting woken : Caller
  returned : Ready → Caller

pub record Startup : Type 0 where
  pub caller : Caller
  pub learner_ready : Ready
  pub signalled : Bool

-- `pthread_cond_signal`
abbrev pub wake : Caller → Caller
wake waiting = woken
wake c = c

-- The loop in `init_lea_wait_ready`: what follows a wait.
abbrev pub check_status : Ready → Caller
check_status starting = waiting
check_status r = returned r

-- What the two threads do, each step under the lock. The thread signals once.
pub data Step (outcome : Ready) : Startup → Startup → Type 0 where
  wait : (s : Startup) → s.caller ≡ before_lock → Step outcome s (record s { caller = waiting })
  signal :
      (s : Startup)
      → s.signalled ≡ false
      → Step outcome s
          (record s { learner_ready = outcome; signalled = true; caller = wake s.caller })
  check :
      (s : Startup)
      → s.caller ≡ woken
      → Step outcome s (record s { caller = check_status s.learner_ready })

-- Steps, and waits that end unasked.
pub data Reach (outcome : Ready) (s : Startup) : Startup → Type 0 where
  here : Reach outcome s s
  next : {t u : Startup} → Reach outcome s t → Step outcome t u → Reach outcome s u
  unasked :
      {t : Startup}
      → Reach outcome s t
      → t.caller ≡ waiting
      → Reach outcome s (record t { caller = woken })

-- `learner_init` has created the thread.
abbrev pub created : Startup
created = record { caller = before_lock; learner_ready = starting; signalled = false }

-- `learner_init` behind `pthread_create`, whose success is the flag. Without a thread, -1 is returned
-- at once, and nothing is there to signal.
abbrev pub begins : Bool → Startup
begins true = created
begins false = record { caller = returned error; learner_ready = starting; signalled = true }

-- The result of `learner_init`, once the caller has returned: whether it is 0.
abbrev pub result_of : Ready → Bool
result_of error = false
result_of _ = true
