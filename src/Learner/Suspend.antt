-- ===== src/Learner/Suspend.antt =====
-- lib/learner.c: learner_suspend, by which an acceptor that needs no deliveries stops its learner.
use libpaxos.Base.{ℕ, Bool, false, Option, none, some}
use libpaxos.Receiver.Sockets.{SocketCall, Sockets, udp_receiver_destroy}

-- Whether the event for messages is active, `for_learner`, and the sockets of the process.
pub record Listening : Type 0 where
  pub msg_event : Bool
  pub for_learner : Option ℕ
  pub sockets : Sockets

module _ (ok : ℕ → SocketCall → Bool) where
  -- What `udp_receiver_destroy` returns is not looked at. `none` is the use of a NULL pointer.
  unfoldable pub learner_suspend : Listening → Option Listening
  learner_suspend s = elim s.for_learner [
    | none ↦ none
    | some sock ↦ some (record {
      msg_event = false;
      for_learner = none;
      sockets = (udp_receiver_destroy ok sock s.sockets).1;
    })
  ]
