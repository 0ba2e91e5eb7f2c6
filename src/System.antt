-- ===== src/System.antt =====
-- The parts together: what proposers, acceptors and learners do over the messages between them.
pub mod Agreement
pub mod Leading
pub mod Delivery
mod Tests
use libpaxos.Base.{ℕ}
use libpaxos.SendBuf.{new_buffer}
use libpaxos.Acceptor.{Acceptor}

-- The start of an acceptor on a storage.
abbrev pub started : {S : Type 0} → ℕ → S → Acceptor S
started id store = record {
  this_acceptor_id = id;
  highest_accepted_iid = 0;
  to_proposers = new_buffer;
  to_learners = new_buffer;
  store = store;
}
