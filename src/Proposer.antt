-- ===== src/Proposer.antt =====
-- lib/proposer.c: the state of a proposer, and what its parts share. `none` is a failed assertion.
-- A pointer into the state array is the number of its instance; the clock, `gettimeofday`, is a
-- parameter of what reads it: the value of each reading, by its number. Memory, sockets, timer
-- events and the display of the counters are not modelled.
pub mod Timing
pub mod Promises
pub mod Phase1
pub mod Phase2
pub mod Leader
pub mod Handlers
pub mod Deadlines
pub mod Ballots
pub mod Choice
pub mod Assign
pub mod Reign
pub mod Window
pub mod Opening
pub mod Promotion
pub mod Progress
pub mod Retry
pub mod Accepts
pub mod Sound
pub mod Setup
pub mod Starting
mod Tests
use libpaxos.Base.{ℕ, zero, suc, ◌+◌, ◌-◌, ◌%◌, ◌^◌, Bool, Option, none, ◌==◌, ◌>>=◌, some, update}
use libpaxos.Config.{u32_mod, u64_mod, max_n_of_proposers, proposer_array_size}
use libpaxos.SendBuf.{SendBuf}
use libpaxos.Values.{Value, Values}

pub record TimeVal : Type 0 where
  pub tv_sec : ℕ
  pub tv_usec : ℕ

-- `i_status`
pub data Status : Type 0 where
  empty p1_pending p1_ready p2_pending p2_completed : Status

-- `p_inst_info`; a value is `none` for a NULL pointer.
pub record Instance : Type 0 where
  pub iid : ℕ
  pub status : Status
  pub my_ballot : ℕ
  pub promises_bitvector : ℕ
  pub promises_count : ℕ
  pub p1_value : Option Value
  pub p1_value_ballot : ℕ
  pub p2_value : Option Value
  pub timeout : TimeVal

-- `phase1_info`
pub record Phase1Info : Type 0 where
  pub pending_count : ℕ
  pub ready_count : ℕ
  pub highest_open : ℕ

-- `phase2_info`
pub record Phase2Info : Type 0 where
  pub next_unused_iid : ℕ
  pub open_count : ℕ

-- `leader_event_counters`
pub record EventCounters : Type 0 where
  pub p1_timeout : ℕ
  pub p2_timeout : ℕ
  pub p2_waits_p1 : ℕ

-- The variables of the files, the pending values, and the number of the next reading of the clock.
pub record Proposer : Type 0 where
  pub current_iid : ℕ
  pub this_proposer_id : ℕ
  pub current_leader_id : ℕ
  pub alive_ping_seqno : ℕ
  pub to_oracle : SendBuf
  pub to_acceptors : SendBuf
  pub proposer_state : ℕ → Instance
  pub p1_info : Phase1Info
  pub p2_info : Phase2Info
  pub lead_counters : EventCounters
  pub values : Values
  pub readings : ℕ

-- LEADER_IS_ME
abbrev pub leader_is_me : Proposer → Bool
leader_is_me s = s.this_proposer_id == s.current_leader_id

-- GET_PRO_INSTANCE: the mask by a power of two less one is the remainder.
abbrev pub slot : ℕ → ℕ
slot iid = iid % proposer_array_size

abbrev pub instance_of : Proposer → ℕ → Instance
instance_of s iid = s.proposer_state (slot iid)

-- A write through the pointer to the instance of a number.
abbrev pub set_instance : Proposer → ℕ → Instance → Proposer
set_instance s iid ii = record s { proposer_state = update s.proposer_state (slot iid) ii }

-- `-=` and `+=` on an `unsigned int`.
abbrev pub sub32 : ℕ → ℕ → ℕ
sub32 a b = (a + u32_mod - b) % u32_mod

abbrev pub add32 : ℕ → ℕ → ℕ
add32 a b = (a + b) % u32_mod

-- FIRST_BALLOT
abbrev pub first_ballot : ℕ → ℕ
first_ballot this_proposer_id = max_n_of_proposers + this_proposer_id

-- NEXT_BALLOT
abbrev pub next_ballot : ℕ → ℕ
next_ballot b = (b + max_n_of_proposers) % u32_mod

-- Tests of the status.
abbrev pub status_number : Status → ℕ
status_number Status.empty = 0
status_number Status.p1_pending = 1
status_number Status.p1_ready = 2
status_number Status.p2_pending = 3
status_number Status.p2_completed = 4

abbrev pub has_status : Instance → Status → Bool
has_status ii st = status_number ii.status == status_number st

unfoldable pub pro_clear_instance_info : Instance → Instance
pro_clear_instance_info ii = record ii {
  iid = 0;
  status = Status.empty;
  my_ballot = 0;
  p1_value_ballot = 0;
  promises_bitvector = 0;
  promises_count = 0;
  p1_value = none;
  p2_value = none;
}

-- A loop over the instances `i`, `i + 1`, …, as many as there are rounds; the bounds of the loops
-- below do not change in their bodies.
unfoldable pub for_range : (ℕ → Proposer → Option Proposer) → ℕ → ℕ → Proposer → Option Proposer
for_range body zero i s = some s
for_range body (suc rounds) i s = body i s >>= for_range body rounds (i + 1)

-- The rounds of a loop from `i` up to and with `last`, and of one that ends before `next`.
abbrev pub upto : ℕ → ℕ → ℕ
upto i last = last + 1 - i

abbrev pub before : ℕ → ℕ → ℕ
before i next = next - i
