-- ===== src/Proposer/Window.antt =====
-- How many instances the leader opens for phase 2, and which.
use libpaxos.Base.{ℕ, ◌+◌, ◌%◌, ◌≤◌, ◌≡◌, Option, none, some}
use libpaxos.Config.{u64_mod}
use libpaxos.Proposer.{Proposer, Phase2Info}

abbrev info : Phase2Info → Option Proposer → Phase2Info
info default none = default
info default (some s) = s.p2_info

-- What a number of rounds does: instances are opened one after another, from the next unused one.
record Opens (rounds count n : ℕ) (s s' : Proposer) : Type 0 where
  low : count ≤ n
  high : n ≤ count + rounds
  same_open : s'.p2_info.open_count ≡ s.p2_info.open_count
  next : s'.p2_info.next_unused_iid + count ≡ s.p2_info.next_unused_iid + n

abbrev result : Option (ℕ × Proposer) → (ℕ × Proposer) → ℕ × Proposer
result none default = default
result (some x) default = x

-- The state behind an opened instance.
abbrev advanced : Proposer → Proposer
advanced s = record s {
  p2_info = record s.p2_info { next_unused_iid = (s.p2_info.next_unused_iid + 1) % u64_mod };
}
