-- ===== src/Proposer/Deadlines.antt =====
-- Deadlines and clock readings as numbers of microseconds.
use libpaxos.Base.{ℕ, ◌+◌, ◌*◌, ◌%◌, ◌<◌, ◌≡◌, ◌≢◌, ◌↔◌, true, arith}
use libpaxos.Proposer.{TimeVal, Instance}
use libpaxos.Proposer.Timing.{a_second, leader_set_expiration, leader_is_expired}

abbrev pub microseconds : TimeVal → ℕ
microseconds t = t.tv_sec * a_second + t.tv_usec

-- A deadline is the interval after the time it is set at, and is normalized, except where the
-- microseconds sum to a second exactly: then it is a second too early.
pub leader_set_expiration_lem :
    (now : TimeVal) (ii : Instance) (usec_interval : ℕ)
    → now.tv_usec < a_second
    → ((leader_set_expiration now ii usec_interval).timeout.tv_usec < a_second)
      × (now.tv_usec + usec_interval % a_second ≢ a_second
          → microseconds (leader_set_expiration now ii usec_interval).timeout
            ≡ microseconds now + usec_interval)
      × (now.tv_usec + usec_interval % a_second ≡ a_second
          → microseconds (leader_set_expiration now ii usec_interval).timeout + a_second
            ≡ microseconds now + usec_interval)
unfolding leader_set_expiration
leader_set_expiration_lem now ii usec_interval h =
    (ground arith, λ ne. ground arith, λ e. ground arith)

-- On normalized times, a deadline is expired exactly when it lies before the time now.
pub leader_is_expired_iff :
    (deadline now : TimeVal)
    → deadline.tv_usec < a_second
    → now.tv_usec < a_second
    → (leader_is_expired deadline now ≡ true) ↔ (microseconds deadline < microseconds now)
unfolding leader_is_expired
leader_is_expired_iff deadline now hd hn = ground arith
