-- ===== src/Proposer/Timing.antt =====
-- lib/proposer_leader.c, the timing routines: deadlines and their expiry.
use libpaxos.Base.{ℕ, ◌+◌, ◌/◌, ◌%◌, Bool, ltb, ◌==◌, ◌&&◌, ◌||◌, if◌then◌else◌}
use libpaxos.Config.{u32_mod}
use libpaxos.Proposer.{TimeVal, Instance, Proposer}

abbrev pub a_second : ℕ
a_second = 1000000

-- The microseconds are summed in an `unsigned int`.
unfoldable pub leader_set_expiration : TimeVal → Instance → ℕ → Instance
leader_set_expiration current_time ii usec_interval =
    let usec_sum = (current_time.tv_usec + usec_interval % a_second) % u32_mod in
    record ii {
      timeout = record {
        tv_sec =
            if ltb a_second usec_sum
            then current_time.tv_sec + usec_interval / a_second + 1
            else current_time.tv_sec + usec_interval / a_second;
        tv_usec = usec_sum % a_second;
      };
    }

unfoldable pub leader_is_expired : TimeVal → TimeVal → Bool
leader_is_expired deadline time_now =
    ltb deadline.tv_sec time_now.tv_sec
    || (deadline.tv_sec == time_now.tv_sec) && ltb deadline.tv_usec time_now.tv_usec

-- A reading of the clock.
abbrev pub gettimeofday : (ℕ → TimeVal) → Proposer → TimeVal × Proposer
gettimeofday clock s = (clock s.readings, record s { readings = s.readings + 1 })
