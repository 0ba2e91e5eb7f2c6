-- ===== src/Proposer/Leader.antt =====
-- lib/proposer_leader.c: the delivery of an instance to the leader, and the two ends of its reign.
use libpaxos.Base.{
  zero, suc, leb, ℕ, ◌+◌, ◌-◌, ◌%◌, Bool, true, false, not, ◌&&◌, ◌||◌, Option, none, some,
}
use libpaxos.Base.{◌==◌, if◌then◌else◌, ◌>>=◌, ◌>>◌, assert, is_some, bytes_eq}
use libpaxos.Config.{u32_mod, u64_mod}
use libpaxos.Values.{Value, Values, vh_notify_client, vh_push_back_value, vh_init, vh_shutdown}
use libpaxos.Proposer.{TimeVal, Status, Instance, EventCounters, Proposer}
use libpaxos.Proposer.{instance_of, set_instance, has_status, sub32, pro_clear_instance_info}
use libpaxos.Proposer.{upto}
use libpaxos.Proposer.Phase1.{p1_round}
use libpaxos.Proposer.Phase2.{leader_open_instances_p2_new}

-- `opened_by_me`
abbrev pub opened_by_me : Instance → Bool
opened_by_me ii =
    has_status ii Status.p1_pending && is_some ii.p2_value
    || has_status ii Status.p1_ready && is_some ii.p2_value
    || has_status ii Status.p2_pending

-- The counters of both phases, on the delivery of an instance.
unfoldable pub count_delivery : ℕ → Proposer → Proposer
count_delivery iid s =
    let ii = instance_of s iid in
    record s {
      p1_info = record s.p1_info {
        pending_count =
            if has_status ii Status.p1_pending
            then sub32 s.p1_info.pending_count 1
            else s.p1_info.pending_count;
      };
      p2_info = record {
        next_unused_iid =
            if s.p2_info.next_unused_iid == iid
            then (s.p2_info.next_unused_iid + 1) % u64_mod
            else s.p2_info.next_unused_iid;
        open_count = if opened_by_me ii then sub32 s.p2_info.open_count 1 else s.p2_info.open_count;
      };
    }

-- What becomes of the value that was assigned to the instance.
unfoldable pub settle_value : Value → Option Value → Values → Values
settle_value value none vh = vh
settle_value value (some v) vh =
    if bytes_eq v value then vh_notify_client true v vh else vh_push_back_value v vh

-- What `leader_shutdown` does of an instance.
unfoldable pub abandon : ℕ → Proposer → Option Proposer
abandon iid s =
    let ii = instance_of s iid in
    let s' = set_instance s iid (pro_clear_instance_info ii) in
    elim ii.p2_value [
      | none ↦ some s'
      | some v ↦
          if has_status ii Status.p2_completed
          then some s'
          else some (record s' { values = vh_push_back_value v s.values })
    ]

-- The loop over an `unsigned int`, up to and with `last`, with fuel; `none` if the fuel runs out.
unfoldable pub shutdown_loop : ℕ → ℕ → ℕ → Proposer → Option Proposer
shutdown_loop zero last i s = none
shutdown_loop (suc fuel) last i s =
    if leb i last then (abandon i s >>= shutdown_loop fuel last ((i + 1) % u32_mod)) else some s

-- The fuel is one round more than there are instances. The loop of `vh_shutdown` has enough, too.
unfoldable pub leader_shutdown : Proposer → Option Proposer
leader_shutdown s = do
  let i = s.current_iid % u32_mod
  s' ← shutdown_loop (suc (upto i s.p1_info.highest_open)) s.p1_info.highest_open i s
  vh ← vh_shutdown s'.values
  some (record s' { values = vh })

abbrev pub no_events : EventCounters
no_events = record { p1_timeout = 0; p2_timeout = 0; p2_waits_p1 = 0 }

-- Whether the calls succeed: for the receiver of the clients' values, and for the timers of the
-- counters' display and of the two checks.
pub record LeadCalls : Type 0 where
  pub values_receiver : Bool
  pub print_timer : Bool
  pub p1_timer : Bool
  pub p2_timer : Bool

module _ (clock : ℕ → TimeVal) where
  unfoldable pub leader_deliver : Value → ℕ → Proposer → Option Proposer
  leader_deliver value iid s =
      let ii = instance_of s iid in
      if not (ii.iid == iid)
      then some s
      else leader_open_instances_p2_new clock (
          set_instance
            (record (count_delivery iid s) { values = settle_value value ii.p2_value s.values }) iid
            (pro_clear_instance_info ii))

  -- The work of `leader_init`, where its calls succeed.
  unfoldable pub start_leading : Proposer → Option Proposer
  start_leading s = do
    s' ← p1_round clock (record s {
      lead_counters = no_events;
      values = vh_init s.values;
      p1_info = record {
        pending_count = 0;
        ready_count = 0;
        highest_open = (s.current_iid + u64_mod - 1) % u64_mod;
      };
    })
    some (record s' { p2_info = record { next_unused_iid = s'.current_iid; open_count = 0 } })

  -- Whether 0 is returned. A timer that is not added fails an assertion.
  unfoldable pub leader_init : LeadCalls → Proposer → Option (Bool × Proposer)
  leader_init c s =
      assert c.print_timer
      >> (if not c.values_receiver
          then some (false, record s { lead_counters = no_events; values = vh_init s.values })
          else (do s' ← start_leading s; assert c.p1_timer; assert c.p2_timer; some (true, s')))
