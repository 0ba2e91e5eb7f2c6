-- ===== src/Proposer/Promotion.antt =====
-- lib/proposer_leader.c: the promotion of a proposer, as a whole.
use libpaxos.Base.{
  ℕ, ◌+◌, ◌-◌, ◌%◌, ◌≤◌, ◌<◌, ◌≡◌, refl, sym, ◌∙◌, some, arith, true, false, ◌&&◌, Bool-cases, inl,
  inr,
}
use libpaxos.Config.{u64_mod, preexec_win_size}
use libpaxos.Messages.{MsgCode}
use libpaxos.SendBuf.{SendBuf, sendbuf_clear, sendbuf_flush}
use libpaxos.Values.{vh_init}
use libpaxos.Proposer.{TimeVal, Instance, Proposer, instance_of, for_range, upto}
use libpaxos.Proposer.Phase1.{
  start_batch, leader_check_p1_pending, leader_open_instances_p1, p1_round,
}
use libpaxos.Proposer.Leader.{LeadCalls, leader_init, start_leading, no_events}
use libpaxos.Proposer.Reign.{IsClear}
use libpaxos.Proposer.Opening.{IsStarted, Opens, open_all}

-- The state of a leader whose reign has just begun.
pub record HasStarted (s s' : Proposer) : Type 0 where
  pub opened :
      (k : ℕ)
      → k < preexec_win_size
      → IsStarted s.this_proposer_id (s.current_iid + k) (instance_of s' (s.current_iid + k))
  pub pending : s'.p1_info.pending_count ≡ preexec_win_size
  pub ready : s'.p1_info.ready_count ≡ 0
  pub highest : s'.p1_info.highest_open + 1 ≡ s.current_iid + preexec_win_size
  pub next : s'.p2_info.next_unused_iid ≡ s.current_iid
  pub none_open : s'.p2_info.open_count ≡ 0
  pub counters :
      (s'.lead_counters.p1_timeout ≡ 0)
      × (s'.lead_counters.p2_timeout ≡ 0)
      × (s'.lead_counters.p2_waits_p1 ≡ 0)

module _ (clock : ℕ → TimeVal) where
  -- The highest instance opened, at the start of a reign.
  abbrev start : Proposer → ℕ
  start s = (s.current_iid + u64_mod - 1) % u64_mod

  abbrev promoted : Proposer → Proposer
  promoted s = record s {
    lead_counters = no_events;
    values = vh_init s.values;
    p1_info = record { pending_count = 0; ready_count = 0; highest_open = start s };
  }

  -- The state at the end, but for what the loop leaves.
  abbrev pub started : Proposer → SendBuf → (ℕ → Instance) → ℕ → Proposer
  started s sb state r = record (promoted s) {
    to_acceptors = sendbuf_flush sb;
    proposer_state = state;
    readings = r;
    p1_info = record {
      pending_count = preexec_win_size;
      ready_count = 0;
      highest_open = (start s + preexec_win_size) % u64_mod;
    };
    p2_info = record { next_unused_iid = s.current_iid; open_count = 0 };
  }

  -- No instance is pending yet.
  nothing_pending :
      (s : Proposer)
      → 1 ≤ s.current_iid
      → s.current_iid < u64_mod
      → leader_check_p1_pending clock (promoted s)
        ≡ some
            (record (start_batch MsgCode.prepare_reqs (promoted s)) { readings = s.readings + 1 })
  unfolding leader_check_p1_pending for_range sendbuf_clear sendbuf_flush
  nothing_pending s low high =
      let none_left : upto s.current_iid (start s) ≡ 0 = omega (arith, low, high) in
      rw none_left refl

  pub start_leading-started :
      (s : Proposer)
      → 1 ≤ s.current_iid
      → s.current_iid + preexec_win_size < u64_mod
      → ((k : ℕ) → k < preexec_win_size → IsClear (instance_of s (s.current_iid + k)))
      → (sb : SendBuf) × (state : ℕ → Instance) × (r : ℕ) × (start_leading clock s
          ≡ some (started s sb state r))
        × Opens s.this_proposer_id preexec_win_size s.current_iid s.proposer_state state
  unfolding start_leading p1_round leader_open_instances_p1 sendbuf_clear
  start_leading-started s low high free =
      let checked = nothing_pending s low (omega (arith, high)) in
      let at : start s + 1 ≡ s.current_iid = omega (arith, low, high) in
      let from =
        start_batch MsgCode.prepare_reqs (record (promoted s) { readings = s.readings + 1 }) in
      let (sb, state, r, e, c, o) =
        open_all clock preexec_win_size s.current_iid from (omega arith) refl free in
      (sb, state, r, rw (checked, at, e) refl, o)

  -- A proposer that has nothing in the next PROPOSER_PREEXEC_WIN_SIZE instances becomes the leader,
  -- if the calls for its timers succeed. Where the receiver of the clients' values is made, 0 is
  -- returned: those instances are pending in phase 1, each with the first ballot, and are what the
  -- counter of pending instances counts; the counters of ready and of open instances and the three
  -- of the display are 0, and the next unused instance is the current one. Otherwise -1 is returned
  -- and no instance is opened.
  pub leader_init_lem :
      (c : LeadCalls) (s : Proposer)
      → c.print_timer && c.p1_timer && c.p2_timer ≡ true
      → 1 ≤ s.current_iid
      → s.current_iid + preexec_win_size < u64_mod
      → ((k : ℕ) → k < preexec_win_size → IsClear (instance_of s (s.current_iid + k)))
      → (s' : Proposer) × (leader_init clock c s ≡ some (c.values_receiver, s'))
        × (c.values_receiver ≡ false
            → (s'.proposer_state ≡ s.proposer_state) × (s'.to_acceptors ≡ s.to_acceptors))
        × (c.values_receiver ≡ true → HasStarted s s')
  unfolding leader_init
  leader_init_lem c s timers low high free =
      let (sb, state, r, e, o) = start_leading-started s low high free in
      let print : c.print_timer ≡ true = ground arith in
      let p1 : c.p1_timer ≡ true = ground arith in
      let p2 : c.p2_timer ≡ true = ground arith in
      elim (Bool-cases c.values_receiver) [
        | inl made ↦ (
          started s sb state r,
          rw (print, made, e, p1, p2) refl,
          λ failed. absurd (let no : true ≡ false = sym made ∙ failed in cc),
          λ _. record {
            opened = o.opened;
            pending = refl;
            ready = refl;
            highest = omega (arith, low, high);
            next = refl;
            none_open = refl;
            counters = (refl, refl, refl);
          },
        )
        | inr failed ↦ (
          record s { lead_counters = no_events; values = vh_init s.values },
          rw (print, failed) refl,
          λ _. (refl, refl),
          λ made. absurd (let no : true ≡ false = sym made ∙ failed in cc),
        )
      ]
