-- ===== src/Proposer/Progress/Steps.antt =====
-- lib/proposer.c and lib/proposer_leader.c: two promises for an instance, and one round of the loop
-- that opens instances for phase 2.
use libpaxos.Base.{
  ℕ, suc, ◌+◌, ◌-◌, ◌%◌, ◌≡◌, refl, ◌∙◌, true, false, ◌==◌, ==_refl, arith, not, ◌&&◌, is_some,
  some, none, [], ◌∷◌, ◌>>=◌, not, ◌&&◌, is_some,
}
use libpaxos.Config.{u64_mod}
use libpaxos.Messages.{PrepareAck, MsgCode, code}
use libpaxos.Values.{Value, vh_get_next_pending}
use libpaxos.Proposer.{
  has_status, TimeVal, Status, Instance, Proposer, leader_is_me, slot, instance_of, set_instance,
}
use libpaxos.Proposer.Promises.{
  masked, save_promised_value, pro_save_prepare_ack, complete_phase1, handle_prepare_ack,
  handle_prepare_acks,
}
use libpaxos.Proposer.Phase2.{
  assign_value, leader_execute_p2, open_p2_new, leader_open_instances_p2_expired,
  leader_open_instances_p2_new,
}
use libpaxos.Proposer.Assign.{sent_state, leader_execute_p2-eq}
use libpaxos.Proposer.Handlers.{handle_prepare_ack_batch}

-- An instance in phase 1, after a number of promises without a value.
abbrev pub counted : ℕ → ℕ → TimeVal → ℕ → Instance
counted iid ballot timeout n = record {
  iid = iid;
  status = Status.p1_pending;
  my_ballot = ballot;
  promises_bitvector = 0;
  promises_count = n;
  p1_value = none;
  p1_value_ballot = 0;
  p2_value = none;
  timeout = timeout;
}

-- A promise without a value.
abbrev pub empty_promise : ℕ → ℕ → PrepareAck
empty_promise iid ballot = record { iid = iid; ballot = ballot; value_ballot = 0; value = [] }

masked_zero : (acceptor_id : ℕ) → masked 0 acceptor_id ≡ 0
masked_zero acceptor_id = ground arith

module _ (clock : ℕ → TimeVal) (iid ballot acceptor_id : ℕ) (t : TimeVal) where
  pub first_promise :
      (s : Proposer)
      → leader_is_me s ≡ true
      → instance_of s iid ≡ counted iid ballot t 0
      → handle_prepare_ack_batch clock acceptor_id (empty_promise iid ballot ∷ []) s
        ≡ some (set_instance s iid (counted iid ballot t 1))
  unfolding handle_prepare_ack_batch handle_prepare_acks handle_prepare_ack pro_save_prepare_ack
      save_promised_value
  first_promise s me e = rw (e, ==_refl ballot, masked_zero acceptor_id, me) refl

  -- The state in which the instance is ready.
  abbrev pub ready_state : Proposer → Proposer
  ready_state s = complete_phase1 s (empty_promise iid ballot) (counted iid ballot t 2)

  pub second_promise :
      (s : Proposer)
      → leader_is_me s ≡ true
      → instance_of s iid ≡ counted iid ballot t 1
      → handle_prepare_ack_batch clock acceptor_id (empty_promise iid ballot ∷ []) s ≡ (
          leader_open_instances_p2_expired clock (ready_state s)
          >>= leader_open_instances_p2_new clock)
  unfolding handle_prepare_ack_batch handle_prepare_acks handle_prepare_ack pro_save_prepare_ack
      save_promised_value
  second_promise s me e = rw (e, ==_refl ballot, masked_zero acceptor_id, me) refl

-- One round of the loop for new instances, where it opens one, and where it ends for want of a value.
module _ (clock : ℕ → TimeVal) (s : Proposer) where
  abbrev next : ℕ
  next = s.p2_info.next_unused_iid

  -- The next instance but one to be opened.
  abbrev pub advanced : Proposer → Proposer
  advanced s' = record s' {
    p2_info = record s'.p2_info { next_unused_iid = (s'.p2_info.next_unused_iid + 1) % u64_mod };
  }

  open_step :
      (rounds count : ℕ) (s' : Proposer)
      → is_some (instance_of s next).p2_value ≡ false
      → (s.values.vh_list_size == 0) ≡ false
      → has_status (instance_of s next) Status.p1_ready ≡ true
      → ((instance_of s next).iid == next) ≡ true
      → leader_execute_p2 clock next s ≡ some s'
      → open_p2_new clock (suc rounds) count s ≡ open_p2_new clock rounds (count + 1) (advanced s')
  unfolding open_p2_new
  open_step rounds count s' a b c d e =
      let some_value : not (is_some (instance_of s next).p1_value) && (s.values.vh_list_size == 0)
          ≡ false =
        ground arith in
      rw (a, some_value, c, d, e) refl

  open_stop :
      (rounds count : ℕ)
      → is_some (instance_of s next).p2_value ≡ false
      → is_some (instance_of s next).p1_value ≡ false
      → (s.values.vh_list_size == 0) ≡ true
      → open_p2_new clock (suc rounds) count s ≡ some (count, s)
  unfolding open_p2_new
  open_stop rounds count a b c = rw (a, b, c) refl

-- A leader with one value pending, whose next instance is ready; the one behind it has no value.
pub record IsReady (ballot : ℕ) (t : TimeVal) (v : Value) (s : Proposer) : Type 0 where
  pub instance_ready :
      instance_of s s.p2_info.next_unused_iid
      ≡ record (counted s.p2_info.next_unused_iid ballot t 2) { status = Status.p1_ready }
  pub one_value : s.values.vh_list ≡ v ∷ []
  pub size_one : s.values.vh_list_size ≡ 1
  pub other_slot :
      (slot s.p2_info.next_unused_iid == slot ((s.p2_info.next_unused_iid + 1) % u64_mod)) ≡ false
  pub no_p1_value : (instance_of s ((s.p2_info.next_unused_iid + 1) % u64_mod)).p1_value ≡ none
  pub no_p2_value : (instance_of s ((s.p2_info.next_unused_iid + 1) % u64_mod)).p2_value ≡ none
  pub collects : (code s.to_acceptors.type == code MsgCode.accept_reqs) ≡ true

module _ (clock : ℕ → TimeVal) (ballot : ℕ) (t : TimeVal) (v : Value) (s : Proposer) where
  -- The value goes to the instance.
  abbrev pub assigned : Proposer
  assigned =
      sent_state clock s.p2_info.next_unused_iid s v
        (record (counted s.p2_info.next_unused_iid ballot t 2) {
          status = Status.p1_ready;
          p2_value = some v;
        })
        (record s.values { vh_list = []; vh_list_size = s.values.vh_list_size - 1 })

  executed :
      IsReady ballot t v s → leader_execute_p2 clock s.p2_info.next_unused_iid s ≡ some assigned
  unfolding assign_value vh_get_next_pending
  executed r =
      leader_execute_p2-eq clock s.p2_info.next_unused_iid s v
        (record (counted s.p2_info.next_unused_iid ballot t 2) {
          status = Status.p1_ready;
          p2_value = some v;
        })
        (record s.values { vh_list = []; vh_list_size = s.values.vh_list_size - 1 }) r.collects
        (rw (r.instance_ready, r.one_value) refl)

  -- One instance is opened; there is no value for the next.
  pub opened :
      (m : ℕ)
      → IsReady ballot t v s
      → open_p2_new clock (suc (suc m)) 0 s ≡ some (1, advanced clock s assigned)
  opened m r =
      let one = r.size_one in
      open_step clock s (suc m) 0 assigned (rw r.instance_ready refl) (ground arith)
        (rw r.instance_ready refl) (rw r.instance_ready (==_refl s.p2_info.next_unused_iid))
        (executed r)
      ∙ open_stop clock (advanced clock s assigned) m 1 (rw (r.other_slot, r.no_p2_value) refl)
          (rw (r.other_slot, r.no_p1_value) refl) (ground arith)
