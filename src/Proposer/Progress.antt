-- ===== src/Proposer/Progress.antt =====
-- lib/proposer.c and lib/proposer_leader.c: how a value that is pending gets into an accept request.
pub mod Steps
use libpaxos.Base.{
  ℕ, zero, suc, ◌+◌, ◌*◌, ◌-◌, ◌/◌, ◌%◌, ◌≤◌, ◌<◌, ◌≡◌, ◌≢◌, refl, sym, ◌∙◌, ap, true, false, ◌==◌,
  ==_iff, ==_refl, arith, not, ◌&&◌, is_some, inl, inr, Bool, Bool-cases, Option, some, none, List,
  [], ◌∷◌, ltb, leb, if◌then◌else◌, ◌>>=◌, not, ◌&&◌, is_some,
}
use libpaxos.Config.{u64_mod, p2_concurrency}
use libpaxos.Messages.{PrepareAck, AcceptReq, MsgCode, code, Item}
use libpaxos.Values.{Value, vh_get_next_pending}
use libpaxos.Proposer.{
  before, has_status, TimeVal, Status, Instance, Proposer, leader_is_me, slot, instance_of,
  set_instance, for_range,
}
use libpaxos.Proposer.Promises.{
  masked, save_promised_value, pro_save_prepare_ack, complete_phase1, handle_prepare_ack,
  handle_prepare_acks,
}
use libpaxos.Proposer.Phase2.{
  assign_value, leader_execute_p2, open_p2_new, threshold, leader_open_instances_p2_expired,
  leader_open_instances_p2_new,
}
use libpaxos.SendBuf.{SendBuf, sendbuf_clear, sendbuf_flush, append_item, make_room}
use libpaxos.Proposer.Accepts.{HasSent}
use libpaxos.Proposer.Phase1.{start_batch, flush}
use libpaxos.Base.{Any, ◌++◌}
use libpaxos.Proposer.{sub32, add32, before}
use libpaxos.Proposer.Assign.{sent_state, leader_execute_p2-eq}
use libpaxos.Proposer.Handlers.{handle_prepare_ack_batch}
use libpaxos.Proposer.Progress.Steps.{
  counted, empty_promise, first_promise, ready_state, second_promise, advanced, IsReady, assigned,
  opened,
}

last_of : {A : Type 0} {P : A → Type 0} (xs : List A) (x : A) → P x → Any P (xs ++ x ∷ [])
last_of [] x p = Any.here p
last_of (y ∷ xs) x p = Any.there (last_of xs x p)

appended-HasSent :
    (sb : SendBuf) (ar : AcceptReq)
    → HasSent (sendbuf_flush (append_item sb (Item.accept_req ar))) ar
unfolding append_item sendbuf_flush
appended-HasSent sb ar = last_of sb.sent _ (last_of sb.items (Item.accept_req ar) refl)

module _ (clock : ℕ → TimeVal) (ballot : ℕ) (t : TimeVal) (v : Value) where
  -- The request that the value is sent with.
  abbrev pub value_request : ℕ → AcceptReq
  value_request iid = record { iid = iid; ballot = ballot; value = v }

  -- Where the new instances are opened, the value goes out.
  opens-HasSent :
      (q : Proposer)
      → q.p2_info.open_count ≤ threshold
      → IsReady ballot t v (start_batch MsgCode.accept_reqs q)
      → (s' : Proposer) × (leader_open_instances_p2_new clock q ≡ some s')
        × HasSent s'.to_acceptors (value_request q.p2_info.next_unused_iid)
        × (s'.values.vh_list ≡ [])
  unfolding leader_open_instances_p2_new
  opens-HasSent q low r =
      let w = start_batch MsgCode.accept_reqs q in
      let more : ltb threshold q.p2_info.open_count ≡ false = ground arith in
      let rounds : p2_concurrency + 1 - q.p2_info.open_count
          ≡ suc (suc (2 - q.p2_info.open_count)) =
        omega (arith, low) in
      let end = advanced clock w (assigned clock ballot t v w) in
      (
        record (flush end) {
          p1_info = record end.p1_info { ready_count = sub32 end.p1_info.ready_count 1 };
          p2_info = record end.p2_info { open_count = add32 end.p2_info.open_count 1 };
        },
        rw (more, rounds, opened clock ballot t v w (2 - q.p2_info.open_count) r) refl,
        appended-HasSent _ (value_request q.p2_info.next_unused_iid),
        refl,
      )

  pub pending_value_sent :
      (s : Proposer) (acceptor_id acceptor_id' : ℕ)
      → leader_is_me s ≡ true
      → s.current_iid ≡ s.p2_info.next_unused_iid
      → s.p2_info.next_unused_iid + 1 < u64_mod
      → s.p2_info.open_count ≤ threshold
      → s.values.vh_list ≡ v ∷ []
      → s.values.vh_list_size ≡ 1
      → instance_of s s.p2_info.next_unused_iid ≡ counted s.p2_info.next_unused_iid ballot t 0
      → (instance_of s (s.p2_info.next_unused_iid + 1)).p1_value ≡ none
      → (instance_of s (s.p2_info.next_unused_iid + 1)).p2_value ≡ none
      → let pas = empty_promise s.p2_info.next_unused_iid ballot ∷ [] in
        (s' : Proposer) × ((handle_prepare_ack_batch clock acceptor_id pas s
            >>= handle_prepare_ack_batch clock acceptor_id' pas)
          ≡ some s')
        × HasSent s'.to_acceptors (value_request s.p2_info.next_unused_iid)
        × (s'.values.vh_list ≡ [])
  unfolding complete_phase1 leader_open_instances_p2_expired for_range sendbuf_clear sendbuf_flush
  pending_value_sent s acceptor_id acceptor_id' me current high low one size here p1 p2 =
      let n = s.p2_info.next_unused_iid in
      let s1 = set_instance s n (counted n ballot t 1) in
      let r = ready_state clock n ballot acceptor_id t s1 in
      let q = flush (start_batch MsgCode.accept_reqs r) in
      let wraps : (n + 1) % u64_mod ≡ n + 1 = omega (arith, high) in
      let apart : (slot n == slot (n + 1)) ≡ false = ground arith in
      let waiting : before s.current_iid n ≡ 0 = omega (arith, current) in
      let first = first_promise clock n ballot acceptor_id t s me here in
      let second =
        second_promise clock n ballot acceptor_id' t s1 me (rw (==_refl (slot n)) refl) in
      let ready : IsReady ballot t v (start_batch MsgCode.accept_reqs q) = record {
        instance_ready = rw (==_refl (slot n)) refl;
        one_value = one;
        size_one = size;
        other_slot = rw wraps apart;
        no_p1_value = rw (wraps, apart) p1;
        no_p2_value = rw (wraps, apart) p2;
        collects = refl;
      } in
      let (s', e, sent, empty) = opens-HasSent q low ready in
      (s', rw (first, second, waiting, e) refl, sent, empty)
