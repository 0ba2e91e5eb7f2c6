-- ===== src/Proposer/Assign.antt =====
-- The value that phase 2 sends, by its origin.
use libpaxos.Base.{ℕ, ◌+◌, ◌≡◌, inl, inr, Option-cases, true, Option, none, some, arith}
use libpaxos.Base.{List, [], ◌∷◌, refl}
use libpaxos.Messages.{MsgCode, Item}
use libpaxos.Messages.{code}
use libpaxos.Base.{length, ap, ==_refl, ◌==◌}
use libpaxos.Config.{p2_timeout_interval}
use libpaxos.Proposer.{slot, set_instance}
use libpaxos.Proposer.Timing.{leader_set_expiration}
use libpaxos.SendBuf.{make_room, append_item, add_item, sendbuf_add_accept_req}
use libpaxos.Values.{Value, Values, vh_get_next_pending}
use libpaxos.Proposer.{TimeVal, Status, Instance, Proposer, instance_of}
use libpaxos.Proposer.Phase2.{assign_value, leader_execute_p2}

-- The value to propose, by its origin: phase 1, the instance, the pending list.
abbrev pub candidate : Option Value → Option Value → List Value → Option Value
candidate (some v) p2 pending = some v
candidate none (some v) pending = some v
candidate none none (v ∷ vs) = some v
candidate none none [] = none

assign_value_lem :
    (ii : Instance) (vh : Values) (v : Value)
    → candidate ii.p1_value ii.p2_value vh.vh_list ≡ some v
    → (ii' : Instance) × (vh' : Values) × (assign_value ii vh ≡ some (v, ii', vh'))
      × (ii'.p2_value ≡ some v)
      × (ii'.p1_value ≡ none)
      × (ii'.iid ≡ ii.iid)
      × (ii'.my_ballot ≡ ii.my_ballot)
unfolding assign_value vh_get_next_pending
assign_value_lem ii vh v h = elim (Option-cases ii.p1_value) [
  | inr (w, e) ↦ (
    record ii { p2_value = some v; p1_value = none; p1_value_ballot = 0 },
    vh,
    ground arith,
    refl,
    refl,
    refl,
    refl,
  )
  | inl e ↦ elim (Option-cases ii.p2_value) [
    | inr (w, e2) ↦ (ii, vh, ground arith, ground arith, e, refl, refl)
    | inl e2 ↦ (
      record ii { p2_value = some v },
      (vh_get_next_pending vh).1,
      ground arith,
      refl,
      e,
      refl,
      refl,
    )
  ]
]

module _ (clock : ℕ → TimeVal) (iid : ℕ) (s : Proposer) (v : Value) where
  -- What `leader_execute_p2` has done with the value.
  pub record IsSent (s' : Proposer) : Type 0 where
    pub assigned : (instance_of s' iid).p2_value ≡ some v
    pub consumed : (instance_of s' iid).p1_value ≡ none
    pub pending : (instance_of s' iid).status ≡ Status.p2_pending
    pub requested :
        s'.to_acceptors
        ≡ append_item (make_room s.to_acceptors.sender s.to_acceptors (24 + length v)) (
            Item.accept_req (record {
              iid = (instance_of s iid).iid;
              ballot = (instance_of s iid).my_ballot;
              value = v;
            }))

  -- The state behind it.
  abbrev pub sent_state : Instance → Values → Proposer
  sent_state ii vh =
      let now = clock s.readings in
      record (set_instance s iid (
        leader_set_expiration now (record ii { status = Status.p2_pending }) p2_timeout_interval)) {
          values = vh;
          readings = s.readings + 1;
          to_acceptors =
              append_item (make_room s.to_acceptors.sender s.to_acceptors (24 + length v))
                (Item.accept_req (record { iid = ii.iid; ballot = ii.my_ballot; value = v }));
        }

  pub leader_execute_p2-eq :
      (ii : Instance) (vh : Values)
      → (code s.to_acceptors.type == code MsgCode.accept_reqs) ≡ true
      → assign_value (instance_of s iid) s.values ≡ some (v, ii, vh)
      → leader_execute_p2 clock iid s ≡ some (sent_state ii vh)
  unfolding leader_execute_p2 sendbuf_add_accept_req add_item
  leader_execute_p2-eq ii vh test e = rw (e, test) refl

  sent_state-IsSent :
      (ii : Instance) (vh : Values)
      → ii.p2_value ≡ some v
      → ii.p1_value ≡ none
      → ii.iid ≡ (instance_of s iid).iid
      → ii.my_ballot ≡ (instance_of s iid).my_ballot
      → IsSent (sent_state ii vh)
  unfolding leader_set_expiration
  sent_state-IsSent ii vh p2 p1 i b =
      let here : (slot iid == slot iid) ≡ true = ==_refl (slot iid) in
      record {
        assigned = rw here p2;
        consumed = rw here p1;
        pending = rw here refl;
        requested = rw (i, b) refl;
      }

  -- Where the buffer holds accept requests and there is a value to propose, phase 2 starts: the
  -- value found in phase 1 goes before one assigned earlier, and that before the oldest pending
  -- one; it is assigned to the instance, and an accept request with it and the instance's ballot
  -- is put in the buffer.
  pub leader_execute_p2_lem :
      s.to_acceptors.type ≡ MsgCode.accept_reqs
      → candidate (instance_of s iid).p1_value (instance_of s iid).p2_value s.values.vh_list
        ≡ some v
      → (s' : Proposer) × (leader_execute_p2 clock iid s ≡ some s') × IsSent s'
  leader_execute_p2_lem type h =
      let test : (code s.to_acceptors.type == code MsgCode.accept_reqs) ≡ true =
        ap (λ c. code c == 4) type in
      let (ii, vh, e, p2, p1, i, b) = assign_value_lem (instance_of s iid) s.values v h in
      (sent_state ii vh, leader_execute_p2-eq ii vh test e, sent_state-IsSent ii vh p2 p1 i b)
