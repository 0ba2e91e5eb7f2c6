-- ===== src/Learner/Handler.antt =====
-- `handle_accept_ack` and the learner's invariant.
use libpaxos.Base.{ℕ, ◌+◌, ◌%◌, ◌≤◌, ◌<◌, false, Option, none, some}
use libpaxos.Base.{leb, ltb, not-leb→lt, not-ltb→le, if◌then◌else◌}
use libpaxos.Base.{◌≡◌, ◌≢◌, inl, inr, refl, sym, ap, ◌∙◌, Bool-cases, ==_iff, arith, update}
use libpaxos.Base.{◌==◌}
use mathlib.Core.Path.{subst}
use libpaxos.Config.{u64_mod, learner_array_size}
use libpaxos.Messages.{AcceptAck}
use libpaxos.Learner.{InstInfo, Learner, slot, instance_of, claim, replace_ack}
use libpaxos.Learner.{lea_store_accept_ack, lea_update_state, lea_check_quorum, close_instance}
use libpaxos.Learner.{note_seen, update_instance, handle_accept_ack}
use libpaxos.Learner.{is_closed}
use libpaxos.Learner.Quorum.{lea_check_quorum-open}
use libpaxos.Learner.Ring.{IsSlot, IsUsable, iid_limit, claim-IsSlot, lea_store_accept_ack-IsSlot}
use libpaxos.Learner.Ring.{replace_ack-cases, lea_check_quorum-IsSlot}
use libpaxos.Learner.Invariant.{IsWindow, IsLearner}
use libpaxos.Learner.Deliver.{lea_deliver_next_closed_lem}

claim-final : (ii : InstInfo) (aa : AcceptAck) → (claim ii aa).final_value ≡ ii.final_value
unfolding claim
claim-final ii aa = ground arith

store-same :
    (ii : InstInfo) (acc : ℕ) (aa : AcceptAck)
    → ((lea_store_accept_ack ii acc aa).final_value ≡ ii.final_value)
      × ((lea_store_accept_ack ii acc aa).iid ≡ ii.iid)
unfolding lea_store_accept_ack
store-same ii acc aa = (refl, refl)

open-final : (ii : InstInfo) → is_closed ii ≡ false → ii.final_value ≡ none
open-final ii h = ground arith

module _ (H : ℕ → AcceptAck → Type 0) where
  write-IsWindow :
      (s : Learner) (i highest : ℕ) (ii : InstInfo)
      → IsWindow H s
      → IsSlot H s.current_iid i ii
      → IsWindow H
          (record s { learner_state = update s.learner_state i ii; highest_iid_closed = highest })
  write-IsWindow s i highest ii w k = record {
    positive = w.positive;
    bounded = w.bounded;
    slots = λ j. elim (Bool-cases (i == j)) [
      | inl e ↦ rw e (subst (λ n. IsSlot H s.current_iid n ii) ((==_iff i j).0 e) k)
      | inr e ↦ rw e (w.slots j)
    ];
    order = w.order;
    justified = w.justified;
  }

  -- Writing an open record leaves the current instance open.
  write-waiting :
      (s : Learner) (i : ℕ) (ii : InstInfo)
      → ii.final_value ≡ none
      → (instance_of s s.current_iid).final_value ≡ none
      → (update s.learner_state i ii (slot s.current_iid)).final_value ≡ none
  write-waiting s i ii e h = elim (Bool-cases (i == slot s.current_iid)) [
    | inl q ↦ rw q e
    | inr q ↦ rw q h
  ]

  -- So does writing the record of another instance of the window.
  write-other :
      (s : Learner) (iid : ℕ) (ii : InstInfo)
      → s.current_iid ≤ iid
      → iid < s.current_iid + learner_array_size
      → (iid == s.current_iid) ≡ false
      → (instance_of s s.current_iid).final_value ≡ none
      → (update s.learner_state (slot iid) ii (slot s.current_iid)).final_value ≡ none
  write-other s iid ii lo hi d h =
      let e : (slot iid == slot s.current_iid) ≡ false = other iid s.current_iid lo hi d in rw e h
    where
      other :
          (a c : ℕ)
          → c ≤ a
          → a < c + learner_array_size
          → (a == c) ≡ false
          → (slot a == slot c) ≡ false
      other a c lo hi d = ground arith

  -- What a handler's step owes.
  abbrev Goes : Learner → Option Learner → Type 0
  Goes s r = (s' : Learner) × (r ≡ some s') × IsLearner H s' × (s.current_iid ≤ s'.current_iid)

  close_instance_lem :
      (s : Learner) (aa : AcceptAck) (ii : InstInfo)
      → IsLearner H s
      → IsUsable H s.current_iid aa
      → IsSlot H s.current_iid (slot aa.iid) ii
      → ii.iid ≡ aa.iid
      → ii.final_value ≡ none
      → Goes s (close_instance s aa ii)
  unfolding close_instance
  close_instance_lem s aa ii l u k e vacant =
      elim (Bool-cases (lea_check_quorum ii s.highest_iid_closed).0) [
        | inr few ↦
            let t = lea_check_quorum-open ii s.highest_iid_closed few in
            (
              record s { learner_state = update s.learner_state (slot aa.iid) ii },
              rw t,
              record {
                window = write-IsWindow s (slot aa.iid) s.highest_iid_closed ii l.window k;
                waiting = write-waiting s (slot aa.iid) ii vacant l.waiting;
              },
              omega arith,
            )
        | inl enough ↦
            let r = lea_check_quorum ii s.highest_iid_closed in
            let k' =
              lea_check_quorum-IsSlot H s.current_iid (slot aa.iid) s.highest_iid_closed ii
                (omega arith) k in
            let w = write-IsWindow s (slot aa.iid) r.2 r.1 l.window k' in
            elim (Bool-cases (aa.iid == s.current_iid)) [
              | inl here ↦ rw (enough, here) (lea_deliver_next_closed_lem H _ w)
              | inr later ↦
                  rw (enough, later)
                    (
                      _,
                      refl,
                      record {
                        window = w;
                        waiting = write-other s aa.iid r.1 u.above u.below later l.waiting;
                      },
                      omega arith,
                    )
            ]
      ]

  -- The record that an acknowledgement finds is its own, or free: the assertion holds.
  lea_update_state_lem :
      (s : Learner) (acc : ℕ) (aa : AcceptAck)
      → H acc aa
      → IsLearner H s
      → IsUsable H s.current_iid aa
      → lea_update_state (instance_of s aa.iid) acc aa
        ≡ some (
            if is_closed (claim (instance_of s aa.iid) aa)
            then (false, claim (instance_of s aa.iid) aa)
            else replace_ack (claim (instance_of s aa.iid) aa) acc aa)
  unfolding lea_update_state
  lea_update_state_lem s acc aa h l u =
      let e = (claim-IsSlot H s.current_iid _ aa u (l.window.slots (slot aa.iid))).1 in
      rw ((==_iff _ _).1 e)

  -- An acknowledgement that changes nothing but the claim of a record.
  update_instance-dropped :
      (s : Learner) (aa : AcceptAck) (ii : InstInfo)
      → IsLearner H s
      → IsUsable H s.current_iid aa
      → IsSlot H s.current_iid (slot aa.iid) ii
      → ((aa.iid ≡ s.current_iid) → ii.final_value ≡ none)
      → Goes s (some (record s { learner_state = update s.learner_state (slot aa.iid) ii }))
  update_instance-dropped s aa ii l u k open' = (
    _,
    refl,
    record {
      window = write-IsWindow s (slot aa.iid) s.highest_iid_closed ii l.window k;
      waiting = elim (Bool-cases (aa.iid == s.current_iid)) [
        | inl here ↦ write-waiting s (slot aa.iid) ii (open' ((==_iff _ _).0 here)) l.waiting
        | inr later ↦ write-other s aa.iid ii u.above u.below later l.waiting
      ];
    },
    omega arith,
  )

  update_instance_lem :
      (s : Learner) (acc : ℕ) (aa : AcceptAck)
      → H acc aa
      → IsLearner H s
      → IsUsable H s.current_iid aa
      → Goes s (update_instance acc aa s)
  unfolding update_instance
  update_instance_lem s acc aa h l u =
      let ii = claim (instance_of s aa.iid) aa in
      let (k, e) =
        claim-IsSlot H s.current_iid (instance_of s aa.iid) aa u (l.window.slots (slot aa.iid)) in
      let idle : aa.iid ≡ s.current_iid → ii.final_value ≡ none =
        λ q. claim-final _ aa ∙ ap (λ n. (instance_of s n).final_value) q ∙ l.waiting in
      rw (lea_update_state_lem s acc aa h l u) (elim (Bool-cases (is_closed ii)) [
        | inl shut ↦ rw shut (update_instance-dropped s aa ii l u k idle)
        | inr plain ↦ elim (replace_ack-cases H ii acc aa) [
          | inl same ↦ rw (plain, same) (update_instance-dropped s aa ii l u k idle)
          | inr new ↦
              let n : ii.iid ≢ 0 = omega (arith, u.above, u.positive) in
              let k' = lea_store_accept_ack-IsSlot H s.current_iid _ acc ii aa h (sym e) n k in
              let (f, i) = store-same ii acc aa in
              rw (plain, new)
                (close_instance_lem s aa (lea_store_accept_ack ii acc aa) l u k' (i ∙ e)
                  (f ∙ open-final ii plain))
        ]
      ])

  note_seen-IsLearner :
      (s : Learner) (aa : AcceptAck) → IsLearner H s → IsLearner H (note_seen s aa)
  unfolding note_seen
  note_seen-IsLearner s aa l = record {
    window = record {
      positive = l.window.positive;
      bounded = l.window.bounded;
      slots = l.window.slots;
      order = l.window.order;
      justified = l.window.justified;
    };
    waiting = l.waiting;
  }

  pub handle_accept_ack_lem :
      (s : Learner) (acc : ℕ) (aa : AcceptAck)
      → H acc aa
      → aa.iid < iid_limit
      → IsLearner H s
      → Goes s (handle_accept_ack acc aa s)
  unfolding handle_accept_ack
  handle_accept_ack_lem s acc aa h small l =
      let l' = note_seen-IsLearner s aa l in
      let same : (note_seen s aa).current_iid ≡ s.current_iid = unfold note_seen in refl in
      elim (Bool-cases (ltb aa.iid s.current_iid)) [
        | inl old ↦ rw old (note_seen s aa, refl, l', omega arith)
        | inr new ↦
            elim (Bool-cases (leb ((s.current_iid + learner_array_size) % u64_mod) aa.iid)) [
              | inl far ↦ rw (new, far) (note_seen s aa, refl, l', omega arith)
              | inr near ↦
                  let u : IsUsable H (note_seen s aa).current_iid aa = record {
                    above = omega (arith, not-ltb→le _ _ new);
                    below = omega (arith, not-leb→lt _ _ near, l.window.bounded);
                    limited = small;
                    positive = omega (arith, l.window.positive);
                  } in
                  let (s', run, ok, le) = update_instance_lem (note_seen s aa) acc aa h l' u in
                  rw (new, near) (s', run, ok, omega arith)
            ]
      ]
