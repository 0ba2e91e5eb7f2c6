-- ===== src/Learner/Deliver.antt =====
-- `lea_deliver_next_closed` and the learner's invariant.
use libpaxos.Base.{ℕ, zero, suc, ◌+◌, ◌%◌, ◌≤◌, ◌<◌, some}
use libpaxos.Base.{◌≡◌, ◌≢◌, inl, inr, refl, All-append, Bool-cases, Option-cases, ==_iff, arith}
use libpaxos.Base.{◌==◌}
use mathlib.Core.Path.{subst, sym, ◌∙◌}
use libpaxos.Config.{u64_mod, learner_array_size}
use libpaxos.Messages.{AcceptAck}
use libpaxos.Learner.{InstInfo, Learner, slot, instance_of, lea_clear_instance_info}
use libpaxos.Learner.{deliver_one, deliver_loop, lea_deliver_next_closed}
use libpaxos.Learner.Ring.{IsSlot, Backed, iid_limit}
use libpaxos.Learner.Invariant.{IsWindow, IsLearner, IsJustified, Consecutive, Consecutive-append}

module _ (H : ℕ → AcceptAck → Type 0) where
  lea_clear_instance_info-IsSlot :
      (current i : ℕ) (ii : InstInfo) → IsSlot H current i (lea_clear_instance_info ii)
  unfolding lea_clear_instance_info
  lea_clear_instance_info-IsSlot current i ii = record {
    placed = λ n. absurd (n refl);
    vacant = λ _. (refl, λ _. refl);
    own = λ a m q. absurd (cc);
    decided = λ m q. absurd (cc);
  }

  -- The window moves on, for a record that is not of the instance that leaves it.
  IsSlot-next : (c i : ℕ) (ii : InstInfo) → slot c ≢ i → IsSlot H c i ii → IsSlot H (c + 1) i ii
  IsSlot-next c i ii d k = record {
    placed = λ n.
        let p = k.placed n in
        record {
          place = p.place;
          above = omega (arith, p.place, p.above);
          below = omega (arith, p.below);
          limited = p.limited;
        };
    vacant = k.vacant;
    own = k.own;
    decided = k.decided;
  }

  -- A closed record at the place of the current instance is the record of that instance.
  current-closed :
      (s : Learner) (aa : AcceptAck)
      → IsWindow H s
      → (instance_of s s.current_iid).final_value ≡ some aa
      → ((instance_of s s.current_iid).iid ≡ s.current_iid) × (s.current_iid < iid_limit)
  current-closed s aa w e =
      let k = w.slots (slot s.current_iid) in
      let p = k.placed (λ z. absurd (cc ((k.vacant z).0))) in
      omega (arith, p.place, p.above, p.below, p.limited)

  deliver_one-IsWindow :
      (s : Learner) (aa : AcceptAck)
      → IsWindow H s
      → (instance_of s s.current_iid).final_value ≡ some aa
      → IsWindow H (deliver_one s aa) × ((deliver_one s aa).current_iid ≡ s.current_iid + 1)
  unfolding deliver_one
  deliver_one-IsWindow s aa w e =
      let c = s.current_iid in
      let (own, small) = current-closed s aa w e in
      let next : (c + 1) % u64_mod ≡ c + 1 = omega arith in
      let d = (w.slots (slot c)).decided aa e in
      (
        record {
          positive = omega arith;
          bounded = omega arith;
          slots = λ i.
              subst (λ n. IsSlot H n i ((deliver_one s aa).learner_state i)) (sym next)
                (elim (Bool-cases (slot c == i)) [
                  | inl q ↦ rw q (lea_clear_instance_info-IsSlot (c + 1) i (instance_of s c))
                  | inr q ↦
                      rw q (IsSlot-next c i (s.learner_state i) (λ z. ground arith) (w.slots i))
                ]);
          order =
              subst (λ n. Consecutive 1 (deliver_one s aa).delivered n) (sym next)
                (Consecutive-append 1 c s.delivered _ w.order refl);
          justified = All-append (IsJustified H) s.delivered _ w.justified (
            record {
              sender = d.sender;
              ack = aa;
              received = d.received;
              same_iid = d.own ∙ own;
              same_value = refl;
              same_ballot = refl;
              same_proposer = refl;
              backed = subst (λ n. Backed H n aa.ballot) own d.backed;
            },
            tt,
          );
        },
        next,
      )

  still_below :
      (s : Learner) (aa : AcceptAck) (top : ℕ)
      → ((i : ℕ) (m : AcceptAck)
          → (s.learner_state i).final_value ≡ some m
          → (s.learner_state i).iid < top)
      → (i : ℕ) (m : AcceptAck) → ((deliver_one s aa).learner_state i).final_value ≡ some m
      → ((deliver_one s aa).learner_state i).iid < top
  unfolding deliver_one lea_clear_instance_info
  still_below s aa top b i m h = elim (Bool-cases (slot s.current_iid == i)) [
    | inl q ↦ absurd (let k = rw q at h in cc)
    | inr q ↦ rw q (b i m (rw q at h))
  ]

  -- With fuel for every closed record the loop ends, at an open instance.
  deliver_loop_lem :
      (fuel : ℕ) (s : Learner) (top : ℕ)
      → IsWindow H s
      → ((i : ℕ) (aa : AcceptAck)
          → (s.learner_state i).final_value ≡ some aa
          → (s.learner_state i).iid < top)
      → s.current_iid ≤ top
      → top < s.current_iid + fuel
      → (s' : Learner) × (deliver_loop fuel s ≡ some s')
        × IsLearner H s'
        × (s.current_iid ≤ s'.current_iid)
  unfolding deliver_loop
  deliver_loop_lem zero s top w b l f = absurd (omega arith)
  deliver_loop_lem (suc fuel) s top w b l f =
      elim (Option-cases (instance_of s s.current_iid).final_value) [
        | inl e ↦ (s, rw (e, deliver_loop), record { window = w; waiting = e }, omega arith)
        | inr (aa, e) ↦
            let (own, small) = current-closed s aa w e in
            let (w', next) = deliver_one-IsWindow s aa w e in
            let b' = still_below s aa top b in
            let t = b (slot s.current_iid) aa e in
            let (s', run, ok, le) =
              deliver_loop_lem fuel (deliver_one s aa) top w' b' (omega arith) (omega arith) in
            (s', rw (e, deliver_loop, (==_iff _ _).1 own) run, ok, omega arith)
      ]

  -- The loop ends within its fuel at an open instance, without a failed assertion.
  pub lea_deliver_next_closed_lem :
      (s : Learner)
      → IsWindow H s
      → (s' : Learner) × (lea_deliver_next_closed s ≡ some s')
        × IsLearner H s'
        × (s.current_iid ≤ s'.current_iid)
  unfolding lea_deliver_next_closed
  lea_deliver_next_closed_lem s w =
      deliver_loop_lem (learner_array_size + 1) s (s.current_iid + learner_array_size) w
        (λ i aa e. let k = w.slots i in (k.placed (λ z. absurd (cc ((k.vacant z).0)))).below)
        (omega arith) (omega arith)
