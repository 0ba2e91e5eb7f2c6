-- ===== src/Acceptor/Accept.antt =====
-- `handle_accept_req_batch` and the steps of the specification.
use libpaxos.Base.{ℕ, ◌<◌, Option, none, some, List, [], ◌∷◌, All}
use libpaxos.Base.{◌≡◌, inl, inr, refl, sym, ap, append-nil, arith}
use libpaxos.Base.{Bool-cases, Option-cases, if◌then◌else◌, length}
use libpaxos.Messages.{AcceptReq, AcceptorRecord}
use libpaxos.SendBuf.Batches.{IsFit, added}
use libpaxos.Storage.{Db, stablestorage_save_accept}
use libpaxos.Storage.Laws.{IsReliable, stablestorage_get_record_lem, save_lem}
use libpaxos.Acceptor.{Acceptor, learners, drops_accept, acc_apply_accept, accept_round}
use libpaxos.Acceptor.{handle_accept_req_batch, for_each}
use libpaxos.Acceptor.Table.{Ideal, acceptance, accepted, accept_step, steps}
use libpaxos.Acceptor.Table.{accept_step-IsIdeal, small_value}
use libpaxos.Acceptor.Table.{acceptance-accepted}
use libpaxos.Acceptor.Rounds.{Models, Serves, Round, for_each_lem, add_accept_ack_lem}
use libpaxos.Acceptor.Rounds.{with_buffer_lem}

-- A value that fits an acknowledgement.
abbrev pub HasSmallValue : AcceptReq → Type 0
HasSmallValue ar = length ar.value < small_value

acceptance-drops :
    (ar : AcceptReq) (o : Option AcceptorRecord)
    → acceptance ar o ≡ (if drops_accept o ar then none else some (accepted ar))
unfolding acceptance
acceptance-drops ar none = refl
acceptance-drops ar (some rec) = ground arith

module _ (db : Db) (law : IsReliable db) (mode : ℕ) where
  -- The acceptor after a step: the storage, and the highest instance accepted.
  abbrev stepped : Acceptor db.Store → AcceptReq → Ideal → db.Store → Acceptor db.Store
  stepped a ar t store = record a {
    store = store;
    highest_accepted_iid = (accept_step ar t).0.highest;
  }

  acc_apply_accept_lem :
      (ar : AcceptReq) (a : Acceptor db.Store) (t : Ideal)
      → HasSmallValue ar
      → Models db a t
      → (store : db.Store) × (acc_apply_accept db ar (t.records ar.iid) a
          ≡ some (acceptance ar (t.records ar.iid), stepped a ar t store))
        × Models db (stepped a ar t store) (accept_step ar t).0
  unfolding acc_apply_accept stablestorage_save_accept
  acc_apply_accept_lem ar a t small m =
      let o = t.records ar.iid in
      let v = accept_step-IsIdeal ar t small m.valid in
      let q = acceptance-drops ar o in
      elim (Bool-cases (drops_accept o ar)) [
        | inl drop ↦
            let n : acceptance ar o ≡ none = rw drop at q in
            (
              a.store,
              rw (drop, n)
                  (ap (λ h. some (none, record a { highest_accepted_iid = h })) m.same_highest),
              rw n (record { holds = m.holds; valid = m.valid; same_highest = refl }),
            )
        | inr keep ↦
            let p : acceptance ar o ≡ some (accepted ar) = rw keep at q in
            let (s, e, h) = save_lem db law a.store t.records ar.iid (accepted ar) m.holds in
            (
              s,
              rw (keep, e, p, m.same_highest),
              rw p (record { holds = h; valid = rw p at v; same_highest = refl }),
            )
      ]

  accept_round_lem :
      (ar : AcceptReq) → HasSmallValue ar → Round db learners (accept_round db mode) accept_step ar
  unfolding accept_round
  accept_round_lem ar small a t m o =
      let got =
        stablestorage_get_record_lem db law a.store t.records ar.iid m.holds m.valid.keyed in
      let (s, e, m') = acc_apply_accept_lem ar a t small m in
      elim (Option-cases (acceptance ar (t.records ar.iid))) [
        | inl n ↦ (
          stepped a ar t s,
          rw (got, e, n),
          record {
            models = m';
            is_open = o;
            answers = rw n (sym (append-nil (added a.to_learners)));
            other_side = refl;
            same_id = refl;
          },
        )
        | inr (r, p) ↦
            let fits : length r.value < small_value =
              rw (acceptance-accepted ar (t.records ar.iid) r p) small in
            let (a', e', d) =
              add_accept_ack_lem db law mode r (stepped a ar t s) (accept_step ar t).0 fits m' o in
            (
              a',
              rw (got, e, p) (rw p at e'),
              record {
                models = d.models;
                is_open = d.is_open;
                answers = rw p d.answers;
                other_side = d.other_side;
                same_id = d.same_id;
              },
            )
      ]

  rounds-All :
      (ars : List AcceptReq)
      → All HasSmallValue ars
      → All (Round db learners (accept_round db mode) accept_step) ars
  rounds-All [] h = tt
  rounds-All (ar ∷ ars) h = (accept_round_lem ar h.0, rounds-All ars h.1)

  -- On a reliable database, in every durability mode, a batch of accept requests with values that
  -- fit an acknowledgement leaves the records and the highest instance that the specification's
  -- steps leave, sends exactly the accepted records to the learners, in order and in datagrams
  -- within the size limit, and sends nothing to the proposers. No assertion fails.
  pub handle_accept_req_batch_lem :
      (ars : List AcceptReq) (a : Acceptor db.Store) (t : Ideal)
      → All HasSmallValue ars
      → Models db a t
      → All IsFit a.to_learners.sent
      → (a' : Acceptor db.Store) × (handle_accept_req_batch db mode ars a ≡ some a')
        × Serves db learners a (steps accept_step ars t).0 (steps accept_step ars t).1 a'
  unfolding handle_accept_req_batch
  handle_accept_req_batch_lem ars a t small m f =
      with_buffer_lem db law mode learners (for_each (accept_round db mode) ars) a t _ _
        (λ b mb ob.
          for_each_lem db learners (accept_round db mode) accept_step ars (rounds-All ars small) b t
            mb ob)
        m f
