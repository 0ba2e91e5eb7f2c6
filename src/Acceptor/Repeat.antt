-- ===== src/Acceptor/Repeat.antt =====
-- What an acceptor sends again: to a learner that asks, and every few seconds.
use libpaxos.Base.{ℕ, ◌<◌, true, false, Option, some, List, [], ◌∷◌, ◌++◌, All}
use libpaxos.Base.{◌≡◌, inl, inr, refl, sym, ◌∙◌, append-nil, ==_refl, arith, leb, ltb, length}
use libpaxos.Base.{Bool-cases, Option-cases, if◌then◌else◌}
use mathlib.Core.Path.{subst}
use libpaxos.Base.{fun_ext}
use libpaxos.Messages.{MsgCode, PrepareReq, AcceptorRecord, Item}
use libpaxos.SendBuf.Batches.{IsFit, IsOpen, added, packed}
use libpaxos.Storage.{Db}
use libpaxos.Storage.Laws.{IsReliable, view, stablestorage_get_record_lem}
use libpaxos.Acceptor.{Acceptor, learners, for_each, repeat_round}
use libpaxos.Acceptor.{handle_repeat_req_batch, retransmit_round, acc_retransmit_latest_accept}
use libpaxos.Acceptor.{acc_periodic_repeater, handle_prepare_req_batch}
use libpaxos.Acceptor.Table.{Ideal, promise, prepare_step, repeat_step, steps, with_value, answer}
use libpaxos.Acceptor.Rounds.{Models, Does, Serves, Round, for_each_lem, add_accept_ack_lem}
use libpaxos.Acceptor.Rounds.{with_buffer_lem}
use libpaxos.Acceptor.Prepare.{handle_prepare_req_batch_lem}

-- The records that answer a list of requests.
abbrev pub repeated : (ℕ → Option AcceptorRecord) → List ℕ → List Item
repeated m [] = []
repeated m (iid ∷ iids) = answer Item.accept_ack (with_value (m iid)) ++ repeated m iids

steps-repeat : (iids : List ℕ) (t : Ideal) → steps repeat_step iids t ≡ (t, repeated t.records iids)
unfolding steps
steps-repeat [] t = refl
steps-repeat (iid ∷ iids) t = rw (steps-repeat iids t)

promised_record :
    (pr : PrepareReq) (rec : AcceptorRecord) (t : Ideal)
    → t.records pr.iid ≡ some rec
    → rec.ballot < pr.ballot
    → rec.is_final ≡ false
    → (steps prepare_step (pr ∷ []) t).0.records pr.iid ≡ some (record rec { ballot = pr.ballot })
unfolding steps promise
promised_record pr rec t e up plain =
    let high : leb pr.ballot rec.ballot ≡ false = ground arith in
    rw (e, promise, high) (simp (plain, ==_refl pr.iid))

-- What the periodic repeater sends: the record of the highest instance accepted, if any.
abbrev pub latest : Ideal → List Item
latest t = if ltb 0 t.highest then answer Item.accept_ack (t.records t.highest) else []

module _ (db : Db) (law : IsReliable db) (mode : ℕ) where
  repeat_round_lem : (iid : ℕ) → Round db learners (repeat_round db mode) repeat_step iid
  unfolding repeat_round
  repeat_round_lem iid a t m o =
      let got = stablestorage_get_record_lem db law a.store t.records iid m.holds m.valid.keyed in
      let idle : Does db learners a t [] a = record {
        models = m;
        is_open = o;
        answers = sym (append-nil (added a.to_learners));
        other_side = refl;
        same_id = refl;
      } in
      elim (Option-cases (t.records iid)) [
        | inl n ↦ (a, rw (got, n), rw n idle)
        | inr (rec, e) ↦ elim (Bool-cases (ltb 0 (length rec.value))) [
          | inr bare ↦ (a, rw (got, e, bare), rw (e, bare) idle)
          | inl full ↦
              let (a', run, d) =
                add_accept_ack_lem db law mode rec a t (m.valid.small iid rec e) m o in
              (a', rw (got, e, full) run, rw (e, full) d)
        ]
      ]

  rounds-All : (iids : List ℕ) → All (Round db learners (repeat_round db mode) repeat_step) iids
  rounds-All [] = tt
  rounds-All (iid ∷ iids) = (repeat_round_lem iid, rounds-All iids)

  -- A batch of repeat requests is answered with the stored records of the instances asked for that
  -- have a value, as they are, in order and in datagrams within the size limit; neither the
  -- records nor the highest instance change. No assertion fails.
  pub handle_repeat_req_batch_lem :
      (iids : List ℕ) (a : Acceptor db.Store) (t : Ideal)
      → Models db a t
      → All IsFit a.to_learners.sent
      → (a' : Acceptor db.Store) × (handle_repeat_req_batch db mode iids a ≡ some a')
        × Serves db learners a t (repeated (view db a.store) iids) a'
  unfolding handle_repeat_req_batch
  handle_repeat_req_batch_lem iids a t m f = rw (fun_ext m.holds) (
      with_buffer_lem db law mode learners (for_each (repeat_round db mode) iids) a t t _
        (λ b mb ob. rw steps-repeat at (
          for_each_lem db learners (repeat_round db mode) repeat_step iids (rounds-All iids) b t mb
            ob))
        m f)

  retransmit_round_lem :
      (rec : AcceptorRecord) (a : Acceptor db.Store) (t : Ideal)
      → t.records t.highest ≡ some rec
      → Models db a t
      → IsOpen MsgCode.accept_acks a.to_learners
      → (a' : Acceptor db.Store) × (retransmit_round db mode a ≡ some a')
        × Does db learners a t (Item.accept_ack rec ∷ []) a'
  unfolding retransmit_round
  retransmit_round_lem rec a t e m o =
      let got =
        stablestorage_get_record_lem db law a.store t.records a.highest_accepted_iid m.holds
          m.valid.keyed in
      let (a', run, d) = add_accept_ack_lem db law mode rec a t (m.valid.small _ rec e) m o in
      (a', rw (got, m.same_highest, e) run, d)

  -- The periodic repeater never uses a record that does not exist: it sends the learners the
  -- record of the highest instance for which a value was accepted, or nothing if there is none,
  -- and changes nothing else.
  pub acc_periodic_repeater_lem :
      (a : Acceptor db.Store) (t : Ideal)
      → Models db a t
      → All IsFit a.to_learners.sent
      → (a' : Acceptor db.Store) × (acc_periodic_repeater db mode a ≡ some a')
        × Serves db learners a t (latest t) a'
  unfolding acc_periodic_repeater acc_retransmit_latest_accept
  acc_periodic_repeater_lem a t m f = elim (Bool-cases (ltb 0 t.highest)) [
    | inr never ↦ (
      a,
      rw (m.same_highest, never),
      rw never (record {
        models = m;
        answers = sym (append-nil (packed a.to_learners.sent));
        fits = f;
        other_side = refl;
        same_id = refl;
      }),
    )
    | inl once ↦ elim (Option-cases (t.records t.highest)) [
      | inl n ↦ absurd (m.valid.latest (ground arith) n)
      | inr (rec, e) ↦
          let on : ltb 0 a.highest_accepted_iid ≡ true = rw m.same_highest once in
          rw (on, once, e)
            (with_buffer_lem db law mode learners (retransmit_round db mode) a t t
              (Item.accept_ack rec ∷ []) (λ b mb ob. retransmit_round_lem rec b t e mb ob) m f)
    ]
  ]

  -- A value accepted at one ballot, and then a promise at a higher one: what the acceptor sends to
  -- a learner that asks carries the promised ballot in `ballot`, with the old value.
  pub repeat_after_promise :
      (pr : PrepareReq) (rec : AcceptorRecord) (a : Acceptor db.Store) (t : Ideal)
      → t.records pr.iid ≡ some rec
      → rec.ballot < pr.ballot
      → rec.is_final ≡ false
      → 0 < length rec.value
      → Models db a t
      → All IsFit a.to_proposers.sent
      → All IsFit a.to_learners.sent
      → (b : Acceptor db.Store) × (c : Acceptor db.Store) × (handle_prepare_req_batch db mode
            (pr ∷ [])
            a
          ≡ some b)
        × (handle_repeat_req_batch db mode (pr.iid ∷ []) b ≡ some c)
        × (packed c.to_learners.sent
            ≡ packed a.to_learners.sent ++ Item.accept_ack (record rec { ballot = pr.ballot }) ∷ [])
  repeat_after_promise pr rec a t e up plain full m f g =
      let (b, run, v) = handle_prepare_req_batch_lem db law mode (pr ∷ []) a t m f in
      let g' = subst (λ x. All IsFit x.sent) (sym v.other_side) g in
      let (c, run', v') =
        handle_repeat_req_batch_lem (pr.iid ∷ []) b (steps prepare_step (pr ∷ []) t).0 v.models
          g' in
      let held = v.models.holds pr.iid ∙ promised_record pr rec t e up plain in
      let some_bytes : ltb 0 (length rec.value) ≡ true = ground arith in
      (b, c, run, run', v'.answers ∙ rw (v.other_side, held, some_bytes))
