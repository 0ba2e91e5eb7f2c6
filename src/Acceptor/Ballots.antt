-- ===== src/Acceptor/Ballots.antt =====
-- Which accept requests an acceptor takes, by ballot: the phase 2 that follows a promise, and the
-- requests that a promise should have ruled out.
use libpaxos.Base.{ℕ, ◌≤◌, ◌<◌, true, Option, none, some, [], ◌∷◌, ◌++◌, All}
use libpaxos.Base.{◌≡◌, inl, inr, sym, ap, ◌∙◌, ==_refl, arith, leb, if◌then◌else◌}
use libpaxos.Base.{Bool-cases}
use mathlib.Core.Path.{subst}
use libpaxos.Messages.{PrepareReq, AcceptReq, AcceptorRecord, Item}
use libpaxos.SendBuf.Batches.{IsFit, packed}
use libpaxos.Storage.{Db}
use libpaxos.Storage.Laws.{IsReliable, view}
use libpaxos.Acceptor.{Acceptor, handle_prepare_req_batch, handle_accept_req_batch}
use libpaxos.Acceptor.Table.{Ideal, promise, acceptance, accepted, accept_step, prepare_step, steps}
use libpaxos.Acceptor.Rounds.{Models}
use libpaxos.Acceptor.Prepare.{handle_prepare_req_batch_lem, Grows}
use libpaxos.Acceptor.Accept.{handle_accept_req_batch_lem, HasSmallValue}

-- The record of the request's instance after a step.
accept_step-record :
    (ar : AcceptReq) (t : Ideal) (rec : AcceptorRecord)
    → t.records ar.iid ≡ some rec
    → (steps accept_step (ar ∷ []) t).0.records ar.iid
      ≡ (if leb ar.ballot rec.ballot then some (accepted ar) else some rec)
unfolding steps acceptance
accept_step-record ar t rec e = elim (Bool-cases (leb ar.ballot rec.ballot)) [
  | inl low ↦ rw (e, acceptance, low, ==_refl ar.iid)
  | inr high ↦ rw (e, acceptance, high) e
]

accept_step-answer :
    (ar : AcceptReq) (t : Ideal) (rec : AcceptorRecord)
    → t.records ar.iid ≡ some rec
    → ar.ballot ≤ rec.ballot
    → (steps accept_step (ar ∷ []) t).1 ≡ Item.accept_ack (accepted ar) ∷ []
unfolding steps acceptance
accept_step-answer ar t rec e low =
    let l : leb ar.ballot rec.ballot ≡ true = ground arith in rw (e, acceptance, l)

promise-ballot :
    (pr : PrepareReq) (o : Option AcceptorRecord) (r : AcceptorRecord)
    → promise pr o ≡ some r
    → r.ballot ≡ pr.ballot
unfolding promise
promise-ballot pr none r e = ground arith
promise-ballot pr (some rec) r e = ground arith

prepare_step-record :
    (pr : PrepareReq) (t : Ideal) (r : AcceptorRecord)
    → promise pr (t.records pr.iid) ≡ some r
    → (steps prepare_step (pr ∷ []) t).0.records pr.iid ≡ some r
unfolding steps
prepare_step-record pr t r e = rw (e, ==_refl pr.iid)

module _ (db : Db) (law : IsReliable db) (mode : ℕ) where
  -- Where a record is stored, a request is accepted exactly at the ballots up to that of the
  -- record, and dropped above it; a record that is final is overwritten too.
  pub accept_test :
      (ar : AcceptReq) (rec : AcceptorRecord) (a : Acceptor db.Store) (t : Ideal)
      → t.records ar.iid ≡ some rec
      → HasSmallValue ar
      → Models db a t
      → All IsFit a.to_learners.sent
      → (a' : Acceptor db.Store) × (handle_accept_req_batch db mode (ar ∷ []) a ≡ some a')
        × (ar.ballot ≤ rec.ballot → view db a'.store ar.iid ≡ some (accepted ar))
        × (rec.ballot < ar.ballot → view db a'.store ar.iid ≡ some rec)
  accept_test ar rec a t e small m f =
      let (a', run, v) = handle_accept_req_batch_lem db law mode (ar ∷ []) a t (small, tt) m f in
      let q = v.models.holds ar.iid ∙ accept_step-record ar t rec e in
      (a', run, λ h. ground arith, λ h. ground arith)

  -- So an acceptor that has promised a ballot still accepts, and stores, a request with a lower
  -- one: its record's ballot falls.
  pub accept_breaks_promise :
      (ar : AcceptReq) (rec : AcceptorRecord) (a : Acceptor db.Store) (t : Ideal)
      → t.records ar.iid ≡ some rec
      → ar.ballot < rec.ballot
      → HasSmallValue ar
      → Models db a t
      → All IsFit a.to_learners.sent
      → (a' : Acceptor db.Store) × (handle_accept_req_batch db mode (ar ∷ []) a ≡ some a')
        × (¬ Grows (view db a.store ar.iid) (view db a'.store ar.iid))
  accept_breaks_promise ar rec a t e low small m f =
      let (a', run, take, drop) = accept_test ar rec a t e small m f in
      (a', run, rw (m.holds ar.iid, e, take (omega arith)) (λ g. omega arith))

  -- The normal round: once the prepare request of a ballot is promised, the accept request of the
  -- same instance and ballot is stored, and acknowledged to the learners.
  pub accept_after_promise :
      (pr : PrepareReq) (r : AcceptorRecord) (ar : AcceptReq) (a : Acceptor db.Store) (t : Ideal)
      → promise pr (t.records pr.iid) ≡ some r
      → ar.iid ≡ pr.iid
      → ar.ballot ≡ pr.ballot
      → HasSmallValue ar
      → Models db a t
      → All IsFit a.to_proposers.sent
      → All IsFit a.to_learners.sent
      → (b : Acceptor db.Store) × (c : Acceptor db.Store) × (handle_prepare_req_batch db mode
            (pr ∷ [])
            a
          ≡ some b)
        × (handle_accept_req_batch db mode (ar ∷ []) b ≡ some c)
        × (view db c.store ar.iid ≡ some (accepted ar))
        × (packed c.to_learners.sent
            ≡ packed a.to_learners.sent ++ Item.accept_ack (accepted ar) ∷ [])
  accept_after_promise pr r ar a t p i q small m f g =
      let (b, run, v) = handle_prepare_req_batch_lem db law mode (pr ∷ []) a t m f in
      let t1 = (steps prepare_step (pr ∷ []) t).0 in
      let g' = subst (λ x. All IsFit x.sent) (sym v.other_side) g in
      let (c, run', v') =
        handle_accept_req_batch_lem db law mode (ar ∷ []) b t1 (small, tt) v.models g' in
      let e = ap t1.records i ∙ prepare_step-record pr t r p in
      let low : ar.ballot ≤ r.ballot = omega (arith, promise-ballot pr (t.records pr.iid) r p) in
      let l : leb ar.ballot r.ballot ≡ true = ground arith in
      (
        b,
        c,
        run,
        run',
        v'.models.holds ar.iid ∙ accept_step-record ar t1 r e ∙ rw l,
        v'.answers ∙ rw (v.other_side, accept_step-answer ar t1 r e low),
      )
