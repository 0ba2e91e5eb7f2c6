-- ===== src/Acceptor/Prepare.antt =====
-- `handle_prepare_req_batch` and the promises of the specification.
use libpaxos.Base.{ℕ, ◌≤◌, Option, none, some, List, [], ◌∷◌, All}
use libpaxos.Base.{
  ◌≡◌, inl, inr, refl, sym, ◌∙◌, append-nil, ==_iff, Bool-cases, Option-cases, arith,
}
use libpaxos.Base.{if◌then◌else◌, ◌==◌}
use mathlib.Core.Path.{subst}
use libpaxos.Messages.{PrepareReq, AcceptorRecord}
use libpaxos.SendBuf.Batches.{IsFit, added}
use libpaxos.Storage.{Db, stablestorage_save_prepare, promised}
use libpaxos.Storage.Laws.{IsReliable, view, stablestorage_get_record_lem, save_lem}
use libpaxos.Acceptor.{Acceptor, proposers, drops_prepare, acc_apply_prepare, prepare_round}
use libpaxos.Acceptor.{handle_prepare_req_batch, for_each}
use libpaxos.Acceptor.Table.{Ideal, IsIdeal, promise, prepare_step, steps}
use libpaxos.Acceptor.Table.{put_record, prepare_step-IsIdeal, promise-keeps}
use libpaxos.Acceptor.Rounds.{Models, Serves, Round, for_each_lem, add_prepare_ack_lem}
use libpaxos.Acceptor.Rounds.{with_buffer_lem}

-- The code's two tests are those of the specification.
promise-drops :
    (pr : PrepareReq) (o : Option AcceptorRecord)
    → promise pr o ≡ (if drops_prepare o pr then none else some (promised pr o))
unfolding promise
promise-drops pr none = refl
promise-drops pr (some rec) = ground arith

module _ (db : Db) (law : IsReliable db) (mode : ℕ) where
  -- A request is dropped without a trace, or its promise is stored and returned.
  acc_apply_prepare_lem :
      (pr : PrepareReq) (a : Acceptor db.Store) (t : Ideal)
      → Models db a t
      → (store : db.Store) × (acc_apply_prepare db pr (t.records pr.iid) a
          ≡ some (promise pr (t.records pr.iid), record a { store = store }))
        × Models db (record a { store = store }) (prepare_step pr t).0
  unfolding acc_apply_prepare stablestorage_save_prepare
  acc_apply_prepare_lem pr a t m =
      let o = t.records pr.iid in
      let v = prepare_step-IsIdeal pr t m.valid in
      let q = promise-drops pr o in
      elim (Bool-cases (drops_prepare o pr)) [
        | inl drop ↦
            let n : promise pr o ≡ none = rw drop at q in
            (
              a.store,
              rw (drop, n),
              rw n (record { holds = m.holds; valid = m.valid; same_highest = m.same_highest }),
            )
        | inr keep ↦
            let p : promise pr o ≡ some (promised pr o) = rw keep at q in
            let v' : IsIdeal (put_record pr.iid (some (promised pr o)) t) = rw p at v in
            let (s, e, h) = save_lem db law a.store t.records pr.iid (promised pr o) m.holds in
            (
              s,
              rw (keep, e, p),
              rw p (record { holds = h; valid = v'; same_highest = m.same_highest }),
            )
      ]

  prepare_round_lem : (pr : PrepareReq) → Round db proposers (prepare_round db mode) prepare_step pr
  unfolding prepare_round
  prepare_round_lem pr a t m o =
      let got =
        stablestorage_get_record_lem db law a.store t.records pr.iid m.holds m.valid.keyed in
      let (s, e, m') = acc_apply_prepare_lem pr a t m in
      elim (Option-cases (promise pr (t.records pr.iid))) [
        | inl n ↦ (
          record a { store = s },
          rw (got, e, n),
          rw n (record {
            models = rw n at m';
            is_open = o;
            answers = sym (append-nil (added a.to_proposers));
            other_side = refl;
            same_id = refl;
          }),
        )
        | inr (r, p) ↦
            let k =
              promise-keeps pr (t.records pr.iid) r
                (λ rec q. (m.valid.keyed pr.iid rec q, m.valid.small pr.iid rec q)) p in
            let (a', e', d) =
              add_prepare_ack_lem db law mode r (record a { store = s })
                (put_record pr.iid (some r) t) k.1 (rw p at m') o in
            (
              a',
              rw (got, e, p) e',
              rw p (record {
                models = d.models;
                is_open = d.is_open;
                answers = d.answers;
                other_side = d.other_side;
                same_id = d.same_id;
              }),
            )
      ]

  rounds-All :
      (prs : List PrepareReq) → All (Round db proposers (prepare_round db mode) prepare_step) prs
  rounds-All [] = tt
  rounds-All (pr ∷ prs) = (prepare_round_lem pr, rounds-All prs)

  -- On a reliable database, in every durability mode, a batch of prepare requests leaves in the
  -- storage the records that the specification's promises leave, sends exactly their
  -- acknowledgements to the proposers, in order and in datagrams within the size limit, and sends
  -- nothing to the learners. No assertion fails.
  pub handle_prepare_req_batch_lem :
      (prs : List PrepareReq) (a : Acceptor db.Store) (t : Ideal)
      → Models db a t
      → All IsFit a.to_proposers.sent
      → (a' : Acceptor db.Store) × (handle_prepare_req_batch db mode prs a ≡ some a')
        × Serves db proposers a (steps prepare_step prs t).0 (steps prepare_step prs t).1 a'
  unfolding handle_prepare_req_batch
  handle_prepare_req_batch_lem prs a t m f =
      with_buffer_lem db law mode proposers (for_each (prepare_round db mode) prs) a t _ _
        (λ b mb ob.
          for_each_lem db proposers (prepare_round db mode) prepare_step prs (rounds-All prs) b t mb
            ob)
        m f

-- What the promises of a batch do to one record: its ballot never falls, and its value stays.
abbrev pub Grows : Option AcceptorRecord → Option AcceptorRecord → Type 0
Grows none new = Unit
Grows (some old) none = ⊥
Grows (some old) (some new) =
    (old.ballot ≤ new.ballot)
    × (new.iid ≡ old.iid)
    × (new.value_ballot ≡ old.value_ballot)
    × (new.is_final ≡ old.is_final)
    × (new.value ≡ old.value)

Grows-trans : (x y z : Option AcceptorRecord) → Grows x y → Grows y z → Grows x z
Grows-trans none y z g h = tt
Grows-trans (some x) none z g h = absurd g
Grows-trans (some x) (some y) none g h = absurd h
Grows-trans (some x) (some y) (some z) g h =
    (omega arith, h.1 ∙ g.1, h.2 ∙ g.2, h.3 ∙ g.3, h.4 ∙ g.4)

Grows-refl : (x : Option AcceptorRecord) → Grows x x
Grows-refl none = tt
Grows-refl (some x) = (omega arith, refl, refl, refl, refl)

promise-Grows :
    (pr : PrepareReq) (o : Option AcceptorRecord) (r : AcceptorRecord)
    → promise pr o ≡ some r
    → Grows o (some r)
unfolding promise
promise-Grows pr none r e = tt
promise-Grows pr (some rec) r e = ground arith

prepare_step-Grows :
    (pr : PrepareReq) (t : Ideal) (i : ℕ) → Grows (t.records i) ((prepare_step pr t).0.records i)
prepare_step-Grows pr t i = elim (Option-cases (promise pr (t.records pr.iid))) [
  | inl e ↦ rw e (Grows-refl (t.records i))
  | inr (r, e) ↦ elim (Bool-cases (pr.iid == i)) [
    | inl here ↦
        let g = promise-Grows pr (t.records pr.iid) r e in
        rw (e, here) (subst (λ n. Grows (t.records n) (some r)) ((==_iff pr.iid i).0 here) g)
    | inr elsewhere ↦ rw (e, elsewhere) (Grows-refl (t.records i))
  ]
]

steps-Grows :
    (prs : List PrepareReq) (t : Ideal) (i : ℕ)
    → Grows (t.records i) ((steps prepare_step prs t).0.records i)
unfolding steps
steps-Grows [] t i = Grows-refl (t.records i)
steps-Grows (pr ∷ prs) t i =
    Grows-trans (t.records i) ((prepare_step pr t).0.records i) _ (prepare_step-Grows pr t i)
      (steps-Grows prs (prepare_step pr t).0 i)

module _ (db : Db) (law : IsReliable db) (mode : ℕ) where
  -- A batch of prepare requests never lowers the ballot of a stored record, and never changes its
  -- instance, its value, the value's ballot or the mark that it is final.
  pub handle_prepare_req_batch-Grows :
      (prs : List PrepareReq) (a : Acceptor db.Store) (t : Ideal)
      → Models db a t
      → All IsFit a.to_proposers.sent
      → (a' : Acceptor db.Store) × (handle_prepare_req_batch db mode prs a ≡ some a')
        × ((i : ℕ) → Grows (view db a.store i) (view db a'.store i))
  handle_prepare_req_batch-Grows prs a t m f =
      let (a', e, v) = handle_prepare_req_batch_lem db law mode prs a t m f in
      (a', e, λ i. rw (m.holds i, v.models.holds i) (steps-Grows prs t i))
