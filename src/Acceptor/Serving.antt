-- ===== src/Acceptor/Serving.antt =====
-- lib/acceptor.c: an acceptor serves its events as the specification says.
use libpaxos.Base.{ℕ, ◌<◌, Bool, true, false, Option, some, List, [], ◌∷◌, ◌++◌, All}
use libpaxos.Base.{◌≡◌, inl, inr, refl, sym, ap, ◌∙◌, append-nil, Option-cases, length}
use libpaxos.Base.{append_assoc, fun_ext, update}
use mathlib.Core.Path.{subst}
use libpaxos.Receiver.{
  Body, Datagram, udp_read_next_message, prepare_reqs, accept_reqs, repeat_reqs,
}
use libpaxos.SendBuf.Batches.{packed}
use libpaxos.Storage.{Db, stablestorage_save_final_value}
use libpaxos.Storage.Laws.{
  IsReliable, stablestorage_tx_begin_lem, stablestorage_tx_end_lem, save_lem,
}
use libpaxos.Acceptor.{Acceptor, learners}
use libpaxos.Acceptor.{acc_handle_newmsg, acc_deliver_callback}
use libpaxos.Acceptor.Table.{Ideal, small_value, put_record}
use libpaxos.Acceptor.Table.{put_record-IsIdeal}
use libpaxos.Acceptor.Rounds.{Serves}
use libpaxos.Acceptor.Prepare.{handle_prepare_req_batch_lem}
use libpaxos.Acceptor.Accept.{handle_accept_req_batch_lem}
use libpaxos.Acceptor.Repeat.{repeated, handle_repeat_req_batch_lem, acc_periodic_repeater_lem}
use libpaxos.Acceptor.Events.{
  Event, message, tick, delivery, final_record, body_step, event_step, event_steps, HasSmallValues,
  IsServable, handle_event, handle_events, Answers, IsReady, Answers-IsReady, from_learners,
  from_proposers, idle,
}

module _ (db : Db) (law : IsReliable db) (mode : ℕ) where
  acc_handle_newmsg_lem :
      (d : Option (Datagram × ℕ)) (a : Acceptor db.Store) (t : Ideal)
      → HasSmallValues (udp_read_next_message d)
      → IsReady db a t
      → (a' : Acceptor db.Store) × (acc_handle_newmsg db mode d a ≡ some a')
        × Answers db a (body_step (udp_read_next_message d) t) a'
  unfolding acc_handle_newmsg
  acc_handle_newmsg_lem d a t small r = elim (Option-cases (udp_read_next_message d)) [
    | inl e ↦ (a, rw (e, acc_handle_newmsg), rw e (idle db a t r))
    | inr (b, e) ↦ by_body b e
  ]
    where
      by_body :
          (b : Body)
          → udp_read_next_message d ≡ some b
          → (a' : Acceptor db.Store) × (acc_handle_newmsg db mode d a ≡ some a')
            × Answers db a (body_step (udp_read_next_message d) t) a'
      by_body (prepare_reqs id prs) e =
          let (a', run, v) =
            handle_prepare_req_batch_lem db law mode prs a t r.models r.fit_promises in
          (a', rw (e, acc_handle_newmsg) run, rw e (from_proposers db a t _ _ a' r v))
      by_body (accept_reqs id ars) e =
          let values : HasSmallValues (some (accept_reqs id ars)) = rw e at small in
          let (a', run, v) =
            handle_accept_req_batch_lem db law mode ars a t values r.models r.fit_acks in
          (a', rw (e, acc_handle_newmsg) run, rw e (from_learners db a t _ _ a' r v))
      by_body (repeat_reqs iids) e =
          let (a', run, v) = handle_repeat_req_batch_lem db law mode iids a t r.models r.fit_acks in
          let asked =
            subst (λ m. Serves db learners a t (repeated m iids) a') (fun_ext r.models.holds) v in
          (a', rw (e, acc_handle_newmsg) run, rw e (from_learners db a t t _ a' r asked))
      by_body _ e = (a, rw (e, acc_handle_newmsg), rw e (idle db a t r))

  delivery_lem :
      (value : List ℕ) (iid ballot : ℕ) (a : Acceptor db.Store) (t : Ideal)
      → length value < small_value
      → IsReady db a t
      → (a' : Acceptor db.Store) × (acc_deliver_callback db mode true value iid ballot a ≡ some a')
        × Answers db a (put_record iid (some (final_record value iid ballot)) t, [], []) a'
  unfolding acc_deliver_callback stablestorage_save_final_value
  delivery_lem value iid ballot a t small r =
      let (s, e, h) = stablestorage_tx_begin_lem db law mode a.store t.records r.models.holds in
      let rec = final_record value iid ballot in
      let (s', e', h') = save_lem db law s t.records iid rec h in
      let (s'', e'', h'') =
        stablestorage_tx_end_lem db law mode s' (update t.records iid (some rec)) h' in
      (
        record a { store = s'' },
        rw (e, e', e''),
        record {
          models = record {
            holds = h'';
            valid = put_record-IsIdeal iid rec t refl small r.models.valid;
            same_highest = r.models.same_highest;
          };
          promises = sym (append-nil (packed a.to_proposers.sent));
          acks = sym (append-nil (packed a.to_learners.sent));
          fit_promises = r.fit_promises;
          fit_acks = r.fit_acks;
          same_id = refl;
        },
      )

  handle_event_lem :
      (flag : Bool) (e : Event) (a : Acceptor db.Store) (t : Ideal)
      → IsServable e
      → IsReady db a t
      → (a' : Acceptor db.Store) × (handle_event db mode flag e a ≡ some a')
        × Answers db a (event_step flag e t) a'
  unfolding handle_event
  handle_event_lem flag (message d) a t small r = acc_handle_newmsg_lem d a t small r
  handle_event_lem flag tick a t small r =
      let (a', run, v) = acc_periodic_repeater_lem db law mode a t r.models r.fit_acks in
      (a', run, from_learners db a t t _ a' r v)
  handle_event_lem true (delivery value iid ballot) a t small r =
      delivery_lem value iid ballot a t small r
  handle_event_lem false (delivery value iid ballot) a t small r =
      (a, unfold acc_deliver_callback in refl, idle db a t r)

  -- On a reliable database, in every durability mode and with or without ACCEPTOR_UPDATE_ON_DELIVER,
  -- an acceptor serves any sequence of messages, valid or not, of ticks of its repeater and of
  -- deliveries, whose values fit an acknowledgement: no assertion fails, its records and its
  -- highest instance are those of the specification, and what it has sent to the proposers and to
  -- the learners, in datagrams within the size limit, are the answers of the specification, in
  -- order.
  pub handle_events_lem :
      (flag : Bool) (es : List Event) (a : Acceptor db.Store) (t : Ideal)
      → All IsServable es
      → IsReady db a t
      → (a' : Acceptor db.Store) × (handle_events db mode flag es a ≡ some a')
        × Answers db a (event_steps flag es t) a'
  unfolding handle_events event_steps
  handle_events_lem flag [] a t small r = (a, refl, idle db a t r)
  handle_events_lem flag (e ∷ es) a t small r =
      let (m, run, v) = handle_event_lem flag e a t small.0 r in
      let u = event_step flag e t in
      let (a', run', v') = handle_events_lem flag es m u.0 small.1 (Answers-IsReady db a u m v) in
      let w = event_steps flag es u.0 in
      (
        a',
        rw run run',
        record {
          models = v'.models;
          promises =
              v'.promises
              ∙ ap (λ l. l ++ w.1) v.promises
              ∙ append_assoc (packed a.to_proposers.sent) u.1 w.1;
          acks =
              v'.acks
              ∙ ap (λ l. l ++ w.2) v.acks
              ∙ append_assoc (packed a.to_learners.sent) u.2 w.2;
          fit_promises = v'.fit_promises;
          fit_acks = v'.fit_acks;
          same_id = v'.same_id ∙ v.same_id;
        },
      )
