-- ===== src/Acceptor/Events.antt =====
-- lib/acceptor.c: an acceptor over its events, messages, ticks of the repeater and deliveries, and
-- the specification of the same events.
use libpaxos.Base.{ℕ, ◌+◌, ◌<◌, Bool, true, Option, some, List, [], ◌∷◌, ◌++◌, All}
use libpaxos.Base.{◌≡◌, refl, sym, ap, ◌∙◌, append-nil, length, if◌then◌else◌}
use libpaxos.Base.{◌>>=◌}
use mathlib.Core.Path.{subst}
use libpaxos.Messages.{AcceptorRecord, Item, paxos_msg_header}
use libpaxos.Receiver.{
  Body, Datagram, udp_read_next_message, prepare_reqs, accept_reqs, repeat_reqs,
}
use libpaxos.SendBuf.Batches.{IsFit, packed}
use libpaxos.Storage.{Db}
use libpaxos.Acceptor.{Acceptor, proposers, learners}
use libpaxos.Acceptor.{acc_handle_newmsg, acc_periodic_repeater, acc_deliver_callback}
use libpaxos.Acceptor.Table.{Ideal, steps, prepare_step, accept_step, small_value, put_record}
use libpaxos.Acceptor.Rounds.{Models, Serves}
use libpaxos.Acceptor.Accept.{HasSmallValue}
use libpaxos.Acceptor.Repeat.{repeated, latest}

-- What the event loop calls: the message handler with what `recvfrom` gave, the periodic repeater,
-- and the deliver callback with a value, its instance and its ballot.
pub data Event : Type 0 where
  message : Option (Datagram × ℕ) → Event
  tick : Event
  delivery : List ℕ → ℕ → ℕ → Event

-- A message that arrives whole.
abbrev pub arrival : ℕ → Body → Event
arrival size body =
    message (some (record { data_size = size; body = body }, size + paxos_msg_header))

-- The record of a value that the learner delivered.
abbrev pub final_record : List ℕ → ℕ → ℕ → AcceptorRecord
final_record value iid ballot = record {
  iid = iid;
  ballot = ballot;
  value_ballot = ballot;
  is_final = true;
  value = value;
}

-- A step of the specification: the table, the answers to the proposers, those to the learners.
abbrev pub Outcome : Type 0
Outcome = Ideal × List Item × List Item

abbrev pub body_step : Option Body → Ideal → Outcome
body_step (some (prepare_reqs id prs)) t =
    ((steps prepare_step prs t).0, (steps prepare_step prs t).1, [])
body_step (some (accept_reqs id ars)) t =
    ((steps accept_step ars t).0, [], (steps accept_step ars t).1)
body_step (some (repeat_reqs iids)) t = (t, [], repeated t.records iids)
body_step _ t = (t, [], [])

-- The flag is ACCEPTOR_UPDATE_ON_DELIVER.
abbrev pub event_step : Bool → Event → Ideal → Outcome
event_step update_on_deliver (message d) t = body_step (udp_read_next_message d) t
event_step update_on_deliver tick t = (t, [], latest t)
event_step update_on_deliver (delivery value iid ballot) t =
    if update_on_deliver
    then (put_record iid (some (final_record value iid ballot)) t, [], [])
    else (t, [], [])

unfoldable pub event_steps : Bool → List Event → Ideal → Outcome
event_steps update_on_deliver [] t = (t, [], [])
event_steps update_on_deliver (e ∷ es) t =
    let (t', ys, zs) = event_step update_on_deliver e t in
    let (t'', ys', zs') = event_steps update_on_deliver es t' in (t'', ys ++ ys', zs ++ zs')

-- The values that an event brings fit an acknowledgement.
abbrev pub HasSmallValues : Option Body → Type 0
HasSmallValues (some (accept_reqs id ars)) = All HasSmallValue ars
HasSmallValues _ = Unit

abbrev pub IsServable : Event → Type 0
IsServable (message d) = HasSmallValues (udp_read_next_message d)
IsServable tick = Unit
IsServable (delivery value iid ballot) = length value < small_value

module _ (db : Db) (mode : ℕ) (update_on_deliver : Bool) where
  unfoldable pub handle_event : Event → Acceptor db.Store → Option (Acceptor db.Store)
  handle_event (message d) a = acc_handle_newmsg db mode d a
  handle_event tick a = acc_periodic_repeater db mode a
  handle_event (delivery value iid ballot) a =
      acc_deliver_callback db mode update_on_deliver value iid ballot a

  unfoldable pub handle_events : List Event → Acceptor db.Store → Option (Acceptor db.Store)
  handle_events [] a = some a
  handle_events (e ∷ es) a = handle_event e a >>= handle_events es

module _ (db : Db) where
  -- What events do: to the storage, as the specification; to both networks, its answers.
  pub record Answers (a : Acceptor db.Store) (o : Outcome) (a' : Acceptor db.Store) : Type 0 where
    pub models : Models db a' o.0
    pub promises : packed a'.to_proposers.sent ≡ packed a.to_proposers.sent ++ o.1
    pub acks : packed a'.to_learners.sent ≡ packed a.to_learners.sent ++ o.2
    pub fit_promises : All IsFit a'.to_proposers.sent
    pub fit_acks : All IsFit a'.to_learners.sent
    pub same_id : a'.this_acceptor_id ≡ a.this_acceptor_id

  -- The two networks before an event.
  pub record IsReady (a : Acceptor db.Store) (t : Ideal) : Type 0 where
    pub models : Models db a t
    pub fit_promises : All IsFit a.to_proposers.sent
    pub fit_acks : All IsFit a.to_learners.sent

  pub Answers-IsReady :
      (a : Acceptor db.Store) (o : Outcome) (a' : Acceptor db.Store)
      → Answers a o a'
      → IsReady a' o.0
  Answers-IsReady a o a' w = record {
    models = w.models;
    fit_promises = w.fit_promises;
    fit_acks = w.fit_acks;
  }

  pub idle : (a : Acceptor db.Store) (t : Ideal) → IsReady a t → Answers a (t, [], []) a
  idle a t r = record {
    models = r.models;
    promises = sym (append-nil (packed a.to_proposers.sent));
    acks = sym (append-nil (packed a.to_learners.sent));
    fit_promises = r.fit_promises;
    fit_acks = r.fit_acks;
    same_id = refl;
  }

  pub from_proposers :
      (a : Acceptor db.Store) (t t' : Ideal) (ys : List Item) (a' : Acceptor db.Store)
      → IsReady a t
      → Serves db proposers a t' ys a'
      → Answers a (t', ys, []) a'
  from_proposers a t t' ys a' r v = record {
    models = v.models;
    promises = v.answers;
    acks = ap (λ sb. packed sb.sent) v.other_side ∙ sym (append-nil (packed a.to_learners.sent));
    fit_promises = v.fits;
    fit_acks = subst (λ sb. All IsFit sb.sent) (sym v.other_side) r.fit_acks;
    same_id = v.same_id;
  }

  pub from_learners :
      (a : Acceptor db.Store) (t t' : Ideal) (zs : List Item) (a' : Acceptor db.Store)
      → IsReady a t
      → Serves db learners a t' zs a'
      → Answers a (t', [], zs) a'
  from_learners a t t' zs a' r v = record {
    models = v.models;
    promises =
        ap (λ sb. packed sb.sent) v.other_side ∙ sym (append-nil (packed a.to_proposers.sent));
    acks = v.answers;
    fit_promises = subst (λ sb. All IsFit sb.sent) (sym v.other_side) r.fit_promises;
    fit_acks = v.fits;
    same_id = v.same_id;
  }
