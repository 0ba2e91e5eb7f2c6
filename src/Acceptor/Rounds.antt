-- ===== src/Acceptor/Rounds.antt =====
-- The frame that the handlers share: if each round does a step of the specification, the handler
-- does the batch, and its answers go out in datagrams.
use libpaxos.Base.{ℕ, ◌+◌, ◌<◌, Option, some, List, [], ◌∷◌, ◌++◌, All}
use libpaxos.Base.{◌≡◌, inl, inr, refl, sym, ap, ◌∙◌, append_assoc, append-nil, Bool-cases, arith}
use libpaxos.Base.{length}
use libpaxos.Messages.{MsgCode, AcceptorRecord, Item, accept_ack_size}
use libpaxos.SendBuf.{SendBuf, sendbuf_clear, sendbuf_flush, is_full}
use libpaxos.SendBuf.{sendbuf_add_prepare_ack, sendbuf_add_accept_ack}
use libpaxos.SendBuf.Batches.{IsOpen, IsFit, added, packed, add_item_lem, sendbuf_flush-fits}
use libpaxos.SendBuf.Batches.{packed-sendbuf_flush, sendbuf_clear-IsOpen}
use libpaxos.Storage.{Db}
use libpaxos.Storage.Laws.{IsReliable, Holds, stablestorage_tx_begin_lem, stablestorage_tx_end_lem}
use libpaxos.Acceptor.{Acceptor, Side, proposers, learners, buffer, ack_type, for_each}
use libpaxos.Acceptor.{commit_if_full, add_prepare_ack, add_accept_ack, with_buffer}
use libpaxos.Acceptor.Table.{Ideal, IsIdeal, steps, promise_item, small_value}

abbrev pub other : Side → Side
other proposers = learners
other learners = proposers

module _ (db : Db) where
  -- The acceptor's storage and counter are those of the specification.
  pub record Models (a : Acceptor db.Store) (t : Ideal) : Type 0 where
    pub holds : Holds db a.store t.records
    pub valid : IsIdeal t
    pub same_highest : a.highest_accepted_iid ≡ t.highest

  -- What a round does on its side: to the storage, as the specification; to the buffer, the answers.
  pub record Does (side : Side) (a : Acceptor db.Store) (t : Ideal) (ys : List Item)
      (a' : Acceptor db.Store) : Type 0 where
    pub models : Models a' t
    pub is_open : IsOpen (ack_type side) (buffer side a')
    pub answers : added (buffer side a') ≡ added (buffer side a) ++ ys
    pub other_side : buffer (other side) a' ≡ buffer (other side) a
    pub same_id : a'.this_acceptor_id ≡ a.this_acceptor_id

  abbrev pub Round {ℓ} :
      Side
      → {X : Type ℓ} → (X → Acceptor db.Store → Option (Acceptor db.Store))
      → (X → Ideal → Ideal × List Item)
      → X
      → Type 0
  Round side round step x =
      (a : Acceptor db.Store) (t : Ideal)
      → Models a t
      → IsOpen (ack_type side) (buffer side a)
      → (a' : Acceptor db.Store) × (round x a ≡ some a') × Does side a (step x t).0 (step x t).1 a'

  pub for_each_lem {ℓ} :
      (side : Side) {X : Type ℓ} (round : X → Acceptor db.Store → Option (Acceptor db.Store))
      (step : X → Ideal → Ideal × List Item) (xs : List X)
      → All (Round side round step) xs
      → Round side (for_each round) (steps step) xs
  unfolding for_each steps
  for_each_lem side round step [] h a t m o = (
    a,
    refl,
    record {
      models = m;
      is_open = o;
      answers = sym (append-nil (added (buffer side a)));
      other_side = refl;
      same_id = refl;
    },
  )
  for_each_lem side round step (x ∷ xs) h a t m o =
      let (a', e, d) = h.0 a t m o in
      let (a'', e', d') = for_each_lem side round step xs h.1 a' (step x t).0 d.models d.is_open in
      (
        a'',
        rw e e',
        record {
          models = d'.models;
          is_open = d'.is_open;
          answers =
              d'.answers
              ∙ ap (λ l. l ++ (steps step xs (step x t).0).1) d.answers
              ∙ append_assoc (added (buffer side a)) (step x t).1 (steps step xs (step x t).0).1;
          other_side = d'.other_side ∙ d.other_side;
          same_id = d'.same_id ∙ d.same_id;
        },
      )

  -- What a handler does: the batch, answered in datagrams within the size limit.
  pub record Serves (side : Side) (a : Acceptor db.Store) (t : Ideal) (ys : List Item)
      (a' : Acceptor db.Store) : Type 0 where
    pub models : Models a' t
    pub answers : packed (buffer side a').sent ≡ packed (buffer side a).sent ++ ys
    pub fits : All IsFit (buffer side a').sent
    pub other_side : buffer (other side) a' ≡ buffer (other side) a
    pub same_id : a'.this_acceptor_id ≡ a.this_acceptor_id

  module _ (law : IsReliable db) (mode : ℕ) where
    commit_if_full_lem :
        (sb : SendBuf) (size : ℕ) (s : db.Store) (m : ℕ → Option AcceptorRecord)
        → Holds db s m
        → (s' : db.Store) × (commit_if_full db mode sb size s ≡ some s') × Holds db s' m
    unfolding commit_if_full
    commit_if_full_lem sb size s m h = elim (Bool-cases (is_full sb size)) [
      | inr room ↦ (s, rw room, h)
      | inl full ↦
          let (s', e, h') = stablestorage_tx_end_lem db law mode s m h in
          let (s'', e', h'') = stablestorage_tx_begin_lem db law mode s' m h' in
          (s'', rw (full, e, e'), h'')
    ]

    pub add_prepare_ack_lem :
        (rec : AcceptorRecord) (a : Acceptor db.Store) (t : Ideal)
        → length rec.value < small_value
        → Models a t
        → IsOpen MsgCode.prepare_acks a.to_proposers
        → (a' : Acceptor db.Store) × (add_prepare_ack db mode rec a ≡ some a')
          × Does proposers a t (promise_item rec ∷ []) a'
    unfolding add_prepare_ack sendbuf_add_prepare_ack
    add_prepare_ack_lem rec a t small m o =
        let (s, e, h) =
          commit_if_full_lem a.to_proposers (24 + length rec.value) a.store t.records m.holds in
        let (sb, e', o', q) =
          add_item_lem MsgCode.prepare_acks a.to_proposers.sender a.to_proposers (promise_item rec)
            (omega arith) o in
        (
          record a { store = s; to_proposers = sb },
          rw (e, e'),
          record {
            models = record { holds = h; valid = m.valid; same_highest = m.same_highest };
            is_open = o';
            answers = q;
            other_side = refl;
            same_id = refl;
          },
        )

    pub add_accept_ack_lem :
        (rec : AcceptorRecord) (a : Acceptor db.Store) (t : Ideal)
        → length rec.value < small_value
        → Models a t
        → IsOpen MsgCode.accept_acks a.to_learners
        → (a' : Acceptor db.Store) × (add_accept_ack db mode rec a ≡ some a')
          × Does learners a t (Item.accept_ack rec ∷ []) a'
    unfolding add_accept_ack sendbuf_add_accept_ack
    add_accept_ack_lem rec a t small m o =
        let (s, e, h) =
          commit_if_full_lem a.to_learners (accept_ack_size rec) a.store t.records m.holds in
        let (sb, e', o', q) =
          add_item_lem MsgCode.accept_acks a.to_learners.sender a.to_learners (Item.accept_ack rec)
            (omega arith) o in
        (
          record a { store = s; to_learners = sb },
          rw (e, e'),
          record {
            models = record { holds = h; valid = m.valid; same_highest = m.same_highest };
            is_open = o';
            answers = q;
            other_side = refl;
            same_id = refl;
          },
        )

    -- The handler's frame around a loop that does what the specification says.
    pub with_buffer_lem :
        (side : Side) (loop : Acceptor db.Store → Option (Acceptor db.Store))
        (a : Acceptor db.Store) (t t' : Ideal) (ys : List Item)
        → ((b : Acceptor db.Store)
            → Models b t
            → IsOpen (ack_type side) (buffer side b)
            → (b' : Acceptor db.Store) × (loop b ≡ some b') × Does side b t' ys b')
        → Models a t
        → All IsFit (buffer side a).sent
        → (a' : Acceptor db.Store) × (with_buffer db mode side loop a ≡ some a')
          × Serves side a t' ys a'
    unfolding with_buffer
    with_buffer_lem proposers loop a t t' ys run m f =
        let (s, e, h) = stablestorage_tx_begin_lem db law mode a.store t.records m.holds in
        let sb = sendbuf_clear a.to_proposers MsgCode.prepare_acks a.this_acceptor_id in
        let o =
          sendbuf_clear-IsOpen MsgCode.prepare_acks MsgCode.prepare_acks a.this_acceptor_id
            a.to_proposers refl f in
        let b = record a { to_proposers = sb; store = s } in
        let (b', e', d) =
          run b (record { holds = h; valid = m.valid; same_highest = m.same_highest }) o in
        let (s', e'', h') =
          stablestorage_tx_end_lem db law mode b'.store t'.records d.models.holds in
        (
          record b' { to_proposers = sendbuf_flush b'.to_proposers; store = s' },
          rw (e, e', e''),
          record {
            models = record {
              holds = h';
              valid = d.models.valid;
              same_highest = d.models.same_highest;
            };
            answers =
                packed-sendbuf_flush b'.to_proposers d.is_open
                ∙ d.answers
                ∙ ap (λ l. l ++ ys)
                    (unfold sendbuf_clear in append-nil (packed a.to_proposers.sent));
            fits = sendbuf_flush-fits b'.to_proposers d.is_open;
            other_side = d.other_side;
            same_id = d.same_id;
          },
        )
    with_buffer_lem learners loop a t t' ys run m f =
        let (s, e, h) = stablestorage_tx_begin_lem db law mode a.store t.records m.holds in
        let sb = sendbuf_clear a.to_learners MsgCode.accept_acks a.this_acceptor_id in
        let o =
          sendbuf_clear-IsOpen MsgCode.accept_acks MsgCode.accept_acks a.this_acceptor_id
            a.to_learners refl f in
        let b = record a { to_learners = sb; store = s } in
        let (b', e', d) =
          run b (record { holds = h; valid = m.valid; same_highest = m.same_highest }) o in
        let (s', e'', h') =
          stablestorage_tx_end_lem db law mode b'.store t'.records d.models.holds in
        (
          record b' { to_learners = sendbuf_flush b'.to_learners; store = s' },
          rw (e, e', e''),
          record {
            models = record {
              holds = h';
              valid = d.models.valid;
              same_highest = d.models.same_highest;
            };
            answers =
                packed-sendbuf_flush b'.to_learners d.is_open
                ∙ d.answers
                ∙ ap (λ l. l ++ ys)
                    (unfold sendbuf_clear in append-nil (packed a.to_learners.sent));
            fits = sendbuf_flush-fits b'.to_learners d.is_open;
            other_side = d.other_side;
            same_id = d.same_id;
          },
        )
