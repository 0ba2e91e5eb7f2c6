-- ===== src/Values/Queue.antt =====
-- The pending list as a queue.
use libpaxos.Base.{ℕ, suc, ◌+◌, ◌-◌, ◌≤◌, ◌<◌, ◌≡◌, Bool, false, some, refl, arith}
use libpaxos.Base.{List, [], ◌∷◌, ◌++◌, append_assoc, append-nil, length-append}
use libpaxos.Base.{length}
use libpaxos.Config.{leader_max_queue_length}
use libpaxos.Values.{Value, Values, vh_enqueue_value, vh_get_next_pending, vh_push_back_value}
use libpaxos.Values.{vh_notify_client, notify_all, vh_shutdown}

-- The counter is the length of the list.
pub record IsQueue (vh : Values) : Type 0 where
  pub counted : vh.vh_list_size ≡ length vh.vh_list

pub vh_push_back_value-IsQueue :
    (vw : Value) (vh : Values) → IsQueue vh → IsQueue (vh_push_back_value vw vh)
unfolding vh_push_back_value
vh_push_back_value-IsQueue vw vh q = ground arith

-- A value is appended while the list holds at most LEADER_MAX_QUEUE_LENGTH values, so that it may
-- come to hold one more, and is dropped and counted otherwise; the counter stays right.
pub vh_enqueue_value_lem :
    (value : Value) (vh : Values)
    → IsQueue vh
    → IsQueue (vh_enqueue_value value vh)
      × (length vh.vh_list ≤ leader_max_queue_length
          → (vh_enqueue_value value vh).vh_list ≡ vh.vh_list ++ value ∷ [])
      × (leader_max_queue_length < length vh.vh_list
          → ((vh_enqueue_value value vh).vh_list ≡ vh.vh_list)
            × ((vh_enqueue_value value vh).dropped_count ≡ vh.dropped_count + 1))
unfolding vh_enqueue_value
vh_enqueue_value_lem value vh q = enqueue vh.vh_list vh refl q
  where
    enqueue :
        (l : List Value) (vh : Values)
        → vh.vh_list ≡ l
        → IsQueue vh
        → IsQueue (vh_enqueue_value value vh)
          × (length vh.vh_list ≤ leader_max_queue_length
              → (vh_enqueue_value value vh).vh_list ≡ vh.vh_list ++ value ∷ [])
          × (leader_max_queue_length < length vh.vh_list
              → ((vh_enqueue_value value vh).vh_list ≡ vh.vh_list)
                × ((vh_enqueue_value value vh).dropped_count ≡ vh.dropped_count + 1))
    enqueue [] vh e q = (ground arith, λ h. ground arith, λ h. ground arith)
    enqueue (v ∷ vs) vh e q =
        (ground (arith, length-append vs (value ∷ [])), λ h. ground arith, λ h. ground arith)

-- Where the counter is right, what is pushed back to the front is the next value popped, and the
-- list is as before.
pub vh_get_next_pending-vh_push_back_value :
    (vw : Value) (vh : Values)
    → IsQueue vh
    → vh_get_next_pending (vh_push_back_value vw vh) ≡ (some vw, vh)
unfolding vh_get_next_pending vh_push_back_value
vh_get_next_pending-vh_push_back_value vw vh q = ground arith

-- Popping takes the oldest value, and keeps the counter right.
pub vh_get_next_pending-IsQueue : (vh : Values) → IsQueue vh → IsQueue (vh_get_next_pending vh).1
unfolding vh_get_next_pending
vh_get_next_pending-IsQueue vh q = ground arith

-- The notifications of a failure.
abbrev pub failures : List Value → List (Bool × Value)
failures [] = []
failures (v ∷ vs) = (false, v) ∷ failures vs

notify_all_lem :
    (l : List Value) (size dropped : ℕ) (done : List (Bool × Value))
    → size ≡ length l
    → notify_all
        (suc (length l))
        (record { vh_list = l; vh_list_size = size; dropped_count = dropped; notified = done })
      ≡ some (record {
        vh_list = [];
        vh_list_size = 0;
        dropped_count = dropped;
        notified = done ++ failures l;
      })
unfolding notify_all vh_get_next_pending vh_notify_client
notify_all_lem [] size dropped done e = rw (append-nil done) (rw e refl)
notify_all_lem (v ∷ vs) size dropped done e =
    rw (append_assoc done ((false, v) ∷ []) (failures vs)) at
      (notify_all_lem vs (size - 1) dropped (done ++ (false, v) ∷ []) (omega (arith, e)))

-- Where the counter is right, the leader's shutdown notifies the client of every pending value of a
-- failure, each once and in the order of the list, and the list is empty: the loop ends.
pub vh_shutdown_lem :
    (vh : Values)
    → IsQueue vh
    → vh_shutdown vh
      ≡ some (record vh {
        vh_list = [];
        vh_list_size = 0;
        notified = vh.notified ++ failures vh.vh_list;
      })
unfolding vh_shutdown
vh_shutdown_lem vh q =
    notify_all_lem vh.vh_list vh.vh_list_size vh.dropped_count vh.notified q.counted
