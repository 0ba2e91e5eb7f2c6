-- ===== src/Values/Tests.antt =====
-- Instances of the theorems about the pending list.
use libpaxos.Base.{◌+◌, ◌≤◌, ◌<◌, ◌≡◌, some, [], ◌∷◌, ◌++◌, refl}
use libpaxos.Config.{leader_max_queue_length}
use libpaxos.Values.{Values, vh_enqueue_value, vh_get_next_pending, vh_push_back_value}
use libpaxos.Values.{vh_shutdown}
use libpaxos.Values.Queue.{IsQueue, vh_enqueue_value_lem, vh_shutdown_lem, failures}
use libpaxos.Values.Queue.{vh_get_next_pending-vh_push_back_value}

abbrev two_values : Values
two_values = record {
  vh_list = (1 ∷ []) ∷ (2 ∷ []) ∷ [];
  vh_list_size = 2;
  dropped_count = 0;
  notified = [];
}

two_values-IsQueue : IsQueue two_values
two_values-IsQueue = record { counted = refl }

vh_enqueue_value_lem_example :
    IsQueue (vh_enqueue_value (3 ∷ []) two_values)
    × (2 ≤ leader_max_queue_length
        → (vh_enqueue_value (3 ∷ []) two_values).vh_list ≡ two_values.vh_list ++ (3 ∷ []) ∷ [])
    × (leader_max_queue_length < 2
        → ((vh_enqueue_value (3 ∷ []) two_values).vh_list ≡ two_values.vh_list)
          × ((vh_enqueue_value (3 ∷ []) two_values).dropped_count ≡ 0 + 1))
vh_enqueue_value_lem_example = vh_enqueue_value_lem (3 ∷ []) two_values two_values-IsQueue

vh_get_next_pending-vh_push_back_value_example :
    vh_get_next_pending (vh_push_back_value (9 ∷ []) two_values) ≡ (some (9 ∷ []), two_values)
vh_get_next_pending-vh_push_back_value_example =
    vh_get_next_pending-vh_push_back_value (9 ∷ []) two_values two_values-IsQueue

vh_shutdown_lem_example :
    vh_shutdown two_values
    ≡ some (record two_values {
      vh_list = [];
      vh_list_size = 0;
      notified = [] ++ failures two_values.vh_list;
    })
vh_shutdown_lem_example = vh_shutdown_lem two_values two_values-IsQueue
