-- ===== src/Config.antt =====
-- The constants of paxos_config.h and libpaxos.h that the modelled code reads.
use libpaxos.Base.{ℕ, ◌+◌, ◌-◌, ◌/◌, ◌^◌}

-- `ballot_t` is an `unsigned int`, `iid_t` an `unsigned long` (64 bits).
abbrev pub u32_mod : ℕ
u32_mod = 2 ^ 32

abbrev pub u64_mod : ℕ
u64_mod = 2 ^ 64

abbrev pub preexec_win_size : ℕ
preexec_win_size = 300

abbrev pub p2_concurrency : ℕ
p2_concurrency = 3

abbrev pub p1_timeout_interval : ℕ
p1_timeout_interval = 30000

abbrev pub p2_timeout_interval : ℕ
p2_timeout_interval = 35000

abbrev pub max_n_of_proposers : ℕ
max_n_of_proposers = 10

abbrev pub n_of_acceptors : ℕ
n_of_acceptors = 3

-- `(int)(N_OF_ACCEPTORS/2) + 1`
abbrev pub quorum : ℕ
quorum = n_of_acceptors / 2 + 1

abbrev pub leader_max_queue_length : ℕ
leader_max_queue_length = 50

abbrev pub max_udp_msg_size : ℕ
max_udp_msg_size = 7500

abbrev pub paxos_max_value_size : ℕ
paxos_max_value_size = max_udp_msg_size - 40

abbrev pub proposer_array_size : ℕ
proposer_array_size = 2048

abbrev pub learner_array_size : ℕ
learner_array_size = 2048
