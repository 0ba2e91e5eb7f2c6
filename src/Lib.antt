-- ===== src/Lib.antt =====
-- libpaxos2: a model of the library in lib/ and include/, and theorems about it.
--
-- The program. Clients send values to a leader, one of the proposers. The leader runs phase 1
-- (prepare requests, promises) ahead of need for a window of instances, assigns the values to the
-- instances that are ready, and sends accept requests (phase 2). The acceptors keep one record per
-- instance in stable storage, answer promises to the proposers, and send what they accept to the
-- learners. A learner delivers the values in the order of the instances, each once a quorum of
-- acceptors agrees, and asks the acceptors to repeat what it misses. All messages are batches in
-- UDP datagrams.
--
-- Files and code:
--   Base, Base/Tests, Base/Lists  Boolean tests, steps that may abort, lists with native lengths
--   Config      paxos_config.h and libpaxos.h: the constants
--   Messages    include/libpaxos_messages.h: the messages and their sizes (LP64)
--   SendBuf     lib/udp_sendbuf.c and lib/submit_handle.c. Batches: what is sent; Limits: sizes
--   Receiver    lib/udp_receiver.c: the checks on a datagram. Checks: what passes; Sockets: the
--               making and end of a receiver
--   Learner     lib/learner.c. Quorum and Votes: the test for a quorum; Ring and Invariant: the array
--               of records; Deliver, Handler and History: what is delivered; Dispatch: the datagrams
--               received; Holes: what is asked for again; Mixed: values of different ballots;
--               Startup: the thread of a learner and the caller that waits for it; Threads: what
--               they do together; Suspend: a learner that is suspended
--   Storage     lib/acceptor_stable_storage.c, over a database that is a parameter (Db). Laws: what
--               the code relies on (IsReliable): a read finds what was written last, and every call
--               succeeds; Memory: a database that does. Setup: opening and closing of the
--               files; Opening: what that does
--   Acceptor    lib/acceptor.c. Table: the specification, a table of records without storage, buffers
--               and transactions; Rounds: the frame of a handler; Prepare, Accept and Repeat: the
--               handlers and the specification; Ballots: what it says of the order of
--               ballots; Events and Serving: any sequence of events; Setup: the start and the end
--   Values      lib/proposer_values_handler.c, the pending values. Queue: the list as a queue
--   Proposer    lib/proposer.c and lib/proposer_leader.c. Timing: deadlines; Promises: the promises;
--               Phase1 and Phase2: the two phases; Leader: delivery, start and end of a leader;
--               Handlers: the events. Deadlines, Ballots, Choice, Assign, Window, Reign,
--               Opening, Promotion, Progress and Retry: the theorems on each. Accepts: the accept
--               requests of a whole reign; its Slots and Sending hold the invariant, Routines,
--               Requests and Reign keep it, Safety concludes. Sound: the assertions of a
--               leader and its counters; Count, Array and Changes hold the window of its
--               instances, First, Ahead, Second, New, Timeouts, Promise, Delivery and Change are its
--               routines, Life and Lives the events. Setup and Starting: the start with its calls
--   System      the parts together. Agreement: what two learners may deliver; Leading and
--               Delivery: a value from the client to a learner
--   Every Tests file has instances of the theorems of its part.
-- A definition has the name of its C function, and a part of a function a name of its own. The
-- static variables of a C file are the fields of a record; a write to one is an update of the
-- record.
--
-- Choices. `none` is a failed assertion, or the use of a NULL pointer. What is sent, delivered or
-- notified is recorded in lists, oldest first. Values are lists of bytes, and value_size their
-- number. Ballots and counters of 32 bits and instance numbers of 64 bits are native numbers, with
-- the wrap-around written where the code adds to them. The clock is a parameter, a value for each
-- reading. Loops are recursions on the rounds left, computed from the bounds as the code has them.
-- Three loops have fuel: that of lea_deliver_next_closed, one more than the records of the array,
-- since each round clears one; that of vh_shutdown, one more than the values pending, since each
-- round takes one; and that of leader_shutdown, one more than the instances open, which is enough
-- unless its 32-bit counter wraps around, where no fuel is enough. Whether a call for a timer or a
-- receiver succeeds is an argument of the event that makes it.
--
-- Not modelled: sockets but for the making and end of receivers, the running of timers, locks but
-- for those of the learner's start, memory, printing, the example programs and the scripts.
--
-- The reign of a leader is from its promotion to its step down. A later reign starts from the
-- first ballot again, so the theorem on the accept requests is about the first.
pub mod Base
pub mod Config
pub mod Messages
pub mod SendBuf
pub mod Learner
pub mod Receiver
pub mod Values
pub mod Proposer
pub mod Storage
pub mod Acceptor
pub mod System
