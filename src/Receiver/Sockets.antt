-- ===== src/Receiver/Sockets.antt =====
-- lib/udp_receiver.c: the making and the end of a receiver. What a system call returns is a
-- parameter: whether the n-th call of the process succeeds. A receiver is its socket; that the
-- memory for it is there, and that `inet_addr` takes the address, are arguments or assumed.
use libpaxos.Base.{
  ℕ, ◌+◌, Bool, true, false, not, ◌&&◌, Option, none, some, List, [], ◌∷◌, ◌==◌, if◌then◌else◌, ◌≡◌,
  arith,
}

pub data SocketCall : Type 0 where
  socket set_reuse add_membership bind get_flags set_flags close : SocketCall

-- The sockets of the process: the number of calls made, the next descriptor, the open sockets, and
-- those that do not block.
pub record Sockets : Type 0 where
  pub calls : ℕ
  pub next_sock : ℕ
  pub live : List ℕ
  pub nonblocking : List ℕ

abbrev pub without : ℕ → List ℕ → List ℕ
without sock [] = []
without sock (x ∷ xs) = if x == sock then xs else x ∷ without sock xs

module _ (ok : ℕ → SocketCall → Bool) where
  -- A call; what follows a failed one is to return NULL.
  abbrev call : SocketCall → (Sockets → Option ℕ × Sockets) → Sockets → Option ℕ × Sockets
  call c rest s =
      if ok s.calls c
      then rest (record s { calls = s.calls + 1 })
      else (none, record s { calls = s.calls + 1 })

  unfoldable pub udp_receiver_blocking_new : Bool → Sockets → Option ℕ × Sockets
  udp_receiver_blocking_new valid_address = call socket (λ s.
      let sock = s.next_sock in
      call set_reuse
        (call add_membership
          (λ s'. if not valid_address then (none, s') else call bind (λ s''. (some sock, s'')) s'))
        (record s { next_sock = sock + 1; live = sock ∷ s.live }))

  unfoldable pub udp_receiver_new : Bool → Sockets → Option ℕ × Sockets
  udp_receiver_new valid_address s =
      let (rec, s') = udp_receiver_blocking_new valid_address s in
      elim rec [
        | none ↦ (none, s')
        | some sock ↦
            call get_flags
              (call set_flags (λ t. (some sock, record t { nonblocking = sock ∷ t.nonblocking })))
              s'
      ]

  -- Whether 0 is returned. A socket whose `close` fails is taken to be open still.
  unfoldable pub udp_receiver_destroy : ℕ → Sockets → Bool × Sockets
  udp_receiver_destroy sock s =
      if ok s.calls close
      then (true, record s { calls = s.calls + 1; live = without sock s.live })
      else (false, record s { calls = s.calls + 1 })

  -- All the calls that make a receiver succeed, from the n-th on.
  abbrev pub all_succeed : Bool → ℕ → Bool
  all_succeed valid_address n =
      ok n socket
      && ok (n + 1) set_reuse
      && ok (n + 1 + 1) add_membership
      && valid_address
      && ok (n + 1 + 1 + 1) bind
      && ok (n + 1 + 1 + 1 + 1) get_flags
      && ok (n + 1 + 1 + 1 + 1 + 1) set_flags

  -- A receiver is made exactly where all calls succeed, with a new socket that does not block.
  -- Where none is made although a socket was, that socket stays open.
  pub udp_receiver_new_lem :
      (valid_address : Bool) (s : Sockets)
      → let (rec, s') = udp_receiver_new valid_address s in
        (all_succeed valid_address s.calls ≡ true
          → (rec ≡ some s.next_sock)
            × (s'.live ≡ s.next_sock ∷ s.live)
            × (s'.nonblocking ≡ s.next_sock ∷ s.nonblocking))
        × (all_succeed valid_address s.calls ≡ false
            → (rec ≡ none)
              × (s'.live ≡ (if ok s.calls socket then s.next_sock ∷ s.live else s.live)))
  unfolding udp_receiver_new udp_receiver_blocking_new
  udp_receiver_new_lem valid_address s = ground arith
