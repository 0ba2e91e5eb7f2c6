-- ===== src/Learner/Threads.antt =====
-- lib/learner.c: what the caller of `learner_init` is told, and a signal that is lost.
use libpaxos.Base.{Bool, true, false, ◌≡◌, ◌≢◌, ◌↔◌, refl, sym, ◌∙◌, ap}
use libpaxos.Base.{if◌then◌else◌, inl, inr, Bool-cases, arith}
use libpaxos.Learner.Startup.{
  Ready, Calls, Caller, Startup, Step, Reach, starting, ready, error, before_lock, waiting, woken,
  returned, wait, signal, check, here, next, unasked, init_lea_network, init_lea_timers,
  init_lea_signal_ready, custom_fails, init_learner_thread, wake, check_status, created, begins,
  result_of,
}

-- The variable is what was signalled, if anything was, and so is what is returned.
abbrev IsHonest : Ready → Startup → Type 0
IsHonest outcome s =
    (s.learner_ready ≡ (if s.signalled then outcome else starting))
    × ((r : Ready) → s.caller ≡ returned r → r ≡ outcome)

wake-returned : (c : Caller) (r : Ready) → wake c ≡ returned r → c ≡ returned r
wake-returned before_lock r h = h
wake-returned waiting r h = absurd (cc)
wake-returned woken r h = h
wake-returned (returned x) r h = h

check_status-returned : (x r : Ready) → check_status x ≡ returned r → x ≡ r
check_status-returned starting r h = absurd (cc)
check_status-returned ready r h = cc
check_status-returned error r h = cc

Step-IsHonest :
    (outcome : Ready)
    → outcome ≢ starting
    → {s u : Startup} → Step outcome s u
    → IsHonest outcome s
    → IsHonest outcome u
Step-IsHonest outcome n (wait s e) (v, p) = (v, λ r h. absurd (cc))
Step-IsHonest outcome n (signal s e) (v, p) = (refl, λ r h. p r (wake-returned s.caller r h))
Step-IsHonest outcome n (check s e) (v, p) = (
  v,
  λ r h.
      let same = check_status-returned s.learner_ready r h in
      elim (Bool-cases s.signalled) [
        | inl yet ↦ let k : s.learner_ready ≡ outcome = rw yet at v in sym same ∙ k
        | inr never ↦
            let k : s.learner_ready ≡ starting = rw never at v in
            absurd (let q : returned r ≡ waiting = sym h ∙ ap check_status k in cc)
      ],
)

Reach-IsHonest :
    (outcome : Ready)
    → outcome ≢ starting
    → {s : Startup} → Reach outcome created s
    → IsHonest outcome s
Reach-IsHonest outcome n here = (refl, λ r h. absurd (cc))
Reach-IsHonest outcome n (next r st) = Step-IsHonest outcome n st (Reach-IsHonest outcome n r)
Reach-IsHonest outcome n (unasked r e) = ((Reach-IsHonest outcome n r).0, λ x h. absurd (cc))

-- What is returned behind a wait is what the thread has signalled.
pub returned_lem :
    (outcome : Ready)
    → outcome ≢ starting
    → {s : Startup} → Reach outcome created s
    → (r : Ready) → s.caller ≡ returned r
    → r ≡ outcome
returned_lem outcome n reach r e = (Reach-IsHonest outcome n reach).1 r e

-- Without a thread, nothing happens.
Reach-idle : (outcome : Ready) {s : Startup} → Reach outcome (begins false) s → s ≡ begins false
Reach-idle outcome here = refl
Reach-idle outcome (next reach (wait t e)) =
    absurd (let k = sym (ap (λ u. u.caller) (Reach-idle outcome reach)) ∙ e in cc)
Reach-idle outcome (next reach (signal t e)) =
    absurd (let k = sym (ap (λ u. u.signalled) (Reach-idle outcome reach)) ∙ e in cc)
Reach-idle outcome (next reach (check t e)) =
    absurd (let k = sym (ap (λ u. u.caller) (Reach-idle outcome reach)) ∙ e in cc)
Reach-idle outcome (unasked {t = t} reach e) =
    absurd (let k = sym (ap (λ u. u.caller) (Reach-idle outcome reach)) ∙ e in cc)

-- All that the start of a learner needs.
abbrev pub AllSucceed : Bool → Calls → Type 0
AllSucceed has_delfun c =
    (has_delfun ≡ true)
    × (c.event_init ≡ true)
    × (c.sender ≡ true)
    × (c.receiver ≡ true)
    × (c.hole_timer ≡ true)
    × (custom_fails c.custom_init ≡ false)
    × (c.ready_timer ≡ true)

pub init_learner_thread_lem :
    (has_delfun : Bool) (c : Calls)
    → (init_learner_thread has_delfun c ≢ starting)
      × (AllSucceed has_delfun c → init_learner_thread has_delfun c ≡ ready)
      × (init_learner_thread has_delfun c ≡ ready → AllSucceed has_delfun c)
unfolding init_learner_thread init_lea_network init_lea_timers init_lea_signal_ready
init_learner_thread_lem has_delfun c = (λ h. ground arith, λ h. ground arith, λ h. ground arith)

-- Whatever the two threads do in turn, and however often a wait ends unasked: if `learner_init`
-- returns, it returns 0 exactly when its thread is made, there is a deliver function and every call
-- of the start whose result is looked at has succeeded; that of `event_add` for the event of the
-- receiver is not.
pub learner_init_lem :
    (thread_made has_delfun : Bool) (c : Calls) (s : Startup) (r : Ready)
    → Reach (init_learner_thread has_delfun c) (begins thread_made) s
    → s.caller ≡ returned r
    → (result_of r ≡ true) ↔ (thread_made ≡ true) × AllSucceed has_delfun c
learner_init_lem true has_delfun c s r reach e =
    let (n, to, from) = init_learner_thread_lem has_delfun c in
    let same = returned_lem (init_learner_thread has_delfun c) n reach r e in
    (
      λ h. (refl, from (sym same ∙ result_ready r (λ q. n (sym same ∙ q)) h)),
      λ (_, h). rw (same, to h) refl,
    )
  where
    result_ready : (r : Ready) → r ≢ starting → result_of r ≡ true → r ≡ ready
    result_ready starting n h = absurd (n refl)
    result_ready ready n h = refl
    result_ready error n h = absurd (cc)
learner_init_lem false has_delfun c s r reach e =
    let idle = ap (λ u. u.caller) (Reach-idle (init_learner_thread has_delfun c) reach) in
    let same : returned error ≡ returned r = sym idle ∙ e in
    let at : r ≡ error = cc in
    (λ h. absurd (let no : false ≡ true = rw at at h in cc), λ (h, _). absurd (cc))

stuck :
    (outcome : Ready) (s u : Startup) → s.caller ≡ waiting → s.signalled ≡ true → ¬ Step outcome s u
stuck outcome s u e f (wait _ h) = absurd (let k = sym e ∙ h in cc)
stuck outcome s u e f (signal _ h) = absurd (let k = sym f ∙ h in cc)
stuck outcome s u e f (check _ h) = absurd (let k = sym e ∙ h in cc)

settled : (outcome : Ready) → outcome ≢ starting → check_status outcome ≡ returned outcome
settled starting n = absurd (n refl)
settled ready n = refl
settled error n = refl

-- The wait does not look at the variable first. If the thread signals before the caller waits, the
-- signal is lost: both threads are stuck, though the variable tells the outcome, and only a wait
-- that ends unasked can help. If the caller waits first, it can return the outcome.
pub startup_race :
    (outcome : Ready)
    → outcome ≢ starting
    → ((s : Startup) × Reach outcome created s
        × (s.learner_ready ≡ outcome)
        × (s.caller ≡ waiting)
        × ((u : Startup) → ¬ Step outcome s u))
      × ((s : Startup)
          → s.caller ≡ waiting
          → s.signalled ≡ false
          → (u : Startup) × Reach outcome s u × (u.caller ≡ returned outcome))
startup_race outcome n = (
  (
    record { caller = waiting; learner_ready = outcome; signalled = true },
    Reach.next (Reach.next Reach.here (signal created refl))
        (wait (record created { learner_ready = outcome; signalled = true }) refl),
    refl,
    refl,
    λ u.
        stuck outcome (record { caller = waiting; learner_ready = outcome; signalled = true }) u
          refl refl,
  ),
  λ s e f.
      let t : Startup = record s {
        learner_ready = outcome;
        signalled = true;
        caller = wake s.caller;
      } in
      (
        record t { caller = check_status outcome },
        Reach.next (Reach.next Reach.here (signal s f)) (check t (ap wake e)),
        settled outcome n,
      ),
)
