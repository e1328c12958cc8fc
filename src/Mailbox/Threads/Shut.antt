-- ===== src/Mailbox/Threads/Shut.antt =====
-- What is left in a mailbox (sw/itc-common/src/itcMailbox.cc) that its owner shuts while other threads use
-- it.
use itc_platform.Common.{ℕ, ◌<◌, ◌≡◌, ◌≢◌, refl, ℕ_discrete, false}
use itc_platform.Common.Family.{update, update_self, update_ne}
use itc_platform.Queue.{Config}
use itc_platform.Queue.Slots.{IsConfig}
use itc_platform.Queue.Threads
use itc_platform.Queue.Threads.{
  Pc, idle, System, push_add, push_load, push_full, push_room, push_win, push_lose, store,
  store_wait, pop_add, pop_load, pop_empty, pop_more, pop_win, pop_lose, take, take_wait,
}
use itc_platform.Queue.Threads.Others.{Move-others}
use itc_platform.Queue.Threads.Drained.{drained}
use itc_platform.Common.Bags.{bag_of}
use mathlib.Core.Path.{subst}
use itc_platform.Mailbox.Threads.{
  Role, outside, sending, pushing, receiving, closing, Shared, IsEmpty, Move, refused, push_active,
  push_enter, push_return, pop_active, try_pop_active, pop_return, activate, unchanged, deactivate,
  drain_more, drain_end, inside, by, Reach, start, later,
}

-- A thread that is outside the mailbox, or about to push, is not in the queue.
abbrev Placed : Role → Pc → Type 0
Placed outside p = p ≡ idle
Placed (sending msg) p = p ≡ idle
Placed _ p = Unit

record IsShared (c : Config) (n : ℕ) (s : Shared) : Type 0 where
  queue : Threads.Reach c n s.queue
  placed : (j : ℕ) → Placed (s.role j) (s.queue.pc j)

Placed-step :
    (role role' : ℕ → Role) (pc pc' : ℕ → Pc) (i : ℕ)
    → ((j : ℕ) → i ≢ j → role' j ≡ role j)
    → ((j : ℕ) → i ≢ j → pc' j ≡ pc j)
    → Placed (role' i) (pc' i)
    → ((j : ℕ) → Placed (role j) (pc j))
    → (j : ℕ) → Placed (role' j) (pc' j)
Placed-step role role' pc pc' i same same' new old j = elim (ℕ_discrete i j) [
  | yes e ↦ subst (λ k. Placed (role' k) (pc' k)) e new
  | no ne ↦ rw (same j ne, same' j ne) (old j)
]

-- A thread inside the queue may stand anywhere in it.
Placed-inside : (r : Role) (p p' : Pc) → r ≢ outside → p ≢ idle → Placed r p → Placed r p'
Placed-inside outside p p' ne busy h = absurd (ne refl)
Placed-inside (sending msg) p p' ne busy h = absurd (busy h)
Placed-inside pushing p p' ne busy h = tt
Placed-inside receiving p p' ne busy h = tt
Placed-inside closing p p' ne busy h = tt

module _ {c : Config} {n : ℕ} {s : Shared} (h : IsShared c n s) (i : ℕ) where
  -- The thread takes another role.
  with_role :
      (r : Role) → Placed r (s.queue.pc i) → IsShared c n (record s { role = update s.role i r })
  with_role r new = record {
    queue = h.queue;
    placed =
        Placed-step s.role (update s.role i r) s.queue.pc s.queue.pc i (update_ne s.role i r)
          (λ j ne. refl) (rw (update_self s.role i r) new) h.placed;
  }

  -- The thread makes an access to the queue.
  with_queue :
      {q : System}
      → i < n
      → Threads.Move c s.queue i q
      → Placed (s.role i) (q.pc i)
      → IsShared c n (record s { queue = q })
  with_queue {q} lt m new = record {
    queue = Threads.later h.queue (Threads.by i lt m);
    placed =
        Placed-step s.role s.role s.queue.pc q.pc i (λ j ne. refl) (Move-others i m) new h.placed;
  }

  idle_outside : s.role i ≡ outside → s.queue.pc i ≡ idle
  idle_outside e = subst (λ r. Placed r (s.queue.pc i)) e (h.placed i)

  idle_sending : {msg : ℕ} → s.role i ≡ sending msg → s.queue.pc i ≡ idle
  idle_sending e = subst (λ r. Placed r (s.queue.pc i)) e (h.placed i)

-- One thread enters the queue and takes a role at once.
entered :
    {c : Config} {n : ℕ} {s : Shared} (i : ℕ) (r : Role) {q : System}
    → IsShared c n s
    → i < n
    → Threads.Move c s.queue i q
    → Placed r (s.queue.pc i)
    → Placed r (q.pc i)
    → IsShared c n (record s { queue = q; role = update s.role i r })
entered {s = s} i r {q = q} h lt m before after =
    with_queue (with_role h i r before) i lt m (rw (update_self s.role i r) after)

Move-IsShared :
    {c : Config} {n : ℕ} {s : Shared} (i : ℕ) {t : Shared}
    → i < n
    → Move c s i t
    → IsShared c n s
    → IsShared c n t
Move-IsShared i lt (refused e off) h = h
Move-IsShared i lt (push_active msg e on real) h = with_role h i (sending msg) (idle_outside h i e)
Move-IsShared i lt (push_enter e real) h =
    entered i pushing h lt (push_add _ (idle_sending h i e) real) tt tt
Move-IsShared i lt (push_return e free) h = with_role h i outside free
Move-IsShared i lt (pop_active e on) h =
    entered i receiving h lt (pop_add (idle_outside h i e)) tt tt
Move-IsShared i lt (try_pop_active e on) h =
    entered i receiving h lt (pop_load (idle_outside h i e)) tt tt
Move-IsShared i lt (pop_return e free) h = with_role h i outside free
Move-IsShared i lt (activate e off) h = record { queue = h.queue; placed = h.placed }
Move-IsShared i lt (unchanged e) h = h
Move-IsShared {s = s} i lt (deactivate e on) h =
    let h' : IsShared _ _ (record s { is_active = false }) = record {
      queue = h.queue;
      placed = h.placed;
    } in
    with_role h' i closing tt
Move-IsShared i lt (drain_more e free more) h = with_queue h i lt (pop_load free) (rw e tt)
Move-IsShared i lt (drain_end e free none_left) h = with_role h i outside free
Move-IsShared {s = s} i lt (inside {q} out busy m) h =
    with_queue h i lt m (Placed-inside (s.role i) (s.queue.pc i) (q.pc i) out busy (h.placed i))

Reach-IsShared : {c : Config} {n : ℕ} {s : Shared} → Reach c n s → IsShared c n s
Reach-IsShared start = record { queue = Threads.start; placed = λ j. refl }
Reach-IsShared (later r (by i lt m)) = Move-IsShared i lt m (Reach-IsShared r)

-- However the accesses interleave, in a valid configuration: when the owner of a mailbox finds it empty
-- at the end of the loop that shuts it, and every other thread is outside the mailbox, then the messages
-- that have been handed out, to a receiver or to be deallocated, are as a bag the messages that were
-- accepted: each of them as often as it was pushed.
pub shut_leaves_none :
    {c : Config}
    → IsConfig c
    → {n : ℕ} {s : Shared} (owner : ℕ) → Reach c n s
    → s.role owner ≡ closing
    → s.queue.pc owner ≡ idle
    → IsEmpty s.queue
    → ((j : ℕ) → j < n → owner ≢ j → s.role j ≡ outside)
    → bag_of s.queue.accepted ≡ bag_of s.queue.popped
shut_leaves_none v {n = n} {s = s} owner r shuts free none_left others =
    let h = Reach-IsShared r in
    drained v h.queue
      (λ j lt. elim (ℕ_discrete owner j) [
        | yes e ↦ subst (λ k. s.queue.pc k ≡ idle) e free
        | no ne ↦ idle_outside h j (others j lt ne)
      ])
      none_left
