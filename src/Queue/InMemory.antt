-- ===== src/Queue/InMemory.antt =====
-- internal/queue/queue.go: the channel-backed queue, its producers and its consumer's goroutine as a
-- step relation. Go's `select` takes any case that is ready, and so may a step here.
use mathlib.Core.List.{append_assoc, append-nil}
use go_attend.Common.{
  ℕ, ◌≤◌, ◌<◌, ◌≡◌, refl, Bool, true, false, List, [], ◌∷◌, ◌++◌, Option, none, some, arith, length,
  length-append, Option-cases, inl, inr, ◌∙◌, ap, sym,
}
use go_attend.Queue.{Message}

-- `buffer` is what q.ch holds. `held` is the message that the goroutine has received and not sent on,
-- `delivered` what the worker has had from `out`. `accepted` lists the messages whose Publish has
-- returned nil, and stands in no variable of the program.
pub record InMemory : Type 0 where
  pub size : ℕ
  pub buffer : List Message
  pub held : Option Message
  pub delivered : List Message
  pub cancelled : Bool
  pub closed : Bool
  pub accepted : List Message

unfoldable pub new_in_memory : ℕ → InMemory
new_in_memory size = record {
  size = size;
  buffer = [];
  held = none;
  delivered = [];
  cancelled = false;
  closed = false;
  accepted = [];
}

pub data Step (q : InMemory) : InMemory → Type 0 where
  -- case q.ch <- msg, with room in the buffer
  publish :
      (msg : Message)
      → length q.buffer < q.size
      → Step q (record q { buffer = q.buffer ++ msg ∷ []; accepted = q.accepted ++ msg ∷ [] })
  -- the same, where the goroutine waits at an empty channel
  hand_over :
      (msg : Message)
      → q.buffer ≡ []
      → q.held ≡ none
      → q.closed ≡ false
      → Step q (record q { held = some msg; accepted = q.accepted ++ msg ∷ [] })
  -- case msg := <-q.ch
  receive :
      (msg : Message) (rest : List Message)
      → q.buffer ≡ msg ∷ rest
      → q.held ≡ none
      → q.closed ≡ false
      → Step q (record q { buffer = rest; held = some msg })
  -- out <- msg
  deliver :
      (msg : Message)
      → q.held ≡ some msg
      → Step q (record q { held = none; delivered = q.delivered ++ msg ∷ [] })
  -- the consumer's context is done
  cancel : Step q (record q { cancelled = true })
  -- case <-ctx.Done(): return
  finish :
      q.cancelled ≡ true → q.held ≡ none → q.closed ≡ false → Step q (record q { closed = true })

pub data Reach (s : InMemory) : InMemory → Type 0 where
  here : Reach s s
  next : {t u : InMemory} → Reach s t → Step t u → Reach s u

abbrev pub held_list : Option Message → List Message
held_list none = []
held_list (some msg) = msg ∷ []

-- The buffer is never over its size; what was accepted was delivered, is held or is buffered, in the
-- order in which it was accepted; and a closed `out` has nothing on its way.
pub record IsOrdered (q : InMemory) : Type 0 where
  pub fits : length q.buffer ≤ q.size
  pub order : q.accepted ≡ q.delivered ++ held_list q.held ++ q.buffer
  pub idle : q.closed ≡ true → q.held ≡ none

Step-IsOrdered : {q q' : InMemory} → Step q q' → IsOrdered q → IsOrdered q'
Step-IsOrdered {q} (publish msg room) h = record {
  fits = omega (arith, length-append q.buffer (msg ∷ []));
  order = rw h.order (append_assoc (q.delivered ++ held_list q.held) q.buffer (msg ∷ []));
  idle = h.idle;
}
Step-IsOrdered {q} (hand_over msg empty free open_) h = record {
  fits = h.fits;
  order = rw h.order (rw (empty, free) (simp (append-nil)));
  idle = λ e. cc;
}
Step-IsOrdered {q} (receive msg rest e free open_) h = record {
  fits = omega (arith, h.fits, ap length e);
  order = rw h.order (rw (e, free) (simp (append-nil, append_assoc)));
  idle = λ c. cc;
}
Step-IsOrdered {q} (deliver msg e) h = record {
  fits = h.fits;
  order = rw h.order (rw e (simp (append-nil, append_assoc)));
  idle = λ c. refl;
}
Step-IsOrdered {q} cancel h = record { fits = h.fits; order = h.order; idle = h.idle }
Step-IsOrdered {q} (finish c free open_) h = record {
  fits = h.fits;
  order = h.order;
  idle = λ _. free;
}

IsOrdered-Reach : {s q : InMemory} → Reach s q → IsOrdered s → IsOrdered q
IsOrdered-Reach here h = h
IsOrdered-Reach (next r st) h = Step-IsOrdered st (IsOrdered-Reach r h)

new_in_memory-IsOrdered : (size : ℕ) → IsOrdered (new_in_memory size)
unfolding new_in_memory
new_in_memory-IsOrdered size = record { fits = omega arith; order = refl; idle = λ _. refl }

-- In every state that a new queue can reach, the buffer is within its size, a closed `out` has no
-- message on its way, and the accepted messages are those delivered, held and buffered, in order.
pub Reach-IsOrdered : (size : ℕ) (q : InMemory) → Reach (new_in_memory size) q → IsOrdered q
Reach-IsOrdered size q r = IsOrdered-Reach r (new_in_memory-IsOrdered size)

-- A state that `s` reaches with nothing on its way, and with the messages accepted so far.
record Emptied (s : InMemory) (accepted : List Message) : Type 0 where
  q : InMemory
  reached : Reach s q
  free : q.held ≡ none
  empty : q.buffer ≡ []
  same : q.accepted ≡ accepted

drain_from :
    (buffer : List Message) (s q : InMemory)
    → Reach s q
    → q.buffer ≡ buffer
    → q.held ≡ none
    → q.closed ≡ false
    → Emptied s q.accepted
drain_from [] s q r e free open_ = record {
  q = q;
  reached = r;
  free = free;
  empty = e;
  same = refl;
}
drain_from (msg ∷ rest) s q r e free open_ =
    let q1 : InMemory = record q { buffer = rest; held = some msg } in
    let q2 : InMemory = record q1 { held = none; delivered = q.delivered ++ msg ∷ [] } in
    drain_from rest s q2 (next (next r (receive msg rest e free open_)) (deliver msg refl)) refl
      refl open_

drain_all : (q : InMemory) → q.closed ≡ false → Emptied q q.accepted
drain_all q open_ = elim (Option-cases q.held) [
  | inl free ↦ drain_from q.buffer q q here refl free open_
  | inr (msg, e) ↦
      drain_from q.buffer q (record q { held = none; delivered = q.delivered ++ msg ∷ [] })
        (next here (deliver msg e)) refl refl open_
]

-- The queue never gets stuck: while `out` is open, a state that a new queue has reached can go on to
-- one that has accepted nothing more and has delivered all that was accepted, in order.
pub drains :
    (size : ℕ) (q : InMemory)
    → Reach (new_in_memory size) q
    → q.closed ≡ false
    → (q' : InMemory) × Reach q q' × (q'.delivered ≡ q.accepted)
drains size q r open_ =
    let done = drain_all q open_ in
    let h = IsOrdered-Reach done.reached (Reach-IsOrdered size q r) in
    (
      done.q,
      done.reached,
      sym (sym done.same ∙ h.order ∙ (rw (done.empty, done.free) (simp append-nil))),
    )
