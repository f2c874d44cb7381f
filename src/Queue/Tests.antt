-- ===== src/Queue/Tests.antt =====
-- internal/queue/queue.go: the queues on concrete messages.
use mathlib.Core.List.{Sublistᴰ}
use go_attend.Common.{String, ◌≡◌, refl, true, false, none, List, [], ◌∷◌, ◌++◌, arith, ok, ap, ◌∙◌}
use go_attend.Queue.{
  Message, serialize, deserialize, Popped, reply, timeout, failed, RedisClient, RedisQueue,
  new_redis_queue, publish, consume,
}
use go_attend.Queue.Wire.{NoBar, deserialize-serialize}
use go_attend.Queue.Redis.{RedisLaws, pending, consume-pending_sublist, publish-consume}
use go_attend.Queue.InMemory.{
  InMemory, new_in_memory, Reach, here, next, publish as accept, IsOrdered, Reach-IsOrdered, drains,
}

-- The last element of a list, and the others.
split_last : {A : Type 0} → A → List A → List A × A
split_last x [] = ([], x)
split_last x (y ∷ l) = let (front, last) = split_last y l in (x ∷ front, last)

split_last_lem :
    {A : Type 0} (x : A) (l : List A) → x ∷ l ≡ (split_last x l).0 ++ (split_last x l).1 ∷ []
unfolding split_last
split_last_lem x [] = refl
split_last_lem x (y ∷ l) = ap (◌∷◌ x) (split_last_lem y l)

unfoldable pub pop : String → List String → List String × Popped
unfolding split_last
pop k [] = ([], timeout)
pop k (x ∷ l) = let (front, last) = split_last x l in (front, reply (k ∷ last ∷ []))

-- A server with one list, which never fails.
abbrev pub one_list : RedisClient
one_list = record { Server = List String; lpush = λ s k v. (v ∷ s, ok tt); brpop = λ s k. pop k s }

pub popped_reply :
    (s : List String) (k : String) (s' vs : List String)
    → pop k s ≡ (s', reply vs)
    → (v : String) × (vs ≡ k ∷ v ∷ []) × (s ≡ s' ++ v ∷ [])
unfolding pop
popped_reply [] k s' vs e = cc
popped_reply (x ∷ l) k s' vs e =
    let last = (split_last x l).1 in
    (
      last,
      cc,
      split_last_lem x l ∙ ap (λ f. f ++ last ∷ []) (ap (λ (p : List String × Popped). p.0) e),
    )

pub pop_timeout :
    (s : List String) (k : String) (s' : List String) → pop k s ≡ (s', timeout) → s' ≡ s
unfolding pop
pop_timeout [] k s' e = cc
pop_timeout (x ∷ l) k s' e = cc

pub pop_failed : (s : List String) (k : String) (s' : List String) → pop k s ≡ (s', failed) → ⊥
unfolding pop
pop_failed [] k s' e = cc
pop_failed (x ∷ l) k s' e = cc

pub pushed :
    (s : List String) (k v : String) (s' : List String)
    → one_list.lpush s k v ≡ (s', ok tt)
    → s' ≡ v ∷ s
pushed s k v s' e = cc

abbrev pub one_list_laws : RedisLaws one_list
one_list_laws = record {
  items = λ s k. s;
  lpush_ok = pushed;
  brpop_reply = popped_reply;
  brpop_timeout = pop_timeout;
  brpop_failed = λ s k s' e. absurd (pop_failed s k s' e);
}

abbrev checkin : String → Message
checkin id = record { type = "checkin"; body = id }

wire :
    (serialize (checkin "7|x") ≡ "checkin|7|x")
    × (deserialize "checkin|7|x" ≡ ok (checkin "7|x"))
    × (deserialize "no separator" ≡ ok (record { type = ""; body = "no separator" }))
    × (deserialize (serialize (record { type = "a|b"; body = "c" }))
        ≡ ok (record { type = "a"; body = "b|c" }))
unfolding serialize deserialize
wire = (refl, refl, refl, refl)

checkin-NoBar : NoBar "checkin"
checkin-NoBar = grind arith

deserialize-serialize_example : deserialize (serialize (checkin "7")) ≡ ok (checkin "7")
deserialize-serialize_example = deserialize-serialize (checkin "7") checkin-NoBar

abbrev q : RedisQueue
q = new_redis_queue ""

abbrev waiting : List String
waiting = "checkin|2" ∷ "checkin|1" ∷ []

-- Two messages come out in the order in which they went in, and the goroutine ends on an error.
consume_run :
    consume one_list q waiting (false ∷ false ∷ false ∷ []) ≡ ([], checkin "1" ∷ checkin "2" ∷ [])
unfolding consume pop deserialize
consume_run = refl

consume-pending_sublist_example :
    Sublistᴰ
      ((consume one_list q waiting (false ∷ true ∷ [])).1
        ++ pending one_list one_list_laws q (consume one_list q waiting (false ∷ true ∷ [])).0)
      (pending one_list one_list_laws q waiting)
consume-pending_sublist_example =
    consume-pending_sublist one_list one_list_laws q waiting (false ∷ true ∷ [])

published : publish one_list q waiting (checkin "3") ≡ ("checkin|3" ∷ waiting, ok tt)
unfolding publish
published = refl

calm : ((pop q.key ("checkin|3" ∷ waiting)).1 ≡ failed → ⊥) × Unit {0}
unfolding pop
calm = (λ e. cc, tt)

publish-consume_example :
    (consume one_list q ("checkin|3" ∷ waiting) (false ∷ [])).1
      ++ pending one_list one_list_laws q
          (consume one_list q ("checkin|3" ∷ waiting) (false ∷ [])).0
    ≡ pending one_list one_list_laws q waiting ++ checkin "3" ∷ []
publish-consume_example =
    publish-consume one_list one_list_laws q waiting ("checkin|3" ∷ waiting) (checkin "3")
      (false ∷ []) checkin-NoBar published calm

abbrev one_accepted : InMemory
one_accepted = record {
  size = 64;
  buffer = checkin "1" ∷ [];
  held = none;
  delivered = [];
  cancelled = false;
  closed = false;
  accepted = checkin "1" ∷ [];
}

one_accepted-Reach : Reach (new_in_memory 64) one_accepted
unfolding new_in_memory
one_accepted-Reach = next here (accept (checkin "1") (omega arith))

Reach-IsOrdered_example : IsOrdered one_accepted
Reach-IsOrdered_example = Reach-IsOrdered 64 one_accepted one_accepted-Reach

drains_example : (q' : InMemory) × Reach one_accepted q' × (q'.delivered ≡ checkin "1" ∷ [])
drains_example = drains 64 one_accepted one_accepted-Reach refl
