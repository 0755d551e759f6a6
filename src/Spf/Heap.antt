-- ===== src/Spf/Heap.antt =====
-- internal/olsr/spf.go: the priority queue, with the `up`, `down`, `Push` and `Pop` of container/heap
-- that work on it through its methods. The queue is a slice: a length, and what stands at each
-- index. An item's own index is written by the methods and never read, and is left out.
pub mod Order
pub mod Items
use olsr_go.Base.{
  ℕ, zero, suc, ◌+◌, ◌-◌, ◌*◌, ◌/◌, Bool, not, ◌&&◌, ◌||◌, Option, none, some, ltb, leb, nat_beq,
  if◌then◌else◌, Text, List, [],
}

pub record Item : Type 0 where
  pub value : Text
  pub priority : ℕ

abbrev pub Slots : Type 0
Slots = ℕ → Item

pub record PriorityQueue : Type 0 where
  pub size : ℕ
  pub slots : Slots

abbrev pub empty_queue : PriorityQueue
empty_queue = record { size = 0; slots = λ k. record { value = []; priority = 0 } }

abbrev pub less : Slots → ℕ → ℕ → Bool
less a i j = ltb (a i).priority (a j).priority

abbrev pub swap : ℕ → ℕ → Slots → Slots
swap i j a k = if nat_beq k i then a j else if nat_beq k j then a i else a k

-- *pq = append(*pq, it), on a queue of n items
abbrev pub put : ℕ → Item → Slots → Slots
put n it a k = if nat_beq k n then it else a k

abbrev pub parent : ℕ → ℕ
parent j = (j - 1) / 2

-- The loops of container/heap, on fuel.
unfoldable pub up : ℕ → Slots → ℕ → Slots
up zero a j = a
up (suc fuel) a j =
    let rest = up fuel (swap (parent j) j a) (parent j) in
    if nat_beq (parent j) j || not (less a j (parent j)) then a else rest

-- The child of i with the lower priority, among the first n.
abbrev pub lower_child : ℕ → Slots → ℕ → ℕ
lower_child n a i =
    if ltb (2 * i + 2) n && less a (2 * i + 2) (2 * i + 1) then 2 * i + 2 else 2 * i + 1

unfoldable pub down : ℕ → ℕ → Slots → ℕ → Slots
down zero n a i = a
down (suc fuel) n a i =
    let j = lower_child n a i in
    let rest = down fuel n (swap i j a) j in
    if leb n (2 * i + 1) then a else if not (less a j i) then a else rest

-- heap.Push
unfoldable pub heap_push : Item → PriorityQueue → PriorityQueue
unfolding up
heap_push it q = record {
  size = suc q.size;
  slots = up (suc q.size) (put q.size it q.slots) q.size;
}

-- heap.Pop on a queue of n + 1 items: the last one and the others, after the swap and the loop.
unfoldable pub heap_pop : ℕ → Slots → Item × PriorityQueue
unfolding down
heap_pop n a = let b = down (suc n) n (swap 0 n a) 0 in (b n, record { size = n; slots = b })
