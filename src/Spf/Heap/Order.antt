-- ===== src/Spf/Heap/Order.antt =====
-- The order of the heap, which the loops of container/heap restore.
use olsr_go.Base.{
  ℕ, zero, suc, ◌+◌, ◌*◌, ◌≤◌, ◌<◌, ◌≡◌, ◌≢◌, refl, ◌∙◌, inl, inr, not, ◌||◌, leb, nat_beq,
  Bool-cases, arith,
}
use olsr_go.Spf.Heap.{
  Item, Slots, PriorityQueue, less, swap, put, parent, up, lower_child, down, heap_push, heap_pop,
}

abbrev key : Slots → ℕ → ℕ
key a k = (a k).priority

-- No item has a lower priority value than its parent.
abbrev pub IsHeap : ℕ → Slots → Type 0
IsHeap n a = (c : ℕ) → 0 < c → c < n → key a (parent c) ≤ key a c

-- Only the edge above j may be out of order.
record IsHeapButUp (n : ℕ) (a : Slots) (j : ℕ) : Type 0 where
  edges : (c : ℕ) → 0 < c → c < n → c ≢ j → key a (parent c) ≤ key a c
  across : (c : ℕ) → 0 < c → c < n → parent c ≡ j → 0 < j → key a (parent j) ≤ key a c

up-IsHeap :
    (fuel n : ℕ) (a : Slots) (j : ℕ) → j < fuel → j < n → IsHeapButUp n a j → IsHeap n (up fuel a j)
unfolding up
up-IsHeap zero n a j enough inside h = absurd (omega arith)
up-IsHeap (suc fuel) n a j enough inside h =
    elim (Bool-cases (nat_beq (parent j) j || not (less a j (parent j)))) [
      | inl stops ↦ rw stops (λ c p q. elim (Bool-cases (nat_beq c j)) [
        | inl here ↦ (let e : c ≡ j = ground arith in rw e (ground arith))
        | inr there ↦ ground (arith, h.edges c)
      ])
      | inr rises ↦ rw rises (
          up-IsHeap fuel n (swap (parent j) j a) (parent j) (ground arith) (ground arith) (record {
            edges = λ c p q r. ground (arith, h.edges c, h.edges j, h.across c);
            across = λ c p q r s. ground (arith, h.edges c, h.edges (parent j));
          }))
    ]

-- Only the edges below i may be out of order.
record IsHeapButDown (n : ℕ) (a : Slots) (i : ℕ) : Type 0 where
  edges : (c : ℕ) → 0 < c → c < n → parent c ≢ i → key a (parent c) ≤ key a c
  across : (c : ℕ) → 0 < c → c < n → parent c ≡ i → 0 < i → key a (parent i) ≤ key a c

pub lower_child-lt : (n : ℕ) (a : Slots) (i : ℕ) → 2 * i + 1 < n → lower_child n a i < n
lower_child-lt n a i h = ground arith

lower_child-le : (n : ℕ) (a : Slots) (i : ℕ) → 2 * i + 1 ≤ lower_child n a i
lower_child-le n a i = ground arith

parent-lower_child : (n : ℕ) (a : Slots) (i : ℕ) → parent (lower_child n a i) ≡ i
parent-lower_child n a i = ground arith

lower_child_least :
    (n : ℕ) (a : Slots) (i c : ℕ)
    → 0 < c
    → c < n
    → parent c ≡ i
    → key a (lower_child n a i) ≤ key a c
lower_child_least n a i c p q r = elim (Bool-cases (nat_beq c (2 * i + 1))) [
  | inl left ↦ (let e : c ≡ 2 * i + 1 = ground arith in rw e (ground arith))
  | inr right ↦ (let e : c ≡ 2 * i + 2 = ground arith in rw e (ground arith))
]

swap-IsHeapButDown :
    (n : ℕ) (a : Slots) (i j : ℕ)
    → IsHeapButDown n a i
    → 0 < j
    → j < n
    → parent j ≡ i
    → ((c : ℕ) → 0 < c → c < n → parent c ≡ i → key a j ≤ key a c)
    → key a j < key a i
    → IsHeapButDown n (swap i j a) j
swap-IsHeapButDown n a i j h pos inside child least below = record {
  edges = λ c p q r. ground (arith, h.edges c, h.across c, h.across j, least c);
  across = λ c p q r s. ground (arith, h.edges c);
}

down-IsHeap :
    (fuel n : ℕ) (a : Slots) (i : ℕ)
    → n < fuel + i
    → IsHeapButDown n a i
    → IsHeap n (down fuel n a i)
unfolding down
down-IsHeap zero n a i enough h = λ c p q. ground (arith, h.edges c)
down-IsHeap (suc fuel) n a i enough h = elim (Bool-cases (leb n (2 * i + 1))) [
  | inl bottom ↦ rw bottom (λ c p q. ground (arith, h.edges c))
  | inr within ↦ rw within (
      let j = lower_child n a i in
      let inside : j < n = lower_child-lt n a i (ground arith) in
      let low : 2 * i + 1 ≤ j = lower_child-le n a i in
      let above : parent j ≡ i = parent-lower_child n a i in
      elim (Bool-cases (not (less a j i))) [
        | inl stops ↦ rw stops (λ c p q. elim (Bool-cases (nat_beq (parent c) i)) [
          | inl here ↦
              let e : parent c ≡ i = ground arith in
              let least = lower_child_least n a i c p q e in rw e (ground arith)
          | inr there ↦ ground (arith, h.edges c)
        ])
        | inr sinks ↦ rw sinks (
            down-IsHeap fuel n (swap i j a) j (omega arith) (
              swap-IsHeapButDown n a i j h (omega arith) inside above (lower_child_least n a i)
                (ground arith)))
      ])
]

down_above : (fuel n : ℕ) (a : Slots) (i k : ℕ) → n ≤ k → down fuel n a i k ≡ a k
unfolding down
down_above zero n a i k h = refl
down_above (suc fuel) n a i k h = elim (Bool-cases (leb n (2 * i + 1))) [
  | inl bottom ↦ rw bottom
  | inr within ↦ rw within (
      let j = lower_child n a i in
      let inside : j < n = lower_child-lt n a i (ground arith) in
      elim (Bool-cases (not (less a j i))) [
        | inl stops ↦ rw stops
        | inr sinks ↦ rw sinks (down_above fuel n (swap i j a) j k h ∙ ground arith)
      ])
]

root_least :
    (bound n : ℕ) (a : Slots) → IsHeap n a → (k : ℕ) → k < n → k ≤ bound → key a 0 ≤ key a k
root_least zero n a h k inside le = (let e : k ≡ 0 = omega arith in rw e (omega arith))
root_least (suc bound) n a h k inside le = elim (Bool-cases (nat_beq k 0)) [
  | inl root ↦ (let e : k ≡ 0 = ground arith in rw e (omega arith))
  | inr other ↦
      let up' : key a 0 ≤ key a (parent k) =
        root_least bound n a h (parent k) (omega arith) (ground arith) in
      let edge : key a (parent k) ≤ key a k = h k (ground arith) inside in omega arith
]

pub heap_push-IsHeap :
    (it : Item) (q : PriorityQueue)
    → IsHeap q.size q.slots
    → IsHeap (heap_push it q).size (heap_push it q).slots
unfolding heap_push
heap_push-IsHeap it q h =
    up-IsHeap (suc q.size) (suc q.size) (put q.size it q.slots) q.size (omega arith) (omega arith)
      (record {
        edges = λ c p r s. ground (arith, h c);
        across = λ c p r s t. absurd (omega arith);
      })

pub heap_pop-IsHeap : (n : ℕ) (a : Slots) → IsHeap (suc n) a → IsHeap n (heap_pop n a).1.slots
unfolding heap_pop
heap_pop-IsHeap n a h =
    down-IsHeap (suc n) n (swap 0 n a) 0 (omega arith) (record {
      edges = λ c p q r. ground (arith, h c);
      across = λ c p q r s. absurd (omega arith);
    })

pub heap_pop_root : (n : ℕ) (a : Slots) → (heap_pop n a).0 ≡ a 0
unfolding heap_pop
heap_pop_root n a = down_above (suc n) n (swap 0 n a) 0 n (omega arith) ∙ ground arith

-- Pop takes an item with the least priority value of a queue in heap order.
pub heap_pop_least :
    (n : ℕ) (a : Slots)
    → IsHeap (suc n) a
    → (k : ℕ) → k < suc n
    → (heap_pop n a).0.priority ≤ (a k).priority
heap_pop_least n a h k inside = rw heap_pop_root (root_least n (suc n) a h k inside (omega arith))
