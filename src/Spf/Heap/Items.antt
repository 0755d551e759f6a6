-- ===== src/Spf/Heap/Items.antt =====
-- Which items stand in the queue: the loops of container/heap only swap them.
use mathlib.Core.Logic.{◌↔◌}
use olsr_go.Base.{
  ℕ, zero, suc, ◌+◌, ◌*◌, ◌≤◌, ◌<◌, ◌≡◌, ◌⊎◌, ap, ◌∙◌, inl, inr, true, false, not, ◌||◌, leb,
  nat_beq, Bool-cases, arith,
}
use olsr_go.Spf.Heap.{
  Item, Slots, PriorityQueue, less, swap, put, parent, up, lower_child, down, heap_push, heap_pop,
}
use olsr_go.Spf.Heap.Order.{lower_child-lt}

-- The item stands among the first n.
abbrev pub Stands : ℕ → Slots → Item → Type 0
Stands n a it = (k : ℕ) × (k < n) × (a k ≡ it)

swap-Stands :
    (n : ℕ) (a : Slots) (i j : ℕ) (it : Item)
    → i < n
    → j < n
    → Stands n a it
    → Stands n (swap i j a) it
swap-Stands n a i j it hi hj (k, inside, e) = elim (Bool-cases (nat_beq k i)) [
  | inl first ↦ (j, hj, ground (arith, ap a))
  | inr other ↦ elim (Bool-cases (nat_beq k j)) [
    | inl second ↦ (i, hi, ground (arith, ap a))
    | inr neither ↦ (k, inside, rw (other, neither) e)
  ]
]

swap_back-Stands :
    (n : ℕ) (a : Slots) (i j : ℕ) (it : Item)
    → i < n
    → j < n
    → Stands n (swap i j a) it
    → Stands n a it
swap_back-Stands n a i j it hi hj (k, inside, e) = elim (Bool-cases (nat_beq k i)) [
  | inl first ↦ (j, hj, rw first at e)
  | inr other ↦ elim (Bool-cases (nat_beq k j)) [
    | inl second ↦ (i, hi, rw (other, second) at e)
    | inr neither ↦ (k, inside, rw (other, neither) at e)
  ]
]

up-Stands :
    (fuel n : ℕ) (a : Slots) (j : ℕ) (it : Item) → j < n → Stands n a it ↔ Stands n (up fuel a j) it
unfolding up
up-Stands zero n a j it inside = (λ s. s, λ s. s)
up-Stands (suc fuel) n a j it inside =
    elim (Bool-cases (nat_beq (parent j) j || not (less a j (parent j)))) [
      | inl stops ↦ rw stops (λ s. s, λ s. s)
      | inr rises ↦ rw rises (
          let above : parent j < n = ground arith in
          let rest = up-Stands fuel n (swap (parent j) j a) (parent j) it above in
          (
            λ s. rest.0 (swap-Stands n a (parent j) j it above inside s),
            λ s. swap_back-Stands n a (parent j) j it above inside (rest.1 s),
          ))
    ]

down-Stands :
    (fuel m n : ℕ) (a : Slots) (i : ℕ) (it : Item)
    → m ≤ n
    → Stands n a it ↔ Stands n (down fuel m a i) it
unfolding down
down-Stands zero m n a i it le = (λ s. s, λ s. s)
down-Stands (suc fuel) m n a i it le = elim (Bool-cases (leb m (2 * i + 1))) [
  | inl bottom ↦ rw bottom (λ s. s, λ s. s)
  | inr within ↦ rw within (
      let j = lower_child m a i in
      let inside : j < m = lower_child-lt m a i (ground arith) in
      let hi : i < n = ground arith in
      let hj : j < n = omega arith in
      elim (Bool-cases (not (less a j i))) [
        | inl stops ↦ rw stops (λ s. s, λ s. s)
        | inr sinks ↦ rw sinks (
            let rest = down-Stands fuel m n (swap i j a) j it le in
            (
              λ s. rest.0 (swap-Stands n a i j it hi hj s),
              λ s. swap_back-Stands n a i j it hi hj (rest.1 s),
            ))
      ])
]

put-Stands :
    (n : ℕ) (a : Slots) (x it : Item) → Stands (suc n) (put n x a) it ↔ (Stands n a it ⊎ (x ≡ it))
put-Stands n a x it = (
  λ (k, inside, e). elim (Bool-cases (nat_beq k n)) [
    | inl last ↦ inr (rw last at e)
    | inr other ↦ inl (k, ground arith, rw other at e)
  ],
  λ s. elim s [
    | inl (k, inside, e) ↦
        (k, omega arith, (let other : nat_beq k n ≡ false = ground arith in rw other e))
    | inr e ↦ (n, omega arith, (let same : nat_beq n n ≡ true = ground arith in rw same e))
  ],
)

-- Push adds its item and no other.
pub heap_push-Stands :
    (x it : Item) (q : PriorityQueue)
    → Stands (heap_push x q).size (heap_push x q).slots it ↔ (Stands q.size q.slots it ⊎ (x ≡ it))
unfolding heap_push
heap_push-Stands x it q =
    let put' = put-Stands q.size q.slots x it in
    let up' = up-Stands (suc q.size) (suc q.size) (put q.size x q.slots) q.size it (omega arith) in
    (λ s. put'.0 (up'.1 s), λ s. up'.0 (put'.1 s))

-- Every item but the one that Pop takes stays.
pub heap_pop-Stands :
    (n : ℕ) (a : Slots) (it : Item)
    → Stands (suc n) a it
    → ((heap_pop n a).0 ≡ it) ⊎ Stands n (heap_pop n a).1.slots it
unfolding heap_pop
heap_pop-Stands n a it s =
    let (k, inside, e) =
      (down-Stands (suc n) n (suc n) (swap 0 n a) 0 it (omega arith)).0
        (swap-Stands (suc n) a 0 n it (omega arith) (omega arith) s) in
    elim (Bool-cases (nat_beq k n)) [
      | inl last ↦ inl (let p : n ≡ k = ground arith in ap (down (suc n) n (swap 0 n a) 0) p ∙ e)
      | inr other ↦ inr (k, ground arith, e)
    ]

-- Pop leaves no item that was not there.
pub heap_pop_kept-Stands :
    (n : ℕ) (a : Slots) (it : Item) → Stands n (heap_pop n a).1.slots it → Stands (suc n) a it
unfolding heap_pop
heap_pop_kept-Stands n a it (k, inside, e) =
    swap_back-Stands (suc n) a 0 n it (omega arith) (omega arith)
      ((down-Stands (suc n) n (suc n) (swap 0 n a) 0 it (omega arith)).1 (k, omega arith, e))
