-- ===== src/Mroute/Vifs.antt =====
-- internal/mroute/mroute_linux.go: the numbering of the virtual interfaces.
use olsr_go.Base.{
  ℕ, ◌+◌, ◌<◌, ◌≤◌, ◌≡◌, refl, sym, ◌∙◌, inl, inr, ◌⊎◌, Bool, false, none, some, leb, arith,
  Bool-cases, Option-cases, ◌==◌, ==_refl,
}
use olsr_go.Base.Int.{ℤ, pos, negsuc, int_eq}
use olsr_go.Base.Map.{GoMap, lookup, insert, lookup-insert}
use olsr_go.Mroute.Kernel.{
  KernelRouter, KernelCall, add_vif, Registered, register_new, register_vif,
}

-- Each number that an interface has is in use, no two interfaces share one, and there are 32 at most.
pub record IsValid (r : KernelRouter) : Type 0 where
  pub in_use : (i : ℤ) (v : ℕ) → lookup i r.vif_map ≡ some v → v < r.next_vif
  pub distinct :
      (i j : ℤ) (v : ℕ) → lookup i r.vif_map ≡ some v → lookup j r.vif_map ≡ some v → i ≡ j
  pub capped : r.next_vif ≤ 32

-- The interfaces keep their numbers.
abbrev pub Grows : KernelRouter → KernelRouter → Type 0
Grows r s = (i : ℤ) (v : ℕ) → lookup i r.vif_map ≡ some v → lookup i s.vif_map ≡ some v

counted-IsValid :
    (r : KernelRouter)
    → IsValid r
    → leb 32 r.next_vif ≡ false
    → IsValid (record r { next_vif = r.next_vif + 1 })
counted-IsValid r h free = record {
  in_use = λ i v e. (let below = h.in_use i v e in omega arith);
  distinct = h.distinct;
  capped = ground (arith, free);
}

inserted_at :
    (i j : ℤ) (n v : ℕ) (m : GoMap ℤ ℕ)
    → lookup j (insert i n m) ≡ some v
    → ((i ≡ j) × (n ≡ v)) ⊎ (lookup j m ≡ some v)
inserted_at i j n v m e = elim (Bool-cases (i == j)) [
  | inl same ↦
      inl ((int_eq.beq_iff i j).0 same, (let f = rw (lookup-insert i j n m, same) at e in cc))
  | inr other ↦ inr (rw (lookup-insert i j n m, other) at e)
]

-- A number that was free is given to one more interface.
inserted-IsValid :
    (r : KernelRouter) (i : ℤ)
    → IsValid r
    → leb 32 r.next_vif ≡ false
    → IsValid (record r { vif_map = insert i r.next_vif r.vif_map; next_vif = r.next_vif + 1 })
inserted-IsValid r i h free = record {
  in_use = λ j v e. elim (inserted_at i j r.next_vif v r.vif_map e) [
    | inl (same, n) ↦ omega arith
    | inr old ↦ (let below = h.in_use j v old in omega arith)
  ];
  distinct = λ j k v e f. elim (inserted_at i j r.next_vif v r.vif_map e) [
    | inl (ij, n) ↦ elim (inserted_at i k r.next_vif v r.vif_map f) [
      | inl (ik, m) ↦ sym ij ∙ ik
      | inr old ↦ absurd (let below = h.in_use k v old in omega arith)
    ]
    | inr old ↦ elim (inserted_at i k r.next_vif v r.vif_map f) [
      | inl (ik, m) ↦ absurd (let below = h.in_use j v old in omega arith)
      | inr old' ↦ h.distinct j k v old old'
    ]
  ];
  capped = ground (arith, free);
}

inserted-Grows :
    (r : KernelRouter) (i : ℤ)
    → lookup i r.vif_map ≡ none
    → Grows r (record r { vif_map = insert i r.next_vif r.vif_map; next_vif = r.next_vif + 1 })
inserted-Grows r i unknown j v e = elim (Bool-cases (i == j)) [
  | inl same ↦
      let p : i ≡ j = (int_eq.beq_iff i j).0 same in
      absurd (let q : lookup i r.vif_map ≡ some v = rw p e in cc)
  | inr other ↦ rw (lookup-insert i j r.next_vif r.vif_map, other) e
]

-- What a registration leaves. An interface that has a number then has it in the table.
pub record IsRegistered (i : ℤ) (r : KernelRouter) (reg : Registered) : Type 0 where
  pub valid : IsValid reg.router
  pub grown : Grows r reg.router
  pub running : reg.router.started ≡ r.started
  pub has_vif : (v : ℕ) → reg.vif ≡ some v → (v < 32) × (lookup i reg.router.vif_map ≡ some v)

register_new-IsRegistered :
    (accepts : KernelCall → Bool) (i : ℤ) (r : KernelRouter)
    → IsValid r
    → leb 32 r.next_vif ≡ false
    → lookup i r.vif_map ≡ none
    → IsRegistered i r (register_new accepts i r.next_vif (record r { next_vif = r.next_vif + 1 }))
register_new-IsRegistered accepts (negsuc i) r h free unknown = record {
  valid = counted-IsValid r h free;
  grown = λ j v e. e;
  running = refl;
  has_vif = λ v e. cc;
}
register_new-IsRegistered accepts (pos i) r h free unknown =
    elim (Bool-cases (accepts (add_vif r.next_vif i))) [
      | inr refuses ↦ rw refuses (record {
        valid = counted-IsValid r h free;
        grown = λ j v e. e;
        running = refl;
        has_vif = λ v e. cc;
      })
      | inl takes ↦ rw takes (record {
        valid = inserted-IsValid r (pos i) h free;
        grown = inserted-Grows r (pos i) unknown;
        running = refl;
        has_vif = λ v e.
            (let n : r.next_vif ≡ v = cc in
              (
                ground (arith, free, n),
                lookup-insert (pos i) (pos i) r.next_vif r.vif_map ∙ rw (==_refl (pos i), n) refl,
              ));
      })
    ]

pub register_vif-IsRegistered :
    (accepts : KernelCall → Bool) (i : ℤ) (r : KernelRouter)
    → IsValid r
    → IsRegistered i r (register_vif accepts i r)
unfolding register_vif
register_vif-IsRegistered accepts i r h = elim (Option-cases (lookup i r.vif_map)) [
  | inr (v, e) ↦
      rw (e, register_vif)
        (record {
          valid = h;
          grown = λ j w f. f;
          running = refl;
          has_vif = λ w f.
              (let q : v ≡ w = cc in
                let below = h.in_use i v e in let cap = h.capped in (omega arith, rw (← q) e));
        })
  | inl unknown ↦ elim (Bool-cases (leb 32 r.next_vif)) [
    | inl full ↦
        rw (unknown, register_vif)
          (rw full (record { valid = h; grown = λ j w f. f; running = refl; has_vif = λ v e. cc }))
    | inr free ↦
        rw (unknown, register_vif) (rw free (register_new-IsRegistered accepts i r h free unknown))
  ]
]
