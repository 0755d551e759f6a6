-- ===== src/Molsr/Oifs.antt =====
-- internal/olsr/molsr.go: the outgoing interfaces that the loop over the children finds.
use olsr_go.Base.{
  ℕ, ◌+◌, ◌≡◌, refl, sym, ap, ◌∙◌, inl, inr, Bool, true, false, not, ◌&&◌, ◌||◌, none, some, List,
  [], ◌∷◌, ◌++◌, if◌then◌else◌, Bool-cases, Option-cases, arith, Text, text_eq, ◌==◌,
}
use olsr_go.Base.Int.{ℤ, int_eq}
use olsr_go.Base.Map.{GoMap, lookup, insert, lookup-insert}
use olsr_go.Neighbor.Mpr.{holds}
use olsr_go.Molsr.{ConfirmParentEntry}
use olsr_go.Molsr.Mroutes.{NextHop, find_oifs}

-- How often an interface stands in a list.
unfoldable pub count : ℤ → List ℤ → ℕ
count v [] = 0
count v (w ∷ ws) = (if w == v then 1 else 0) + count v ws

-- The way to some child leads over the interface.
unfoldable pub leads : NextHop → ℤ → GoMap Text ConfirmParentEntry → Bool
leads next_hop v [] = false
leads next_hop v ((child, entry) ∷ children) =
    let others = leads next_hop v children in
    elim (next_hop child) [ none ↦ others | some (hop, index) ↦ (index == v) || others ]

count_append :
    (v w : ℤ) (ws : List ℤ) → count v (ws ++ w ∷ []) ≡ count v ws + (if w == v then 1 else 0)
unfolding count
count_append v w [] = omega arith
count_append v w (u ∷ us) = let ih = count_append v w us in omega (arith, ih)

-- The marks are on the interfaces that are listed, each of which is listed once.
abbrev IsMarked : GoMap ℤ Bool → List ℤ → Type 0
IsMarked seen oifs = (v : ℤ) → count v oifs ≡ (if holds (lookup v seen) then 1 else 0)

abbrev one_if : Bool → ℕ
one_if b = if b then 1 else 0

-- An interface that is new is marked and listed.
IsMarked-append :
    (index : ℤ) (seen : GoMap ℤ Bool) (oifs : List ℤ)
    → holds (lookup index seen) ≡ false
    → IsMarked seen oifs
    → IsMarked (insert index true seen) (oifs ++ index ∷ [])
IsMarked-append index seen oifs unseen marked w = elim (Bool-cases (index == w)) [
  | inl same ↦
      let p : index ≡ w = (int_eq.beq_iff index w).0 same in
      let unmarked : holds (lookup w seen) ≡ false =
        ap (λ x. holds (lookup x seen)) (sym p) ∙ unseen in
      rw (count_append, lookup-insert) (rw (same, marked w) (rw unmarked refl))
  | inr other ↦ rw (count_append, lookup-insert) (rw (other, marked w) (omega arith))
]

holds-insert :
    (index v : ℤ) (seen : GoMap ℤ Bool)
    → holds (lookup v (insert index true seen)) ≡ ((index == v) || holds (lookup v seen))
holds-insert index v seen = elim (Bool-cases (index == v)) [
  | inl same ↦ rw lookup-insert (rw same refl)
  | inr other ↦ rw lookup-insert (rw other refl)
]

-- The index of one more child, where it was new and where it was not.
one_more_new :
    (index v iif : ℤ) (seen : GoMap ℤ Bool) (others : Bool)
    → (not (holds (lookup index seen)) && not (index == iif)) ≡ true
    → (((index == v) || holds (lookup v seen)) || (not (v == iif) && others))
      ≡ (holds (lookup v seen) || (not (v == iif) && ((index == v) || others)))
one_more_new index v iif seen others fresh = elim (Bool-cases (index == v)) [
  | inl same ↦
      let p : index ≡ v = (int_eq.beq_iff index v).0 same in
      let q : (v == iif) ≡ (index == iif) = ap (λ x. x == iif) (sym p) in
      rw (same, q) (ground (arith, fresh))
  | inr other ↦ rw other refl
]

one_more_old :
    (index v iif : ℤ) (seen : GoMap ℤ Bool) (others : Bool)
    → (not (holds (lookup index seen)) && not (index == iif)) ≡ false
    → (holds (lookup v seen) || (not (v == iif) && others))
      ≡ (holds (lookup v seen) || (not (v == iif) && ((index == v) || others)))
one_more_old index v iif seen others old = elim (Bool-cases (index == v)) [
  | inl same ↦
      let p : index ≡ v = (int_eq.beq_iff index v).0 same in
      let q : (v == iif) ≡ (index == iif) = ap (λ x. x == iif) (sym p) in
      let r : holds (lookup v seen) ≡ holds (lookup index seen) =
        ap (λ x. holds (lookup x seen)) (sym p) in
      rw (same, q, r) (ground (arith, old))
  | inr other ↦ rw other refl
]

pub count-find_oifs :
    (next_hop : NextHop) (iif : ℤ) (children : GoMap Text ConfirmParentEntry) (seen : GoMap ℤ Bool)
    (oifs : List ℤ)
    → IsMarked seen oifs
    → (v : ℤ)
    → count v (find_oifs next_hop iif children seen oifs)
      ≡ (if holds (lookup v seen) || (not (v == iif) && leads next_hop v children) then 1 else 0)
unfolding find_oifs leads
count-find_oifs next_hop iif [] seen oifs marked v = ground (arith, marked v)
count-find_oifs next_hop iif ((child, entry) ∷ rest) seen oifs marked v =
    elim (Option-cases (next_hop child)) [
      | inl lost ↦
          rw (lost, find_oifs)
            (rw (lost, leads) (count-find_oifs next_hop iif rest seen oifs marked v))
      | inr ((hop, index), e) ↦
          rw (e, find_oifs)
            (rw (e, leads)
              (elim (Bool-cases (not (holds (lookup index seen)) && not (index == iif))) [
                | inl fresh ↦
                    let unseen : holds (lookup index seen) ≡ false = ground (arith, fresh) in
                    let marked' = IsMarked-append index seen oifs unseen marked in
                    rw fresh (
                      count-find_oifs next_hop iif rest (insert index true seen)
                        (oifs ++ index ∷ []) marked' v
                      ∙ rw holds-insert
                          (ap one_if (one_more_new index v iif seen (leads next_hop v rest) fresh)))
                | inr old ↦ rw old (
                    count-find_oifs next_hop iif rest seen oifs marked v
                    ∙ ap one_if (one_more_old index v iif seen (leads next_hop v rest) old))
              ]))
    ]
