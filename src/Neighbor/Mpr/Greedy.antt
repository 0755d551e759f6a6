-- ===== src/Neighbor/Mpr/Greedy.antt =====
-- internal/olsr/neighbor.go: the rounds of the greedy loop of recalculateMPRs.
use olsr_go.Base.{
  ℕ, zero, suc, ◌+◌, ◌<◌, ◌≡◌, ◌≢◌, refl, sym, ap, ◌⊎◌, inl, inr, Bool, true, false, ◌||◌, some, [],
  ◌∷◌, length, ltb, nat_beq, Bool-cases, arith, Text, text_eq, ◌==◌,
}
use mathlib.Core.Path.{subst}
use olsr_go.Base.Int.{pos, negsuc, ltb_ℤ, int_eq}
use olsr_go.Base.Map.{GoMap, lookup, insert, keep, Entries, Entries-keep, insert-Entries}
use olsr_go.Neighbor.{NeighborTuple, TwoHops}
use olsr_go.Neighbor.Mpr.{
  Reach, holds, covered, uncovered, cover_count, Best, hops_count, consider, greedy_loop,
  select_greedy_mpr, greedy,
}

covered-insert :
    (k : Text) (mprs ones : GoMap Text Bool)
    → covered (insert k true mprs) ones ≡ (holds (lookup k ones) || covered mprs ones)
unfolding covered insert
covered-insert k [] ones = refl
covered-insert k ((j, b) ∷ mprs) ones = elim (Bool-cases (j == k)) [
  | inl same ↦
      let p : holds (lookup j ones) ≡ holds (lookup k ones) =
        ap (λ (a : Text). holds (lookup a ones)) ((text_eq.beq_iff j k).0 same) in
      rw same (ground arith)
  | inr other ↦ rw other (let ih = covered-insert k mprs ones in ground arith)
]

-- What a new MPR covers leaves the uncovered.
length-uncovered-insert :
    (k : Text) (mprs : GoMap Text Bool) (reach : Reach)
    → cover_count k (uncovered mprs reach) + length (uncovered (insert k true mprs) reach)
      ≡ length (uncovered mprs reach)
unfolding cover_count uncovered keep
length-uncovered-insert k mprs [] = omega arith
length-uncovered-insert k mprs ((two, ones) ∷ reach) =
    let ih = length-uncovered-insert k mprs reach in rw covered-insert (ground (arith, ih))

pub uncovered_none :
    (mprs : GoMap Text Bool) (reach : Reach)
    → length (uncovered mprs reach) ≡ 0
    → Entries (λ two ones. covered mprs ones ≡ true) reach
unfolding uncovered keep
uncovered_none mprs [] h = tt
uncovered_none mprs ((two, ones) ∷ reach) h = ground (arith, uncovered_none mprs reach)

module _ (P : Text → Type 0) (left : Reach) (links : GoMap Text TwoHops) where
  -- The best so far is real: a neighbour that covers something that is left.
  record IsReal (b : Best) : Type 0 where
    good : P b.one_hop
    covers : 0 < cover_count b.one_hop left
    counted : (c : ℕ) × (b.cover ≡ pos c)

  abbrev IsFound : Best → Type 0
  IsFound b = (b.cover ≡ negsuc 0) ⊎ IsReal b

  -- A round keeps the best so far, or takes the neighbour at hand.
  Takes : Text → Best → Type 0
  Takes ip b = (b.one_hop ≡ ip) × (0 < cover_count ip left) × (b.cover ≡ pos (cover_count ip left))

  consider_cases :
      (ip : Text) (n : NeighborTuple) (b : Best)
      → (consider links ip n (cover_count ip left) b ≡ b)
        ⊎ Takes ip (consider links ip n (cover_count ip left) b)
  unfolding consider Takes
  consider_cases ip n b =
      let count = cover_count ip left in
      elim (Bool-cases (nat_beq count 0)) [
        | inl none' ↦ rw none' (inl refl)
        | inr covers ↦
            let pos' : 0 < count = ground arith in
            rw covers (elim (Bool-cases (ltb_ℤ b.cover (pos count))) [
              | inl more ↦ rw more (inr (refl, pos', refl))
              | inr more ↦ rw more (elim (Bool-cases (int_eq.beq (pos count) b.cover)) [
                | inr tie ↦ rw tie (inl refl)
                | inl tie ↦
                    let same : b.cover ≡ pos count =
                      sym ((int_eq.beq_iff (pos count) b.cover).0 tie) in
                    rw tie (elim (Bool-cases (ltb b.will n.willingness)) [
                      | inl w ↦ rw w (inr (refl, pos', same))
                      | inr w ↦ rw w (elim (Bool-cases (nat_beq n.willingness b.will)) [
                        | inr v ↦ rw v (inl refl)
                        | inl v ↦
                            rw v
                              (elim (Bool-cases
                                (ltb (hops_count links b.one_hop) (hops_count links ip))) [
                                  | inl d ↦ rw d (inr (refl, pos', same))
                                  | inr d ↦ rw d (inl refl)
                                ])
                      ])
                    ])
              ])
            ])
      ]

  Takes-IsReal : (ip : Text) (b : Best) → P ip → Takes ip b → IsReal b
  unfolding Takes
  Takes-IsReal ip b p (e, h, c) = record {
    good = subst P (sym e) p;
    covers = rw e h;
    counted = (cover_count ip left, c);
  }

  consider-IsFound :
      (ip : Text) (n : NeighborTuple) (b : Best)
      → P ip
      → IsFound b
      → IsFound (consider links ip n (cover_count ip left) b)
  consider-IsFound ip n b p f = elim (consider_cases ip n b) [
    | inl same ↦ rw same f
    | inr t ↦ inr (Takes-IsReal ip _ p t)
  ]

  -- A neighbour that covers something is not passed over.
  consider_found :
      (ip : Text) (n : NeighborTuple) (b : Best)
      → P ip
      → 0 < cover_count ip left
      → IsFound b
      → IsReal (consider links ip n (cover_count ip left) b)
  consider_found ip n b p h (inr r) = elim (consider_cases ip n b) [
    | inl same ↦ rw same r
    | inr t ↦ Takes-IsReal ip _ p t
  ]
  consider_found ip n b p h (inl e) = Takes-IsReal ip _ p (
      unfold consider Takes in
      let q : ltb_ℤ b.cover (pos (cover_count ip left)) ≡ true = rw e (ground arith) in
      let z : nat_beq (cover_count ip left) 0 ≡ false = ground arith in rw (z, q) (refl, h, refl))

  Real-kept :
      (ip : Text) (n : NeighborTuple) (b : Best)
      → P ip
      → IsReal b
      → IsReal (consider links ip n (cover_count ip left) b)
  Real-kept ip n b p r = elim (consider_cases ip n b) [
    | inl same ↦ rw same r
    | inr t ↦ Takes-IsReal ip _ p t
  ]

  greedy_loop-IsReal :
      (sym' : GoMap Text NeighborTuple) (b : Best)
      → Entries (λ ip n. P ip) sym'
      → IsReal b
      → IsReal (greedy_loop links left sym' b)
  unfolding greedy_loop
  greedy_loop-IsReal [] b ps r = r
  greedy_loop-IsReal ((ip, n) ∷ rest) b (p, ps) r =
      greedy_loop-IsReal rest _ ps (Real-kept ip n b p r)

  -- If some neighbour covers something that is left, one that does is found.
  greedy_loop_found :
      (sym' : GoMap Text NeighborTuple) (b : Best) (one : Text) (n : NeighborTuple)
      → Entries (λ ip n. P ip) sym'
      → lookup one sym' ≡ some n
      → 0 < cover_count one left
      → IsFound b
      → IsReal (greedy_loop links left sym' b)
  unfolding greedy_loop lookup
  greedy_loop_found [] b one n ps q h f = absurd (cc)
  greedy_loop_found ((ip, m) ∷ rest) b one n (p, ps) q h f = elim (Bool-cases (ip == one)) [
    | inl same ↦
        let e : ip ≡ one = (text_eq.beq_iff ip one).0 same in
        greedy_loop-IsReal rest _ ps (consider_found ip m b p (rw e h) f)
    | inr other ↦ greedy_loop_found rest _ one n ps (rw other at q) h (consider-IsFound ip m b p f)
  ]

  select_found :
      (sym' : GoMap Text NeighborTuple) (one : Text) (n : NeighborTuple)
      → Entries (λ ip n. P ip) sym'
      → lookup one sym' ≡ some n
      → 0 < cover_count one left
      → P (select_greedy_mpr links sym' left)
        × (0 < cover_count (select_greedy_mpr links sym' left) left)
  unfolding select_greedy_mpr
  select_found sym' one n ps q h =
      let r =
        greedy_loop_found sym' (record { one_hop = []; cover = negsuc 0; will = 0 }) one n ps q h
          (inl refl) in
      (r.good, r.covers)

-- A 2-hop neighbour has a way: a neighbour of the map `sym`.
abbrev pub HasWay : GoMap Text NeighborTuple → Text → GoMap Text Bool → Type 0
HasWay sym' two ones =
    (one : Text) × (n : NeighborTuple) × (lookup one ones ≡ some true) × (lookup one sym' ≡ some n)

-- A neighbour with a way to a 2-hop neighbour that is left.
left_way :
    (sym' : GoMap Text NeighborTuple) (left : Reach)
    → Entries (HasWay sym') left
    → nat_beq (length left) 0 ≡ false
    → (one : Text) × (n : NeighborTuple) × (lookup one sym' ≡ some n) × (0 < cover_count one left)
left_way sym' [] w h = absurd (cc)
left_way sym' ((two, ones) ∷ left) ((one, n, e, q), w) h =
    (one, n, q, unfold cover_count in rw e (omega arith))

module _ (P : Text → Type 0) (links : GoMap Text TwoHops) (sym' : GoMap Text NeighborTuple)
    (reach : Reach) (good : Entries (λ ip n. P ip × (ip ≢ [])) sym')
    (ways : Entries (HasWay sym') reach) where
  -- With fuel above the number of the uncovered, all are covered in the end, by good neighbours.
  pub greedy_covers :
      (fuel : ℕ) (mprs : GoMap Text Bool)
      → Entries (λ ip b. P ip) mprs
      → length (uncovered mprs reach) < fuel
      → (mprs' : GoMap Text Bool) × (greedy fuel links sym' reach mprs ≡ some mprs')
        × Entries (λ ip b. P ip) mprs'
        × Entries (λ two ones. covered mprs' ones ≡ true) reach
  unfolding greedy
  greedy_covers zero mprs ps enough = absurd (omega arith)
  greedy_covers (suc fuel) mprs ps enough =
      let left = uncovered mprs reach in
      let best = select_greedy_mpr links sym' left in
      elim (Bool-cases (nat_beq (length left) 0)) [
        | inl done ↦ (mprs, rw done, ps, uncovered_none mprs reach (ground arith))
        | inr more ↦
            let (one, n, q, c) =
              left_way sym' left (unfold uncovered in Entries-keep _ _ reach ways) more in
            let ((p, named), covers) =
              select_found (λ ip. P ip × (ip ≢ [])) left links sym' one n good q c in
            let found : (best == []) ≡ false = elim (Bool-cases (best == [])) [
              | inl e ↦ absurd (named ((text_eq.beq_iff best []).0 e))
              | inr e ↦ e
            ] in
            let fewer = length-uncovered-insert best mprs reach in
            let (mprs', e, ps', all) =
              greedy_covers fuel (insert best true mprs)
                (insert-Entries (λ ip b. P ip) best true mprs p ps) (omega arith) in
            (mprs', rw (more, found) e, ps', all)
      ]
