-- ===== src/Neighbor/Mpr/Reach.antt =====
-- internal/olsr/neighbor.go: the entries of buildTwoHopNeighborsMap, against the 2-hop table.
use olsr_go.Base.{
  ◌≡◌, refl, ap, ◌∙◌, inl, inr, Bool, true, false, ◌&&◌, some, [], ◌∷◌, if◌then◌else◌, Bool-cases,
  Option-cases, ==_refl, arith, Text, text_eq, ◌==◌,
}
use mathlib.Core.Path.{subst₂}
use olsr_go.Base.Map.{GoMap, lookup, insert, lookup-insert, Entries, insert-Entries, Entries-lookup}
use olsr_go.Net.{Time}
use olsr_go.Neighbor.{NeighborTuple, TwoHops}
use olsr_go.Neighbor.Mpr.{
  Reach, holds, or_empty, add_reach, skipped, add_two_hops, is_symmetric, build_reach,
}
use olsr_go.Neighbor.Mpr.Greedy.{HasWay}

-- A 2-hop neighbour has a way, and all its ways are neighbours of the map `sym`.
pub record IsReached (sym' : GoMap Text NeighborTuple) (two : Text) (ones : GoMap Text Bool)
    : Type 0 where
  pub way : HasWay sym' two ones
  pub known : Entries (λ one b. (n : NeighborTuple) × (lookup one sym' ≡ some n)) ones

-- reach[two][one], a missing key reading as false
abbrev pub reaches : Text → Text → Reach → Bool
reaches one two m = holds (lookup one (or_empty (lookup two m)))

holds_if :
    (b : Bool) (ones : GoMap Text Bool) (o : Text)
    → holds (if b then some true else lookup o ones) ≡ (if b then true else holds (lookup o ones))
holds_if true ones o = refl
holds_if false ones o = refl

reaches-add_reach :
    (two one t o : Text) (m : Reach)
    → reaches o t (add_reach two one m) ≡ (if two == t && one == o then true else reaches o t m)
unfolding add_reach
reaches-add_reach two one t o m =
    rw (lookup-insert, or_empty)
      (elim (Bool-cases (two == t)) [
        | inr other ↦ rw other
        | inl same ↦
            let p : lookup two m ≡ lookup t m =
              ap (λ (a : Text). lookup a m) ((text_eq.beq_iff two t).0 same) in
            rw (same, p) (rw lookup-insert (holds_if (one == o) (or_empty (lookup t m)) o))
      ])

module _ (Fact : Text → Text → Type 0) where
  -- Whatever the map holds is a fact.
  abbrev pub IsSound : Reach → Type 0
  IsSound m = (o t : Text) → reaches o t m ≡ true → Fact o t

  add_reach-IsSound :
      (two one : Text) (m : Reach) → Fact one two → IsSound m → IsSound (add_reach two one m)
  add_reach-IsSound two one m f s o t h =
      let h' = rw reaches-add_reach at h in
      elim (Bool-cases (two == t && one == o)) [
        | inl both ↦
            let p : two ≡ t = ground (arith, text_eq.beq_iff two t) in
            let q : one ≡ o = ground (arith, text_eq.beq_iff one o) in subst₂ Fact q p f
        | inr not_both ↦ s o t (rw not_both at h')
      ]

  add_two_hops-IsSound :
      (now : Time) (sym' : GoMap Text NeighborTuple) (one : Text) (hops : TwoHops) (m : Reach)
      → Entries (λ two exp. skipped now sym' two exp ≡ false → Fact one two) hops
      → IsSound m
      → IsSound (add_two_hops now sym' one hops m)
  unfolding add_two_hops
  add_two_hops-IsSound now sym' one [] m f s = s
  add_two_hops-IsSound now sym' one ((two, exp) ∷ rest) m (f, fs) s =
      add_two_hops-IsSound now sym' one rest _ fs (elim (Bool-cases (skipped now sym' two exp)) [
        | inl skip ↦ rw skip s
        | inr go ↦ rw go (add_reach-IsSound two one m (f go) s)
      ])

  pub build_reach-IsSound :
      (now : Time) (sym' : GoMap Text NeighborTuple) (links : GoMap Text TwoHops) (m : Reach)
      → Entries
          (λ one hops.
            is_symmetric (lookup one sym') ≡ true
            → Entries (λ two exp. skipped now sym' two exp ≡ false → Fact one two) hops)
          links
      → IsSound m
      → IsSound (build_reach now sym' links m)
  unfolding build_reach
  build_reach-IsSound now sym' [] m f s = s
  build_reach-IsSound now sym' ((one, hops) ∷ rest) m (f, fs) s =
      build_reach-IsSound now sym' rest _ fs (elim (Bool-cases (is_symmetric (lookup one sym'))) [
        | inl y ↦ rw y (add_two_hops-IsSound now sym' one hops m (f y) s)
        | inr n ↦ rw n s
      ])

-- Completeness: what is in the tables gets into the map, and stays.
module _ (now : Time) (sym' : GoMap Text NeighborTuple) where
  add_two_hops_keeps :
      (one : Text) (hops : TwoHops) (m : Reach) (o t : Text)
      → reaches o t m ≡ true
      → reaches o t (add_two_hops now sym' one hops m) ≡ true
  unfolding add_two_hops
  add_two_hops_keeps one [] m o t h = h
  add_two_hops_keeps one ((two, exp) ∷ rest) m o t h =
      add_two_hops_keeps one rest _ o t (elim (Bool-cases (skipped now sym' two exp)) [
        | inl skip ↦ rw skip h
        | inr go ↦ rw go (rw (reaches-add_reach two one t o m) (ground arith))
      ])

  add_two_hops_adds :
      (one two : Text) (exp : Time) (hops : TwoHops) (m : Reach)
      → lookup two hops ≡ some exp
      → skipped now sym' two exp ≡ false
      → reaches one two (add_two_hops now sym' one hops m) ≡ true
  unfolding add_two_hops lookup
  add_two_hops_adds one two exp [] m q s = absurd (cc)
  add_two_hops_adds one two exp ((t, x) ∷ rest) m q s = elim (Bool-cases (t == two)) [
    | inl same ↦
        let p : t ≡ two = (text_eq.beq_iff t two).0 same in
        let r : x ≡ exp = ground arith in
        rw (p, r, s)
          (add_two_hops_keeps one rest _ one two
            (reaches-add_reach two one two one m ∙ rw (==_refl two, ==_refl one)))
    | inr other ↦ add_two_hops_adds one two exp rest _ (rw other at q) s
  ]

  build_reach_keeps :
      (links : GoMap Text TwoHops) (m : Reach) (o t : Text)
      → reaches o t m ≡ true
      → reaches o t (build_reach now sym' links m) ≡ true
  unfolding build_reach
  build_reach_keeps [] m o t h = h
  build_reach_keeps ((one, hops) ∷ rest) m o t h =
      build_reach_keeps rest _ o t (elim (Bool-cases (is_symmetric (lookup one sym'))) [
        | inl y ↦ rw y (add_two_hops_keeps one hops m o t h)
        | inr n ↦ rw n h
      ])

  pub build_reach_adds :
      (one two : Text) (exp : Time) (hops : TwoHops) (links : GoMap Text TwoHops) (m : Reach)
      → is_symmetric (lookup one sym') ≡ true
      → lookup one links ≡ some hops
      → lookup two hops ≡ some exp
      → skipped now sym' two exp ≡ false
      → reaches one two (build_reach now sym' links m) ≡ true
  unfolding build_reach lookup
  build_reach_adds one two exp hops [] m y q r s = absurd (cc)
  build_reach_adds one two exp hops ((o, hs) ∷ rest) m y q r s = elim (Bool-cases (o == one)) [
    | inl same ↦
        let p : o ≡ one = (text_eq.beq_iff o one).0 same in
        let e : hs ≡ hops = ground arith in
        rw (p, e, y) (build_reach_keeps rest _ one two (add_two_hops_adds one two exp hops m r s))
    | inr other ↦ build_reach_adds one two exp hops rest _ y (rw other at q) r s
  ]

  known_before :
      (two : Text) (m : Reach)
      → Entries (IsReached sym') m
      → Entries
          (λ one b. (n : NeighborTuple) × (lookup one sym' ≡ some n))
          (or_empty (lookup two m))
  known_before two m h = elim (Option-cases (lookup two m)) [
    | inl e ↦ rw e tt
    | inr (ones, e) ↦ rw e (Entries-lookup (IsReached sym') two ones m h e).known
  ]

  add_reach-IsReached :
      (two one : Text) (n : NeighborTuple) (m : Reach)
      → lookup one sym' ≡ some n
      → Entries (IsReached sym') m
      → Entries (IsReached sym') (add_reach two one m)
  unfolding add_reach
  add_reach-IsReached two one n m q h =
      let ones = or_empty (lookup two m) in
      insert-Entries (IsReached sym') two (insert one true ones) m
        (record {
          way = (one, n, lookup-insert one one true ones ∙ rw ==_refl, q);
          known = insert-Entries _ one true ones (n, q) (known_before two m h);
        })
        h

  add_two_hops-IsReached :
      (one : Text) (n : NeighborTuple) (hops : TwoHops) (m : Reach)
      → lookup one sym' ≡ some n
      → Entries (IsReached sym') m
      → Entries (IsReached sym') (add_two_hops now sym' one hops m)
  unfolding add_two_hops
  add_two_hops-IsReached one n [] m q h = h
  add_two_hops-IsReached one n ((two, exp) ∷ rest) m q h =
      add_two_hops-IsReached one n rest _ q (elim (Bool-cases (skipped now sym' two exp)) [
        | inl skip ↦ rw skip h
        | inr go ↦ rw go (add_reach-IsReached two one n m q h)
      ])

  pub build_reach-IsReached :
      (links : GoMap Text TwoHops) (m : Reach)
      → Entries (IsReached sym') m
      → Entries (IsReached sym') (build_reach now sym' links m)
  unfolding build_reach
  build_reach-IsReached [] m h = h
  build_reach-IsReached ((one, hops) ∷ rest) m h =
      build_reach-IsReached rest _ (elim (Option-cases (lookup one sym')) [
        | inl e ↦ rw e h
        | inr (n, e) ↦ rw e (elim (Bool-cases n.symmetric) [
          | inl y ↦ rw y (add_two_hops-IsReached one n hops m e h)
          | inr no' ↦ rw no' h
        ])
      ])
