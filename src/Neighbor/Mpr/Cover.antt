-- ===== src/Neighbor/Mpr/Cover.antt =====
-- internal/olsr/neighbor.go: the MPR set that recalculateMPRs makes, against the tables.
use olsr_go.Base.{
  suc, ◌≤◌, ◌≡◌, ◌≢◌, refl, sym, ◌∙◌, inl, inr, Bool, true, false, not, Option, none, some, [], ◌∷◌,
  length, nat_beq, Bool-cases, Option-cases, ==_refl, arith, Text, text_eq, ◌==◌,
}
use olsr_go.Base.Map.{
  GoMap, lookup, kept, IsMap, Entries, Entries-map, Entries-keep, Entries-lookup, insert-Entries,
  lookup-Entries, lookup-keep, keep-IsMap, length-keep-le,
}
use olsr_go.Net.{Time, after}
use olsr_go.Neighbor.{NeighborTuple, TwoHops, NeighborManager}
use olsr_go.Neighbor.Mpr.{
  Reach, holds, is_some, or_empty, usable, skipped, build_two_hop_neighbors_map, mark_all,
  mark_sole, covered, uncovered, symmetric_1hop, new_mprs, recalculate_mprs,
}
use olsr_go.Neighbor.Mpr.Greedy.{greedy_covers}
use olsr_go.Neighbor.Mpr.Reach.{
  IsReached, reaches, build_reach-IsSound, build_reach_adds, build_reach-IsReached,
}

-- The tables are maps, and no neighbour goes by the empty text.
pub record IsValid (nm : NeighborManager) : Type 0 where
  pub neighbors_map : IsMap nm.neighbors
  pub links_map : IsMap nm.two_hop_links
  pub hops_maps : Entries (λ one hops. IsMap hops) nm.two_hop_links
  pub named : Entries (λ ip n. ip ≢ []) nm.neighbors

-- A symmetric neighbour that is willing to forward.
pub record IsUsable (nm : NeighborManager) (ip : Text) : Type 0 where
  pub tuple : NeighborTuple
  pub found : lookup ip nm.neighbors ≡ some tuple
  pub is_usable : usable ip tuple ≡ true

-- The neighbour has told of the 2-hop neighbour, and that has not expired.
pub record Tells (now : Time) (nm : NeighborManager) (one two : Text) : Type 0 where
  pub hops : TwoHops
  pub expires : Time
  pub has_hops : lookup one nm.two_hop_links ≡ some hops
  pub has_two : lookup two hops ≡ some expires
  pub live : after now expires ≡ false

mark_all-Entries :
    (P : Text → Type 0) (ones mprs : GoMap Text Bool)
    → Entries (λ one b. P one) ones
    → Entries (λ one b. P one) mprs
    → Entries (λ one b. P one) (mark_all ones mprs)
unfolding mark_all
mark_all-Entries P [] mprs h k = k
mark_all-Entries P ((one, b) ∷ ones) mprs (p, h) k =
    mark_all-Entries P ones _ h (insert-Entries (λ o c. P o) one true mprs p k)

mark_sole-Entries :
    (P : Text → Type 0) (reach : Reach) (mprs : GoMap Text Bool)
    → Entries (λ two ones. Entries (λ one b. P one) ones) reach
    → Entries (λ one b. P one) mprs
    → Entries (λ one b. P one) (mark_sole reach mprs)
unfolding mark_sole
mark_sole-Entries P [] mprs h k = k
mark_sole-Entries P ((two, ones) ∷ reach) mprs (p, h) k =
    mark_sole-Entries P reach _ h (elim (Bool-cases (nat_beq (length ones) 1)) [
      | inl single ↦ rw single (mark_all-Entries P ones mprs p k)
      | inr more ↦ rw more k
    ])

covered_member :
    (mprs ones : GoMap Text Bool)
    → covered mprs ones ≡ true
    → (mpr : Text) × (is_some (lookup mpr mprs) ≡ true) × (holds (lookup mpr ones) ≡ true)
unfolding covered lookup
covered_member [] ones h = absurd (cc)
covered_member ((k, b) ∷ mprs) ones h = elim (Bool-cases (holds (lookup k ones))) [
  | inl here ↦ (k, rw ==_refl, here)
  | inr there ↦
      let (mpr, m, o) = covered_member mprs ones (rw there at h) in
      (mpr, elim (Bool-cases (k == mpr)) [ inl same ↦ rw same | inr other ↦ rw other m ], o)
]

kept-IsUsable :
    (nm : NeighborManager) (ip : Text) (n : NeighborTuple)
    → IsMap nm.neighbors
    → lookup ip (symmetric_1hop nm) ≡ some n
    → IsUsable nm ip
kept-IsUsable nm ip n h q =
    let e : kept usable ip (lookup ip nm.neighbors) ≡ some n =
      sym (lookup-keep usable ip nm.neighbors h) ∙ q in
    elim (Option-cases (lookup ip nm.neighbors)) [
      | inl none' ↦ absurd (let f = rw none' at e in cc)
      | inr (m, found) ↦ record {
        tuple = m;
        found = found;
        is_usable = let f = rw found at e in ground arith;
      }
    ]

uncovered_le :
    (mprs : GoMap Text Bool) (reach : Reach) → length (uncovered mprs reach) ≤ length reach
unfolding uncovered
uncovered_le mprs reach = length-keep-le (λ two ones. not (covered mprs ones)) reach

module _ (now : Time) (nm : NeighborManager) (v : IsValid nm) where
  abbrev sym' : GoMap Text NeighborTuple
  sym' = symmetric_1hop nm

  abbrev reach : Reach
  reach = build_two_hop_neighbors_map now sym' nm.two_hop_links

  reach-IsReached : Entries (IsReached sym') reach
  reach-IsReached =
      unfold build_two_hop_neighbors_map in build_reach-IsReached now sym' nm.two_hop_links [] tt

  good_neighbors : Entries (λ ip n. IsUsable nm ip × (ip ≢ [])) sym'
  good_neighbors = lookup-Entries _ sym' (keep-IsMap usable nm.neighbors v.neighbors_map) λ ip n q.
      (
        kept-IsUsable nm ip n v.neighbors_map q,
        Entries-lookup (λ ip n. ip ≢ []) ip n sym' (Entries-keep _ usable nm.neighbors v.named) q,
      )

  known-IsUsable : Entries (λ two ones. Entries (λ one b. IsUsable nm one) ones) reach
  known-IsUsable =
      Entries-map _ _ reach
        (λ two ones r.
          Entries-map _ _ ones (λ one b k. kept-IsUsable nm one k.0 v.neighbors_map k.1) r.known)
        reach-IsReached

  -- The fuel is enough.
  new_mprs_found :
      (mprs : GoMap Text Bool) × (new_mprs now nm ≡ some mprs)
      × Entries (λ ip b. IsUsable nm ip) mprs
      × Entries (λ two ones. covered mprs ones ≡ true) reach
  new_mprs_found =
      unfold new_mprs in
      greedy_covers (IsUsable nm) nm.two_hop_links sym' reach good_neighbors
        (Entries-map _ _ reach (λ two ones r. r.way) reach-IsReached) (suc (length reach))
        (mark_sole reach []) (mark_sole-Entries (IsUsable nm) reach [] known-IsUsable tt)
        (omega (arith, uncovered_le (mark_sole reach []) reach))

  mpr_set_found :
      (mprs : GoMap Text Bool)
      → new_mprs now nm ≡ some mprs
      → (recalculate_mprs now nm).mpr_set ≡ mprs
  unfolding recalculate_mprs
  mpr_set_found mprs h = rw (h, recalculate_mprs)

  reach_sound : (one two : Text) → reaches one two reach ≡ true → Tells now nm one two
  reach_sound =
      unfold build_two_hop_neighbors_map in
      build_reach-IsSound (Tells now nm) now sym' nm.two_hop_links []
        (lookup-Entries _ nm.two_hop_links v.links_map λ one hops q y.
          lookup-Entries _ hops (Entries-lookup _ one hops nm.two_hop_links v.hops_maps q)
            λ two exp r s. record {
              hops = hops;
              expires = exp;
              has_hops = q;
              has_two = r;
              live = ground arith;
            })
        (λ o t h. absurd (let f : false ≡ true = unfold lookup in h in cc))

is_some_value : (o : Option Bool) → is_some o ≡ true → (b : Bool) × (o ≡ some b)
is_some_value none h = absurd (cc)
is_some_value (some b) h = (b, refl)

reaches-some :
    (one two : Text) (m : Reach)
    → reaches one two m ≡ true
    → (ones : GoMap Text Bool) × (lookup two m ≡ some ones) × (holds (lookup one ones) ≡ true)
reaches-some one two m h = elim (Option-cases (lookup two m)) [
  | inl e ↦ absurd (let f : false ≡ true = unfold lookup in rw (e, or_empty) at h in cc)
  | inr (ones, e) ↦ (ones, e, rw (e, or_empty) at h)
]

-- A strict 2-hop neighbour gets into the map of 2-hop neighbours.
covered_two_hop :
    (now : Time) (nm : NeighborManager) (v : IsValid nm) (one two : Text)
    → IsUsable nm one
    → Tells now nm one two
    → ¬ IsUsable nm two
    → (ones : GoMap Text Bool) × (lookup two (reach now nm v) ≡ some ones)
      × (holds (lookup one ones) ≡ true)
covered_two_hop now nm v one two u t strict =
    let near : lookup one (symmetric_1hop nm) ≡ some u.tuple =
      lookup-keep usable one nm.neighbors v.neighbors_map
      ∙ rw u.found (ground (arith, u.is_usable)) in
    let far : lookup two (symmetric_1hop nm) ≡ none =
      elim (Option-cases (lookup two (symmetric_1hop nm))) [
        | inl e ↦ e
        | inr (n, e) ↦ absurd (strict (kept-IsUsable nm two n v.neighbors_map e))
      ] in
    let live : skipped now (symmetric_1hop nm) two t.expires ≡ false =
      rw far (ground (arith, t.live)) in
    reaches-some one two _ (
      unfold build_two_hop_neighbors_map in
      build_reach_adds now (symmetric_1hop nm) one two t.expires t.hops nm.two_hop_links []
        (rw near (ground (arith, u.is_usable))) t.has_hops t.has_two live)

-- In well-formed tables, every member of the MPR set that recalculateMPRs makes is a symmetric
-- neighbour that is willing to forward.
pub recalculate_mprs-IsUsable :
    (now : Time) (nm : NeighborManager)
    → IsValid nm
    → Entries (λ ip b. IsUsable nm ip) (recalculate_mprs now nm).mpr_set
recalculate_mprs-IsUsable now nm v =
    let (mprs, e, usable', all) = new_mprs_found now nm v in
    rw (mpr_set_found now nm v mprs e) usable'

-- In well-formed tables, every strict 2-hop neighbour, one that a symmetric and willing neighbour has
-- told of, that has not expired and is no such neighbour itself, is told of by a member of the new
-- MPR set, too, which is a symmetric and willing neighbour.
pub recalculate_mprs_covers :
    (now : Time) (nm : NeighborManager)
    → IsValid nm
    → (one two : Text) → IsUsable nm one
    → Tells now nm one two
    → ¬ IsUsable nm two
    → (mpr : Text) × (is_some (lookup mpr (recalculate_mprs now nm).mpr_set) ≡ true)
      × IsUsable nm mpr
      × Tells now nm mpr two
recalculate_mprs_covers now nm v one two u t strict =
    let (mprs, e, usable', all) = new_mprs_found now nm v in
    let (ones, q, way) = covered_two_hop now nm v one two u t strict in
    let (mpr, member, o) =
      covered_member mprs ones
        (Entries-lookup (λ two ones. covered mprs ones ≡ true) two ones _ all q) in
    let (b, found) = is_some_value (lookup mpr mprs) member in
    (
      mpr,
      rw (mpr_set_found now nm v mprs e) member,
      Entries-lookup (λ ip b. IsUsable nm ip) mpr b mprs usable' found,
      reach_sound now nm v mpr two (rw (q, or_empty) o),
    )
