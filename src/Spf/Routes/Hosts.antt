-- ===== src/Spf/Routes/Hosts.antt =====
-- internal/olsr/spf.go: the host routes of CalculateRoutes.
use olsr_go.Base.{
  ℕ, suc, ◌<◌, ◌≤◌, ◌≡◌, refl, sym, ◌∙◌, inl, inr, true, false, some, [], ◌∷◌, arith, Text, text_eq,
  ◌==◌, ==_refl, Bool-cases, Option-cases, ok,
}
use olsr_go.Base.Map.{
  GoMap, lookup, insert, lookup-insert, IsMap, insert-IsMap, Entries, insert-Entries,
  lookup-Entries, Entries-lookup,
}
use olsr_go.Base.Nested.{IsNested}
use olsr_go.Neighbor.Mpr.{is_some}
use olsr_go.Spf.{Route, Graph}
use olsr_go.Spf.Dijkstra.{Search, run_dijkstra}
use olsr_go.Spf.Dijkstra.Invariant.{seen, Edge, Walk, Inv}
use olsr_go.Spf.Dijkstra.Shortest.{run_dijkstra_ends, no_shorter}
use olsr_go.Spf.Routes.{LocalRouterLookup, get_iface_index, host_prefix, host_routes}
use olsr_go.Spf.Routes.NextHop.{IsFirstHop, resolve_finds}

-- The route to a node: as long as a shortest walk, through the first node of such a walk.
pub record IsShortest (router : LocalRouterLookup) (adj : Graph) (node : Text) (r : Route)
    : Type 0 where
  pub named : r.prefix ≡ host_prefix node
  pub first : IsFirstHop router.router_id adj node r.metric r.next_hop
  pub iface : r.iface_index ≡ get_iface_index router r.next_hop
  pub least : (w : ℕ) → Walk router.router_id adj node w → r.metric ≤ w

abbrev pub IsHostRoute : LocalRouterLookup → Graph → Text → Route → Type 0
IsHostRoute router adj p r = (node : Text) × (p ≡ host_prefix node) × IsShortest router adj node r

pub insert-is_some :
    {V : Type 0} (k j : Text) (v : V) (m : GoMap Text V)
    → is_some (lookup j m) ≡ true
    → is_some (lookup j (insert k v m)) ≡ true
insert-is_some k j v m h =
    rw lookup-insert (elim (Bool-cases (k == j)) [ inl same ↦ rw same | inr other ↦ rw other h ])

module _ (router : LocalRouterLookup) (adj : Graph)
    (positive : (u v : Text) (cost : ℕ) → Edge router.router_id adj u v cost → 0 < cost)
    (t : Search) (i : Inv router.router_id adj (seen t) t) (done : t.pq.size ≡ 0) where
  -- What the loop over a part of the distances makes of a table of host routes.
  record Hosts (list : GoMap Text ℕ) (old new : GoMap Text Route) : Type 0 where
    is_map : IsMap new
    right : Entries (λ p r. IsHostRoute router adj p r) new
    kept : (p : Text) → is_some (lookup p old) ≡ true → is_some (lookup p new) ≡ true
    complete :
        Entries
          (λ node d.
            (router.router_id == node) ≡ false → is_some (lookup (host_prefix node) new) ≡ true)
          list

  least_distance :
      (node : Text) (d w : ℕ)
      → lookup node t.dist ≡ some d
      → Walk router.router_id adj node w
      → d ≤ w
  least_distance node d w h walk =
      let n = no_shorter router.router_id adj t i done walk in
      let n' = rw h at n in ground (arith, n')

  host_routes-Hosts :
      (list : GoMap Text ℕ) (old : GoMap Text Route)
      → Entries (λ node d. lookup node t.dist ≡ some d) list
      → IsMap old
      → Entries (λ p r. IsHostRoute router adj p r) old
      → (new : GoMap Text Route) × (host_routes router t.prev list old ≡ ok new)
        × Hosts list old new
  unfolding host_routes
  host_routes-Hosts [] old ds h hr =
      (old, refl, record { is_map = h; right = hr; kept = λ p q. q; complete = tt })
  host_routes-Hosts ((node, d) ∷ rest) old (q, qs) h hr =
      elim (Bool-cases (node == router.router_id)) [
        | inl own ↦
            let (new, e, k) = host_routes-Hosts rest old qs h hr in
            let back : (router.router_id == node) ≡ true = ground (
              arith,
              text_eq.beq_iff router.router_id node,
              text_eq.beq_iff node router.router_id,
            ) in
            (
              new,
              rw own e,
              record {
                is_map = k.is_map;
                right = k.right;
                kept = k.kept;
                complete =
                    ((λ other. absurd (let g : true ≡ false = sym back ∙ other in cc)), k.complete);
              },
            )
        | inr other ↦
            let back : (router.router_id == node) ≡ false = ground (
              arith,
              text_eq.beq_iff router.router_id node,
              text_eq.beq_iff node router.router_id,
            ) in
            let (next, r, f) =
              resolve_finds router.router_id adj positive t i (suc d) node d q (omega arith) back in
            let route : Route = record {
              prefix = host_prefix node;
              next_hop = next;
              metric = d;
              iface_index = get_iface_index router next;
            } in
            let right' : IsHostRoute router adj (host_prefix node) route = (
              node,
              refl,
              record {
                named = refl;
                first = f;
                iface = refl;
                least = λ w walk. least_distance node d w q walk;
              },
            ) in
            let (new, e, k) =
              host_routes-Hosts rest (insert (host_prefix node) route old) qs
                (insert-IsMap (host_prefix node) route old h)
                (insert-Entries (λ p r. IsHostRoute router adj p r) (host_prefix node) route old
                  right' hr) in
            (
              new,
              rw (other, r) e,
              record {
                is_map = k.is_map;
                right = k.right;
                kept = λ p g. k.kept p (insert-is_some (host_prefix node) p route old g);
                complete = (
                  (λ g. k.kept (host_prefix node) (
                      rw (
                        lookup-insert (host_prefix node) (host_prefix node) route old,
                        ==_refl (host_prefix node),
                      ))),
                  k.complete,
                );
              },
            )
      ]

  dist-Entries : Entries (λ node d. lookup node t.dist ≡ some d) t.dist
  dist-Entries = lookup-Entries _ t.dist i.dist_map (λ node d q. q)

  pub host_routes_table :
      (new : GoMap Text Route) × (host_routes router t.prev t.dist [] ≡ ok new)
      × IsMap new
      × Entries (λ p r. IsHostRoute router adj p r) new
      × ((node : Text) (w : ℕ)
          → (router.router_id == node) ≡ false
          → Walk router.router_id adj node w
          → is_some (lookup (host_prefix node) new) ≡ true)
  host_routes_table =
      let (new, e, k) = host_routes-Hosts t.dist [] dist-Entries tt tt in
      (
        new,
        e,
        k.is_map,
        k.right,
        λ node w other walk.
            let n = no_shorter router.router_id adj t i done walk in
            elim (Option-cases (lookup node t.dist)) [
              | inl q ↦ absurd (let n' = rw q at n in cc)
              | inr (d, q) ↦ Entries-lookup _ node d t.dist k.complete q other
            ],
      )

-- In a graph whose maps are well formed and whose costs are positive, runDijkstra ends and
-- CalculateRoutes makes from its result exactly these host routes: every route goes to a node, is as
-- long as a shortest walk there, and its next hop is the first node of a walk of that length; and
-- every node but this one that a walk leads to has a route.
pub host_routes_shortest :
    (router : LocalRouterLookup) (adj : Graph)
    → IsNested adj
    → ((u v : Text) (cost : ℕ) → Edge router.router_id adj u v cost → 0 < cost)
    → (t : Search) × (run_dijkstra router.router_id adj ≡ some t)
      × (routes : GoMap Text Route) × (host_routes router t.prev t.dist [] ≡ ok routes)
      × Entries (λ p r. IsHostRoute router adj p r) routes
      × ((node : Text) (w : ℕ)
          → (router.router_id == node) ≡ false
          → Walk router.router_id adj node w
          → is_some (lookup (host_prefix node) routes) ≡ true)
host_routes_shortest router adj nested positive =
    let (t, e, i, z) = run_dijkstra_ends router.router_id adj nested in
    let (routes, r, m, right, complete) = host_routes_table router adj positive t i z in
    (t, e, routes, r, right, complete)
