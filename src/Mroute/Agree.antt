-- ===== src/Mroute/Agree.antt =====
-- internal/mroute/loopprevention_linux.go: the two managers side by side, through the same changes of
-- the multicast routes.
use olsr_go.Base.{
  to_lower, ℕ, ◌≡◌, refl, sym, ap, ◌∙◌, Bool, true, Option, none, some, List, [], ◌∷◌, Text,
  text_eq,
}
use olsr_go.Base.Map.{lookup, insert, Entries, insert-Entries, delete-Entries}
use olsr_go.Net.{Ip, dotted}
use olsr_go.Mroute.Arp.{resolve_mac_from_arp}
use olsr_go.Mroute.Loops.{
  Manager, Command, flush_chain, make_chain, route_key, format_mac, kept, apply_rules,
  start_nftables, rules_added, add_nftables, delete_nftables, start_nfqueue, queue_added,
  add_nfqueue, delete_nfqueue, hook_func,
}
use olsr_go.Mroute.Keys.{AreBytes}
use olsr_go.Mroute.Verdicts.{
  Frame, IsIpv4, Evaluates, flushes, NeverFails, or_else, apply_routes-HasChain, IsRoute, decision,
  accepts, is_one_of, apply_routes_decides, payload_verdict_lem,
}

abbrev pub new_manager : Manager
new_manager = record { interfaces = []; routes = [] }

-- A call of OnMulticastRouteAdd, with the ARP table that it finds, or of OnMulticastRouteDelete.
pub data RouteEvent : Type 0 where
  route_add : Option (List Text) → Ip → Ip → Text → RouteEvent
  route_delete : Ip → Ip → RouteEvent

-- The addresses are of bytes, and the ARP table writes a MAC as pairs of hexadecimal digits.
abbrev pub IsProper : RouteEvent → Type 0
IsProper (route_add arp src grp next_hop) =
    AreBytes src
    × AreBytes grp
    × ((mac : Text)
        → resolve_mac_from_arp arp next_hop ≡ some mac
        → (hw : List ℕ) × AreBytes hw × (to_lower mac ≡ format_mac hw))
IsProper (route_delete src grp) = AreBytes src × AreBytes grp

abbrev pub AreProper : List RouteEvent → Type 0
AreProper [] = Unit
AreProper (e ∷ es) = IsProper e × AreProper es

module _ {Nft : Type 0} (run : Command → Nft → Nft × Bool) where
  abbrev nftables_step : RouteEvent → Manager × Nft → Manager × Nft
  nftables_step (route_add arp src grp next_hop) s =
      (add_nftables run arp (dotted src) (dotted grp) next_hop s).0
  nftables_step (route_delete src grp) s = delete_nftables run (dotted src) (dotted grp) s

  unfoldable pub nftables_after : List RouteEvent → Manager × Nft → Manager × Nft
  nftables_after [] s = s
  nftables_after (e ∷ es) s = nftables_after es (nftables_step e s)

abbrev nfqueue_step : RouteEvent → Manager → Manager
nfqueue_step (route_add arp src grp next_hop) m =
    (add_nfqueue arp (dotted src) (dotted grp) next_hop m).0
nfqueue_step (route_delete src grp) m = delete_nfqueue (dotted src) (dotted grp) m

unfoldable pub nfqueue_after : List RouteEvent → Manager → Manager
nfqueue_after [] m = m
nfqueue_after (e ∷ es) m = nfqueue_after es (nfqueue_step e m)

added_interfaces :
    (src grp : Ip) (mac : Option Text) (q : Manager)
    → (queue_added (kept (dotted src) (dotted grp) mac q) q).0.interfaces ≡ q.interfaces
added_interfaces src grp none q = refl
added_interfaces src grp (some text) q = refl

after_interfaces :
    (es : List RouteEvent) (q : Manager) → (nfqueue_after es q).interfaces ≡ q.interfaces
unfolding nfqueue_after
after_interfaces [] q = refl
after_interfaces (route_add arp src grp next_hop ∷ es) q =
    after_interfaces es (nfqueue_step (route_add arp src grp next_hop) q)
    ∙ added_interfaces src grp (resolve_mac_from_arp arp next_hop) q
after_interfaces (route_delete src grp ∷ es) q =
    after_interfaces es (delete_nfqueue (dotted src) (dotted grp) q)

module _ {Nft : Type 0} (run : Command → Nft → Nft × Bool) (HasChain : Nft → Type 0)
    (decides : Nft → Frame → Option Bool) (laws : Evaluates run HasChain decides)
    (works : NeverFails run HasChain) where
  -- The managers hold the same routes, and the rules in the chain decide by them.
  record Agree (s : Manager × Nft) (q : Manager) : Type 0 where
    same : s.0 ≡ q
    there : HasChain s.1
    routed : Entries IsRoute q.routes
    decided :
        (f : Frame)
        → IsIpv4 f
        → is_one_of f.iface q.interfaces ≡ true
        → decides s.1 f ≡ decision q.routes f

  nothing_decided : (f : Frame) → none ≡ decision [] f
  unfolding lookup
  nothing_decided f = refl

  applied-Agree :
      (m : Manager) (n : Nft)
      → HasChain n
      → Entries IsRoute m.routes
      → Agree (m, apply_rules run m n) m
  applied-Agree m n c h = record {
    same = refl;
    there =
        apply_routes-HasChain run HasChain laws.kept m.routes m.interfaces _
          (laws.kept _ n flushes c);
    routed = h;
    decided = λ f ipv4 known.
        apply_routes_decides run HasChain decides laws works f ipv4 m.routes m.interfaces
          (run flush_chain n).0 h known (laws.kept _ n flushes c)
        ∙ ap (λ d. or_else d (decision m.routes f)) (laws.flushed n f c (works _ n flushes c));
  }

  added-Agree :
      (src grp : Ip) (mac : Option Text) (s : Manager × Nft) (q : Manager)
      → AreBytes src
      → AreBytes grp
      → ((text : Text)
          → mac ≡ some text
          → (hw : List ℕ) × AreBytes hw × (to_lower text ≡ format_mac hw))
      → Agree s q
      → Agree
          (rules_added run (kept (dotted src) (dotted grp) mac s.0) s).0
          (queue_added (kept (dotted src) (dotted grp) mac q) q).0
  added-Agree src grp none s q hs hg hm h = h
  added-Agree src grp (some text) s q hs hg hm h =
      let (hw, hb, e) = hm text refl in
      let routes = insert (route_key (dotted src) (dotted grp)) (to_lower text) q.routes in
      let entries : Entries IsRoute routes =
        insert-Entries IsRoute (route_key (dotted src) (dotted grp)) (to_lower text) q.routes
          (src, grp, hw, hs, hg, hb, refl, e) h.routed in
      rw (h.same) (applied-Agree (record q { routes = routes }) s.1 h.there entries)

  event-Agree :
      (e : RouteEvent) (s : Manager × Nft) (q : Manager)
      → IsProper e
      → Agree s q
      → Agree (nftables_step run e s) (nfqueue_step e q)
  event-Agree (route_add arp src grp next_hop) s q (hs, hg, hm) h =
      added-Agree src grp (resolve_mac_from_arp arp next_hop) s q hs hg hm h
  event-Agree (route_delete src grp) s q hp h = rw (h.same) (
      applied-Agree _ s.1 h.there
        (delete-Entries IsRoute (route_key (dotted src) (dotted grp)) q.routes h.routed))

  after-Agree :
      (es : List RouteEvent) (s : Manager × Nft) (q : Manager)
      → AreProper es
      → Agree s q
      → Agree (nftables_after run es s) (nfqueue_after es q)
  unfolding nftables_after nfqueue_after
  after-Agree [] s q hp h = h
  after-Agree (e ∷ es) s q (hp, hps) h =
      after-Agree es (nftables_step run e s) (nfqueue_step e q) hps (event-Agree e s q hp h)

  -- Start both managers, and take them through the same additions and deletions of routes, of addresses
  -- of bytes, with an ARP table that writes a MAC as pairs of hexadecimal digits. Where nft made the
  -- chain, and where no flush of the chain and no adding of a route's rule fails while the chain is there,
  -- an IPv4 packet on a configured interface is accepted by the rules just where hookFunc, given the packet
  -- with the MAC that it was sent from, sets the verdict to accept it.
  pub nftables_agrees :
      (interfaces : List Text) (opened : Bool) (n n' : Nft) (es : List RouteEvent) (f : Frame)
      (id : ℕ)
      → (make_chain run n).1 ≡ true
      → AreProper es
      → IsIpv4 f
      → is_one_of f.iface interfaces ≡ true
      → let rules = nftables_after run es (start_nftables run interfaces (new_manager, n)).0 in
        let queue = nfqueue_after es (start_nfqueue run opened interfaces (new_manager, n')).0.0 in
        hook_func
          (record { packet_id = some id; payload = some f.payload; hw_addr = some f.hw })
          queue
        ≡ some (accepts (decides rules.1 f))
  nftables_agrees interfaces opened n n' es f id made proper ipv4 known =
      let m : Manager = record new_manager { interfaces = interfaces } in
      let start : Agree (m, (make_chain run n).0) m = record {
        same = refl;
        routed = tt;
        there = laws.made n made;
        decided = λ f' v4 k. laws.made_empty n f' made ∙ nothing_decided f';
      } in
      let agree = after-Agree es (m, (make_chain run n).0) m proper start in
      ap some (
        payload_verdict_lem f (nfqueue_after es m) ipv4
        ∙ sym (ap accepts (agree.decided f ipv4 (rw (after_interfaces es m) known))))
