-- ===== src/Zebra/Sync.antt =====
-- internal/zebra/client.go: what is announced when a connection is made.
use olsr_go.Base.{
  ℕ, suc, ◌≡◌, refl, ap, ◌∙◌, inl, inr, Bool, true, false, List, [], ◌∷◌, ◌++◌, arith, ◌⊎◌,
}
use olsr_go.Zebra.{UnicastRouteInfo, ZapiError, zebra_route_add}
use olsr_go.Zebra.Message.{build_hello_message, build_unicast_route_message}
use olsr_go.Zebra.Client.{Client, up, one_second, send, send_built, sync_routes, attempt}

-- The messages of the routes that a message can be built for.
abbrev pub announced_by : List ℕ ⊎ ZapiError → List (List ℕ)
announced_by (inl bytes) = bytes ∷ []
announced_by (inr e) = []

abbrev pub announcements : List UnicastRouteInfo → List (List ℕ)
announcements [] = []
announcements (r ∷ rs) =
    announced_by
      (build_unicast_route_message zebra_route_add r.prefix r.next_hop r.iface_index r.metric)
    ++ announcements rs

-- The client can send.
abbrev IsOnline : Client → Type 0
IsOnline c = (c.connected ≡ true) × (c.has_conn ≡ true)

send_built-IsOnline :
    (m : List ℕ ⊎ ZapiError) (c : Client)
    → IsOnline c
    → ((send_built true m c).written ≡ announced_by m) × IsOnline (send_built true m c).client
unfolding send
send_built-IsOnline (inl bytes) c on = ground (arith, on)
send_built-IsOnline (inr e) c on = (refl, on)

sync_routes-IsOnline :
    (writes : ℕ → Bool) (n : ℕ) (rs : List UnicastRouteInfo) (c : Client)
    → ((k : ℕ) → writes k ≡ true)
    → IsOnline c
    → ((sync_routes writes n rs c).written ≡ announcements rs)
      × IsOnline (sync_routes writes n rs c).client
unfolding sync_routes
sync_routes-IsOnline writes n [] c all on = (refl, on)
sync_routes-IsOnline writes n (r ∷ rs) c all on =
    let m =
      build_unicast_route_message zebra_route_add r.prefix r.next_hop r.iface_index r.metric in
    let first = send_built-IsOnline m c on in
    let rest = sync_routes-IsOnline writes (suc n) rs (send_built true m c).client all first.1 in
    rw (all n) (ap (◌++◌ ((send_built true m c).written)) rest.0 ∙ rw first.0 refl, rest.1)

-- When a connection is made and every write on it succeeds, what is written on it is the hello message
-- and then, in order, the message of each active route that one can be built for. The client is then
-- connected, and has published that it is.
pub attempt_announces :
    (jitter : ℕ) (writes : ℕ → Bool) (routes : List UnicastRouteInfo) (c : Client)
    → ((k : ℕ) → writes k ≡ true)
    → let s = attempt true true jitter writes routes c in
      (s.written ≡ build_hello_message ∷ announcements routes)
      × (s.client.connected ≡ true)
      × (s.statuses ≡ up ∷ [])
unfolding attempt
attempt_announces jitter writes routes c all =
    let online : Client = record c {
      pending = false;
      connected = true;
      has_conn = true;
      backoff = one_second;
    } in
    let synced = sync_routes-IsOnline writes 0 routes online all (refl, refl) in
    (ap (λ (w : List (List ℕ)). build_hello_message ∷ w) synced.0, synced.1.0, refl)
