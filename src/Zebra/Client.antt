-- ===== src/Zebra/Client.antt =====
-- internal/zebra/client.go: the connection to the routing daemon, and what is sent on it. What the socket
-- and rand.Int63n return are arguments.
use olsr_go.Base.{
  ℕ, suc, ◌+◌, ◌*◌, ◌%◌, Bool, true, false, not, ◌||◌, Option, none, some, List, [], ◌∷◌, ◌++◌, ltb,
  if◌then◌else◌, Text, ◌⊎◌, inl, inr,
}
use olsr_go.Base.Int.{ℤ, pos}
use olsr_go.Daemon.Send.{parse_or_nil}
use olsr_go.Zebra.{
  UnicastRouteInfo, ZapiError, not_connected, write_failed, zebra_route_add, zebra_route_delete,
  zebra_ipmr_route_add, zebra_ipmr_route_del,
}
use olsr_go.Zebra.Message.{build_hello_message, build_unicast_route_message}
use olsr_go.Zebra.Multicast.{build_ipmr_message}

-- The client with the state of its connectionLoop: `has_conn` is a conn that is not nil, `pending` an
-- entry in reconnectChan, and the backoff is in nanoseconds.
pub record Client : Type 0 where
  pub connected : Bool
  pub has_conn : Bool
  pub pending : Bool
  pub tx_total : ℕ
  pub failure_total : ℕ
  pub backoff : ℕ

abbrev pub one_second : ℕ
one_second = 1_000_000_000

abbrev pub max_backoff : ℕ
max_backoff = 30_000_000_000

-- NewZAPIClient and the start of connectionLoop, with the trigger of Start.
abbrev pub new_client : Client
new_client = record {
  connected = false;
  has_conn = false;
  pending = true;
  tx_total = 0;
  failure_total = 0;
  backoff = one_second;
}

-- A uint64 counter.
abbrev pub counted : ℕ → ℕ
counted n = (n + 1) % 18446744073709551616

-- The status that is published.
pub data Status : Type 0 where
  up down : Status

-- What a call leaves: the messages that were written, in order, the statuses published, the time slept,
-- and the error.
pub record Sent : Type 0 where
  pub client : Client
  pub written : List (List ℕ)
  pub statuses : List Status
  pub slept : ℕ
  pub error : Option ZapiError

abbrev pub sent_nothing : Client → Option ZapiError → Sent
sent_nothing c e = record { client = c; written = []; statuses = []; slept = 0; error = e }

-- `ok` is whether conn.Write succeeds.
unfoldable pub send : Bool → List ℕ → Client → Sent
send ok bytes c =
    if not c.connected || not c.has_conn
    then sent_nothing (record c { failure_total = counted c.failure_total }) (some not_connected)
    else if not ok
    then sent_nothing (record c { failure_total = counted c.failure_total }) (some write_failed)
    else record (sent_nothing (record c { tx_total = counted c.tx_total }) none) {
      written = bytes ∷ [];
    }

abbrev pub send_built : Bool → List ℕ ⊎ ZapiError → Client → Sent
send_built ok (inl bytes) c = send ok bytes c
send_built ok (inr e) c = sent_nothing c (some e)

abbrev pub add_unicast_route : Bool → UnicastRouteInfo → Client → Sent
add_unicast_route ok r c =
    send_built ok
      (build_unicast_route_message zebra_route_add r.prefix r.next_hop r.iface_index r.metric) c

abbrev pub delete_unicast_route : Bool → Text → Text → ℤ → Client → Sent
delete_unicast_route ok prefix next_hop ifindex c =
    send_built ok (build_unicast_route_message zebra_route_delete prefix next_hop ifindex (pos 0)) c

abbrev pub add_multicast_route : Bool → Text → Text → ℤ → List ℤ → Client → Sent
add_multicast_route ok src grp iif oifs c =
    send_built ok
      (build_ipmr_message zebra_ipmr_route_add (parse_or_nil src) (parse_or_nil grp) iif oifs) c

abbrev pub delete_multicast_route : Bool → Text → Text → ℤ → List ℤ → Client → Sent
delete_multicast_route ok src grp iif oifs c =
    send_built ok
      (build_ipmr_message zebra_ipmr_route_del (parse_or_nil src) (parse_or_nil grp) iif oifs) c

-- syncRoutes, with the results of the writes in turn; an error of a route is dropped.
unfoldable pub sync_routes : (ℕ → Bool) → ℕ → List UnicastRouteInfo → Client → Sent
sync_routes writes n [] c = sent_nothing c none
sync_routes writes n (r ∷ rs) c =
    let first = add_unicast_route (writes n) r c in
    let rest = sync_routes writes (suc n) rs first.client in
    record rest { written = first.written ++ rest.written }

-- connect: whether it succeeds, the client, and the messages written. The old connection is closed, but
-- stays in the field until there is a new one.
abbrev pub connect : Bool → Bool → Client → Bool × Client × List (List ℕ)
connect dial_ok hello_ok c =
    let closed : Client = record c { connected = false } in
    if not dial_ok
    then (false, closed, [])
    else if not hello_ok
    then (false, closed, [])
    else (true, record closed { has_conn = true }, build_hello_message ∷ [])

abbrev pub next_backoff : ℕ → ℕ
next_backoff b = if ltb b max_backoff then b * 2 else b

abbrev pub failed_attempt : ℕ → Client → Sent
failed_attempt jitter c = record {
  client = record c {
    failure_total = counted c.failure_total;
    backoff = next_backoff c.backoff;
    pending = true;
  };
  written = [];
  statuses = down ∷ [];
  slept = c.backoff + jitter;
  error = none;
}

abbrev pub attempted : ℕ → (ℕ → Bool) → List UnicastRouteInfo → Bool × Client × List (List ℕ) → Sent
attempted jitter writes routes (false, c, written) = failed_attempt jitter c
attempted jitter writes routes (true, c, written) =
    let synced =
      sync_routes writes 0 routes (record c { backoff = one_second; connected = true }) in
    record synced { written = written ++ synced.written; statuses = up ∷ [] }

-- The body of connectionLoop for an entry of reconnectChan, which it takes. `routes` is what
-- GetActiveUnicastRoutes returns.
unfoldable pub attempt : Bool → Bool → ℕ → (ℕ → Bool) → List UnicastRouteInfo → Client → Sent
attempt dial_ok hello_ok jitter writes routes c =
    attempted jitter writes routes (connect dial_ok hello_ok (record c { pending = false }))

-- readLoop, when a read fails.
abbrev pub read_failed : Client → Client
read_failed c = record c { connected = false; pending = true }

abbrev pub stop : Client → Client
stop c = record c { connected = false }
