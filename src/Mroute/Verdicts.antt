-- ===== src/Mroute/Verdicts.antt =====
-- internal/mroute/loopprevention_linux.go: what the nftables rules decide on a packet, and what hookFunc
-- decides. The decisions of nft are a parameter, with what nft(8) documents of them as laws.
use mathlib.Core.Path.{subst}
use olsr_go.Base.{
  ℕ, ◌/◌, ◌≤◌, ◌≡◌, refl, sym, ap, ◌∙◌, Bool, true, false, ◌&&◌, ◌||◌, Option, none, some, List, [],
  ◌∷◌, length, ltb, arith, Text, text_eq, ◌==◌, if◌then◌else◌,
}
use olsr_go.Base.Map.{GoMap, lookup, Entries}
use olsr_go.Net.{Ip, dotted}
use olsr_go.Mroute.Loops.{
  Manager, Command, flush_chain, accept_rule, drop_rule, make_chain, route_key, split_colon,
  key_parts, format_mac, apply_to, apply_route, apply_parts, apply_routes, verdict_of,
  payload_verdict,
}
use olsr_go.Mroute.Keys.{
  AreBytes, key_parts-route_key, route_key_same, bytes_at, bytes_at-AreBytes, address_at_lem,
}

-- A packet with its interface and the MAC that it was sent from.
pub record Frame : Type 0 where
  pub iface : Text
  pub payload : List ℕ
  pub hw : List ℕ

pub record IsIpv4 (f : Frame) : Type 0 where
  pub long : 20 ≤ length f.payload
  pub version : (b : ℕ) × (bs : List ℕ) × (f.payload ≡ b ∷ bs) × (b / 16 ≡ 4)
  pub bytes : AreBytes f.payload

abbrev pub saddr : Frame → Ip
saddr f = bytes_at 12 f.payload

abbrev pub daddr : Frame → Ip
daddr f = bytes_at 16 f.payload

-- The first of two decisions.
abbrev pub or_else : Option Bool → Option Bool → Option Bool
or_else none d = d
or_else (some b) d = some b

abbrev pub when : Bool → Bool → Option Bool
when matches b = if matches then some b else none

-- The tests of a rule on the interface and the addresses.
abbrev pub applies : Text → Ip → Ip → Frame → Bool
applies iface src grp f =
    (iface == f.iface) && ((dotted src == dotted (saddr f)) && (dotted grp == dotted (daddr f)))

-- A flush of the chain, or the adding of a rule of a route.
pub data IsRuleCommand : Command → Type 0 where
  flushes : IsRuleCommand flush_chain
  accepts_from : (iface src grp mac : Text) → IsRuleCommand (accept_rule iface src grp mac)
  drops_from : (iface src grp : Text) → IsRuleCommand (drop_rule iface src grp)

-- What nft(8) documents of a command that succeeds: a table with a chain is made empty, a flushed chain
-- decides nothing, and a rule is added after the others of the chain, which stays there: it decides on a
-- packet that they leave and that passes its tests. `HasChain` says that the chain is there.
pub record Evaluates {Nft : Type 0} (run : Command → Nft → Nft × Bool) (HasChain : Nft → Type 0)
    (decides : Nft → Frame → Option Bool) : Type 0 where
  pub made : (n : Nft) → (make_chain run n).1 ≡ true → HasChain (make_chain run n).0
  pub made_empty :
      (n : Nft) (f : Frame) → (make_chain run n).1 ≡ true → decides (make_chain run n).0 f ≡ none
  pub kept : (c : Command) (n : Nft) → IsRuleCommand c → HasChain n → HasChain (run c n).0
  pub flushed :
      (n : Nft) (f : Frame)
      → HasChain n
      → (run flush_chain n).1 ≡ true
      → decides (run flush_chain n).0 f ≡ none
  pub accepted :
      (n : Nft) (f : Frame) (iface : Text) (src grp : Ip) (mac : List ℕ)
      → IsIpv4 f
      → AreBytes src
      → AreBytes grp
      → AreBytes mac
      → HasChain n
      → (run (accept_rule iface (dotted src) (dotted grp) (format_mac mac)) n).1 ≡ true
      → decides (run (accept_rule iface (dotted src) (dotted grp) (format_mac mac)) n).0 f
        ≡ or_else
            (decides n f)
            (when (applies iface src grp f && (format_mac f.hw == format_mac mac)) true)
  pub dropped :
      (n : Nft) (f : Frame) (iface : Text) (src grp : Ip)
      → IsIpv4 f
      → AreBytes src
      → AreBytes grp
      → HasChain n
      → (run (drop_rule iface (dotted src) (dotted grp)) n).1 ≡ true
      → decides (run (drop_rule iface (dotted src) (dotted grp)) n).0 f
        ≡ or_else (decides n f) (when (applies iface src grp f) false)

-- While the chain is there, neither a flush nor the adding of a route's rule fails.
abbrev pub NeverFails : {Nft : Type 0} → (Command → Nft → Nft × Bool) → (Nft → Type 0) → Type 0
NeverFails {Nft = Nft} run HasChain =
    (c : Command) (n : Nft) → IsRuleCommand c → HasChain n → (run c n).1 ≡ true

-- A route of two IPv4 addresses and the text of a MAC.
abbrev pub IsRoute : Text → Text → Type 0
IsRoute key mac =
    (src : Ip) × (grp : Ip) × (hw : List ℕ) × AreBytes src
    × AreBytes grp
    × AreBytes hw
    × (key ≡ route_key (dotted src) (dotted grp))
    × (mac ≡ format_mac hw)

abbrev pub frame_key : Frame → Text
frame_key f = route_key (dotted (saddr f)) (dotted (daddr f))

-- The decision that the routes call for.
abbrev pub decision_of : Option Text → Frame → Option Bool
decision_of none f = none
decision_of (some mac) f = some (format_mac f.hw == mac)

abbrev pub decision : GoMap Text Text → Frame → Option Bool
decision routes f = decision_of (lookup (frame_key f) routes) f

unfoldable pub is_one_of : Text → List Text → Bool
is_one_of i [] = false
is_one_of i (j ∷ js) = (j == i) || is_one_of i js

or_else_assoc : (a b c : Option Bool) → or_else (or_else a b) c ≡ or_else a (or_else b c)
or_else_assoc none b c = refl
or_else_assoc (some a) b c = refl

or_else-none : (a : Option Bool) → or_else a none ≡ a
or_else-none none = refl
or_else-none (some a) = refl

-- An accept rule before a drop rule decides by the MAC.
pair_decides :
    (a : Option Bool) (t mac : Bool)
    → or_else (or_else a (when (t && mac) true)) (when t false) ≡ or_else a (when t mac)
pair_decides none true true = refl
pair_decides none true false = refl
pair_decides none false mac = refl
pair_decides (some a) t mac = refl

-- The rules of one more interface.
one_more :
    (a : Option Bool) (i is same b : Bool)
    → or_else (or_else a (when (i && same) b)) (when (is && same) b)
      ≡ or_else a (when ((i || is) && same) b)
one_more none true is true b = refl
one_more none true true false b = refl
one_more none true false false b = refl
one_more none false is same b = refl
one_more (some a) i is same b = refl

-- The rules of one more route, where the interface of the packet is one of all.
one_route :
    (a : Option Bool) (same : Bool) (f : Frame) (mac : Text) (found : Option Text)
    → or_else (or_else a (when (true && same) (format_mac f.hw == mac))) (decision_of found f)
      ≡ or_else a (decision_of (if same then some mac else found) f)
one_route none true f mac found = refl
one_route none false f mac found = refl
one_route (some a) same f mac found = refl

module _ {Nft : Type 0} (run : Command → Nft → Nft × Bool) (HasChain : Nft → Type 0)
    (kept : (c : Command) (n : Nft) → IsRuleCommand c → HasChain n → HasChain (run c n).0) where
  apply_to-HasChain :
      (src grp mac i : Text) (n : Nft) → HasChain n → HasChain (apply_to run src grp mac i n)
  apply_to-HasChain src grp mac i n h =
      kept _ _ (drops_from i src grp) (kept _ n (accepts_from i src grp mac) h)

  apply_route-HasChain :
      (src grp mac : Text) (ifaces : List Text) (n : Nft)
      → HasChain n
      → HasChain (apply_route run src grp mac ifaces n)
  unfolding apply_route
  apply_route-HasChain src grp mac [] n h = h
  apply_route-HasChain src grp mac (i ∷ is) n h =
      apply_route-HasChain src grp mac is _ (apply_to-HasChain src grp mac i n h)

  apply_parts-HasChain :
      (parts : Option (Text × Text)) (mac : Text) (ifaces : List Text) (n : Nft)
      → HasChain n
      → HasChain (apply_parts run parts mac ifaces n)
  apply_parts-HasChain none mac ifaces n h = h
  apply_parts-HasChain (some (src, grp)) mac ifaces n h =
      apply_route-HasChain src grp mac ifaces n h

  pub apply_routes-HasChain :
      (routes : GoMap Text Text) (ifaces : List Text) (n : Nft)
      → HasChain n
      → HasChain (apply_routes run routes ifaces n)
  unfolding apply_routes
  apply_routes-HasChain [] ifaces n h = h
  apply_routes-HasChain ((key, mac) ∷ routes) ifaces n h =
      apply_routes-HasChain routes ifaces _
        (apply_parts-HasChain (key_parts (split_colon key)) mac ifaces n h)

module _ {Nft : Type 0} (run : Command → Nft → Nft × Bool) (HasChain : Nft → Type 0)
    (decides : Nft → Frame → Option Bool) (laws : Evaluates run HasChain decides)
    (works : NeverFails run HasChain) (f : Frame) (ipv4 : IsIpv4 f) where
  apply_to_decides :
      (src grp : Ip) (mac : List ℕ) (i : Text) (n : Nft)
      → AreBytes src
      → AreBytes grp
      → AreBytes mac
      → HasChain n
      → decides (apply_to run (dotted src) (dotted grp) (format_mac mac) i n) f
        ≡ or_else (decides n f) (
            when
              ((i == f.iface) && (route_key (dotted src) (dotted grp) == frame_key f))
              (format_mac f.hw == format_mac mac))
  apply_to_decides src grp mac i n hs hg hm c =
      let same =
        route_key_same src grp (saddr f) (daddr f) hs hg (bytes_at-AreBytes 12 f.payload ipv4.bytes)
          (bytes_at-AreBytes 16 f.payload ipv4.bytes) in
      let accept = accepts_from i (dotted src) (dotted grp) (format_mac mac) in
      let c' = laws.kept _ n accept c in
      laws.dropped _ f i src grp ipv4 hs hg c'
        (works _ _ (drops_from i (dotted src) (dotted grp)) c')
      ∙ (ap (λ d. or_else d (when (applies i src grp f) false))
            (laws.accepted n f i src grp mac ipv4 hs hg hm c (works _ n accept c))
          ∙ (pair_decides (decides n f) (applies i src grp f) (format_mac f.hw == format_mac mac)
              ∙ ap
                  (λ s.
                    or_else (decides n f)
                      (when ((i == f.iface) && s) (format_mac f.hw == format_mac mac)))
                  (sym same)))

  apply_route_decides :
      (src grp : Ip) (mac : List ℕ) (ifaces : List Text) (n : Nft)
      → AreBytes src
      → AreBytes grp
      → AreBytes mac
      → HasChain n
      → decides (apply_route run (dotted src) (dotted grp) (format_mac mac) ifaces n) f
        ≡ or_else (decides n f) (
            when
              (is_one_of f.iface ifaces && (route_key (dotted src) (dotted grp) == frame_key f))
              (format_mac f.hw == format_mac mac))
  unfolding apply_route is_one_of
  apply_route_decides src grp mac [] n hs hg hm c = sym (or_else-none (decides n f))
  apply_route_decides src grp mac (i ∷ is) n hs hg hm c =
      apply_route_decides src grp mac is
        (apply_to run (dotted src) (dotted grp) (format_mac mac) i n) hs hg hm
        (apply_to-HasChain run HasChain laws.kept (dotted src) (dotted grp) (format_mac mac) i n c)
      ∙ (ap
            (λ d. or_else d (
              when (is_one_of f.iface is && (route_key (dotted src) (dotted grp) == frame_key f))
                (format_mac f.hw == format_mac mac)))
            (apply_to_decides src grp mac i n hs hg hm c)
          ∙ one_more (decides n f) (i == f.iface) (is_one_of f.iface is) _ _)

  apply_parts_decides :
      (key mac : Text) (ifaces : List Text) (n : Nft)
      → IsRoute key mac
      → is_one_of f.iface ifaces ≡ true
      → HasChain n
      → decides (apply_parts run (key_parts (split_colon key)) mac ifaces n) f
        ≡ or_else (decides n f) (when (true && (key == frame_key f)) (format_mac f.hw == mac))
  apply_parts_decides key mac ifaces n (src, grp, hw, hs, hg, hm, ek, em) known c =
      rw (ek, em)
        (rw (key_parts-route_key src grp hs hg)
          (rw (apply_route_decides src grp hw ifaces n hs hg hm c, known) refl))

  -- The loop over the routes, on an interface of the manager.
  pub apply_routes_decides :
      (routes : GoMap Text Text) (ifaces : List Text) (n : Nft)
      → Entries IsRoute routes
      → is_one_of f.iface ifaces ≡ true
      → HasChain n
      → decides (apply_routes run routes ifaces n) f ≡ or_else (decides n f) (decision routes f)
  unfolding apply_routes lookup
  apply_routes_decides [] ifaces n h known c = sym (or_else-none (decides n f))
  apply_routes_decides ((key, mac) ∷ routes) ifaces n (h, others) known c =
      apply_routes_decides routes ifaces
        (apply_parts run (key_parts (split_colon key)) mac ifaces n) others known
        (apply_parts-HasChain run HasChain laws.kept (key_parts (split_colon key)) mac ifaces n c)
      ∙ (ap (λ d. or_else d (decision routes f)) (apply_parts_decides key mac ifaces n h known c)
          ∙ one_route (decides n f) (key == frame_key f) f mac (lookup (frame_key f) routes))

-- What becomes of a packet: one that no rule decides on is accepted.
abbrev pub accepts : Option Bool → Bool
accepts none = true
accepts (some b) = b

verdict_decision :
    (f : Frame) (found : Option Text) → verdict_of found (some f.hw) ≡ accepts (decision_of found f)
verdict_decision f none = refl
verdict_decision f (some mac) = refl

abbrev payload_key : List ℕ → Text
payload_key payload = route_key (dotted (bytes_at 12 payload)) (dotted (bytes_at 16 payload))

long_verdict :
    (b : ℕ) (bs : List ℕ) (hw : Option (List ℕ)) (m : Manager)
    → 20 ≤ length (b ∷ bs)
    → b / 16 ≡ 4
    → payload_verdict (b ∷ bs) hw m ≡ verdict_of (lookup (payload_key (b ∷ bs)) m.routes) hw
long_verdict b bs hw m long v4 =
    let src = address_at_lem 12 (b ∷ bs) (omega arith) in
    let grp = address_at_lem 16 (b ∷ bs) (omega arith) in
    let not_short : ltb (length (b ∷ bs)) 20 ≡ false = ground arith in
    rw (not_short, payload_verdict) (rw v4 (rw (src, grp) refl))

-- The verdict of the hook is the decision that the routes call for.
pub payload_verdict_lem :
    (f : Frame) (m : Manager)
    → IsIpv4 f
    → payload_verdict f.payload (some f.hw) m ≡ accepts (decision m.routes f)
payload_verdict_lem f m ipv4 =
    let (b, bs, e, v4) = ipv4.version in
    subst
      (λ p.
        payload_verdict p (some f.hw) m ≡ accepts (decision_of (lookup (payload_key p) m.routes) f))
      (sym e)
      (long_verdict b bs (some f.hw) m (subst (λ p. 20 ≤ length p) e ipv4.long) v4
        ∙ verdict_decision f _)
