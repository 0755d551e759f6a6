-- ===== src/Mroute/Tests.antt =====
-- internal/mroute: the theorems at concrete routers, routes and packets.
use mathlib.Core.Path.{subst}
use olsr_go.Base.{
  to_lower, ℕ, suc, ◌≤◌, ◌≡◌, ◌≢◌, refl, sym, ap, ◌∙◌, ◌&&◌, ◌++◌, ◌==◌, text_eq, Bool, true, false,
  Option, none, some, List, [], ◌∷◌, arith, Text, codes,
}
use olsr_go.Base.Int.{pos, int_eq}
use olsr_go.Base.Map.{lookup, insert}
use olsr_go.Net.{Ip, to4, dotted}
use olsr_go.Daemon.Send.{parse_or_nil}
use olsr_go.Mroute.Kernel.{
  KernelRouter, succeeded, panicked, register_vif, register_oifs, add_entry, add_checked,
  add_multicast_route,
}
use olsr_go.Mroute.Arp.{resolve_mac_from_arp}
use olsr_go.Mroute.Loops.{
  Command, Attribute, hook_func, format_mac, make_chain, start_nftables, start_nfqueue,
}
use olsr_go.Mroute.Verdicts.{
  Frame, IsIpv4, Evaluates, IsRuleCommand, flushes, accepts_from, drops_from, NeverFails, saddr,
  daddr, or_else, when, is_one_of, accepts,
}
use olsr_go.Mroute.Agree.{
  RouteEvent, route_add, AreProper, new_manager, nftables_after, nfqueue_after, nftables_agrees,
}
use olsr_go.Mroute.Vifs.{IsValid}
use olsr_go.Mroute.Entry.{
  Installs, add_multicast_route-Installs, after_refusals, AreUnknown, after_refusals_exhausted,
}

abbrev sender : Text
sender = codes "10.0.0.1"

abbrev stream : Text
stream = codes "239.1.2.3"

abbrev fresh : KernelRouter
fresh = record { started = true; vif_map = []; next_vif = 0 }

fresh-IsValid : IsValid fresh
unfolding lookup
fresh-IsValid = record {
  in_use = λ i v e. absurd (cc);
  distinct = λ i j v e f. absurd (cc);
  capped = omega arith;
}

-- Interface 2 to the interfaces 4 and 3, of which the kernel accepts all.
entry_example :
    let d = add_multicast_route (λ c. true) sender stream (pos 2) (pos 4 ∷ pos 3 ∷ []) fresh in
    IsValid d.router
    × (d.ending ≢ panicked)
    × (d.ending ≡ succeeded
        → (fresh.started ≡ true)
          × ((src4 : Ip) × (grp4 : Ip) × (to4 (parse_or_nil sender) ≡ some src4)
              × (to4 (parse_or_nil stream) ≡ some grp4)
              × Installs src4 grp4 (pos 2) (pos 4 ∷ pos 3 ∷ []) d))
entry_example =
    add_multicast_route-Installs (λ c. true) sender stream (pos 2) (pos 4 ∷ pos 3 ∷ []) fresh
      fresh-IsValid

entry_made :
    (add_multicast_route (λ c. true) sender stream (pos 2) (pos 4 ∷ pos 3 ∷ []) fresh).ending
    ≡ succeeded
unfolding add_checked add_entry register_vif register_oifs to4 olsr_go.Net.Parse.parse_ip lookup
    insert
entry_made = refl

-- One number is left.
abbrev nearly_full : KernelRouter
nearly_full = record { started = true; vif_map = []; next_vif = 31 }

nearly_full-IsValid : IsValid nearly_full
unfolding lookup
nearly_full-IsValid = record {
  in_use = λ i v e. absurd (cc);
  distinct = λ i j v e f. absurd (cc);
  capped = omega arith;
}

not_known : AreUnknown (pos 8 ∷ pos 7 ∷ []) nearly_full
unfolding lookup
not_known = (refl, (refl, tt))

exhausted_example :
    let r' = after_refusals (pos 7 ∷ []) nearly_full in
    (r'.vif_map ≡ nearly_full.vif_map) × ((register_vif (λ c. true) (pos 8) r').vif ≡ none)
exhausted_example =
    after_refusals_exhausted (pos 7 ∷ []) (pos 8) (λ c. true) nearly_full nearly_full-IsValid
      not_known (omega arith)

-- No table, a table without the chain, or the chain as the decisions of its rules.
data Nft : Type 0 where
  no_table no_chain : Nft
  chain : List (Frame → Option Bool) → Nft

abbrev ChainThere : Nft → Type 0
ChainThere (chain rules) = Unit
ChainThere _ = ⊥

abbrev passes : Text → Text → Text → Frame → Bool
passes i src grp f = (i == f.iface) && ((src == dotted (saddr f)) && (grp == dotted (daddr f)))

-- `delete table` and `add table` have four words each, told apart by their first.
abbrev run_table : Bool → Nft → Nft × Bool
run_table true no_table = (no_table, false)
run_table true n = (no_table, true)
run_table false no_table = (no_chain, true)
run_table false n = (n, true)

abbrev make_empty : Nft → Nft × Bool
make_empty no_table = (no_table, false)
make_empty no_chain = (chain [], true)
make_empty (chain rules) = (chain rules, true)

abbrev flush_all : Nft → Nft × Bool
flush_all (chain rules) = (chain [], true)
flush_all n = (n, false)

abbrev append_rule : (Frame → Option Bool) → Nft → Nft × Bool
append_rule rule (chain rules) = (chain (rules ++ rule ∷ []), true)
append_rule rule n = (n, false)

abbrev run_nft : Command → Nft → Nft × Bool
run_nft (a ∷ b ∷ c ∷ d ∷ []) n = run_table (a == codes "delete") n
run_nft (a ∷ b ∷ c ∷ d ∷ e ∷ []) n = flush_all n
run_nft (a ∷ b ∷ c ∷ d ∷ e ∷ g ∷ []) n = make_empty n
run_nft (a ∷ b ∷ c ∷ d ∷ e ∷ i ∷ iface ∷ g ∷ h ∷ src ∷ j ∷ k ∷ grp ∷ l ∷ []) n =
    append_rule (λ f. when (passes iface src grp f) false) n
run_nft (a ∷ b ∷ c ∷ d ∷ e ∷ i ∷ iface ∷ g ∷ h ∷ src ∷ j ∷ k ∷ grp ∷ l ∷ m ∷ mac ∷ o ∷ []) n =
    append_rule (λ f. when (passes iface src grp f && (format_mac f.hw == mac)) true) n
run_nft _ n = (n, false)

abbrev rules_decide : List (Frame → Option Bool) → Frame → Option Bool
rules_decide [] f = none
rules_decide (rule ∷ rules) f = or_else (rule f) (rules_decide rules f)

abbrev nft_decides : Nft → Frame → Option Bool
nft_decides (chain rules) f = rules_decide rules f
nft_decides _ f = none

last_of : (d : Option Bool) → or_else d none ≡ d
last_of none = refl
last_of (some b) = refl

regroup : (a b c : Option Bool) → or_else a (or_else b c) ≡ or_else (or_else a b) c
regroup none b c = refl
regroup (some a) b c = refl

last_decides :
    (n : List (Frame → Option Bool)) (rule : Frame → Option Bool) (f : Frame)
    → rules_decide (n ++ rule ∷ []) f ≡ or_else (rules_decide n f) (rule f)
last_decides [] rule f = last_of (rule f)
last_decides (first ∷ n) rule f =
    ap (or_else (first f)) (last_decides n rule f) ∙ regroup (first f) (rules_decide n f) (rule f)

rule-ChainThere :
    (c : Command) (n : Nft) → IsRuleCommand c → ChainThere n → ChainThere (run_nft c n).0
rule-ChainThere _ (chain rules) flushes h = tt
rule-ChainThere _ (chain rules) (accepts_from i src grp mac) h = tt
rule-ChainThere _ (chain rules) (drops_from i src grp) h = tt
rule-ChainThere _ no_table c h = absurd h
rule-ChainThere _ no_chain c h = absurd h

nft-NeverFails : NeverFails run_nft ChainThere
nft-NeverFails _ (chain rules) flushes h = refl
nft-NeverFails _ (chain rules) (accepts_from i src grp mac) h = refl
nft-NeverFails _ (chain rules) (drops_from i src grp) h = refl
nft-NeverFails _ no_table c h = absurd h
nft-NeverFails _ no_chain c h = absurd h

table_made : (n : Nft) → (make_chain run_nft n).0 ≡ chain []
unfolding olsr_go.Base.text_beq
table_made no_table = refl
table_made no_chain = refl
table_made (chain rules) = refl

last_rule :
    (n : Nft) (rule : Frame → Option Bool) (f : Frame)
    → ChainThere n
    → nft_decides (append_rule rule n).0 f ≡ or_else (nft_decides n f) (rule f)
last_rule (chain rules) rule f h = last_decides rules rule f
last_rule no_table rule f h = absurd h
last_rule no_chain rule f h = absurd h

flushed_empty : (n : Nft) (f : Frame) → ChainThere n → nft_decides (flush_all n).0 f ≡ none
flushed_empty (chain rules) f h = refl
flushed_empty no_table f h = refl
flushed_empty no_chain f h = refl

nft-Evaluates : Evaluates run_nft ChainThere nft_decides
nft-Evaluates = record {
  made = λ n m. subst ChainThere (sym (table_made n)) tt;
  made_empty = λ n f m. ap (λ x. nft_decides x f) (table_made n);
  kept = rule-ChainThere;
  flushed = λ n f h m. flushed_empty n f h;
  accepted = λ n f i src grp mac v4 hs hg hm h m. last_rule n _ f h;
  dropped = λ n f i src grp v4 hs hg h m. last_rule n _ f h;
}

abbrev arp_lines : List Text
arp_lines =
    codes "IP address       HW type     Flags       HW address            Mask     Device"
    ∷ codes "10.0.0.2         0x1         0x2         02:00:00:00:00:0a     *        wlan0"
    ∷ []

some_injective : (s t : Text) → some s ≡ some t → s ≡ t
some_injective s t e = cc

abbrev neighbour_mac : List ℕ
neighbour_mac = 2 ∷ 0 ∷ 0 ∷ 0 ∷ 0 ∷ 10 ∷ []

abbrev one_route : List RouteEvent
one_route =
    route_add (some arp_lines) (10 ∷ 0 ∷ 0 ∷ 1 ∷ []) (239 ∷ 1 ∷ 2 ∷ 3 ∷ []) (codes "10.0.0.2") ∷ []

next_hop_found :
    resolve_mac_from_arp (some arp_lines) (codes "10.0.0.2") ≡ some (codes "02:00:00:00:00:0a")
unfolding resolve_mac_from_arp olsr_go.Base.text_beq
next_hop_found = refl

neighbour_text : to_lower (codes "02:00:00:00:00:0a") ≡ format_mac neighbour_mac
unfolding to_lower format_mac
neighbour_text = refl

one_route-AreProper : AreProper one_route
one_route-AreProper = (
  (
    ground arith,
    ground arith,
    λ mac e. (
      neighbour_mac,
      ground arith,
      ap to_lower (some_injective mac _ (sym e ∙ next_hop_found)) ∙ neighbour_text,
    ),
  ),
  tt,
)

-- A packet of the stream from another neighbour.
abbrev strayed : Frame
strayed = record {
  iface = codes "wlan0";
  payload =
      69 ∷ 0 ∷ 0 ∷ 20 ∷ 0 ∷ 0 ∷ 0 ∷ 0 ∷ 8 ∷ 17 ∷ 0 ∷ 0 ∷ 10 ∷ 0 ∷ 0 ∷ 1 ∷ 239 ∷ 1 ∷ 2 ∷ 3 ∷ [];
  hw = 2 ∷ 0 ∷ 0 ∷ 0 ∷ 0 ∷ 11 ∷ [];
}

strayed-IsIpv4 : IsIpv4 strayed
strayed-IsIpv4 = record { long = omega arith; version = (69, _, refl, refl); bytes = ground arith }

agrees_example :
    let rules =
      nftables_after run_nft one_route
        (start_nftables run_nft (codes "wlan0" ∷ []) (new_manager, no_table)).0 in
    let queue =
      nfqueue_after one_route
        (start_nfqueue run_nft true (codes "wlan0" ∷ []) (new_manager, no_table)).0.0 in
    hook_func
      (record { packet_id = some 7; payload = some strayed.payload; hw_addr = some strayed.hw })
      queue
    ≡ some (accepts (nft_decides rules.1 strayed))
unfolding is_one_of olsr_go.Base.text_beq
agrees_example =
    nftables_agrees run_nft ChainThere nft_decides nft-Evaluates nft-NeverFails (codes "wlan0" ∷ [])
      true no_table no_table one_route strayed 7 refl one_route-AreProper strayed-IsIpv4 refl

strayed_dropped :
    let rules =
      nftables_after run_nft one_route
        (start_nftables run_nft (codes "wlan0" ∷ []) (new_manager, no_table)).0 in
    nft_decides rules.1 strayed ≡ some false
unfolding nftables_after resolve_mac_from_arp olsr_go.Base.text_beq
    olsr_go.Mroute.Loops.apply_routes insert dotted format_mac to_lower olsr_go.Base.split_on
strayed_dropped = refl
