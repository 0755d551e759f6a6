-- ===== src/Spf/Routes/Lookup.antt =====
-- internal/olsr/spf.go: GetNextHopForDest.
use mathlib.Core.Logic.{◌↔◌}
use olsr_go.Base.{
  ℕ, ◌≤◌, ◌≡◌, refl, sym, ◌∙◌, inl, inr, Option, none, some, [], ◌∷◌, ltb, arith, Text, text_eq,
  if◌then◌else◌, Bool-cases, Option-cases,
}
use olsr_go.Base.Int.{ℤ}
use olsr_go.Base.Map.{GoMap, lookup, Entries}
use olsr_go.Net.{Ip}
use olsr_go.Net.Parse.{parse_ip, parse_cidr, contains, mask_size}
use olsr_go.Spf.{Route}
use olsr_go.Spf.Routes.{host_prefix}

-- The mask length of a route whose prefix parses and covers the address.
unfoldable pub covering : Ip → Route → Option ℕ
covering ip r = elim (parse_cidr r.prefix) [
  | none ↦ none
  | some net ↦ if contains net ip then some (mask_size net) else none
]

-- bestMaskLen and bestRoute; `none` is a bestMaskLen of -1.
abbrev pub BestMatch : Type 0
BestMatch = Option (ℕ × Route)

abbrev pub better_match : Option ℕ → Route → BestMatch → BestMatch
better_match none r best = best
better_match (some len) r none = some (len, r)
better_match (some len) r (some (best_len, best)) =
    if ltb best_len len then some (len, r) else some (best_len, best)

-- The loop over the active routes.
unfoldable pub best_match : Ip → GoMap Text Route → BestMatch → BestMatch
best_match ip [] best = best
best_match ip ((k, r) ∷ rest) best = best_match ip rest (better_match (covering ip r) r best)

abbrev pub next_hop_of : BestMatch → Option (Text × ℤ)
next_hop_of none = none
next_hop_of (some (len, r)) = some (r.next_hop, r.iface_index)

-- The next hop and the interface; `none` for both errors.
unfoldable pub get_next_hop_for_dest : Text → GoMap Text Route → Option (Text × ℤ)
unfolding best_match covering
get_next_hop_for_dest dest active = elim (lookup (host_prefix dest) active) [
  | some r ↦ some (r.next_hop, r.iface_index)
  | none ↦ elim (parse_ip dest) [ none ↦ none | some ip ↦ next_hop_of (best_match ip active none) ]
]

-- The route is no better than the best one.
abbrev NoBetter : Ip → BestMatch → Route → Type 0
NoBetter ip none r = covering ip r ≡ none
NoBetter ip (some (len, best)) r = (n : ℕ) → covering ip r ≡ some n → n ≤ len

abbrev IsFrom : Ip → GoMap Text Route → BestMatch → Type 0
IsFrom ip active none = Unit
IsFrom ip active (some (len, best)) =
    (covering ip best ≡ some len) × ((k : Text) × (lookup k active ≡ some best))

-- The best so far only grows.
abbrev Grows : BestMatch → BestMatch → Type 0
Grows none b = Unit
Grows (some (len, r)) none = len ≡ len → ⊥
Grows (some (len, r)) (some (len', r')) = len ≤ len'

Grows-trans : (a b c : BestMatch) → Grows a b → Grows b c → Grows a c
Grows-trans none b c p q = tt
Grows-trans (some (l, r)) none c p q = absurd (p refl)
Grows-trans (some (l, r)) (some (m, s)) none p q = absurd (q refl)
Grows-trans (some (l, r)) (some (m, s)) (some (n, t)) p q = omega arith

Grows-refl : (a : BestMatch) → Grows a a
Grows-refl none = tt
Grows-refl (some (l, r)) = omega arith

better_match-Grows : (o : Option ℕ) (r : Route) (b : BestMatch) → Grows b (better_match o r b)
better_match-Grows none r b = Grows-refl b
better_match-Grows (some len) r none = tt
better_match-Grows (some len) r (some (l, best)) = elim (Bool-cases (ltb l len)) [
  | inl longer ↦ rw longer (ground arith)
  | inr not_longer ↦ rw not_longer (omega arith)
]

best_match-Grows : (ip : Ip) (m : GoMap Text Route) (b : BestMatch) → Grows b (best_match ip m b)
unfolding best_match
best_match-Grows ip [] b = Grows-refl b
best_match-Grows ip ((k, r) ∷ m) b =
    Grows-trans b _ _ (better_match-Grows (covering ip r) r b)
      (best_match-Grows ip m (better_match (covering ip r) r b))

-- The new best is no worse than the route that it was compared with.
better_match-NoBetter :
    (ip : Ip) (r : Route) (o : Option ℕ) (b c : BestMatch)
    → covering ip r ≡ o
    → Grows (better_match o r b) c
    → NoBetter ip c r
better_match-NoBetter ip r none b none e g = e
better_match-NoBetter ip r none b (some (l, best)) e g =
    λ n q. absurd (let f : none ≡ some n = sym e ∙ q in cc)
better_match-NoBetter ip r (some len) none none e g = absurd (g refl)
better_match-NoBetter ip r (some len) none (some (l, best)) e g =
    λ n q. (let f : some len ≡ some n = sym e ∙ q in ground (arith, f, g))
better_match-NoBetter ip r (some len) (some (m, s)) none e g = elim (Bool-cases (ltb m len)) [
  | inl longer ↦ absurd (let g' = rw longer at g in g' refl)
  | inr not_longer ↦ absurd (let g' = rw not_longer at g in g' refl)
]
better_match-NoBetter ip r (some len) (some (m, s)) (some (n, t)) e g =
    let le : len ≤ n = elim (Bool-cases (ltb m len)) [
      | inl longer ↦ (let g' = rw longer at g in omega (arith, g'))
      | inr not_longer ↦ (let g' = rw not_longer at g in ground (arith, g', not_longer))
    ] in
    λ k q. (let f : some len ≡ some k = sym e ∙ q in ground (arith, f, le))

best_match-NoBetter :
    (ip : Ip) (m : GoMap Text Route) (b : BestMatch)
    → Entries (λ k r. NoBetter ip (best_match ip m b) r) m
unfolding best_match
best_match-NoBetter ip [] b = tt
best_match-NoBetter ip ((k, r) ∷ m) b =
    let next = better_match (covering ip r) r b in
    (
      better_match-NoBetter ip r (covering ip r) b (best_match ip m next) refl
          (best_match-Grows ip m next),
      best_match-NoBetter ip m next,
    )

get_next_hop_for_dest_lem :
    (dest : Text) (ip : Ip) (active : GoMap Text Route)
    → lookup (host_prefix dest) active ≡ none
    → parse_ip dest ≡ some ip
    → get_next_hop_for_dest dest active ≡ next_hop_of (best_match ip active none)
unfolding get_next_hop_for_dest
get_next_hop_for_dest_lem dest ip active no_host parses =
    rw (no_host, parses, get_next_hop_for_dest)

best_match_uncovered :
    (ip : Ip) (m : GoMap Text Route)
    → Entries (λ k r. covering ip r ≡ none) m
    → best_match ip m none ≡ none
unfolding best_match
best_match_uncovered ip [] h = refl
best_match_uncovered ip ((k, r) ∷ m) h = rw h.0 (best_match_uncovered ip m h.1)

-- Without a host route to the address, GetNextHopForDest fails exactly if no active route covers it.
pub get_next_hop_for_dest_fails :
    (dest : Text) (ip : Ip) (active : GoMap Text Route)
    → lookup (host_prefix dest) active ≡ none
    → parse_ip dest ≡ some ip
    → (get_next_hop_for_dest dest active ≡ none) ↔ Entries (λ k r. covering ip r ≡ none) active
unfolding get_next_hop_for_dest
get_next_hop_for_dest_fails dest ip active no_host parses = (
  λ failed.
      (let failed' = sym (get_next_hop_for_dest_lem dest ip active no_host parses) ∙ failed in
        elim (Option-cases (best_match ip active none)) [
          | inl e ↦ rw e at (best_match-NoBetter ip active none)
          | inr ((len, r), e) ↦ absurd (let f = rw e at failed' in cc)
        ]),
  λ uncovered.
      let nothing = best_match_uncovered ip active uncovered in
      get_next_hop_for_dest_lem dest ip active no_host parses ∙ rw nothing refl,
)
