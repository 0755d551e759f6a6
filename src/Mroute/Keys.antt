-- ===== src/Mroute/Keys.antt =====
-- internal/mroute/loopprevention_linux.go: the keys of the routes, "source:group", of IPv4 addresses.
use olsr_go.Base.{
  split_on, ℕ, suc, ◌+◌, ◌<◌, ◌≤◌, ◌≡◌, ◌≢◌, refl, sym, ap, ◌∙◌, Option, some, List, [], ◌∷◌, ◌++◌,
  All, length, take, drop, length-take, length-drop, arith, Text, text_eq, ◌==◌, ◌&&◌,
}
use olsr_go.Net.{Ip, to4, itoa, dotted, v4_in_v6_prefix, ip_string}
use olsr_go.Mroute.Loops.{split_colon, key_parts, route_key, address_at}

abbrev pub AreBytes : List ℕ → Type 0
AreBytes bs = All (λ b. b < 256) bs

abbrev NoColon : Text → Type 0
NoColon s = All (λ c. c ≢ 58) s

append-NoColon : (s t : Text) → NoColon s → NoColon t → NoColon (s ++ t)
append-NoColon [] t h k = k
append-NoColon (c ∷ s) t (h, hs) k = (h, append-NoColon s t hs k)

itoa-NoColon : (b : ℕ) → b < 256 → NoColon (itoa b)
unfolding itoa
itoa-NoColon b h = ground (arith, h)

dotted-NoColon : (ip : Ip) → AreBytes ip → NoColon (dotted ip)
unfolding dotted
dotted-NoColon [] h = tt
dotted-NoColon (a ∷ []) (h, hs) = itoa-NoColon a h
dotted-NoColon (a ∷ b ∷ ip) (h, hs) =
    append-NoColon (itoa a) _ (itoa-NoColon a h)
      ((λ e. omega (arith, e)), dotted-NoColon (b ∷ ip) hs)

split_one : (s : Text) → NoColon s → split_colon s ≡ (s, [])
unfolding split_on
split_one [] h = refl
split_one (c ∷ s) (h, hs) = ground (arith, h, split_one s hs)

split-route_key : (s t : Text) → NoColon s → NoColon t → split_colon (route_key s t) ≡ (s, t ∷ [])
unfolding split_on
split-route_key [] t h k = ground (arith, split_one t k)
split-route_key (c ∷ s) t (h, hs) k = ground (arith, h, split-route_key s t hs k)

-- The parts of the key of two addresses.
pub key_parts-route_key :
    (src grp : Ip)
    → AreBytes src
    → AreBytes grp
    → key_parts (split_colon (route_key (dotted src) (dotted grp))) ≡ some (dotted src, dotted grp)
key_parts-route_key src grp hs hg =
    ap key_parts
      (split-route_key (dotted src) (dotted grp) (dotted-NoColon src hs) (dotted-NoColon grp hg))

pair_injective :
    (a b c d : Text)
    → ◌≡◌ {A = Option (Text × Text)} (some (a, b)) (some (c, d))
    → (a ≡ c) × (b ≡ d)
pair_injective a b c d e = (cc, cc)

-- Two keys are equal just where both addresses are.
pub route_key_same :
    (src grp src' grp' : Ip)
    → AreBytes src
    → AreBytes grp
    → AreBytes src'
    → AreBytes grp'
    → (route_key (dotted src) (dotted grp) == route_key (dotted src') (dotted grp'))
      ≡ ((dotted src == dotted src') && (dotted grp == dotted grp'))
route_key_same src grp src' grp' hs hg hs' hg' =
    let key = route_key (dotted src) (dotted grp) in
    let key' = route_key (dotted src') (dotted grp') in
    let apart : key ≡ key' → (dotted src ≡ dotted src') × (dotted grp ≡ dotted grp') = λ e.
      pair_injective (dotted src) (dotted grp) (dotted src') (dotted grp') (
        sym (key_parts-route_key src grp hs hg)
        ∙ (ap (λ k. key_parts (split_colon k)) e ∙ key_parts-route_key src' grp' hs' hg')) in
    ground (
      arith,
      apart,
      text_eq.beq_iff key key',
      text_eq.beq_iff (dotted src) (dotted src'),
      text_eq.beq_iff (dotted grp) (dotted grp'),
    )

take-AreBytes : (n : ℕ) (bs : List ℕ) → AreBytes bs → AreBytes (take n bs)
take-AreBytes ℕ.zero bs h = tt
take-AreBytes (suc n) [] h = tt
take-AreBytes (suc n) (b ∷ bs) (h, hs) = (h, take-AreBytes n bs hs)

drop-AreBytes : (n : ℕ) (bs : List ℕ) → AreBytes bs → AreBytes (drop n bs)
drop-AreBytes ℕ.zero bs h = h
drop-AreBytes (suc n) [] h = tt
drop-AreBytes (suc n) (b ∷ bs) (h, hs) = drop-AreBytes n bs hs

-- The four bytes of an address in a packet.
abbrev pub bytes_at : ℕ → List ℕ → Ip
bytes_at i payload = take 4 (drop i payload)

pub bytes_at-AreBytes :
    (i : ℕ) (payload : List ℕ) → AreBytes payload → AreBytes (bytes_at i payload)
bytes_at-AreBytes i payload h = take-AreBytes 4 (drop i payload) (drop-AreBytes i payload h)

dotted_v4 : (ip : Ip) → length ip ≡ 4 → ip_string (v4_in_v6_prefix ++ ip) ≡ dotted ip
unfolding ip_string v4_in_v6_prefix to4
dotted_v4 [] l = absurd (omega arith)
dotted_v4 (a ∷ []) l = absurd (omega arith)
dotted_v4 (a ∷ b ∷ []) l = absurd (omega arith)
dotted_v4 (a ∷ b ∷ c ∷ []) l = absurd (omega arith)
dotted_v4 (a ∷ b ∷ c ∷ d ∷ []) l = refl
dotted_v4 (a ∷ b ∷ c ∷ d ∷ e ∷ ip) l = absurd (omega arith)

pub address_at_lem :
    (i : ℕ) (payload : List ℕ)
    → i + 4 ≤ length payload
    → address_at i payload ≡ dotted (bytes_at i payload)
address_at_lem i payload h =
    dotted_v4 (bytes_at i payload)
      (let t = length-take 4 (drop i payload) in let d = length-drop i payload in omega arith)
