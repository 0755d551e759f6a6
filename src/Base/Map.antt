-- ===== src/Base/Map.antt =====
-- Go's maps, as association lists in the order in which a `range` meets the entries.
use mathlib.Core.Path.{◌≡◌, refl, sym, ap}
use mathlib.Core.Bool.{Bool}
use mathlib.Core.Logic.{inl, inr}
use mathlib.Core.Option.{Option, none, some}
use mathlib.Core.List.{List, [], ◌∷◌}
use native.Mathlib.Omega.{arith}
use Prim.Native.Nat.{◌≤◌}
use olsr_go.Base.Lists.{length}
use olsr_go.Base.Tests.{Eq, ◌==◌, ==_refl, if◌then◌else◌, Bool-cases}

abbrev pub GoMap {ℓ κ} : Type ℓ → Type κ → Type (ℓ ⊔ κ)
GoMap K V = List (K × V)

module _ {ℓ κ} {K : Type ℓ} {V : Type κ} ⦃e : Eq K⦄ where
  -- v, ok := m[k]
  unfoldable pub lookup : K → GoMap K V → Option V
  lookup key [] = none
  lookup key ((k, found) ∷ others) = if k == key then some found else lookup key others

  -- delete(m, k)
  unfoldable pub delete : K → GoMap K V → GoMap K V
  delete k [] = []
  delete k ((j, v) ∷ m) = let rest = delete k m in if j == k then rest else (j, v) ∷ rest

  -- m[k] = v: in the place of the old value, or else at the end
  unfoldable pub insert : K → V → GoMap K V → GoMap K V
  insert key new [] = (key, new) ∷ []
  insert key new ((k, old) ∷ others) =
      if k == key then (key, new) ∷ others else (k, old) ∷ insert key new others

  pub lookup-insert :
      (key asked : K) (new : V) (m : GoMap K V)
      → lookup asked (insert key new m) ≡ (if key == asked then some new else lookup asked m)
  unfolding insert lookup
  lookup-insert key asked new [] = refl
  lookup-insert key asked new ((k, old) ∷ others) =
      let ih = lookup-insert key asked new others in
      ground (arith, ih, e.beq_iff key asked, e.beq_iff k key, e.beq_iff k asked)

  pub lookup-delete :
      (k j : K) (m : GoMap K V) → lookup j (delete k m) ≡ (if k == j then none else lookup j m)
  unfolding lookup delete
  lookup-delete k j [] = ground arith
  lookup-delete k j ((i, w) ∷ m) =
      ground (arith, e.beq_iff k j, e.beq_iff i k, e.beq_iff i j, lookup-delete k j m)

module _ {ℓ κ} {K : Type ℓ} {V : Type κ} ⦃e : Eq K⦄ where
  -- No key stands twice, as in a Go map.
  abbrev pub IsMap : GoMap K V → Type (ℓ ⊔ κ)
  IsMap [] = Unit {ℓ ⊔ κ}
  IsMap ((k, v) ∷ m) = (lookup k m ≡ none) × IsMap m

module _ {ℓ κ} {K : Type ℓ} {V : Type κ} where
  -- A predicate of every entry.
  abbrev pub Entries {μ} : (K → V → Type μ) → GoMap K V → Type μ
  Entries P [] = Unit {μ}
  Entries P ((k, v) ∷ m) = P k v × Entries P m

  -- The entries that pass a test: a loop that deletes the others.
  unfoldable pub keep : (K → V → Bool) → GoMap K V → GoMap K V
  keep p [] = []
  keep p ((k, v) ∷ m) = let rest = keep p m in if p k v then (k, v) ∷ rest else rest

  abbrev pub kept : (K → V → Bool) → K → Option V → Option V
  kept p k none = none
  kept p k (some v) = if p k v then some v else none

module _ {ℓ κ} {K : Type ℓ} {V : Type κ} ⦃e : Eq K⦄ where
  pub insert-IsMap : (k : K) (v : V) (m : GoMap K V) → IsMap m → IsMap (insert k v m)
  unfolding insert
  insert-IsMap k v [] h = unfold lookup in (refl, h)
  insert-IsMap k v ((j, w) ∷ m) (hj, hm) = elim (Bool-cases (j == k)) [
    | inl same ↦ let p : k ≡ j = sym ((e.beq_iff j k).0 same) in rw (same, p) (hj, hm)
    | inr other ↦
        let q : lookup j (insert k v m) ≡ none =
          rw lookup-insert (ground (arith, e.beq_iff k j, e.beq_iff j k)) in
        rw other (q, insert-IsMap k v m hm)
  ]

  pub lookup-keep :
      (p : K → V → Bool) (k : K) (m : GoMap K V)
      → IsMap m
      → lookup k (keep p m) ≡ kept p k (lookup k m)
  unfolding lookup keep
  lookup-keep p k [] h = refl
  lookup-keep p k ((j, w) ∷ m) (hj, hm) = elim (Bool-cases (j == k)) [
    | inl same ↦
        let q : k ≡ j = sym ((e.beq_iff j k).0 same) in
        let gone : lookup k m ≡ none = rw q hj in
        let ih = lookup-keep p k m hm in ground (arith, ap (λ (a : K). p a w) q)
    | inr other ↦ let ih = lookup-keep p k m hm in ground arith
  ]

  pub keep-IsMap : (p : K → V → Bool) (m : GoMap K V) → IsMap m → IsMap (keep p m)
  unfolding keep
  keep-IsMap p [] h = h
  keep-IsMap p ((j, w) ∷ m) (hj, hm) = elim (Bool-cases (p j w)) [
    | inl in' ↦ rw in' (rw (lookup-keep p j m hm, hj), keep-IsMap p m hm)
    | inr out ↦ rw out (keep-IsMap p m hm)
  ]

  pub delete-IsMap : (k : K) (m : GoMap K V) → IsMap m → IsMap (delete k m)
  unfolding delete
  delete-IsMap k [] h = h
  delete-IsMap k ((j, w) ∷ m) (hj, hm) = elim (Bool-cases (j == k)) [
    | inl same ↦ rw same (delete-IsMap k m hm)
    | inr other ↦
        let q : lookup j (delete k m) ≡ none =
          rw (lookup-delete, hj) (ground (arith, e.beq_iff k j, e.beq_iff j k)) in
        rw other (q, delete-IsMap k m hm)
  ]

  pub delete-Entries {μ} :
      (P : K → V → Type μ) (k : K) (m : GoMap K V) → Entries P m → Entries P (delete k m)
  unfolding delete
  delete-Entries P k [] h = h
  delete-Entries P k ((j, v) ∷ m) (hj, hm) = elim (Bool-cases (j == k)) [
    | inl same ↦ rw same (delete-Entries P k m hm)
    | inr other ↦ rw other (hj, delete-Entries P k m hm)
  ]

  pub Entries-lookup {μ} :
      (P : K → V → Type μ) (k : K) (v : V) (m : GoMap K V)
      → Entries P m
      → lookup k m ≡ some v
      → P k v
  unfolding lookup
  Entries-lookup P k v [] h q = absurd (cc)
  Entries-lookup P k v ((j, w) ∷ m) (hj, hm) q = elim (Bool-cases (j == k)) [
    | inl same ↦
        let pk : j ≡ k = (e.beq_iff j k).0 same in
        let pv : w ≡ v = ground arith in rw pk at (rw pv at hj)
    | inr other ↦ Entries-lookup P k v m hm (ground arith)
  ]

  -- What holds of every value that a lookup finds holds of every entry.
  pub lookup-Entries {μ} :
      (P : K → V → Type μ) (m : GoMap K V)
      → IsMap m
      → ((k : K) (v : V) → lookup k m ≡ some v → P k v)
      → Entries P m
  unfolding lookup
  lookup-Entries P [] h all = tt
  lookup-Entries P ((j, w) ∷ m) (hj, hm) all = (
    all j w (ground (arith, ==_refl j)),
    lookup-Entries P m hm (λ k v q. all k v (ground (arith, e.beq_iff j k, hj))),
  )

module _ {ℓ κ} {K : Type ℓ} {V : Type κ} where
  pub Entries-map {μ ν} :
      (P : K → V → Type μ) (Q : K → V → Type ν) (m : GoMap K V)
      → ((k : K) (v : V) → P k v → Q k v)
      → Entries P m
      → Entries Q m
  Entries-map P Q [] f h = tt
  Entries-map P Q ((k, v) ∷ m) f (hk, hm) = (f k v hk, Entries-map P Q m f hm)

  pub length-keep-le : (p : K → V → Bool) (m : GoMap K V) → length (keep p m) ≤ length m
  unfolding keep
  length-keep-le p [] = omega arith
  length-keep-le p ((k, v) ∷ m) = ground (arith, length-keep-le p m)

  pub Entries-keep {μ} :
      (P : K → V → Type μ) (p : K → V → Bool) (m : GoMap K V) → Entries P m → Entries P (keep p m)
  unfolding keep
  Entries-keep P p [] h = h
  Entries-keep P p ((k, v) ∷ m) (hk, hm) = elim (Bool-cases (p k v)) [
    | inl in' ↦ rw in' (hk, Entries-keep P p m hm)
    | inr out ↦ rw out (Entries-keep P p m hm)
  ]

module _ {ℓ κ} {K : Type ℓ} {V : Type κ} ⦃e : Eq K⦄ where
  pub insert-Entries {μ} :
      (P : K → V → Type μ) (k : K) (v : V) (m : GoMap K V)
      → P k v
      → Entries P m
      → Entries P (insert k v m)
  unfolding insert
  insert-Entries P k v [] p h = (p, h)
  insert-Entries P k v ((j, w) ∷ m) p (hj, hm) = elim (Bool-cases (j == k)) [
    | inl same ↦ rw same (p, hm)
    | inr other ↦ rw other (hj, insert-Entries P k v m p hm)
  ]
