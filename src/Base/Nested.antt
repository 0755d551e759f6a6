-- ===== src/Base/Nested.antt =====
-- Maps of maps, and the loops that age them out.
use mathlib.Core.Path.{◌≡◌, refl, sym, ap, ◌∙◌}
use mathlib.Core.Logic.{inl, inr}
use mathlib.Core.Bool.{Bool, true, false, ◌&&◌, ◌||◌, not}
use mathlib.Core.Option.{Option, none, some}
use mathlib.Core.List.{List, [], ◌∷◌, ◌++◌}
use olsr_go.Base.Tests.{Eq, ◌==◌, if◌then◌else◌, Bool-cases, Option-cases}
use olsr_go.Base.Map.{
  GoMap, lookup, insert, delete, keep, kept, IsMap, Entries, lookup-insert, lookup-keep,
  insert-IsMap, keep-IsMap, insert-Entries, Entries-lookup,
}

abbrev pub inner {ℓ κ} : {J : Type ℓ} {V : Type κ} → Option (GoMap J V) → GoMap J V
inner none = []
inner (some n) = n

abbrev pub is_empty {ℓ} : {A : Type ℓ} → List A → Bool
is_empty [] = true
is_empty (a ∷ l) = false

is_empty→eq {ℓ} : {A : Type ℓ} (l : List A) → is_empty l ≡ true → l ≡ []
is_empty→eq [] h = refl
is_empty→eq (a ∷ l) h = absurd (cc)

module _ {ℓ κ} {J : Type ℓ} {V : Type κ} where
  -- Some value passes the test.
  unfoldable pub any_value : (V → Bool) → GoMap J V → Bool
  any_value p [] = false
  any_value p ((j, v) ∷ m) = p v || any_value p m

module _ {ℓ κ} {K : Type ℓ} {V : Type κ} where
  abbrev pub values : GoMap K V → List V
  values [] = []
  values ((k, v) ∷ m) = v ∷ values m

  abbrev pub keys : GoMap K V → List K
  keys [] = []
  keys ((k, v) ∷ m) = k ∷ keys m

module _ {ℓ κ μ} {K : Type ℓ} {J : Type κ} {V : Type μ} where
  abbrev pub all_values : GoMap K (GoMap J V) → List V
  all_values [] = []
  all_values ((k, n) ∷ m) = values n ++ all_values m

  unfoldable pub any_inner : (V → Bool) → GoMap K (GoMap J V) → Bool
  any_inner p [] = false
  any_inner p ((k, n) ∷ m) = any_value p n || any_inner p m

  -- For each inner map: delete the expired entries, then the map itself if that leaves it empty.
  unfoldable pub sweep : (V → Bool) → GoMap K (GoMap J V) → GoMap K (GoMap J V)
  sweep expired [] = []
  sweep expired ((k, n) ∷ m) =
      let rest = sweep expired m in
      let live = keep (λ j v. not (expired v)) n in if is_empty live then rest else (k, live) ∷ rest

module _ {ℓ κ μ} {K : Type ℓ} {J : Type κ} {V : Type μ} ⦃e : Eq K⦄ ⦃f : Eq J⦄ where
  -- m[k][j], where a read from a missing inner map finds nothing
  abbrev pub lookup2 : K → J → GoMap K (GoMap J V) → Option V
  lookup2 k j m = lookup j (inner (lookup k m))

  -- m[k][j] = v, the inner map made first where it is missing
  unfoldable pub insert2 : K → J → V → GoMap K (GoMap J V) → GoMap K (GoMap J V)
  insert2 k j v m = insert k (insert j v (inner (lookup k m))) m

  -- if n, ok := m[k]; ok { delete(n, j) }
  unfoldable pub delete2 : K → J → GoMap K (GoMap J V) → GoMap K (GoMap J V)
  delete2 k j m = elim (lookup k m) [ none ↦ m | some n ↦ insert k (delete j n) m ]

  abbrev pub IsNested : GoMap K (GoMap J V) → Type (ℓ ⊔ κ ⊔ μ)
  IsNested m = IsMap m × Entries (λ k n. IsMap n) m

  pub lookup2-insert2 :
      (k a : K) (j b : J) (v : V) (m : GoMap K (GoMap J V))
      → lookup2 a b (insert2 k j v m) ≡ (if k == a && j == b then some v else lookup2 a b m)
  unfolding insert2
  lookup2-insert2 k a j b v m =
      rw (lookup-insert, inner)
        (elim (Bool-cases (k == a)) [
          | inr other ↦ rw other
          | inl same ↦
              let p : lookup k m ≡ lookup a m =
                ap (λ (x : K). lookup x m) ((e.beq_iff k a).0 same) in
              rw (same, p) (rw lookup-insert)
        ])

  pub insert2-IsNested :
      (k : K) (j : J) (v : V) (m : GoMap K (GoMap J V)) → IsNested m → IsNested (insert2 k j v m)
  unfolding insert2
  insert2-IsNested k j v m (h, hs) = (
    insert-IsMap k _ m h,
    insert-Entries (λ k n. IsMap n) k _ m
        (insert-IsMap j v _ (elim (Option-cases (lookup k m)) [
          | inl q ↦ rw q tt
          | inr (n, q) ↦ rw q (Entries-lookup (λ k n. IsMap n) k n m hs q)
        ]))
        hs,
  )

  sweep_missing :
      (expired : V → Bool) (a : K) (m : GoMap K (GoMap J V))
      → lookup a m ≡ none
      → lookup a (sweep expired m) ≡ none
  unfolding sweep lookup
  sweep_missing expired a [] h = refl
  sweep_missing expired a ((k, n) ∷ m) h = elim (Bool-cases (k == a)) [
    | inl same ↦ absurd (let q : some n ≡ none = rw same at h in cc)
    | inr other ↦
        let ih = sweep_missing expired a m (rw other at h) in
        elim (Bool-cases (is_empty (keep (λ j v. not (expired v)) n))) [
          | inl empty ↦ rw empty ih
          | inr full ↦ rw (full, other) ih
        ]
  ]

  sweep_empty :
      (expired : V → Bool) (a : K) (b : J) (k : K) (n : GoMap J V) (m : GoMap K (GoMap J V))
      → (k == a) ≡ true
      → IsMap n
      → is_empty (keep (λ j v. not (expired v)) n) ≡ true
      → lookup a (sweep expired m) ≡ none
      → lookup2 a b (sweep expired ((k, n) ∷ m))
        ≡ kept (λ j v. not (expired v)) b (lookup2 a b ((k, n) ∷ m))
  unfolding sweep lookup
  sweep_empty expired a b k n m same g empty gone =
      let p = λ (j : J) (v : V). not (expired v) in
      let all : kept p b (lookup b n) ≡ lookup b [] =
        sym (lookup-keep p b n g) ∙ ap (λ (l : GoMap J V). lookup b l) (is_empty→eq _ empty) in
      rw (same, empty, gone) (sym all)

  sweep_full :
      (expired : V → Bool) (a : K) (b : J) (k : K) (n : GoMap J V) (m : GoMap K (GoMap J V))
      → (k == a) ≡ true
      → IsMap n
      → is_empty (keep (λ j v. not (expired v)) n) ≡ false
      → lookup2 a b (sweep expired ((k, n) ∷ m))
        ≡ kept (λ j v. not (expired v)) b (lookup2 a b ((k, n) ∷ m))
  unfolding sweep lookup
  sweep_full expired a b k n m same g full =
      rw (same, full, same) (lookup-keep (λ j v. not (expired v)) b n g)

  sweep_other :
      (expired : V → Bool) (a : K) (b : J) (k : K) (n : GoMap J V) (m : GoMap K (GoMap J V))
      → (k == a) ≡ false
      → lookup2 a b (sweep expired m) ≡ kept (λ j v. not (expired v)) b (lookup2 a b m)
      → lookup2 a b (sweep expired ((k, n) ∷ m))
        ≡ kept (λ j v. not (expired v)) b (lookup2 a b ((k, n) ∷ m))
  unfolding sweep lookup
  sweep_other expired a b k n m other ih =
      elim (Bool-cases (is_empty (keep (λ j v. not (expired v)) n))) [
        | inl empty ↦ rw (other, empty) ih
        | inr full ↦ rw (other, full, other) ih
      ]

  -- After the sweep what had expired is gone, and all else is as it was.
  pub lookup2-sweep :
      (expired : V → Bool) (a : K) (b : J) (m : GoMap K (GoMap J V))
      → IsNested m
      → lookup2 a b (sweep expired m) ≡ kept (λ j v. not (expired v)) b (lookup2 a b m)
  lookup2-sweep expired a b [] h = unfold sweep lookup in refl
  lookup2-sweep expired a b ((k, n) ∷ m) ((h, hs), (g, gs)) =
      let p = λ (j : J) (v : V). not (expired v) in
      let ih = lookup2-sweep expired a b m (hs, gs) in
      elim (Bool-cases (k == a)) [
        | inl same ↦
            let q : k ≡ a = (e.beq_iff k a).0 same in
            let gone : lookup a m ≡ none = rw q at h in
            elim (Bool-cases (is_empty (keep p n))) [
              | inl empty ↦
                  sweep_empty expired a b k n m same g empty (sweep_missing expired a m gone)
              | inr full ↦ sweep_full expired a b k n m same g full
            ]
        | inr other ↦ sweep_other expired a b k n m other ih
      ]

  pub sweep-IsNested :
      (expired : V → Bool) (m : GoMap K (GoMap J V)) → IsNested m → IsNested (sweep expired m)
  unfolding sweep
  sweep-IsNested expired [] h = h
  sweep-IsNested expired ((k, n) ∷ m) ((h, hs), (g, gs)) =
      let (ih, ihs) = sweep-IsNested expired m (hs, gs) in
      elim (Bool-cases (is_empty (keep (λ j v. not (expired v)) n))) [
        | inl empty ↦ rw empty (ih, ihs)
        | inr full ↦ rw full ((sweep_missing expired k m h, ih), (keep-IsMap _ n g, ihs))
      ]

module _ {ℓ κ μ ν} {K : Type ℓ} {J : Type κ} {I : Type μ} {V : Type ν} where
  unfoldable pub any_inner3 : (V → Bool) → GoMap K (GoMap J (GoMap I V)) → Bool
  any_inner3 p [] = false
  any_inner3 p ((k, n) ∷ m) = any_inner p n || any_inner3 p m

  -- For each inner map of maps: the loops of `sweep`, then delete it if they leave it empty.
  unfoldable pub sweep3 : (V → Bool) → GoMap K (GoMap J (GoMap I V)) → GoMap K (GoMap J (GoMap I V))
  sweep3 expired [] = []
  sweep3 expired ((k, n) ∷ m) =
      let rest = sweep3 expired m in
      let live = sweep expired n in if is_empty live then rest else (k, live) ∷ rest

module _ {ℓ κ μ ν} {K : Type ℓ} {J : Type κ} {I : Type μ} {V : Type ν} ⦃e : Eq K⦄ ⦃f : Eq J⦄
    ⦃g : Eq I⦄ where
  -- m[k][j][i]
  abbrev pub lookup3 : K → J → I → GoMap K (GoMap J (GoMap I V)) → Option V
  lookup3 k j i m = lookup2 j i (inner (lookup k m))

  -- m[k][j][i] = v, the inner maps made first where they are missing
  unfoldable pub insert3 :
      K → J → I → V → GoMap K (GoMap J (GoMap I V)) → GoMap K (GoMap J (GoMap I V))
  insert3 k j i v m = insert k (insert2 j i v (inner (lookup k m))) m

  -- delete(m[k][j], i), where both inner maps are there
  unfoldable pub delete3 : K → J → I → GoMap K (GoMap J (GoMap I V)) → GoMap K (GoMap J (GoMap I V))
  delete3 k j i m = elim (lookup k m) [ none ↦ m | some n ↦ insert k (delete2 j i n) m ]

  pub lookup3-insert3 :
      (k a : K) (j b : J) (i c : I) (v : V) (m : GoMap K (GoMap J (GoMap I V)))
      → lookup3 a b c (insert3 k j i v m)
        ≡ (if k == a && (j == b && i == c) then some v else lookup3 a b c m)
  unfolding insert3
  lookup3-insert3 k a j b i c v m =
      rw (lookup-insert, inner)
        (elim (Bool-cases (k == a)) [
          | inr other ↦ rw other
          | inl same ↦
              let p : lookup k m ≡ lookup a m =
                ap (λ (x : K). lookup x m) ((e.beq_iff k a).0 same) in
              rw (same, p) (lookup2-insert2 j b i c v _)
        ])
