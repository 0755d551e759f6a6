-- ===== src/Base/Changes.antt =====
-- The changes that bring a table in line with a new version of it, as two loops over Go's maps emit
-- them, and their replay on another table that follows the first one.
use mathlib.Core.Path.{◌≡◌, refl, ap, ◌∙◌}
use mathlib.Core.Logic.{inl, inr}
use mathlib.Core.Bool.{Bool, false}
use mathlib.Core.Option.{Option, none, some}
use mathlib.Core.Option
use mathlib.Core.List.{List, [], ◌∷◌, ◌++◌}
use olsr_go.Base.Tests.{Eq, ◌==◌, if◌then◌else◌, Bool-cases}
use olsr_go.Base.Map.{
  GoMap, lookup, insert, delete, IsMap, Entries, lookup-insert, lookup-delete, Entries-lookup,
}

pub data Change {ℓ} (V : Type ℓ) : Type ℓ where
  withdraw install : V → Change V

module _ {ℓ} {V : Type ℓ} where
  -- What the first loop emits for an old value, by the new one under the same key.
  abbrev pub old_change : (V → V → Bool) → V → Option V → List (Change V)
  old_change changed o none = withdraw o ∷ []
  old_change changed o (some n) = if changed o n then install n ∷ [] else []

  -- What the second loop emits for a new value.
  abbrev pub new_change : Option V → V → List (Change V)
  new_change none n = install n ∷ []
  new_change (some o) n = []

module _ {ℓ κ} {K : Type ℓ} {V : Type κ} ⦃e : Eq K⦄ where
  unfoldable old_changes : (V → V → Bool) → GoMap K V → GoMap K V → List (Change V)
  old_changes changed [] new = []
  old_changes changed ((k, o) ∷ old) new =
      old_change changed o (lookup k new) ++ old_changes changed old new

  unfoldable new_changes : GoMap K V → GoMap K V → List (Change V)
  new_changes old [] = []
  new_changes old ((k, n) ∷ new) = new_change (lookup k old) n ++ new_changes old new

  unfoldable pub changes : (V → V → Bool) → GoMap K V → GoMap K V → List (Change V)
  unfolding old_changes new_changes
  changes changed old new = old_changes changed old new ++ new_changes old new

  -- The table of one who follows the changes; a value tells its key.
  unfoldable pub replay : (V → K) → List (Change V) → GoMap K V → GoMap K V
  replay key [] t = t
  replay key (withdraw v ∷ cs) t = replay key cs (delete (key v) t)
  replay key (install v ∷ cs) t = replay key cs (insert (key v) v t)

  replay-append :
      (key : V → K) (cs bs : List (Change V)) (t : GoMap K V)
      → replay key (cs ++ bs) t ≡ replay key bs (replay key cs t)
  unfolding replay
  replay-append key [] bs t = refl
  replay-append key (withdraw v ∷ cs) bs t = replay-append key cs bs (delete (key v) t)
  replay-append key (install v ∷ cs) bs t = replay-append key cs bs (insert (key v) v t)

module _ {ℓ κ μ} {K : Type ℓ} {V : Type κ} {W : Type μ} ⦃e : Eq K⦄ (key : V → K) (view : V → W)
    (changed : V → V → Bool) where
  -- What one sees of the table under a key.
  abbrev seen : K → GoMap K V → Option W
  seen k t = Option.map view (lookup k t)

  abbrev after_old : Option V → Option V → Option W → Option W
  after_old none n x = x
  after_old (some o) none x = none
  after_old (some o) (some n) x = if changed o n then some (view n) else x

  abbrev after_new : Option V → Option V → Option W → Option W
  after_new none o x = x
  after_new (some n) none x = some (view n)
  after_new (some n) (some o) x = x

  seen-insert :
      (k j : K) (v : V) (t : GoMap K V)
      → seen k (insert j v t) ≡ (if j == k then some (view v) else seen k t)
  seen-insert k j v t =
      rw lookup-insert (elim (Bool-cases (j == k)) [ inl same ↦ rw same | inr other ↦ rw other ])

  seen-delete :
      (k j : K) (t : GoMap K V) → seen k (delete j t) ≡ (if j == k then none else seen k t)
  seen-delete k j t =
      rw lookup-delete (elim (Bool-cases (j == k)) [ inl same ↦ rw same | inr other ↦ rw other ])

  old_change_lem :
      (k j : K) (o : V) (n : Option V) (t : GoMap K V)
      → key o ≡ j
      → ((v : V) → n ≡ some v → key v ≡ j)
      → seen k (replay key (old_change changed o n) t)
        ≡ (if j == k then after_old (some o) n (seen k t) else seen k t)
  unfolding replay
  old_change_lem k j o none t p q = rw p (seen-delete k j t)
  old_change_lem k j o (some n) t p q = elim (Bool-cases (changed o n)) [
    | inl is_changed ↦ rw (is_changed, q n refl) (seen-insert k j n t)
    | inr is_same ↦
        rw is_same (elim (Bool-cases (j == k)) [ inl same ↦ rw same | inr other ↦ rw other ])
  ]

  new_change_lem :
      (k j : K) (o : Option V) (n : V) (t : GoMap K V)
      → key n ≡ j
      → seen k (replay key (new_change o n) t)
        ≡ (if j == k then after_new (some n) o (seen k t) else seen k t)
  unfolding replay
  new_change_lem k j none n t p = rw p (seen-insert k j n t)
  new_change_lem k j (some o) n t p = elim (Bool-cases (j == k)) [
    | inl same ↦ rw same
    | inr other ↦ rw other
  ]

  old_changes_lem :
      (k : K) (old new t : GoMap K V)
      → IsMap old
      → Entries (λ j v. key v ≡ j) old
      → Entries (λ j v. key v ≡ j) new
      → seen k (replay key (old_changes changed old new) t)
        ≡ after_old (lookup k old) (lookup k new) (seen k t)
  unfolding old_changes lookup
  old_changes_lem k [] new t h ko kn = unfold replay in refl
  old_changes_lem k ((j, o) ∷ old) new t (h, hs) (ko, kos) kn =
      let cs = old_change changed o (lookup j new) in
      let step =
        old_change_lem k j o (lookup j new) t ko
          (λ v q. Entries-lookup (λ j v. key v ≡ j) j v new kn q) in
      ap (seen k) (replay-append key cs (old_changes changed old new) t)
      ∙ old_changes_lem k old new (replay key cs t) hs kos kn
      ∙ elim (Bool-cases (j == k)) [
        | inl same ↦
            let p : j ≡ k = (e.beq_iff j k).0 same in
            let gone : lookup k old ≡ none = rw p at h in
            let there : lookup j new ≡ lookup k new = ap (λ (x : K). lookup x new) p in
            let step' = rw same at step in rw (same, gone, step', there)
        | inr other ↦ let step' = rw other at step in rw (other, step')
      ]

  new_changes_lem :
      (k : K) (old new t : GoMap K V)
      → IsMap new
      → Entries (λ j v. key v ≡ j) new
      → seen k (replay key (new_changes old new) t)
        ≡ after_new (lookup k new) (lookup k old) (seen k t)
  unfolding new_changes lookup
  new_changes_lem k old [] t h kn = unfold replay in refl
  new_changes_lem k old ((j, n) ∷ new) t (h, hs) (kn, kns) =
      let cs = new_change (lookup j old) n in
      let step = new_change_lem k j (lookup j old) n t kn in
      ap (seen k) (replay-append key cs (new_changes old new) t)
      ∙ new_changes_lem k old new (replay key cs t) hs kns
      ∙ elim (Bool-cases (j == k)) [
        | inl same ↦
            let p : j ≡ k = (e.beq_iff j k).0 same in
            let gone : lookup k new ≡ none = rw p at h in
            let there : lookup j old ≡ lookup k old = ap (λ (x : K). lookup x old) p in
            let step' = rw same at step in rw (same, gone, step', there)
        | inr other ↦ let step' = rw other at step in rw (other, step')
      ]

  combined :
      (o n : Option V) (x : Option W)
      → ((a b : V) → changed a b ≡ false → view a ≡ view b)
      → x ≡ Option.map view o
      → after_new n o (after_old o n x) ≡ Option.map view n
  combined none none x alike p = p
  combined none (some n) x alike p = refl
  combined (some o) none x alike p = refl
  combined (some o) (some n) x alike p = elim (Bool-cases (changed o n)) [
    | inl is_changed ↦ rw is_changed
    | inr is_same ↦ rw is_same (p ∙ ap some (alike o n is_same))
  ]

  -- A follower whose table looks like the old version looks like the new one after the changes.
  pub replay-changes :
      (old new t : GoMap K V)
      → IsMap old
      → IsMap new
      → Entries (λ j v. key v ≡ j) old
      → Entries (λ j v. key v ≡ j) new
      → ((a b : V) → changed a b ≡ false → view a ≡ view b)
      → ((j : K) → Option.map view (lookup j t) ≡ Option.map view (lookup j old))
      → (k : K)
      → Option.map view (lookup k (replay key (changes changed old new) t))
        ≡ Option.map view (lookup k new)
  unfolding changes
  replay-changes old new t ho hn ko kn alike follows k =
      let t' = replay key (old_changes changed old new) t in
      ap (seen k) (replay-append key (old_changes changed old new) (new_changes old new) t)
      ∙ new_changes_lem k old new t' hn kn
      ∙ ap (after_new (lookup k new) (lookup k old)) (old_changes_lem k old new t ho ko kn)
      ∙ combined (lookup k old) (lookup k new) (seen k t) alike (follows k)
