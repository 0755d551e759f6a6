-- ===== src/Mroute/Ttls.antt =====
-- internal/mroute/mroute_linux.go: the entry that AddMulticastRoute installs.
use olsr_go.Base.{
  ℕ, zero, suc, ◌<◌, ◌≡◌, ◌≢◌, refl, ap, ◌∙◌, inl, inr, Bool, true, false, ◌||◌, Option, none, some,
  List, [], ◌∷◌, ltb, nat_beq, set, length, get_elem?, arith, if◌then◌else◌, Option-cases,
}
use olsr_go.Base.Int.{ℤ, int_eq}
use olsr_go.Base.Map.{GoMap, lookup}
use olsr_go.Mroute.Kernel.{
  KernelRouter, KernelCall, succeeded, panicked, register_vif, OifsDone, register_oifs,
}
use olsr_go.Mroute.Vifs.{IsValid, Grows, register_vif-IsRegistered}

abbrev pub is_number : ℕ → Option ℕ → Bool
is_number v none = false
is_number v (some w) = nat_beq w v

-- The number belongs to one of the interfaces.
abbrev pub targets : List ℤ → GoMap ℤ ℕ → ℕ → Bool
targets [] m v = false
targets (oif ∷ oifs) m v = is_number v (lookup oif m) || targets oifs m v

get_elem?-set :
    (l : List ℕ) (i j x : ℕ)
    → j < length l
    → get_elem? (set l i x) j ≡ (if nat_beq i j then some x else get_elem? l j)
get_elem?-set [] i j x h = absurd (omega arith)
get_elem?-set (y ∷ l) zero zero x h = ground arith
get_elem?-set (y ∷ l) zero (suc j) x h = ground arith
get_elem?-set (y ∷ l) (suc i) zero x h = ground arith
get_elem?-set (y ∷ l) (suc i) (suc j) x h =
    let ih = get_elem?-set l i j x (omega arith) in ground (arith, ih)

length-set : (l : List ℕ) (i x : ℕ) → length (set l i x) ≡ length l
length-set [] i x = refl
length-set (y ∷ l) zero x = refl
length-set (y ∷ l) (suc i) x = ap (λ (n : ℕ). suc n) (length-set l i x)

-- What the loop leaves: at its end the TTL of a number is 1 if it belongs to one of the interfaces, and
-- otherwise what it was.
pub record IsDone (oifs : List ℤ) (ttls : List ℕ) (r : KernelRouter) (d : OifsDone) : Type 0 where
  pub valid : IsValid d.router
  pub grown : Grows r d.router
  pub no_panic : d.ending ≢ panicked
  pub set_for :
      d.ending ≡ succeeded
      → (v : ℕ) → v < 32
      → get_elem? d.ttls v ≡ (if targets oifs d.router.vif_map v then some 1 else get_elem? ttls v)

-- One interface more, by the TTLs that the rest of the loop starts from.
set_for_step :
    (oif : ℤ) (oifs : List ℤ) (ttls : List ℕ) (vif v : ℕ) (m : GoMap ℤ ℕ) (out : Option ℕ)
    → v < length ttls
    → lookup oif m ≡ some vif
    → out ≡ (if targets oifs m v then some 1 else get_elem? (set ttls vif 1) v)
    → out ≡ (if targets (oif ∷ oifs) m v then some 1 else get_elem? ttls v)
set_for_step oif oifs ttls vif v m out inside known rest =
    let at = get_elem?-set ttls vif v 1 inside in
    let mine : is_number v (lookup oif m) ≡ nat_beq vif v = rw known refl in
    rest ∙ rw (at, mine) (ground arith)

pub register_oifs-IsDone :
    (accepts : KernelCall → Bool) (oifs : List ℤ) (ttls : List ℕ) (r : KernelRouter)
    → length ttls ≡ 32
    → IsValid r
    → IsDone oifs ttls r (register_oifs accepts oifs ttls r)
unfolding register_oifs
register_oifs-IsDone accepts [] ttls r len h = record {
  valid = h;
  grown = λ i v e. e;
  no_panic = λ e. cc;
  set_for = λ e v small. refl;
}
register_oifs-IsDone accepts (oif ∷ oifs) ttls r len h =
    let reg = register_vif accepts oif r in
    let facts = register_vif-IsRegistered accepts oif r h in
    elim (Option-cases reg.vif) [
      | inl refuses ↦
          rw (refuses, register_oifs)
            (record {
              valid = facts.valid;
              grown = facts.grown;
              no_panic = λ e. cc;
              set_for = λ e. cc;
            })
      | inr (vif, e) ↦
          let (small, known) = facts.has_vif vif e in
          let inside : ltb vif 32 ≡ true = ground (arith, small) in
          let rest =
            register_oifs-IsDone accepts oifs (set ttls vif 1) reg.router
              (length-set ttls vif 1 ∙ len) facts.valid in
          rw (e, register_oifs)
            (rw inside (record {
              valid = rest.valid;
              grown = λ i v f. rest.grown i v (facts.grown i v f);
              no_panic = rest.no_panic;
              set_for = λ f v below.
                  set_for_step oif oifs ttls vif v _ _ (omega arith) (rest.grown oif vif known)
                    (rest.set_for f v below);
            }))
    ]
