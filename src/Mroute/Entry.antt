-- ===== src/Mroute/Entry.antt =====
-- internal/mroute/mroute_linux.go: what AddMulticastRoute asks of the kernel, and the numbers that
-- registrations use up.
use Prim.Native.Nat.{min}
use olsr_go.Base.{
  ℕ, ◌+◌, ◌<◌, ◌≤◌, ◌≡◌, ◌≢◌, refl, sym, ◌∙◌, inl, inr, ◌⊎◌, Bool, true, false, Option, none, some,
  List, [], ◌∷◌, ◌++◌, append_assoc, leb, get_elem?, length, arith, if◌then◌else◌, Bool-cases,
  Option-cases, Text,
}
use olsr_go.Base.Int.{ℤ, pos, negsuc, int_eq}
use olsr_go.Base.Map.{lookup}
use olsr_go.Net.{Ip, to4}
use olsr_go.Daemon.Send.{parse_or_nil}
use olsr_go.Mroute.Kernel.{
  KernelRouter, KernelCall, add_mfc, Mfc, Ending, succeeded, failed, panicked, Done, register_vif,
  OifsDone, no_ttls, install_entry, add_entry, add_checked, add_multicast_route,
}
use olsr_go.Mroute.Vifs.{IsValid, register_vif-IsRegistered}
use olsr_go.Mroute.Ttls.{targets, IsDone, register_oifs-IsDone}

-- The last call installs an entry: its parent is the number of the incoming interface, and the TTL of a
-- number is 1 if it belongs to an outgoing interface, and 0 otherwise.
pub record Installs (src4 grp4 : Ip) (iif : ℤ) (oifs : List ℤ) (d : Done) : Type 0 where
  pub before : List KernelCall
  pub mfc : Mfc
  pub last_call : d.calls ≡ before ++ add_mfc mfc ∷ []
  pub origin : mfc.origin ≡ src4
  pub mcastgrp : mfc.mcastgrp ≡ grp4
  pub parent : lookup iif d.router.vif_map ≡ some mfc.parent
  pub ttl :
      (v : ℕ)
      → v < 32
      → get_elem? mfc.ttls v ≡ some (if targets oifs d.router.vif_map v then 1 else 0)

no_ttls_zero : (v : ℕ) → v < 32 → get_elem? no_ttls v ≡ some 0
no_ttls_zero v h = ground (arith, h)

Ending-cases : (e : Ending) → (e ≡ succeeded) ⊎ ((e ≡ failed) ⊎ (e ≡ panicked))
Ending-cases succeeded = inl refl
Ending-cases failed = inr (inl refl)
Ending-cases panicked = inr (inr refl)

-- The calls of the router so far keep its numbering, and do not panic.
pub record IsSafe (src4 grp4 : Ip) (iif : ℤ) (oifs : List ℤ) (d : Done) : Type 0 where
  pub valid : IsValid d.router
  pub no_panic : d.ending ≢ panicked
  pub installs : d.ending ≡ succeeded → Installs src4 grp4 iif oifs d

install_entry-IsSafe :
    (accepts : KernelCall → Bool) (src4 grp4 : Ip) (parent : ℕ) (calls : List KernelCall) (iif : ℤ)
    (oifs : List ℤ) (r : KernelRouter) (o : OifsDone)
    → IsDone oifs no_ttls r o
    → lookup iif r.vif_map ≡ some parent
    → IsSafe src4 grp4 iif oifs (install_entry accepts src4 grp4 parent calls o)
install_entry-IsSafe accepts src4 grp4 parent calls iif oifs r o done known =
    elim (Ending-cases o.ending) [
      | inl good ↦
          let mfc : Mfc = record {
            origin = src4;
            mcastgrp = grp4;
            parent = parent;
            ttls = o.ttls;
          } in
          rw (good, install_entry)
            (record {
              valid = done.valid;
              no_panic = λ e. ground (arith, e);
              installs = λ e. record {
                before = calls ++ o.calls;
                mfc = mfc;
                last_call = sym (append_assoc calls o.calls _);
                origin = refl;
                mcastgrp = refl;
                parent = done.grown iif parent known;
                ttl =
                    λ v small. done.set_for good v small ∙ rw (no_ttls_zero v small) (ground arith);
              };
            })
      | inr (inl bad) ↦
          rw (bad, install_entry)
            (record { valid = done.valid; no_panic = λ e. cc; installs = λ e. cc })
      | inr (inr bad) ↦ absurd (done.no_panic bad)
    ]

add_entry-IsSafe :
    (accepts : KernelCall → Bool) (src4 grp4 : Ip) (iif : ℤ) (oifs : List ℤ) (r : KernelRouter)
    → IsValid r
    → IsSafe src4 grp4 iif oifs (add_entry accepts src4 grp4 iif oifs r)
unfolding add_entry
add_entry-IsSafe accepts src4 grp4 iif oifs r h =
    let reg = register_vif accepts iif r in
    let facts = register_vif-IsRegistered accepts iif r h in
    elim (Option-cases reg.vif) [
      | inl refuses ↦
          rw (refuses, add_entry)
            (record { valid = facts.valid; no_panic = λ e. cc; installs = λ e. cc })
      | inr (parent, e) ↦
          rw (e, add_entry)
            (install_entry-IsSafe accepts src4 grp4 parent reg.calls iif oifs reg.router _
              (register_oifs-IsDone accepts oifs no_ttls reg.router refl facts.valid)
              (facts.has_vif parent e).1)
    ]

add_checked-IsSafe :
    (accepts : KernelCall → Bool) (running : Bool) (src grp : Option Ip) (iif : ℤ) (oifs : List ℤ)
    (r : KernelRouter)
    → IsValid r
    → let d = add_checked accepts running src grp iif oifs r in
      IsValid d.router
      × (d.ending ≢ panicked)
      × (d.ending ≡ succeeded
          → (running ≡ true)
            × ((src4 : Ip) × (grp4 : Ip) × (src ≡ some src4)
                × (grp ≡ some grp4)
                × Installs src4 grp4 iif oifs d))
unfolding add_checked
add_checked-IsSafe accepts false src grp iif oifs r h = (h, (λ e. cc), λ e. absurd (cc))
add_checked-IsSafe accepts true none grp iif oifs r h = (h, (λ e. cc), λ e. absurd (cc))
add_checked-IsSafe accepts true (some src4) none iif oifs r h = (h, (λ e. cc), λ e. absurd (cc))
add_checked-IsSafe accepts true (some src4) (some grp4) iif oifs r h =
    let safe = add_entry-IsSafe accepts src4 grp4 iif oifs r h in
    (safe.valid, safe.no_panic, λ e. (refl, (src4, grp4, refl, refl, safe.installs e)))

-- AddMulticastRoute keeps the numbering of the interfaces valid, and never writes a TTL outside of its
-- array. Where it returns without an error, the router is started, the source and the group are IPv4
-- addresses, and its last call of the kernel installs their entry: the parent is the number of the
-- incoming interface, and the TTL of a number is 1 if an outgoing interface has it and 0 otherwise.
pub add_multicast_route-Installs :
    (accepts : KernelCall → Bool) (src grp : Text) (iif : ℤ) (oifs : List ℤ) (r : KernelRouter)
    → IsValid r
    → let d = add_multicast_route accepts src grp iif oifs r in
      IsValid d.router
      × (d.ending ≢ panicked)
      × (d.ending ≡ succeeded
          → (r.started ≡ true)
            × ((src4 : Ip) × (grp4 : Ip) × (to4 (parse_or_nil src) ≡ some src4)
                × (to4 (parse_or_nil grp) ≡ some grp4)
                × Installs src4 grp4 iif oifs d))
add_multicast_route-Installs accepts src grp iif oifs r h =
    add_checked-IsSafe accepts r.started (to4 (parse_or_nil src)) (to4 (parse_or_nil grp)) iif oifs
      r h

-- Registrations of interfaces in turn, all of which the kernel refuses.
unfoldable pub after_refusals : List ℤ → KernelRouter → KernelRouter
unfolding register_vif
after_refusals [] r = r
after_refusals (i ∷ is) r = after_refusals is (register_vif (λ c. false) i r).router

abbrev pub AreUnknown : List ℤ → KernelRouter → Type 0
AreUnknown [] r = Unit
AreUnknown (i ∷ is) r = (lookup i r.vif_map ≡ none) × AreUnknown is r

refused_lem :
    (i : ℤ) (r : KernelRouter)
    → lookup i r.vif_map ≡ none
    → (register_vif (λ c. false) i r).router
      ≡ (if leb 32 r.next_vif then r else record r { next_vif = r.next_vif + 1 })
unfolding register_vif
refused_lem (pos i) r unknown = rw (unknown, register_vif) (ground arith)
refused_lem (negsuc i) r unknown = rw (unknown, register_vif) (ground arith)

still_unknown :
    (is : List ℤ) (r s : KernelRouter) → s.vif_map ≡ r.vif_map → AreUnknown is r → AreUnknown is s
still_unknown [] r s same h = tt
still_unknown (i ∷ is) r s same (h, hs) = (rw same h, still_unknown is r s same hs)

after_refusals_lem :
    (is : List ℤ) (r : KernelRouter)
    → AreUnknown is r
    → r.next_vif ≤ 32
    → ((after_refusals is r).vif_map ≡ r.vif_map)
      × ((after_refusals is r).next_vif ≡ min (r.next_vif + length is) 32)
unfolding after_refusals
after_refusals_lem [] r unknown small = (refl, omega arith)
after_refusals_lem (i ∷ is) r (unknown, others) small = elim (Bool-cases (leb 32 r.next_vif)) [
  | inl full ↦
      let same : (register_vif (λ c. false) i r).router ≡ r =
        refused_lem i r unknown ∙ rw full refl in
      let ih = after_refusals_lem is r others small in
      let at : r.next_vif ≡ 32 = ground (arith, full, small) in
      rw (same, after_refusals) (ih.0, ih.1 ∙ omega arith)
  | inr free ↦
      let next : KernelRouter = record r { next_vif = r.next_vif + 1 } in
      let same : (register_vif (λ c. false) i r).router ≡ next =
        refused_lem i r unknown ∙ rw free refl in
      let ih =
        after_refusals_lem is next (still_unknown is r next refl others) (ground (arith, free)) in
      rw (same, after_refusals) (ih.0, ih.1 ∙ omega arith)
]

-- A registration that the kernel refuses uses up a number all the same. When refusals have used up all
-- of the 32, no interface without a number is registered any more, whatever the kernel would answer;
-- the interfaces that have one keep it.
pub after_refusals_exhausted :
    (is : List ℤ) (i : ℤ) (accepts : KernelCall → Bool) (r : KernelRouter)
    → IsValid r
    → AreUnknown (i ∷ is) r
    → 32 ≤ r.next_vif + length is
    → let r' = after_refusals is r in
      (r'.vif_map ≡ r.vif_map) × ((register_vif accepts i r').vif ≡ none)
unfolding register_vif
after_refusals_exhausted is i accepts r h (unknown, others) many =
    let (same, n) = after_refusals_lem is r others h.capped in
    let full : leb 32 (after_refusals is r).next_vif ≡ true = ground (arith, n, many) in
    (same, rw (same, register_vif) (rw unknown (rw full refl)))
