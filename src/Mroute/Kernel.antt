-- ===== src/Mroute/Kernel.antt =====
-- internal/mroute/mroute_linux.go: the router that keeps the kernel's multicast forwarding cache by
-- setsockopt. What the kernel answers to a call is an argument.
use olsr_go.Base.{
  ℕ, ◌+◌, Bool, true, false, not, ◌||◌, Option, none, some, List, [], ◌∷◌, ◌++◌, ltb, leb, set,
  if◌then◌else◌, Text,
}
use olsr_go.Base.Int.{ℤ, pos, negsuc, int_eq}
use olsr_go.Base.Map.{GoMap, lookup, insert}
use olsr_go.Net.{Ip, to4}
use olsr_go.Daemon.Send.{parse_or_nil}

-- `started` is an fd other than -1; vif_map takes interface indices to VIFs.
pub record KernelRouter : Type 0 where
  pub started : Bool
  pub vif_map : GoMap ℤ ℕ
  pub next_vif : ℕ

abbrev pub new_kernel_router : KernelRouter
new_kernel_router = record { started = false; vif_map = []; next_vif = 0 }

-- mfcctl, with one TTL for each of the 32 VIFs.
pub record Mfc : Type 0 where
  pub origin : Ip
  pub mcastgrp : Ip
  pub parent : ℕ
  pub ttls : List ℕ

-- The calls of setsockopt: MRT_ADD_VIF with the VIF and the interface index, which is an int32 (the
-- kernel gives out no other), MRT_ADD_MFC and MRT_DEL_MFC.
pub data KernelCall : Type 0 where
  add_vif : ℕ → ℕ → KernelCall
  add_mfc del_mfc : Mfc → KernelCall

-- How a method returns.
pub data Ending : Type 0 where
  succeeded failed panicked : Ending

pub record Done : Type 0 where
  pub router : KernelRouter
  pub calls : List KernelCall
  pub ending : Ending

-- The socket, and MRT_INIT on it.
abbrev pub start : Bool → Bool → KernelRouter → KernelRouter × Ending
start socket_ok init_ok r =
    if r.started
    then (r, succeeded)
    else if not socket_ok || not init_ok
    then (r, failed)
    else (record r { started = true }, succeeded)

-- Closing the socket makes the kernel forget its VIFs and routes.
abbrev pub stop : KernelRouter → KernelRouter
stop r = if r.started then new_kernel_router else r

-- The VIF of an interface, `none` for an error.
pub record Registered : Type 0 where
  pub router : KernelRouter
  pub calls : List KernelCall
  pub vif : Option ℕ

-- What follows the test for a free number, on a router that has counted it.
abbrev pub register_new : (KernelCall → Bool) → ℤ → ℕ → KernelRouter → Registered
register_new accepts (negsuc i) vif r = record { router = r; calls = []; vif = none }
register_new accepts (pos i) vif r =
    if accepts (add_vif vif i)
    then record {
      router = record r { vif_map = insert (pos i) vif r.vif_map };
      calls = add_vif vif i ∷ [];
      vif = some vif;
    }
    else record { router = r; calls = add_vif vif i ∷ []; vif = none }

unfoldable pub register_vif : (KernelCall → Bool) → ℤ → KernelRouter → Registered
register_vif accepts ifindex r = elim (lookup ifindex r.vif_map) [
  | some vif ↦ record { router = r; calls = []; vif = some vif }
  | none ↦
      (if leb 32 r.next_vif
        then record { router = r; calls = []; vif = none }
        else register_new accepts ifindex r.next_vif (record r { next_vif = r.next_vif + 1 }))
]

-- The loop over the outgoing interfaces, with the TTLs so far; a VIF outside of the array panics.
pub record OifsDone : Type 0 where
  pub router : KernelRouter
  pub calls : List KernelCall
  pub ttls : List ℕ
  pub ending : Ending

unfoldable pub register_oifs : (KernelCall → Bool) → List ℤ → List ℕ → KernelRouter → OifsDone
unfolding register_vif
register_oifs accepts [] ttls r = record { router = r; calls = []; ttls = ttls; ending = succeeded }
register_oifs accepts (oif ∷ oifs) ttls r =
    let reg = register_vif accepts oif r in
    elim reg.vif [
      | none ↦ record { router = reg.router; calls = reg.calls; ttls = ttls; ending = failed }
      | some vif ↦
          (let rest = register_oifs accepts oifs (set ttls vif 1) reg.router in
            if ltb vif 32
            then record rest { calls = reg.calls ++ rest.calls }
            else record { router = reg.router; calls = reg.calls; ttls = ttls; ending = panicked })
    ]

abbrev pub no_ttls : List ℕ
no_ttls =
    0 ∷ 0 ∷ 0 ∷ 0 ∷ 0 ∷ 0 ∷ 0 ∷ 0 ∷ 0 ∷ 0 ∷ 0 ∷ 0 ∷ 0 ∷ 0 ∷ 0 ∷ 0 ∷ 0 ∷ 0 ∷ 0 ∷ 0 ∷ 0 ∷ 0 ∷ 0 ∷ 0
    ∷ 0 ∷ 0 ∷ 0 ∷ 0 ∷ 0 ∷ 0 ∷ 0 ∷ 0 ∷ []

-- The call that installs the entry, if the loop was left at its end.
abbrev pub install_entry : (KernelCall → Bool) → Ip → Ip → ℕ → List KernelCall → OifsDone → Done
install_entry accepts src4 grp4 parent calls oifs =
    let mfc : Mfc = record { origin = src4; mcastgrp = grp4; parent = parent; ttls = oifs.ttls } in
    elim oifs.ending [
      | succeeded ↦ record {
        router = oifs.router;
        calls = calls ++ (oifs.calls ++ add_mfc mfc ∷ []);
        ending = if accepts (add_mfc mfc) then succeeded else failed;
      }
      | failed ↦ record { router = oifs.router; calls = calls ++ oifs.calls; ending = failed }
      | panicked ↦ record { router = oifs.router; calls = calls ++ oifs.calls; ending = panicked }
    ]

abbrev pub refused : KernelRouter → Done
refused r = record { router = r; calls = []; ending = failed }

-- What follows the checks of the addresses.
unfoldable pub add_entry : (KernelCall → Bool) → Ip → Ip → ℤ → List ℤ → KernelRouter → Done
unfolding register_oifs
add_entry accepts src4 grp4 iif oifs r =
    let reg = register_vif accepts iif r in
    elim reg.vif [
      | none ↦ record { router = reg.router; calls = reg.calls; ending = failed }
      | some parent ↦
          install_entry accepts src4 grp4 parent reg.calls
            (register_oifs accepts oifs no_ttls reg.router)
    ]

-- The checks of the socket and of the addresses, which an IPv4 address passes.
unfoldable pub add_checked :
    (KernelCall → Bool) → Bool → Option Ip → Option Ip → ℤ → List ℤ → KernelRouter → Done
unfolding add_entry
add_checked accepts false src grp iif oifs r = refused r
add_checked accepts true none grp iif oifs r = refused r
add_checked accepts true (some src4) none iif oifs r = refused r
add_checked accepts true (some src4) (some grp4) iif oifs r = add_entry accepts src4 grp4 iif oifs r

abbrev pub add_multicast_route :
    (KernelCall → Bool) → Text → Text → ℤ → List ℤ → KernelRouter → Done
add_multicast_route accepts src grp iif oifs r =
    add_checked accepts r.started (to4 (parse_or_nil src)) (to4 (parse_or_nil grp)) iif oifs r

-- Without a VIF of the incoming interface there is nothing to delete.
abbrev pub delete_entry : (KernelCall → Bool) → Ip → Ip → Option ℕ → KernelRouter → Done
delete_entry accepts src4 grp4 none r = record { router = r; calls = []; ending = succeeded }
delete_entry accepts src4 grp4 (some parent) r =
    let mfc : Mfc = record { origin = src4; mcastgrp = grp4; parent = parent; ttls = no_ttls } in
    record {
      router = r;
      calls = del_mfc mfc ∷ [];
      ending = if accepts (del_mfc mfc) then succeeded else failed;
    }

unfoldable pub delete_multicast_route : (KernelCall → Bool) → Text → Text → ℤ → KernelRouter → Done
delete_multicast_route accepts src grp iif r =
    if not r.started then refused r else elim (to4 (parse_or_nil src)) [
      | none ↦ refused r
      | some src4 ↦ elim (to4 (parse_or_nil grp)) [
        | none ↦ refused r
        | some grp4 ↦ delete_entry accepts src4 grp4 (lookup iif r.vif_map) r
      ]
    ]
