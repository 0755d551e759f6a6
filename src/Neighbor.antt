-- ===== src/Neighbor.antt =====
-- internal/olsr/neighbor.go: the tables of the NeighborManager. Its methods hold the mutex throughout,
-- so each is one step on this state; `now` is what time.Now() returns.
pub mod Mpr
pub mod Ops
pub mod Aging
pub mod Reach
pub mod Tests
use olsr_go.Base.{ℕ, Bool, false, List, [], Text}
use olsr_go.Base.Map.{GoMap}
use olsr_go.Base.Int.{pos}
use olsr_go.Net.{Time}

pub data LinkState : Type 0 where
  pending asymmetric symmetric lost : LinkState

pub record LinkTuple : Type 0 where
  pub local_ip : Text
  pub neighbor_ip : Text
  pub state : LinkState
  pub asym_time : Time
  pub sym_time : Time
  pub expiration_time : Time

pub record NeighborTuple : Type 0 where
  pub neighbor_ip : Text
  pub symmetric : Bool
  pub willingness : ℕ

-- 2-hop IP -> expiration
abbrev pub TwoHops : Type 0
TwoHops = GoMap Text Time

pub record NeighborManager : Type 0 where
  pub router_id : Text
  pub links : GoMap Text LinkTuple
  pub neighbors : GoMap Text NeighborTuple
  pub two_hop_links : GoMap Text TwoHops
  pub mpr_set : GoMap Text Bool
  pub mpr_selectors : GoMap Text Time

abbrev pub new_neighbor_manager : Text → NeighborManager
new_neighbor_manager router_id = record {
  router_id = router_id;
  links = [];
  neighbors = [];
  two_hop_links = [];
  mpr_set = [];
  mpr_selectors = [];
}

-- time.Time{}, the instant that times are counted from
abbrev pub zero_time : Time
zero_time = pos 0
