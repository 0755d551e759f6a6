-- ===== src/Spf/Dijkstra/Invariant.antt =====
-- internal/olsr/spf.go: walks in the graph, and what holds of the variables of runDijkstra.
use olsr_go.Base.{ℕ, ◌+◌, ◌≤◌, ◌≡◌, Bool, true, false, Option, none, some, leb, Text, text_eq, ◌==◌}
use olsr_go.Base.Map.{lookup, IsMap}
use olsr_go.Base.Nested.{lookup2}
use olsr_go.Neighbor.Mpr.{holds, is_some}
use olsr_go.Spf.{Graph}
use olsr_go.Spf.Heap.{Item}
use olsr_go.Spf.Heap.Order.{IsHeap}
use olsr_go.Spf.Heap.Items.{Stands}
use olsr_go.Spf.Dijkstra.{Search}

-- The distance is known and at most the bound.
abbrev pub within : ℕ → Option ℕ → Bool
within bound none = false
within bound (some d) = leb d bound

abbrev pub seen : Search → Text → Bool
seen s v = holds (lookup v s.visited)

module _ (source : Text) (adj : Graph) where
  abbrev pub Edge : Text → Text → ℕ → Type 0
  Edge u v cost = lookup2 u v adj ≡ some cost

  -- A walk from the source, and the sum of its costs.
  pub data Walk : Text → ℕ → Type 0 where
    here : Walk source 0
    step : {u v : Text} {x cost : ℕ} → Walk u x → Edge u v cost → Walk v (x + cost)

  -- The node before another one on its walk.
  pub record IsParent (s : Search) (v u : Text) : Type 0 where
    pub far : ℕ
    pub cost : ℕ
    pub at_parent : lookup u s.dist ≡ some far
    pub was_seen : seen s u ≡ true
    pub edge : Edge u v cost
    pub at_child : lookup v s.dist ≡ some (far + cost)

  -- `settled` are the nodes all of whose edges have been relaxed.
  pub record Inv (settled : Text → Bool) (s : Search) : Type 0 where
    pub sound : (v : Text) (x : ℕ) → lookup v s.dist ≡ some x → Walk v x
    pub queued :
        (v : Text) (x : ℕ)
        → lookup v s.dist ≡ some x
        → seen s v ≡ false
        → Stands s.pq.size s.pq.slots (record { value = v; priority = x })
    pub settled_seen : (w : Text) → settled w ≡ true → seen s w ≡ true
    pub relaxed :
        (w : Text) (x : ℕ)
        → settled w ≡ true
        → lookup w s.dist ≡ some x
        → (v : Text) (cost : ℕ) → Edge w v cost
        → within (x + cost) (lookup v s.dist) ≡ true
    pub known : (w : Text) → seen s w ≡ true → is_some (lookup w s.dist) ≡ true
    pub order :
        (w : Text) (x : ℕ)
        → seen s w ≡ true
        → lookup w s.dist ≡ some x
        → (it : Item) → Stands s.pq.size s.pq.slots it
        → x ≤ it.priority
    pub bounded :
        (it : Item)
        → Stands s.pq.size s.pq.slots it
        → within it.priority (lookup it.value s.dist) ≡ true
    pub heap : IsHeap s.pq.size s.pq.slots
    pub dist_map : IsMap s.dist
    pub origin : lookup source s.dist ≡ some 0
    pub tree : (v u : Text) → lookup v s.prev ≡ some u → IsParent s v u
    pub reached :
        (v : Text) (x : ℕ)
        → lookup v s.dist ≡ some x
        → (source == v) ≡ false
        → is_some (lookup v s.prev) ≡ true

  -- The node that is being visited: no seen node is farther.
  pub record IsCurrent (s : Search) (u : Text) (x : ℕ) : Type 0 where
    pub at_u : lookup u s.dist ≡ some x
    pub seen_u : seen s u ≡ true
    pub farthest : (w : Text) (y : ℕ) → seen s w ≡ true → lookup w s.dist ≡ some y → y ≤ x
