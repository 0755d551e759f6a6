-- ===== src/EventBus.antt =====
-- internal/eventbus/bus.go: the events that the managers publish. A manager's operation returns, beside
-- its new state, the events that it has published, in order.

pub data EventType : Type 0 where
  interface_update neighbor_update topology_update spf_trigger route_install : EventType

-- The payload is an `interface{}` in the source; each manager publishes one type of payload.
pub record Event (D : Type 0) : Type 0 where
  pub ev_type : EventType
  pub payload : D
