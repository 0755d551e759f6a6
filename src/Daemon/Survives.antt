-- ===== src/Daemon/Survives.antt =====
-- cmd/olsrd/daemon.go: which inputs stop the daemon.
use olsr_go.Base.{◌≡◌, ◌⊎◌, Bool, true, false, ◌||◌, List, [], ◌∷◌, Outcome, ok, panic}
use olsr_go.Packet.{Packet}
use olsr_go.Packet.Deserialize.{deserialize_packet}
use olsr_go.Packet.TimeVal.{Float64}
use olsr_go.Config.{Config}
use olsr_go.Daemon.{Daemon, Network, Result}
use olsr_go.Daemon.Run.{Input, received}
use olsr_go.Daemon.Sound.{IsSound}

-- The call comes to a value.
abbrev pub Succeeds : {A : Type 0} → Outcome A → Type 0
Succeeds {A = A} r = (a : A) × (r ≡ ok a)

abbrev panics : {A : Type 0} → Outcome A → Bool
panics panic = true
panics _ = false

module _ (F : Float64) (net : Network) where
  -- A received datagram that DeserializePacket panics on.
  abbrev pub is_fatal : Input → Bool
  is_fatal (received clock bytes raddr) = panics (deserialize_packet F bytes)
  is_fatal _ = false

  unfoldable pub some_fatal : List Input → Bool
  some_fatal [] = false
  some_fatal (input ∷ inputs) = is_fatal input || some_fatal inputs

  -- An input stops the daemon by a panic, or it is handled.
  abbrev Handled : Bool → Outcome Result → Type 0
  Handled true r = r ≡ panic
  Handled false r = Succeeds r

  -- How a run ends: by a panic, or in a state.
  abbrev pub EndsBy : Bool → Outcome Daemon → Type 0
  EndsBy fatal r =
      ((fatal ≡ true) × (r ≡ panic))
      ⊎ ((fatal ≡ false) × ((last : Daemon) × (r ≡ ok last) × IsSound last))
