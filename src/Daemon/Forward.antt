-- ===== src/Daemon/Forward.antt =====
-- cmd/olsrd/daemon.go: the path of a message that nodes forward in turn.
use olsr_go.Base.{
  ℕ, suc, ◌+◌, ◌-◌, ◌%◌, ◌<◌, ◌≤◌, ◌≡◌, refl, sym, ◌∙◌, inl, inr, true, Option, none, some, List,
  [], ◌∷◌, arith, length, if◌then◌else◌, Bool-cases, ◌⊎◌,
}
use olsr_go.Net.{Ip, Time}
use olsr_go.Packet.{Message}
use olsr_go.Daemon.{Daemon}
use olsr_go.Daemon.Receive.{should_forward_message, forwarded_message}

-- A node that has the message from a neighbour at some time.
pub record Hop : Type 0 where
  pub at_time : Time
  pub raddr : Ip
  pub node : Daemon

-- The message as the last of the nodes forwards it; `none` where one of them does not.
unfoldable pub relays : List Hop → Message → Option Message
relays [] msg = some msg
relays (hop ∷ hops) msg =
    let rest = relays hops (forwarded_message msg) in
    if should_forward_message hop.at_time hop.raddr msg hop.node then rest else none

-- The message after n nodes.
abbrev pub after_hops : ℕ → Message → Message
after_hops n msg = record msg {
  header = record msg.header {
    ttl = msg.header.ttl - n;
    hop_count = (msg.header.hop_count + n) % 256;
  };
}

with_counts :
    (msg : Message) (t t' h h' : ℕ)
    → t ≡ t'
    → h ≡ h'
    → ◌≡◌ {A = Message}
        (record msg { header = record msg.header { ttl = t; hop_count = h } })
        (record msg { header = record msg.header { ttl = t'; hop_count = h' } })
with_counts msg t t' h h' p q i = record msg {
  header = record msg.header { ttl = p i; hop_count = q i };
}

forwarded_ttl :
    (now : Time) (raddr : Ip) (msg : Message) (d : Daemon)
    → should_forward_message now raddr msg d ≡ true
    → 2 ≤ msg.header.ttl
unfolding should_forward_message
forwarded_ttl now raddr msg d yes_forward = ground (arith, yes_forward)

-- A message that nodes forward in turn reaches only as many as its TTL allows, one less than its
-- value, and leaves the last of them with the TTL less, and the hop count more (as a byte), by the
-- number of nodes, and with nothing else changed. TTL and hop count are bytes to begin with.
pub relays_bounded :
    (hops : List Hop) (msg out : Message)
    → msg.header.ttl < 256
    → msg.header.hop_count < 256
    → relays hops msg ≡ some out
    → ((hops ≡ []) ⊎ (length hops < msg.header.ttl)) × (out ≡ after_hops (length hops) msg)
unfolding relays forwarded_message
relays_bounded [] msg out small_ttl small_hops reached = (
  inl refl,
  sym (
      with_counts msg (msg.header.ttl - 0) msg.header.ttl ((msg.header.hop_count + 0) % 256)
        msg.header.hop_count (omega arith) (omega arith)
      ∙ (cc)),
)
relays_bounded (hop ∷ hops) msg out small_ttl small_hops reached =
    elim (Bool-cases (should_forward_message hop.at_time hop.raddr msg hop.node)) [
      | inr stays ↦ absurd (ground (arith, reached, stays))
      | inl goes ↦
          let two = forwarded_ttl hop.at_time hop.raddr msg hop.node goes in
          let (bound, same) =
            relays_bounded hops (forwarded_message msg) out (ground arith) (ground arith)
              (rw goes at reached) in
          (
            inr (elim bound [
              | inl last ↦ let none_left : length hops ≡ 0 = rw last refl in omega arith
              | inr few ↦
                  let fewer : length hops < (msg.header.ttl + 255) % 256 = few in omega arith
            ]),
            same
                ∙ with_counts msg ((msg.header.ttl + 255) % 256 - length hops)
                    (msg.header.ttl - suc (length hops))
                    (((msg.header.hop_count + 1) % 256 + length hops) % 256)
                    ((msg.header.hop_count + suc (length hops)) % 256) (omega arith) (omega arith),
          )
    ]
