-- ===== src/Packet/Faults.antt =====
-- internal/olsr/packet.go: declared sizes that are less than the size of the header they stand in.
use olsr_go.Base.{ℕ, ◌+◌, ◌*◌, ◌≤◌, ◌<◌, ◌≡◌, List, ◌∷◌, length, arith, panic}
use olsr_go.Packet.TimeVal.{Float64}
use olsr_go.Packet.Bytes.{index, slice}
use olsr_go.Packet.Deserialize.{
  read_uint16, read_link, read_links, deserialize_hello_message, read_message, read_messages,
  deserialize_packet,
}

module _ (F : Float64) where
  -- Where the input has the declared length and the first message lies inside it, a size of that
  -- message below 12, the length of a message header, makes DeserializePacket panic, whatever the
  -- rest of the input holds.
  pub deserialize_packet_short_message :
      (l_hi l_lo s_hi s_lo t v z_hi z_lo o p q r ttl hop n_hi n_lo : ℕ) (rest : List ℕ)
      → z_hi * 256 + z_lo < 12
      → 4 < l_hi * 256 + l_lo
      → 4 + (z_hi * 256 + z_lo) ≤ l_hi * 256 + l_lo
      → l_hi * 256 + l_lo ≤ 16 + length rest
      → deserialize_packet F (
          l_hi ∷ l_lo ∷ s_hi ∷ s_lo ∷ t ∷ v ∷ z_hi ∷ z_lo ∷ o ∷ p ∷ q ∷ r ∷ ttl ∷ hop ∷ n_hi ∷ n_lo
          ∷ rest)
        ≡ panic
  unfolding deserialize_packet read_messages read_message read_uint16 index slice
  deserialize_packet_short_message l_hi l_lo s_hi s_lo t v z_hi z_lo o p q r ttl hop n_hi n_lo rest
        z l e i =
      ground arith

  -- A HELLO body whose first link message declares a size below 4 makes deserializeHelloMessage panic.
  pub deserialize_hello_message_short_link :
      (a b c d code reserved z_hi z_lo : ℕ) (rest : List ℕ)
      → z_hi * 256 + z_lo < 4
      → deserialize_hello_message F (a ∷ b ∷ c ∷ d ∷ code ∷ reserved ∷ z_hi ∷ z_lo ∷ rest) ≡ panic
  unfolding deserialize_hello_message read_links read_link read_uint16 index slice
  deserialize_hello_message_short_link a b c d code reserved z_hi z_lo rest z = ground arith
