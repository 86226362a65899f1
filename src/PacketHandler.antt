-- ===== src/PacketHandler.antt =====
-- PacketHandler.h. The user's function is a parameter that changes a state of the user's; a client is
-- known by its address.
use parlo_plus_plus.Common.{ℕ, Bool, Option, none, some}
use parlo_plus_plus.Packet.{Packet}

-- `handler` is `none` where the `std::function` is empty.
pub record PacketHandler (S : Type 0) : Type 0 where
  pub id : ℕ
  pub encrypted : Bool
  pub handler : Option (ℕ → Packet → S → S)

module _ {S : Type 0} where
  abbrev pub packet_handler : ℕ → Bool → Option (ℕ → Packet → S → S) → PacketHandler S
  packet_handler id encrypted handler = record { id = id; encrypted = encrypted; handler = handler }

  -- `handlePacket`
  unfoldable pub handle_packet : PacketHandler S → ℕ → Packet → S → S
  handle_packet h client packet s = elim h.handler [ none ↦ s | some f ↦ f client packet s ]
