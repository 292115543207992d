-- ===== src/Side.antt =====
-- `Side` of src/types.rs.
pub data Side : Type 0 where
  ask bid : Side

-- The side that an order trades against.
unfoldable pub opposite : Side → Side
opposite ask = bid
opposite bid = ask
