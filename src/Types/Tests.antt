-- ===== src/Types/Tests.antt =====
-- An owned price level of src/types.rs on a concrete order.
use order_book.Prelude.{◌≢◌, arith, ◌≡◌, ◌++◌, refl, [], ◌∷◌, ok, some, text_beq}
use order_book.Side.{ask}
use order_book.Types.{default_builder, build, from_sequence, Order, PriceLevel, limit_gtc, new}
use order_book.Types.Builder.{
  exchange_id, client_id, order_type, side, quantity, timestamp, arrival, lifecycle,
  remaining_quantity,
}
use order_book.Types.Ids.{from_sequence-distinct}
use order_book.Types.Level.{IsLevel, add_order, add_order-IsLevel, side_beq, holds_id}

abbrev order : Order
order = record {
  exchange_id = b'x' ∷ [];
  client_id = b'a' ∷ [];
  order_type = limit_gtc 10000;
  side = ask;
  original_quantity = 5;
  remaining_quantity = 5;
  timestamp = 7;
  arrival = 1;
  lifecycle = new;
}

abbrev level : PriceLevel
level = record { price = 10000; side = ask; orders = order ∷ [] }

abbrev later : Order
later = record order { exchange_id = b'y' ∷ []; arrival = 2 }

abbrev longer : PriceLevel
longer = record { price = 10000; side = ask; orders = order ∷ later ∷ [] }

level-IsLevel : IsLevel level
level-IsLevel = record { one_side = (refl, tt); distinct = (tt, tt) }

taken : add_order level later ≡ ok longer
unfolding add_order side_beq holds_id text_beq
taken = refl

add_order-IsLevel_example : IsLevel longer × (longer.orders ≡ level.orders ++ later ∷ [])
add_order-IsLevel_example = add_order-IsLevel level longer later level-IsLevel taken

from_sequence-distinct_example : from_sequence 41 ≢ from_sequence 42
from_sequence-distinct_example =
    from_sequence-distinct 41 42 (omega arith) (omega arith) (omega arith)

-- An order comes back from a builder that is given each of its fields.
built_back :
    build (
      remaining_quantity
        (lifecycle
          (arrival
            (timestamp
              (quantity
                (side
                  (order_type
                    (client_id (exchange_id (default_builder 3) (b'x' ∷ [])) (b'a' ∷ []))
                    (limit_gtc 10000))
                  ask)
                5)
              7)
            1)
          new)
        5)
    ≡ some order
unfolding build default_builder exchange_id client_id order_type side quantity timestamp arrival
    lifecycle remaining_quantity
built_back = refl
