-- ===== src/OrderQueue/Tests.antt =====
-- The queue of src/order_queue.rs on a concrete arena: the theorems at a queue of two orders.
use order_book.Prelude.{ℕ, ◌≡◌, refl, [], ◌∷◌, ◌++◌, none, some, arith, map_get, nat_eq}
use order_book.Side.{ask}
use order_book.Types.{Order, limit_gtc, new}
use order_book.OrderQueue.{LevelQueue, OrderArena, push_back, remove_key, remove_client}
use order_book.OrderQueue.Arena.{slots, slots-IsSlotMap}
use order_book.OrderQueue.Chain.{Entries, IsQueue, Same}
use order_book.OrderQueue.Push.{push_back-IsQueue}
use order_book.OrderQueue.Remove.{remove_key-IsQueue}
use order_book.OrderQueue.Walk.{of_client, of_others, remove_client-IsQueue}

-- Orders of the clients "a" and "b".
abbrev pub order : ℕ → ℕ → Order
order client quantity = record {
  exchange_id = client ∷ quantity ∷ [];
  client_id = client ∷ [];
  order_type = limit_gtc 10000;
  side = ask;
  original_quantity = quantity;
  remaining_quantity = quantity;
  timestamp = 7;
  arrival = quantity;
  lifecycle = new;
}

abbrev pub entries : Entries slots
entries = (0, order b'a' 5) ∷ (1, order b'b' 6) ∷ []

abbrev pub nodes : OrderArena slots
nodes =
    (1, record { order = order b'b' 6; previous = some 0; next = none })
    ∷ (0, record { order = order b'a' 5; previous = none; next = some 1 })
    ∷ []

abbrev pub queue : LevelQueue ℕ
queue = record { head = some 0; tail = some 1; len = 2 }

queue-IsQueue : IsQueue slots nodes queue entries
unfolding map_get
queue-IsQueue = record {
  head_eq = refl;
  tail_eq = refl;
  len_eq = refl;
  linked = (refl, (refl, tt));
  keys = ((omega arith, tt), (tt, tt));
  fits = omega arith;
}

push_back-IsQueue_example :
    (q' : LevelQueue ℕ) × (b : OrderArena slots) × (k : ℕ) × (push_back slots queue nodes
        (order b'a' 7)
      ≡ some (q', b, k))
    × (map_get k nodes ≡ none)
    × IsQueue slots b q' (entries ++ (k, order b'a' 7) ∷ [])
    × Same slots nodes b (entries ++ (k, order b'a' 7) ∷ [])
push_back-IsQueue_example =
    push_back-IsQueue slots slots-IsSlotMap nodes queue entries (order b'a' 7) queue-IsQueue
      (omega arith)

remove_key-IsQueue_example :
    (q' : LevelQueue ℕ) × (b : OrderArena slots) × (remove_key slots queue nodes 1
      ≡ some (q', b, some (order b'b' 6)))
    × (map_get 1 b ≡ none)
    × IsQueue slots b q' ((0, order b'a' 5) ∷ [])
    × Same slots nodes b entries
remove_key-IsQueue_example =
    remove_key-IsQueue slots slots-IsSlotMap nodes queue ((0, order b'a' 5) ∷ []) [] 1
      (order b'b' 6) queue-IsQueue

remove_client-IsQueue_example :
    (q' : LevelQueue ℕ) × (b : OrderArena slots) × (remove_client slots queue nodes (b'a' ∷ [])
      ≡ some (q', b, of_client slots (b'a' ∷ []) entries))
    × IsQueue slots b q' (of_others slots (b'a' ∷ []) entries)
    × Same slots nodes b entries
remove_client-IsQueue_example =
    remove_client-IsQueue slots slots-IsSlotMap nodes queue (b'a' ∷ []) entries queue-IsQueue
