-- ===== src/Storage/Tests.antt =====
-- The stores of src/storage.rs on small instruments.
use order_book.Prelude.{
  ℕ, ◌≡◌, ◌↔◌, refl, Bool, false, none, some, [], ◌∷◌, ok, err, leb, map_get, map_insert,
}
use order_book.Side.{ask, bid}
use order_book.Instrument.{InstrumentSpec}
use order_book.Storage.{price_outside_range, new}
use order_book.Storage.Ladder.{IsStore, better}
use order_book.Storage.HashMap.{
  HashMapStore, hash_map_store, ensure_level, insert_vacant, best_level, peek, level, sort_levels,
  insert_sorted, levels,
}
use order_book.Storage.HashMap.Refines.{IsHashMap, hash_map_store-IsStore}
use order_book.Storage.TickLadder.{
  TickLadderStore, tick_ladder_store, try_new, checked_sub, checked_div,
}
use order_book.Storage.TickLadder
use order_book.Storage.TickLadder.Index.{IsTickLadder}
use order_book.Storage.TickLadder.Refines.{tick_ladder_store-IsStore}
use order_book.Storage.TickLadder.Range.{in_range, over_range, over_range-Spans, ensure_level-err}

-- Prices from 10 to 40 in steps of 10.
abbrev narrow : InstrumentSpec
narrow = record {
  price_scale = 2;
  qty_scale = 0;
  tick_size = 10;
  lot_size = 1;
  min_price = 10;
  max_price = some 40;
  min_qty = 1;
  max_qty = none;
  min_notional = none;
}

-- An allocator that has room for 1000 slots.
abbrev room : ℕ → Bool
room n = leb n 1000

-- Two asks entered in descending order: the heap knows the better one.
abbrev two_asks : HashMapStore ℕ
two_asks = record {
  bids = [];
  asks = (30, new 30 ask) ∷ (20, new 20 ask) ∷ [];
  bids_index = [];
  asks_index = 20 ∷ 30 ∷ [];
}

entered :
    ensure_level ℕ (record two_asks { asks = (30, new 30 ask) ∷ []; asks_index = 30 ∷ [] }) ask 20
    ≡ ok two_asks
unfolding ensure_level insert_vacant level map_get map_insert
entered = refl

best_ask : best_level ℕ two_asks ask ≡ some (new 20 ask)
unfolding best_level peek map_get better
best_ask = refl

in_order : levels ℕ two_asks ask ≡ new 20 ask ∷ new 30 ask ∷ []
unfolding levels sort_levels insert_sorted better new
in_order = refl

hash_map_store-IsStore_example : IsStore ℕ (hash_map_store ℕ) (IsHashMap ℕ)
hash_map_store-IsStore_example = hash_map_store-IsStore ℕ

tick_ladder_store-IsStore_example : IsStore ℕ (tick_ladder_store ℕ room) (IsTickLadder ℕ)
tick_ladder_store-IsStore_example = tick_ladder_store-IsStore ℕ room

ensure_level-err_example :
    (TickLadder.ensure_level ℕ (over_range ℕ narrow 40) bid 25 ≡ err price_outside_range)
    ↔ (in_range narrow 40 25 ≡ false)
ensure_level-err_example =
    ensure_level-err ℕ narrow 40 25 (over_range ℕ narrow 40) bid
      (over_range-Spans ℕ room narrow 40 refl)
