-- ===== src/Storage/TickLadder.antt =====
-- `TickLadderStore` of src/storage.rs: an array with one slot for each tick of the price range, on
-- each side, and the index of the best occupied slot. A u64 is a usize here, as on a 64-bit target.
mod Slots
mod Best
pub mod Index
mod Reads
mod Writes
pub mod Refines
pub mod Range
use order_book.Prelude.{
  ℕ, zero, suc, ◌+◌, ◌-◌, ◌/◌, ◌%◌, ◌==◌, ◌&&◌, List, [], ◌∷◌, Option, none, some, Bool, true,
  false, Result, ok, err, ok_or, guard, ◌>>=◌, ◌>>◌, map, if◌then◌else◌, ltb, get_elem?, set, take,
  replicate, length, checked, u64_mod,
}
use mathlib.Core.List.{reverse}
use order_book.Side.{Side, ask, bid}
use order_book.Instrument.{InstrumentSpec, Price}
use order_book.Storage.{
  StoreError, unbounded_price_range, price_range_too_large, price_outside_range, BookLevel,
  OrderBookStore,
}
use order_book.Storage

-- `checked_sub`
unfoldable pub checked_sub : ℕ → ℕ → Option ℕ
checked_sub a b = if ltb a b then none else some (a - b)

-- `checked_div`
unfoldable pub checked_div : ℕ → ℕ → Option ℕ
checked_div a b = if b == 0 then none else some (a / b)

unfoldable pub is_some : {A : Type 0} → Option A → Bool
is_some none = false
is_some (some a) = true

-- What stands in a slot; behind the last one there is nothing.
unfoldable pub slot_at : {A : Type 0} → List (Option A) → ℕ → Option A
slot_at slots i = elim (get_elem? slots i) [ none ↦ none | some slot ↦ slot ]

-- `slots[from..]`
unfoldable pub drop : {A : Type 0} → ℕ → List A → List A
drop zero xs = xs
drop (suc n) [] = []
drop (suc n) (x ∷ xs) = drop n xs

-- `position(Option::is_some)`
unfoldable pub position : {A : Type 0} → List (Option A) → Option ℕ
position [] = none
position (some a ∷ slots) = some 0
position (none ∷ slots) = elim (position slots) [ none ↦ none | some i ↦ some (suc i) ]

-- `rposition(Option::is_some)`
unfoldable pub rposition : {A : Type 0} → List (Option A) → Option ℕ
rposition [] = none
rposition (slot ∷ slots) = elim (rposition slots) [
  | some i ↦ some (suc i)
  | none ↦ if is_some slot then some 0 else none
]

-- The levels that an iterator over slots yields by `find_map(Option::as_ref)`.
unfoldable pub occupied : {A : Type 0} → List (Option A) → List A
occupied [] = []
occupied (none ∷ slots) = occupied slots
occupied (some a ∷ slots) = a ∷ occupied slots

-- `is_none_or(|best| index > best)` for the bids, `index < best` for the asks.
unfoldable pub raises : Side → ℕ → Option ℕ → Bool
raises side index none = true
raises ask index (some best) = ltb index best
raises bid index (some best) = ltb best index

-- `self.best == Some(index)`
unfoldable pub is_touch : Option ℕ → ℕ → Bool
is_touch none index = false
is_touch (some best) index = best == index

-- The best slot once the one at `removed` is empty.
unfoldable pub repaired_best : {A : Type 0} → Side → List (Option A) → ℕ → Option ℕ
repaired_best bid slots removed = rposition (take removed slots)
repaired_best ask slots removed = elim (position (drop (removed + 1) slots)) [
  | none ↦ none
  | some offset ↦ some (removed + 1 + offset)
]

module _ (Key : Type 0) where
  abbrev pub Slots : Type 0
  Slots = List (Option (BookLevel Key))

  pub record TickLadderStore : Type 0 where
    pub bids : Slots
    pub asks : Slots
    pub min_minor : ℕ
    pub tick_size : ℕ
    pub best_bid : Option ℕ
    pub best_ask : Option ℕ

  unfoldable pub slots_per_side : TickLadderStore → ℕ
  slots_per_side s = length s.bids

  abbrev pub side_slots : TickLadderStore → Side → Slots
  side_slots s ask = s.asks
  side_slots s bid = s.bids

  abbrev pub side_best : TickLadderStore → Side → Option ℕ
  side_best s ask = s.best_ask
  side_best s bid = s.best_bid

  abbrev pub with_side : TickLadderStore → Side → Slots → Option ℕ → TickLadderStore
  with_side s ask slots best = record s { asks = slots; best_ask = best }
  with_side s bid slots best = record s { bids = slots; best_bid = best }

  -- The slot of an offset from the least price.
  unfoldable pub offset_index : TickLadderStore → ℕ → Option ℕ
  offset_index s offset =
      if offset % s.tick_size == 0
      then if ltb (offset / s.tick_size) (length s.bids) then some (offset / s.tick_size) else none
      else none

  unfoldable pub index : TickLadderStore → Price → Option ℕ
  index s price = elim (checked_sub price s.min_minor) [
    | none ↦ none
    | some offset ↦ offset_index s offset
  ]

  unfoldable pub repair_best_after_removal : TickLadderStore → Side → ℕ → TickLadderStore
  repair_best_after_removal s side removed =
      with_side s side (side_slots s side) (repaired_best side (side_slots s side) removed)

  -- `can_reserve n` says whether the allocator gives room for n slots.
  unfoldable pub try_new : (ℕ → Bool) → InstrumentSpec → Result StoreError TickLadderStore
  try_new can_reserve spec = do
    max ← ok_or spec.max_price unbounded_price_range
    span ← ok_or (checked_sub max spec.min_price) price_range_too_large
    ticks ← ok_or (checked_div span spec.tick_size) price_range_too_large
    slots ← ok_or (checked u64_mod (ticks + 1)) price_range_too_large
    guard (can_reserve slots) price_range_too_large
    guard (can_reserve slots) price_range_too_large
    ok (record {
      bids = replicate slots none;
      asks = replicate slots none;
      min_minor = spec.min_price;
      tick_size = spec.tick_size;
      best_bid = none;
      best_ask = none;
    })

  -- `get_or_insert_with`
  unfoldable pub fill_slot : Slots → ℕ → BookLevel Key → Slots
  fill_slot slots i level = elim (slot_at slots i) [
    | some l ↦ slots
    | none ↦ set slots i (some level)
  ]

  unfoldable pub ensure_at : TickLadderStore → Side → Price → ℕ → TickLadderStore
  ensure_at s side price i =
      with_side s side (fill_slot (side_slots s side) i (Storage.new price side))
        (if raises side i (side_best s side) then some i else side_best s side)

  unfoldable pub ensure_level : TickLadderStore → Side → Price → Result StoreError TickLadderStore
  ensure_level s side price = do
    i ← ok_or (index s price) price_outside_range
    ok (ensure_at s side price i)

  unfoldable pub level : TickLadderStore → Side → Price → Option (BookLevel Key)
  level s side price = elim (index s price) [ none ↦ none | some i ↦ slot_at (side_slots s side) i ]

  unfoldable pub put : TickLadderStore → Side → Price → BookLevel Key → TickLadderStore
  put s side price l = elim (index s price) [
    | none ↦ s
    | some i ↦ with_side s side (set (side_slots s side) i (some l)) (side_best s side)
  ]

  unfoldable pub best_level : TickLadderStore → Side → Option (BookLevel Key)
  best_level s side = elim (side_best s side) [
    | none ↦ none
    | some i ↦ slot_at (side_slots s side) i
  ]

  unfoldable pub remove_at : TickLadderStore → Side → ℕ → TickLadderStore
  remove_at s side i =
      let taken = with_side s side (set (side_slots s side) i none) (side_best s side) in
      if is_some (slot_at (side_slots s side) i) && is_touch (side_best s side) i
      then repair_best_after_removal taken side i
      else taken

  unfoldable pub remove_level :
      TickLadderStore → Side → Price → TickLadderStore × Option (BookLevel Key)
  remove_level s side price = elim (index s price) [
    | none ↦ (s, none)
    | some i ↦ (remove_at s side i, slot_at (side_slots s side) i)
  ]

  unfoldable pub side_ordered : Side → Slots → List (BookLevel Key)
  side_ordered ask slots = occupied slots
  side_ordered bid slots = occupied (reverse slots)

  unfoldable pub levels : TickLadderStore → Side → List (BookLevel Key)
  levels s side = side_ordered side (side_slots s side)

  abbrev pub tick_ladder_store : (ℕ → Bool) → OrderBookStore Key
  tick_ladder_store can_reserve = record {
    Store = TickLadderStore;
    try_new = try_new can_reserve;
    ensure_level = ensure_level;
    level = level;
    put = put;
    best_level = best_level;
    remove_level = remove_level;
    levels = levels;
  }
