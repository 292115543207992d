-- ===== src/Storage/TickLadder/Refines.antt =====
-- `TickLadderStore` of src/storage.rs keeps the contract of a store.
use order_book.Prelude.{
  ℕ, zero, suc, ◌+◌, ◌≡◌, ◌<◌, refl, [], ◌∷◌, none, some, Bool, true, false, replicate, arith, OnOk,
  OnOk-bind, OnOk-ok_or, ok_or, guard, checked, u64_mod, none_not_some,
}
use order_book.Side.{Side, ask, bid}
use order_book.Instrument.{InstrumentSpec}
use order_book.Storage.{StoreError, BookLevel, unbounded_price_range, price_range_too_large}
use order_book.Storage.Ladder.{Ladder, first_level, IsStore}
use order_book.Storage.TickLadder.{
  TickLadderStore, tick_ladder_store, side_slots, checked_sub, checked_div, slot_at, try_new,
  levels,
}
use order_book.Storage.TickLadder.Slots.{Placed}
use order_book.Storage.TickLadder.Best.{held, IsBest}
use order_book.Storage.TickLadder.Index.{held_none, IsTickLadder}
use order_book.Storage.TickLadder.Reads.{
  level-levels, levels-Sorted, best_level-best, best_level-levels,
}
use order_book.Storage.TickLadder.Writes.{
  put-IsTickLadder, remove_level-IsTickLadder, ensure_level-IsTickLadder,
}

module _ (Key : Type 0) where
  empty : (min_minor tick_size slots : ℕ) → TickLadderStore Key
  empty min_minor tick_size slots = record {
    bids = replicate slots none;
    asks = replicate slots none;
    min_minor = min_minor;
    tick_size = tick_size;
    best_bid = none;
    best_ask = none;
  }

  slot_at-replicate : (n j : ℕ) → slot_at {A = BookLevel Key} (replicate n none) j ≡ none
  unfolding slot_at
  slot_at-replicate zero j = refl
  slot_at-replicate (suc n) zero = refl
  slot_at-replicate (suc n) (suc j) = slot_at-replicate n j

  Placed-replicate :
      (min_minor tick_size k n : ℕ) → Placed Key min_minor tick_size k (replicate n none)
  Placed-replicate min_minor tick_size k zero = tt
  Placed-replicate min_minor tick_size k (suc n) = Placed-replicate min_minor tick_size (suc k) n

  no_best : (ls : Ladder Key) → none ≡ first_level Key ls → ls ≡ []
  no_best [] h = refl
  no_best (l ∷ ls) h = absurd (none_not_some h)

  levels-no_best :
      (s : TickLadderStore Key) (side : Side)
      → IsTickLadder Key s
      → IsBest side (side_slots Key s side) none
      → levels Key s side ≡ []
  levels-no_best s side v h = no_best (levels Key s side) (best_level-best Key s side none v h)

  empty-IsTickLadder :
      (min_minor tick_size slots : ℕ)
      → 0 < tick_size
      → IsTickLadder Key (empty min_minor tick_size slots)
        × ((side : Side) → levels Key (empty min_minor tick_size slots) side ≡ [])
  unfolding empty
  empty-IsTickLadder min_minor tick_size slots pos =
      let vacant : (j : ℕ) → held (replicate slots none) j ≡ false =
        λ j. held_none (slot_at-replicate slots j) in
      let valid : IsTickLadder Key (empty min_minor tick_size slots) = record {
        pos = pos;
        same = refl;
        bids_placed = Placed-replicate min_minor tick_size 0 slots;
        asks_placed = Placed-replicate min_minor tick_size 0 slots;
        bids_best = vacant;
        asks_best = vacant;
      } in
      (
        valid,
        λ side. elim side as (λ d. levels Key (empty min_minor tick_size slots) d ≡ []) [
          | ask ↦ levels-no_best (empty min_minor tick_size slots) ask valid vacant
          | bid ↦ levels-no_best (empty min_minor tick_size slots) bid valid vacant
        ],
      )

  guard_lem : (b : Bool) → OnOk (λ u. b ≡ true) (guard {E = StoreError} b price_range_too_large)
  guard_lem true = refl
  guard_lem false = tt

  checked_div-some : (a b q : ℕ) → checked_div a b ≡ some q → 0 < b
  unfolding checked_div
  checked_div-some a b q e = ground arith

  try_new-IsTickLadder :
      (can_reserve : ℕ → Bool) (spec : InstrumentSpec)
      → OnOk
          (λ s. IsTickLadder Key s × ((side : Side) → levels Key s side ≡ []))
          (try_new Key can_reserve spec)
  unfolding try_new empty
  try_new-IsTickLadder can_reserve spec =
      let Q : TickLadderStore Key → Type 0 =
        λ s. IsTickLadder Key s × ((side : Side) → levels Key s side ≡ []) in
      OnOk-bind Q (ok_or spec.max_price unbounded_price_range) _
        (OnOk-ok_or spec.max_price unbounded_price_range)
        (λ max _.
          OnOk-bind Q (ok_or (checked_sub max spec.min_price) price_range_too_large) _
            (OnOk-ok_or (checked_sub max spec.min_price) price_range_too_large)
            (λ span _.
              OnOk-bind Q (ok_or (checked_div span spec.tick_size) price_range_too_large) _
                (OnOk-ok_or (checked_div span spec.tick_size) price_range_too_large)
                (λ ticks e.
                  OnOk-bind Q (ok_or (checked u64_mod (ticks + 1)) price_range_too_large) _
                    (OnOk-ok_or (checked u64_mod (ticks + 1)) price_range_too_large)
                    (λ slots _.
                      OnOk-bind Q (guard (can_reserve slots) price_range_too_large) _
                        (guard_lem (can_reserve slots))
                        (λ _ _.
                          OnOk-bind Q (guard (can_reserve slots) price_range_too_large) _
                            (guard_lem (can_reserve slots))
                            (λ _ _.
                              empty-IsTickLadder spec.min_price spec.tick_size slots
                                (checked_div-some span spec.tick_size ticks e)))))))

  -- `TickLadderStore` keeps the contract of a store: the cached slots are those of the best prices,
  -- each operation does to the levels, in the order of their slots, what the trait promises.
  pub tick_ladder_store-IsStore :
      (can_reserve : ℕ → Bool) → IsStore Key (tick_ladder_store Key can_reserve) (IsTickLadder Key)
  tick_ladder_store-IsStore can_reserve = record {
    sorted = levels-Sorted Key;
    try_new_lem = try_new-IsTickLadder can_reserve;
    level_lem = level-levels Key;
    best_level_lem = best_level-levels Key;
    ensure_level_lem = ensure_level-IsTickLadder Key;
    put_lem = put-IsTickLadder Key;
    remove_level_lem = remove_level-IsTickLadder Key;
  }
