-- ===== src/Matching/Fillable/Tests.antt =====
-- The check of a fill-or-kill order of src/matching.rs on a book of one ask.
use order_book.Prelude.{
  some, ◌⊎◌, ◌<◌, ◌≤◌, ◌≡◌, [], ◌∷◌, ok, true, false, leb, map, u64_mod, arith, text_beq,
  if◌then◌else◌, ℕ, Bool, List,
}
use native.Mathlib.Nat.{one-dvd}
use order_book.Side.{ask, bid, opposite}
use order_book.Instrument.{Price, Qty}
use order_book.Types.{Order}
use order_book.OrderQueue.Arena.{slots, slots-IsSlotMap}
use order_book.OrderQueue.Tests.{order}
use order_book.Storage.BTree.{levels}
use order_book.Storage.BTree.Refines.{IsBTree, btree_store-IsStore}
use order_book.OrderBook.Tests.{stores, one_book, first, at_first, first_agrees}
use order_book.Storage.Ladder.Place.{is_place, is_place_refl}
use order_book.Allocation.Fifo.Keeps.{fifo_matcher-IsFrugal}
use order_book.Matching.{within_limit, filled, killed}
use order_book.Matching.Engine.{process_fok_limit_order, fill_against, after_sweep, matched}
use order_book.Matching.FillOrKill.{IsFilled, process_fok_limit_order-offer}
use order_book.Matching.Safe.Matchers.{matchers-IsInRange}
use order_book.Matching.FillOrKill.Whole.{IsWhole, process_fok_limit_order-IsWhole}
use order_book.Matching.Full.Sizes.{AreSized}
use order_book.Matching.Full.Matchers.{fifo_matcher-KeepsContract}
use order_book.OrderBook.Runs.{Agrees}
use order_book.Matching.Sweep.{Sweep, fillable_quantity}
use order_book.Matching.Fillable.{offered, others_left, fillable_quantity-offered}

-- A buy of the client "b".
abbrev buy : Order
buy = record (order b'b' 3) { side = bid }

abbrev asked : Price → List Order
asked p = map (λ e. e.1) (at_first first_agrees.0 (opposite buy.side) p)

others_left-first :
    (h : Bool) (k : ℕ)
    → others_left buy.client_id
        (map (λ (e : ℕ × Order). e.1) (if h then (k, record first { arrival = 1 }) ∷ [] else []))
      < 6
unfolding text_beq
others_left-first true k = omega arith
others_left-first false k = omega arith

short : offered asked buy 10000 (levels ℕ one_book.store (opposite buy.side)) < u64_mod
unfolding levels opposite within_limit
short = omega (arith, others_left-first (is_place ask 10000 ask 10000) first_agrees.0)

fillable_quantity-offered_example :
    (q : Qty) × (fillable_quantity slots stores one_book.store one_book.nodes
        (opposite buy.side)
        buy
        10000
      ≡ ok q)
    × (q ≤ offered asked buy 10000 (levels ℕ one_book.store (opposite buy.side)))
    × (leb buy.remaining_quantity q
        ≡ leb buy.remaining_quantity
            (offered asked buy 10000 (levels ℕ one_book.store (opposite buy.side))))
fillable_quantity-offered_example =
    fillable_quantity-offered slots stores (IsBTree ℕ) (btree_store-IsStore ℕ) one_book
      (at_first first_agrees.0) buy 10000 first_agrees.1 short

process_fok_limit_order-offer_example :
    ((offered asked buy 10000 (levels ℕ one_book.store (opposite buy.side)) < 3)
      × (process_fok_limit_order slots stores one_book buy 10000
          ≡ ok (one_book, ok (record { trades = []; cancelled = []; outcome = killed }))))
    ⊎ ((3 ≤ offered asked buy 10000 (levels ℕ one_book.store (opposite buy.side)))
        × ((s : Sweep slots stores) × (fill_against slots stores one_book buy (some 10000) ≡ ok s)
            × (process_fok_limit_order slots stores one_book buy 10000
                ≡ ok (after_sweep slots stores one_book s, ok (matched slots stores s filled)))
            × IsFilled slots slots-IsSlotMap stores
                (IsBTree ℕ)
                (btree_store-IsStore ℕ)
                one_book
                (at_first first_agrees.0)
                buy
                10000
                (after_sweep slots stores one_book s)
                (matched slots stores s filled)))
process_fok_limit_order-offer_example =
    process_fok_limit_order-offer slots slots-IsSlotMap stores (IsBTree ℕ) (btree_store-IsStore ℕ)
      one_book (at_first first_agrees.0) buy 10000 first_agrees.1 short fifo_matcher-IsFrugal
      matchers-IsInRange.0 (omega arith)

sized_first :
    (h : Bool) (k : ℕ) → AreSized slots 1 (if h then (k, record first { arrival = 1 }) ∷ [] else [])
sized_first true k = ((omega arith, omega arith, one-dvd 5), tt)
sized_first false k = tt

offers_enough : 3 ≤ offered asked buy 10000 (levels ℕ one_book.store (opposite buy.side))
unfolding levels opposite within_limit text_beq
offers_enough = rw (is_place_refl ask 10000) (omega arith)

process_fok_limit_order-IsWhole_example :
    (s : Sweep slots stores) × (process_fok_limit_order slots stores one_book buy 10000
      ≡ ok (after_sweep slots stores one_book s, ok (matched slots stores s filled)))
    × Agrees slots stores slots-IsSlotMap
        (IsBTree ℕ)
        (btree_store-IsStore ℕ)
        (after_sweep slots stores one_book s)
    × IsWhole slots slots-IsSlotMap stores
        (IsBTree ℕ)
        (btree_store-IsStore ℕ)
        one_book
        (at_first first_agrees.0)
        buy
        10000
        s
process_fok_limit_order-IsWhole_example =
    process_fok_limit_order-IsWhole slots slots-IsSlotMap stores (IsBTree ℕ) (btree_store-IsStore ℕ)
      one_book (at_first first_agrees.0) buy 10000 1 first_agrees.1 short matchers-IsInRange.0
      (fifo_matcher-KeepsContract 1) (omega arith) (one-dvd 3)
      (λ p. sized_first (is_place ask 10000 (opposite buy.side) p) first_agrees.0) offers_enough
