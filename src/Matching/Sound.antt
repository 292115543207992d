-- ===== src/Matching/Sound.antt =====
-- `submit` of src/matching.rs on a book whose parts agree: it returns, and the parts go on to agree.
pub mod Stops
pub mod Active
pub mod Kept
pub mod Parks
pub mod Pops
pub mod Drops
pub mod Cancels
pub mod Finds
pub mod Session
mod Tests
use order_book.Prelude.{
  ℕ, suc, ◌+◌, ◌<◌, ◌≡◌, refl, ◌⊎◌, inl, inr, Result, ok, err, arith, Bool-cases, u32_mod,
}
use order_book.Instrument.{Price}
use order_book.Types.{Order, stop_market, stop_limit, TimeInForce}
use order_book.OrderQueue.{SlotMap, IsSlotMap}
use order_book.Storage.{OrderBookStore}
use order_book.Storage.Ladder.{IsStore}
use order_book.OrderBook.{OrderBook, OrderBookError, Fault, failed, panic, out_of_fuel}
use order_book.OrderBook.Returns.{Runs, Runs-map}
use order_book.OrderBook.Reindex.{same_index-IsBook}
use order_book.Matching.{ExecutionReport, activate, already_triggered}
use order_book.Matching.Engine.{execute_loop, execute, submit, pop_triggered_stop, pending}
use order_book.Matching.Activate.{IsActive, OrderType-cases, activate-IsActive}
use order_book.Matching.Cascade.Turns.{EndsOr, submit-EndsOr}
use order_book.Matching.Sound.Active.{execute_active-Runs}
use order_book.Matching.Sound.Parks.{IsSound, HasRoom, Settles-HasRoom, park-HasRoom}
use order_book.Matching.Sound.Pops.{pop_triggered_stop-Runs}

-- A run that returns, in the words of `Turns`.
Runs-EndsOr :
    {A : Type 0} (P : A → Type 0) (m : Result Fault A)
    → (Runs P m → EndsOr ⊥ P m) × (EndsOr ⊥ P m → (a : A) × (m ≡ ok a) × P a)
Runs-EndsOr P (ok a) = (λ h. h, λ h. (a, refl, h))
Runs-EndsOr P (err (failed e)) = (λ h. h, λ h. absurd h)
Runs-EndsOr P (err panic) = (λ h. h, λ h. absurd h)
Runs-EndsOr P (err out_of_fuel) = (λ h. h, λ h. absurd h)

module _ (slots : SlotMap) (slot_laws : IsSlotMap slots) (stores : OrderBookStore slots.Key)
    (Valid : stores.Store → Type 0) (laws : IsStore slots.Key stores Valid) where
  abbrev Room : ℕ → OrderBook slots stores → Type 0
  Room = HasRoom slots slot_laws stores Valid laws

  active-Runs :
      (n fuel : ℕ) (b : OrderBook slots stores) (order : Order)
      → IsActive order.order_type
      → Room (suc n) b
      → Runs
          (λ r. Room n r.0 × (pending slots stores r.0 ≡ pending slots stores b))
          (execute_loop slots stores (suc fuel) b order)
  active-Runs n fuel b order active (v, room) =
      Runs-map _ (execute_loop slots stores (suc fuel) b order)
        (λ r k. Settles-HasRoom slots slot_laws stores Valid laws n b r.0 (v, room) k)
        (execute_active-Runs slots slot_laws stores Valid laws b v.agrees v.range
          (omega (arith, room)) fuel order active)

  activated-Runs :
      (n : ℕ) (b : OrderBook slots stores) (order : Order)
      → Room (suc n) b
      → Runs (λ r. Room n r.0) (execute_loop slots stores 1 b (activate order))
  activated-Runs n b order v =
      Runs-map _ (execute_loop slots stores 1 b (activate order)) (λ r k. k.0)
        (active-Runs n 0 b (activate order) (activate-IsActive order) v)

  execute_stop-Runs :
      (n : ℕ) (b : OrderBook slots stores) (order : Order) (trigger : Price)
      → (order.order_type ≡ stop_market trigger)
        ⊎ ((price : Price) × (tif : TimeInForce) × (order.order_type
              ≡ stop_limit trigger price tif))
      → Room (suc n) b
      → Runs (λ r. Room n r.0) (execute_loop slots stores 2 b order)
  unfolding execute_loop
  execute_stop-Runs n b order trigger (inl e) v =
      elim (Bool-cases (already_triggered b.last_trade_price order.side trigger)) [
        | inl t ↦ rw (e, t, Runs) (activated-Runs n b order v)
        | inr t ↦
            rw (e, t, Runs) (park-HasRoom slots slot_laws stores Valid laws n b order trigger v)
      ]
  execute_stop-Runs n b order trigger (inr (price, tif, e)) v =
      elim (Bool-cases (already_triggered b.last_trade_price order.side trigger)) [
        | inl t ↦ rw (e, t, Runs) (activated-Runs n b order v)
        | inr t ↦
            rw (e, t, Runs) (park-HasRoom slots slot_laws stores Valid laws n b order trigger v)
      ]

  execute-Runs :
      (n : ℕ) (b : OrderBook slots stores) (order : Order)
      → Room (suc n) b
      → Runs (λ r. Room n r.0) (execute slots stores b order)
  unfolding execute
  execute-Runs n b order v = elim (OrderType-cases order.order_type) [
    | inl a ↦
        Runs-map _ (execute_loop slots stores 2 b order) (λ r k. k.0) (active-Runs n 1 b order a v)
    | inr (inl (trigger, e)) ↦ execute_stop-Runs n b order trigger (inl e) v
    | inr (inr (trigger, price, tif, e)) ↦
        execute_stop-Runs n b order trigger (inr (price, tif, e)) v
  ]

  numbered-HasRoom :
      (n : ℕ) (b : OrderBook slots stores) (seq : ℕ)
      → Room (suc n) b
      → Room (suc n) (record b { next_seq = seq })
  numbered-HasRoom n b seq (v, room) = (
    record {
      agrees = (
        v.agrees.0,
        same_index-IsBook slots stores Valid laws b v.agrees.0 v.agrees.1 b.stop_bids b.stop_asks
            b.last_trade_price seq,
      );
      bids = v.bids;
      asks = v.asks;
      bids_parked = v.bids_parked;
      asks_parked = v.asks_parked;
      bids_there = v.bids_there;
      asks_there = v.asks_there;
      range = v.range;
    },
    room,
  )

  activation-Runs :
      (n : ℕ) (b : OrderBook slots stores) (stop : Order)
      → Room (suc n) b
      → Runs
          (λ r. Room n r.0 × (pending slots stores r.0 ≡ pending slots stores b))
          (execute slots stores b (activate stop))
  unfolding execute
  activation-Runs n b stop v = active-Runs n 1 b (activate stop) (activate-IsActive stop) v

  -- On a sound book with an arrival stamp left for every pending stop and for one order and `n` more,
  -- `submit` returns: it never panics and no loop of it runs on. The book that it leaves is sound,
  -- also when it returns an error, with a stamp left for every pending stop and for `n` orders.
  pub submit-IsSound :
      (n : ℕ) (b : OrderBook slots stores) (order : Order)
      → HasRoom slots slot_laws stores Valid laws (suc n) b
      → (r : OrderBook slots stores × Result OrderBookError ExecutionReport) × (submit slots stores
            b order
          ≡ ok r)
        × HasRoom slots slot_laws stores Valid laws n r.0
  submit-IsSound n b order v = (Runs-EndsOr _ (submit slots stores b order)).1 (
      submit-EndsOr slots stores ⊥ (Room n) (Room (suc n)) (λ c w. (w.0, omega (arith, w.1)))
        (numbered-HasRoom n)
        (λ c w.
          (Runs-EndsOr _ (pop_triggered_stop slots stores c)).0
            (pop_triggered_stop-Runs slots slot_laws stores Valid laws n c w))
        (λ c stop w.
          (Runs-EndsOr _ (execute slots stores c (activate stop))).0 (activation-Runs n c stop w))
        (λ c o w. (Runs-EndsOr _ (execute slots stores c o)).0 (execute-Runs n c o w)) b order v)
