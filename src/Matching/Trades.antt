-- ===== src/Matching/Trades.antt =====
-- What the sweep of src/matching.rs trades: within the taker's limit, and what the taker loses.
pub mod Level
use order_book.Prelude.{
  ℕ, zero, suc, ◌+◌, ◌-◌, ◌≤◌, ◌<◌, ◌≡◌, refl, ◌==◌, sym, ap, ◌∙◌, subst, List, [], ◌∷◌, ◌++◌,
  Option, true, false, Result, ok, err, ok_or, ◌>>=◌, arith, map, sum, All, All-append, get_elem?,
  u64_mod, map_remove, text_eq, sub_u64_lem, Bool-cases, Option-cases, OnOk, OnOk-map, inl, inr,
}
use order_book.Side.{Side, opposite}
use order_book.Instrument.{Price, Qty, is_zero}
use order_book.Allocation.{Fill, MatchingAlgorithm}
use order_book.Allocation.Contract.Sound.{quantities, IsFrugal}
use order_book.Types.{Order}
use order_book.OrderQueue.{SlotMap, Node, LevelQueue, remove_client, collect_makers, remove_key}
use order_book.Storage.{BookLevel, OrderBookStore}
use order_book.Matching.Engine.{fill_against, opening}
use order_book.OrderBook.{OrderBook, Fault}
use order_book.Matching.{Trade, SweepContext, within}
use order_book.Matching.Sweep.{
  Sweep, cancel_own, apply_fill, apply_fills, exhausted, unlink_exhausted, sweep_level, store_level,
  sweep_loop,
}
use order_book.Matching.Trades.Level.{
  traded, Advances, Advances-trans, Advances-same, sweep_level-Advances,
}

module _ (slots : SlotMap) (stores : OrderBookStore slots.Key) where
  open slots use {Key}

  store_level-Advances :
      (bound : Option Price) (s : Sweep slots stores) (side : Side) (level : BookLevel Key)
      (queue : LevelQueue Key)
      → Advances slots stores bound s (store_level slots stores s side level queue)
  unfolding store_level
  store_level-Advances bound s side level queue = Advances-same slots stores bound s _ refl refl

  swept-Advances :
      (fuel : ℕ) (matcher : MatchingAlgorithm) (context : SweepContext) (bound : Option Price)
      (s : Sweep slots stores) (level : BookLevel Key)
      (m : Result Fault (Sweep slots stores × LevelQueue Key))
      → IsFrugal matcher
      → s.taker.remaining_quantity < u64_mod
      → OnOk (λ r. Advances slots stores bound s r.0) m
      → ((t : Sweep slots stores)
          → t.taker.remaining_quantity < u64_mod
          → OnOk
              (Advances slots stores bound t)
              (sweep_loop slots stores fuel matcher context bound t))
      → OnOk (Advances slots stores bound s) (
          m >>= λ r. elim (r.1.len == 0) [
            | true ↦
                sweep_loop slots stores fuel matcher context bound
                  (store_level slots stores r.0 (opposite s.taker.side) level r.1)
            | false ↦ ok (store_level slots stores r.0 (opposite s.taker.side) level r.1)
          ])
  swept-Advances fuel matcher context bound s level (err e) frugal u h again = tt
  swept-Advances fuel matcher context bound s level (ok (t, queue)) frugal u h again =
      let next = store_level slots stores t (opposite s.taker.side) level queue in
      let moved : Advances slots stores bound s next =
        Advances-trans slots stores bound s t next h
          (store_level-Advances bound t (opposite s.taker.side) level queue) in
      elim (Bool-cases (queue.len == 0)) [
        | inr e ↦ rw (e, OnOk) moved
        | inl e ↦
            rw (e, OnOk)
              (OnOk-map (sweep_loop slots stores fuel matcher context bound next)
                (λ v p. Advances-trans slots stores bound s next v moved p)
                (again next (omega (arith, moved.less))))
      ]

  -- The sweep of `fill_against` trades within the taker's limit, and what it trades is what the
  -- taker's remaining quantity loses.
  pub sweep_loop-Advances :
      (fuel : ℕ) (matcher : MatchingAlgorithm) (context : SweepContext) (bound : Option Price)
      (s : Sweep slots stores)
      → IsFrugal matcher
      → s.taker.remaining_quantity < u64_mod
      → OnOk (Advances slots stores bound s) (sweep_loop slots stores fuel matcher context bound s)
  unfolding sweep_loop
  sweep_loop-Advances zero matcher context bound s frugal u = tt
  sweep_loop-Advances (suc fuel) matcher context bound s frugal u =
      elim (Bool-cases (is_zero s.taker.remaining_quantity)) [
        | inl e ↦ rw (e, OnOk) (Advances-same slots stores bound s s refl refl)
        | inr e ↦ elim (Option-cases (stores.best_level s.store (opposite s.taker.side))) [
          | inl e' ↦ rw (e, e', OnOk) (Advances-same slots stores bound s s refl refl)
          | inr (level, e') ↦ elim (Bool-cases (within s.taker.side level.price bound)) [
            | inr e'' ↦ rw (e, e', e'', OnOk) (Advances-same slots stores bound s s refl refl)
            | inl e'' ↦
                rw (e, e', e'', OnOk)
                  (swept-Advances fuel matcher context bound s level
                    (sweep_level slots stores matcher context s level) frugal u
                    (sweep_level-Advances slots stores matcher context bound s level frugal e'' u)
                    (λ t n. sweep_loop-Advances fuel matcher context bound t frugal n))
          ]
        ]
      ]

  -- What a taker of this quantity may look like after the sweep.
  abbrev pub IsFair : Order → Option Price → Sweep slots stores → Type 0
  IsFair order bound s =
      All (λ (t : Trade). within order.side t.price bound ≡ true) s.trades
      × (s.taker.remaining_quantity + traded s.trades ≡ order.remaining_quantity)

  pub opening-IsFair :
      (b : OrderBook slots stores) (order : Order) (bound : Option Price) (s : Sweep slots stores)
      → Advances slots stores bound (opening slots stores b order) s
      → IsFair order bound s
  opening-IsFair b order bound s p = (p.inside tt, omega (arith, p.total))

  -- A sweep by a matcher that never gives out more than there is, for an order of a u64 quantity,
  -- trades only at prices within the order's limit, and what the order has left and what it has
  -- traded are together what it came with.
  pub fill_against-trades :
      (b : OrderBook slots stores) (order : Order) (bound : Option Price)
      → IsFrugal b.matcher
      → order.remaining_quantity < u64_mod
      → OnOk (IsFair order bound) (fill_against slots stores b order bound)
  unfolding fill_against
  fill_against-trades b order bound frugal u =
      OnOk-map (fill_against slots stores b order bound) (opening-IsFair b order bound)
        (sweep_loop-Advances _ b.matcher _ bound (opening slots stores b order) frugal u)
