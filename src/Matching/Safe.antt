-- ===== src/Matching/Safe.antt =====
-- The sweep of src/matching.rs on a book whose parts agree: it never panics, trades with other clients
-- only, and leaves a book whose parts agree.
pub mod Fills
pub mod Unlink
pub mod Level
pub mod Matchers
use order_book.Prelude.{
  ℕ, zero, suc, ◌≡◌, refl, sym, ◌∙◌, ◌==◌, some, true, false, Result, ok, err, ◌>>=◌, Bool-cases,
  Option-cases, inl, inr, Option,
}
use order_book.Side.{Side, opposite}
use order_book.Instrument.{Price, is_zero}
use order_book.Allocation.{MatchingAlgorithm}
use order_book.Types.{Order}
use order_book.OrderQueue.{SlotMap, IsSlotMap, LevelQueue}
use order_book.Storage.{BookLevel, OrderBookStore}
use order_book.Storage.Ladder.{IsStore}
use order_book.Storage.Ladder.Place.{found}
use order_book.OrderBook.{OrderBook, Fault, failed, panic, out_of_fuel}
use order_book.OrderBook.Returns.{Runs}
use order_book.OrderBook.Contents.{Contents, IsBook}
use order_book.OrderBook.Held.{SameStops, SameStops-refl, SameStops-trans}
use order_book.Matching.{SweepContext, within}
use order_book.Matching.Engine.{fill_against}
use order_book.Matching.Halts.{first-found, fill_against-Ends}
use order_book.Matching.Halts.Level.{Ends}
use order_book.Matching.Sweep.{Sweep, sweep_level, store_level, sweep_loop}
use order_book.Matching.Safe.Fills.{NoSelfTrade}
use order_book.Matching.Safe.Level.{
  IsInRange, swept, Worked, sweep_level-Worked, store_level-IsBook,
}

-- The run returns what is so, unless its fuel is exhausted.
abbrev pub Fueled : {A : Type 0} → (A → Type 0) → Result Fault A → Type 0
Fueled P (ok a) = P a
Fueled P (err (failed e)) = ⊥
Fueled P (err panic) = ⊥
Fueled P (err out_of_fuel) = Unit

-- A run that has the fuel it needs returns.
pub Fueled-Ends :
    {A : Type 0} (P Q : A → Type 0) (m : Result Fault A)
    → Fueled P m
    → Ends Q m
    → (a : A) × (m ≡ ok a) × P a
Fueled-Ends P Q (ok a) h e = (a, refl, h)
Fueled-Ends P Q (err (failed x)) h e = absurd h
Fueled-Ends P Q (err panic) h e = absurd h
Fueled-Ends P Q (err out_of_fuel) h e = absurd e

module _ (slots : SlotMap) (slot_laws : IsSlotMap slots) (stores : OrderBookStore slots.Key)
    (Valid : stores.Store → Type 0) (laws : IsStore slots.Key stores Valid)
    (b : OrderBook slots stores) where
  open slots use {Key}

  -- What holds of the sweep at the head of its loop.
  abbrev Sound : Sweep slots stores → Type 0
  Sound s =
      (c : Contents slots) × IsBook slots stores Valid laws (swept slots stores b s) c
      × NoSelfTrade s.trades
      × SameStops b.index s.index

  pub best-found :
      (s : Sweep slots stores) (side : Side) (level : BookLevel Key)
      → Valid s.store
      → stores.best_level s.store side ≡ some level
      → found Key stores Valid laws s.store side level.price ≡ some level
  best-found s side level v e =
      first-found slots stores Valid laws (stores.levels s.store side) level
        (sym (laws.best_level_lem s.store side v) ∙ e)

  swept-Sound :
      (fuel : ℕ) (matcher : MatchingAlgorithm) (context : SweepContext) (bound : Option Price)
      (s : Sweep slots stores) (c : Contents slots) (side : Side) (level : BookLevel Key)
      (v : IsBook slots stores Valid laws (swept slots stores b s) c)
      (at : found Key stores Valid laws s.store side level.price ≡ some level)
      (clean : NoSelfTrade s.trades) (parked : SameStops b.index s.index)
      (m : Result Fault (Sweep slots stores × LevelQueue Key))
      → Runs (Worked slots slot_laws stores Valid laws b c side s level v at clean) m
      → ((t : Sweep slots stores)
          → Sound t
          → Fueled Sound (sweep_loop slots stores fuel matcher context bound t))
      → Fueled Sound (
          m >>= λ r. elim (r.1.len == 0) [
            | true ↦
                sweep_loop slots stores fuel matcher context bound
                  (store_level slots stores r.0 side level r.1)
            | false ↦ ok (store_level slots stores r.0 side level r.1)
          ])
  swept-Sound fuel matcher context bound s c side level v at clean parked (err e) h again = absurd h
  swept-Sound fuel matcher context bound s c side level v at clean parked (ok (t, queue)) h again =
      let (c', built, clean', still, _) =
        store_level-IsBook slots slot_laws stores Valid laws b c side s level v at clean t queue
          h in
      elim (Bool-cases (queue.len == 0)) [
        | inl e ↦
            rw (e, Fueled)
              (again (store_level slots stores t side level queue)
                (c', built, clean', SameStops-trans b.index s.index _ parked still))
        | inr e ↦ rw (e, Fueled) (c', built, clean', SameStops-trans b.index s.index _ parked still)
      ]

  sweep_loop-Sound :
      (fuel : ℕ) (matcher : MatchingAlgorithm) (context : SweepContext) (bound : Option Price)
      (s : Sweep slots stores)
      → IsInRange matcher
      → Sound s
      → Fueled Sound (sweep_loop slots stores fuel matcher context bound s)
  unfolding sweep_loop
  sweep_loop-Sound zero matcher context bound s range h = tt
  sweep_loop-Sound (suc fuel) matcher context bound s range (c, v, clean, parked) =
      elim (Bool-cases (is_zero s.taker.remaining_quantity)) [
        | inl e ↦ rw (e, Fueled) (c, v, clean, parked)
        | inr e ↦ elim (Option-cases (stores.best_level s.store (opposite s.taker.side))) [
          | inl e' ↦ rw (e, e', Fueled) (c, v, clean, parked)
          | inr (level, e') ↦ elim (Bool-cases (within s.taker.side level.price bound)) [
            | inr e'' ↦ rw (e, e', e'', Fueled) (c, v, clean, parked)
            | inl e'' ↦
                let side = opposite s.taker.side in
                let at = best-found s side level v.valid e' in
                rw (e, e', e'', Fueled)
                  (swept-Sound fuel matcher context bound s c side level v at clean parked
                    (sweep_level slots stores matcher context s level)
                    (sweep_level-Worked slots slot_laws stores Valid laws b c side s level v at
                      clean matcher context range)
                    (λ t w. sweep_loop-Sound fuel matcher context bound t range w))
          ]
        ]
      ]

  -- On a book whose parts agree, with a matcher whose fills point into the level, the sweep returns:
  -- it neither panics nor runs on. It leaves a book whose parts agree and where the index
  -- has the pending stops that it had, and none of its trades is between orders of one client.
  pub fill_against-IsBook :
      (c : Contents slots) (order : Order) (bound : Option Price)
      → IsBook slots stores Valid laws b c
      → IsInRange b.matcher
      → (s : Sweep slots stores) × (fill_against slots stores b order bound ≡ ok s)
        × ((c' : Contents slots) × IsBook slots stores Valid laws (swept slots stores b s) c'
            × NoSelfTrade s.trades
            × SameStops b.index s.index)
  unfolding fill_against
  fill_against-IsBook c order bound v range =
      Fueled-Ends Sound (λ s. Valid s.store) (fill_against slots stores b order bound)
        (sweep_loop-Sound _ b.matcher _ bound _ range (c, v, tt, SameStops-refl b.index))
        (fill_against-Ends slots stores Valid laws b order bound v.valid)
