-- ===== src/Matching/Priority.antt =====
-- Price priority in the sweep of src/matching.rs: a sweep trades at the best prices first.
pub mod Fence
pub mod Level
use order_book.Prelude.{
  ℕ, zero, suc, ◌≡◌, refl, ◌==◌, sym, ap, ◌∙◌, subst, List, [], ◌∷◌, ◌++◌, Option, some, true,
  false, Result, ok, err, ok_or, ◌>>=◌, arith, All, All-map, All-append, append-nil, append_assoc,
  OnOk-bind, get_elem?, map_remove, text_eq, Bool-cases, Option-cases, OnOk, OnOk-map, inl, inr,
  none_not_some, some_inj,
}
use order_book.Side.{Side, ask, bid, opposite}
use order_book.Instrument.{Price, is_zero}
use order_book.Allocation.{Fill, MatchingAlgorithm}
use order_book.Types.{Order}
use order_book.OrderQueue.{SlotMap, LevelQueue, remove_client, collect_makers, remove_key}
use order_book.Storage.{BookLevel, OrderBookStore}
use order_book.Storage.Ladder.{
  Ladder, IsStore, Sorted, better, first_level, put_level, drop_level, put_level-All,
  drop_level-All,
}
use order_book.OrderBook.{OrderBook, Fault}
use order_book.Matching.{Trade, SweepContext, within}
use order_book.Matching.Engine.{fill_against}
use order_book.Matching.Halts.{first-found, store_level_drained, store_level_kept}
use order_book.Matching.Sweep.{
  Sweep, cancel_own, apply_fill, apply_fills, exhausted, unlink_exhausted, sweep_level, store_level,
  sweep_loop,
}
use order_book.Matching.Priority.Fence.{
  BestFirst, Behind, At, BestFirst-append, Fenced, Fenced-drained, first-Behind,
}
use order_book.Matching.Priority.Level.{Adds, sweep_level-Adds}

module _ (slots : SlotMap) (stores : OrderBookStore slots.Key) where
  open slots use {Key}

  module _ (Valid : stores.Store → Type 0) (laws : IsStore Key stores Valid) where
    -- The sweep has traded at the best prices first, and what is left of the side is no better.
    abbrev IsFenced : Side → Sweep slots stores → Type 0
    IsFenced side s = Fenced Key side s.trades (stores.levels s.store side)

    level_kept :
        (side : Side) (s t : Sweep slots stores) (level : BookLevel Key)
        → Valid s.store
        → stores.best_level s.store side ≡ some level
        → IsFenced side s
        → Adds slots stores level.price s t
        → BestFirst side t.trades
    level_kept side s t level v b h (us, e, a, _, _) =
        let top = sym (laws.best_level_lem s.store side v) ∙ b in
        subst (BestFirst side) (sym e) (
          BestFirst-append side level.price s.trades us h.0
            (first-Behind Key side (stores.levels s.store side) level s.trades top h) a)

    level_drained :
        (side : Side) (s t : Sweep slots stores) (level : BookLevel Key) (queue : LevelQueue Key)
        → Valid s.store
        → stores.best_level s.store side ≡ some level
        → IsFenced side s
        → Adds slots stores level.price s t
        → (queue.len == 0) ≡ true
        → Valid (store_level slots stores t side level queue).store
          × IsFenced side (store_level slots stores t side level queue)
    level_drained side s t level queue v b h (us, e, a, same, _) z =
        let m : BookLevel Key = record level { queue = queue } in
        let ls = stores.levels s.store side in
        let top : first_level Key ls ≡ some level = sym (laws.best_level_lem s.store side v) ∙ b in
        let (vp, put, _) = laws.put_lem s.store side m level v (
          laws.level_lem s.store side level.price v
          ∙ first-found slots stores Valid laws _ level top) in
        let (vr, removed, _, _) =
          laws.remove_level_lem (stores.put s.store side level.price m) side level.price vp in
        let drained =
          Fenced-drained Key side ls level m s.trades us top refl (laws.sorted s.store side v) h
            a in
        rw (store_level_drained slots stores t side level queue z, same, e)
          (vr, rw (removed, put) drained)

    swept-BestFirst :
        (fuel : ℕ) (matcher : MatchingAlgorithm) (context : SweepContext) (bound : Option Price)
        (s : Sweep slots stores) (level : BookLevel Key)
        (m : Result Fault (Sweep slots stores × LevelQueue Key))
        → Valid s.store
        → IsFenced (opposite s.taker.side) s
        → stores.best_level s.store (opposite s.taker.side) ≡ some level
        → OnOk (λ r. Adds slots stores level.price s r.0) m
        → ((t : Sweep slots stores)
            → Valid t.store
            → IsFenced (opposite t.taker.side) t
            → OnOk
                (λ v. BestFirst (opposite t.taker.side) v.trades)
                (sweep_loop slots stores fuel matcher context bound t))
        → OnOk
            (λ v. BestFirst (opposite s.taker.side) v.trades)
            (m >>= λ r. elim (r.1.len == 0) [
              | true ↦
                  sweep_loop slots stores fuel matcher context bound
                    (store_level slots stores r.0 (opposite s.taker.side) level r.1)
              | false ↦ ok (store_level slots stores r.0 (opposite s.taker.side) level r.1)
            ])
    swept-BestFirst fuel matcher context bound s level (err e) v h b a again = tt
    swept-BestFirst fuel matcher context bound s level (ok (t, queue)) v h b a again =
        let side = opposite s.taker.side in
        let next = store_level slots stores t side level queue in
        elim (Bool-cases (queue.len == 0)) [
          | inr e ↦
              rw (e, store_level_kept slots stores t side level queue e, OnOk)
                (level_kept side s t level v b h a)
          | inl e ↦
              let (vn, fenced) = level_drained side s t level queue v b h a e in
              let (_, _, _, _, turned) = a in
              let turn : opposite next.taker.side ≡ side =
                ap (λ (w : Sweep slots stores). opposite w.taker.side)
                  (store_level_drained slots stores t side level queue e)
                ∙ ap opposite turned in
              rw (e, OnOk)
                (subst
                  (λ d.
                    OnOk (λ (w : Sweep slots stores). BestFirst d w.trades)
                      (sweep_loop slots stores fuel matcher context bound next))
                  turn (again next vn (subst (λ d. IsFenced d next) (sym turn) fenced)))
        ]

    sweep_loop-BestFirst :
        (fuel : ℕ) (matcher : MatchingAlgorithm) (context : SweepContext) (bound : Option Price)
        (s : Sweep slots stores)
        → Valid s.store
        → IsFenced (opposite s.taker.side) s
        → OnOk
            (λ v. BestFirst (opposite s.taker.side) v.trades)
            (sweep_loop slots stores fuel matcher context bound s)
    unfolding sweep_loop
    sweep_loop-BestFirst zero matcher context bound s v h = tt
    sweep_loop-BestFirst (suc fuel) matcher context bound s v h =
        elim (Bool-cases (is_zero s.taker.remaining_quantity)) [
          | inl e ↦ rw (e, OnOk) h.0
          | inr e ↦ elim (Option-cases (stores.best_level s.store (opposite s.taker.side))) [
            | inl e' ↦ rw (e, e', OnOk) h.0
            | inr (level, e') ↦ elim (Bool-cases (within s.taker.side level.price bound)) [
              | inr e'' ↦ rw (e, e', e'', OnOk) h.0
              | inl e'' ↦
                  rw (e, e', e'', OnOk)
                    (swept-BestFirst fuel matcher context bound s level
                      (sweep_level slots stores matcher context s level) v h e'
                      (sweep_level-Adds slots stores matcher context s level)
                      (λ t w f. sweep_loop-BestFirst fuel matcher context bound t w f))
            ]
          ]
        ]

    All-nothing : (ls : Ladder Key) → All (λ (l : BookLevel Key). Unit {0}) ls
    All-nothing [] = tt
    All-nothing (l ∷ ls) = (tt, All-nothing ls)

    -- Over a store that keeps its contract, a sweep trades at the best prices first: no trade is at
    -- a price that is better for the taker than the price of a trade before it.
    pub fill_against-BestFirst :
        (b : OrderBook slots stores) (order : Order) (bound : Option Price)
        → Valid b.store
        → OnOk
            (λ s. BestFirst (opposite order.side) s.trades)
            (fill_against slots stores b order bound)
    unfolding fill_against
    fill_against-BestFirst b order bound v =
        sweep_loop-BestFirst _ b.matcher _ bound _ v (tt, All-nothing _)
