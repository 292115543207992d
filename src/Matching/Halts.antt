-- ===== src/Matching/Halts.antt =====
-- The sweep of src/matching.rs ends over every store that keeps its contract: a drained level leaves
-- the ladder, and the sweep stops at any other.
pub mod Level
use order_book.Prelude.{
  none_not_some, some_inj, ℕ, zero, suc, ◌<◌, ◌≡◌, ◌==◌, refl, sym, ap, ◌∙◌, subst, List, [], ◌∷◌,
  Option, some, true, false, Result, ok, err, ok_or, ◌>>=◌, arith, length, get_elem?, map_remove,
  text_eq, Bool-cases, Option-cases, inl, inr,
}
use order_book.Side.{Side, opposite}
use order_book.Instrument.{Price, is_zero}
use order_book.Allocation.{Fill, MatchingAlgorithm}
use order_book.Types.{Order}
use order_book.OrderQueue.{SlotMap, LevelQueue, remove_client, collect_makers, remove_key}
use order_book.Storage.{BookLevel, OrderBookStore}
use order_book.Storage.Ladder.{
  find_level, IsStore, Ladder, first_level, put_level, drop_level, drained-length,
}
use order_book.Matching.Engine.{fill_against}
use order_book.OrderBook.{OrderBook, Fault, failed, panic, out_of_fuel}
use order_book.Matching.{SweepContext, within}
use order_book.Matching.Sweep.{
  Sweep, cancel_own, apply_fill, apply_fills, exhausted, unlink_exhausted, sweep_level, store_level,
  sweep_loop,
}
use order_book.Matching.Halts.Level.{Ends, Stays, sweep_level-Stays}

module _ (slots : SlotMap) (stores : OrderBookStore slots.Key) where
  open slots use {Key}

  pub store_level_drained :
      (t : Sweep slots stores) (side : Side) (level : BookLevel Key) (queue : LevelQueue Key)
      → (queue.len == 0) ≡ true
      → store_level slots stores t side level queue ≡ record t {
        store =
            (stores.remove_level
              (stores.put t.store side level.price (record level { queue = queue }))
              side
              level.price).0;
      }
  unfolding store_level
  store_level_drained t side level queue e = rw e refl

  pub store_level_kept :
      (t : Sweep slots stores) (side : Side) (level : BookLevel Key) (queue : LevelQueue Key)
      → (queue.len == 0) ≡ false
      → store_level slots stores t side level queue
        ≡ record t { store = stores.put t.store side level.price (record level { queue = queue }) }
  unfolding store_level
  store_level_kept t side level queue e = rw e refl

  module _ (Valid : stores.Store → Type 0) (laws : IsStore Key stores Valid) where
    -- Levels left on the side that is swept.
    abbrev pub depth : Sweep slots stores → ℕ
    depth s = length (stores.levels s.store (opposite s.taker.side))

    pub first-found :
        (ls : Ladder Key) (l : BookLevel Key)
        → first_level Key ls ≡ some l
        → find_level Key l.price ls ≡ some l
    unfolding find_level
    first-found [] l e = absurd (none_not_some e)
    first-found (k ∷ ls) l e = ground (arith, some_inj e)

    first-drained :
        (side : Side) (ls : Ladder Key) (l m : BookLevel Key)
        → first_level Key ls ≡ some l
        → m.price ≡ l.price
        → length (drop_level Key l.price (put_level Key side m ls)) < length ls
    first-drained side [] l m h e = absurd (none_not_some h)
    first-drained side (k ∷ ls) l m h e =
        let q : k ≡ l = some_inj h in
        subst
          (λ x. length (drop_level Key l.price (put_level Key side m (x ∷ ls))) < suc (length ls))
          (sym q) (drained-length Key side l m ls e)

    swept-Ends :
        (fuel : ℕ) (matcher : MatchingAlgorithm) (context : SweepContext) (bound : Option Price)
        (s : Sweep slots stores) (level : BookLevel Key)
        (m : Result Fault (Sweep slots stores × LevelQueue Key))
        → Valid s.store
        → depth s < suc fuel
        → stores.best_level s.store (opposite s.taker.side) ≡ some level
        → Ends (λ r. Stays slots stores s r.0) m
        → ((t : Sweep slots stores)
            → Valid t.store
            → depth t < fuel
            → Ends (λ v. Valid v.store) (sweep_loop slots stores fuel matcher context bound t))
        → Ends
            (λ v. Valid v.store)
            (m >>= λ r. elim (r.1.len == 0) [
              | true ↦
                  sweep_loop slots stores fuel matcher context bound
                    (store_level slots stores r.0 (opposite s.taker.side) level r.1)
              | false ↦ ok (store_level slots stores r.0 (opposite s.taker.side) level r.1)
            ])
    swept-Ends fuel matcher context bound s level (err (failed e)) v d b h again = tt
    swept-Ends fuel matcher context bound s level (err panic) v d b h again = tt
    swept-Ends fuel matcher context bound s level (err out_of_fuel) v d b h again = absurd h
    swept-Ends fuel matcher context bound s level (ok (t, queue)) v d b h again =
        let side = opposite s.taker.side in
        let m : BookLevel Key = record level { queue = queue } in
        let valid : Valid t.store = subst Valid (sym h.0) v in
        let top : first_level Key (stores.levels t.store side) ≡ some level =
          sym (laws.best_level_lem t.store side valid)
          ∙ ap (λ x. stores.best_level x side) h.0
          ∙ b in
        let (vp, put, _) =
          laws.put_lem t.store side m level valid
            (laws.level_lem t.store side level.price valid ∙ first-found _ level top) in
        let (vr, removed, _, _) =
          laws.remove_level_lem (stores.put t.store side level.price m) side level.price vp in
        let shorter = first-drained side (stores.levels t.store side) level m top refl in
        let next : Sweep slots stores = record t {
          store = (stores.remove_level (stores.put t.store side level.price m) side level.price).0;
        } in
        let less : depth next < fuel = omega (
          arith,
          shorter,
          ap length (removed ∙ ap (drop_level Key level.price) put),
          ap (λ x. length (stores.levels x side)) h.0,
          ap (λ x. length (stores.levels next.store (opposite x))) h.1,
        ) in
        elim (Bool-cases (queue.len == 0)) [
          | inl e ↦ rw (e, store_level_drained t side level queue e, Ends) (again next vr less)
          | inr e ↦ rw (e, store_level_kept t side level queue e, Ends) vp
        ]

    sweep_loop-Ends :
        (fuel : ℕ) (matcher : MatchingAlgorithm) (context : SweepContext) (bound : Option Price)
        (s : Sweep slots stores)
        → Valid s.store
        → depth s < fuel
        → Ends (λ v. Valid v.store) (sweep_loop slots stores fuel matcher context bound s)
    unfolding sweep_loop
    sweep_loop-Ends zero matcher context bound s v d = absurd (omega arith)
    sweep_loop-Ends (suc fuel) matcher context bound s v d =
        elim (Bool-cases (is_zero s.taker.remaining_quantity)) [
          | inl e ↦ rw (e, Ends) v
          | inr e ↦ elim (Option-cases (stores.best_level s.store (opposite s.taker.side))) [
            | inl e' ↦ rw (e, e', Ends) v
            | inr (level, e') ↦ elim (Bool-cases (within s.taker.side level.price bound)) [
              | inr e'' ↦ rw (e, e', e'', Ends) v
              | inl e'' ↦
                  rw (e, e', e'', Ends)
                    (swept-Ends fuel matcher context bound s level
                      (sweep_level slots stores matcher context s level) v d e'
                      (sweep_level-Stays slots stores matcher context s level)
                      (λ t w n. sweep_loop-Ends fuel matcher context bound t w n))
            ]
          ]
        ]

    -- Over a store that keeps its contract, the sweep never exhausts its fuel, one unit for each level
    -- of the other side and one more, and leaves a valid store.
    pub fill_against-Ends :
        (b : OrderBook slots stores) (order : Order) (bound : Option Price)
        → Valid b.store
        → Ends (λ s. Valid s.store) (fill_against slots stores b order bound)
    unfolding fill_against
    fill_against-Ends b order bound v = sweep_loop-Ends _ b.matcher _ bound _ v (omega arith)
