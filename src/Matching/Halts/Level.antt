-- ===== src/Matching/Halts/Level.antt =====
-- One level of the sweep of src/matching.rs keeps the store.
use order_book.Prelude.{
  ◌≡◌, refl, ◌∙◌, List, [], ◌∷◌, Result, ok, err, ok_or, ◌>>=◌, get_elem?, map_remove, text_eq,
  Bool-cases, Option-cases, inl, inr,
}
use order_book.Instrument.{Price}
use order_book.Allocation.{Fill, MatchingAlgorithm}
use order_book.Types.{Order}
use order_book.OrderQueue.{SlotMap, LevelQueue, remove_client, collect_makers, remove_key}
use order_book.Storage.{BookLevel, OrderBookStore}
use order_book.OrderBook.{Fault, failed, panic, out_of_fuel}
use order_book.Matching.{SweepContext}
use order_book.Matching.Sweep.{
  Sweep, cancel_own, apply_fill, apply_fills, exhausted, unlink_exhausted, sweep_level,
}

-- The run has not exhausted its fuel, and what it returns is so.
abbrev pub Ends : {A : Type 0} → (A → Type 0) → Result Fault A → Type 0
Ends P (ok a) = P a
Ends P (err (failed e)) = Unit
Ends P (err panic) = Unit
Ends P (err out_of_fuel) = ⊥

pub Ends-map :
    {A : Type 0} {P : A → Type 0} {Q : A → Type 0} (m : Result Fault A)
    → ((a : A) → P a → Q a)
    → Ends P m
    → Ends Q m
Ends-map (ok a) f h = f a h
Ends-map (err (failed e)) f h = tt
Ends-map (err panic) f h = tt
Ends-map (err out_of_fuel) f h = absurd h

pub Ends-bind :
    {A B : Type 0} {P : A → Type 0} (Q : B → Type 0) (m : Result Fault A) (f : A → Result Fault B)
    → Ends P m
    → ((a : A) → P a → Ends Q (f a))
    → Ends Q (m >>= f)
Ends-bind Q (ok a) f h k = k a h
Ends-bind Q (err (failed e)) f h k = tt
Ends-bind Q (err panic) f h k = tt
Ends-bind Q (err out_of_fuel) f h k = absurd h

module _ (slots : SlotMap) (stores : OrderBookStore slots.Key) where
  open slots use {Key, get}

  -- The store and the taker's side are as they were.
  abbrev pub Stays : Sweep slots stores → Sweep slots stores → Type 0
  Stays s t = (t.store ≡ s.store) × (t.taker.side ≡ s.taker.side)

  apply_fills-Stays :
      (price : Price) (keys : List Key) (fills : List Fill) (s : Sweep slots stores)
      → Ends (Stays s) (apply_fills slots stores s price keys fills)
  unfolding apply_fills apply_fill
  apply_fills-Stays price keys [] s = (refl, refl)
  apply_fills-Stays price keys (f ∷ fs) s = elim (Option-cases (get_elem? keys f.order_index)) [
    | inl e ↦ rw (e, Ends) tt
    | inr (key, e) ↦ elim (Option-cases (get s.nodes key)) [
      | inl e' ↦ rw (e, e', Ends) tt
      | inr (node, e') ↦
          rw (e, e', Ends)
            (apply_fills-Stays price keys fs (apply_fill slots stores s price key node f.quantity))
    ]
  ]

  cancel_own-Stays :
      (owns : List Order) (s : Sweep slots stores) → Stays s (cancel_own slots stores s owns)
  unfolding cancel_own
  cancel_own-Stays [] s = (refl, refl)
  cancel_own-Stays (o ∷ os) s = cancel_own-Stays os _

  unlink_exhausted-Stays :
      (keys : List Key) (fills : List Fill) (s : Sweep slots stores) (queue : LevelQueue Key)
      → Ends (λ r. Stays s r.0) (unlink_exhausted slots stores s queue keys fills)
  unfolding unlink_exhausted
  unlink_exhausted-Stays keys [] s queue = (refl, refl)
  unlink_exhausted-Stays keys (f ∷ fs) s queue =
      elim (Option-cases (get_elem? keys f.order_index)) [
        | inl e ↦ rw (e, Ends) tt
        | inr (key, e) ↦ elim (Bool-cases (exhausted slots stores (get s.nodes key))) [
          | inr e' ↦ rw (e, e', Ends) (unlink_exhausted-Stays keys fs s queue)
          | inl e' ↦ elim (Option-cases (remove_key slots queue s.nodes key)) [
            | inl k ↦ rw (e, e', k, ok_or, ◌>>=◌, Ends) tt
            | inr (r, k) ↦ elim (Option-cases r.2) [
              | inl k' ↦ rw (e, e', k, ok_or, ◌>>=◌, k', Ends) tt
              | inr (done, k') ↦
                  rw (e, e', k, ok_or, ◌>>=◌, k', Ends)
                    (unlink_exhausted-Stays keys fs
                      (record s { nodes = r.1; index = map_remove done.exchange_id s.index }) r.0)
            ]
          ]
        ]
      ]

  filled-Stays :
      (s own : Sweep slots stores) (queue : LevelQueue Key) (price : Price) (keys : List Key)
      (fills : List Fill)
      → Stays s own
      → Ends
          (λ r. Stays s r.0)
          (apply_fills slots stores own price keys fills >>= λ applied.
            unlink_exhausted slots stores applied queue keys fills)
  filled-Stays s own queue price keys fills h =
      Ends-bind (λ (r : Sweep slots stores × LevelQueue Key). Stays s r.0)
        (apply_fills slots stores own price keys fills) _ (apply_fills-Stays price keys fills own)
        (λ t p.
          Ends-map (unlink_exhausted slots stores t queue keys fills)
            (λ r q. (q.0 ∙ p.0 ∙ h.0, q.1 ∙ p.1 ∙ h.1)) (unlink_exhausted-Stays keys fills t queue))

  pub sweep_level-Stays :
      (matcher : MatchingAlgorithm) (context : SweepContext) (s : Sweep slots stores)
      (level : BookLevel Key)
      → Ends (λ r. Stays s r.0) (sweep_level slots stores matcher context s level)
  unfolding sweep_level
  sweep_level-Stays matcher context s level =
      elim (Option-cases (remove_client slots level.queue s.nodes s.taker.client_id)) [
        | inl e ↦ rw (e, ok_or, ◌>>=◌, Ends) tt
        | inr (r, e) ↦ elim (Option-cases (collect_makers slots r.0 r.1)) [
          | inl e' ↦ rw (e, ok_or, ◌>>=◌, e', Ends) tt
          | inr (mk, e') ↦
              rw (e, ok_or, ◌>>=◌, e')
                (filled-Stays s (cancel_own slots stores (record s { nodes = r.1 }) r.2) r.0
                  level.price mk.1 (matcher.allocate s.taker.remaining_quantity mk.0 context.now)
                  (cancel_own-Stays r.2 (record s { nodes = r.1 })))
        ]
      ]
