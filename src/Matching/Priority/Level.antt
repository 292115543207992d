-- ===== src/Matching/Priority/Level.antt =====
-- What one level adds to a sweep of src/matching.rs: trades at its price, and nothing in the store.
use order_book.Prelude.{
  ◌≡◌, refl, sym, ap, ◌∙◌, List, [], ◌∷◌, ◌++◌, ok_or, ◌>>=◌, All-append, append-nil, append_assoc,
  OnOk-bind, get_elem?, map_remove, text_eq, Bool-cases, Option-cases, OnOk, OnOk-map, inl, inr,
}
use order_book.Instrument.{Price}
use order_book.Allocation.{Fill, MatchingAlgorithm}
use order_book.Types.{Order}
use order_book.OrderQueue.{SlotMap, LevelQueue, remove_client, collect_makers, remove_key}
use order_book.Storage.{BookLevel, OrderBookStore}
use order_book.Matching.{Trade, SweepContext}
use order_book.Matching.Sweep.{
  Sweep, cancel_own, apply_fill, apply_fills, exhausted, unlink_exhausted, sweep_level,
}
use order_book.Matching.Priority.Fence.{At}

module _ (slots : SlotMap) (stores : OrderBookStore slots.Key) where
  open slots use {Key, get}

  -- From one state of the sweep to a later one of the same level: trades at its price are added, the
  -- store and the taker's side stay.
  abbrev pub Adds : Price → Sweep slots stores → Sweep slots stores → Type 0
  Adds p s t =
      (us : List Trade) × (t.trades ≡ s.trades ++ us)
      × At p us
      × (t.store ≡ s.store)
      × (t.taker.side ≡ s.taker.side)

  Adds-refl : (p : Price) (s : Sweep slots stores) → Adds p s s
  Adds-refl p s = ([], sym (append-nil s.trades), tt, refl, refl)

  Adds-trans : (p : Price) (s t u : Sweep slots stores) → Adds p s t → Adds p t u → Adds p s u
  Adds-trans p s t u (us, e, a, h, k) (vs, e', a', h', k') = (
    us ++ vs,
    e' ∙ ap (λ ts. ts ++ vs) e ∙ append_assoc s.trades us vs,
    All-append _ us vs a a',
    h' ∙ h,
    k' ∙ k,
  )

  apply_fills-Adds :
      (price : Price) (keys : List Key) (fills : List Fill) (s : Sweep slots stores)
      → OnOk (Adds price s) (apply_fills slots stores s price keys fills)
  unfolding apply_fills apply_fill
  apply_fills-Adds price keys [] s = Adds-refl price s
  apply_fills-Adds price keys (f ∷ fs) s = elim (Option-cases (get_elem? keys f.order_index)) [
    | inl e ↦ rw (e, OnOk) tt
    | inr (key, e) ↦ elim (Option-cases (get s.nodes key)) [
      | inl e' ↦ rw (e, e', OnOk) tt
      | inr (node, e') ↦
          let next = apply_fill slots stores s price key node f.quantity in
          rw (e, e', OnOk)
            (OnOk-map (apply_fills slots stores next price keys fs)
              (λ t p. Adds-trans price s next t (_, refl, (refl, tt), refl, refl) p)
              (apply_fills-Adds price keys fs next))
    ]
  ]

  cancel_own-Adds :
      (p : Price) (owns : List Order) (s : Sweep slots stores)
      → Adds p s (cancel_own slots stores s owns)
  unfolding cancel_own
  cancel_own-Adds p [] s = Adds-refl p s
  cancel_own-Adds p (o ∷ os) s = cancel_own-Adds p os _

  unlink_exhausted-Adds :
      (p : Price) (keys : List Key) (fills : List Fill) (s : Sweep slots stores)
      (queue : LevelQueue Key)
      → OnOk (λ r. Adds p s r.0) (unlink_exhausted slots stores s queue keys fills)
  unfolding unlink_exhausted
  unlink_exhausted-Adds p keys [] s queue = Adds-refl p s
  unlink_exhausted-Adds p keys (f ∷ fs) s queue =
      elim (Option-cases (get_elem? keys f.order_index)) [
        | inl e ↦ rw (e, OnOk) tt
        | inr (key, e) ↦ elim (Bool-cases (exhausted slots stores (get s.nodes key))) [
          | inr e' ↦ rw (e, e', OnOk) (unlink_exhausted-Adds p keys fs s queue)
          | inl e' ↦ elim (Option-cases (remove_key slots queue s.nodes key)) [
            | inl k ↦ rw (e, e', k, ok_or, ◌>>=◌, OnOk) tt
            | inr (r, k) ↦ elim (Option-cases r.2) [
              | inl k' ↦ rw (e, e', k, ok_or, ◌>>=◌, k', OnOk) tt
              | inr (done, k') ↦
                  rw (e, e', k, ok_or, ◌>>=◌, k', OnOk)
                    (unlink_exhausted-Adds p keys fs
                      (record s { nodes = r.1; index = map_remove done.exchange_id s.index }) r.0)
            ]
          ]
        ]
      ]

  filled-Adds :
      (s own : Sweep slots stores) (queue : LevelQueue Key) (price : Price) (keys : List Key)
      (fills : List Fill)
      → Adds price s own
      → OnOk
          (λ r. Adds price s r.0)
          (apply_fills slots stores own price keys fills >>= λ applied.
            unlink_exhausted slots stores applied queue keys fills)
  filled-Adds s own queue price keys fills h =
      OnOk-bind (λ (r : Sweep slots stores × LevelQueue Key). Adds price s r.0)
        (apply_fills slots stores own price keys fills) _ (apply_fills-Adds price keys fills own)
        (λ t p.
          OnOk-map (unlink_exhausted slots stores t queue keys fills)
            (λ r q. Adds-trans price s own r.0 h (Adds-trans price own t r.0 p q))
            (unlink_exhausted-Adds price keys fills t queue))

  pub sweep_level-Adds :
      (matcher : MatchingAlgorithm) (context : SweepContext) (s : Sweep slots stores)
      (level : BookLevel Key)
      → OnOk (λ r. Adds level.price s r.0) (sweep_level slots stores matcher context s level)
  unfolding sweep_level
  sweep_level-Adds matcher context s level =
      elim (Option-cases (remove_client slots level.queue s.nodes s.taker.client_id)) [
        | inl e ↦ rw (e, ok_or, ◌>>=◌, OnOk) tt
        | inr (r, e) ↦ elim (Option-cases (collect_makers slots r.0 r.1)) [
          | inl e' ↦ rw (e, ok_or, ◌>>=◌, e', OnOk) tt
          | inr (mk, e') ↦
              rw (e, ok_or, ◌>>=◌, e')
                (filled-Adds s (cancel_own slots stores (record s { nodes = r.1 }) r.2) r.0
                  level.price mk.1 (matcher.allocate s.taker.remaining_quantity mk.0 context.now)
                  (cancel_own-Adds level.price r.2 (record s { nodes = r.1 })))
        ]
      ]
