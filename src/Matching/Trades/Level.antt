-- ===== src/Matching/Trades/Level.antt =====
-- What one level of the sweep of src/matching.rs trades.
use order_book.Prelude.{
  ℕ, ◌+◌, ◌-◌, ◌≤◌, ◌<◌, ◌≡◌, refl, sym, ap, ◌∙◌, subst, List, [], ◌∷◌, ◌++◌, Option, true, Result,
  ok, err, ok_or, ◌>>=◌, arith, map, sum, All, All-append, get_elem?, u64_mod, map_remove, text_eq,
  sub_u64_lem, Bool-cases, Option-cases, OnOk, OnOk-map, inl, inr,
}
use order_book.Instrument.{Price, Qty}
use order_book.Allocation.{Fill, MatchingAlgorithm}
use order_book.Allocation.Contract.Sound.{quantities, IsFrugal}
use order_book.Types.{Order}
use order_book.OrderQueue.{SlotMap, Node, LevelQueue, remove_client, collect_makers, remove_key}
use order_book.Storage.{BookLevel, OrderBookStore}
use order_book.OrderBook.{Fault}
use order_book.Matching.{Trade, SweepContext, within}
use order_book.Matching.Sweep.{
  Sweep, cancel_own, apply_fill, apply_fills, exhausted, unlink_exhausted, sweep_level,
}

abbrev pub traded : List Trade → ℕ
traded ts = sum (map (λ t. t.quantity) ts)

traded-snoc : (ts : List Trade) (t : Trade) → traded (ts ++ t ∷ []) ≡ traded ts + t.quantity
traded-snoc [] t = omega arith
traded-snoc (u ∷ ts) t = omega (arith, traded-snoc ts t)

module _ (slots : SlotMap) (stores : OrderBookStore slots.Key) where
  open slots use {Key, get}

  -- From one state of the sweep to a later one: the side stays, the trades stay within the limit,
  -- and what the taker has and has traded stays the same in sum.
  pub record Advances (bound : Option Price) (s s' : Sweep slots stores) : Type 0 where
    pub side : s'.taker.side ≡ s.taker.side
    pub inside :
        All (λ (t : Trade). within s.taker.side t.price bound ≡ true) s.trades
        → All (λ (t : Trade). within s.taker.side t.price bound ≡ true) s'.trades
    pub total :
        s'.taker.remaining_quantity + traded s'.trades
        ≡ s.taker.remaining_quantity + traded s.trades
    pub less : s'.taker.remaining_quantity ≤ s.taker.remaining_quantity

  pub Advances-trans :
      (bound : Option Price) (s t u : Sweep slots stores)
      → Advances bound s t
      → Advances bound t u
      → Advances bound s u
  Advances-trans bound s t u p q = record {
    side = q.side ∙ p.side;
    inside = λ h.
        subst (λ d. All (λ (x : Trade). within d x.price bound ≡ true) u.trades) p.side
          (q.inside (
            subst (λ d. All (λ (x : Trade). within d x.price bound ≡ true) t.trades) (sym p.side)
              (p.inside h)));
    total = q.total ∙ p.total;
    less = omega (arith, p.less, q.less);
  }

  -- Steps that leave the taker and the trades alone.
  pub Advances-same :
      (bound : Option Price) (s s' : Sweep slots stores)
      → s'.taker ≡ s.taker
      → s'.trades ≡ s.trades
      → Advances bound s s'
  Advances-same bound s s' p q = record {
    side = ap (λ o. o.side) p;
    inside = λ h. subst (All (λ (x : Trade). within s.taker.side x.price bound ≡ true)) (sym q) h;
    total =
        ap (λ o. o.remaining_quantity + traded s'.trades) p
        ∙ ap (λ ts. s.taker.remaining_quantity + traded ts) q;
    less = omega (arith, ap (λ (o : Order). o.remaining_quantity) p);
  }

  apply_fill-Advances :
      (bound : Option Price) (s : Sweep slots stores) (price : Price) (key : Key) (node : Node Key)
      (q : Qty)
      → within s.taker.side price bound ≡ true
      → q ≤ s.taker.remaining_quantity
      → s.taker.remaining_quantity < u64_mod
      → Advances bound s (apply_fill slots stores s price key node q)
        × ((apply_fill slots stores s price key node q).taker.remaining_quantity
            ≡ s.taker.remaining_quantity - q)
  unfolding apply_fill
  apply_fill-Advances bound s price key node q w h u =
      let left = sub_u64_lem s.taker.remaining_quantity q h u in
      (
        record {
          side = refl;
          inside = λ k. All-append _ s.trades (_ ∷ []) k (w, tt);
          total = omega (arith, left, traded-snoc s.trades _);
          less = omega (arith, left);
        },
        left,
      )

  pub apply_fills-Advances :
      (bound : Option Price) (price : Price) (keys : List Key) (fills : List Fill)
      (s : Sweep slots stores)
      → within s.taker.side price bound ≡ true
      → sum (quantities fills) ≤ s.taker.remaining_quantity
      → s.taker.remaining_quantity < u64_mod
      → OnOk (Advances bound s) (apply_fills slots stores s price keys fills)
  unfolding apply_fills
  apply_fills-Advances bound price keys [] s w h u = Advances-same bound s s refl refl
  apply_fills-Advances bound price keys (f ∷ fs) s w h u =
      elim (Option-cases (get_elem? keys f.order_index)) [
        | inl e ↦ rw (e, OnOk) tt
        | inr (key, e) ↦ elim (Option-cases (get s.nodes key)) [
          | inl e' ↦ rw (e, e', OnOk) tt
          | inr (node, e') ↦
              let next = apply_fill slots stores s price key node f.quantity in
              let (step, left) =
                apply_fill-Advances bound s price key node f.quantity w (omega arith) u in
              let w' : within next.taker.side price bound ≡ true =
                ap (λ d. within d price bound) step.side ∙ w in
              let rest =
                apply_fills-Advances bound price keys fs next w' (omega (arith, left))
                  (omega (arith, left)) in
              rw (e, e', OnOk)
                (OnOk-map (apply_fills slots stores next price keys fs)
                  (λ t p. Advances-trans bound s next t step p) rest)
        ]
      ]

  cancel_own-Advances :
      (bound : Option Price) (owns : List Order) (s : Sweep slots stores)
      → Advances bound s (cancel_own slots stores s owns)
  unfolding cancel_own
  cancel_own-Advances bound [] s = Advances-same bound s s refl refl
  cancel_own-Advances bound (o ∷ os) s =
      Advances-trans bound s _ _ (Advances-same bound s _ refl refl)
        (cancel_own-Advances bound os _)

  pub unlink_exhausted-Advances :
      (bound : Option Price) (keys : List Key) (fills : List Fill) (s : Sweep slots stores)
      (queue : LevelQueue Key)
      → OnOk (λ r. Advances bound s r.0) (unlink_exhausted slots stores s queue keys fills)
  unfolding unlink_exhausted
  unlink_exhausted-Advances bound keys [] s queue = Advances-same bound s s refl refl
  unlink_exhausted-Advances bound keys (f ∷ fs) s queue =
      elim (Option-cases (get_elem? keys f.order_index)) [
        | inl e ↦ rw (e, OnOk) tt
        | inr (key, e) ↦ elim (Bool-cases (exhausted slots stores (get s.nodes key))) [
          | inr e' ↦ rw (e, e', OnOk) (unlink_exhausted-Advances bound keys fs s queue)
          | inl e' ↦ elim (Option-cases (remove_key slots queue s.nodes key)) [
            | inl k ↦ rw (e, e', k, ok_or, ◌>>=◌, OnOk) tt
            | inr (r, k) ↦ elim (Option-cases r.2) [
              | inl k' ↦ rw (e, e', k, ok_or, ◌>>=◌, k', OnOk) tt
              | inr (done, k') ↦
                  let next : Sweep slots stores = record s {
                    nodes = r.1;
                    index = map_remove done.exchange_id s.index;
                  } in
                  rw (e, e', k, ok_or, ◌>>=◌, k', OnOk)
                    (OnOk-map (unlink_exhausted slots stores next r.0 keys fs)
                      (λ t q.
                        Advances-trans bound s next t.0 (Advances-same bound s next refl refl) q)
                      (unlink_exhausted-Advances bound keys fs next r.0))
            ]
          ]
        ]
      ]

  chain :
      (bound : Option Price) (s : Sweep slots stores) (m : Result Fault (Sweep slots stores))
      (f : Sweep slots stores → Result Fault (Sweep slots stores × LevelQueue Key))
      → OnOk (Advances bound s) m
      → ((t : Sweep slots stores) → OnOk (λ r. Advances bound t r.0) (f t))
      → OnOk (λ r. Advances bound s r.0) (m >>= f)
  chain bound s (err e) f h k = tt
  chain bound s (ok t) f h k = OnOk-map (f t) (λ r q. Advances-trans bound s t r.0 h q) (k t)

  cancel_own_taker :
      (owns : List Order) (s : Sweep slots stores)
      → (cancel_own slots stores s owns).taker ≡ s.taker
  unfolding cancel_own
  cancel_own_taker [] s = refl
  cancel_own_taker (o ∷ os) s = cancel_own_taker os _

  -- The two passes over the fills, after the taker's own orders are gone.
  filled-Advances :
      (bound : Option Price) (s own : Sweep slots stores) (queue : LevelQueue Key) (price : Price)
      (keys : List Key) (fills : List Fill)
      → Advances bound s own
      → own.taker ≡ s.taker
      → within s.taker.side price bound ≡ true
      → sum (quantities fills) ≤ s.taker.remaining_quantity
      → s.taker.remaining_quantity < u64_mod
      → OnOk
          (λ r. Advances bound s r.0)
          (apply_fills slots stores own price keys fills >>= λ applied.
            unlink_exhausted slots stores applied queue keys fills)
  filled-Advances bound s own queue price keys fills a same w h u =
      let applied =
        apply_fills-Advances bound price keys fills own
          (ap (λ o. within o.side price bound) same ∙ w)
          (subst (λ (o : Order). sum (quantities fills) ≤ o.remaining_quantity) (sym same) h)
          (subst (λ (o : Order). o.remaining_quantity < u64_mod) (sym same) u) in
      chain bound s (apply_fills slots stores own price keys fills) _
        (OnOk-map (apply_fills slots stores own price keys fills)
          (λ t p. Advances-trans bound s own t a p) applied)
        (λ t. unlink_exhausted-Advances bound keys fills t queue)

  pub sweep_level-Advances :
      (matcher : MatchingAlgorithm) (context : SweepContext) (bound : Option Price)
      (s : Sweep slots stores) (level : BookLevel Key)
      → IsFrugal matcher
      → within s.taker.side level.price bound ≡ true
      → s.taker.remaining_quantity < u64_mod
      → OnOk (λ r. Advances bound s r.0) (sweep_level slots stores matcher context s level)
  unfolding sweep_level
  sweep_level-Advances matcher context bound s level frugal w u =
      elim (Option-cases (remove_client slots level.queue s.nodes s.taker.client_id)) [
        | inl e ↦ rw (e, ok_or, ◌>>=◌, OnOk) tt
        | inr (r, e) ↦ elim (Option-cases (collect_makers slots r.0 r.1)) [
          | inl e' ↦ rw (e, ok_or, ◌>>=◌, e', OnOk) tt
          | inr (mk, e') ↦
              rw (e, ok_or, ◌>>=◌, e')
                (filled-Advances bound s (cancel_own slots stores (record s { nodes = r.1 }) r.2)
                  r.0 level.price mk.1
                  (matcher.allocate s.taker.remaining_quantity mk.0 context.now)
                  (Advances-trans bound s (record s { nodes = r.1 }) _
                    (Advances-same bound s _ refl refl) (cancel_own-Advances bound r.2 _))
                  (cancel_own_taker r.2 (record s { nodes = r.1 })) w
                  (frugal s.taker.remaining_quantity mk.0 context.now u) u)
        ]
      ]
