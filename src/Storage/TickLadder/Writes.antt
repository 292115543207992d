-- ===== src/Storage/TickLadder/Writes.antt =====
-- The writes of `TickLadderStore` of src/storage.rs, seen as writes of a ladder.
use order_book.Prelude.{
  ℕ, ◌≡◌, ◌<◌, refl, sym, ap, subst, ◌∙◌, Option, none, some, true, ◌==◌, if◌then◌else◌, set,
  length, arith, OnOk, ok_or, ◌>>=◌, Bool-cases, Option-cases, inl, inr, none_not_some, some_inj,
}
use order_book.Side.{Side, ask, bid, opposite}
use order_book.Instrument.{Price}
use order_book.Storage.{
  StoreError, BookLevel, OrderBookStore, unbounded_price_range, price_range_too_large,
  price_outside_range,
}
use order_book.Storage
use order_book.Storage.Ladder.{
  Ladder, find_level, put_level, drop_level, Sorted, with_level, put_level-Sorted,
  drop_level-Sorted,
}
use order_book.Storage.Ladder.Find.{
  find_level-put_level, find_level-drop_level, Ladder_ext, drop_level-none,
}
use order_book.Storage.TickLadder.{
  Slots, TickLadderStore, side_slots, side_best, with_side, slot_at, is_touch, repaired_best, index,
  repair_best_after_removal, fill_slot, ensure_at, ensure_level, level, put, remove_at,
  remove_level, side_ordered, levels,
}
use order_book.Storage.TickLadder.Slots.{side_ordered-Sorted, Placed-set, find_level-set}
use order_book.Storage.TickLadder.Best.{
  held, held-fill, held-empty, held-IsBest, touch_lem, IsBest, raised-IsBest, repaired-IsBest,
  emptied-IsBest,
}
use order_book.Storage.TickLadder.Index.{
  length-set, held_some, and_false, kept, store_price, StorePlaced, IsTickLadder, side_slots-Placed,
  side_best-IsBest, length-side_slots, price_at-index, index-none,
}
use order_book.Storage.TickLadder.Reads.{found_at, levels-Sorted}

module _ (Key : Type 0) where
  -- The store with the slots and the best slot of one side replaced.
  with_side-IsTickLadder :
      (s : TickLadderStore Key) (side : Side) (slots : Slots Key) (o : Option ℕ)
      → IsTickLadder Key s
      → length slots ≡ length s.bids
      → StorePlaced Key s slots
      → IsBest side slots o
      → IsTickLadder Key (with_side Key s side slots o)
        × (levels Key (with_side Key s side slots o) side ≡ side_ordered Key side slots)
        × (levels Key (with_side Key s side slots o) (opposite side) ≡ levels Key s (opposite side))
  unfolding levels opposite
  with_side-IsTickLadder s ask slots o v same placed best = (
    record {
      pos = v.pos;
      same = same;
      bids_placed = v.bids_placed;
      asks_placed = placed;
      bids_best = v.bids_best;
      asks_best = best;
    },
    refl,
    refl,
  )
  with_side-IsTickLadder s bid slots o v same placed best = (
    record {
      pos = v.pos;
      same = v.same ∙ sym same;
      bids_placed = placed;
      asks_placed = v.asks_placed;
      bids_best = best;
      asks_best = v.asks_best;
    },
    refl,
    refl,
  )

  -- A write of one slot, and the ladder it leaves.
  set-IsTickLadder :
      (s : TickLadderStore Key) (side : Side) (i : ℕ) (x : Option (BookLevel Key)) (o : Option ℕ)
      (ls : Ladder Key)
      → IsTickLadder Key s
      → i < length s.bids
      → ((l : BookLevel Key) → x ≡ some l → l.price ≡ store_price Key s i)
      → IsBest side (set (side_slots Key s side) i x) o
      → Sorted Key side ls
      → ((p : Price)
          → find_level Key p ls
            ≡ (if p == store_price Key s i then x else find_level Key p (levels Key s side)))
      → IsTickLadder Key (with_side Key s side (set (side_slots Key s side) i x) o)
        × (levels Key (with_side Key s side (set (side_slots Key s side) i x) o) side ≡ ls)
        × (levels Key (with_side Key s side (set (side_slots Key s side) i x) o) (opposite side)
            ≡ levels Key s (opposite side))
  unfolding levels
  set-IsTickLadder s side i x o ls v lt w b sorted found =
      let slots = side_slots Key s side in
      let placed' =
        Placed-set Key s.min_minor s.tick_size v.pos 0 i i slots x (side_slots-Placed Key s side v)
          (omega arith) w in
      let (valid, here, there) =
        with_side-IsTickLadder s side (set slots i x) o v
          (length-set slots i x ∙ length-side_slots Key s side v) placed' b in
      (
        valid,
        here
            ∙ Ladder_ext Key side (side_ordered Key side (set slots i x)) ls
                (side_ordered-Sorted Key s.min_minor s.tick_size v.pos side 0 (set slots i x)
                  placed')
                sorted
                (λ p.
                  find_level-set Key s.min_minor s.tick_size v.pos side p 0 i i slots x
                    (side_slots-Placed Key s side v) (omega arith) w
                    (omega (arith, lt, length-side_slots Key s side v))
                  ∙ sym (found p)),
        there,
      )

  put_at-IsTickLadder :
      (s : TickLadderStore Key) (side : Side) (m l : BookLevel Key) (i : ℕ)
      → IsTickLadder Key s
      → m.price ≡ store_price Key s i
      → i < length s.bids
      → slot_at (side_slots Key s side) i ≡ some l
      → IsTickLadder Key
          (with_side Key s side (set (side_slots Key s side) i (some m)) (side_best Key s side))
        × (levels Key
              (with_side Key s side (set (side_slots Key s side) i (some m)) (side_best Key s side))
              side
            ≡ put_level Key side m (levels Key s side))
        × (levels Key
              (with_side Key s side (set (side_slots Key s side) i (some m)) (side_best Key s side))
              (opposite side)
            ≡ levels Key s (opposite side))
  put_at-IsTickLadder s side m l i v at lt e =
      let slots = side_slots Key s side in
      let inside : i < length slots = omega (arith, lt, length-side_slots Key s side v) in
      let there : held slots i ≡ true = held_some e in
      set-IsTickLadder s side i (some m) (side_best Key s side)
        (put_level Key side m (levels Key s side)) v lt
        (λ k q. ap (λ (x : BookLevel Key). x.price) (sym (some_inj q)) ∙ at)
        (held-IsBest side slots (set slots i (some m)) (side_best Key s side)
          (λ j. held-fill slots i m j inside ∙ kept j i _ _ refl (λ q. ap (held slots) q ∙ there))
          (side_best-IsBest Key s side v))
        (put_level-Sorted Key side m (levels Key s side) (levels-Sorted Key s side v))
        (λ p.
          subst
            (λ q.
              find_level Key p (put_level Key side m (levels Key s side))
              ≡ (if p == q then some m else find_level Key p (levels Key s side)))
            at (find_level-put_level Key side p m (levels Key s side)))

  pub put-IsTickLadder :
      (s : TickLadderStore Key) (side : Side) (m l : BookLevel Key)
      → IsTickLadder Key s
      → level Key s side m.price ≡ some l
      → IsTickLadder Key (put Key s side m.price m)
        × (levels Key (put Key s side m.price m) side ≡ put_level Key side m (levels Key s side))
        × (levels Key (put Key s side m.price m) (opposite side) ≡ levels Key s (opposite side))
  unfolding level put
  put-IsTickLadder s side m l v e = elim (Option-cases (index Key s m.price)) [
    | inl n ↦ absurd (none_not_some (sym (rw (level, n) refl) ∙ e))
    | inr (i, n) ↦
        let (at, lt) = price_at-index Key s m.price i n in
        rw (put, n) (put_at-IsTickLadder s side m l i v at lt (sym (rw (level, n) refl) ∙ e))
  ]

  fill_slot-some :
      (slots : Slots Key) (i : ℕ) (m l : BookLevel Key)
      → slot_at slots i ≡ some l
      → fill_slot Key slots i m ≡ slots
  unfolding fill_slot
  fill_slot-some slots i m l e = rw (fill_slot, e) refl

  fill_slot-none :
      (slots : Slots Key) (i : ℕ) (m : BookLevel Key)
      → slot_at slots i ≡ none
      → fill_slot Key slots i m ≡ set slots i (some m)
  unfolding fill_slot
  fill_slot-none slots i m e = rw (fill_slot, e) refl

  ensure_at-IsTickLadder :
      (s : TickLadderStore Key) (side : Side) (p : Price) (i : ℕ)
      → IsTickLadder Key s
      → p ≡ store_price Key s i
      → i < length s.bids
      → IsTickLadder Key (ensure_at Key s side p i)
        × (levels Key (ensure_at Key s side p i) side ≡ with_level Key side p (levels Key s side))
        × (levels Key (ensure_at Key s side p i) (opposite side) ≡ levels Key s (opposite side))
  unfolding ensure_at Storage.new levels
  ensure_at-IsTickLadder s side p i v at lt =
      let slots = side_slots Key s side in
      let m : BookLevel Key = Storage.new p side in
      let inside : i < length slots = omega (arith, lt, length-side_slots Key s side v) in
      let found : find_level Key p (levels Key s side) ≡ slot_at slots i =
        ap (λ q. find_level Key q (levels Key s side)) at ∙ found_at Key s side i v in
      elim (Option-cases (slot_at slots i)) [
        | inr (l, e) ↦
            rw (fill_slot-some slots i m l e, found ∙ e, with_level)
              (with_side-IsTickLadder s side slots _ v (length-side_slots Key s side v)
                (side_slots-Placed Key s side v)
                (raised-IsBest side slots slots i (side_best Key s side)
                  (side_best-IsBest Key s side v)
                  (λ j. sym (kept j i _ _ refl (λ q. ap (held slots) q ∙ held_some e)))))
        | inl e ↦
            rw (fill_slot-none slots i m e, found ∙ e, with_level)
              (set-IsTickLadder s side i (some m) _ (put_level Key side m (levels Key s side)) v lt
                (λ k q. ap (λ (x : BookLevel Key). x.price) (sym (some_inj q)) ∙ at)
                (raised-IsBest side slots (set slots i (some m)) i (side_best Key s side)
                  (side_best-IsBest Key s side v) (λ j. held-fill slots i m j inside))
                (put_level-Sorted Key side m (levels Key s side) (levels-Sorted Key s side v))
                (λ q.
                  subst
                    (λ r.
                      find_level Key q (put_level Key side m (levels Key s side))
                      ≡ (if q == r then some m else find_level Key q (levels Key s side)))
                    at (find_level-put_level Key side q m (levels Key s side))))
      ]

  -- The slot of a price is emptied, and the best slot is what is left best.
  take_at-IsTickLadder :
      (s : TickLadderStore Key) (side : Side) (p : Price) (i : ℕ) (o : Option ℕ)
      → IsTickLadder Key s
      → p ≡ store_price Key s i
      → i < length s.bids
      → IsBest side (set (side_slots Key s side) i none) o
      → IsTickLadder Key (with_side Key s side (set (side_slots Key s side) i none) o)
        × (levels Key (with_side Key s side (set (side_slots Key s side) i none) o) side
            ≡ drop_level Key p (levels Key s side))
        × (levels Key (with_side Key s side (set (side_slots Key s side) i none) o) (opposite side)
            ≡ levels Key s (opposite side))
  take_at-IsTickLadder s side p i o v at lt b =
      set-IsTickLadder s side i none o (drop_level Key p (levels Key s side)) v lt
        (λ k q. absurd (none_not_some q)) b
        (drop_level-Sorted Key side p (levels Key s side) (levels-Sorted Key s side v))
        (λ q.
          subst
            (λ r.
              find_level Key q (drop_level Key p (levels Key s side))
              ≡ (if q == r then none else find_level Key q (levels Key s side)))
            at (find_level-drop_level Key q p (levels Key s side)))

  repaired_store :
      (s : TickLadderStore Key) (side : Side) (slots : Slots Key) (o : Option ℕ) (i : ℕ)
      → repair_best_after_removal Key (with_side Key s side slots o) side i
        ≡ with_side Key s side slots (repaired_best side slots i)
  unfolding repair_best_after_removal
  repaired_store s ask slots o i = refl
  repaired_store s bid slots o i = refl

  remove_at-IsTickLadder :
      (s : TickLadderStore Key) (side : Side) (p : Price) (i : ℕ)
      → IsTickLadder Key s
      → p ≡ store_price Key s i
      → i < length s.bids
      → IsTickLadder Key (remove_at Key s side i)
        × (levels Key (remove_at Key s side i) side ≡ drop_level Key p (levels Key s side))
        × (levels Key (remove_at Key s side i) (opposite side) ≡ levels Key s (opposite side))
  unfolding remove_at
  remove_at-IsTickLadder s side p i v at lt =
      let slots = side_slots Key s side in
      let inside : i < length slots = omega (arith, lt, length-side_slots Key s side v) in
      elim (Bool-cases (is_touch (side_best Key s side) i)) [
        | inr q ↦ rw (and_false (held slots i) _ q) (
            take_at-IsTickLadder s side p i (side_best Key s side) v at lt (
              emptied-IsBest slots (set slots i none) i (λ j. held-empty slots i j inside) side
                (side_best Key s side) q (side_best-IsBest Key s side v)))
        | inl q ↦
            let touch =
              subst (IsBest side slots) (touch_lem (side_best Key s side) i q)
                (side_best-IsBest Key s side v) in
            rw (touch.0, q, repaired_store s side (set slots i none) (side_best Key s side) i)
              (take_at-IsTickLadder s side p i (repaired_best side (set slots i none) i) v at lt (
                repaired-IsBest slots (set slots i none) i (λ j. held-empty slots i j inside) side
                  touch))
      ]

  pub remove_level-IsTickLadder :
      (s : TickLadderStore Key) (side : Side) (p : Price)
      → IsTickLadder Key s
      → IsTickLadder Key (remove_level Key s side p).0
        × (levels Key (remove_level Key s side p).0 side ≡ drop_level Key p (levels Key s side))
        × (levels Key (remove_level Key s side p).0 (opposite side) ≡ levels Key s (opposite side))
        × ((remove_level Key s side p).1 ≡ find_level Key p (levels Key s side))
  unfolding remove_level
  remove_level-IsTickLadder s side p v = elim (Option-cases (index Key s p)) [
    | inl e ↦
        let missing = index-none Key s side p v e in
        rw (remove_level, e)
          (v, sym (drop_level-none Key p (levels Key s side) missing), refl, sym missing)
    | inr (i, e) ↦
        let (at, lt) = price_at-index Key s p i e in
        let (valid, here, there) = remove_at-IsTickLadder s side p i v at lt in
        rw (remove_level, e)
          (
            valid,
            here,
            there,
            sym (ap (λ q. find_level Key q (levels Key s side)) at ∙ found_at Key s side i v),
          )
  ]

  pub ensure_level-IsTickLadder :
      (s : TickLadderStore Key) (side : Side) (p : Price)
      → IsTickLadder Key s
      → OnOk
          (λ s'.
            IsTickLadder Key s'
            × (levels Key s' side ≡ with_level Key side p (levels Key s side))
            × (levels Key s' (opposite side) ≡ levels Key s (opposite side)))
          (ensure_level Key s side p)
  unfolding ensure_level
  ensure_level-IsTickLadder s side p v = elim (Option-cases (index Key s p)) [
    | inl e ↦ rw (e, ok_or, ◌>>=◌, OnOk) tt
    | inr (i, e) ↦
        let (at, lt) = price_at-index Key s p i e in
        rw (e, ok_or, ◌>>=◌, OnOk) (ensure_at-IsTickLadder s side p i v at lt)
  ]
