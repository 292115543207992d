-- ===== src/Storage/TickLadder/Reads.antt =====
-- The reads of `TickLadderStore` of src/storage.rs, seen as reads of a ladder.
use order_book.Prelude.{
  ℕ, ◌≡◌, ◌<◌, sym, ap, ◌∙◌, Option, none, some, true, false, arith, Option-cases, inl, inr,
  true_not_false,
}
use order_book.Side.{Side, ask, bid}
use order_book.Instrument.{Price}
use order_book.Storage.{BookLevel}
use order_book.Storage.Ladder.{better, find_level, first_level, Sorted}
use order_book.Storage.Ladder.Find.{find_level-price, first_level_lem, first_level-none}
use order_book.Storage.TickLadder.{
  TickLadderStore, side_slots, side_best, is_some, slot_at, raises, index, level, best_level,
  levels,
}
use order_book.Storage.TickLadder.Slots.{
  side_ordered-Sorted, price_at-lt, price_at-beq, find_level-slot_at, slot_of,
}
use order_book.Storage.TickLadder.Best.{held, IsBest}
use order_book.Storage.TickLadder.Index.{
  held_none, store_price, IsTickLadder, side_slots-Placed, side_best-IsBest, price_at-index,
  index-none,
}

module _ (Key : Type 0) where
  pub found_at :
      (s : TickLadderStore Key) (side : Side) (i : ℕ)
      → IsTickLadder Key s
      → find_level Key (store_price Key s i) (levels Key s side) ≡ slot_at (side_slots Key s side) i
  unfolding levels
  found_at s side i v =
      find_level-slot_at Key s.min_minor s.tick_size v.pos side i 0 i (side_slots Key s side)
        (side_slots-Placed Key s side v) (omega arith)

  pub level-levels :
      (s : TickLadderStore Key) (side : Side) (p : Price)
      → IsTickLadder Key s
      → level Key s side p ≡ find_level Key p (levels Key s side)
  unfolding level
  level-levels s side p v = elim (Option-cases (index Key s p)) [
    | inl e ↦ rw (level, e) (sym (index-none Key s side p v e))
    | inr (i, e) ↦
        let (at, lt) = price_at-index Key s p i e in
        rw (level, e)
          (sym (found_at s side i v) ∙ ap (λ q. find_level Key q (levels Key s side)) (sym at))
  ]

  pub levels-Sorted :
      (s : TickLadderStore Key) (side : Side)
      → IsTickLadder Key s
      → Sorted Key side (levels Key s side)
  unfolding levels
  levels-Sorted s side v =
      side_ordered-Sorted Key s.min_minor s.tick_size v.pos side 0 (side_slots Key s side)
        (side_slots-Placed Key s side v)

  better-price_at :
      (s : TickLadderStore Key) (side : Side) (i j : ℕ)
      → 0 < s.tick_size
      → raises side j (some i) ≡ false
      → better side (store_price Key s j) (store_price Key s i) ≡ false
  unfolding better raises
  better-price_at s ask i j pos h = ground (
    arith,
    price_at-lt Key s.min_minor s.tick_size pos i j,
    price_at-beq Key s.min_minor s.tick_size pos i j,
  )
  better-price_at s bid i j pos h = ground (
    arith,
    price_at-lt Key s.min_minor s.tick_size pos j i,
    price_at-beq Key s.min_minor s.tick_size pos i j,
  )

  level_of_held :
      (s : TickLadderStore Key) (side : Side) (m : BookLevel Key)
      → IsTickLadder Key s
      → find_level Key m.price (levels Key s side) ≡ some m
      → (j : ℕ) × (m.price ≡ store_price Key s j) × (held (side_slots Key s side) j ≡ true)
  unfolding levels is_some
  level_of_held s side m v f =
      let (j, at, _, lt) =
        slot_of Key s.min_minor s.tick_size v.pos side m.price 0 (side_slots Key s side) m
          (side_slots-Placed Key s side v) f in
      (
        j,
        at,
        ap is_some (
            sym (found_at s side j v)
            ∙ ap (λ q. find_level Key q (levels Key s side)) (sym at)
            ∙ f),
      )

  pub best_level-best :
      (s : TickLadderStore Key) (side : Side) (o : Option ℕ)
      → IsTickLadder Key s
      → IsBest side (side_slots Key s side) o
      → (elim o as (λ o. Option (BookLevel Key)) [
        | none ↦ none
        | some i ↦ slot_at (side_slots Key s side) i
      ])
        ≡ first_level Key (levels Key s side)
  best_level-best s side none v h = sym (
      first_level-none Key (levels Key s side) (λ p.
        elim (Option-cases (find_level Key p (levels Key s side))) [
          | inl n ↦ n
          | inr (l, f) ↦
              let at = find_level-price Key p (levels Key s side) l f in
              let (j, _, e) =
                level_of_held s side l v (ap (λ q. find_level Key q (levels Key s side)) at ∙ f) in
              absurd (true_not_false (sym e ∙ h j))
        ]))
  best_level-best s side (some i) v h = elim (Option-cases (slot_at (side_slots Key s side) i)) [
    | inl n ↦ absurd (true_not_false (sym h.0 ∙ held_none n))
    | inr (l, e) ↦
        let found = found_at s side i v ∙ e in
        let at = find_level-price Key (store_price Key s i) (levels Key s side) l found in
        e
        ∙ sym (
            first_level_lem Key side l (levels Key s side) (levels-Sorted s side v)
              (ap (λ q. find_level Key q (levels Key s side)) at ∙ found)
              (λ m f.
                let (j, at', e') = level_of_held s side m v f in
                ap (better side m.price) at
                ∙ ap (λ q. better side q (store_price Key s i)) at'
                ∙ better-price_at s side i j v.pos (h.1 j e')))
  ]

  pub best_level-levels :
      (s : TickLadderStore Key) (side : Side)
      → IsTickLadder Key s
      → best_level Key s side ≡ first_level Key (levels Key s side)
  unfolding best_level
  best_level-levels s side v =
      best_level-best s side (side_best Key s side) v (side_best-IsBest Key s side v)
