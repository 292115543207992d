-- ===== src/Storage/TickLadder/Index.antt =====
-- `index` of `TickLadderStore` of src/storage.rs: the slot of a price, and the price of a slot.
use order_book.Prelude.{
  ℕ, zero, suc, ◌-◌, ◌*◌, ◌/◌, ◌%◌, ◌≡◌, ◌<◌, ◌≤◌, refl, sym, ap, ◌∙◌, List, [], ◌∷◌, Option, none,
  some, Bool, true, false, ◌==◌, ◌&&◌, ltb, if◌then◌else◌, set, length, arith, Bool-cases,
  Option-cases, inl, inr, none_not_some, some_inj,
}
use native.Mathlib.Nat.{mul-mod_left, mul-div_left, div-add-mod'}
use order_book.Side.{Side, ask, bid}
use order_book.Instrument.{Price}
use order_book.Storage.Ladder.{find_level}
use order_book.Storage.TickLadder.{
  Slots, TickLadderStore, side_slots, side_best, checked_sub, is_some, offset_index, index, levels,
}
use order_book.Storage.TickLadder.Slots.{price_at, price_at-mul, Placed, slot_of}
use order_book.Storage.TickLadder.Best.{IsBest}

pub length-set : {A : Type 0} (xs : List A) (i : ℕ) (a : A) → length (set xs i a) ≡ length xs
length-set [] i a = refl
length-set (x ∷ xs) zero a = refl
length-set (x ∷ xs) (suc i) a = ap suc (length-set xs i a)

pub held_none : {A : Type 0} {o : Option A} → o ≡ none → is_some o ≡ false
unfolding is_some
held_none e = ap is_some e

pub held_some : {A : Type 0} {o : Option A} {a : A} → o ≡ some a → is_some o ≡ true
unfolding is_some
held_some e = ap is_some e

pub and_false : (b c : Bool) → c ≡ false → b && c ≡ false
and_false true c e = e
and_false false c e = refl

pub kept : (j i : ℕ) (b c : Bool) → b ≡ true → (j ≡ i → c ≡ true) → (if j == i then b else c) ≡ c
kept j i b c e h = ground arith

module _ (Key : Type 0) where
  abbrev pub store_price : TickLadderStore Key → ℕ → Price
  store_price s i = price_at Key s.min_minor s.tick_size i

  abbrev pub StorePlaced : TickLadderStore Key → Slots Key → Type 0
  StorePlaced s slots = Placed Key s.min_minor s.tick_size 0 slots

  pub record IsTickLadder (s : TickLadderStore Key) : Type 0 where
    pub pos : 0 < s.tick_size
    pub same : length s.asks ≡ length s.bids
    pub bids_placed : StorePlaced s s.bids
    pub asks_placed : StorePlaced s s.asks
    pub bids_best : IsBest bid s.bids s.best_bid
    pub asks_best : IsBest ask s.asks s.best_ask

  pub side_slots-Placed :
      (s : TickLadderStore Key) (side : Side)
      → IsTickLadder s
      → StorePlaced s (side_slots Key s side)
  side_slots-Placed s ask v = v.asks_placed
  side_slots-Placed s bid v = v.bids_placed

  pub side_best-IsBest :
      (s : TickLadderStore Key) (side : Side)
      → IsTickLadder s
      → IsBest side (side_slots Key s side) (side_best Key s side)
  side_best-IsBest s ask v = v.asks_best
  side_best-IsBest s bid v = v.bids_best

  pub length-side_slots :
      (s : TickLadderStore Key) (side : Side)
      → IsTickLadder s
      → length (side_slots Key s side) ≡ length s.bids
  length-side_slots s ask v = v.same
  length-side_slots s bid v = refl

  checked_sub-some : (a b : ℕ) → b ≤ a → checked_sub a b ≡ some (a - b)
  unfolding checked_sub
  checked_sub-some a b h = ground arith

  checked_sub-none : (a b : ℕ) → a < b → checked_sub a b ≡ none
  unfolding checked_sub
  checked_sub-none a b h = ground arith

  offset_index-multiple :
      (s : TickLadderStore Key) (i : ℕ)
      → 0 < s.tick_size
      → i < length s.bids
      → offset_index Key s (i * s.tick_size) ≡ some i
  unfolding offset_index
  offset_index-multiple s i pos lt =
      let inside : ltb i (length s.bids) ≡ true = ground arith in
      rw (mul-mod_left i s.tick_size, mul-div_left i pos, inside) refl

  -- The slot of each price of the ladder.
  index-price_at :
      (s : TickLadderStore Key) (i : ℕ)
      → IsTickLadder s
      → i < length s.bids
      → index Key s (store_price s i) ≡ some i
  unfolding index
  index-price_at s i v lt =
      let at = price_at-mul Key s.min_minor s.tick_size i in
      let offset : store_price s i - s.min_minor ≡ i * s.tick_size = omega (arith, at) in
      let sub = checked_sub-some (store_price s i) s.min_minor (omega (arith, at)) in
      rw (index, sub, offset) (offset_index-multiple s i v.pos lt)

  offset_index-price_at :
      (s : TickLadderStore Key) (p i : ℕ)
      → s.min_minor ≤ p
      → offset_index Key s (p - s.min_minor) ≡ some i
      → (p ≡ store_price s i) × (i < length s.bids)
  unfolding offset_index
  offset_index-price_at s p i le e =
      let offset = p - s.min_minor in
      let at = price_at-mul Key s.min_minor s.tick_size i in
      elim (Bool-cases (offset % s.tick_size == 0)) [
        | inr q ↦ absurd (none_not_some (sym (rw q refl) ∙ e))
        | inl q ↦ elim (Bool-cases (ltb (offset / s.tick_size) (length s.bids))) [
          | inr r ↦ absurd (none_not_some (sym (rw (q, r) refl) ∙ e))
          | inl r ↦
              let same : offset / s.tick_size ≡ i = some_inj (sym (rw (q, r) refl) ∙ e) in
              let whole = div-add-mod' offset s.tick_size in
              let times : offset / s.tick_size * s.tick_size ≡ i * s.tick_size =
                ap (λ n. n * s.tick_size) same in
              (ground (arith, whole, times, at), ground (arith, same))
        ]
      ]

  pub price_at-index :
      (s : TickLadderStore Key) (p i : ℕ)
      → index Key s p ≡ some i
      → (p ≡ store_price s i) × (i < length s.bids)
  unfolding index
  price_at-index s p i e = elim (Bool-cases (ltb p s.min_minor)) [
    | inl q ↦
        absurd
          (none_not_some (sym (rw (index, checked_sub-none p s.min_minor (ground arith)) refl) ∙ e))
    | inr q ↦
        let le : s.min_minor ≤ p = ground arith in
        offset_index-price_at s p i le
          (sym (rw (index, checked_sub-some p s.min_minor le) refl) ∙ e)
  ]

  -- A price without a slot has no level.
  pub index-none :
      (s : TickLadderStore Key) (side : Side) (p : Price)
      → IsTickLadder s
      → index Key s p ≡ none
      → find_level Key p (levels Key s side) ≡ none
  unfolding levels
  index-none s side p v e = elim (Option-cases (find_level Key p (levels Key s side))) [
    | inl n ↦ n
    | inr (l, f) ↦
        let (j, at, _, lt) =
          slot_of Key s.min_minor s.tick_size v.pos side p 0 (side_slots Key s side) l
            (side_slots-Placed s side v) f in
        absurd (
          none_not_some (
            sym e
            ∙ ap (index Key s) at
            ∙ index-price_at s j v (omega (arith, lt, length-side_slots s side v))))
  ]
