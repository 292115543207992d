-- ===== src/Storage/TickLadder/Range.antt =====
-- The prices that `TickLadderStore` of src/storage.rs takes: those of the instrument's range.
use order_book.Prelude.{
  ℕ, zero, suc, ◌+◌, ◌-◌, ◌/◌, ◌%◌, ◌≡◌, ◌<◌, ◌≤◌, refl, sym, ap, ◌∙◌, none, Bool, true, false,
  ◌==◌, ◌&&◌, leb, ltb, length, replicate, arith, ok_or, ◌>>=◌, u64_mod, ok, err, ◌↔◌, Bool-cases,
  Option-cases, inl, inr, true_not_false, ok_not_err,
}
use native.Mathlib.Nat.{div-add-mod', le-div_iff_mul-le}
use order_book.Side.{Side}
use order_book.Instrument.{Price, InstrumentSpec}
use order_book.Storage.{price_outside_range}
use order_book.Storage.TickLadder.{
  TickLadderStore, checked_sub, offset_index, index, slots_per_side, ensure_at, ensure_level,
  is_some,
}

-- Whether the range of prices fits into a store.
abbrev pub fits : (ℕ → Bool) → InstrumentSpec → Price → Bool
fits can_reserve spec max =
    leb spec.min_price max
    && ltb 0 spec.tick_size
    && ltb ((max - spec.min_price) / spec.tick_size + 1) u64_mod
    && can_reserve ((max - spec.min_price) / spec.tick_size + 1)

-- A price on the tick grid, from the least to the greatest.
abbrev pub in_range : InstrumentSpec → Price → Price → Bool
in_range spec max p =
    leb spec.min_price p && leb p max && ((p - spec.min_price) % spec.tick_size == 0)

module _ (Key : Type 0) where
  -- The store that has a slot for each tick of the range, and no level.
  abbrev pub over_range : InstrumentSpec → Price → TickLadderStore Key
  over_range spec max = record {
    bids = replicate ((max - spec.min_price) / spec.tick_size + 1) none;
    asks = replicate ((max - spec.min_price) / spec.tick_size + 1) none;
    min_minor = spec.min_price;
    tick_size = spec.tick_size;
    best_bid = none;
    best_ask = none;
  }

  -- A store over the instrument's range.
  pub record Spans (spec : InstrumentSpec) (max : Price) (s : TickLadderStore Key) : Type 0 where
    pub ordered : spec.min_price ≤ max
    pub pos : 0 < spec.tick_size
    pub low : s.min_minor ≡ spec.min_price
    pub tick : s.tick_size ≡ spec.tick_size
    pub slots : slots_per_side Key s ≡ (max - spec.min_price) / spec.tick_size + 1

  length-replicate : {A : Type 0} (n : ℕ) (a : A) → length (replicate n a) ≡ n
  length-replicate zero a = refl
  length-replicate (suc n) a = ap suc (length-replicate n a)

  -- The store that `try_new` makes spans the range.
  pub over_range-Spans :
      (can_reserve : ℕ → Bool) (spec : InstrumentSpec) (max : Price)
      → fits can_reserve spec max ≡ true
      → Spans spec max (over_range spec max)
  unfolding slots_per_side
  over_range-Spans can_reserve spec max e = record {
    ordered = ground arith;
    pos = ground arith;
    low = refl;
    tick = refl;
    slots = length-replicate ((max - spec.min_price) / spec.tick_size + 1) none;
  }

  -- A price on a grid of n ticks of size t from m on.
  abbrev takes : ℕ → ℕ → ℕ → Price → Bool
  takes m t n p = leb m p && ((p - m) % t == 0) && ltb ((p - m) / t) n

  index-takes :
      (s : TickLadderStore Key) (p : Price)
      → is_some (index Key s p) ≡ takes s.min_minor s.tick_size (slots_per_side Key s) p
  unfolding index checked_sub offset_index is_some slots_per_side
  index-takes s p = elim (Bool-cases (ltb p s.min_minor)) [
    | inl q ↦ let q' : leb s.min_minor p ≡ false = ground arith in rw (index, q, q') refl
    | inr q ↦
        let q' : leb s.min_minor p ≡ true = ground arith in
        elim (Bool-cases ((p - s.min_minor) % s.tick_size == 0)) [
          | inr r ↦ rw (index, q, q', r) refl
          | inl r ↦ elim (Bool-cases (ltb ((p - s.min_minor) / s.tick_size) (length s.bids))) [
            | inl w ↦ rw (index, q, q', r, w) refl
            | inr w ↦ rw (index, q, q', r, w) refl
          ]
        ]
  ]

  takes-range :
      (m t max p : ℕ)
      → m ≤ max
      → 0 < t
      → takes m t ((max - m) / t + 1) p ≡ (leb m p && leb p max && ((p - m) % t == 0))
  takes-range m t max p le pos =
      let whole = div-add-mod' (p - m) t in
      let (below, within) = le-div_iff_mul-le {k = t} {x = (p - m) / t} {y = max - m} pos in
      ground (arith, whole, below, within)

  index-in_range :
      (spec : InstrumentSpec) (max p : Price) (s : TickLadderStore Key)
      → Spans spec max s
      → is_some (index Key s p) ≡ in_range spec max p
  index-in_range spec max p s v =
      index-takes s p
      ∙ ap (λ m. takes m s.tick_size (slots_per_side Key s) p) v.low
      ∙ ap (λ t. takes spec.min_price t (slots_per_side Key s) p) v.tick
      ∙ ap (λ n. takes spec.min_price spec.tick_size n p) v.slots
      ∙ takes-range spec.min_price spec.tick_size max p v.ordered v.pos

  ensure_level-some :
      (s : TickLadderStore Key) (side : Side) (p : Price)
      → is_some (index Key s p) ≡ true
      → ensure_level Key s side p ≡ err price_outside_range
      → ⊥
  unfolding ensure_level is_some
  ensure_level-some s side p e f = elim (Option-cases (index Key s p)) [
    | inl n ↦ true_not_false (sym e ∙ ap is_some n)
    | inr (i, n) ↦
        let taken : ensure_level Key s side p ≡ ok (ensure_at Key s side p i) =
          rw (ensure_level, n, ok_or, ◌>>=◌) refl in
        ok_not_err (sym taken ∙ f)
  ]

  ensure_level-none :
      (s : TickLadderStore Key) (side : Side) (p : Price)
      → is_some (index Key s p) ≡ false
      → ensure_level Key s side p ≡ err price_outside_range
  unfolding ensure_level is_some
  ensure_level-none s side p e = elim (Option-cases (index Key s p)) [
    | inl n ↦ rw (ensure_level, n, ok_or, ◌>>=◌) refl
    | inr (i, n) ↦ absurd (true_not_false (sym (ap is_some n) ∙ e))
  ]

  -- A store over the instrument's range rejects a price exactly when it is off the grid or outside
  -- of the range.
  pub ensure_level-err :
      (spec : InstrumentSpec) (max p : Price) (s : TickLadderStore Key) (side : Side)
      → Spans spec max s
      → (ensure_level Key s side p ≡ err price_outside_range) ↔ (in_range spec max p ≡ false)
  ensure_level-err spec max p s side v =
      let same = index-in_range spec max p s v in
      (
        λ e. elim (Bool-cases (in_range spec max p)) [
          | inl q ↦ absurd (ensure_level-some s side p (same ∙ q) e)
          | inr q ↦ q
        ],
        λ q. ensure_level-none s side p (same ∙ q),
      )
