-- ===== src/Instrument/Convert/Ceiling.antt =====
-- The least notional of src/instrument.rs: it is rounded up to the notional grid.
use order_book.Prelude.{
  ℕ, ◌+◌, ◌-◌, ◌*◌, ◌/◌, ◌%◌, ◌^◌, ◌<◌, ◌≤◌, ◌≡◌, refl, sym, ap, ◌∙◌, OnOk, OnOk-bind, OnOk-ok_or,
  ok, ok_or, ℤ, pos, negsuc, u32_mod, u128_mod, arith, Bool-cases, Option-cases, inl, inr, checked,
  ltb, leb, some, none_not_some, some_inj, mul_mono, lt→ltb, le→leb,
}
use native.Mathlib.Nat.{one-le-pow, div-add-mod', mod-lt}
use order_book.Instrument.{InstrumentSpec, Notional, invalid_spec}
use order_book.Instrument.Convert.{
  Decimal, i128_max, as_i128, ceil_mantissa, ceil_scaled, notional_to_decimal, with_min_notional,
}
use order_book.Instrument.Convert.Split.{pow-sub}

-- `n` is the least point of the grid of `10 ^ -grid_scale` at or above `m / 10 ^ value_scale`.
abbrev pub IsCeiling : ℕ → ℕ → ℕ → ℕ → Type 0
IsCeiling n grid_scale m value_scale =
    (m * 10 ^ grid_scale ≤ n * 10 ^ value_scale)
    × (n * 10 ^ value_scale < m * 10 ^ grid_scale + 10 ^ value_scale)

checked_lem : (bound x y : ℕ) → checked bound x ≡ some y → x ≡ y
checked_lem bound x y e = ground arith

-- The grid is at least as fine as the decimal.
ceiling_fine :
    (m a b shift n : ℕ)
    → 0 < a
    → shift * a ≡ b
    → m * shift ≡ n
    → (m * b ≤ n * a) × (n * a < m * b + a)
ceiling_fine m a b shift n p e h =
    let same : n * a ≡ m * b = rw (← e, ← h) (omega arith) in
    (omega (arith, same), omega (arith, same))

-- The grid is coarser than the decimal, and something is below it.
ceiling_above :
    (m a b shift n : ℕ)
    → 0 < b
    → shift * b ≡ a
    → 0 < m % shift
    → m / shift + 1 ≡ n
    → m % shift < shift
    → (m * b ≤ n * a) × (n * a < m * b + a)
ceiling_above m a b shift n p e r h lt =
    let whole = div-add-mod' m shift in
    let same : n * a ≡ (m / shift * shift + shift) * b = rw (← e, ← h) (omega arith) in
    let up = mul_mono m (m / shift * shift + shift) b (omega (arith, whole)) in
    let down = mul_mono (m / shift * shift + 1) m b (omega (arith, whole)) in
    (omega (arith, same, up), omega (arith, same, down, e))

ceiling_whole :
    (m a b shift n : ℕ)
    → 0 < a
    → shift * b ≡ a
    → m % shift ≡ 0
    → m / shift ≡ n
    → (m * b ≤ n * a) × (n * a < m * b + a)
ceiling_whole m a b shift n p e r h =
    let whole : m / shift * shift ≡ m = omega (arith, div-add-mod' m shift) in
    let same : n * a ≡ m / shift * shift * b = rw (← e, ← h) (omega arith) in
    let same' : m / shift * shift * b ≡ m * b = ap (λ (x : ℕ). x * b) whole in
    (omega (arith, same, same'), omega (arith, same, same'))

ceil_mantissa-IsCeiling :
    (m value_scale grid_scale n : ℕ)
    → ceil_mantissa m value_scale grid_scale ≡ some n
    → IsCeiling n grid_scale m value_scale
unfolding ceil_mantissa
ceil_mantissa-IsCeiling m vs gs n e = elim (Bool-cases (leb vs gs)) [
  | inl q ↦ elim (Option-cases (checked u128_mod (10 ^ (gs - vs)))) [
    | inl c ↦ absurd (none_not_some (sym (rw (ceil_mantissa, q, c) refl) ∙ e))
    | inr (shift, c) ↦
        ceiling_fine m (10 ^ vs) (10 ^ gs) shift n (one-le-pow vs 10 (omega arith))
          (ap (λ (x : ℕ). x * 10 ^ vs) (sym (checked_lem u128_mod (10 ^ (gs - vs)) shift c))
            ∙ pow-sub vs gs (ground arith))
          (checked_lem u128_mod (m * shift) n (sym (rw (ceil_mantissa, q, c) refl) ∙ e))
  ]
  | inr q ↦ elim (Option-cases (checked u128_mod (10 ^ (vs - gs)))) [
    | inl c ↦ absurd (none_not_some (sym (rw (ceil_mantissa, q, c) refl) ∙ e))
    | inr (shift, c) ↦
        let grid : shift * 10 ^ gs ≡ 10 ^ vs =
          (ap (λ (x : ℕ). x * 10 ^ gs) (sym (checked_lem u128_mod (10 ^ (vs - gs)) shift c))
            ∙ pow-sub gs vs (ground arith)) in
        let pos : 0 < shift = omega (
          arith,
          checked_lem u128_mod (10 ^ (vs - gs)) shift c,
          one-le-pow (vs - gs) 10 (omega arith),
        ) in
        elim (Bool-cases (ltb 0 (m % shift))) [
          | inl r ↦
              ceiling_above m (10 ^ vs) (10 ^ gs) shift n (one-le-pow gs 10 (omega arith)) grid
                (ground arith)
                (checked_lem u128_mod (m / shift + 1) n
                  (sym (rw (ceil_mantissa, q, c, r) refl) ∙ e))
                (mod-lt m pos)
          | inr r ↦
              ceiling_whole m (10 ^ vs) (10 ^ gs) shift n (one-le-pow vs 10 (omega arith)) grid
                (ground arith) (some_inj (sym (rw (ceil_mantissa, q, c, r) refl) ∙ e))
        ]
  ]
]

module _ (decimal : Decimal) (spec : InstrumentSpec) where
  open decimal use {Value, mantissa, scale, mantissa-from, scale-from}

  least_of :
      (z : ℤ) (vs : ℕ) (n : ℕ)
      → ceil_scaled z vs (spec.price_scale + spec.qty_scale) ≡ some n
      → (m : ℕ) × (z ≡ pos m) × IsCeiling n (spec.price_scale + spec.qty_scale) m vs
  unfolding ceil_scaled
  least_of (negsuc k) vs n e = cc
  least_of (pos m) vs n e =
      (m, refl, ceil_mantissa-IsCeiling m vs (spec.price_scale + spec.qty_scale) n e)

  -- A specification that `with_min_notional` returns differs in the least notional only, which is
  -- the least point of the notional grid at or above the decimal; the decimal is not negative.
  pub with_min_notional-IsCeiling :
      (d : Value)
      → OnOk
          (λ spec'.
            (n : ℕ) × (m : ℕ) × (spec' ≡ record spec { min_notional = some n })
            × (mantissa d ≡ pos m)
            × IsCeiling n (spec.price_scale + spec.qty_scale) m (scale d))
          (with_min_notional decimal spec d)
  unfolding with_min_notional
  with_min_notional-IsCeiling d =
      let gs = spec.price_scale + spec.qty_scale in
      let Q : InstrumentSpec → Type 0 = λ spec'.
        (n : ℕ) × (m : ℕ) × (spec' ≡ record spec { min_notional = some n })
        × (mantissa d ≡ pos m)
        × IsCeiling n gs m (scale d) in
      OnOk-bind Q (ok_or (checked u32_mod gs) (invalid_spec "price_scale + qty_scale overflows")) _
        (OnOk-ok_or (checked u32_mod gs) (invalid_spec "price_scale + qty_scale overflows"))
        (λ grid_scale e.
          OnOk-bind Q
            (ok_or (ceil_scaled (mantissa d) (scale d) grid_scale)
              (invalid_spec "min_notional is negative or too large for the notional lattice"))
            _
            (OnOk-ok_or (ceil_scaled (mantissa d) (scale d) grid_scale)
              (invalid_spec "min_notional is negative or too large for the notional lattice"))
            (λ n f.
              let (m, z, c) = least_of (mantissa d) (scale d) n (
                ap (ceil_scaled (mantissa d) (scale d)) (checked_lem u32_mod gs grid_scale e)
                ∙ f) in
              (n, m, refl, z, c)))

  ceil_mantissa_same : (m gs : ℕ) → m < u128_mod → ceil_mantissa m gs gs ≡ some m
  unfolding ceil_mantissa
  ceil_mantissa_same m gs h =
      let none_off : gs - gs ≡ 0 = omega arith in
      let once : m * 1 ≡ m = omega arith in
      rw (le→leb gs gs (omega arith), none_off, once, lt→ltb m u128_mod h) refl

  -- A u96 notional, written as a decimal and read back as the least notional, is the same one, where
  -- the two scales together are at most 28.
  pub with_min_notional-notional_to_decimal :
      (n : Notional)
      → n < 2 ^ 96
      → spec.price_scale + spec.qty_scale ≤ 28
      → with_min_notional decimal spec (notional_to_decimal decimal spec n)
        ≡ ok (record spec { min_notional = some n })
  unfolding with_min_notional notional_to_decimal as_i128 ceil_scaled
  with_min_notional-notional_to_decimal n h k =
      let gs = spec.price_scale + spec.qty_scale in
      rw
        (
          lt→ltb gs u32_mod (omega arith),
          notional_to_decimal,
          as_i128,
          lt→ltb n i128_max (omega arith),
          mantissa-from n gs h k,
          scale-from n gs h k,
          ceil_scaled,
          ceil_mantissa_same n gs (omega arith),
        )
        refl
