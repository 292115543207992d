-- ===== src/Storage/TickLadder/Best.antt =====
-- The best slot of `TickLadderStore` of src/storage.rs: what a write of a slot does to it.
use order_book.Prelude.{
  ℕ, zero, suc, ◌+◌, ◌-◌, ◌≡◌, ◌<◌, refl, sym, ap, ◌∙◌, List, [], ◌∷◌, Option, none, some, Bool,
  true, false, ◌==◌, ltb, if◌then◌else◌, set, take, length, arith, Bool-cases, inl, inr,
  true_not_false,
}
use order_book.Side.{Side, ask, bid}
use order_book.Storage.TickLadder.{
  slot_at, is_some, drop, position, rposition, raises, is_touch, repaired_best,
}

module _ {A : Type 0} where
  pub slot_at-set :
      (slots : List (Option A)) (i j : ℕ) (o : Option A)
      → i < length slots
      → slot_at (set slots i o) j ≡ (if j == i then o else slot_at slots j)
  unfolding slot_at
  slot_at-set [] i j o h = absurd (omega (arith, h))
  slot_at-set (x ∷ slots) zero zero o h = ground arith
  slot_at-set (x ∷ slots) zero (suc j) o h = ground arith
  slot_at-set (x ∷ slots) (suc i) zero o h = ground arith
  slot_at-set (x ∷ slots) (suc i) (suc j) o h =
      slot_at-set slots i j o (omega (arith, h)) ∙ ground arith

  slot_at-take :
      (slots : List (Option A)) (n j : ℕ)
      → slot_at (take n slots) j ≡ (if ltb j n then slot_at slots j else none)
  unfolding slot_at
  slot_at-take slots zero j = ground arith
  slot_at-take [] (suc n) j = ground arith
  slot_at-take (x ∷ slots) (suc n) zero = ground arith
  slot_at-take (x ∷ slots) (suc n) (suc j) = slot_at-take slots n j ∙ ground arith

  slot_at-drop :
      (slots : List (Option A)) (n j : ℕ) → slot_at (drop n slots) j ≡ slot_at slots (n + j)
  unfolding slot_at drop
  slot_at-drop slots zero j = ground arith
  slot_at-drop [] (suc n) j = refl
  slot_at-drop (x ∷ slots) (suc n) j =
      let next : suc n + j ≡ suc (n + j) = omega arith in
      slot_at-drop slots n j ∙ ap (slot_at (x ∷ slots)) (sym next)

  -- A slot is occupied.
  abbrev pub held : List (Option A) → ℕ → Bool
  held slots i = is_some (slot_at slots i)

  -- No occupied slot is better.
  abbrev pub IsBest : Side → List (Option A) → Option ℕ → Type 0
  IsBest side slots none = (j : ℕ) → held slots j ≡ false
  IsBest side slots (some i) =
      (held slots i ≡ true) × ((j : ℕ) → held slots j ≡ true → raises side j (some i) ≡ false)

  position_cons :
      (slots : List (Option A)) (o : Option ℕ)
      → IsBest ask slots o
      → IsBest ask (none ∷ slots) (elim o [ none ↦ none | some i ↦ some (suc i) ])
  unfolding slot_at is_some raises
  position_cons slots none h =
      λ j. elim j as (λ j. held (none ∷ slots) j ≡ false) [ zero ↦ refl | suc k ↦ h k ]
  position_cons slots (some i) h = (
    h.0,
    λ j. elim j as (λ j. held (none ∷ slots) j ≡ true → ltb j (suc i) ≡ false) [
      | zero ↦ λ e. cc
      | suc k ↦ λ e. ground (arith, h.1 k e)
    ],
  )

  pub position-IsBest : (slots : List (Option A)) → IsBest ask slots (position slots)
  unfolding position slot_at is_some raises
  position-IsBest [] = λ j. refl
  position-IsBest (some x ∷ slots) = (refl, λ j e. ground arith)
  position-IsBest (none ∷ slots) = position_cons slots (position slots) (position-IsBest slots)

  rposition_cons :
      (x : Option A) (slots : List (Option A)) (o : Option ℕ)
      → IsBest bid slots o
      → IsBest bid
          (x ∷ slots)
          (elim o [ some i ↦ some (suc i) | none ↦ if is_some x then some 0 else none ])
  unfolding slot_at is_some raises
  rposition_cons none slots none h =
      λ j. elim j as (λ j. held (none ∷ slots) j ≡ false) [ zero ↦ refl | suc k ↦ h k ]
  rposition_cons (some x) slots none h = (
    refl,
    λ j. elim j as (λ j. held (some x ∷ slots) j ≡ true → ltb 0 j ≡ false) [
      | zero ↦ λ e. ground arith
      | suc k ↦ λ e. absurd (true_not_false (sym e ∙ h k))
    ],
  )
  rposition_cons x slots (some i) h = (
    h.0,
    λ j. elim j as (λ j. held (x ∷ slots) j ≡ true → ltb (suc i) j ≡ false) [
      | zero ↦ λ e. ground arith
      | suc k ↦ λ e. ground (arith, h.1 k e)
    ],
  )

  pub rposition-IsBest : (slots : List (Option A)) → IsBest bid slots (rposition slots)
  unfolding rposition slot_at is_some raises
  rposition-IsBest [] = λ j. refl
  rposition-IsBest (x ∷ slots) = rposition_cons x slots (rposition slots) (rposition-IsBest slots)

  chosen-IsBest :
      (side : Side) (slots slots' : List (Option A)) (i b : ℕ) (t : Bool)
      → raises side i (some b) ≡ t
      → IsBest side slots (some b)
      → ((j : ℕ) → held slots' j ≡ (if j == i then true else held slots j))
      → IsBest side slots' (if t then some i else some b)
  unfolding raises
  chosen-IsBest ask slots slots' i b true q h e =
      (ground (arith, e i), λ j f. ground (arith, e j, h.1 j))
  chosen-IsBest bid slots slots' i b true q h e =
      (ground (arith, e i), λ j f. ground (arith, e j, h.1 j))
  chosen-IsBest ask slots slots' i b false q h e =
      (ground (arith, e b, h.0), λ j f. ground (arith, e j, h.1 j))
  chosen-IsBest bid slots slots' i b false q h e =
      (ground (arith, e b, h.0), λ j f. ground (arith, e j, h.1 j))

  first-IsBest :
      (side : Side) (slots slots' : List (Option A)) (i : ℕ)
      → IsBest side slots none
      → ((j : ℕ) → held slots' j ≡ (if j == i then true else held slots j))
      → IsBest side slots' (some i)
  unfolding raises
  first-IsBest ask slots slots' i h e = (ground (arith, e i), λ j f. ground (arith, e j, h j))
  first-IsBest bid slots slots' i h e = (ground (arith, e i), λ j f. ground (arith, e j, h j))

  -- A level enters an empty slot, or is there already.
  pub raised-IsBest :
      (side : Side) (slots slots' : List (Option A)) (i : ℕ) (o : Option ℕ)
      → IsBest side slots o
      → ((j : ℕ) → held slots' j ≡ (if j == i then true else held slots j))
      → IsBest side slots' (if raises side i o then some i else o)
  unfolding raises
  raised-IsBest side slots slots' i none h e = first-IsBest side slots slots' i h e
  raised-IsBest ask slots slots' i (some b) h e =
      chosen-IsBest ask slots slots' i b (ltb i b) refl h e
  raised-IsBest bid slots slots' i (some b) h e =
      chosen-IsBest bid slots slots' i b (ltb b i) refl h e

  module _ (slots slots' : List (Option A)) (i : ℕ)
      (emptied : (j : ℕ) → held slots' j ≡ (if j == i then false else held slots j)) where
    behind : (j : ℕ) → i < j → held slots' j ≡ held (drop (i + 1) slots') (j - (i + 1))
    behind j lt =
        let at : i + 1 + (j - (i + 1)) ≡ j = omega arith in
        ap is_some (ap (slot_at slots') (sym at) ∙ sym (slot_at-drop slots' (i + 1) (j - (i + 1))))

    repaired_ask-IsBest :
        (o : Option ℕ)
        → IsBest ask slots (some i)
        → IsBest ask (drop (i + 1) slots') o
        → IsBest ask slots' (elim o [ none ↦ none | some offset ↦ some (i + 1 + offset) ])
    unfolding raises
    repaired_ask-IsBest none h k = λ j. ground (arith, emptied j, h.1 j, behind j, k (j - (i + 1)))
    repaired_ask-IsBest (some offset) h k = (
      ap is_some (sym (slot_at-drop slots' (i + 1) offset)) ∙ k.0,
      λ j f. ground (arith, emptied j, h.1 j, behind j, k.1 (j - (i + 1))),
    )

    before : (j : ℕ) → held (take i slots') j ≡ (if ltb j i then held slots' j else false)
    unfolding is_some
    before j = ap is_some (slot_at-take slots' i j) ∙ ground arith

    repaired_bid-IsBest :
        (o : Option ℕ)
        → IsBest bid slots (some i)
        → IsBest bid (take i slots') o
        → IsBest bid slots' o
    unfolding raises
    repaired_bid-IsBest none h k = λ j. ground (arith, emptied j, h.1 j, before j, k j)
    repaired_bid-IsBest (some b) h k =
        (ground (arith, before b, k.0), λ j f. ground (arith, emptied j, h.1 j, before j, k.1 j))

    -- The best slot is repaired once it is empty.
    pub repaired-IsBest :
        (side : Side)
        → IsBest side slots (some i)
        → IsBest side slots' (repaired_best side slots' i)
    unfolding repaired_best
    repaired-IsBest ask h =
        repaired_ask-IsBest (position (drop (i + 1) slots')) h
          (position-IsBest (drop (i + 1) slots'))
    repaired-IsBest bid h =
        repaired_bid-IsBest (rposition (take i slots')) h (rposition-IsBest (take i slots'))

    -- Another slot is emptied.
    pub emptied-IsBest :
        (side : Side) (o : Option ℕ)
        → is_touch o i ≡ false
        → IsBest side slots o
        → IsBest side slots' o
    unfolding is_touch
    emptied-IsBest side none t h = λ j. ground (arith, emptied j, h j)
    emptied-IsBest side (some b) t h =
        (ground (arith, emptied b, h.0), λ j f. h.1 j (ground (arith, emptied j)))

  -- Writes that empty and fill no slot.
  pub held-IsBest :
      (side : Side) (slots slots' : List (Option A)) (o : Option ℕ)
      → ((j : ℕ) → held slots' j ≡ held slots j)
      → IsBest side slots o
      → IsBest side slots' o
  held-IsBest side slots slots' none e h = λ j. e j ∙ h j
  held-IsBest side slots slots' (some i) e h = (e i ∙ h.0, λ j f. h.1 j (sym (e j) ∙ f))

  held-set :
      (slots : List (Option A)) (i : ℕ) (x : Option A) (j : ℕ)
      → i < length slots
      → held (set slots i x) j ≡ (if j == i then is_some x else held slots j)
  held-set slots i x j lt =
      ap is_some (slot_at-set slots i j x lt)
      ∙ elim (Bool-cases (j == i)) [ inl e ↦ rw e refl | inr e ↦ rw e refl ]

  pub held-fill :
      (slots : List (Option A)) (i : ℕ) (a : A) (j : ℕ)
      → i < length slots
      → held (set slots i (some a)) j ≡ (if j == i then true else held slots j)
  unfolding is_some
  held-fill slots i a j lt = held-set slots i (some a) j lt

  pub held-empty :
      (slots : List (Option A)) (i j : ℕ)
      → i < length slots
      → held (set slots i none) j ≡ (if j == i then false else held slots j)
  unfolding is_some
  held-empty slots i j lt = held-set slots i none j lt

-- The touch is the best slot.
pub touch_lem : (o : Option ℕ) (i : ℕ) → is_touch o i ≡ true → o ≡ some i
unfolding is_touch
touch_lem none i e = cc
touch_lem (some b) i e = ap some (ground arith)
