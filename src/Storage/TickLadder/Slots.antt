-- ===== src/Storage/TickLadder/Slots.antt =====
-- The slots of `TickLadderStore` of src/storage.rs: the levels that stand in them, in the order of
-- the iterator, and where each is found.
use order_book.Prelude.{
  ℕ, zero, suc, ◌+◌, ◌*◌, ◌≡◌, ◌≤◌, ◌<◌, refl, sym, ap, subst, ◌∙◌, [], ◌∷◌, ◌++◌, Option, none,
  some, true, false, ◌==◌, if◌then◌else◌, All, All-map, All-append, set, length, arith, Bool-cases,
  Option-cases, inl, inr, none_not_some, ==→eq,
}
use mathlib.Core.List.{reverse, reverse-cons}
use order_book.Side.{Side, ask, bid}
use order_book.Instrument.{Price}
use order_book.Storage.{BookLevel}
use order_book.Storage.Ladder.{Ladder, better, find_level, Sorted}
use order_book.Storage.TickLadder.{Slots, slot_at, occupied, side_ordered}

beq_sym : (i j : ℕ) → (i == j) ≡ true → (j == i) ≡ true
beq_sym i j h = ground arith

module _ (Key : Type 0) (min_minor tick_size : ℕ) where
  -- The price of a slot.
  unfoldable pub price_at : ℕ → Price
  price_at zero = min_minor
  price_at (suc i) = price_at i + tick_size

  pub price_at-mul : (i : ℕ) → price_at i ≡ min_minor + i * tick_size
  unfolding price_at
  price_at-mul zero = omega arith
  price_at-mul (suc i) = omega (arith, price_at-mul i)

  -- Each level stands in the slot of its price, the first slot here being number k.
  abbrev pub Placed : ℕ → Slots Key → Type 0
  Placed k [] = Unit {0}
  Placed k (none ∷ slots) = Placed (suc k) slots
  Placed k (some l ∷ slots) = (l.price ≡ price_at k) × Placed (suc k) slots

  abbrev ordered_cons : Side → Option (BookLevel Key) → Slots Key → Ladder Key
  ordered_cons ask none slots = side_ordered Key ask slots
  ordered_cons ask (some l) slots = l ∷ side_ordered Key ask slots
  ordered_cons bid none slots = side_ordered Key bid slots
  ordered_cons bid (some l) slots = side_ordered Key bid slots ++ l ∷ []

  occupied-append : (xs ys : Slots Key) → occupied (xs ++ ys) ≡ occupied xs ++ occupied ys
  unfolding occupied
  occupied-append [] ys = refl
  occupied-append (none ∷ xs) ys = occupied-append xs ys
  occupied-append (some l ∷ xs) ys = ap (λ zs. l ∷ zs) (occupied-append xs ys)

  append_nil : (ls : Ladder Key) → ls ++ [] ≡ ls
  append_nil [] = refl
  append_nil (l ∷ ls) = ap (λ zs. l ∷ zs) (append_nil ls)

  side_ordered-cons :
      (side : Side) (o : Option (BookLevel Key)) (slots : Slots Key)
      → side_ordered Key side (o ∷ slots) ≡ ordered_cons side o slots
  unfolding side_ordered occupied
  side_ordered-cons ask none slots = refl
  side_ordered-cons ask (some l) slots = refl
  side_ordered-cons bid none slots =
      ap occupied (reverse-cons none slots)
      ∙ occupied-append (reverse slots) (none ∷ [])
      ∙ append_nil (occupied (reverse slots))
  side_ordered-cons bid (some l) slots =
      ap occupied (reverse-cons (some l) slots) ∙ occupied-append (reverse slots) (some l ∷ [])

  side_ordered-nil : (side : Side) → side_ordered Key side [] ≡ []
  unfolding side_ordered occupied
  side_ordered-nil ask = refl
  side_ordered-nil bid = refl

  -- The levels of the slots from number k on.
  side_ordered-least :
      (side : Side) (k : ℕ) (slots : Slots Key)
      → Placed k slots
      → All (λ (l : BookLevel Key). price_at k ≤ l.price) (side_ordered Key side slots)
  unfolding price_at
  side_ordered-least ask k [] h = rw (side_ordered-nil ask) tt
  side_ordered-least bid k [] h = rw (side_ordered-nil bid) tt
  side_ordered-least ask k (none ∷ slots) h =
      rw (side_ordered-cons ask none slots)
        (All-map (λ l le. omega (arith, le)) _ (side_ordered-least ask (suc k) slots h))
  side_ordered-least bid k (none ∷ slots) h =
      rw (side_ordered-cons bid none slots)
        (All-map (λ l le. omega (arith, le)) _ (side_ordered-least bid (suc k) slots h))
  side_ordered-least ask k (some l ∷ slots) h = rw (side_ordered-cons ask (some l) slots) (
    omega (arith, h.0),
    All-map (λ l le. omega (arith, le)) _ (side_ordered-least ask (suc k) slots h.1),
  )
  side_ordered-least bid k (some l ∷ slots) h = rw (side_ordered-cons bid (some l) slots) (
      All-append _ (side_ordered Key bid slots) (l ∷ [])
        (All-map (λ l le. omega (arith, le)) _ (side_ordered-least bid (suc k) slots h.1))
        (omega (arith, h.0), tt))

  module _ (pos : 0 < tick_size) where
    find_level-later :
        (p : Price) (k : ℕ) (ls : Ladder Key)
        → p < price_at (suc k)
        → All (λ (l : BookLevel Key). price_at (suc k) ≤ l.price) ls
        → find_level Key p ls ≡ none
    unfolding find_level
    find_level-later p k [] lt h = refl
    find_level-later p k (l ∷ ls) lt h = ground (arith, h.0, find_level-later p k ls lt h.1)

    find_level-append :
        (p : Price) (xs : Ladder Key) (l : BookLevel Key)
        → find_level Key p (xs ++ l ∷ [])
          ≡ (elim (find_level Key p xs) as (λ o. Option (BookLevel Key)) [
            | none ↦ if p == l.price then some l else none
            | some x ↦ some x
          ])
    unfolding find_level
    find_level-append p [] l = refl
    find_level-append p (x ∷ xs) l = elim (Bool-cases (p == x.price)) [
      | inl e ↦ rw e refl
      | inr e ↦ rw e (find_level-append p xs l)
    ]

    Placed-tail :
        (k : ℕ) (o : Option (BookLevel Key)) (slots : Slots Key)
        → Placed k (o ∷ slots)
        → Placed (suc k) slots
    Placed-tail k none slots h = h
    Placed-tail k (some l) slots h = h.1

    find_level-here :
        (side : Side) (p : Price) (k : ℕ) (o : Option (BookLevel Key)) (slots : Slots Key)
        → (p == price_at k) ≡ true
        → Placed k (o ∷ slots)
        → find_level Key p (side_ordered Key side slots) ≡ none
        → find_level Key p (ordered_cons side o slots) ≡ o
    unfolding find_level
    find_level-here ask p k none slots e h n = n
    find_level-here bid p k none slots e h n = n
    find_level-here ask p k (some l) slots e h n = ground (arith, h.0)
    find_level-here bid p k (some l) slots e h n =
        let q : (p == l.price) ≡ true = ground (arith, h.0) in
        find_level-append p (side_ordered Key bid slots) l ∙ rw (n, q) refl

    find_level-there :
        (side : Side) (p : Price) (k : ℕ) (o : Option (BookLevel Key)) (slots : Slots Key)
        → (p == price_at k) ≡ false
        → Placed k (o ∷ slots)
        → find_level Key p (ordered_cons side o slots)
          ≡ find_level Key p (side_ordered Key side slots)
    unfolding find_level
    find_level-there ask p k none slots e h = refl
    find_level-there bid p k none slots e h = refl
    find_level-there ask p k (some l) slots e h = ground (arith, h.0)
    find_level-there bid p k (some l) slots e h =
        let q : (p == l.price) ≡ false = ground (arith, h.0) in
        find_level-append p (side_ordered Key bid slots) l
        ∙ elim (Option-cases (find_level Key p (side_ordered Key bid slots))) [
          | inl n ↦ rw (n, q) refl
          | inr (x, n) ↦ rw n refl
        ]

    -- What is found at a price: what stands in its slot.
    pub find_level-cons :
        (side : Side) (p : Price) (k : ℕ) (o : Option (BookLevel Key)) (slots : Slots Key)
        → Placed k (o ∷ slots)
        → find_level Key p (side_ordered Key side (o ∷ slots))
          ≡ (if p == price_at k then o else find_level Key p (side_ordered Key side slots))
    unfolding find_level price_at
    find_level-cons side p k o slots h = elim (Bool-cases (p == price_at k)) [
      | inl e ↦
          let later : find_level Key p (side_ordered Key side slots) ≡ none =
            find_level-later p k _ (ground arith)
              (side_ordered-least side (suc k) slots (Placed-tail k o slots h)) in
          rw (e, side_ordered-cons side o slots) (find_level-here side p k o slots e h later)
      | inr e ↦ rw (e, side_ordered-cons side o slots) (find_level-there side p k o slots e h)
    ]

    Sorted-append :
        (xs : Ladder Key) (l : BookLevel Key)
        → Sorted Key bid xs
        → All (λ (m : BookLevel Key). better bid m.price l.price ≡ true) xs
        → Sorted Key bid (xs ++ l ∷ [])
    Sorted-append [] l h a = (tt, tt)
    Sorted-append (x ∷ xs) l h a =
        (All-append _ xs (l ∷ []) h.0 (a.0, tt), Sorted-append xs l h.1 a.1)

    pub side_ordered-Sorted :
        (side : Side) (k : ℕ) (slots : Slots Key)
        → Placed k slots
        → Sorted Key side (side_ordered Key side slots)
    unfolding better price_at
    side_ordered-Sorted side k [] h = rw (side_ordered-nil side) tt
    side_ordered-Sorted ask k (none ∷ slots) h =
        rw (side_ordered-cons ask none slots) (side_ordered-Sorted ask (suc k) slots h)
    side_ordered-Sorted bid k (none ∷ slots) h =
        rw (side_ordered-cons bid none slots) (side_ordered-Sorted bid (suc k) slots h)
    side_ordered-Sorted ask k (some l ∷ slots) h = rw (side_ordered-cons ask (some l) slots) (
      All-map (λ m le. ground (arith, le, h.0)) _ (side_ordered-least ask (suc k) slots h.1),
      side_ordered-Sorted ask (suc k) slots h.1,
    )
    side_ordered-Sorted bid k (some l ∷ slots) h = rw (side_ordered-cons bid (some l) slots) (
        Sorted-append (side_ordered Key bid slots) l (side_ordered-Sorted bid (suc k) slots h.1)
          (All-map (λ m le. ground (arith, le, h.0)) _ (side_ordered-least bid (suc k) slots h.1)))

    -- The prices of the slots ascend.
    pub price_at-lt : (i j : ℕ) → i < j → price_at i < price_at j
    unfolding price_at
    price_at-lt i zero h = absurd (omega arith)
    price_at-lt i (suc j) h = elim (Bool-cases (i == j)) [
      | inl e ↦ subst (λ n. price_at n < price_at (suc j)) (==→eq j i (beq_sym i j e)) (omega arith)
      | inr e ↦ omega (arith, price_at-lt i j (ground arith))
    ]

    pub price_at-beq : (i j : ℕ) → (price_at i == price_at j) ≡ (i == j)
    price_at-beq i j = ground (arith, price_at-lt i j, price_at-lt j i)

    -- What is found at the price of a slot.
    pub find_level-slot_at :
        (side : Side) (j k i : ℕ) (slots : Slots Key)
        → Placed k slots
        → j ≡ k + i
        → find_level Key (price_at j) (side_ordered Key side slots) ≡ slot_at slots i
    unfolding find_level slot_at
    find_level-slot_at side j k i [] h e = rw (side_ordered-nil side) refl
    find_level-slot_at side j k zero (o ∷ slots) h e =
        let q : (j == k) ≡ true = ground arith in
        find_level-cons side (price_at j) k o slots h ∙ rw (price_at-beq j k, q) refl
    find_level-slot_at side j k (suc i) (o ∷ slots) h e =
        let q : (j == k) ≡ false = ground arith in
        find_level-cons side (price_at j) k o slots h
        ∙ rw (price_at-beq j k, q)
            (find_level-slot_at side j (suc k) i slots (Placed-tail k o slots h) (omega (arith, e)))

    -- Where something is found, there is a slot.
    pub slot_of :
        (side : Side) (p : Price) (k : ℕ) (slots : Slots Key) (l : BookLevel Key)
        → Placed k slots
        → find_level Key p (side_ordered Key side slots) ≡ some l
        → (j : ℕ) × (p ≡ price_at j) × (k ≤ j) × (j < k + length slots)
    unfolding find_level
    slot_of side p k [] l h e =
        absurd (none_not_some (sym (ap (find_level Key p) (side_ordered-nil side)) ∙ e))
    slot_of side p k (o ∷ slots) l h e = elim (Bool-cases (p == price_at k)) [
      | inl q ↦ (k, ground arith, omega arith, omega arith)
      | inr q ↦
          let there = sym (find_level-cons side p k o slots h ∙ rw q refl) ∙ e in
          let (j, at, le, lt) = slot_of side p (suc k) slots l (Placed-tail k o slots h) there in
          (j, at, omega (arith, le), omega (arith, lt))
    ]

    -- A write of what belongs into a slot.
    pub Placed-set :
        (k j i : ℕ) (slots : Slots Key) (o : Option (BookLevel Key))
        → Placed k slots
        → j ≡ k + i
        → ((l : BookLevel Key) → o ≡ some l → l.price ≡ price_at j)
        → Placed k (set slots i o)
    Placed-set k j i [] o h e w = tt
    Placed-set k j zero (x ∷ slots) none h e w = Placed-tail k x slots h
    Placed-set k j zero (x ∷ slots) (some l) h e w =
        (w l refl ∙ ap price_at (omega (arith, e)), Placed-tail k x slots h)
    Placed-set k j (suc i) (none ∷ slots) o h e w =
        Placed-set (suc k) j i slots o h (omega (arith, e)) w
    Placed-set k j (suc i) (some l ∷ slots) o h e w =
        (h.0, Placed-set (suc k) j i slots o h.1 (omega (arith, e)) w)

    pub find_level-set :
        (side : Side) (p : Price) (k j i : ℕ) (slots : Slots Key) (o : Option (BookLevel Key))
        → Placed k slots
        → j ≡ k + i
        → ((l : BookLevel Key) → o ≡ some l → l.price ≡ price_at j)
        → i < length slots
        → find_level Key p (side_ordered Key side (set slots i o))
          ≡ (if p == price_at j then o else find_level Key p (side_ordered Key side slots))
    find_level-set side p k j i [] o h e w lt = absurd (omega (arith, lt))
    find_level-set side p k j zero (x ∷ slots) o h e w lt =
        let same : j ≡ k = omega (arith, e) in
        find_level-cons side p k o slots (Placed-set k j zero (x ∷ slots) o h e w)
        ∙ rw (ap price_at same, find_level-cons side p k x slots h)
            (elim (Bool-cases (p == price_at k)) [ inl q ↦ rw q refl | inr q ↦ rw q refl ])
    find_level-set side p k j (suc i) (x ∷ slots) o h e w lt =
        find_level-cons side p k x (set slots i o) (Placed-set k j (suc i) (x ∷ slots) o h e w)
        ∙ rw
            (
              find_level-set side p (suc k) j i slots o (Placed-tail k x slots h) (omega (arith, e))
                  w (omega (arith, lt)),
              find_level-cons side p k x slots h,
            )
            (ground (arith, e, price_at-lt k j))
