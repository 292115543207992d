-- ===== src/Storage/Ladder.antt =====
-- What a store of src/storage.rs promises, whatever its layout: one ladder of levels for each side,
-- best price first.
pub mod Find
pub mod Place
use order_book.Prelude.{
  ◌≡◌, subst, sym, ◌<◌, ◌≤◌, List, [], ◌∷◌, Option, none, some, Bool, true, false, if◌then◌else◌,
  ltb, ◌==◌, All, All-map, OnOk, length, arith, Bool-cases, inl, inr,
}
use order_book.Side.{Side, ask, bid, opposite}
use order_book.Instrument.{Price, InstrumentSpec}
use order_book.Storage.{BookLevel, OrderBookStore}
use order_book.Storage

-- Whether a price is better than another for the other side's taker.
unfoldable pub better : Side → Price → Price → Bool
better ask p q = ltb p q
better bid p q = ltb q p

module _ (Key : Type 0) where
  abbrev pub Ladder : Type 0
  Ladder = List (BookLevel Key)

  unfoldable pub find_level : Price → Ladder → Option (BookLevel Key)
  find_level p [] = none
  find_level p (l ∷ ls) = if p == l.price then some l else find_level p ls

  abbrev pub first_level : Ladder → Option (BookLevel Key)
  first_level [] = none
  first_level (l ∷ ls) = some l

  -- The ladder with this level, in place of the one of its price.
  unfoldable pub put_level : Side → BookLevel Key → Ladder → Ladder
  put_level side m [] = m ∷ []
  put_level side m (l ∷ ls) =
      if m.price == l.price
      then m ∷ ls
      else if better side m.price l.price
      then m ∷ l ∷ ls
      else l ∷ put_level side m ls

  unfoldable pub drop_level : Price → Ladder → Ladder
  drop_level p [] = []
  drop_level p (l ∷ ls) = let rest = drop_level p ls in if p == l.price then rest else l ∷ rest

  -- Best price first, each price once.
  abbrev pub Sorted : Side → Ladder → Type 0
  Sorted side [] = Unit {0}
  Sorted side (l ∷ ls) =
      All (λ (m : BookLevel Key). better side l.price m.price ≡ true) ls × Sorted side ls

  -- The ladder once there is a level of this price.
  abbrev pub with_level : Side → Price → Ladder → Ladder
  with_level side p ls = elim (find_level p ls) [
    | none ↦ put_level side (Storage.new p side) ls
    | some l ↦ ls
  ]

  pub drop_level-length : (p : Price) (ls : Ladder) → length (drop_level p ls) ≤ length ls
  unfolding drop_level
  drop_level-length p [] = omega arith
  drop_level-length p (l ∷ ls) = ground (arith, drop_level-length p ls)

  -- A drained best level leaves a shorter ladder.
  pub drained-length :
      (side : Side) (l m : BookLevel Key) (ls : Ladder)
      → m.price ≡ l.price
      → length (drop_level l.price (put_level side m (l ∷ ls))) < length (l ∷ ls)
  unfolding drop_level put_level
  drained-length side l m ls e = ground (arith, drop_level-length l.price ls)

  pub better_trans :
      (side : Side) (p q r : Price)
      → better side p q ≡ true
      → better side q r ≡ true
      → better side p r ≡ true
  unfolding better
  better_trans ask p q r h k = ground arith
  better_trans bid p q r h k = ground arith

  pub better_total :
      (side : Side) (p q : Price)
      → (p == q) ≡ false
      → better side p q ≡ false
      → better side q p ≡ true
  unfolding better
  better_total ask p q h k = ground arith
  better_total bid p q h k = ground arith

  pub put_level-All :
      (P : BookLevel Key → Type 0) (side : Side) (m : BookLevel Key) (ls : Ladder)
      → P m
      → All P ls
      → All P (put_level side m ls)
  unfolding put_level
  put_level-All P side m [] p h = (p, tt)
  put_level-All P side m (l ∷ ls) p h = elim (Bool-cases (m.price == l.price)) [
    | inl e ↦ rw e (p, h.1)
    | inr e ↦ elim (Bool-cases (better side m.price l.price)) [
      | inl e' ↦ rw (e, e') (p, h)
      | inr e' ↦ rw (e, e') (h.0, put_level-All P side m ls p h.1)
    ]
  ]

  pub put_level-Sorted :
      (side : Side) (m : BookLevel Key) (ls : Ladder)
      → Sorted side ls
      → Sorted side (put_level side m ls)
  unfolding put_level
  put_level-Sorted side m [] h = (tt, tt)
  put_level-Sorted side m (l ∷ ls) h = elim (Bool-cases (m.price == l.price)) [
    | inl e ↦
        let q : m.price ≡ l.price = ground arith in
        rw e (
          subst (λ p. All (λ (x : BookLevel Key). better side p x.price ≡ true) ls) (sym q) h.0,
          h.1,
        )
    | inr e ↦ elim (Bool-cases (better side m.price l.price)) [
      | inl e' ↦
          rw (e, e')
            ((e', All-map (λ x b. better_trans side m.price l.price x.price e' b) ls h.0), h)
      | inr e' ↦
          rw (e, e')
            (
              put_level-All (λ x. better side l.price x.price ≡ true) side m ls
                  (better_total side m.price l.price e e') h.0,
              put_level-Sorted side m ls h.1,
            )
    ]
  ]

  pub drop_level-All :
      (P : BookLevel Key → Type 0) (p : Price) (ls : Ladder) → All P ls → All P (drop_level p ls)
  unfolding drop_level
  drop_level-All P p [] h = tt
  drop_level-All P p (l ∷ ls) h = elim (Bool-cases (p == l.price)) [
    | inl e ↦ rw e (drop_level-All P p ls h.1)
    | inr e ↦ rw e (h.0, drop_level-All P p ls h.1)
  ]

  pub drop_level-Sorted :
      (side : Side) (p : Price) (ls : Ladder) → Sorted side ls → Sorted side (drop_level p ls)
  unfolding drop_level
  drop_level-Sorted side p [] h = tt
  drop_level-Sorted side p (l ∷ ls) h = elim (Bool-cases (p == l.price)) [
    | inl e ↦ rw e (drop_level-Sorted side p ls h.1)
    | inr e ↦ rw e (drop_level-All _ p ls h.0, drop_level-Sorted side p ls h.1)
  ]

  -- The contract of the trait `OrderBookStore`, for the stores that are valid.
  pub record IsStore (stores : OrderBookStore Key) (Valid : stores.Store → Type 0) : Type 0 where
    pub sorted : (s : stores.Store) (side : Side) → Valid s → Sorted side (stores.levels s side)
    pub try_new_lem :
        (spec : InstrumentSpec)
        → OnOk (λ s. Valid s × ((side : Side) → stores.levels s side ≡ [])) (stores.try_new spec)
    pub level_lem :
        (s : stores.Store) (side : Side) (p : Price)
        → Valid s
        → stores.level s side p ≡ find_level p (stores.levels s side)
    pub best_level_lem :
        (s : stores.Store) (side : Side)
        → Valid s
        → stores.best_level s side ≡ first_level (stores.levels s side)
    pub ensure_level_lem :
        (s : stores.Store) (side : Side) (p : Price)
        → Valid s
        → OnOk
            (λ s'.
              Valid s'
              × (stores.levels s' side ≡ with_level side p (stores.levels s side))
              × (stores.levels s' (opposite side) ≡ stores.levels s (opposite side)))
            (stores.ensure_level s side p)
    -- A write through the reference to a level that is there.
    pub put_lem :
        (s : stores.Store) (side : Side) (m l : BookLevel Key)
        → Valid s
        → stores.level s side m.price ≡ some l
        → Valid (stores.put s side m.price m)
          × (stores.levels (stores.put s side m.price m) side
              ≡ put_level side m (stores.levels s side))
          × (stores.levels (stores.put s side m.price m) (opposite side)
              ≡ stores.levels s (opposite side))
    pub remove_level_lem :
        (s : stores.Store) (side : Side) (p : Price)
        → Valid s
        → Valid (stores.remove_level s side p).0
          × (stores.levels (stores.remove_level s side p).0 side
              ≡ drop_level p (stores.levels s side))
          × (stores.levels (stores.remove_level s side p).0 (opposite side)
              ≡ stores.levels s (opposite side))
          × ((stores.remove_level s side p).1 ≡ find_level p (stores.levels s side))
