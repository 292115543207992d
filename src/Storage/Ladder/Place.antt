-- ===== src/Storage/Ladder/Place.antt =====
-- The contract of the stores of src/storage.rs, place by place: what each operation does to what is
-- found at a side and a price.
use order_book.Prelude.{
  ◌≡◌, refl, sym, ap, subst, ◌∙◌, Option, none, some, Bool, true, false, ◌==◌, ◌&&◌, if◌then◌else◌,
  OnOk, OnOk-map, arith, Bool-cases, Option-cases, inl, inr, ==→eq,
}
use order_book.Side.{Side, ask, bid, opposite}
use order_book.Instrument.{Price}
use order_book.Types.Level.{side_beq, side_beq-eq}
use order_book.Storage.{BookLevel, OrderBookStore, StoreError}
use order_book.Storage
use order_book.Storage.Ladder.{Ladder, find_level, with_level, IsStore}
use order_book.Storage.Ladder.Find.{find_level-price, find_level-put_level, find_level-drop_level}

-- Whether a side and a price are this side and this price.
abbrev pub is_place : Side → Price → Side → Price → Bool
is_place side price s p = side_beq s side && (p == price)

-- A fact on a side and on the opposite one is a fact on every side.
on_sides : (P : Side → Type 0) (side s : Side) → P side → P (opposite side) → P s
unfolding opposite
on_sides P ask ask h k = h
on_sides P ask bid h k = k
on_sides P bid ask h k = k
on_sides P bid bid h k = h

side_beq_refl : (side : Side) → side_beq side side ≡ true
unfolding side_beq
side_beq_refl ask = refl
side_beq_refl bid = refl

side_beq-opposite : (side : Side) → side_beq (opposite side) side ≡ false
unfolding side_beq opposite
side_beq-opposite ask = refl
side_beq-opposite bid = refl

pub is_place_refl : (side : Side) (price : Price) → is_place side price side price ≡ true
is_place_refl side price = ground (arith, side_beq_refl side)

pub is_place-eq :
    (side s : Side) (price p : Price) → is_place side price s p ≡ true → (s ≡ side) × (p ≡ price)
is_place-eq side s price p h = (side_beq-eq s side (ground arith), ground arith)

module _ (Key : Type 0) (stores : OrderBookStore Key) (Valid : stores.Store → Type 0)
    (laws : IsStore Key stores Valid) where
  -- What stands at a place.
  abbrev pub found : stores.Store → Side → Price → Option (BookLevel Key)
  found store s p = find_level Key p (stores.levels store s)

  -- One side changes at one price.
  placed :
      (store store' : stores.Store) (side s : Side) (price p : Price) (o : Option (BookLevel Key))
      (ls : Ladder Key)
      → stores.levels store' side ≡ ls
      → stores.levels store' (opposite side) ≡ stores.levels store (opposite side)
      → find_level Key p ls
        ≡ (if p == price then o else find_level Key p (stores.levels store side))
      → found store' s p ≡ (if is_place side price s p then o else found store s p)
  placed store store' side s price p o ls e f g =
      on_sides (λ s. found store' s p ≡ (if is_place side price s p then o else found store s p))
        side s (rw (side_beq_refl side) (ap (find_level Key p) e ∙ g))
        (rw (side_beq-opposite side) (ap (find_level Key p) f))

  pub put_place :
      (store : stores.Store) (side s : Side) (m l : BookLevel Key) (p : Price)
      → Valid store
      → stores.level store side m.price ≡ some l
      → found (stores.put store side m.price m) s p
        ≡ (if is_place side m.price s p then some m else found store s p)
  put_place store side s m l p v e =
      let (_, here, there) = laws.put_lem store side m l v e in
      placed store (stores.put store side m.price m) side s m.price p (some m) _ here there
        (find_level-put_level Key side p m (stores.levels store side))

  -- A write back to a level that keeps its price.
  pub put_at :
      (store : stores.Store) (side : Side) (price : Price) (m l : BookLevel Key)
      → Valid store
      → stores.level store side price ≡ some l
      → m.price ≡ price
      → Valid (stores.put store side price m)
        × ((s : Side) (p : Price)
            → found (stores.put store side price m) s p
              ≡ (if is_place side price s p then some m else found store s p))
  put_at store side price m l v e at =
      let present : stores.level store side m.price ≡ some l =
        ap (stores.level store side) at ∙ e in
      subst
        (λ q.
          Valid (stores.put store side q m)
          × ((s : Side) (p : Price)
              → found (stores.put store side q m) s p
                ≡ (if is_place side q s p then some m else found store s p)))
        at
        ((laws.put_lem store side m l v present).0, λ s p. put_place store side s m l p v present)

  -- The level that is there has the price it is looked up at.
  pub level-price :
      (store : stores.Store) (side : Side) (price : Price) (l : BookLevel Key)
      → Valid store
      → stores.level store side price ≡ some l
      → l.price ≡ price
  level-price store side price l v e =
      find_level-price Key price (stores.levels store side) l
        (sym (laws.level_lem store side price v) ∙ e)

  pub remove_place :
      (store : stores.Store) (side s : Side) (price p : Price)
      → Valid store
      → found (stores.remove_level store side price).0 s p
        ≡ (if is_place side price s p then none else found store s p)
  remove_place store side s price p v =
      let (_, here, there, _) = laws.remove_level_lem store side price v in
      placed store (stores.remove_level store side price).0 side s price p none _ here there
        (find_level-drop_level Key p price (stores.levels store side))

  -- The level that `ensure_level` leaves.
  abbrev pub ensured : stores.Store → Side → Price → BookLevel Key
  ensured store side price = elim (found store side price) [
    | none ↦ Storage.new price side
    | some l ↦ l
  ]

  find_level-with_level :
      (side : Side) (price p : Price) (ls : Ladder Key)
      → find_level Key p (with_level Key side price ls) ≡ (
          if p == price
          then some (elim (find_level Key price ls) [ none ↦ Storage.new price side | some l ↦ l ])
          else find_level Key p ls)
  unfolding Storage.new
  find_level-with_level side price p ls = elim (Option-cases (find_level Key price ls)) [
    | inl e ↦ rw (with_level, e) (find_level-put_level Key side p (Storage.new price side) ls)
    | inr (l, e) ↦ elim (Bool-cases (p == price)) [
      | inl q ↦ rw (with_level, e, q) (ap (λ r. find_level Key r ls) (==→eq p price q) ∙ e)
      | inr q ↦ rw (with_level, e, q) refl
    ]
  ]

  pub ensure_place :
      (store : stores.Store) (side : Side) (price : Price)
      → Valid store
      → OnOk
          (λ store'.
            Valid store'
            × ((s : Side) (p : Price)
                → found store' s p ≡ (
                    if is_place side price s p
                    then some (ensured store side price)
                    else found store s p)))
          (stores.ensure_level store side price)
  ensure_place store side price v =
      OnOk-map (stores.ensure_level store side price)
        (λ store' h. (
          h.0,
          λ s p.
              placed store store' side s price p (some (ensured store side price)) _ h.1 h.2
                (find_level-with_level side price p (stores.levels store side)),
        ))
        (laws.ensure_level_lem store side price v)
