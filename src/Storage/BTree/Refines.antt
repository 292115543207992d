-- ===== src/Storage/BTree/Refines.antt =====
-- `BTreeStore` of src/storage.rs keeps the contract of a store.
use order_book.Prelude.{
  ℕ, ◌≡◌, refl, sym, ap, subst, ◌∙◌, List, [], ◌∷◌, Option, none, some, Bool, true, false, ltb,
  ◌==◌, map, map_get, map_remove, nat_eq, tree_insert, tree_first, OnOk, Bool-cases, Option-cases,
  inl, inr, arith,
}
use order_book.Side.{Side, ask, bid, opposite}
use order_book.Instrument.{Price}
use order_book.Storage.{BookLevel, OrderBookStore}
use order_book.Storage
use order_book.Storage.Ladder.{
  Ladder, better, find_level, first_level, put_level, drop_level, Sorted, with_level, IsStore,
  put_level-Sorted, drop_level-Sorted,
}
use order_book.Storage.BTree.{
  BTreeStore, btree_store, above, try_new, level, put, ensure_level, best_level, remove_level,
  levels,
}

module _ (Key : Type 0) where
  abbrev Entries : Type 0
  Entries = List (Price × BookLevel Key)

  abbrev values : Entries → Ladder Key
  values = map (λ e. e.1)

  -- Each level stands under its price.
  abbrev Keyed : Entries → Type 0
  Keyed [] = Unit {0}
  Keyed (e ∷ es) = (e.0 ≡ e.1.price) × Keyed es

  map_get-values :
      (p : Price) (es : Entries) → Keyed es → map_get p es ≡ find_level Key p (values es)
  unfolding map_get find_level
  map_get-values p [] k = refl
  map_get-values p ((j, l) ∷ es) k = ground (arith, map_get-values p es k.1)

  map_remove-values :
      (p : Price) (es : Entries)
      → Keyed es
      → Keyed (map_remove p es) × (values (map_remove p es) ≡ drop_level Key p (values es))
  unfolding map_remove drop_level
  map_remove-values p [] k = (tt, refl)
  map_remove-values p ((j, l) ∷ es) k =
      let (keyed, same) = map_remove-values p es k.1 in
      elim (Bool-cases (p == j)) [
        | inl e ↦ rw (e, subst (λ x. (p == x) ≡ true) k.0 e) (keyed, same)
        | inr e ↦ rw (e, subst (λ x. (p == x) ≡ false) k.0 e) ((k.0, keyed), ap (λ ls. l ∷ ls) same)
      ]

  tree_insert-values :
      (side : Side) (before : ℕ → ℕ → Bool) (m : BookLevel Key) (es : Entries)
      → ((p q : Price) → before p q ≡ better side p q)
      → Keyed es
      → Keyed (tree_insert before m.price m es)
        × (values (tree_insert before m.price m es) ≡ put_level Key side m (values es))
  unfolding tree_insert put_level
  tree_insert-values side before m [] b k = ((refl, tt), refl)
  tree_insert-values side before m ((j, l) ∷ es) b k =
      let (keyed, same) = tree_insert-values side before m es b k.1 in
      let apart : (m.price == j) ≡ false → (m.price == l.price) ≡ false =
        subst (λ x. (m.price == x) ≡ false) k.0 in
      elim (Bool-cases (m.price == j)) [
        | inl e ↦ rw (e, subst (λ x. (m.price == x) ≡ true) k.0 e) ((refl, k.1), refl)
        | inr e ↦ elim (Bool-cases (better side m.price j)) [
          | inl e' ↦
              rw (e, apart e, b m.price j, e', subst (λ x. better side m.price x ≡ true) k.0 e')
                ((refl, k), refl)
          | inr e' ↦
              rw (e, apart e, b m.price j, e', subst (λ x. better side m.price x ≡ false) k.0 e')
                ((k.0, keyed), ap (λ ls. l ∷ ls) same)
        ]
      ]

  pub record IsBTree (s : BTreeStore Key) : Type 0 where
    pub bids_keyed : Keyed s.bids
    pub asks_keyed : Keyed s.asks
    pub bids_sorted : Sorted Key bid (values s.bids)
    pub asks_sorted : Sorted Key ask (values s.asks)

  above-better : (p q : Price) → above Key p q ≡ better bid p q
  unfolding better
  above-better p q = refl

  ltb-better : (p q : Price) → ltb p q ≡ better ask p q
  unfolding better
  ltb-better p q = refl

  put-IsBTree :
      (s : BTreeStore Key) (side : Side) (m : BookLevel Key)
      → IsBTree s
      → IsBTree (put Key s side m.price m)
        × (levels Key (put Key s side m.price m) side ≡ put_level Key side m (levels Key s side))
        × (levels Key (put Key s side m.price m) (opposite side) ≡ levels Key s (opposite side))
  unfolding put levels opposite
  put-IsBTree s ask m v =
      let (keyed, same) = tree_insert-values ask ltb m s.asks ltb-better v.asks_keyed in
      (
        record {
          bids_keyed = v.bids_keyed;
          asks_keyed = keyed;
          bids_sorted = v.bids_sorted;
          asks_sorted =
              subst (Sorted Key ask) (sym same)
                (put_level-Sorted Key ask m (values s.asks) v.asks_sorted);
        },
        same,
        refl,
      )
  put-IsBTree s bid m v =
      let (keyed, same) = tree_insert-values bid (above Key) m s.bids above-better v.bids_keyed in
      (
        record {
          bids_keyed = keyed;
          asks_keyed = v.asks_keyed;
          bids_sorted =
              subst (Sorted Key bid) (sym same)
                (put_level-Sorted Key bid m (values s.bids) v.bids_sorted);
          asks_sorted = v.asks_sorted;
        },
        same,
        refl,
      )

  remove_level-IsBTree :
      (s : BTreeStore Key) (side : Side) (p : Price)
      → IsBTree s
      → IsBTree (remove_level Key s side p).0
        × (levels Key (remove_level Key s side p).0 side ≡ drop_level Key p (levels Key s side))
        × (levels Key (remove_level Key s side p).0 (opposite side) ≡ levels Key s (opposite side))
        × ((remove_level Key s side p).1 ≡ find_level Key p (levels Key s side))
  unfolding remove_level levels opposite
  remove_level-IsBTree s ask p v =
      let (keyed, same) = map_remove-values p s.asks v.asks_keyed in
      (
        record {
          bids_keyed = v.bids_keyed;
          asks_keyed = keyed;
          bids_sorted = v.bids_sorted;
          asks_sorted =
              subst (Sorted Key ask) (sym same)
                (drop_level-Sorted Key ask p (values s.asks) v.asks_sorted);
        },
        same,
        refl,
        map_get-values p s.asks v.asks_keyed,
      )
  remove_level-IsBTree s bid p v =
      let (keyed, same) = map_remove-values p s.bids v.bids_keyed in
      (
        record {
          bids_keyed = keyed;
          asks_keyed = v.asks_keyed;
          bids_sorted =
              subst (Sorted Key bid) (sym same)
                (drop_level-Sorted Key bid p (values s.bids) v.bids_sorted);
          asks_sorted = v.asks_sorted;
        },
        same,
        refl,
        map_get-values p s.bids v.bids_keyed,
      )

  level-IsBTree :
      (s : BTreeStore Key) (side : Side) (p : Price)
      → IsBTree s
      → level Key s side p ≡ find_level Key p (levels Key s side)
  unfolding level levels
  level-IsBTree s ask p v = map_get-values p s.asks v.asks_keyed
  level-IsBTree s bid p v = map_get-values p s.bids v.bids_keyed

  first-values :
      (es : Entries)
      → (elim (tree_first es) as (λ o. Option (BookLevel Key)) [ none ↦ none | some e ↦ some e.1 ])
        ≡ first_level Key (values es)
  unfolding tree_first
  first-values [] = refl
  first-values (e ∷ es) = refl

  best_level-IsBTree :
      (s : BTreeStore Key) (side : Side)
      → best_level Key s side ≡ first_level Key (levels Key s side)
  unfolding best_level levels tree_first
  best_level-IsBTree s ask = first-values s.asks
  best_level-IsBTree s bid = first-values s.bids

  levels-Sorted :
      (s : BTreeStore Key) (side : Side) → IsBTree s → Sorted Key side (levels Key s side)
  unfolding levels
  levels-Sorted s ask v = v.asks_sorted
  levels-Sorted s bid v = v.bids_sorted

  empty-IsBTree :
      IsBTree (record { bids = []; asks = [] })
      × ((side : Side) → levels Key (record { bids = []; asks = [] }) side ≡ [])
  unfolding levels
  empty-IsBTree = (
    record { bids_keyed = tt; asks_keyed = tt; bids_sorted = tt; asks_sorted = tt },
    λ side. elim side as (λ d. levels Key (record { bids = []; asks = [] }) d ≡ []) [
      | ask ↦ refl
      | bid ↦ refl
    ],
  )

  ensure_level-IsBTree :
      (s : BTreeStore Key) (side : Side) (p : Price)
      → IsBTree s
      → OnOk
          (λ s'.
            IsBTree s'
            × (levels Key s' side ≡ with_level Key side p (levels Key s side))
            × (levels Key s' (opposite side) ≡ levels Key s (opposite side)))
          (ensure_level Key s side p)
  unfolding ensure_level Storage.new
  ensure_level-IsBTree s side p v = elim (Option-cases (level Key s side p)) [
    | inl e ↦
        rw (e, sym (level-IsBTree s side p v) ∙ e, with_level, OnOk)
          (put-IsBTree s side (Storage.new p side) v)
    | inr (l, e) ↦ rw (e, sym (level-IsBTree s side p v) ∙ e, with_level, OnOk) (v, refl, refl)
  ]

  -- `BTreeStore` keeps the contract of a store: its levels are two ladders, best price first, and
  -- each operation does to them what the trait promises.
  pub btree_store-IsStore : IsStore Key (btree_store Key) IsBTree
  unfolding try_new
  btree_store-IsStore = record {
    sorted = λ s side v. levels-Sorted s side v;
    try_new_lem = λ spec. empty-IsBTree;
    level_lem = level-IsBTree;
    best_level_lem = λ s side v. best_level-IsBTree s side;
    ensure_level_lem = ensure_level-IsBTree;
    put_lem = λ s side m l v e. put-IsBTree s side m v;
    remove_level_lem = remove_level-IsBTree;
  }
