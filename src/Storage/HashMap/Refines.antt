-- ===== src/Storage/HashMap/Refines.antt =====
-- `HashMapStore` of src/storage.rs keeps the contract of a store.
use order_book.Prelude.{
  ◌≡◌, refl, sym, ap, ◌∙◌, List, [], ◌∷◌, Option, none, some, false, ◌==◌, if◌then◌else◌, map_get,
  map_insert, map_remove, nat_eq, map_get-map_insert, map_get-map_remove, OnOk, Bool-cases,
  Option-cases, inl, inr, arith, true_not_false, ==→eq,
}
use order_book.Side.{Side, ask, bid, opposite}
use order_book.Instrument.{Price}
use order_book.Storage.{BookLevel, OrderBookStore}
use order_book.Storage
use order_book.Storage.Ladder.{
  better, find_level, first_level, put_level, drop_level, Sorted, with_level, IsStore,
  put_level-Sorted, drop_level-Sorted,
}
use order_book.Storage.Ladder.Find.{
  find_level-put_level, find_level-drop_level, find_level-price, Ladder_ext, first_level_lem,
  first_level-none,
}
use order_book.Storage.HashMap.{
  HashMapStore, hash_map_store, side_levels, side_index, sort_levels, try_new, level, put,
  insert_vacant, ensure_level, best_level, remove_level, levels, peek, retain_prices,
}
use order_book.Storage.HashMap.Heap.{contains, is_some, contains-retain_prices, IsTop, peek-IsTop}
use order_book.Storage.HashMap.Sides.{
  Entries, map_insert-IsMap, map_remove-IsMap, sort_levels-values, IsSide,
}

module _ (Key : Type 0) where
  pub record IsHashMap (s : HashMapStore Key) : Type 0 where
    bids : IsSide Key s.bids s.bids_index
    asks : IsSide Key s.asks s.asks_index

  abbrev side-IsSide :
      (s : HashMapStore Key) (side : Side)
      → IsHashMap s
      → IsSide Key (side_levels Key s side) (side_index Key s side)
  side-IsSide s ask v = v.asks
  side-IsSide s bid v = v.bids

  levels-Sorted :
      (s : HashMapStore Key) (side : Side) → IsHashMap s → Sorted Key side (levels Key s side)
  unfolding levels
  levels-Sorted s side v = (sort_levels-values Key side _ (side-IsSide s side v).keyed).0

  level-levels :
      (s : HashMapStore Key) (side : Side) (p : Price)
      → IsHashMap s
      → level Key s side p ≡ find_level Key p (levels Key s side)
  unfolding levels level
  level-levels s side p v = sym ((sort_levels-values Key side _ (side-IsSide s side v).keyed).1 p)

  is_some-none : {A : Type 0} (o : Option A) → is_some o ≡ false → o ≡ none
  is_some-none none h = refl
  is_some-none (some a) h = cc

  heap-level :
      (s : HashMapStore Key) (side : Side) (p : Price)
      → IsHashMap s
      → contains p (side_index Key s side) ≡ is_some (find_level Key p (levels Key s side))
  unfolding level
  heap-level s side p v = (side-IsSide s side v).heap p ∙ ap is_some (level-levels s side p v)

  best_level-top :
      (s : HashMapStore Key) (side : Side) (o : Option Price)
      → IsHashMap s
      → IsTop side (side_index Key s side) o
      → (elim o as (λ o. Option (BookLevel Key)) [
        | none ↦ none
        | some price ↦ level Key s side price
      ])
        ≡ first_level Key (levels Key s side)
  best_level-top s side none v h = sym (
      first_level-none Key (levels Key s side)
        (λ p. is_some-none _ (sym (heap-level s side p v) ∙ h p)))
  best_level-top s side (some q) v h = elim (Option-cases (level Key s side q)) [
    | inl e ↦
        let missing = sym (level-levels s side q v) ∙ e in
        absurd (true_not_false (sym h.0 ∙ heap-level s side q v ∙ ap is_some missing))
    | inr (l, e) ↦
        let found = sym (level-levels s side q v) ∙ e in
        let at : l.price ≡ q = find_level-price Key q (levels Key s side) l found in
        e
        ∙ sym (
            first_level_lem Key side l (levels Key s side) (levels-Sorted s side v)
              (ap (λ p. find_level Key p (levels Key s side)) at ∙ found)
              (λ m f.
                ap (better side m.price) at
                ∙ h.1 m.price (heap-level s side m.price v ∙ ap is_some f)))
  ]

  best_level-levels :
      (s : HashMapStore Key) (side : Side)
      → IsHashMap s
      → best_level Key s side ≡ first_level Key (levels Key s side)
  unfolding best_level level
  best_level-levels s side v =
      best_level-top s side (peek side (side_index Key s side)) v
        (peek-IsTop side (side_index Key s side))

  -- A side after a write.
  map_insert-IsSide :
      (m l : BookLevel Key) (es : Entries Key) (ps : List Price)
      → IsSide Key es ps
      → map_get m.price es ≡ some l
      → IsSide Key (map_insert m.price m es) ps
  map_insert-IsSide m l es ps v e =
      let same : (p : Price)
          → is_some (map_get p es) ≡ is_some (map_get p (map_insert m.price m es)) =
        λ p. elim (Bool-cases (p == m.price)) [
          | inl q ↦ rw (map_get-map_insert p m.price m es, q, ==→eq p m.price q, e) refl
          | inr q ↦ rw (map_get-map_insert p m.price m es, q) refl
        ] in
      record { keyed = map_insert-IsMap Key m es v.keyed; heap = λ p. v.heap p ∙ same p }

  push-IsSide :
      (m : BookLevel Key) (es : Entries Key) (ps : List Price)
      → IsSide Key es ps
      → IsSide Key (map_insert m.price m es) (m.price ∷ ps)
  unfolding contains
  push-IsSide m es ps v = record {
    keyed = map_insert-IsMap Key m es v.keyed;
    heap = λ p. ground (arith, v.heap p, map_get-map_insert p m.price m es);
  }

  map_remove-IsSide :
      (p : Price) (es : Entries Key) (ps : List Price)
      → IsSide Key es ps
      → IsSide Key (map_remove p es) (retain_prices p ps)
  map_remove-IsSide q es ps v = record {
    keyed = map_remove-IsMap Key q es v.keyed;
    heap = λ p. ground (arith, v.heap p, map_get-map_remove p q es, contains-retain_prices p q ps);
  }

  -- The ladder of a side is settled by what is found in its map.
  levels-put_level :
      (s s' : HashMapStore Key) (side : Side) (m : BookLevel Key)
      → IsHashMap s
      → IsHashMap s'
      → ((p : Price) → level Key s' side p ≡ (if p == m.price then some m else level Key s side p))
      → levels Key s' side ≡ put_level Key side m (levels Key s side)
  levels-put_level s s' side m v v' e =
      Ladder_ext Key side (levels Key s' side) (put_level Key side m (levels Key s side))
        (levels-Sorted s' side v')
        (put_level-Sorted Key side m (levels Key s side) (levels-Sorted s side v))
        (λ p.
          sym (level-levels s' side p v')
          ∙ e p
          ∙ ap (λ o. if p == m.price then some m else o) (level-levels s side p v)
          ∙ sym (find_level-put_level Key side p m (levels Key s side)))

  put-IsHashMap :
      (s : HashMapStore Key) (side : Side) (m l : BookLevel Key)
      → IsHashMap s
      → level Key s side m.price ≡ some l
      → IsHashMap (put Key s side m.price m)
        × (levels Key (put Key s side m.price m) side ≡ put_level Key side m (levels Key s side))
        × (levels Key (put Key s side m.price m) (opposite side) ≡ levels Key s (opposite side))
  unfolding put level opposite levels
  put-IsHashMap s ask m l v e =
      let w : IsHashMap (put Key s ask m.price m) = record {
        bids = v.bids;
        asks = map_insert-IsSide m l s.asks s.asks_index v.asks e;
      } in
      (
        w,
        levels-put_level s (put Key s ask m.price m) ask m v w
            (λ p. map_get-map_insert p m.price m s.asks),
        refl,
      )
  put-IsHashMap s bid m l v e =
      let w : IsHashMap (put Key s bid m.price m) = record {
        bids = map_insert-IsSide m l s.bids s.bids_index v.bids e;
        asks = v.asks;
      } in
      (
        w,
        levels-put_level s (put Key s bid m.price m) bid m v w
            (λ p. map_get-map_insert p m.price m s.bids),
        refl,
      )

  insert_vacant-IsHashMap :
      (s : HashMapStore Key) (side : Side) (p : Price)
      → IsHashMap s
      → IsHashMap (insert_vacant Key s side p)
        × (levels Key (insert_vacant Key s side p) side
            ≡ put_level Key side (Storage.new p side) (levels Key s side))
        × (levels Key (insert_vacant Key s side p) (opposite side) ≡ levels Key s (opposite side))
  unfolding insert_vacant level opposite levels Storage.new
  insert_vacant-IsHashMap s ask p v =
      let m : BookLevel Key = Storage.new p ask in
      let w : IsHashMap (insert_vacant Key s ask p) = record {
        bids = v.bids;
        asks = push-IsSide m s.asks s.asks_index v.asks;
      } in
      (
        w,
        levels-put_level s (insert_vacant Key s ask p) ask m v w
            (λ q. map_get-map_insert q p m s.asks),
        refl,
      )
  insert_vacant-IsHashMap s bid p v =
      let m : BookLevel Key = Storage.new p bid in
      let w : IsHashMap (insert_vacant Key s bid p) = record {
        bids = push-IsSide m s.bids s.bids_index v.bids;
        asks = v.asks;
      } in
      (
        w,
        levels-put_level s (insert_vacant Key s bid p) bid m v w
            (λ q. map_get-map_insert q p m s.bids),
        refl,
      )

  levels-drop_level :
      (s s' : HashMapStore Key) (side : Side) (q : Price)
      → IsHashMap s
      → IsHashMap s'
      → ((p : Price) → level Key s' side p ≡ (if p == q then none else level Key s side p))
      → levels Key s' side ≡ drop_level Key q (levels Key s side)
  levels-drop_level s s' side q v v' e =
      Ladder_ext Key side (levels Key s' side) (drop_level Key q (levels Key s side))
        (levels-Sorted s' side v')
        (drop_level-Sorted Key side q (levels Key s side) (levels-Sorted s side v))
        (λ p.
          sym (level-levels s' side p v')
          ∙ e p
          ∙ ap (λ o. if p == q then none else o) (level-levels s side p v)
          ∙ sym (find_level-drop_level Key p q (levels Key s side)))

  remove_level-IsHashMap :
      (s : HashMapStore Key) (side : Side) (p : Price)
      → IsHashMap s
      → IsHashMap (remove_level Key s side p).0
        × (levels Key (remove_level Key s side p).0 side ≡ drop_level Key p (levels Key s side))
        × (levels Key (remove_level Key s side p).0 (opposite side) ≡ levels Key s (opposite side))
        × ((remove_level Key s side p).1 ≡ find_level Key p (levels Key s side))
  unfolding remove_level level opposite levels
  remove_level-IsHashMap s ask p v =
      let w : IsHashMap (remove_level Key s ask p).0 = record {
        bids = v.bids;
        asks = map_remove-IsSide p s.asks s.asks_index v.asks;
      } in
      (
        w,
        levels-drop_level s (remove_level Key s ask p).0 ask p v w
            (λ q. map_get-map_remove q p s.asks),
        refl,
        level-levels s ask p v,
      )
  remove_level-IsHashMap s bid p v =
      let w : IsHashMap (remove_level Key s bid p).0 = record {
        bids = map_remove-IsSide p s.bids s.bids_index v.bids;
        asks = v.asks;
      } in
      (
        w,
        levels-drop_level s (remove_level Key s bid p).0 bid p v w
            (λ q. map_get-map_remove q p s.bids),
        refl,
        level-levels s bid p v,
      )

  ensure_level-IsHashMap :
      (s : HashMapStore Key) (side : Side) (p : Price)
      → IsHashMap s
      → OnOk
          (λ s'.
            IsHashMap s'
            × (levels Key s' side ≡ with_level Key side p (levels Key s side))
            × (levels Key s' (opposite side) ≡ levels Key s (opposite side)))
          (ensure_level Key s side p)
  unfolding ensure_level
  ensure_level-IsHashMap s side p v = elim (Option-cases (level Key s side p)) [
    | inl e ↦
        rw (e, sym (level-levels s side p v) ∙ e, with_level, OnOk)
          (insert_vacant-IsHashMap s side p v)
    | inr (l, e) ↦ rw (e, sym (level-levels s side p v) ∙ e, with_level, OnOk) (v, refl, refl)
  ]

  empty-IsHashMap :
      IsHashMap (record { bids = []; asks = []; bids_index = []; asks_index = [] })
      × ((side : Side)
          → levels Key (record { bids = []; asks = []; bids_index = []; asks_index = [] }) side
            ≡ [])
  unfolding levels sort_levels contains map_get
  empty-IsHashMap =
      let none_held : IsSide Key [] [] = record { keyed = tt; heap = λ p. refl } in
      (
        record { bids = none_held; asks = none_held },
        λ side.
            elim side
              as (λ d.
                levels Key (record { bids = []; asks = []; bids_index = []; asks_index = [] }) d
                ≡ []) [ ask ↦ refl | bid ↦ refl ],
      )

  -- `HashMapStore` keeps the contract of a store: the heap's top is the best price, each operation
  -- does to the sorted levels what the trait promises.
  pub hash_map_store-IsStore : IsStore Key (hash_map_store Key) IsHashMap
  unfolding try_new
  hash_map_store-IsStore = record {
    sorted = levels-Sorted;
    try_new_lem = λ spec. empty-IsHashMap;
    level_lem = level-levels;
    best_level_lem = best_level-levels;
    ensure_level_lem = ensure_level-IsHashMap;
    put_lem = put-IsHashMap;
    remove_level_lem = remove_level-IsHashMap;
  }
