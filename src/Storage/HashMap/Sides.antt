-- ===== src/Storage/HashMap/Sides.antt =====
-- One side of `HashMapStore` of src/storage.rs: a map of levels, sorted, and the heap of its prices.
use order_book.Prelude.{
  ◌≡◌, refl, sym, ap, subst, ◌∙◌, List, [], ◌∷◌, none, some, ◌==◌, map, if◌then◌else◌, map_get,
  map_insert, map_remove, nat_eq, map_get-map_insert, map_get-map_remove, Bool-cases, inl, inr,
  arith, ==→eq,
}
use order_book.Side.{Side}
use order_book.Instrument.{Price}
use order_book.Storage.{BookLevel}
use order_book.Storage.Ladder.{Ladder, find_level, put_level, Sorted, put_level-Sorted}
use order_book.Storage.Ladder.Find.{find_level-put_level}
use order_book.Storage.HashMap.{insert_sorted, sort_levels}
use order_book.Storage.HashMap.Heap.{contains, is_some}

module _ (Key : Type 0) where
  abbrev pub Entries : Type 0
  Entries = List (Price × BookLevel Key)

  -- Each level stands under its price, each price once.
  abbrev IsMap : Entries → Type 0
  IsMap [] = Unit {0}
  IsMap (e ∷ es) = (e.0 ≡ e.1.price) × (map_get e.0 es ≡ none) × IsMap es

  pub map_insert-IsMap :
      (m : BookLevel Key) (es : Entries) → IsMap es → IsMap (map_insert m.price m es)
  unfolding map_insert map_get
  map_insert-IsMap m [] h = (refl, refl, tt)
  map_insert-IsMap m ((j, l) ∷ es) h = elim (Bool-cases (m.price == j)) [
    | inl e ↦ rw e (refl, subst (λ p. map_get p es ≡ none) (sym (==→eq m.price j e)) h.1, h.2)
    | inr e ↦
        rw e
          (h.0, ground (arith, h.1, map_get-map_insert j m.price m es), map_insert-IsMap m es h.2)
  ]

  pub map_remove-IsMap : (p : Price) (es : Entries) → IsMap es → IsMap (map_remove p es)
  unfolding map_remove
  map_remove-IsMap p [] h = tt
  map_remove-IsMap p ((j, l) ∷ es) h = elim (Bool-cases (p == j)) [
    | inl e ↦ rw e (map_remove-IsMap p es h.2)
    | inr e ↦ rw e (h.0, ground (arith, h.1, map_get-map_remove j p es), map_remove-IsMap p es h.2)
  ]

  insert_sorted-put_level :
      (side : Side) (m : BookLevel Key) (ls : Ladder Key)
      → find_level Key m.price ls ≡ none
      → insert_sorted Key side m ls ≡ put_level Key side m ls
  unfolding insert_sorted put_level find_level
  insert_sorted-put_level side m [] h = refl
  insert_sorted-put_level side m (l ∷ ls) h = ground (arith, insert_sorted-put_level side m ls)

  abbrev values : Entries → Ladder Key
  values = map (λ e. e.1)

  insert_sorted-Sorted :
      (side : Side) (m : BookLevel Key) (ls : Ladder Key)
      → Sorted Key side ls
      → find_level Key m.price ls ≡ none
      → Sorted Key side (insert_sorted Key side m ls)
        × ((p : Price)
            → find_level Key p (insert_sorted Key side m ls)
              ≡ (if p == m.price then some m else find_level Key p ls))
  insert_sorted-Sorted side m ls h e =
      let q = insert_sorted-put_level side m ls e in
      (
        subst (Sorted Key side) (sym q) (put_level-Sorted Key side m ls h),
        λ p. ap (find_level Key p) q ∙ find_level-put_level Key side p m ls,
      )

  -- The sorted levels of a map, by what is found in them.
  pub sort_levels-values :
      (side : Side) (es : Entries)
      → IsMap es
      → Sorted Key side (sort_levels Key side (values es))
        × ((p : Price) → find_level Key p (sort_levels Key side (values es)) ≡ map_get p es)
  unfolding sort_levels map_get find_level
  sort_levels-values side [] h = (tt, λ p. refl)
  sort_levels-values side ((j, l) ∷ es) h =
      let (sorted, found) = sort_levels-values side es h.2 in
      let (sorted', found') =
        insert_sorted-Sorted side l (sort_levels Key side (values es)) sorted
          (found l.price ∙ subst (λ p. map_get p es ≡ none) h.0 h.1) in
      (
        sorted',
        λ p.
            subst
              (λ k.
                find_level Key p (sort_levels Key side (values ((j, l) ∷ es)))
                ≡ (if p == k then some l else map_get p es))
              (sym h.0) (found' p ∙ ap (λ o. if p == l.price then some l else o) (found p)),
      )

  -- One side: a map, and a heap of its prices.
  pub record IsSide (es : Entries) (ps : List Price) : Type 0 where
    pub keyed : IsMap es
    pub heap : (p : Price) → contains p ps ≡ is_some (map_get p es)
