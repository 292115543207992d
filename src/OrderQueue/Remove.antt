-- ===== src/OrderQueue/Remove.antt =====
-- `remove_key` of src/order_queue.rs on the queue as a list.
use order_book.Prelude.{
  ℕ, ◌<◌, ◌≡◌, ◌≢◌, refl, sym, ◌∙◌, [], ◌∷◌, ◌++◌, Option, none, some, length, length-append, All,
  All-map, All-append, All-split, arith, u64_mod, sub_u64_lem, sub_u64,
}
use order_book.Types.{Order}
use order_book.OrderQueue.{
  SlotMap, IsSlotMap, LevelQueue, OrderArena, link_next, link_previous, end_after, remove_key,
}
use order_book.OrderQueue.Chain.{
  Entries, first, last, Linked, Apart, Keys, Same, IsQueue, Linked-transfer, Linked-append,
  Linked-split, link_next-Linked, link_previous-Linked, last-append, last-some,
}

module _ (slots : SlotMap) where
  open slots use {Key, key_eq, Arena, get, insert, set, remove}

  -- Two lists of keys with nothing in common.
  abbrev Disjoint : Entries slots → Entries slots → Type 0
  Disjoint xs ys = All (λ e. Apart slots e.0 ys) xs

  Keys-split :
      (xs ys : Entries slots)
      → Keys slots (xs ++ ys)
      → Keys slots xs × Keys slots ys × Disjoint xs ys
  Keys-split [] ys d = (tt, d, tt)
  Keys-split (x ∷ xs) ys d =
      let (a, b, c) = Keys-split xs ys d.1 in
      let (l, r) = All-split (λ e. x.0 ≢ e.0) xs ys d.0 in ((l, a), b, (r, c))

  Keys-append :
      (xs ys : Entries slots)
      → Keys slots xs
      → Keys slots ys
      → Disjoint xs ys
      → Keys slots (xs ++ ys)
  Keys-append [] ys a b c = b
  Keys-append (x ∷ xs) ys a b c = (All-append _ xs ys a.0 c.0, Keys-append xs ys a.1 b c.1)

  -- Seen from the other side.
  Disjoint-flip : (xs ys : Entries slots) → Disjoint xs ys → All (λ y. Apart slots y.0 xs) ys
  Disjoint-flip xs [] d = tt
  Disjoint-flip xs (y ∷ ys) d =
      (All-map (λ x n h. n.0 (sym h)) xs d, Disjoint-flip xs ys (All-map (λ x n. n.1) xs d))

  end_first :
      (xs ys : Entries slots) (o : Key × Order) (h : Option Key)
      → h ≡ first slots (xs ++ o ∷ ys) none
      → end_after slots (last slots xs none) (first slots ys none) h ≡ first slots (xs ++ ys) none
  unfolding end_after
  end_first [] ys o h e = refl
  end_first (x ∷ xs) ys o h e = rw ((last-some slots xs x.0).1) e

  end_last :
      (xs ys : Entries slots) (o : Key × Order) (h : Option Key)
      → h ≡ last slots (xs ++ o ∷ ys) none
      → end_after slots (first slots ys none) (last slots xs none) h ≡ last slots (xs ++ ys) none
  unfolding end_after
  end_last xs [] o h e = sym (last-append slots xs [] none)
  end_last xs (y ∷ ys) o h e =
      e ∙ last-append slots xs (o ∷ y ∷ ys) none ∙ sym (last-append slots xs (y ∷ ys) none)

  removed_len :
      (n : ℕ) (xs ys : Entries slots) (e : Key × Order)
      → n ≡ length (xs ++ e ∷ ys)
      → length (xs ++ e ∷ ys) < u64_mod
      → (sub_u64 n 1 ≡ length (xs ++ ys)) × (length (xs ++ ys) < u64_mod)
  removed_len n xs ys e h room =
      let whole = length-append xs (e ∷ ys) in
      let rest = length-append xs ys in
      let less = sub_u64_lem n 1 (omega (arith, whole)) (omega arith) in
      (omega (arith, whole, rest, less), omega (arith, whole, rest))

  module _ (laws : IsSlotMap slots) where
    remove_other : (a : OrderArena slots) (j k : Key) → k ≢ j → get (remove a j) k ≡ get a k
    remove_other a j k n = ground (arith, laws.get-remove a j k, key_eq.beq_iff k j)

    remove_same : (a : OrderArena slots) (j : Key) → get (remove a j) j ≡ none
    remove_same a j = ground (arith, laws.get-remove a j j, key_eq.beq_iff j j)

    -- Both neighbours of a removed node are relinked to each other.
    relink :
        (a : OrderArena slots) (xs ys : Entries slots) (k : Key) (o : Order)
        → Linked slots a none (xs ++ (k, o) ∷ ys) none
        → Keys slots (xs ++ (k, o) ∷ ys)
        → (b : OrderArena slots) × (c : OrderArena slots) × (link_next slots
              (remove a k)
              (last slots xs none)
              (first slots ys none)
            ≡ some b)
          × (link_previous slots b (first slots ys none) (last slots xs none) ≡ some c)
          × (get c k ≡ none)
          × Linked slots c none (xs ++ ys) none
          × Same slots a c (xs ++ (k, o) ∷ ys)
    relink a xs ys k o l d =
        let (dx, dy, apart) = Keys-split xs ((k, o) ∷ ys) d in
        let (lx, ly) = Linked-split slots a none xs ((k, o) ∷ ys) none l in
        let a' : OrderArena slots = remove a k in
        let lx' : Linked slots a' none xs (some k) =
          Linked-transfer slots a a' none xs (some k)
            (All-map (λ e n. remove_other a k e.0 n.0) xs apart) lx in
        let ly' : Linked slots a' (some k) ys none =
          Linked-transfer slots a a' (some k) ys none
            (All-map (λ e n. remove_other a k e.0 (λ h. n (sym h))) ys dy.0) ly.1 in
        let (b, e, lb, sb) =
          link_next-Linked slots laws a' none xs (some k) (first slots ys none) lx' dx in
        let tails : All (λ y. Apart slots y.0 xs) ys =
          Disjoint-flip xs ys (All-map (λ e n. n.1) xs apart) in
        let lb' : Linked slots b (some k) ys none =
          Linked-transfer slots a' b (some k) ys none (All-map (λ y n. sb y.0 n) ys tails) ly' in
        let (c, e', lc, sc) =
          link_previous-Linked slots laws b (some k) ys none (last slots xs none) lb' dy.1 in
        let lc' : Linked slots c none xs (first slots ys none) =
          Linked-transfer slots b c none xs (first slots ys none)
            (All-map (λ x n. sc x.0 n.1) xs apart) lb in
        let apart_xs : Apart slots k xs = All-map (λ e n h. n.0 (sym h)) xs apart in
        (
          b,
          c,
          e,
          e',
          sc k dy.0 ∙ sb k apart_xs ∙ remove_same a k,
          Linked-append slots c none xs ys none lc' lc,
          λ j h.
              let parts = All-split (λ e. j ≢ e.0) xs ((k, o) ∷ ys) h in
              sc j parts.1.1 ∙ sb j parts.0 ∙ remove_other a k j parts.1.0,
        )

    -- Removing a key of the queue never panics, returns its order, frees its node, and leaves the
    -- other entries in their order; the nodes of other queues stay as they were.
    pub remove_key-IsQueue :
        (a : OrderArena slots) (q : LevelQueue Key) (xs ys : Entries slots) (k : Key) (o : Order)
        → IsQueue slots a q (xs ++ (k, o) ∷ ys)
        → (q' : LevelQueue Key) × (b : OrderArena slots) × (remove_key slots q a k
            ≡ some (q', b, some o))
          × (get b k ≡ none)
          × IsQueue slots b q' (xs ++ ys)
          × Same slots a b (xs ++ (k, o) ∷ ys)
    unfolding remove_key
    remove_key-IsQueue a q xs ys k o v =
        let (b, c, e, e', free, l, s) = relink a xs ys k o v.linked v.keys in
        let stands = (Linked-split slots a none xs ((k, o) ∷ ys) none v.linked).1.0 in
        let (dx, dy, apart) = Keys-split xs ((k, o) ∷ ys) v.keys in
        let (len, room) = removed_len q.len xs ys (k, o) v.len_eq v.fits in
        (
          _,
          c,
          rw (stands, e, e', remove_key) refl,
          free,
          record {
            head_eq = end_first xs ys (k, o) q.head v.head_eq;
            tail_eq = end_last xs ys (k, o) q.tail v.tail_eq;
            len_eq = len;
            linked = l;
            keys = Keys-append xs ys dx dy.1 (All-map (λ x n. n.1) xs apart);
            fits = room;
          },
          s,
        )
