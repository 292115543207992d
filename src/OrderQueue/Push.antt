-- ===== src/OrderQueue/Push.antt =====
-- `push_back` of src/order_queue.rs on the queue as a list.
use order_book.Prelude.{
  ℕ, suc, ◌<◌, ◌≡◌, ◌≢◌, refl, sym, ap, ◌∙◌, [], ◌∷◌, ◌++◌, Option, none, some, length,
  length-append, All-map, All-append, All-split, arith, u64_mod, add_u64_lem, add_u64,
}
use order_book.Types.{Order}
use order_book.OrderQueue.{
  SlotMap, IsSlotMap, Node, LevelQueue, OrderArena, link_next, end_after, push_back,
}
use order_book.OrderQueue.Chain.{
  Entries, first, last, Linked, Apart, Keys, Same, IsQueue, Linked-transfer, Linked-append,
  link_next-Linked, last-append, last-some,
}

module _ (slots : SlotMap) where
  open slots use {Key, key_eq, Arena, get, insert, set, remove}

  live_apart :
      (a : OrderArena slots) (k j : Key) (n : Node Key) → get a k ≡ none → get a j ≡ some n → k ≢ j
  live_apart a k j n h l e = cc

  -- A key that is not live is apart from linked entries.
  Linked-live :
      (a : OrderArena slots) (prev : Option Key) (es : Entries slots) (next : Option Key) (k : Key)
      → get a k ≡ none
      → Linked slots a prev es next
      → Apart slots k es
  Linked-live a prev [] next k h l = tt
  Linked-live a prev ((j, o) ∷ es) next k h l =
      (live_apart a k j _ h l.0, Linked-live a (some j) es next k h l.1)

  pub Keys-snoc :
      (es : Entries slots) (k : Key) (o : Order)
      → Apart slots k es
      → Keys slots es
      → Keys slots (es ++ (k, o) ∷ [])
  Keys-snoc [] k o h d = (tt, tt)
  Keys-snoc (e ∷ es) k o h d =
      (All-append _ es ((k, o) ∷ []) d.0 ((λ p. h.0 (sym p)), tt), Keys-snoc es k o h.1 d.1)

  pub head_after_push :
      (es : Entries slots) (k : Key) (o : Order) (h : Option Key)
      → h ≡ first slots es none
      → end_after slots (last slots es none) (some k) h ≡ first slots (es ++ (k, o) ∷ []) none
  unfolding end_after
  head_after_push [] k o h e = refl
  head_after_push (x ∷ es) k o h e = rw ((last-some slots es x.0).1) e

  pushed_len :
      (n : ℕ) (es : Entries slots) (e : Key × Order)
      → n ≡ length es
      → suc (length es) < u64_mod
      → add_u64 n 1 ≡ length (es ++ e ∷ [])
  pushed_len n es e h room = omega (arith, length-append es (e ∷ []), add_u64_lem n 1 (omega arith))

  module _ (laws : IsSlotMap slots) where
    insert_other :
        (a : OrderArena slots) (v : Node Key) (k : Key)
        → k ≢ (insert a v).1
        → get (insert a v).0 k ≡ get a k
    insert_other a v k n = ground (arith, laws.get-insert a v k, key_eq.beq_iff k (insert a v).1)

    insert_same : (a : OrderArena slots) (v : Node Key) → get (insert a v).0 (insert a v).1 ≡ some v
    insert_same a v =
        ground
          (arith, laws.get-insert a v (insert a v).1, key_eq.beq_iff (insert a v).1 (insert a v).1)

    -- A queue that is not full takes an order at its back, never panics, and gives it a key that was
    -- not live; the nodes of other queues stay as they were.
    pub push_back-IsQueue :
        (a : OrderArena slots) (q : LevelQueue Key) (es : Entries slots) (order : Order)
        → IsQueue slots a q es
        → suc (length es) < u64_mod
        → (q' : LevelQueue Key) × (b : OrderArena slots) × (k : Key) × (push_back slots q a order
            ≡ some (q', b, k))
          × (get a k ≡ none)
          × IsQueue slots b q' (es ++ (k, order) ∷ [])
          × Same slots a b (es ++ (k, order) ∷ [])
    unfolding push_back
    push_back-IsQueue a q es order v room =
        let node : Node Key = record { order = order; previous = q.tail; next = none } in
        let a' : OrderArena slots = (insert a node).0 in
        let k : Key = (insert a node).1 in
        let fresh : get a k ≡ none = laws.insert_fresh a node in
        let apart : Apart slots k es = Linked-live a none es none k fresh v.linked in
        let moved : Linked slots a' none es none =
          Linked-transfer slots a a' none es none
            (All-map (λ e n. insert_other a node e.0 (λ h. n (sym h))) es apart) v.linked in
        let (b, e, l, s) = link_next-Linked slots laws a' none es none (some k) moved v.keys in
        let stands : get b k
            ≡ some (record { order = order; previous = last slots es none; next = none }) =
          s k apart
          ∙ insert_same a node
          ∙ ap (λ t. some (record { order = order; previous = t; next = none })) v.tail_eq in
        let linked : link_next slots a' q.tail (some k) ≡ some b =
          ap (λ t. link_next slots a' t (some k)) v.tail_eq ∙ e in
        (
          _,
          b,
          k,
          rw linked refl,
          fresh,
          record {
            head_eq =
                ap (λ t. end_after slots t (some k) q.head) v.tail_eq
                ∙ head_after_push es k order q.head v.head_eq;
            tail_eq = sym (last-append slots es ((k, order) ∷ []) none);
            len_eq = pushed_len q.len es (k, order) v.len_eq room;
            linked = Linked-append slots b none es ((k, order) ∷ []) none l (stands, tt);
            keys = Keys-snoc es k order apart v.keys;
            fits = omega (arith, length-append es ((k, order) ∷ []));
          },
          λ j h.
              let parts = All-split (λ e. j ≢ e.0) es ((k, order) ∷ []) h in
              s j parts.0 ∙ insert_other a node j parts.1.0,
        )
