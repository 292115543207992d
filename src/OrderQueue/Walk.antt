-- ===== src/OrderQueue/Walk.antt =====
-- The walks of src/order_queue.rs over the queue as a list: iteration and `remove_client`.
use order_book.Prelude.{
  ℕ, zero, suc, ◌<◌, ◌≡◌, ◌≢◌, refl, sym, ap, ◌∙◌, List, [], ◌∷◌, ◌++◌, Option, none, some, true,
  false, length, arith, map, text_beq, subst, All, Bool-cases, inl, inr, if◌then◌else◌,
}
use order_book.Types.{Order, ClientId, to_maker, ◌>>=◌}
use order_book.OrderQueue.{
  SlotMap, IsSlotMap, Node, LevelQueue, OrderArena, client_loop, remove_client, iter_loop,
  iter_with_keys, collect_makers, remove_key,
}
use order_book.OrderQueue.Chain.{Entries, first, Linked, Apart, Same, IsQueue, Linked-split}
use order_book.OrderQueue.Remove.{remove_key-IsQueue}

module _ (slots : SlotMap) where
  open slots use {Key, key_eq, Arena, get, insert, set, remove}

  append_middle :
      (xs : Entries slots) (e : Key × Order) (ys : Entries slots)
      → (xs ++ e ∷ []) ++ ys ≡ xs ++ e ∷ ys
  append_middle [] e ys = refl
  append_middle (x ∷ xs) e ys = ap (λ zs. x ∷ zs) (append_middle xs e ys)

  drop_middle :
      (P : Key × Order → Type 0) (xs : Entries slots) (e : Key × Order) (ys : Entries slots)
      → All P (xs ++ e ∷ ys)
      → All P (xs ++ ys)
  drop_middle P [] e ys h = h.1
  drop_middle P (x ∷ xs) e ys h = (h.0, drop_middle P xs e ys h.1)

  -- The orders of one client, and those of the others.
  abbrev pub of_client : ClientId → Entries slots → List Order
  of_client client [] = []
  of_client client ((k, o) ∷ es) =
      if text_beq o.client_id client then o ∷ of_client client es else of_client client es

  abbrev pub of_others : ClientId → Entries slots → Entries slots
  of_others client [] = []
  of_others client ((k, o) ∷ es) =
      if text_beq o.client_id client then of_others client es else (k, o) ∷ of_others client es

  iter_loop-Linked :
      (fuel : ℕ) (a : OrderArena slots) (prev : Option Key) (es : Entries slots)
      → Linked slots a prev es none
      → length es < fuel
      → iter_loop slots fuel a (first slots es none) ≡ some es
  unfolding iter_loop
  iter_loop-Linked zero a prev es l h = absurd (omega arith)
  iter_loop-Linked (suc fuel) a prev [] l h = refl
  iter_loop-Linked (suc fuel) a prev ((k, o) ∷ es) l h =
      rw (l.0, iter_loop-Linked fuel a (some k) es l.1 (omega arith)) refl

  -- Iterating over a queue never panics, ends, and yields its entries, oldest first.
  pub iter_with_keys-IsQueue :
      (a : OrderArena slots) (q : LevelQueue Key) (es : Entries slots)
      → IsQueue slots a q es
      → iter_with_keys slots q a ≡ some es
  unfolding iter_with_keys
  iter_with_keys-IsQueue a q es v =
      rw v.head_eq (iter_loop-Linked (suc q.len) a none es v.linked (omega (arith, v.len_eq)))

  -- The makers that the matcher sees stand in the queue's order, each beside the key of its node.
  pub collect_makers-IsQueue :
      (a : OrderArena slots) (q : LevelQueue Key) (es : Entries slots)
      → IsQueue slots a q es
      → collect_makers slots q a ≡ some (map (λ e. to_maker e.1) es, map (λ e. e.0) es)
  unfolding collect_makers
  collect_makers-IsQueue a q es v = rw (iter_with_keys-IsQueue a q es v) refl

  -- One turn of the loop at an order of the client.
  client_loop_own :
      (fuel : ℕ) (a b c : OrderArena slots) (q q' q'' : LevelQueue Key) (client : ClientId)
      (k : Key) (node : Node Key) (removed : List Order)
      → get a k ≡ some node
      → text_beq node.order.client_id client ≡ true
      → remove_key slots q a k ≡ some (q', b, some node.order)
      → client_loop slots fuel q' b client node.next ≡ some (q'', c, removed)
      → client_loop slots (suc fuel) q a client (some k) ≡ some (q'', c, node.order ∷ removed)
  unfolding client_loop
  client_loop_own fuel a b c q q' q'' client k node removed h e er el =
      rw (h, e, er, el, ◌>>=◌) refl

  client_loop_other :
      (fuel : ℕ) (a : OrderArena slots) (q : LevelQueue Key) (client : ClientId) (k : Key)
      (node : Node Key)
      → get a k ≡ some node
      → text_beq node.order.client_id client ≡ false
      → client_loop slots (suc fuel) q a client (some k)
        ≡ client_loop slots fuel q a client node.next
  unfolding client_loop
  client_loop_other fuel a q client k node h e = rw (h, e, ◌>>=◌) refl

  module _ (laws : IsSlotMap slots) where
    -- What the loop returns, once `xs` is behind the cursor and `ys` before it.
    abbrev Cleared :
        OrderArena slots
        → Option (LevelQueue Key × OrderArena slots × List Order)
        → ClientId
        → Entries slots
        → Entries slots
        → Type 0
    Cleared a r client xs ys =
        (q' : LevelQueue Key) × (b : OrderArena slots) × (r ≡ some (q', b, of_client client ys))
        × IsQueue slots b q' (xs ++ of_others client ys)
        × Same slots a b (xs ++ ys)

    client_loop-Cleared :
        (fuel : ℕ) (a : OrderArena slots) (q : LevelQueue Key) (client : ClientId)
        (xs ys : Entries slots)
        → IsQueue slots a q (xs ++ ys)
        → length ys < fuel
        → Cleared a (client_loop slots fuel q a client (first slots ys none)) client xs ys
    unfolding client_loop
    client_loop-Cleared zero a q client xs ys v h = absurd (omega arith)
    client_loop-Cleared (suc fuel) a q client xs [] v h = (q, a, refl, v, λ k n. refl)
    client_loop-Cleared (suc fuel) a q client xs ((k, o) ∷ ys) v h =
        let stands = (Linked-split slots a none xs ((k, o) ∷ ys) none v.linked).1.0 in
        let own : text_beq o.client_id client ≡ true
            → Cleared a (client_loop slots (suc fuel) q a client (some k)) client xs ((k, o) ∷ ys) =
          λ e.
            let (q', b, er, free, v', s) = remove_key-IsQueue slots laws a q xs ys k o v in
            let (q'', c, el, v'', s') =
              client_loop-Cleared fuel b q' client xs ys v' (omega arith) in
            (
              q'',
              c,
              rw e (client_loop_own fuel a b c q q' q'' client k _ _ stands e er el),
              rw e v'',
              λ j n. s' j (drop_middle (λ x. j ≢ x.0) xs (k, o) ys n) ∙ s j n,
            ) in
        let other : text_beq o.client_id client ≡ false
            → Cleared a (client_loop slots (suc fuel) q a client (some k)) client xs ((k, o) ∷ ys) =
          λ e.
            let assoc = append_middle xs (k, o) ys in
            let v' = subst (IsQueue slots a q) (sym assoc) v in
            let (q'', c, el, v'', s') =
              client_loop-Cleared fuel a q client (xs ++ (k, o) ∷ []) ys v' (omega arith) in
            (
              q'',
              c,
              rw e (client_loop_other fuel a q client k _ stands e ∙ el),
              rw e
                  (subst (IsQueue slots c q'') (append_middle xs (k, o) (of_others client ys)) v''),
              λ j n. s' j (subst (Apart slots j) (sym assoc) n),
            ) in
        elim (Bool-cases (text_beq o.client_id client)) [ inl e ↦ own e | inr e ↦ other e ]

    -- Removing a client's orders never panics and ends: it returns them in the queue's order, and
    -- the others stay queued in theirs; the nodes of other queues stay as they were.
    pub remove_client-IsQueue :
        (a : OrderArena slots) (q : LevelQueue Key) (client : ClientId) (es : Entries slots)
        → IsQueue slots a q es
        → (q' : LevelQueue Key) × (b : OrderArena slots) × (remove_client slots q a client
            ≡ some (q', b, of_client client es))
          × IsQueue slots b q' (of_others client es)
          × Same slots a b es
    unfolding remove_client
    remove_client-IsQueue a q client es v =
        subst (λ t. Cleared a (client_loop slots (suc q.len) q a client t) client [] es)
          (sym v.head_eq)
          (client_loop-Cleared (suc q.len) a q client [] es v (omega (arith, v.len_eq)))
