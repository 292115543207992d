-- ===== src/Matching/Safe/Unlink.antt =====
-- The second pass over the fills in the sweep of src/matching.rs: exhausted makers leave the queue.
use order_book.Prelude.{
  ℕ, zero, suc, ◌<◌, ◌≡◌, ◌⊎◌, inl, inr, refl, sym, ap, ◌∙◌, subst, List, [], ◌∷◌, ◌++◌, Option,
  none, some, true, arith, ok_or, ◌>>=◌, length, All, All-map, get_elem?, map_remove, text_eq,
  Bool-cases, none_not_some, true_not_false,
}
use order_book.Side.{Side}
use order_book.Instrument.{Price}
use order_book.Allocation.{Fill}
use order_book.Types.{ClientId, Order}
use order_book.OrderQueue.{SlotMap, IsSlotMap, Node, LevelQueue, OrderArena, remove_key}
use order_book.OrderQueue.Chain.{Entries, Same}
use order_book.OrderQueue.Remove.{remove_key-IsQueue}
use order_book.Storage.{OrderBookStore}
use order_book.Storage.Ladder.{IsStore}
use order_book.OrderBook.{OrderBook}
use order_book.OrderBook.Returns.{Runs}
use order_book.OrderBook.Contents.{At, At-node, At-split, Apart-intro, Contents}
use order_book.OrderBook.Held.{Held}
use order_book.OrderBook.Held.Remove.{Held-remove}
use order_book.OrderBook.Cancel.Others.{At-remove}
use order_book.Matching.Sweep.{Sweep, exhausted, unlink_exhausted}
use order_book.Matching.Safe.Fills.{InLevel, NoSelfTrade, keys_of, Filling}

module _ (slots : SlotMap) where
  open slots use {Key, get}

  -- The key has an entry, or no node.
  abbrev pub Known : OrderArena slots → Entries slots → Key → Type 0
  Known nodes es k = ((o : Order) × At slots k o es) ⊎ (get nodes k ≡ none)

  keys_of-Known :
      (nodes : OrderArena slots) (ds es : Entries slots)
      → ((k : Key) (o : Order) → At slots k o es → At slots k o ds)
      → All (Known nodes ds) (keys_of slots es)
  keys_of-Known nodes ds [] h = tt
  keys_of-Known nodes ds ((k, o) ∷ es) h =
      (inl (o, h k o (inl refl)), keys_of-Known nodes ds es (λ j x a. h j x (inr a)))

  key_at :
      (P : Key → Type 0) (keys : List Key) (i : ℕ)
      → i < length keys
      → All P keys
      → (k : Key) × (get_elem? keys i ≡ some k) × P k
  key_at P [] i h a = absurd (omega arith)
  key_at P (k ∷ keys) zero h a = (k, refl, a.0)
  key_at P (k ∷ keys) (suc i) h a = key_at P keys i (omega arith) a.1

module _ (slots : SlotMap) (slot_laws : IsSlotMap slots) (stores : OrderBookStore slots.Key)
    (Valid : stores.Store → Type 0) (laws : IsStore slots.Key stores Valid)
    (b : OrderBook slots stores) (c : Contents slots) (side : Side) (price : Price)
    (client : ClientId) where
  open slots use {Key, get}

  -- The sweep while it takes out what is exhausted.
  pub record Unlinking (s : Sweep slots stores) (q : LevelQueue Key) (es : Entries slots)
      (keys : List Key) : Type 0 where
    pub held : Held slots stores Valid laws b c side price s.nodes s.index q es
    pub known : All (Known slots s.nodes es) keys
    pub clean : NoSelfTrade s.trades
    pub store_eq : s.store ≡ b.store
    pub client_eq : s.taker.client_id ≡ client

  pub Filling-Unlinking :
      (s : Sweep slots stores) (q : LevelQueue Key) (es : Entries slots) (keys : List Key)
      → Filling slots slot_laws stores Valid laws b c side price client s q es keys
      → Unlinking s q es keys
  Filling-Unlinking s q es keys v = record {
    held = v.held;
    known =
        subst (All (Known slots s.nodes es)) v.listed
          (keys_of-Known slots s.nodes es es (λ k o h. h));
    clean = v.clean;
    store_eq = v.store_eq;
    client_eq = v.client_eq;
  }

  exhausted-some : (o : Option (Node Key)) → exhausted slots stores o ≡ true → o ≡ none → ⊥
  unfolding exhausted
  exhausted-some none h e = true_not_false (sym h)
  exhausted-some (some node) h e = none_not_some (sym e)

  -- One exhausted maker leaves.
  module _ (s : Sweep slots stores) (q : LevelQueue Key) (keys : List Key) (xs ys : Entries slots)
      (k : Key) (o : Order) (v : Unlinking s q (xs ++ (k, o) ∷ ys) keys) where
    Known-remove :
        (nodes : OrderArena slots)
        → get nodes k ≡ none
        → Same slots s.nodes nodes (xs ++ (k, o) ∷ ys)
        → (j : Key) → Known slots s.nodes (xs ++ (k, o) ∷ ys) j
        → Known slots nodes (xs ++ ys) j
    Known-remove nodes gone same j (inl (x, h)) = elim (At-remove slots k j o x xs ys h) [
      | inl (e, _) ↦ inr (ap (get nodes) (sym e) ∙ gone)
      | inr h' ↦ inl (x, h')
    ]
    Known-remove nodes gone same j (inr dead) = inr (
        same j (
          Apart-intro slots j (xs ++ (k, o) ∷ ys) (λ i x h e.
            let (node, live, _) =
              At-node slots s.nodes none i x (xs ++ (k, o) ∷ ys) none v.held.queue.linked h in
            none_not_some (sym dead ∙ ap (get s.nodes) e ∙ live)))
        ∙ dead)

    pub removed-Unlinking :
        (q' : LevelQueue Key) × (nodes : OrderArena slots) × (remove_key slots q s.nodes k
          ≡ some (q', nodes, some o))
        × Unlinking
            (record s { nodes = nodes; index = map_remove o.exchange_id s.index })
            q'
            (xs ++ ys)
            keys
    removed-Unlinking =
        let (q', nodes, removed, gone, queue, same) =
          remove_key-IsQueue slots slot_laws s.nodes q xs ys k o v.held.queue in
        (
          q',
          nodes,
          removed,
          record {
            held =
                Held-remove slots stores Valid laws b c side price s.nodes nodes s.index q q' xs ys
                  k o v.held queue same;
            known = All-map (Known-remove nodes gone same) keys v.known;
            clean = v.clean;
            store_eq = v.store_eq;
            client_eq = v.client_eq;
          },
        )

  pub unlink_exhausted-Unlinking :
      (keys : List Key) (fills : List Fill) (s : Sweep slots stores) (q : LevelQueue Key)
      (es : Entries slots)
      → InLevel (length keys) fills
      → Unlinking s q es keys
      → Runs
          (λ r. (es' : Entries slots) × Unlinking r.0 r.1 es' keys)
          (unlink_exhausted slots stores s q keys fills)
  unfolding unlink_exhausted
  unlink_exhausted-Unlinking keys [] s q es h v = (es, v)
  unlink_exhausted-Unlinking keys (f ∷ fs) s q es h v =
      let (k, at, known) = key_at slots (Known slots s.nodes es) keys f.order_index h.0 v.known in
      elim (Bool-cases (exhausted slots stores (get s.nodes k))) [
        | inr e ↦ rw (at, e, Runs) (unlink_exhausted-Unlinking keys fs s q es h.1 v)
        | inl e ↦ elim known [
          | inr dead ↦ absurd (exhausted-some (get s.nodes k) e dead)
          | inl (o, here) ↦
              let (xs, ys, split) = At-split slots k o es here in
              let (q', nodes, removed, v') =
                removed-Unlinking s q keys xs ys k o
                  (subst (λ zs. Unlinking s q zs keys) split v) in
              rw (at, e, removed, ok_or, ◌>>=◌, Runs)
                (unlink_exhausted-Unlinking keys fs
                  (record s { nodes = nodes; index = map_remove o.exchange_id s.index }) q'
                  (xs ++ ys) h.1 v')
        ]
      ]
