-- ===== src/OrderBook/Rest/Grown.antt =====
-- The book that `add_order` of src/orderbook.rs leaves, once the order rests.
use order_book.Prelude.{
  ℕ, ◌<◌, ◌≡◌, ◌⊎◌, inl, inr, refl, sym, ap, ◌∙◌, subst, [], ◌∷◌, ◌++◌, Option, none, some,
  if◌then◌else◌, length, length-append, map_get, map_insert, map_get-map_insert, text_beq,
  text_beq_iff, text_eq, arith, some_inj, Bool-cases,
}
use order_book.Side.{Side}
use order_book.Instrument.{Price}
use order_book.Types.{ExchangeId, Order}
use order_book.OrderQueue.{SlotMap, OrderArena, LevelQueue}
use order_book.OrderQueue.Chain.{Entries, Same, IsQueue}
use order_book.Storage.{BookLevel, OrderBookStore}
use order_book.Storage
use order_book.Storage.Ladder.{IsStore}
use order_book.Storage.Ladder.Place.{is_place, found, put_at, level-price, ensured}
use order_book.OrderBook.{OrderBook, at_level}
use order_book.OrderBook.Reindex.{insert_other, insert_new}
use order_book.OrderBook.Contents.{
  At, At-append, At-left, At-right, Contents, update, Stands, Stands-transfer, IsBook, elsewhere,
  at_place, update_here, update_away, same_address, place_address,
}

module _ (slots : SlotMap) (stores : OrderBookStore slots.Key) (Valid : stores.Store → Type 0)
    (laws : IsStore slots.Key stores Valid) where
  open slots use {Key, get}

  abbrev IsBookOf : OrderBook slots stores → Contents slots → Type 0
  IsBookOf = IsBook slots stores Valid laws

  module _ (b : OrderBook slots stores) (c : Contents slots) (order : Order) (price : Price) where
    abbrev pub stamped : Order
    stamped = record order { arrival = b.next_arrival }

    abbrev pub grown : Key → Contents slots
    grown k = update slots c order.side price (c order.side price ++ (k, stamped) ∷ [])

    abbrev pub level_found : Option (BookLevel Key)
    level_found = found Key stores Valid laws b.store order.side price

    abbrev pub level_joined : BookLevel Key
    level_joined = ensured Key stores Valid laws b.store order.side price

    -- The book once the order rests.
    abbrev pub rested :
        stores.Store
        → ℕ
        → BookLevel Key
        → LevelQueue Key × OrderArena slots × Key
        → OrderBook slots stores
    rested store next level r = record b {
      store = stores.put store order.side price (record level { queue = r.0 });
      nodes = r.1;
      index = map_insert order.exchange_id (at_level order.side price r.2) b.index;
      next_arrival = next;
    }

    module _ (v : IsBookOf b c) (vacant : map_get order.exchange_id b.index ≡ none) where
      At-grown :
          (k j : Key) (o : Order) (s : Side) (p : Price)
          → At slots j o (c s p)
          → At slots j o (grown k s p)
      At-grown k j o s p h = elim (Bool-cases (is_place order.side price s p)) [
        | inr q ↦ rw q h
        | inl q ↦ rw q (
            At-left slots j o (c order.side price) ((k, stamped) ∷ [])
              (subst (At slots j o) (at_place slots c order.side price s p q) h))
      ]

      grown-indexed :
          (k : Key) (id : ExchangeId) (s : Side) (p : Price) (j : Key)
          → map_get id (map_insert order.exchange_id (at_level order.side price k) b.index)
            ≡ some (at_level s p j)
          → (o : Order) × At slots j o (grown k s p) × (o.exchange_id ≡ id)
      grown-indexed k id s p j e = elim (Bool-cases (text_beq id order.exchange_id)) [
        | inl q ↦
            let here : some (at_level order.side price k) ≡ some (at_level s p j) =
              sym (
                rw
                  (map_get-map_insert id order.exchange_id (at_level order.side price k) b.index, q)
                  refl)
              ∙ e in
            let (place, key) = same_address order.side price s p k j (some_inj here) in
            (
              stamped,
              rw place (
                  At-right slots j stamped (c order.side price) ((k, stamped) ∷ [])
                    (inl (ap (λ i. (i, stamped)) key))),
              sym ((text_beq_iff id order.exchange_id).0 q),
            )
        | inr q ↦
            let old : map_get id b.index ≡ some (at_level s p j) =
              sym (
                rw
                  (map_get-map_insert id order.exchange_id (at_level order.side price k) b.index, q)
                  refl)
              ∙ e in
            let (o, h, i) = v.indexed id s p j old in (o, At-grown k j o s p h, i)
      ]

      grown-resting :
          (k : Key) (s : Side) (p : Price) (j : Key) (o : Order)
          → At slots j o (grown k s p)
          → map_get o.exchange_id
              (map_insert order.exchange_id (at_level order.side price k) b.index)
            ≡ some (at_level s p j)
      grown-resting k s p j o h =
          let es = c order.side price ++ (k, stamped) ∷ [] in
          elim (Bool-cases (is_place order.side price s p)) [
            | inr q ↦
                let old = subst (At slots j o) (update_away slots c order.side price es s p q) h in
                insert_other b.index order.exchange_id o.exchange_id (at_level order.side price k)
                  (at_level s p j) vacant (v.resting s p j o old)
            | inl q ↦
                let now = subst (At slots j o) (update_here slots c order.side price es s p q) h in
                elim (At-append slots j o (c order.side price) ((k, stamped) ∷ []) now) [
                  | inl old ↦
                      insert_other b.index order.exchange_id o.exchange_id
                        (at_level order.side price k) (at_level s p j) vacant
                        (v.resting s p j o (
                          subst (At slots j o) (sym (at_place slots c order.side price s p q)) old))
                  | inr (inl new) ↦
                      let key = ap (λ e. e.0) new in
                      let same : stamped ≡ o = ap (λ e. e.1) new in
                      subst
                        (λ (x : Order).
                          map_get x.exchange_id
                            (map_insert order.exchange_id (at_level order.side price k) b.index)
                          ≡ some (at_level s p j))
                        same
                        (insert_new b.index order.exchange_id (at_level order.side price k)
                          ∙ ap some (
                              ap (at_level order.side price) key
                              ∙ place_address order.side price s p j q))
                  | inr (inr none_left) ↦ absurd none_left
                ]
          ]

      grown_short :
          (k : Key) (next : ℕ) (s : Side) (p : Price)
          → b.next_arrival < next
          → length (grown k s p) < next
      grown_short k next s p lt =
          let es = c order.side price ++ (k, stamped) ∷ [] in
          elim (Bool-cases (is_place order.side price s p)) [
            | inr q ↦
                omega (
                  arith,
                  lt,
                  ap length (update_away slots c order.side price es s p q),
                  v.short s p,
                )
            | inl q ↦ omega (
              arith,
              lt,
              ap length (update_here slots c order.side price es s p q),
              length-append (c order.side price) ((k, stamped) ∷ []),
              v.short order.side price,
            )
          ]

      -- The queue that the order joins: the level's, or an empty one.
      pub joined :
          (l : Option (BookLevel Key)) (es : Entries slots)
          → Stands slots stores Valid laws b.nodes l es
          → IsQueue slots b.nodes
              (elim l as (λ l. BookLevel Key) [
                | none ↦ Storage.new price order.side
                | some m ↦ m
              ]).queue
              es
      unfolding Storage.new
      joined none es h = subst (IsQueue slots b.nodes _) (sym h) (record {
        head_eq = refl;
        tail_eq = refl;
        len_eq = refl;
        linked = tt;
        keys = tt;
        fits = omega arith;
      })
      joined (some m) es h = h.1

      pub rested-IsBook :
          (store : stores.Store) (next : ℕ) (q : LevelQueue Key) (nodes : OrderArena slots)
          (k : Key)
          → Valid store
          → ((s : Side) (p : Price)
              → found Key stores Valid laws store s p ≡ (
                  if is_place order.side price s p
                  then some level_joined
                  else found Key stores Valid laws b.store s p))
          → stores.level store order.side price ≡ some level_joined
          → b.next_arrival < next
          → get b.nodes k ≡ none
          → IsQueue slots nodes q (c order.side price ++ (k, stamped) ∷ [])
          → Same slots b.nodes nodes (c order.side price ++ (k, stamped) ∷ [])
          → IsBookOf (rested store next level_joined (q, nodes, k)) (grown k)
      rested-IsBook store next q nodes k valid ensure e lt fresh queued same =
          let es = c order.side price ++ (k, stamped) ∷ [] in
          let m : BookLevel Key = record level_joined { queue = q } in
          let (valid', written) =
            put_at Key stores Valid laws store order.side price m level_joined valid e
              (level-price Key stores Valid laws store order.side price level_joined valid e) in
          let mine : (j : Key) (o : Order)
              → At slots j o es
              → At slots j o (c order.side price) ⊎ (get b.nodes j ≡ none) =
            λ j o h. elim (At-append slots j o (c order.side price) ((k, stamped) ∷ []) h) [
              | inl old ↦ inl old
              | inr (inl new) ↦ inr (ap (get b.nodes) (sym (ap (λ x. x.0) new)) ∙ fresh)
              | inr (inr none_left) ↦ absurd none_left
            ] in
          record {
            valid = valid';
            stands = λ s p. elim (Bool-cases (is_place order.side price s p)) [
              | inl h ↦
                  rw (written s p, h)
                    (omega (arith, length-append (c order.side price) ((k, stamped) ∷ [])), queued)
              | inr h ↦
                  rw (written s p, h, ensure s p, h)
                    (Stands-transfer slots stores Valid laws b.nodes nodes
                      (found Key stores Valid laws b.store s p) (c s p)
                      (elsewhere slots stores Valid laws b c v order.side price nodes es same mine s
                        p h)
                      (v.stands s p))
            ];
            indexed = grown-indexed k;
            resting = grown-resting k;
            short = λ s p. grown_short k next s p lt;
          }
