-- ===== src/OrderBook/Held.antt =====
-- A book of src/orderbook.rs while one level's queue is worked on apart from the store, as `cancel_order`
-- and the sweep of src/matching.rs do.
pub mod Change
pub mod Clear
pub mod Remove
pub mod Revise
use order_book.Prelude.{
  ℕ, ◌<◌, ◌≤◌, ◌≡◌, ◌⊎◌, inl, inr, refl, sym, ap, ◌∙◌, subst, List, Option, none, some, true, false,
  ◌==◌, if◌then◌else◌, length, arith, Bool-cases, map_get, text_eq, some_inj, none_not_some,
  true_not_false,
}
use order_book.Side.{Side}
use order_book.Instrument.{Price}
use order_book.Types.{ExchangeId, Order}
use order_book.OrderQueue.{SlotMap, Node, OrderArena, LevelQueue}
use order_book.OrderQueue.Chain.{Entries, Same, IsQueue}
use order_book.Storage.{BookLevel, OrderBookStore}
use order_book.Storage.Ladder.{IsStore}
use order_book.Storage.Ladder.Place.{
  is_place, is_place_refl, found, put_at, level-price, remove_place,
}
use order_book.OrderBook.{OrderBook, OrderAddress, at_level, at_stop}
use order_book.OrderBook.Contents.{
  At, At-node, Apart-intro, Contents, update, update_here, update_away, at_place, Stands,
  Stands-transfer, IsBook, same_address, place_address,
}
use order_book.OrderBook.Cancel.Others.{no_entries}

abbrev pub Index : Type 0 → Type 0
Index Key = List (ExchangeId × OrderAddress Key)

-- The pending stops of one index are in the other.
abbrev pub Parked : {Key : Type 0} → Index Key → Index Key → Type 0
Parked index index' =
    (i : ExchangeId) (s : Side) (p : Price)
    → map_get i index ≡ some (at_stop s p)
    → map_get i index' ≡ some (at_stop s p)

-- The pending stops of either index are those of the other.
abbrev pub SameStops : {Key : Type 0} → Index Key → Index Key → Type 0
SameStops index index' = Parked index index' × Parked index' index

pub SameStops-refl : {Key : Type 0} (index : Index Key) → SameStops index index
SameStops-refl index = (λ i s p h. h, λ i s p h. h)

pub SameStops-trans :
    {Key : Type 0} (a b c : Index Key) → SameStops a b → SameStops b c → SameStops a c
SameStops-trans a b c h k = (λ i s p e. k.0 i s p (h.0 i s p e), λ i s p e. h.1 i s p (k.1 i s p e))

pub not_both :
    {Key : Type 0} (side : Side) (trigger : Price) (s : Side) (p : Price) (k : Key)
    → at_stop side trigger ≡ at_level s p k
    → ⊥
not_both side trigger s p k h = cc

-- What matching and resting leave alone.
abbrev pub Beside :
    (slots : SlotMap) (stores : OrderBookStore slots.Key)
    → OrderBook slots stores
    → OrderBook slots stores
    → Type 0
Beside slots stores b b' =
    (b'.matcher ≡ b.matcher) × (b'.stop_bids ≡ b.stop_bids) × (b'.stop_asks ≡ b.stop_asks)

module _ (slots : SlotMap) (stores : OrderBookStore slots.Key) (Valid : stores.Store → Type 0)
    (laws : IsStore slots.Key stores Valid) where
  open slots use {Key, get}

  module _ (b : OrderBook slots stores) (c : Contents slots) (side : Side) (price : Price) where
    -- The queue of this side and price holds these entries, whatever the store says of it, and the
    -- rest of the book agrees with them.
    pub record Held (nodes : OrderArena slots) (index : Index Key) (q : LevelQueue Key)
        (es : Entries slots) : Type 0 where
      pub queue : IsQueue slots nodes q es
      pub away :
          (s : Side) (p : Price)
          → is_place side price s p ≡ false
          → Stands slots stores Valid laws nodes (found Key stores Valid laws b.store s p) (c s p)
      pub indexed :
          (id : ExchangeId) (s : Side) (p : Price) (k : Key)
          → map_get id index ≡ some (at_level s p k)
          → (o : Order) × At slots k o (update slots c side price es s p) × (o.exchange_id ≡ id)
      pub resting :
          (s : Side) (p : Price) (k : Key) (o : Order)
          → At slots k o (update slots c side price es s p)
          → map_get o.exchange_id index ≡ some (at_level s p k)
      pub short :
          (s : Side) (p : Price) → length (update slots c side price es s p) < b.next_arrival
      pub parked : SameStops b.index index

    update_same : (s : Side) (p : Price) → update slots c side price (c side price) s p ≡ c s p
    update_same s p = elim (Bool-cases (is_place side price s p)) [
      | inl t ↦
          update_here slots c side price (c side price) s p t
          ∙ sym (at_place slots c side price s p t)
      | inr t ↦ update_away slots c side price (c side price) s p t
    ]

    -- A level of the store can be worked on.
    pub IsBook-Held :
        (l : BookLevel Key)
        → IsBook slots stores Valid laws b c
        → found Key stores Valid laws b.store side price ≡ some l
        → Held b.nodes b.index l.queue (c side price)
    IsBook-Held l v e = record {
      queue =
          (subst (λ o. Stands slots stores Valid laws b.nodes o (c side price)) e
            (v.stands side price)).1;
      away = λ s p t. v.stands s p;
      indexed = λ id s p k i.
          let (o, h, named) = v.indexed id s p k i in
          (o, subst (At slots k o) (sym (update_same s p)) h, named);
      resting = λ s p k o h. v.resting s p k o (subst (At slots k o) (update_same s p) h);
      short = λ s p. omega (arith, ap length (update_same s p), v.short s p);
      parked = SameStops-refl b.index;
    }

    -- The book once the level's queue is written back, or the level removed when it is empty.
    abbrev pub written_back :
        BookLevel Key → OrderArena slots → Index Key → LevelQueue Key → OrderBook slots stores
    written_back l nodes index q =
        let store = stores.put b.store side price (record l { queue = q }) in
        record b {
          store = if q.len == 0 then (stores.remove_level store side price).0 else store;
          nodes = nodes;
          index = index;
        }

    pub written_back-IsBook :
        (l : BookLevel Key) (nodes : OrderArena slots) (index : Index Key) (q : LevelQueue Key)
        (es : Entries slots)
        → Valid b.store
        → found Key stores Valid laws b.store side price ≡ some l
        → Held nodes index q es
        → IsBook slots stores Valid laws
            (written_back l nodes index q)
            (update slots c side price es)
    written_back-IsBook l nodes index q es valid e v =
        let level_eq = laws.level_lem b.store side price valid ∙ e in
        let (valid', written) =
          put_at Key stores Valid laws b.store side price (record l { queue = q }) l valid level_eq
            (level-price Key stores Valid laws b.store side price l valid level_eq) in
        elim (Bool-cases (q.len == 0)) [
          | inl z ↦ rw z (record {
            valid =
                (laws.remove_level_lem (stores.put b.store side price (record l { queue = q })) side
                  price valid').0;
            stands = λ s p. elim (Bool-cases (is_place side price s p)) [
              | inl h ↦
                  rw (remove_place Key stores Valid laws _ side s price p valid', h)
                    (no_entries slots es (ground (arith, v.queue.len_eq)))
              | inr h ↦
                  rw (remove_place Key stores Valid laws _ side s price p valid', h, written s p, h)
                    (v.away s p h)
            ];
            indexed = v.indexed;
            resting = v.resting;
            short = v.short;
          })
          | inr z ↦ rw z (record {
            valid = valid';
            stands = λ s p. elim (Bool-cases (is_place side price s p)) [
              | inl h ↦ rw (written s p, h) (ground (arith, v.queue.len_eq), v.queue)
              | inr h ↦ rw (written s p, h) (v.away s p h)
            ];
            indexed = v.indexed;
            resting = v.resting;
            short = v.short;
          })
        ]
