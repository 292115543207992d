-- ===== src/OrderBook/Reindex.antt =====
-- The index of src/orderbook.rs when a stop is parked or taken: the orders at rest stay as they are.
use order_book.Prelude.{
  ℕ, ◌≡◌, refl, sym, ap, ◌∙◌, Option, none, some, Bool-cases, inl, inr, map_get, map_insert,
  map_remove, map_get-map_insert, map_get-map_remove, text_beq, text_beq_iff, text_eq, some_inj,
  none_not_some,
}
use order_book.Side.{Side}
use order_book.Instrument.{Price}
use order_book.Types.{ExchangeId}
use order_book.OrderQueue.{SlotMap}
use order_book.Storage.{OrderBookStore}
use order_book.Storage.Ladder.{IsStore}
use order_book.OrderBook.{OrderBook, OrderAddress, at_level, at_stop, Stops}
use order_book.OrderBook.Contents.{Contents, IsBook}
use order_book.OrderBook.Held.{Index, not_both}

module _ {Key : Type 0} (index : Index Key) where
  -- Another id stays when one leaves or comes.
  pub remove_other :
      (id i : ExchangeId) (a : OrderAddress Key)
      → (i ≡ id → ⊥)
      → map_get i index ≡ some a
      → map_get i (map_remove id index) ≡ some a
  remove_other id i a n e = elim (Bool-cases (text_beq i id)) [
    | inl t ↦ absurd (n ((text_beq_iff i id).0 t))
    | inr t ↦ rw (map_get-map_remove i id index, t) e
  ]

  pub removed_not :
      (id i : ExchangeId) (a : OrderAddress Key)
      → map_get i (map_remove id index) ≡ some a
      → i ≡ id
      → ⊥
  removed_not id i a e h =
      none_not_some (sym (rw (map_get-map_remove i id index, (text_beq_iff i id).1 h) refl) ∙ e)

  pub remove_back :
      (id i : ExchangeId) (a : OrderAddress Key)
      → map_get i (map_remove id index) ≡ some a
      → map_get i index ≡ some a
  remove_back id i a e = elim (Bool-cases (text_beq i id)) [
    | inl t ↦ absurd (none_not_some (sym (rw (map_get-map_remove i id index, t) refl) ∙ e))
    | inr t ↦ sym (rw (map_get-map_remove i id index, t) refl) ∙ e
  ]

  -- A vacant id takes no other's place.
  pub insert_other :
      (id i : ExchangeId) (x a : OrderAddress Key)
      → map_get id index ≡ none
      → map_get i index ≡ some a
      → map_get i (map_insert id x index) ≡ some a
  insert_other id i x a vacant e = elim (Bool-cases (text_beq i id)) [
    | inl t ↦
        absurd (
          none_not_some
            (sym vacant ∙ ap (λ j. map_get j index) (sym ((text_beq_iff i id).0 t)) ∙ e))
    | inr t ↦ rw (map_get-map_insert i id x index, t) e
  ]

  pub insert_new :
      (id : ExchangeId) (x : OrderAddress Key) → map_get id (map_insert id x index) ≡ some x
  insert_new id x = rw (map_get-map_insert id id x index, (text_beq_iff id id).1 refl) refl

  -- What is in the index besides the address that comes was there before.
  pub insert_back :
      (id i : ExchangeId) (x a : OrderAddress Key)
      → (x ≡ a → ⊥)
      → map_get i (map_insert id x index) ≡ some a
      → map_get i index ≡ some a
  insert_back id i x a other e = elim (Bool-cases (text_beq i id)) [
    | inl t ↦ absurd (other (some_inj (sym (rw (map_get-map_insert i id x index, t) refl) ∙ e)))
    | inr t ↦ sym (rw (map_get-map_insert i id x index, t) refl) ∙ e
  ]

module _ (slots : SlotMap) (stores : OrderBookStore slots.Key) (Valid : stores.Store → Type 0)
    (laws : IsStore slots.Key stores Valid) (b : OrderBook slots stores) (c : Contents slots)
    (v : IsBook slots stores Valid laws b c) (stop_bids stop_asks : Stops)
    (last_trade_price : Option Price) (next_seq : ℕ) where
  open slots use {Key}

  -- The book with these stops, counters and index.
  abbrev pub reindexed : Index Key → OrderBook slots stores
  reindexed index = record b {
    index = index;
    stop_bids = stop_bids;
    stop_asks = stop_asks;
    last_trade_price = last_trade_price;
    next_seq = next_seq;
  }

  pub same_index-IsBook : IsBook slots stores Valid laws (reindexed b.index) c
  same_index-IsBook = record {
    valid = v.valid;
    stands = v.stands;
    indexed = v.indexed;
    resting = v.resting;
    short = v.short;
  }

  -- A pending stop leaves the index.
  pub unparked-IsBook :
      (id : ExchangeId) (side : Side) (trigger : Price)
      → map_get id b.index ≡ some (at_stop side trigger)
      → IsBook slots stores Valid laws (reindexed (map_remove id b.index)) c
  unparked-IsBook id side trigger at = record {
    valid = v.valid;
    stands = v.stands;
    indexed = λ i s p k e. v.indexed i s p k (remove_back b.index id i (at_level s p k) e);
    resting = λ s p k o h.
        let old = v.resting s p k o h in
        remove_other b.index id o.exchange_id (at_level s p k)
          (λ e.
            not_both side trigger s p k
              (some_inj (sym at ∙ ap (λ i. map_get i b.index) (sym e) ∙ old)))
          old;
    short = v.short;
  }

  -- A stop with a vacant id comes into the index.
  pub parked-IsBook :
      (id : ExchangeId) (side : Side) (trigger : Price)
      → map_get id b.index ≡ none
      → IsBook slots stores Valid laws (reindexed (map_insert id (at_stop side trigger) b.index)) c
  parked-IsBook id side trigger vacant = record {
    valid = v.valid;
    stands = v.stands;
    indexed = λ i s p k e. v.indexed i s p k (
        insert_back b.index id i (at_stop side trigger) (at_level s p k)
          (not_both side trigger s p k) e);
    resting = λ s p k o h.
        insert_other b.index id o.exchange_id (at_stop side trigger) (at_level s p k) vacant
          (v.resting s p k o h);
    short = v.short;
  }
