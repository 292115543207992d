-- ===== src/OrderBook/Held/Change.antt =====
-- A book of src/orderbook.rs whose queue is worked on: what has to hold of the work, for the rest of the
-- book to go on agreeing with the queue.
use order_book.Prelude.{
  ◌<◌, ◌≤◌, ◌≡◌, ◌⊎◌, inl, inr, sym, ap, ◌∙◌, subst, Option, none, some, false, length, arith,
  Bool-cases, map_get, text_eq, some_inj, none_not_some, true_not_false,
}
use order_book.Side.{Side}
use order_book.Instrument.{Price}
use order_book.Types.{ExchangeId, Order}
use order_book.OrderQueue.{SlotMap, Node, OrderArena, LevelQueue}
use order_book.OrderQueue.Chain.{Entries, Same, IsQueue}
use order_book.Storage.{BookLevel, OrderBookStore}
use order_book.Storage.Ladder.{IsStore}
use order_book.Storage.Ladder.Place.{is_place, is_place_refl, found}
use order_book.OrderBook.{OrderBook, at_level}
use order_book.OrderBook.Contents.{
  At, At-node, Apart-intro, Contents, update, update_here, update_away, Stands, Stands-transfer,
  same_address, place_address,
}
use order_book.OrderBook.Held.{Index, Parked, not_both, Held}

module _ (slots : SlotMap) (stores : OrderBookStore slots.Key) (Valid : stores.Store → Type 0)
    (laws : IsStore slots.Key stores Valid) (b : OrderBook slots stores) (c : Contents slots)
    (side : Side) (price : Price) where
  open slots use {Key, get}

  module _ (nodes : OrderArena slots) (index : Index Key) (q : LevelQueue Key) (es : Entries slots)
      (v : Held slots stores Valid laws b c side price nodes index q es) where
    rests_here :
        (k : Key) (o : Order)
        → At slots k o es
        → map_get o.exchange_id index ≡ some (at_level side price k)
    rests_here k o h = v.resting side price k o (
        subst (At slots k o)
          (sym (update_here slots c side price es side price (is_place_refl side price))) h)

    rests_away :
        (s : Side) (p : Price) (k : Key) (o : Order)
        → is_place side price s p ≡ false
        → At slots k o (c s p)
        → map_get o.exchange_id index ≡ some (at_level s p k)
    rests_away s p k o away h =
        v.resting s p k o
          (subst (At slots k o) (sym (update_away slots c side price es s p away)) h)

    -- One id has one address.
    not_away :
        (s : Side) (p : Price) (k j : Key) (o x : Order)
        → is_place side price s p ≡ false
        → At slots k o es
        → At slots j x (c s p)
        → o.exchange_id ≡ x.exchange_id
        → ⊥
    not_away s p k j o x away h a e =
        let same : at_level side price k ≡ at_level s p j =
          some_inj
            (sym (rests_here k o h) ∙ ap (λ i. map_get i index) e ∙ rests_away s p j x away a) in
        true_not_false (sym (same_address side price s p k j same).0 ∙ away)

    Stands-live :
        (l : Option (BookLevel Key)) (ds : Entries slots) (k : Key) (o : Order)
        → Stands slots stores Valid laws nodes l ds
        → At slots k o ds
        → (node : Node Key) × (get nodes k ≡ some node) × (node.order ≡ o)
    Stands-live none ds k o h a = absurd (subst (At slots k o) h a)
    Stands-live (some l) ds k o h a = At-node slots nodes none k o ds none h.1.linked a

    -- No key is both here and at another place.
    apart_away :
        (s : Side) (p : Price) (k j : Key) (o x : Order)
        → is_place side price s p ≡ false
        → At slots k o es
        → At slots j x (c s p)
        → j ≡ k
        → ⊥
    apart_away s p k j o x away h a e =
        let (node, live, is) = At-node slots nodes none k o es none v.queue.linked h in
        let (node', live', is') = Stands-live _ (c s p) j x (v.away s p away) a in
        let same : node' ≡ node = some_inj (sym live' ∙ ap (get nodes) e ∙ live) in
        not_away s p k j o x away h a (
          ap (λ (y : Order). y.exchange_id)
            (sym is ∙ sym (ap (λ (n : Node Key). n.order) same) ∙ is'))

    -- The queue is worked on: entries keep their ids, and the ids that leave the index are those of
    -- entries that leave the queue.
    module _ (nodes' : OrderArena slots) (index' : Index Key) (q' : LevelQueue Key)
        (es' : Entries slots) (queue' : IsQueue slots nodes' q' es')
        (same : Same slots nodes nodes' es)
        (back : (k : Key) (o : Order)
          → At slots k o es'
          → (x : Order) × At slots k x es × (x.exchange_id ≡ o.exchange_id))
        (forth : (k : Key) (o : Order)
          → At slots k o es
          → ((x : Order) × At slots k x es' × (x.exchange_id ≡ o.exchange_id))
            ⊎ (map_get o.exchange_id index' ≡ none))
        (ids : (i : ExchangeId)
          → (map_get i index' ≡ map_get i index)
            ⊎ ((map_get i index' ≡ none)
                × ((k : Key) × (o : Order) × At slots k o es
                    × (o.exchange_id ≡ i)
                    × ((x : Order) → At slots k x es' → ⊥))))
        (shorter : length es' ≤ length es) where
      changed-indexed :
          (id : ExchangeId) (s : Side) (p : Price) (k : Key)
          → map_get id index' ≡ some (at_level s p k)
          → (o : Order) × At slots k o (update slots c side price es' s p) × (o.exchange_id ≡ id)
      changed-indexed id s p k e = elim (ids id) [
        | inr (gone, _) ↦ absurd (none_not_some (sym gone ∙ e))
        | inl u ↦
            let (o, h, named) = v.indexed id s p k (sym u ∙ e) in
            elim (Bool-cases (is_place side price s p)) [
              | inr t ↦ (
                o,
                rw t (subst (At slots k o) (update_away slots c side price es s p t) h),
                named,
              )
              | inl t ↦
                  elim (forth k o
                    (subst (At slots k o) (update_here slots c side price es s p t) h)) [
                      | inl (x, h', i) ↦ (x, rw t h', i ∙ named)
                      | inr gone ↦
                          absurd (none_not_some (sym gone ∙ ap (λ j. map_get j index') named ∙ e))
                    ]
            ]
      ]

      changed-resting :
          (s : Side) (p : Price) (k : Key) (o : Order)
          → At slots k o (update slots c side price es' s p)
          → map_get o.exchange_id index' ≡ some (at_level s p k)
      changed-resting s p k o h = elim (Bool-cases (is_place side price s p)) [
        | inl t ↦
            let here = subst (At slots k o) (update_here slots c side price es' s p t) h in
            let (x, old, i) = back k o here in
            let at = rests_here k x old in
            elim (ids o.exchange_id) [
              | inl u ↦
                  u
                  ∙ ap (λ l. map_get l index) (sym i)
                  ∙ at
                  ∙ ap some (place_address side price s p k t)
              | inr (_, (j, y, h', i', gone)) ↦
                  let key : k ≡ j =
                    (same_address side price side price k j (
                      some_inj
                        (sym at ∙ ap (λ l. map_get l index) (i ∙ sym i') ∙ rests_here j y h'))).1 in
                  absurd (gone o (subst (λ l. At slots l o es') key here))
            ]
        | inr t ↦
            let there = subst (At slots k o) (update_away slots c side price es' s p t) h in
            elim (ids o.exchange_id) [
              | inl u ↦ u ∙ rests_away s p k o t there
              | inr (_, (j, y, h', i', _)) ↦ absurd (not_away s p j k y o t h' there i')
            ]
      ]

      changed_short :
          (s : Side) (p : Price) → length (update slots c side price es' s p) < b.next_arrival
      changed_short s p = elim (Bool-cases (is_place side price s p)) [
        | inl t ↦ omega (
          arith,
          ap length (update_here slots c side price es' s p t),
          ap length (update_here slots c side price es s p t),
          v.short s p,
          shorter,
        )
        | inr t ↦ omega (
          arith,
          ap length (update_away slots c side price es' s p t),
          ap length (update_away slots c side price es s p t),
          v.short s p,
        )
      ]

      changed-Parked : Parked b.index index'
      changed-Parked i s p h = elim (ids i) [
        | inl u ↦ u ∙ v.parked.0 i s p h
        | inr (_, (k, o, here, named, _)) ↦ absurd (
            not_both s p side price k (
              some_inj (
                sym (v.parked.0 i s p h)
                ∙ ap (λ l. map_get l index) (sym named)
                ∙ rests_here k o here)))
      ]

      changed_back : Parked index' b.index
      changed_back i s p h = elim (ids i) [
        | inl u ↦ v.parked.1 i s p (sym u ∙ h)
        | inr (gone, _) ↦ absurd (none_not_some (sym gone ∙ h))
      ]

      pub Held-change : Held slots stores Valid laws b c side price nodes' index' q' es'
      Held-change = record {
        queue = queue';
        away = λ s p t.
            Stands-transfer slots stores Valid laws nodes nodes'
              (found Key stores Valid laws b.store s p) (c s p)
              (λ k o a. same k (Apart-intro slots k es (λ j x h e. apart_away s p j k x o t h a e)))
              (v.away s p t);
        indexed = changed-indexed;
        resting = changed-resting;
        short = changed_short;
        parked = (changed-Parked, changed_back);
      }
