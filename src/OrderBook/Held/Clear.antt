-- ===== src/OrderBook/Held/Clear.antt =====
-- The orders of one client leave a queue of src/orderbook.rs and the index, as the self-trade
-- prevention of src/matching.rs has it.
use order_book.Prelude.{
  ◌≡◌, ◌≤◌, ◌⊎◌, inl, inr, refl, sym, ap, ◌∙◌, subst, List, [], ◌∷◌, none, true, false, arith,
  Bool-cases, map_get, map_remove, map_get-map_remove, text_beq, text_beq_iff, text_eq, length,
  true_not_false,
}
use order_book.Side.{Side}
use order_book.Instrument.{Price}
use order_book.Types.{ExchangeId, ClientId, Order}
use order_book.OrderQueue.{SlotMap, OrderArena, LevelQueue}
use order_book.OrderQueue.Chain.{Entries, Keys, Same, IsQueue}
use order_book.OrderQueue.Walk.{of_client, of_others}
use order_book.Storage.{OrderBookStore}
use order_book.Storage.Ladder.{IsStore}
use order_book.OrderBook.{OrderBook}
use order_book.OrderBook.Contents.{At, Apart-elim, Contents}
use order_book.OrderBook.Held.{Index, Held}
use order_book.OrderBook.Held.Change.{Held-change}

abbrev pub Among : Order → List Order → Type 0
Among o [] = ⊥
Among o (x ∷ xs) = (x ≡ o) ⊎ Among o xs

-- The index less the ids of these orders.
abbrev pub unindex : {Key : Type 0} → List Order → Index Key → Index Key
unindex [] index = index
unindex (o ∷ os) index = unindex os (map_remove o.exchange_id index)

unindex_ids :
    {Key : Type 0} (os : List Order) (index : Index Key) (i : ExchangeId)
    → (map_get i (unindex os index) ≡ map_get i index)
      ⊎ ((map_get i (unindex os index) ≡ none) × ((o : Order) × Among o os × (o.exchange_id ≡ i)))
unindex_ids [] index i = inl refl
unindex_ids (o ∷ os) index i = elim (unindex_ids os (map_remove o.exchange_id index) i) [
  | inr (e, (x, a, n)) ↦ inr (e, (x, inr a, n))
  | inl e ↦ elim (Bool-cases (text_beq i o.exchange_id)) [
    | inl t ↦ inr (
      e ∙ rw (map_get-map_remove i o.exchange_id index, t) refl,
      (o, inl refl, sym ((text_beq_iff i o.exchange_id).0 t)),
    )
    | inr t ↦ inl (e ∙ rw (map_get-map_remove i o.exchange_id index, t) refl)
  ]
]

unindex-none :
    {Key : Type 0} (os : List Order) (index : Index Key) (i : ExchangeId)
    → map_get i index ≡ none
    → map_get i (unindex os index) ≡ none
unindex-none os index i h = elim (unindex_ids os index i) [ inl e ↦ e ∙ h | inr (e, _) ↦ e ]

unindex_gone :
    {Key : Type 0} (os : List Order) (index : Index Key) (o : Order)
    → Among o os
    → map_get o.exchange_id (unindex os index) ≡ none
unindex_gone [] index o a = absurd a
unindex_gone (x ∷ os) index o (inl h) =
    unindex-none os (map_remove x.exchange_id index) o.exchange_id (
      rw
        (
          map_get-map_remove o.exchange_id x.exchange_id index,
          (text_beq_iff o.exchange_id x.exchange_id).1 (ap (λ (y : Order). y.exchange_id) (sym h)),
        )
        refl)
unindex_gone (x ∷ os) index o (inr h) = unindex_gone os (map_remove x.exchange_id index) o h

module _ (slots : SlotMap) where
  open slots use {Key}

  At-same :
      (k : Key) (o x : Order) (es : Entries slots)
      → Keys slots es
      → At slots k o es
      → At slots k x es
      → o ≡ x
  At-same k o x [] d h h' = absurd h
  At-same k o x (e ∷ es) d (inl h) (inl h') = sym (ap (λ y. y.1) h) ∙ ap (λ y. y.1) h'
  At-same k o x (e ∷ es) d (inl h) (inr h') =
      absurd (Apart-elim slots e.0 k x es d.0 h' (ap (λ y. y.0) h))
  At-same k o x (e ∷ es) d (inr h) (inl h') =
      absurd (Apart-elim slots e.0 k o es d.0 h (ap (λ y. y.0) h'))
  At-same k o x (e ∷ es) d (inr h) (inr h') = At-same k o x es d.1 h h'

  others_own :
      (client : ClientId) (j : Key) (x : Order) (es : Entries slots)
      → text_beq x.client_id client ≡ true
      → (of_others slots client ((j, x) ∷ es) ≡ of_others slots client es)
        × (of_client slots client ((j, x) ∷ es) ≡ x ∷ of_client slots client es)
  others_own client j x es t = (rw t refl, rw t refl)

  others_other :
      (client : ClientId) (j : Key) (x : Order) (es : Entries slots)
      → text_beq x.client_id client ≡ false
      → (of_others slots client ((j, x) ∷ es) ≡ (j, x) ∷ of_others slots client es)
        × (of_client slots client ((j, x) ∷ es) ≡ of_client slots client es)
  others_other client j x es t = (rw t refl, rw t refl)

  pub of_others-At :
      (client : ClientId) (k : Key) (o : Order) (es : Entries slots)
      → At slots k o (of_others slots client es)
      → At slots k o es × (text_beq o.client_id client ≡ false)
  of_others-At client k o [] h = absurd h
  of_others-At client k o ((j, x) ∷ es) h = elim (Bool-cases (text_beq x.client_id client)) [
    | inl t ↦
        let (a, e) =
          of_others-At client k o es (subst (At slots k o) (others_own client j x es t).0 h) in
        (inr a, e)
    | inr t ↦ elim (subst (At slots k o) (others_other client j x es t).0 h) [
      | inl e ↦ (inl e, ap (λ (y : Key × Order). text_beq y.1.client_id client) (sym e) ∙ t)
      | inr a ↦ let (a', e) = of_others-At client k o es a in (inr a', e)
    ]
  ]

  of_client-Among :
      (client : ClientId) (o : Order) (es : Entries slots)
      → Among o (of_client slots client es)
      → (k : Key) × At slots k o es × (text_beq o.client_id client ≡ true)
  of_client-Among client o [] h = absurd h
  of_client-Among client o ((j, x) ∷ es) h = elim (Bool-cases (text_beq x.client_id client)) [
    | inr t ↦
        let (k, a, e) =
          of_client-Among client o es (subst (Among o) (others_other client j x es t).1 h) in
        (k, inr a, e)
    | inl t ↦ elim (subst (Among o) (others_own client j x es t).1 h) [
      | inl e ↦
          (j, inl (ap (λ y. (j, y)) e), ap (λ (y : Order). text_beq y.client_id client) (sym e) ∙ t)
      | inr a ↦ let (k, a', e) = of_client-Among client o es a in (k, inr a', e)
    ]
  ]

  sorted_out :
      (client : ClientId) (k : Key) (o : Order) (es : Entries slots)
      → At slots k o es
      → At slots k o (of_others slots client es) ⊎ Among o (of_client slots client es)
  sorted_out client k o [] h = absurd h
  sorted_out client k o ((j, x) ∷ es) h = elim (Bool-cases (text_beq x.client_id client)) [
    | inl t ↦
        rw ((others_own client j x es t).0, (others_own client j x es t).1)
          elim h [
            | inl e ↦ inr (inl (ap (λ y. y.1) e))
            | inr a ↦ elim (sorted_out client k o es a) [ inl l ↦ inl l | inr r ↦ inr (inr r) ]
          ]
    | inr t ↦
        rw ((others_other client j x es t).0, (others_other client j x es t).1)
          elim h [
            | inl e ↦ inl (inl e)
            | inr a ↦ elim (sorted_out client k o es a) [ inl l ↦ inl (inr l) | inr r ↦ inr r ]
          ]
  ]

  of_others-length :
      (client : ClientId) (es : Entries slots) → length (of_others slots client es) ≤ length es
  of_others-length client [] = omega arith
  of_others-length client ((j, x) ∷ es) = ground (arith, of_others-length client es)

module _ (slots : SlotMap) (stores : OrderBookStore slots.Key) (Valid : stores.Store → Type 0)
    (laws : IsStore slots.Key stores Valid) (b : OrderBook slots stores) (c : Contents slots)
    (side : Side) (price : Price) where
  open slots use {Key}

  module _ (nodes nodes' : OrderArena slots) (index : Index Key) (q q' : LevelQueue Key)
      (es : Entries slots) (client : ClientId)
      (v : Held slots stores Valid laws b c side price nodes index q es) where
    cleared_ids :
        (i : ExchangeId)
        → (map_get i (unindex (of_client slots client es) index) ≡ map_get i index)
          ⊎ ((map_get i (unindex (of_client slots client es) index) ≡ none)
              × ((k : Key) × (o : Order) × At slots k o es
                  × (o.exchange_id ≡ i)
                  × ((x : Order) → At slots k x (of_others slots client es) → ⊥)))
    cleared_ids i = elim (unindex_ids (of_client slots client es) index i) [
      | inl e ↦ inl e
      | inr (e, (o, a, n)) ↦
          let (k, h, own) = of_client-Among slots client o es a in
          inr (
            e,
            (
              k,
              o,
              h,
              n,
              λ x h'.
                  let (h'', other) = of_others-At slots client k x es h' in
                  let same : o ≡ x = At-same slots k o x es v.queue.keys h h'' in
                  true_not_false
                    (sym own ∙ ap (λ (y : Order). text_beq y.client_id client) same ∙ other),
            ),
          )
    ]

    -- What is left once the client's orders are gone.
    pub Held-clear :
        IsQueue slots nodes' q' (of_others slots client es)
        → Same slots nodes nodes' es
        → Held slots stores Valid laws b c side price nodes'
            (unindex (of_client slots client es) index)
            q'
            (of_others slots client es)
    Held-clear queue same =
        Held-change slots stores Valid laws b c side price nodes index q es v nodes'
          (unindex (of_client slots client es) index) q' (of_others slots client es) queue same
          (λ k o h. (o, (of_others-At slots client k o es h).0, refl))
          (λ k o h. elim (sorted_out slots client k o es h) [
            | inl kept ↦ inl (o, kept, refl)
            | inr own ↦ inr (unindex_gone (of_client slots client es) index o own)
          ])
          cleared_ids (of_others-length slots client es)
