-- ===== src/Matching/Sound/Drops.antt =====
-- `cancel_order` of src/orderbook.rs at a pending stop: the stops that are left are indexed.
use order_book.Prelude.{
  ◌≡◌, sym, ◌∙◌, List, [], ◌∷◌, none, some, arith, All, Bool-cases, Option-cases, List-cases, inl,
  inr, map_get, map_remove, nat_eq, text_eq, text_beq, text_beq_iff, true_not_false, subst,
}
use order_book.Side.{Side}
use order_book.Instrument.{Price}
use order_book.Types.{ExchangeId, Order}
use order_book.OrderBook.{at_stop, Stops, drop_stop, retain_others}
use order_book.OrderBook.Held.{Index}
use order_book.OrderBook.Reindex.{remove_other}
use order_book.Matching.Stops.{IsStops}
use order_book.Matching.Sound.Stops.{
  Distinct, Indexed, IsParked, queue_at, other_queues, insert_others, remove_others,
}

retain-All :
    (P : Order → Type 0) (id : ExchangeId) (q : List Order) → All P q → All P (retain_others id q)
unfolding retain_others
retain-All P id [] h = tt
retain-All P id (o ∷ os) h = elim (Bool-cases (text_beq o.exchange_id id)) [
  | inl t ↦ rw t (retain-All P id os h.1)
  | inr t ↦ rw t (h.0, retain-All P id os h.1)
]

retain-Distinct : (id : ExchangeId) (q : List Order) → Distinct q → Distinct (retain_others id q)
unfolding retain_others
retain-Distinct id [] h = tt
retain-Distinct id (o ∷ os) h = elim (Bool-cases (text_beq o.exchange_id id)) [
  | inl t ↦ rw t (retain-Distinct id os h.1)
  | inr t ↦ rw t (retain-All _ id os h.0, retain-Distinct id os h.1)
]

-- Without an entry at the trigger, all entries are others.
others_suffice :
    (P : Price × List Order → Type 0) (k : Price) (es : Stops)
    → map_get k es ≡ none
    → All (λ f. (f.0 ≡ k → ⊥) → P f) es
    → All P es
unfolding map_get
others_suffice P k [] h a = tt
others_suffice P k ((j, w) ∷ es) h a =
    (a.0 (λ e. ground (arith, h, e)), others_suffice P k es (ground (arith, h)) a.1)

module _ {Key : Type 0} (side : Side) (index : Index Key) (k : Price) (id : ExchangeId)
    (at : map_get id index ≡ some (at_stop side k)) where
  -- The stops that stay under the trigger.
  retained-Indexed :
      (q : List Order)
      → Indexed side index k q
      → Indexed side (map_remove id index) k (retain_others id q)
  unfolding retain_others
  retained-Indexed [] h = tt
  retained-Indexed (o ∷ os) h = elim (Bool-cases (text_beq o.exchange_id id)) [
    | inl t ↦ rw t (retained-Indexed os h.1)
    | inr t ↦ rw t (
      remove_other index id o.exchange_id (at_stop side k)
          (λ e. true_not_false (sym ((text_beq_iff o.exchange_id id).1 e) ∙ t)) h.0,
      retained-Indexed os h.1,
    )
  ]

  pub drop_stop-IsParked :
      (stops : Stops)
      → IsStops stops
      → IsParked side index stops
      → IsParked side (map_remove id index) (drop_stop stops k id)
  unfolding drop_stop
  drop_stop-IsParked stops s v =
      let others = other_queues side index k id at stops v in
      elim (Option-cases (map_get k stops)) [
        | inl e ↦ rw (e, drop_stop) (others_suffice _ k stops e others)
        | inr (q, e) ↦
            let (here, apart, _) = queue_at side index k q stops v e in
            elim (List-cases (retain_others id q)) [
              | inl e' ↦ rw (e, drop_stop, e') (remove_others _ k stops others)
              | inr (o, os, e') ↦
                  rw (e, drop_stop, e')
                    (insert_others _ k (o ∷ os) stops s
                      (
                        subst (Indexed side (map_remove id index) k) e' (retained-Indexed q here),
                        subst Distinct e' (retain-Distinct id q apart),
                        omega arith,
                      )
                      others)
            ]
      ]
