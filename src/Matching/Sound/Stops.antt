-- ===== src/Matching/Sound/Stops.antt =====
-- The stop books of src/matching.rs beside the index: every pending stop is indexed under its side and
-- trigger, once.
use order_book.Prelude.{
  ◌<◌, ◌≤◌, ◌≡◌, refl, sym, ap, ◌∙◌, subst, List, [], ◌∷◌, ◌++◌, none, some, arith, length,
  length-append, ltb, ◌==◌, All, All-map, All-append, Bool-cases, Option-cases, inl, inr, map_get,
  map_insert, map_remove, nat_eq, text_eq, tree_insert, some_inj, none_not_some, ==→eq,
}
use order_book.Side.{Side}
use order_book.Instrument.{Price}
use order_book.Types.{ExchangeId, Order}
use order_book.OrderBook.{at_stop, Stops}
use order_book.OrderBook.Returns.{Runs}
use order_book.OrderBook.Contents.{address_place}
use order_book.OrderBook.Held.{Index, Parked}
use order_book.OrderBook.Reindex.{remove_other, insert_other, insert_new}
use order_book.Matching.Engine.{take_stop, push_stop}
use order_book.Matching.Stops.{IsStops, insert-All}

-- The ids differ.
abbrev pub Distinct : List Order → Type 0
Distinct [] = Unit {0}
Distinct (o ∷ os) = All (λ (x : Order). x.exchange_id ≡ o.exchange_id → ⊥) os × Distinct os

Distinct-snoc :
    (os : List Order) (o : Order)
    → Distinct os
    → All (λ (x : Order). o.exchange_id ≡ x.exchange_id → ⊥) os
    → Distinct (os ++ o ∷ [])
Distinct-snoc [] o d h = (tt, tt)
Distinct-snoc (x ∷ os) o d h = (All-append _ os (o ∷ []) d.0 (h.0, tt), Distinct-snoc os o d.1 h.1)

-- Behind a trigger that is not less than this one.
behind :
    (P : Price × List Order → Type 0) (k j : Price) (es : Stops)
    → k ≤ j
    → All (λ (f : Price × List Order). j < f.0) es
    → All (λ f. (f.0 ≡ k → ⊥) → P f) es
    → All P es
behind P k j [] le s h = tt
behind P k j (f ∷ es) le s h = (h.0 (λ e. omega (arith, e, s.0)), behind P k j es le s.1 h.1)

-- All but the entry of this trigger, which is replaced.
pub insert_others :
    (P : Price × List Order → Type 0) (k : Price) (q : List Order) (es : Stops)
    → IsStops es
    → P (k, q)
    → All (λ f. (f.0 ≡ k → ⊥) → P f) es
    → All P (tree_insert ltb k q es)
unfolding tree_insert
insert_others P k q [] s p h = (p, tt)
insert_others P k q ((j, w) ∷ es) s p h = elim (Bool-cases (k == j)) [
  | inl t ↦ rw t (p, behind P k j es (ground (arith, t)) s.0 h.1)
  | inr t ↦ elim (Bool-cases (ltb k j)) [
    | inl t' ↦
        rw (t, t')
          (p, (h.0 (λ e. ground (arith, t, e)), behind P k j es (ground (arith, t')) s.0 h.1))
    | inr t' ↦ rw (t, t') (h.0 (λ e. ground (arith, t, e)), insert_others P k q es s.1 p h.1)
  ]
]

-- All but the entry of this trigger, which is removed.
pub remove_others :
    (P : Price × List Order → Type 0) (k : Price) (es : Stops)
    → All (λ f. (f.0 ≡ k → ⊥) → P f) es
    → All P (map_remove k es)
unfolding map_remove
remove_others P k [] h = tt
remove_others P k ((j, w) ∷ es) h = elim (Bool-cases (k == j)) [
  | inl t ↦ rw t (remove_others P k es h.1)
  | inr t ↦ rw t (h.0 (λ e. ground (arith, t, e)), remove_others P k es h.1)
]

module _ {Key : Type 0} (side : Side) where
  abbrev pub Indexed : Index Key → Price → List Order → Type 0
  Indexed index trigger =
      All (λ (o : Order). map_get o.exchange_id index ≡ some (at_stop side trigger))

  -- A queue of stops, which is never empty.
  abbrev pub IsQueueOf : Index Key → Price × List Order → Type 0
  IsQueueOf index e = Indexed index e.0 e.1 × Distinct e.1 × (0 < length e.1)

  abbrev pub IsParked : Index Key → Stops → Type 0
  IsParked index = All (IsQueueOf index)

  pub IsParked-keep :
      (index index' : Index Key) (stops : Stops)
      → Parked index index'
      → IsParked index stops
      → IsParked index' stops
  IsParked-keep index index' stops keep =
      All-map
        (λ e (at, apart, some_left).
          (All-map (λ (o : Order) h. keep o.exchange_id side e.0 h) e.1 at, apart, some_left))
        stops

  -- The queue under a trigger.
  pub queue_at :
      (index : Index Key) (trigger : Price) (q : List Order) (stops : Stops)
      → IsParked index stops
      → map_get trigger stops ≡ some q
      → IsQueueOf index (trigger, q)
  unfolding map_get
  queue_at index trigger q [] v h = absurd (none_not_some h)
  queue_at index trigger q ((k, w) ∷ es) v h = elim (Bool-cases (trigger == k)) [
    | inl t ↦
        let same : w ≡ q = some_inj (sym (rw t refl) ∙ h) in
        subst (λ x. IsQueueOf index (x, q)) (sym (==→eq trigger k t))
          (subst (λ x. IsQueueOf index (k, x)) same v.0)
    | inr t ↦ queue_at index trigger q es v.1 (sym (rw t refl) ∙ h)
  ]

  vacant-All :
      (index : Index Key) (trigger : Price) (o : Order) (q : List Order)
      → map_get o.exchange_id index ≡ none
      → Indexed index trigger q
      → All (λ (x : Order). o.exchange_id ≡ x.exchange_id → ⊥) q
  vacant-All index trigger o [] vacant h = tt
  vacant-All index trigger o (x ∷ q) vacant h = (
    λ f. none_not_some (sym vacant ∙ ap (λ i. map_get i index) f ∙ h.0),
    vacant-All index trigger o q vacant h.1,
  )

  -- A stop with a vacant id is parked last under its trigger.
  pub push_stop-IsParked :
      (index : Index Key) (stops : Stops) (trigger : Price) (o : Order)
      → map_get o.exchange_id index ≡ none
      → IsParked index stops
      → IsParked (map_insert o.exchange_id (at_stop side trigger) index) (push_stop stops trigger o)
  unfolding push_stop
  push_stop-IsParked index stops trigger o vacant v =
      let index' = map_insert o.exchange_id (at_stop side trigger) index in
      let keep : Parked index index' = λ i d p h.
        insert_other index o.exchange_id i (at_stop side trigger) (at_stop d p) vacant h in
      let v' = IsParked-keep index index' stops keep v in
      let new = insert_new index o.exchange_id (at_stop side trigger) in
      elim (Option-cases (map_get trigger stops)) [
        | inl e ↦
            rw (e, push_stop)
              (insert-All (IsQueueOf index') trigger (o ∷ []) stops
                ((new, tt), (tt, tt), omega arith) v')
        | inr (q, e) ↦
            let (at, apart, _) = queue_at index trigger q stops v e in
            let (at', _, some_left) = queue_at index' trigger q stops v' e in
            rw (e, push_stop)
              (insert-All (IsQueueOf index') trigger (q ++ o ∷ []) stops
                (
                  All-append _ q (o ∷ []) at' (new, tt),
                  Distinct-snoc q o apart (vacant-All index trigger o q vacant at),
                  omega (arith, length-append q (o ∷ [])),
                )
                v')
      ]

  module _ (index : Index Key) (k : Price) (id : ExchangeId)
      (at : map_get id index ≡ some (at_stop side k)) where
    abbrev pub without : Index Key
    without = map_remove id index

    other_ids :
        (q : List Order)
        → Indexed index k q
        → All (λ (x : Order). x.exchange_id ≡ id → ⊥) q
        → Indexed without k q
    other_ids [] h n = tt
    other_ids (x ∷ q) h n =
        (remove_other index id x.exchange_id (at_stop side k) n.0 h.0, other_ids q h.1 n.1)

    other_trigger :
        (j : Price) (q : List Order) → (j ≡ k → ⊥) → Indexed index j q → Indexed without j q
    other_trigger j [] n h = tt
    other_trigger j (x ∷ q) n h = (
      remove_other index id x.exchange_id (at_stop side j)
          (λ e.
            n (
              ap (λ a. (address_place a).1)
                (some_inj (sym h.0 ∙ ap (λ i. map_get i index) e ∙ at))))
          h.0,
      other_trigger j q n h.1,
    )

    pub other_queues :
        (es : Stops) → IsParked index es → All (λ f. (f.0 ≡ k → ⊥) → IsQueueOf without f) es
    other_queues [] h = tt
    other_queues (f ∷ es) h =
        (λ n. (other_trigger f.0 f.1 n h.0.0, h.0.1, h.0.2), other_queues es h.1)

  -- The oldest stop under a trigger is taken, and leaves the index.
  pub take_stop-IsParked :
      (index : Index Key) (stops : Stops) (e : Price × List Order)
      → IsStops stops
      → IsParked index stops
      → map_get e.0 stops ≡ some e.1
      → Runs
          (λ r.
            IsParked (map_remove r.1.exchange_id index) r.0
            × (map_get r.1.exchange_id index ≡ some (at_stop side e.0)))
          (take_stop stops e)
  unfolding take_stop
  take_stop-IsParked index stops (k, []) s v h =
      absurd (omega (arith, (queue_at index k [] stops v h).2))
  take_stop-IsParked index stops (k, o ∷ []) s v h =
      let (at, _, _) = queue_at index k (o ∷ []) stops v h in
      (remove_others _ k stops (other_queues index k o.exchange_id at.0 stops v), at.0)
  take_stop-IsParked index stops (k, o ∷ p ∷ ps) s v h =
      let (at, apart, _) = queue_at index k (o ∷ p ∷ ps) stops v h in
      (
        insert_others _ k (p ∷ ps) stops s
            (other_ids index k o.exchange_id at.0 (p ∷ ps) at.1 apart.0, apart.1, omega arith)
            (other_queues index k o.exchange_id at.0 stops v),
        at.0,
      )

  -- What is parked on one side stays when a stop of the other side leaves the index.
  pub other_side-IsParked :
      (d : Side) (index : Index Key) (k : Price) (id : ExchangeId) (stops : Stops)
      → (side ≡ d → ⊥)
      → map_get id index ≡ some (at_stop d k)
      → IsParked index stops
      → IsParked (map_remove id index) stops
  other_side-IsParked d index k id stops apart at =
      All-map
        (λ e (here, distinct, some_left). (
          All-map
              (λ (x : Order) h.
                remove_other index id x.exchange_id (at_stop side e.0)
                  (λ f. apart (
                    ap (λ a. (address_place a).0)
                      (some_inj (sym h ∙ ap (λ i. map_get i index) f ∙ at))))
                  h)
              e.1 here,
          distinct,
          some_left,
        ))
        stops
