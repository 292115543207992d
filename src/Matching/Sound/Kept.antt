-- ===== src/Matching/Sound/Kept.antt =====
-- The index beside the stop books of src/matching.rs: every stop that the index knows is in the stop
-- book, under its trigger.
use order_book.Prelude.{
  ◌≡◌, refl, sym, ap, ◌∙◌, subst, List, [], ◌∷◌, ◌++◌, some, true, if◌then◌else◌, ◌==◌, arith,
  Bool-cases, Option-cases, inl, inr, map_get, map_insert, map_remove, map_get-map_insert,
  map_get-map_remove, nat_eq, text_eq, text_beq, text_beq_iff, tree_insert, ltb, some_inj, ==→eq,
}
use order_book.Side.{Side}
use order_book.Instrument.{Price}
use order_book.Types.{ExchangeId, Order}
use order_book.OrderBook.{at_stop, Stops, drop_stop}
use order_book.OrderBook.Returns.{Runs}
use order_book.OrderBook.Contents.{address_place}
use order_book.OrderBook.Held.{Index}
use order_book.OrderBook.Reindex.{removed_not, remove_back}
use order_book.OrderBook.StopQueues.{
  queue_under, Has, Has-left, Has-last, Has-without, map_get-tree_insert, drop_stop_lem,
}
use order_book.Matching.Engine.{take_stop, push_stop}

queue_under-push_stop :
    (stops : Stops) (trigger : Price) (o : Order) (k : Price)
    → queue_under k (push_stop stops trigger o)
      ≡ (if k == trigger then queue_under k stops ++ o ∷ [] else queue_under k stops)
unfolding push_stop
queue_under-push_stop stops trigger o k = elim (Option-cases (map_get trigger stops)) [
  | inl e ↦ elim (Bool-cases (k == trigger)) [
    | inl t ↦
        rw (e, push_stop, map_get-tree_insert k trigger (o ∷ []) stops, t, ==→eq k trigger t, e)
          refl
    | inr t ↦ rw (e, push_stop, map_get-tree_insert k trigger (o ∷ []) stops, t) refl
  ]
  | inr (q, e) ↦ elim (Bool-cases (k == trigger)) [
    | inl t ↦
        rw
          (e, push_stop, map_get-tree_insert k trigger (q ++ o ∷ []) stops, t, ==→eq k trigger t, e)
          refl
    | inr t ↦ rw (e, push_stop, map_get-tree_insert k trigger (q ++ o ∷ []) stops, t) refl
  ]
]

module _ {Key : Type 0} (side : Side) where
  -- Every id that the index has at a trigger of this side is a stop's under the trigger.
  abbrev pub AreThere : Index Key → Stops → Type 0
  AreThere index stops =
      (i : ExchangeId) (k : Price)
      → map_get i index ≡ some (at_stop side k)
      → Has i (queue_under k stops)

  pub AreThere-keep :
      (index index' : Index Key) (stops : Stops)
      → ((i : ExchangeId) (k : Price)
          → map_get i index' ≡ some (at_stop side k)
          → map_get i index ≡ some (at_stop side k))
      → AreThere index stops
      → AreThere index' stops
  AreThere-keep index index' stops back v i k h = v i k (back i k h)

  -- An id leaves the index.
  pub AreThere-remove :
      (index : Index Key) (id : ExchangeId) (stops : Stops)
      → AreThere index stops
      → AreThere (map_remove id index) stops
  AreThere-remove index id stops v i k h = v i k (remove_back index id i (at_stop side k) h)

  -- One queue changes to one that has the other ids.
  changed-AreThere :
      (index : Index Key) (id : ExchangeId) (stops stops' : Stops)
      → AreThere index stops
      → ((i : ExchangeId) (k : Price)
          → (i ≡ id → ⊥)
          → Has i (queue_under k stops)
          → Has i (queue_under k stops'))
      → AreThere (map_remove id index) stops'
  changed-AreThere index id stops stops' v keep i k h =
      keep i k (removed_not index id i (at_stop side k) h)
        (v i k (remove_back index id i (at_stop side k) h))

  pub drop_stop-AreThere :
      (index : Index Key) (stops : Stops) (trigger : Price) (id : ExchangeId)
      → AreThere index stops
      → AreThere (map_remove id index) (drop_stop stops trigger id)
  drop_stop-AreThere index stops trigger id v =
      changed-AreThere index id stops (drop_stop stops trigger id) v (λ i k n h.
        elim (Bool-cases (k == trigger)) [
          | inl t ↦ rw (drop_stop_lem stops trigger id k, t) (Has-without id i _ n h)
          | inr t ↦ rw (drop_stop_lem stops trigger id k, t) h
        ])

  -- What is left of the trigger's queue has the ids that do not leave.
  pub take_stop-AreThere :
      (index : Index Key) (stops : Stops) (e : Price × List Order)
      → AreThere index stops
      → map_get e.0 stops ≡ some e.1
      → Runs (λ r. Unit {0}) (take_stop stops e)
      → Runs (λ r. AreThere (map_remove r.1.exchange_id index) r.0) (take_stop stops e)
  unfolding take_stop
  take_stop-AreThere index stops (trigger, []) v at runs = absurd runs
  take_stop-AreThere index stops (trigger, o ∷ []) v at runs =
      changed-AreThere index o.exchange_id stops (map_remove trigger stops) v (λ i k n h.
        elim (Bool-cases (k == trigger)) [
          | inl t ↦
              let here : Has i (o ∷ []) = rw (==→eq k trigger t, at) at h in
              elim here [ inl e ↦ absurd (n (sym e)) | inr none_left ↦ absurd none_left ]
          | inr t ↦ rw (map_get-map_remove k trigger stops, t) h
        ])
  take_stop-AreThere index stops (trigger, o ∷ p ∷ ps) v at runs =
      changed-AreThere index o.exchange_id stops (tree_insert ltb trigger (p ∷ ps) stops) v
        (λ i k n h. elim (Bool-cases (k == trigger)) [
          | inl t ↦
              let here : Has i (o ∷ p ∷ ps) = rw (==→eq k trigger t, at) at h in
              elim here [
                | inl e ↦ absurd (n (sym e))
                | inr later ↦ rw (map_get-tree_insert k trigger (p ∷ ps) stops, t) later
              ]
          | inr t ↦ rw (map_get-tree_insert k trigger (p ∷ ps) stops, t) h
        ])

  pub push_stop-AreThere :
      (index : Index Key) (stops : Stops) (trigger : Price) (o : Order)
      → AreThere index stops
      → AreThere (map_insert o.exchange_id (at_stop side trigger) index) (push_stop stops trigger o)
  push_stop-AreThere index stops trigger o v i k h =
      rw (queue_under-push_stop stops trigger o k) (elim (Bool-cases (text_beq i o.exchange_id)) [
        | inl t ↦
            let same : at_stop side trigger ≡ at_stop side k = some_inj (
              sym (rw (map_get-map_insert i o.exchange_id (at_stop side trigger) index, t) refl)
              ∙ h) in
            let key : trigger ≡ k = ap (λ a. (address_place a).1) same in
            let is : (k == trigger) ≡ true = ground (arith, key) in
            rw is (
              subst (λ x. Has x (queue_under k stops ++ o ∷ []))
                (sym ((text_beq_iff i o.exchange_id).0 t)) (Has-last o (queue_under k stops)))
        | inr t ↦
            let old : map_get i index ≡ some (at_stop side k) =
              sym (rw (map_get-map_insert i o.exchange_id (at_stop side trigger) index, t) refl)
              ∙ h in
            elim (Bool-cases (k == trigger)) [
              | inl is ↦ rw is (Has-left i (queue_under k stops) (o ∷ []) (v i k old))
              | inr is ↦ rw is (v i k old)
            ]
      ])
