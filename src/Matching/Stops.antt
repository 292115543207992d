-- ===== src/Matching/Stops.antt =====
-- The stop books of src/matching.rs: triggers in ascending order, and one stop fewer after a pop.
use order_book.Prelude.{
  ◌+◌, ◌≤◌, ◌<◌, ◌≡◌, ◌==◌, refl, subst, List, [], ◌∷◌, ◌++◌, none, some, ltb, arith, length,
  length-append, map_get, map_remove, nat_eq, tree_insert, tree_first, tree_last, All, All-map,
  Bool-cases, Option-cases, List-cases, inl, inr, ok, ap,
}
use order_book.Instrument.{Price}
use order_book.Types.{ExchangeId, Order}
use order_book.OrderBook.{Stops, drop_stop, retain_others}
use order_book.Matching.Engine.{count_stops, take_stop, push_stop}

-- Triggers rise.
abbrev pub IsStops : Stops → Type 0
IsStops [] = Unit {0}
IsStops (e ∷ es) = All (λ (f : Price × List Order). e.0 < f.0) es × IsStops es

pub insert-All :
    (P : Price × List Order → Type 0) (k : Price) (q : List Order) (es : Stops)
    → P (k, q)
    → All P es
    → All P (tree_insert ltb k q es)
unfolding tree_insert
insert-All P k q [] p h = (p, tt)
insert-All P k q ((j, w) ∷ es) p h = elim (Bool-cases (k == j)) [
  | inl e ↦ rw e (p, h.1)
  | inr e ↦ elim (Bool-cases (ltb k j)) [
    | inl e' ↦ rw (e, e') (p, h)
    | inr e' ↦ rw (e, e') (h.0, insert-All P k q es p h.1)
  ]
]

pub insert-IsStops :
    (k : Price) (q : List Order) (es : Stops) → IsStops es → IsStops (tree_insert ltb k q es)
unfolding tree_insert
insert-IsStops k q [] h = (tt, tt)
insert-IsStops k q ((j, w) ∷ es) h = elim (Bool-cases (k == j)) [
  | inl e ↦
      let same : j ≡ k = ground arith in
      rw e (subst (λ x. All (λ (f : Price × List Order). x < f.0) es) same h.0, h.1)
  | inr e ↦ elim (Bool-cases (ltb k j)) [
    | inl e' ↦
        let less : k < j = ground arith in
        rw (e, e') ((less, All-map (λ f r. omega arith) es h.0), h)
    | inr e' ↦
        let less : j < k = ground arith in
        rw (e, e') (insert-All (λ f. j < f.0) k q es less h.0, insert-IsStops k q es h.1)
  ]
]

remove-All :
    (P : Price → Type 0) (k : Price) (es : Stops)
    → All (λ (f : Price × List Order). P f.0) es
    → All (λ (f : Price × List Order). P f.0) (map_remove k es)
unfolding map_remove
remove-All P k [] h = tt
remove-All P k ((j, w) ∷ es) h = elim (Bool-cases (k == j)) [
  | inl e ↦ rw e (remove-All P k es h.1)
  | inr e ↦ rw e (h.0, remove-All P k es h.1)
]

remove-IsStops : (k : Price) (es : Stops) → IsStops es → IsStops (map_remove k es)
unfolding map_remove
remove-IsStops k [] h = tt
remove-IsStops k ((j, w) ∷ es) h = elim (Bool-cases (k == j)) [
  | inl e ↦ rw e (remove-IsStops k es h.1)
  | inr e ↦ rw e (remove-All (λ x. j < x) k es h.0, remove-IsStops k es h.1)
]

count-remove : (k : Price) (es : Stops) → count_stops (map_remove k es) ≤ count_stops es
unfolding map_remove
count-remove k [] = omega arith
count-remove k ((j, w) ∷ es) = ground (arith, count-remove k es)

absent :
    (k : Price) (es : Stops) → All (λ (f : Price × List Order). k < f.0) es → map_get k es ≡ none
unfolding map_get
absent k [] h = refl
absent k ((j, w) ∷ es) h = ground (arith, absent k es h.1)

count-remove_present :
    (k : Price) (q : List Order) (es : Stops)
    → map_get k es ≡ some q
    → count_stops (map_remove k es) + length q ≤ count_stops es
unfolding map_get map_remove
count-remove_present k q [] h = cc
count-remove_present k q ((j, w) ∷ es) h =
    ground (arith, count-remove k es, count-remove_present k q es)

count-insert_present :
    (k : Price) (q r : List Order) (es : Stops)
    → IsStops es
    → map_get k es ≡ some q
    → count_stops (tree_insert ltb k r es) + length q ≡ count_stops es + length r
unfolding map_get tree_insert
count-insert_present k q r [] v h = cc
count-insert_present k q r ((j, w) ∷ es) v h = elim (Bool-cases (ltb k j)) [
  | inl e ↦
      let less : k < j = ground arith in
      ground (arith, absent k es (All-map (λ f l. omega arith) es v.0))
  | inr e ↦ ground (arith, count-insert_present k q r es v.1)
]

-- The stop that is taken leaves one stop fewer.
pub take_stop-IsStops :
    (es es' : Stops) (e : Price × List Order) (o : Order)
    → IsStops es
    → map_get e.0 es ≡ some e.1
    → take_stop es e ≡ ok (es', o)
    → IsStops es' × (count_stops es' < count_stops es)
unfolding take_stop
take_stop-IsStops es es' (k, []) o v h t = cc
take_stop-IsStops es es' (k, p ∷ []) o v h t =
    let same : map_remove k es ≡ es' = ground arith in
    subst (λ x. IsStops x × (count_stops x < count_stops es)) same
      (remove-IsStops k es v, omega (arith, count-remove_present k (p ∷ []) es h))
take_stop-IsStops es es' (k, p ∷ p' ∷ ps) o v h t =
    let same : tree_insert ltb k (p' ∷ ps) es ≡ es' = ground arith in
    subst (λ x. IsStops x × (count_stops x < count_stops es)) same
      (
        insert-IsStops k (p' ∷ ps) es v,
        omega (arith, count-insert_present k (p ∷ p' ∷ ps) (p' ∷ ps) es v h),
      )

pub first-present :
    (es : Stops) (e : Price × List Order) → tree_first es ≡ some e → map_get e.0 es ≡ some e.1
unfolding tree_first map_get
first-present [] e h = cc
first-present ((j, w) ∷ es) e h = ground arith

pub last-present :
    (es : Stops) (e : Price × List Order)
    → IsStops es
    → tree_last es ≡ some e
    → map_get e.0 es ≡ some e.1
unfolding tree_last map_get
last-present [] e v h = cc
last-present ((j, w) ∷ es) e v h = ground (arith, absent j es v.0, last-present es e v.1)

pub push_stop-IsStops :
    (es : Stops) (trigger : Price) (o : Order) → IsStops es → IsStops (push_stop es trigger o)
unfolding push_stop
push_stop-IsStops es trigger o v = elim (Option-cases (map_get trigger es)) [
  | inl e ↦ rw (e, IsStops) (insert-IsStops trigger (o ∷ []) es v)
  | inr (q, e) ↦ rw (e, IsStops) (insert-IsStops trigger (q ++ o ∷ []) es v)
]

count-insert_absent :
    (k : Price) (r : List Order) (es : Stops)
    → map_get k es ≡ none
    → count_stops (tree_insert ltb k r es) ≡ count_stops es + length r
unfolding map_get tree_insert
count-insert_absent k r [] h = omega arith
count-insert_absent k r ((j, w) ∷ es) h = ground (arith, count-insert_absent k r es)

-- The stop that is parked leaves one stop more.
pub count-push_stop :
    (es : Stops) (trigger : Price) (o : Order)
    → IsStops es
    → count_stops (push_stop es trigger o) ≡ count_stops es + 1
unfolding push_stop
count-push_stop es trigger o v = elim (Option-cases (map_get trigger es)) [
  | inl e ↦ rw (e, push_stop) (count-insert_absent trigger (o ∷ []) es e)
  | inr (q, e) ↦
      rw (e, push_stop)
        (omega
          (arith, count-insert_present trigger q (q ++ o ∷ []) es v e, length-append q (o ∷ [])))
]

length-retain_others : (id : ExchangeId) (q : List Order) → length (retain_others id q) ≤ length q
unfolding retain_others
length-retain_others id [] = omega arith
length-retain_others id (o ∷ os) = ground (arith, length-retain_others id os)

-- The stops without an id.
pub drop_stop-IsStops :
    (es : Stops) (trigger : Price) (id : ExchangeId)
    → IsStops es
    → IsStops (drop_stop es trigger id) × (count_stops (drop_stop es trigger id) ≤ count_stops es)
unfolding drop_stop
drop_stop-IsStops es trigger id v = elim (Option-cases (map_get trigger es)) [
  | inl e ↦ rw (e, drop_stop) (v, omega arith)
  | inr (q, e) ↦ elim (List-cases (retain_others id q)) [
    | inl e' ↦ rw (e, drop_stop, e') (remove-IsStops trigger es v, count-remove trigger es)
    | inr (o, os, e') ↦
        rw (e, drop_stop, e')
          (
            insert-IsStops trigger (o ∷ os) es v,
            omega (
              arith,
              count-insert_present trigger q (o ∷ os) es v e,
              length-retain_others id q,
              ap length e',
            ),
          )
  ]
]
