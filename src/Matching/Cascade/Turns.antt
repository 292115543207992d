-- ===== src/Matching/Cascade/Turns.antt =====
-- `submit` of src/matching.rs over what its parts do: if popping and executing end and keep an invariant
-- of the book, so do the cascade of stops and the whole submission.
use order_book.Prelude.{
  ℕ, zero, suc, ◌<◌, ◌≡◌, refl, List, [], ◌∷◌, ◌++◌, Option, none, some, Result, ok, err, ◌>>=◌,
  arith, inl, inr, ◌⊎◌, text_eq, nat_eq, add_u64,
}
use order_book.Instrument.{RejectReason}
use order_book.Types.{Order, from_sequence}
use order_book.OrderQueue.{SlotMap}
use order_book.Storage.{OrderBookStore}
use order_book.OrderBook.{
  OrderBook, OrderBookError, Fault, failed, panic, out_of_fuel, admit, admitted, admit_order,
  rejected,
}
use order_book.Matching.{activate, Execution, ExecutionReport}
use order_book.Matching.Engine.{
  Outcome, execute, pop_triggered_stop, cascade, pending, submit_admitted, submit,
}

-- The run has not exhausted its fuel, and what it returns is so; another fault is `X`.
abbrev pub EndsOr : {A : Type 0} → Type 0 → (A → Type 0) → Result Fault A → Type 0
EndsOr X P (ok a) = P a
EndsOr X P (err (failed e)) = X
EndsOr X P (err panic) = X
EndsOr X P (err out_of_fuel) = ⊥

pub EndsOr-bind :
    {A B : Type 0} {P : A → Type 0} (X : Type 0) (Q : B → Type 0) (m : Result Fault A)
    (f : A → Result Fault B)
    → EndsOr X P m
    → ((a : A) → P a → EndsOr X Q (f a))
    → EndsOr X Q (m >>= f)
EndsOr-bind X Q (ok a) f h k = k a h
EndsOr-bind X Q (err (failed e)) f h k = h
EndsOr-bind X Q (err panic) f h k = h
EndsOr-bind X Q (err out_of_fuel) f h k = absurd h

admitted-cases :
    (r : Result RejectReason (Unit {0}))
    → (admitted r ≡ ok tt) ⊎ ((e : OrderBookError) × (admitted r ≡ err (failed e)))
unfolding admitted
admitted-cases (ok u) = inl refl
admitted-cases (err reason) = inr (rejected reason, refl)

module _ (slots : SlotMap) (stores : OrderBookStore slots.Key) where
  -- What `pop_triggered_stop` may return: a book that is ready for the stop, and has one less.
  abbrev pub Popped :
      (OrderBook slots stores → Type 0)
      → OrderBook slots stores
      → Option (OrderBook slots stores × Order)
      → Type 0
  Popped Ready b none = Unit {0}
  Popped Ready b (some (b', order)) = Ready b' × (pending slots stores b' < pending slots stores b)

  admit-cases :
      (b : OrderBook slots stores) (order : Order)
      → (admit slots stores b order ≡ ok tt)
        ⊎ ((e : OrderBookError) × (admit slots stores b order ≡ err (failed e)))
  unfolding admit
  admit-cases b order = admitted-cases (admit_order b.spec order)

module _ (slots : SlotMap) (stores : OrderBookStore slots.Key) (X : Type 0)
    (Inv Ready : OrderBook slots stores → Type 0)
    (ready_inv : (b : OrderBook slots stores) → Ready b → Inv b)
    (numbered : (b : OrderBook slots stores) (n : ℕ) → Ready b → Ready (record b { next_seq = n }))
    (pops : (b : OrderBook slots stores)
      → Inv b
      → EndsOr X (Popped slots stores Ready b) (pop_triggered_stop slots stores b))
    (activates : (b : OrderBook slots stores) (stop : Order)
      → Ready b
      → EndsOr X
          (λ r. Inv r.0 × (pending slots stores r.0 ≡ pending slots stores b))
          (execute slots stores b (activate stop)))
    (executes : (b : OrderBook slots stores) (order : Order)
      → Ready b
      → EndsOr X (λ r. Inv r.0) (execute slots stores b order)) where
  -- A turn of the cascade once the stop has been executed.
  turned-EndsOr :
      (fuel : ℕ) (done : List Execution)
      (r : OrderBook slots stores × Result OrderBookError Execution)
      → Inv r.0
      → ((next : List Execution) → EndsOr X (λ q. Inv q.0) (cascade slots stores fuel r.0 next))
      → EndsOr X
          (λ q. Inv q.0)
          (elim r.1 as (λ x. Outcome slots stores (List Execution)) [
            | err e ↦ ok (r.0, err e)
            | ok report ↦ cascade slots stores fuel r.0 (done ++ report ∷ [])
          ])
  turned-EndsOr fuel done (b, err e) v again = v
  turned-EndsOr fuel done (b, ok report) v again = again (done ++ report ∷ [])

  Popped-EndsOr :
      (fuel : ℕ) (b : OrderBook slots stores) (done : List Execution)
      (popped : Option (OrderBook slots stores × Order))
      → Inv b
      → pending slots stores b < suc fuel
      → Popped slots stores Ready b popped
      → ((c : OrderBook slots stores) (next : List Execution)
          → Inv c
          → pending slots stores c < fuel
          → EndsOr X (λ q. Inv q.0) (cascade slots stores fuel c next))
      → EndsOr X
          (λ q. Inv q.0)
          (elim popped as (λ x. Outcome slots stores (List Execution)) [
            | none ↦ ok (b, ok done)
            | some x ↦ execute slots stores x.0 (activate x.1) >>= λ r.
                elim r.1 as (λ x. Outcome slots stores (List Execution)) [
                  | err e ↦ ok (r.0, err e)
                  | ok report ↦ cascade slots stores fuel r.0 (done ++ report ∷ [])
                ]
          ])
  Popped-EndsOr fuel b done none v h p again = v
  Popped-EndsOr fuel b done (some (b', stop)) v h p again =
      EndsOr-bind X
        (λ (r : OrderBook slots stores × Result OrderBookError (List Execution)). Inv r.0)
        (execute slots stores b' (activate stop)) _ (activates b' stop p.0)
        (λ r w.
          turned-EndsOr fuel done r w.0 (λ next. again r.0 next w.0 (omega (arith, w.1, p.1))))

  cascade-EndsOr :
      (fuel : ℕ) (b : OrderBook slots stores) (done : List Execution)
      → Inv b
      → pending slots stores b < fuel
      → EndsOr X (λ r. Inv r.0) (cascade slots stores fuel b done)
  unfolding cascade
  cascade-EndsOr zero b done v h = absurd (omega arith)
  cascade-EndsOr (suc fuel) b done v h =
      EndsOr-bind X
        (λ (r : OrderBook slots stores × Result OrderBookError (List Execution)). Inv r.0)
        (pop_triggered_stop slots stores b) _ (pops b v)
        (λ popped p. Popped-EndsOr fuel b done popped v h p (cascade-EndsOr fuel))

  listed-EndsOr :
      (report : Execution) (r : OrderBook slots stores × Result OrderBookError (List Execution))
      → Inv r.0
      → EndsOr X
          (λ q. Inv q.0)
          (elim r.1 as (λ x. Outcome slots stores ExecutionReport) [
            | err e ↦ ok (r.0, err e)
            | ok triggered ↦ ok (r.0, ok (record { execution = report; triggered = triggered }))
          ])
  listed-EndsOr report (b, err e) v = v
  listed-EndsOr report (b, ok triggered) v = v

  executed-EndsOr :
      (r : OrderBook slots stores × Result OrderBookError Execution)
      → Inv r.0
      → EndsOr X
          (λ q. Inv q.0)
          (elim r.1 as (λ x. Outcome slots stores ExecutionReport) [
            | err e ↦ ok (r.0, err e)
            | ok report ↦ cascade slots stores (suc (pending slots stores r.0)) r.0 [] >>= λ q.
                elim q.1 as (λ x. Outcome slots stores ExecutionReport) [
                  | err e ↦ ok (q.0, err e)
                  | ok triggered ↦
                      ok (q.0, ok (record { execution = report; triggered = triggered }))
                ]
          ])
  executed-EndsOr (b, err e) v = v
  executed-EndsOr (b, ok report) v =
      EndsOr-bind X
        (λ (r : OrderBook slots stores × Result OrderBookError ExecutionReport). Inv r.0)
        (cascade slots stores (suc (pending slots stores b)) b []) _
        (cascade-EndsOr (suc (pending slots stores b)) b [] v (omega arith)) (listed-EndsOr report)

  submit_admitted-EndsOr :
      (b : OrderBook slots stores) (order : Order)
      → Ready b
      → EndsOr X (λ r. Inv r.0) (submit_admitted slots stores b order)
  unfolding submit_admitted
  submit_admitted-EndsOr b order v =
      EndsOr-bind X
        (λ (r : OrderBook slots stores × Result OrderBookError ExecutionReport). Inv r.0)
        (execute slots stores (record b { next_seq = add_u64 b.next_seq 1 })
          (record order { exchange_id = from_sequence b.next_seq }))
        _
        (executes (record b { next_seq = add_u64 b.next_seq 1 })
          (record order { exchange_id = from_sequence b.next_seq })
          (numbered b (add_u64 b.next_seq 1) v))
        executed-EndsOr

  pub submit-EndsOr :
      (b : OrderBook slots stores) (order : Order)
      → Ready b
      → EndsOr X (λ r. Inv r.0) (submit slots stores b order)
  unfolding submit
  submit-EndsOr b order v = elim (admit-cases slots stores b order) [
    | inl e ↦ rw (e, EndsOr) (submit_admitted-EndsOr b order v)
    | inr (x, e) ↦ rw (e, EndsOr) (ready_inv b v)
  ]
