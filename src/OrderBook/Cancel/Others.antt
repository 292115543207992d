-- ===== src/OrderBook/Cancel/Others.antt =====
-- The entries of a queue of src/order_queue.rs with one of them, or those of one id, taken out.
use order_book.Prelude.{
  suc, ◌≡◌, ◌≢◌, ◌⊎◌, inl, inr, refl, ap, [], ◌∷◌, ◌++◌, if◌then◌else◌, length, text_beq,
  text_beq_iff, text_eq, arith, Bool-cases,
}
use order_book.Types.{ExchangeId, Order}
use order_book.OrderQueue.{SlotMap}
use order_book.OrderQueue.Chain.{Entries, Keys}
use order_book.OrderBook.Contents.{At, At-right, Apart-elim}

module _ (slots : SlotMap) where
  open slots use {Key}

  -- One entry more or less.
  pub At-remove :
      (k j : Key) (o x : Order) (xs ys : Entries slots)
      → At slots j x (xs ++ (k, o) ∷ ys)
      → ((k ≡ j) × (o ≡ x)) ⊎ At slots j x (xs ++ ys)
  At-remove k j o x [] ys (inl h) = inl (ap (λ e. e.0) h, ap (λ e. e.1) h)
  At-remove k j o x [] ys (inr h) = inr h
  At-remove k j o x (e ∷ xs) ys (inl h) = inr (inl h)
  At-remove k j o x (e ∷ xs) ys (inr h) = elim (At-remove k j o x xs ys h) [
    | inl l ↦ inl l
    | inr r ↦ inr (inr r)
  ]

  pub At-insert :
      (k j : Key) (o x : Order) (xs ys : Entries slots)
      → At slots j x (xs ++ ys)
      → At slots j x (xs ++ (k, o) ∷ ys)
  At-insert k j o x [] ys h = inr h
  At-insert k j o x (e ∷ xs) ys (inl h) = inl h
  At-insert k j o x (e ∷ xs) ys (inr h) = inr (At-insert k j o x xs ys h)

  -- A key that was taken out is not among the others.
  pub taken_out :
      (k : Key) (o x : Order) (xs ys : Entries slots)
      → Keys slots (xs ++ (k, o) ∷ ys)
      → At slots k x (xs ++ ys)
      → ⊥
  taken_out k o x [] ys d h = Apart-elim slots k k x ys d.0 h refl
  taken_out k o x (e ∷ xs) ys d (inl h) =
      Apart-elim slots e.0 k o (xs ++ (k, o) ∷ ys) d.0
        (At-right slots k o xs ((k, o) ∷ ys) (inl refl)) (ap (λ y. y.0) h)
  taken_out k o x (e ∷ xs) ys d (inr h) = taken_out k o x xs ys d.1 h

  -- The entries of the other ids.
  unfoldable pub others : ExchangeId → Entries slots → Entries slots
  others id [] = []
  others id (e ∷ es) =
      let rest = others id es in if text_beq e.1.exchange_id id then rest else e ∷ rest

  pub others_all :
      (id : ExchangeId) (es : Entries slots)
      → ((k : Key) (o : Order) → At slots k o es → o.exchange_id ≢ id)
      → others id es ≡ es
  unfolding others
  others_all id [] h = refl
  others_all id ((k, o) ∷ es) h = elim (Bool-cases (text_beq o.exchange_id id)) [
    | inl q ↦ absurd (h k o (inl refl) ((text_beq_iff o.exchange_id id).0 q))
    | inr q ↦ rw q (ap (λ zs. (k, o) ∷ zs) (others_all id es (λ j x a. h j x (inr a))))
  ]

  pub others_middle :
      (id : ExchangeId) (k : Key) (o : Order) (xs ys : Entries slots)
      → o.exchange_id ≡ id
      → ((j : Key) (x : Order) → At slots j x (xs ++ ys) → x.exchange_id ≢ id)
      → others id (xs ++ (k, o) ∷ ys) ≡ xs ++ ys
  unfolding others
  others_middle id k o [] ys e h = rw ((text_beq_iff o.exchange_id id).1 e) (others_all id ys h)
  others_middle id k o ((j, x) ∷ xs) ys e h = elim (Bool-cases (text_beq x.exchange_id id)) [
    | inl q ↦ absurd (h j x (inl refl) ((text_beq_iff x.exchange_id id).0 q))
    | inr q ↦ rw q (ap (λ zs. (j, x) ∷ zs) (others_middle id k o xs ys e (λ i y a. h i y (inr a))))
  ]

  pub middle_not_nil : (xs ys : Entries slots) (e : Key × Order) → xs ++ e ∷ ys ≡ [] → ⊥
  middle_not_nil [] ys e h = cc
  middle_not_nil (x ∷ xs) ys e h = cc

  pub length-middle :
      (xs ys : Entries slots) (e : Key × Order) → length (xs ++ e ∷ ys) ≡ suc (length (xs ++ ys))
  length-middle [] ys e = refl
  length-middle (x ∷ xs) ys e = ap suc (length-middle xs ys e)

  pub no_entries : (es : Entries slots) → length es ≡ 0 → es ≡ []
  no_entries [] h = refl
  no_entries (e ∷ es) h = absurd (omega (arith, h))
