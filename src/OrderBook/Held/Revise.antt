-- ===== src/OrderBook/Held/Revise.antt =====
-- An order in a queue of src/orderbook.rs is changed in its node, as a fill of src/matching.rs does.
use order_book.Prelude.{
  ◌≡◌, inl, inr, refl, sym, ap, ◌∙◌, subst, [], ◌∷◌, ◌++◌, none, some, arith, some_inj,
}
use order_book.Side.{Side}
use order_book.Instrument.{Price}
use order_book.Types.{Order}
use order_book.OrderQueue.{SlotMap, IsSlotMap, Node, OrderArena, LevelQueue}
use order_book.OrderQueue.Chain.{
  Entries, first, last, Linked-transfer, Linked-append, Linked-split, Apart, Keys, Same, IsQueue,
  first-append, last-append, get-set_same, get-set_other,
}
use order_book.Storage.{OrderBookStore}
use order_book.Storage.Ladder.{IsStore}
use order_book.OrderBook.{OrderBook}
use order_book.OrderBook.Contents.{At, At-left, At-right, Apart-elim, All-intro, Contents}
use order_book.OrderBook.Held.{Index, Held}
use order_book.OrderBook.Held.Change.{Held-change}
use order_book.OrderBook.Cancel.Others.{At-remove, At-insert, taken_out, length-middle}

module _ (slots : SlotMap) (slot_laws : IsSlotMap slots) where
  open slots use {Key, get, set}

  module _ (k : Key) (o o' : Order) where
    Apart-revise :
        (j : Key) (xs ys : Entries slots)
        → Apart slots j (xs ++ (k, o) ∷ ys)
        → Apart slots j (xs ++ (k, o') ∷ ys)
    Apart-revise j [] ys h = h
    Apart-revise j (x ∷ xs) ys h = (h.0, Apart-revise j xs ys h.1)

    Keys-revise :
        (xs ys : Entries slots) → Keys slots (xs ++ (k, o) ∷ ys) → Keys slots (xs ++ (k, o') ∷ ys)
    Keys-revise [] ys h = h
    Keys-revise (x ∷ xs) ys h = (Apart-revise x.0 xs ys h.0, Keys-revise xs ys h.1)

    module _ (a : OrderArena slots) (q : LevelQueue Key) (xs ys : Entries slots) (node : Node Key)
        (v : IsQueue slots a q (xs ++ (k, o) ∷ ys)) (live : get a k ≡ some node) where
      abbrev revised : OrderArena slots
      revised = set a k (record node { order = o' })

      pub revised-Same : Same slots a revised (xs ++ (k, o) ∷ ys)
      revised-Same j n =
          get-set_other slots slot_laws a k (record node { order = o' }) node j live
            (Apart-elim slots j k o (xs ++ (k, o) ∷ ys) n
              (At-right slots k o xs ((k, o) ∷ ys) (inl refl)))

      -- The nodes of the other entries stay.
      revised_other : (j : Key) (x : Order) → At slots j x (xs ++ ys) → get revised j ≡ get a j
      revised_other j x h =
          get-set_other slots slot_laws a k (record node { order = o' }) node j live
            (λ e. taken_out slots k o x xs ys v.keys (subst (λ i. At slots i x (xs ++ ys)) e h))

      pub revised-IsQueue : IsQueue slots revised q (xs ++ (k, o') ∷ ys)
      revised-IsQueue =
          let (before, (here, behind)) = Linked-split slots a none xs ((k, o) ∷ ys) none v.linked in
          let is : node
              ≡ record { order = o; previous = last slots xs none; next = first slots ys none } =
            some_inj (sym live ∙ here) in
          record {
            head_eq =
                v.head_eq
                ∙ first-append slots xs ((k, o) ∷ ys) none
                ∙ sym (first-append slots xs ((k, o') ∷ ys) none);
            tail_eq =
                v.tail_eq
                ∙ last-append slots xs ((k, o) ∷ ys) none
                ∙ sym (last-append slots xs ((k, o') ∷ ys) none);
            len_eq =
                v.len_eq
                ∙ length-middle slots xs ys (k, o)
                ∙ sym (length-middle slots xs ys (k, o'));
            linked =
                Linked-append slots revised none xs ((k, o') ∷ ys) none
                  (Linked-transfer slots a revised none xs (some k)
                    (All-intro slots (λ j. get revised j ≡ get a j) xs
                      (λ j x h. revised_other j x (At-left slots j x xs ys h)))
                    before)
                  (
                    get-set_same slots slot_laws a k (record node { order = o' }) node live
                        ∙ ap (λ (n : Node Key). some (record n { order = o' })) is,
                    Linked-transfer slots a revised (some k) ys none
                        (All-intro slots (λ j. get revised j ≡ get a j) ys
                          (λ j x h. revised_other j x (At-right slots j x xs ys h)))
                        behind,
                  );
            keys = Keys-revise xs ys v.keys;
            fits = omega (
              arith,
              v.fits,
              length-middle slots xs ys (k, o),
              length-middle slots xs ys (k, o'),
            );
          }

module _ (slots : SlotMap) (slot_laws : IsSlotMap slots) (stores : OrderBookStore slots.Key)
    (Valid : stores.Store → Type 0) (laws : IsStore slots.Key stores Valid)
    (b : OrderBook slots stores) (c : Contents slots) (side : Side) (price : Price) where
  open slots use {Key, get, set}

  -- An order may change in its node when it keeps its id.
  pub Held-revise :
      (nodes : OrderArena slots) (index : Index Key) (q : LevelQueue Key) (xs ys : Entries slots)
      (k : Key) (o o' : Order) (node : Node Key)
      → Held slots stores Valid laws b c side price nodes index q (xs ++ (k, o) ∷ ys)
      → get nodes k ≡ some node
      → o'.exchange_id ≡ o.exchange_id
      → Held slots stores Valid laws b c side price
          (set nodes k (record node { order = o' }))
          index
          q
          (xs ++ (k, o') ∷ ys)
  Held-revise nodes index q xs ys k o o' node v live same_id =
      Held-change slots stores Valid laws b c side price nodes index q (xs ++ (k, o) ∷ ys) v
        (set nodes k (record node { order = o' })) index q (xs ++ (k, o') ∷ ys)
        (revised-IsQueue slots slot_laws k o o' nodes q xs ys node v.queue live)
        (revised-Same slots slot_laws k o o' nodes q xs ys node v.queue live)
        (λ j x h. elim (At-remove slots k j o' x xs ys h) [
          | inl (e, e') ↦ (
            o,
            subst (λ i. At slots i o (xs ++ (k, o) ∷ ys)) e
                (At-right slots k o xs ((k, o) ∷ ys) (inl refl)),
            sym same_id ∙ ap (λ (y : Order). y.exchange_id) e',
          )
          | inr h' ↦ (x, At-insert slots k j o x xs ys h', refl)
        ])
        (λ j x h. elim (At-remove slots k j o x xs ys h) [
          | inl (e, e') ↦ inl (
            o',
            subst (λ i. At slots i o' (xs ++ (k, o') ∷ ys)) e
                (At-right slots k o' xs ((k, o') ∷ ys) (inl refl)),
            same_id ∙ ap (λ (y : Order). y.exchange_id) e',
          )
          | inr h' ↦ inl (x, At-insert slots k j o' x xs ys h', refl)
        ])
        (λ i. inl refl)
        (omega (arith, length-middle slots xs ys (k, o), length-middle slots xs ys (k, o')))
