-- ===== src/OrderBook/Contents.antt =====
-- What a book of src/orderbook.rs holds: at each side and price, the orders that rest there with
-- their keys, oldest first.
use order_book.Prelude.{
  ◌<◌, ◌≡◌, ◌≢◌, ◌⊎◌, inl, inr, refl, sym, ap, ◌∙◌, subst, [], ◌∷◌, ◌++◌, Option, none, some, true,
  false, if◌then◌else◌, length, All, map_get, text_eq, some_inj, none_not_some, true_not_false,
}
use order_book.Side.{Side}
use order_book.Instrument.{Price}
use order_book.Types.{ExchangeId, Order}
use order_book.OrderQueue.{SlotMap, Node, OrderArena, LevelQueue}
use order_book.OrderQueue.Chain.{Entries, Linked, Linked-transfer, Apart, Same, IsQueue}
use order_book.Storage.{BookLevel, OrderBookStore}
use order_book.Storage.Ladder.{IsStore}
use order_book.Storage.Ladder.Place.{is_place, is_place_refl, is_place-eq, found}
use order_book.OrderBook.{OrderBook, OrderAddress, at_level, at_stop}

abbrev pub address_place : {Key : Type 0} → OrderAddress Key → Side × Price
address_place (at_level s p k) = (s, p)
address_place (at_stop s p) = (s, p)

address_key : {Key : Type 0} → Key → OrderAddress Key → Key
address_key d (at_level s p k) = k
address_key d (at_stop s p) = d

-- Addresses in the book that are equal.
pub same_address :
    {Key : Type 0} (side : Side) (price : Price) (s : Side) (p : Price) (k j : Key)
    → at_level side price k ≡ at_level s p j
    → (is_place side price s p ≡ true) × (k ≡ j)
unfolding address_key
same_address side price s p k j e = (
  ap (λ x. is_place side price x.0 x.1) (sym (ap address_place e)) ∙ is_place_refl side price,
  ap (address_key k) e,
)

pub place_address :
    {Key : Type 0} (side : Side) (price : Price) (s : Side) (p : Price) (k : Key)
    → is_place side price s p ≡ true
    → at_level side price k ≡ at_level s p k
place_address side price s p k h =
    let (q, r) = is_place-eq side s price p h in
    ap (λ x. at_level x price k) (sym q) ∙ ap (λ x. at_level s x k) (sym r)

module _ (slots : SlotMap) where
  open slots use {Key, get}

  -- An order stands among the entries under this key.
  abbrev pub At : Key → Order → Entries slots → Type 0
  At k o [] = ⊥
  At k o (e ∷ es) = (e ≡ (k, o)) ⊎ At k o es

  pub At-split :
      (k : Key) (o : Order) (es : Entries slots)
      → At k o es
      → (xs : Entries slots) × (ys : Entries slots) × (es ≡ xs ++ (k, o) ∷ ys)
  At-split k o [] h = absurd h
  At-split k o (e ∷ es) (inl h) = ([], es, ap (λ x. x ∷ es) h)
  At-split k o (e ∷ es) (inr h) =
      let (xs, ys, q) = At-split k o es h in (e ∷ xs, ys, ap (λ zs. e ∷ zs) q)

  pub At-append :
      (k : Key) (o : Order) (xs ys : Entries slots) → At k o (xs ++ ys) → At k o xs ⊎ At k o ys
  At-append k o [] ys h = inr h
  At-append k o (x ∷ xs) ys (inl h) = inl (inl h)
  At-append k o (x ∷ xs) ys (inr h) = elim (At-append k o xs ys h) [
    | inl l ↦ inl (inr l)
    | inr r ↦ inr r
  ]

  pub At-left : (k : Key) (o : Order) (xs ys : Entries slots) → At k o xs → At k o (xs ++ ys)
  At-left k o [] ys h = absurd h
  At-left k o (x ∷ xs) ys (inl h) = inl h
  At-left k o (x ∷ xs) ys (inr h) = inr (At-left k o xs ys h)

  pub At-right : (k : Key) (o : Order) (xs ys : Entries slots) → At k o ys → At k o (xs ++ ys)
  At-right k o [] ys h = h
  At-right k o (x ∷ xs) ys h = inr (At-right k o xs ys h)

  -- An entry's node holds its order.
  pub At-node :
      (nodes : OrderArena slots) (prev : Option Key) (k : Key) (o : Order) (es : Entries slots)
      (next : Option Key)
      → Linked slots nodes prev es next
      → At k o es
      → (node : Node Key) × (get nodes k ≡ some node) × (node.order ≡ o)
  At-node nodes prev k o [] next l h = absurd h
  At-node nodes prev k o ((j, x) ∷ es) next l (inl h) =
      (_, ap (get nodes) (sym (ap (λ e. e.0) h)) ∙ l.0, ap (λ e. e.1) h)
  At-node nodes prev k o ((j, x) ∷ es) next l (inr h) = At-node nodes (some j) k o es next l.1 h

  -- A key that no entry has stands apart from them.
  pub Apart-intro :
      (k : Key) (es : Entries slots)
      → ((j : Key) (o : Order) → At j o es → k ≢ j)
      → Apart slots k es
  Apart-intro k [] h = tt
  Apart-intro k ((j, o) ∷ es) h = (h j o (inl refl), Apart-intro k es (λ i x a. h i x (inr a)))

  pub Apart-elim :
      (k j : Key) (o : Order) (es : Entries slots) → Apart slots k es → At j o es → k ≢ j
  Apart-elim k j o [] a h = absurd h
  Apart-elim k j o (e ∷ es) a (inl h) = λ q. a.0 (q ∙ sym (ap (λ e. e.0) h))
  Apart-elim k j o (e ∷ es) a (inr h) = Apart-elim k j o es a.1 h

  pub All-intro :
      (P : Key → Type 0) (es : Entries slots)
      → ((k : Key) (o : Order) → At k o es → P k)
      → All (λ e. P e.0) es
  All-intro P [] h = tt
  All-intro P ((k, o) ∷ es) h = (h k o (inl refl), All-intro P es (λ j x a. h j x (inr a)))

  -- A queue keeps its orders when the nodes of its keys stay.
  pub IsQueue-transfer :
      (a b : OrderArena slots) (q : LevelQueue Key) (es : Entries slots)
      → ((k : Key) (o : Order) → At k o es → get b k ≡ get a k)
      → IsQueue slots a q es
      → IsQueue slots b q es
  IsQueue-transfer a b q es same v = record {
    head_eq = v.head_eq;
    tail_eq = v.tail_eq;
    len_eq = v.len_eq;
    linked =
        Linked-transfer slots a b none es none (All-intro (λ k. get b k ≡ get a k) es same)
          v.linked;
    keys = v.keys;
    fits = v.fits;
  }

  abbrev pub Contents : Type 0
  Contents = Side → Price → Entries slots

  -- The contents with the entries of one place replaced.
  abbrev pub update : Contents → Side → Price → Entries slots → Contents
  update c side price es = λ s p. if is_place side price s p then es else c s p

  pub update_here :
      (c : Contents) (side : Side) (price : Price) (es : Entries slots) (s : Side) (p : Price)
      → is_place side price s p ≡ true
      → update c side price es s p ≡ es
  update_here c side price es s p h = rw h refl

  pub update_away :
      (c : Contents) (side : Side) (price : Price) (es : Entries slots) (s : Side) (p : Price)
      → is_place side price s p ≡ false
      → update c side price es s p ≡ c s p
  update_away c side price es s p h = rw h refl

  pub at_place :
      (c : Contents) (side : Side) (price : Price) (s : Side) (p : Price)
      → is_place side price s p ≡ true
      → c s p ≡ c side price
  at_place c side price s p h =
      let (q, r) = is_place-eq side s price p h in ap (λ x. c x p) q ∙ ap (c side) r

  module _ (stores : OrderBookStore Key) (Valid : stores.Store → Type 0)
      (laws : IsStore Key stores Valid) where
    -- What stands at a place of the store: no level and no orders, or a level whose queue holds the
    -- orders, and they are some.
    abbrev pub Stands : OrderArena slots → Option (BookLevel Key) → Entries slots → Type 0
    Stands nodes none es = es ≡ []
    Stands nodes (some l) es = (0 < length es) × IsQueue slots nodes l.queue es

    pub Stands-transfer :
        (a b : OrderArena slots) (o : Option (BookLevel Key)) (es : Entries slots)
        → ((k : Key) (x : Order) → At k x es → get b k ≡ get a k)
        → Stands a o es
        → Stands b o es
    Stands-transfer a b none es same h = h
    Stands-transfer a b (some l) es same h = (h.0, IsQueue-transfer a b l.queue es same h.1)

    -- The store, the arena and the index of a book agree on what rests where.
    pub record IsBook (b : OrderBook slots stores) (c : Contents) : Type 0 where
      pub valid : Valid b.store
      pub stands :
          (s : Side) (p : Price) → Stands b.nodes (found Key stores Valid laws b.store s p) (c s p)
      pub indexed :
          (id : ExchangeId) (s : Side) (p : Price) (k : Key)
          → map_get id b.index ≡ some (at_level s p k)
          → (o : Order) × At k o (c s p) × (o.exchange_id ≡ id)
      pub resting :
          (s : Side) (p : Price) (k : Key) (o : Order)
          → At k o (c s p)
          → map_get o.exchange_id b.index ≡ some (at_level s p k)
      pub short : (s : Side) (p : Price) → length (c s p) < b.next_arrival

    away_lem :
        (side : Side) (price : Price) (s : Side) (p : Price) (k : Key)
        → is_place side price s p ≡ false
        → at_level s p k ≡ at_level side price k
        → ⊥
    away_lem side price s p k away e =
        true_not_false (sym (same_address side price s p k k (sym e)).0 ∙ away)

    module _ (b : OrderBook slots stores) (c : Contents) (v : IsBook b c) where
      live :
          (nodes : OrderArena slots) (k : Key) (o : Order) (l : Option (BookLevel Key))
          (es : Entries slots)
          → Stands nodes l es
          → At k o es
          → (node : Node Key) × (get nodes k ≡ some node) × (node.order ≡ o)
      live nodes k o none es h a = absurd (subst (At k o) h a)
      live nodes k o (some l) es h a = At-node nodes none k o es none h.1.linked a

      -- The node of an order that rests.
      pub At-live :
          (s : Side) (p : Price) (k : Key) (o : Order)
          → At k o (c s p)
          → (node : Node Key) × (get b.nodes k ≡ some node) × (node.order ≡ o)
      At-live s p k o a =
          live b.nodes k o (found Key stores Valid laws b.store s p) (c s p) (v.stands s p) a

      -- Each key rests at one place.
      pub one_place :
          (s s' : Side) (p p' : Price) (k : Key) (o o' : Order)
          → At k o (c s p)
          → At k o' (c s' p')
          → (o ≡ o') × (at_level s p k ≡ at_level s' p' k)
      one_place s s' p p' k o o' h h' =
          let (node, e, q) = At-live s p k o h in
          let (node', e', q') = At-live s' p' k o' h' in
          let same : o ≡ o' = sym q ∙ ap (λ (n : Node Key). n.order) (some_inj (sym e ∙ e')) ∙ q' in
          (
            same,
            some_inj (
                sym (v.resting s p k o h)
                ∙ ap (λ (x : Order). map_get x.exchange_id b.index) same
                ∙ v.resting s' p' k o' h'),
          )

      -- What a change of one place leaves alone: the nodes of every other place.
      pub elsewhere :
          (side : Side) (price : Price) (nodes : OrderArena slots) (es : Entries slots)
          → Same slots b.nodes nodes es
          → ((k : Key) (o : Order) → At k o es → At k o (c side price) ⊎ (get b.nodes k ≡ none))
          → (s : Side) (p : Price) → is_place side price s p ≡ false
          → (k : Key) (o : Order) → At k o (c s p)
          → get nodes k ≡ get b.nodes k
      elsewhere side price nodes es same mine s p away k o h = same k (
          Apart-intro k es (λ j x a q. elim (mine j x a) [
            | inl here ↦
                away_lem side price s p k away
                  (one_place s side p price k o x h
                    (subst (λ i. At i x (c side price)) (sym q) here)).1
            | inr dead ↦
                let (node, e, _) = At-live s p k o h in
                none_not_some (sym dead ∙ ap (get b.nodes) (sym q) ∙ e)
          ]))
