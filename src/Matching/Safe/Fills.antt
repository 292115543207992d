-- ===== src/Matching/Safe/Fills.antt =====
-- The first pass over the fills in the sweep of src/matching.rs: each fill meets its maker's node.
use order_book.Prelude.{
  ℕ, none, inl, zero, suc, ◌<◌, ◌≡◌, refl, sym, ap, ◌∙◌, subst, List, [], ◌∷◌, ◌++◌, some, false,
  arith, map, length, All, All-append, All-split, get_elem?, text_beq,
}
use order_book.Side.{Side}
use order_book.Instrument.{Price, Qty, sub_qty}
use order_book.Allocation.{Fill}
use order_book.Types.{ClientId, Order}
use order_book.OrderQueue.{SlotMap, IsSlotMap, Node, LevelQueue}
use order_book.OrderQueue.Chain.{Entries}
use order_book.Storage.{OrderBookStore}
use order_book.Storage.Ladder.{IsStore}
use order_book.OrderBook.{OrderBook}
use order_book.OrderBook.Returns.{Runs}
use order_book.OrderBook.Contents.{At-node, At-right, Contents}
use order_book.OrderBook.Held.{Held}
use order_book.OrderBook.Held.Revise.{Held-revise}
use order_book.Matching.{Trade}
use order_book.Matching.Sweep.{Sweep, apply_fill, apply_fills}

-- The fills point into a level of this many makers.
abbrev pub InLevel : ℕ → List Fill → Type 0
InLevel n = All (λ (f : Fill). f.order_index < n)

-- No trade is between orders of one client.
abbrev pub NoSelfTrade : List Trade → Type 0
NoSelfTrade = All (λ (t : Trade). text_beq t.maker_client t.taker_client ≡ false)

module _ (slots : SlotMap) where
  open slots use {Key}

  abbrev pub keys_of : Entries slots → List Key
  keys_of es = map (λ e. e.0) es

  -- The entry at a position.
  entry_at :
      (es : Entries slots) (i : ℕ)
      → i < length (keys_of es)
      → (xs : Entries slots) × (k : Key) × (o : Order) × (ys : Entries slots) × (es
          ≡ xs ++ (k, o) ∷ ys)
        × (get_elem? (keys_of es) i ≡ some k)
  entry_at [] i h = absurd (omega (arith, h))
  entry_at ((k, o) ∷ es) zero h = ([], k, o, es, refl, refl)
  entry_at (e ∷ es) (suc i) h =
      let (xs, k, o, ys, split, at) = entry_at es i (omega (arith, h)) in
      (e ∷ xs, k, o, ys, ap (λ zs. e ∷ zs) split, at)

  keys_of-revise :
      (k : Key) (o o' : Order) (xs ys : Entries slots)
      → keys_of (xs ++ (k, o') ∷ ys) ≡ keys_of (xs ++ (k, o) ∷ ys)
  keys_of-revise k o o' [] ys = refl
  keys_of-revise k o o' (x ∷ xs) ys = ap (λ zs. x.0 ∷ zs) (keys_of-revise k o o' xs ys)

module _ (slots : SlotMap) (slot_laws : IsSlotMap slots) (stores : OrderBookStore slots.Key)
    (Valid : stores.Store → Type 0) (laws : IsStore slots.Key stores Valid)
    (b : OrderBook slots stores) (c : Contents slots) (side : Side) (price : Price)
    (client : ClientId) where
  open slots use {Key, get, set}

  abbrev pub Stranger : Key × Order → Type 0
  Stranger e = text_beq e.1.client_id client ≡ false

  -- The sweep at work on the level: its queue holds these entries, none of the taker's client, under
  -- the keys that the matcher's positions mean.
  pub record Filling (s : Sweep slots stores) (q : LevelQueue Key) (es : Entries slots)
      (keys : List Key) : Type 0 where
    pub held : Held slots stores Valid laws b c side price s.nodes s.index q es
    pub listed : keys_of slots es ≡ keys
    pub strangers : All Stranger es
    pub clean : NoSelfTrade s.trades
    pub store_eq : s.store ≡ b.store
    pub client_eq : s.taker.client_id ≡ client

  pub apply_fill-Filling :
      (s : Sweep slots stores) (q : LevelQueue Key) (xs ys : Entries slots) (keys : List Key)
      (k : Key) (o : Order) (node : Node Key) (p : Price) (quantity : Qty)
      → Filling s q (xs ++ (k, o) ∷ ys) keys
      → get s.nodes k ≡ some node
      → node.order ≡ o
      → Filling
          (apply_fill slots stores s p k node quantity)
          q
          (xs
            ++ (
              k,
              record node.order {
                remaining_quantity = sub_qty node.order.remaining_quantity quantity;
              },
            )
              ∷ ys)
          keys
  unfolding apply_fill
  apply_fill-Filling s q xs ys keys k o node p quantity v live is =
      let o' : Order = record node.order {
        remaining_quantity = sub_qty node.order.remaining_quantity quantity;
      } in
      let (before, (here, behind)) = All-split Stranger xs ((k, o) ∷ ys) v.strangers in
      let other : text_beq node.order.client_id client ≡ false =
        ap (λ (y : Order). text_beq y.client_id client) is ∙ here in
      record {
        held =
            Held-revise slots slot_laws stores Valid laws b c side price s.nodes s.index q xs ys k o
              o' node v.held live (ap (λ (y : Order). y.exchange_id) is);
        listed = keys_of-revise slots k o o' xs ys ∙ v.listed;
        strangers = All-append Stranger xs ((k, o') ∷ ys) before (other, behind);
        clean =
            All-append _ s.trades (_ ∷ []) v.clean
              (ap (text_beq node.order.client_id) v.client_eq ∙ other, tt);
        store_eq = v.store_eq;
        client_eq = v.client_eq;
      }

  pub apply_fills-Filling :
      (p : Price) (keys : List Key) (fills : List Fill) (s : Sweep slots stores)
      (q : LevelQueue Key) (es : Entries slots)
      → InLevel (length keys) fills
      → Filling s q es keys
      → Runs
          (λ t. (es' : Entries slots) × Filling t q es' keys)
          (apply_fills slots stores s p keys fills)
  unfolding apply_fills
  apply_fills-Filling p keys [] s q es h v = (es, v)
  apply_fills-Filling p keys (f ∷ fs) s q es h v =
      let (xs, k, o, ys, split, at) =
        entry_at slots es f.order_index
          (subst (λ zs. f.order_index < length zs) (sym v.listed) h.0) in
      let at' : get_elem? keys f.order_index ≡ some k =
        ap (λ zs. get_elem? zs f.order_index) (sym v.listed) ∙ at in
      let v' : Filling s q (xs ++ (k, o) ∷ ys) keys = subst (λ zs. Filling s q zs keys) split v in
      let (node, live, is) =
        At-node slots s.nodes none k o (xs ++ (k, o) ∷ ys) none v'.held.queue.linked
          (At-right slots k o xs ((k, o) ∷ ys) (inl refl)) in
      rw (at', live, Runs)
        (apply_fills-Filling p keys fs (apply_fill slots stores s p k node f.quantity) q _ h.1
          (apply_fill-Filling s q xs ys keys k o node p f.quantity v' live is))
