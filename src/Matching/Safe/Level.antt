-- ===== src/Matching/Safe/Level.antt =====
-- One level of the sweep of src/matching.rs, from a book whose parts agree.
use order_book.Prelude.{
  ℕ, suc, ◌≡◌, refl, sym, ap, subst, List, [], ◌∷◌, ◌++◌, some, false, ok_or, ◌>>=◌, ◌==◌, length,
  map, All, Bool-cases, inl, inr, text_beq, if◌then◌else◌, map_remove, text_eq,
}
use order_book.Side.{Side}
use order_book.Instrument.{Price, Qty}
use order_book.Allocation.{Maker, MatchingAlgorithm}
use order_book.Types.{ClientId, ExchangeId, Order, to_maker}
use order_book.OrderQueue.{SlotMap, IsSlotMap, LevelQueue}
use order_book.OrderQueue.Chain.{Entries}
use order_book.OrderQueue.Walk.{of_client, of_others, remove_client-IsQueue, collect_makers-IsQueue}
use order_book.Storage.{BookLevel, OrderBookStore}
use order_book.Storage.Ladder.{IsStore}
use order_book.Storage.Ladder.Place.{is_place, found}
use order_book.OrderBook.{OrderBook}
use order_book.OrderBook.Returns.{Runs, Runs-bind, Runs-map}
use order_book.OrderBook.Contents.{Contents, update, update_away, IsBook}
use order_book.OrderBook.Held.{SameStops, IsBook-Held, written_back-IsBook}
use order_book.OrderBook.Held.Clear.{unindex, Held-clear}
use order_book.Matching.{SweepContext}
use order_book.Matching.Sweep.{
  Sweep, cancel_own, apply_fills, unlink_exhausted, sweep_level, store_level,
}
use order_book.Matching.Safe.Fills.{InLevel, NoSelfTrade, keys_of, Filling, apply_fills-Filling}
use order_book.Matching.Safe.Unlink.{Unlinking, Filling-Unlinking, unlink_exhausted-Unlinking}

-- A matcher whose fills point into the level that it is shown.
abbrev pub IsInRange : MatchingAlgorithm → Type 0
IsInRange matcher =
    (available : Qty) (makers : List Maker) (now : ℕ)
    → InLevel (length makers) (matcher.allocate available makers now)

module _ (slots : SlotMap) where
  open slots use {Key}

  of_others-All :
      (client : ClientId) (es : Entries slots)
      → All (λ (e : Key × Order). text_beq e.1.client_id client ≡ false) (of_others slots client es)
  of_others-All client [] = tt
  of_others-All client ((k, o) ∷ es) = elim (Bool-cases (text_beq o.client_id client)) [
    | inl t ↦ rw t (of_others-All client es)
    | inr t ↦ rw t (t, of_others-All client es)
  ]

  length-makers :
      (es : Entries slots)
      → length (map (λ (e : Key × Order). to_maker e.1) es) ≡ length (keys_of slots es)
  length-makers [] = refl
  length-makers (e ∷ es) = ap suc (length-makers es)

module _ (slots : SlotMap) (stores : OrderBookStore slots.Key) where
  -- The book with what the sweep has made of it.
  abbrev pub swept : OrderBook slots stores → Sweep slots stores → OrderBook slots stores
  swept b s = record b { store = s.store; nodes = s.nodes; index = s.index }

  cancel_own_lem :
      (owns : List Order) (s : Sweep slots stores)
      → (ids : List ExchangeId) × (cancel_own slots stores s owns
          ≡ record s { index = unindex owns s.index; cancelled = ids })
  unfolding cancel_own
  cancel_own_lem [] s = (s.cancelled, refl)
  cancel_own_lem (o ∷ os) s = cancel_own_lem os (record s {
    index = map_remove o.exchange_id s.index;
    cancelled = s.cancelled ++ o.exchange_id ∷ [];
  })

module _ (slots : SlotMap) (slot_laws : IsSlotMap slots) (stores : OrderBookStore slots.Key)
    (Valid : stores.Store → Type 0) (laws : IsStore slots.Key stores Valid)
    (b : OrderBook slots stores) (c : Contents slots) (side : Side) where
  open slots use {Key, get}

  module _ (s : Sweep slots stores) (level : BookLevel Key)
      (v : IsBook slots stores Valid laws (swept slots stores b s) c)
      (at : found Key stores Valid laws s.store side level.price ≡ some level)
      (clean : NoSelfTrade s.trades) where
    -- What the two passes over the fills leave of the level.
    abbrev pub Worked : Sweep slots stores × LevelQueue Key → Type 0
    Worked r =
        (es : Entries slots) × (keys : List Key) × Unlinking slots slot_laws stores Valid laws
          (swept slots stores b s) c side level.price s.taker.client_id r.0 r.1 es keys

    -- The level once the taker's own orders are out: the passes over the fills are what is left.
    abbrev pub Opened :
        MatchingAlgorithm → SweepContext → Sweep slots stores → LevelQueue Key → Type 0
    Opened matcher context start q =
        let left = of_others slots s.taker.client_id (c side level.price) in
        let fills =
          matcher.allocate s.taker.remaining_quantity (map (λ e. to_maker e.1) left) context.now in
        Filling slots slot_laws stores Valid laws (swept slots stores b s) c side level.price
          s.taker.client_id start q left (keys_of slots left)
        × (start.taker ≡ s.taker)
        × (start.trades ≡ s.trades)
        × (sweep_level slots stores matcher context s level ≡ (
            apply_fills slots stores start level.price (keys_of slots left) fills >>= λ applied.
            unlink_exhausted slots stores applied q (keys_of slots left) fills))

    pub sweep_level-Opened :
        (matcher : MatchingAlgorithm) (context : SweepContext)
        → (start : Sweep slots stores) × (q : LevelQueue Key) × Opened matcher context start q
    unfolding sweep_level
    sweep_level-Opened matcher context =
        let client = s.taker.client_id in
        let es = c side level.price in
        let left = of_others slots client es in
        let owns = of_client slots client es in
        let held =
          IsBook-Held slots stores Valid laws (swept slots stores b s) c side level.price level v
            at in
        let (q, nodes, cleared, queue, same) =
          remove_client-IsQueue slots slot_laws s.nodes level.queue client es held.queue in
        let (ids, own) = cancel_own_lem slots stores owns (record s { nodes = nodes }) in
        let start : Sweep slots stores = record s {
          nodes = nodes;
          index = unindex owns s.index;
          cancelled = ids;
        } in
        (
          start,
          q,
          (
            record {
              held =
                  Held-clear slots stores Valid laws (swept slots stores b s) c side level.price
                    s.nodes nodes s.index level.queue q es client held queue same;
              listed = refl;
              strangers = of_others-All slots client es;
              clean = clean;
              store_eq = refl;
              client_eq = refl;
            },
            refl,
            refl,
            rw
                (
                  sweep_level,
                  cleared,
                  ok_or,
                  ◌>>=◌,
                  own,
                  collect_makers-IsQueue slots nodes q left queue,
                )
                refl,
          ),
        )

    pub sweep_level-Worked :
        (matcher : MatchingAlgorithm) (context : SweepContext)
        → IsInRange matcher
        → Runs Worked (sweep_level slots stores matcher context s level)
    sweep_level-Worked matcher context range =
        let client = s.taker.client_id in
        let left = of_others slots client (c side level.price) in
        let keys = keys_of slots left in
        let makers = map (λ (e : Key × Order). to_maker e.1) left in
        let fills = matcher.allocate s.taker.remaining_quantity makers context.now in
        let inside : InLevel (length keys) fills =
          subst (λ n. InLevel n fills) (length-makers slots left)
            (range s.taker.remaining_quantity makers context.now) in
        let (start, q, (filling, _, _, opened)) = sweep_level-Opened matcher context in
        subst (Runs Worked) (sym opened) (
          Runs-bind Worked (apply_fills slots stores start level.price keys fills) _
            (apply_fills-Filling slots slot_laws stores Valid laws (swept slots stores b s) c side
              level.price client level.price keys fills start q left inside filling)
            (λ t (es', f).
              Runs-map Worked (unlink_exhausted slots stores t q keys fills)
                (λ r (es'', u). (es'', keys, u))
                (unlink_exhausted-Unlinking slots slot_laws stores Valid laws
                  (swept slots stores b s) c side level.price client keys fills t q es' inside
                  (Filling-Unlinking slots slot_laws stores Valid laws (swept slots stores b s) c
                    side level.price client t q es' keys f))))

    -- Writing the level back leaves a book whose parts agree.
    pub store_level-IsBook :
        (t : Sweep slots stores) (queue : LevelQueue Key)
        → Worked (t, queue)
        → (c' : Contents slots) × IsBook slots stores Valid laws
            (swept slots stores b (store_level slots stores t side level queue))
            c'
          × NoSelfTrade (store_level slots stores t side level queue).trades
          × SameStops s.index (store_level slots stores t side level queue).index
          × ((p : Price) → is_place side level.price side p ≡ false → c' side p ≡ c side p)
    unfolding store_level
    store_level-IsBook t queue (es, keys, u) = (
      update slots c side level.price es,
      subst
          (λ st.
            IsBook slots stores Valid laws
              (record b {
                store =
                    if queue.len == 0
                    then (stores.remove_level
                        (stores.put st side level.price (record level { queue = queue })) side
                        level.price).0
                    else stores.put st side level.price (record level { queue = queue });
                nodes = t.nodes;
                index = t.index;
              })
              (update slots c side level.price es))
          (sym u.store_eq)
          (written_back-IsBook slots stores Valid laws (swept slots stores b s) c side level.price
            level t.nodes t.index queue es v.valid at u.held),
      u.clean,
      u.held.parked,
      λ p away. update_away slots c side level.price es side p away,
    )
