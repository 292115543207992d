-- ===== src/Matching/Full/Passes.antt =====
-- The two passes over the fills in the sweep of src/matching.rs when every maker is filled whole: all of
-- them leave the queue. What the taker has left after any fills.
use order_book.Prelude.{
  ℕ, suc, ◌+◌, ◌≤◌, ◌<◌, ◌≡◌, refl, sym, ap, ◌∙◌, subst, List, [], ◌∷◌, ◌++◌, none, some, true,
  false, inl, inr, ok_or, ◌>>=◌, arith, map, sum, length, All, get_elem?, get_elem?-append,
  append_assoc, length-append, u64_mod, OnOk, OnOk-map, sub_u64_lem, Option-cases, Bool-cases,
  map_remove, text_eq, ◌==◌,
}
use order_book.Side.{Side}
use order_book.Instrument.{Price, sub_qty, is_zero}
use order_book.Allocation.{Fill, Maker}
use order_book.Allocation.Contract.Sound.{quantities}
use order_book.Allocation.ProRata.{take_whole}
use order_book.Types.{ClientId, Order, to_maker}
use order_book.OrderQueue.{SlotMap, IsSlotMap, LevelQueue, remove_key}
use order_book.OrderQueue.Chain.{Entries}
use order_book.Storage.{OrderBookStore}
use order_book.Storage.Ladder.{IsStore}
use order_book.OrderBook.{OrderBook}
use order_book.OrderBook.Returns.{Runs, Runs-map}
use order_book.OrderBook.Contents.{At-node, At-right, Contents}
use order_book.Matching.Sweep.{Sweep, apply_fill, apply_fills, exhausted, unlink_exhausted}
use order_book.Matching.Safe.Fills.{keys_of, Filling, apply_fill-Filling}
use order_book.Matching.Safe.Unlink.{Unlinking, removed-Unlinking}
use order_book.Matching.Full.Fills.{Positive}

module _ (slots : SlotMap) where
  open slots use {Key}

  abbrev pub level_makers : Entries slots → List Maker
  level_makers es = map (λ (e : Key × Order). to_maker e.1) es

  -- Nothing is left of the orders.
  abbrev pub Spent : Entries slots → Type 0
  Spent = All (λ (e : Key × Order). e.1.remaining_quantity ≡ 0)

  abbrev pub InU64 : Entries slots → Type 0
  InU64 = All (λ (e : Key × Order). e.1.remaining_quantity < u64_mod)

  pub key_here :
      (zs ws : Entries slots) (k : Key) (o : Order)
      → get_elem? (keys_of slots (zs ++ (k, o) ∷ ws)) (length zs) ≡ some k
  key_here [] ws k o = refl
  key_here (z ∷ zs) ws k o = key_here zs ws k o

module _ (slots : SlotMap) (stores : OrderBookStore slots.Key) where
  open slots use {Key, get}

  -- The fills take from the taker what they give.
  pub apply_fills_left :
      (p : Price) (keys : List Key) (fills : List Fill) (s : Sweep slots stores)
      → sum (quantities fills) ≤ s.taker.remaining_quantity
      → s.taker.remaining_quantity < u64_mod
      → OnOk
          (λ t. t.taker.remaining_quantity + sum (quantities fills) ≡ s.taker.remaining_quantity)
          (apply_fills slots stores s p keys fills)
  unfolding apply_fills apply_fill
  apply_fills_left p keys [] s h u = omega arith
  apply_fills_left p keys (f ∷ fs) s h u = elim (Option-cases (get_elem? keys f.order_index)) [
    | inl e ↦ rw (e, OnOk) tt
    | inr (key, e) ↦ elim (Option-cases (get s.nodes key)) [
      | inl e' ↦ rw (e, e', OnOk) tt
      | inr (node, e') ↦
          let left = sub_u64_lem s.taker.remaining_quantity f.quantity (omega (arith, h)) u in
          let next = apply_fill slots stores s p key node f.quantity in
          rw (e, e', OnOk)
            (OnOk-map (apply_fills slots stores next p keys fs) (λ t r. omega (arith, r, left, h))
              (apply_fills_left p keys fs next (omega (arith, left, h)) (omega (arith, left, u))))
    ]
  ]

  pub unlink_exhausted_taker :
      (keys : List Key) (fills : List Fill) (s : Sweep slots stores) (queue : LevelQueue Key)
      → OnOk (λ r. r.0.taker ≡ s.taker) (unlink_exhausted slots stores s queue keys fills)
  unfolding unlink_exhausted
  unlink_exhausted_taker keys [] s queue = refl
  unlink_exhausted_taker keys (f ∷ fs) s queue =
      elim (Option-cases (get_elem? keys f.order_index)) [
        | inl e ↦ rw (e, OnOk) tt
        | inr (key, e) ↦ elim (Bool-cases (exhausted slots stores (get s.nodes key))) [
          | inr e' ↦ rw (e, e', OnOk) (unlink_exhausted_taker keys fs s queue)
          | inl e' ↦ elim (Option-cases (remove_key slots queue s.nodes key)) [
            | inl k ↦ rw (e, e', k, ok_or, ◌>>=◌, OnOk) tt
            | inr (r, k) ↦ elim (Option-cases r.2) [
              | inl k' ↦ rw (e, e', k, ok_or, ◌>>=◌, k', OnOk) tt
              | inr (done, k') ↦
                  rw (e, e', k, ok_or, ◌>>=◌, k', OnOk)
                    (unlink_exhausted_taker keys fs
                      (record s { nodes = r.1; index = map_remove done.exchange_id s.index }) r.0)
            ]
          ]
        ]
      ]

module _ (slots : SlotMap) (slot_laws : IsSlotMap slots) (stores : OrderBookStore slots.Key)
    (Valid : stores.Store → Type 0) (laws : IsStore slots.Key stores Valid)
    (b : OrderBook slots stores) (c : Contents slots) (side : Side) (price : Price)
    (client : ClientId) where
  open slots use {Key, get}

  abbrev Fills : Sweep slots stores → LevelQueue Key → Entries slots → List Key → Type 0
  Fills = Filling slots slot_laws stores Valid laws b c side price client

  abbrev Unlinks : Sweep slots stores → LevelQueue Key → Entries slots → List Key → Type 0
  Unlinks = Unlinking slots slot_laws stores Valid laws b c side price client

  -- The first pass over whole fills leaves nothing of the makers.
  pub apply_whole :
      (p : Price) (keys : List Key) (zs ws : Entries slots) (i : ℕ) (s : Sweep slots stores)
      (q : LevelQueue Key)
      → i ≡ length zs
      → Positive (level_makers slots ws)
      → InU64 slots ws
      → Fills s q (zs ++ ws) keys
      → Runs
          (λ t.
            (ws' : Entries slots) × Fills t q (zs ++ ws') keys
            × (length ws' ≡ length ws)
            × Spent slots ws')
          (apply_fills slots stores s p keys (take_whole i (level_makers slots ws)))
  unfolding apply_fills take_whole
  apply_whole p keys zs [] i s q at pos fits v = ([], v, refl, tt)
  apply_whole p keys zs ((k, o) ∷ ws) i s q at pos fits v =
      let not_zero : (o.remaining_quantity == 0) ≡ false = ground (arith, pos.0) in
      let here : get_elem? keys i ≡ some k =
        ap (λ ks. get_elem? ks i) (sym v.listed)
        ∙ ap (get_elem? (keys_of slots (zs ++ (k, o) ∷ ws))) at
        ∙ key_here slots zs ws k o in
      let (node, live, is) =
        At-node slots s.nodes none k o (zs ++ (k, o) ∷ ws) none v.held.queue.linked
          (At-right slots k o zs ((k, o) ∷ ws) (inl refl)) in
      let quantity = o.remaining_quantity in
      let o' : Order = record node.order {
        remaining_quantity = sub_qty node.order.remaining_quantity quantity;
      } in
      let gone : o'.remaining_quantity ≡ 0 =
        ap (λ (y : Order). sub_qty y.remaining_quantity quantity) is
        ∙ sub_u64_lem quantity quantity (omega arith) fits.0
        ∙ omega arith in
      let next = apply_fill slots stores s p k node quantity in
      let v' : Fills next q (zs ++ (k, o') ∷ ws) keys =
        apply_fill-Filling slots slot_laws stores Valid laws b c side price client s q zs ws keys k
          o node p quantity v live is in
      let zs' = zs ++ (k, o') ∷ [] in
      let rest =
        apply_whole p keys zs' ws (i + 1) next q
          (omega (arith, at, length-append zs ((k, o') ∷ []))) pos.1 fits.1
          (subst (λ es. Fills next q es keys) (sym (append_assoc zs ((k, o') ∷ []) ws)) v') in
      rw (not_zero, here, live, Runs)
        (Runs-map _
          (apply_fills slots stores next p keys (take_whole (i + 1) (level_makers slots ws)))
          (λ t (ws', w, n, spent). (
            (k, o') ∷ ws',
            subst (λ es. Fills t q es keys) (append_assoc zs ((k, o') ∷ []) ws') w,
            ap suc n,
            (gone, spent),
          ))
          rest)

  -- The second pass takes them all out.
  pub unlink_whole :
      (keys pre : List Key) (ws : Entries slots) (ms : List Maker) (i : ℕ) (s : Sweep slots stores)
      (q : LevelQueue Key)
      → Spent slots ws
      → Positive ms
      → length ms ≡ length ws
      → keys ≡ pre ++ keys_of slots ws
      → i ≡ length pre
      → Unlinks s q ws keys
      → Runs (λ r. r.1.len ≡ 0) (unlink_exhausted slots stores s q keys (take_whole i ms))
  unfolding unlink_exhausted take_whole exhausted
  unlink_whole keys pre [] [] i s q spent pos n split at v = v.held.queue.len_eq
  unlink_whole keys pre [] (m ∷ ms) i s q spent pos n split at v = absurd (omega (arith, n))
  unlink_whole keys pre (w ∷ ws) [] i s q spent pos n split at v = absurd (omega (arith, n))
  unlink_whole keys pre ((k, o) ∷ ws) (m ∷ ms) i s q spent pos n split at v =
      let not_zero : (m.remaining_quantity == 0) ≡ false = ground (arith, pos.0) in
      let here : get_elem? keys i ≡ some k =
        ap (λ ks. get_elem? ks i) split
        ∙ ap (get_elem? (pre ++ k ∷ keys_of slots ws)) at
        ∙ get_elem?-append pre k (keys_of slots ws) in
      let (node, live, is) =
        At-node slots s.nodes none k o ((k, o) ∷ ws) none v.held.queue.linked (inl refl) in
      let zero_left : is_zero node.order.remaining_quantity ≡ true =
        ground (arith, ap (λ (y : Order). y.remaining_quantity) is, spent.0) in
      let (q', nodes, removed, v') =
        removed-Unlinking slots slot_laws stores Valid laws b c side price client s q keys [] ws k o
          v in
      rw (not_zero, here, live, zero_left, removed, ok_or, ◌>>=◌, Runs)
        (unlink_whole keys (pre ++ k ∷ []) ws ms (i + 1)
          (record s { nodes = nodes; index = map_remove o.exchange_id s.index }) q' spent.1 pos.1
          (omega (arith, n)) (split ∙ sym (append_assoc pre (k ∷ []) (keys_of slots ws)))
          (omega (arith, at, length-append pre (k ∷ []))) v')
