-- ===== src/OrderQueue/Chain.antt =====
-- The queue of src/order_queue.rs as a list: what the links say, and how relinking changes it.
use order_book.Prelude.{
  ◌<◌, ◌≡◌, ◌≢◌, refl, sym, ◌∙◌, All-map, List, [], ◌∷◌, ◌++◌, Option, none, some, length, All,
  arith, u64_mod,
}
use order_book.Types.{Order}
use order_book.OrderQueue.{
  SlotMap, IsSlotMap, Node, LevelQueue, OrderArena, link_next, link_previous,
}

module _ (slots : SlotMap) where
  open slots use {Key, key_eq, Arena, get, insert, set, remove}

  abbrev pub Entries : Type 0
  Entries = List (Key × Order)

  -- The first key, or `next` when there is none.
  abbrev pub first : Entries → Option Key → Option Key
  first [] next = next
  first (e ∷ es) next = some e.0

  -- The last key, or `prev` when there is none.
  abbrev pub last : Entries → Option Key → Option Key
  last [] prev = prev
  last (e ∷ es) prev = last es (some e.0)

  -- The entries stand in the arena, each linked to the ones beside it.
  abbrev pub Linked : OrderArena slots → Option Key → Entries → Option Key → Type 0
  Linked nodes prev [] next = Unit {0}
  Linked nodes prev ((k, o) ∷ es) next =
      (get nodes k ≡ some (record { order = o; previous = prev; next = first es next }))
      × Linked nodes (some k) es next

  -- A key stands nowhere in the entries.
  abbrev pub Apart : Key → Entries → Type 0
  Apart k = All (λ e. k ≢ e.0)

  abbrev pub Keys : Entries → Type 0
  Keys [] = Unit {0}
  Keys (e ∷ es) = Apart e.0 es × Keys es

  -- The two arenas agree at every key apart from the entries.
  abbrev pub Same : OrderArena slots → OrderArena slots → Entries → Type 0
  Same a b es = (k : Key) → Apart k es → get b k ≡ get a k

  -- The queue holds these entries, oldest first.
  pub record IsQueue (nodes : OrderArena slots) (q : LevelQueue Key) (es : Entries) : Type 0 where
    pub head_eq : q.head ≡ first es none
    pub tail_eq : q.tail ≡ last es none
    pub len_eq : q.len ≡ length es
    pub linked : Linked nodes none es none
    pub keys : Keys es
    pub fits : length es < u64_mod

  pub Linked-transfer :
      (a b : OrderArena slots) (prev : Option Key) (es : Entries) (next : Option Key)
      → All (λ e. get b e.0 ≡ get a e.0) es
      → Linked a prev es next
      → Linked b prev es next
  Linked-transfer a b prev [] next h l = tt
  Linked-transfer a b prev ((k, o) ∷ es) next h l =
      (h.0 ∙ l.0, Linked-transfer a b (some k) es next h.1 l.1)

  pub last-some : (es : Entries) (k : Key) → (j : Key) × (last es (some k) ≡ some j)
  last-some [] k = (k, refl)
  last-some (e ∷ es) k = last-some es e.0

  pub first-append :
      (xs ys : Entries) (next : Option Key) → first (xs ++ ys) next ≡ first xs (first ys next)
  first-append [] ys next = refl
  first-append (x ∷ xs) ys next = refl

  pub last-append :
      (xs ys : Entries) (prev : Option Key) → last (xs ++ ys) prev ≡ last ys (last xs prev)
  last-append [] ys prev = refl
  last-append (x ∷ xs) ys prev = last-append xs ys (some x.0)

  pub Linked-append :
      (a : OrderArena slots) (prev : Option Key) (xs ys : Entries) (next : Option Key)
      → Linked a prev xs (first ys next)
      → Linked a (last xs prev) ys next
      → Linked a prev (xs ++ ys) next
  Linked-append a prev [] ys next l r = r
  Linked-append a prev ((k, o) ∷ xs) ys next l r =
      (rw (first-append xs ys next) l.0, Linked-append a (some k) xs ys next l.1 r)

  pub Linked-split :
      (a : OrderArena slots) (prev : Option Key) (xs ys : Entries) (next : Option Key)
      → Linked a prev (xs ++ ys) next
      → Linked a prev xs (first ys next) × Linked a (last xs prev) ys next
  Linked-split a prev [] ys next l = (tt, l)
  Linked-split a prev ((k, o) ∷ xs) ys next l =
      let (h, t) = Linked-split a (some k) xs ys next l.1 in
      ((rw (sym (first-append xs ys next)) l.0, h), t)

  module _ (laws : IsSlotMap slots) where
    pub get-set_same :
        (a : OrderArena slots) (j : Key) (v w : Node Key)
        → get a j ≡ some w
        → get (set a j v) j ≡ some v
    get-set_same a j v w h = ground (arith, laws.get-set a j v w j h, key_eq.beq_iff j j)

    pub get-set_other :
        (a : OrderArena slots) (j : Key) (v w : Node Key) (k : Key)
        → get a j ≡ some w
        → k ≢ j
        → get (set a j v) k ≡ get a k
    get-set_other a j v w k h n = ground (arith, laws.get-set a j v w k h, key_eq.beq_iff k j)

    -- Relinking the last entry forward changes only the `next` of the whole.
    pub link_next-Linked :
        (a : OrderArena slots) (prev : Option Key) (xs : Entries) (next m : Option Key)
        → Linked a prev xs next
        → Keys xs
        → (b : OrderArena slots) × (link_next slots a (last xs none) m ≡ some b)
          × Linked b prev xs m
          × Same a b xs
    unfolding link_next
    link_next-Linked a prev [] next m l d = (a, refl, tt, λ k h. refl)
    link_next-Linked a prev ((k, o) ∷ []) next m l d =
        let v : Node Key = record { order = o; previous = prev; next = m } in
        let w : Node Key = record { order = o; previous = prev; next = next } in
        (
          set a k v,
          rw l.0 refl,
          (get-set_same a k v w l.0, tt),
          λ j h. get-set_other a k v w j l.0 h.0,
        )
    link_next-Linked a prev ((k, o) ∷ x ∷ xs) next m l d =
        let (b, e, l', s) = link_next-Linked a (some k) (x ∷ xs) next m l.1 d.1 in
        (b, e, (s k d.0 ∙ l.0, l'), λ j h. s j h.1)

    -- Relinking the first entry back changes only the `previous` of the whole.
    pub link_previous-Linked :
        (a : OrderArena slots) (prev : Option Key) (ys : Entries) (next m : Option Key)
        → Linked a prev ys next
        → Keys ys
        → (b : OrderArena slots) × (link_previous slots a (first ys none) m ≡ some b)
          × Linked b m ys next
          × Same a b ys
    unfolding link_previous
    link_previous-Linked a prev [] next m l d = (a, refl, tt, λ k h. refl)
    link_previous-Linked a prev ((k, o) ∷ ys) next m l d =
        let v : Node Key = record { order = o; previous = m; next = first ys next } in
        let w : Node Key = record { order = o; previous = prev; next = first ys next } in
        let other : (j : Key) → j ≢ k → get (set a k v) j ≡ get a j =
          λ j n. get-set_other a k v w j l.0 n in
        let rest = All-map (λ e n. other e.0 (λ h. n (sym h))) ys d.0 in
        (
          set a k v,
          rw l.0 refl,
          (get-set_same a k v w l.0, Linked-transfer a (set a k v) (some k) ys next rest l.1),
          λ j h. other j h.0,
        )
