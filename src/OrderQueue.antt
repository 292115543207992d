-- ===== src/OrderQueue.antt =====
-- src/order_queue.rs: the queue of one price level, a doubly linked list through the nodes of an
-- arena that the whole book shares. The arena is the `slotmap` crate's, a parameter.
pub mod Chain
pub mod Push
pub mod Remove
pub mod Walk
pub mod Arena
pub mod Tests
use mathlib.Core.Option
use order_book.Prelude.{
  ℕ, suc, zero, ◌≡◌, List, [], ◌∷◌, ◌++◌, Option, none, some, Bool, true, false, Eq, ◌==◌,
  if◌then◌else◌, map, text_beq, add_u64, sub_u64,
}
use order_book.Allocation.{Maker}
use order_book.Types.{ClientId, Order, to_maker, ◌>>=◌}

-- `slotmap::SlotMap`. `set` is a write through `get_mut` at a live key; `insert` is into a map that
-- is not full.
pub record SlotMap : Type 1 where
  pub Key : Type 0
  pub key_eq : Eq Key
  pub Arena : Type 0 → Type 0
  pub with_key : {V : Type 0} → Arena V
  pub get : {V : Type 0} → Arena V → Key → Option V
  pub insert : {V : Type 0} → Arena V → V → Arena V × Key
  pub set : {V : Type 0} → Arena V → Key → V → Arena V
  pub remove : {V : Type 0} → Arena V → Key → Arena V

pub record Node (Key : Type 0) : Type 0 where
  pub order : Order
  pub previous : Option Key
  pub next : Option Key

pub record LevelQueue (Key : Type 0) : Type 0 where
  pub head : Option Key
  pub tail : Option Key
  pub len : ℕ

module _ (slots : SlotMap) where
  open slots use {Key, key_eq, Arena, with_key, get, insert, set, remove}

  -- The crate's documented behaviour: a new key is not live, and each operation is about its key.
  pub record IsSlotMap : Type 1 where
    pub get-with_key : {V : Type 0} (k : Key) → get {V = V} with_key k ≡ none
    pub insert_fresh : {V : Type 0} (a : Arena V) (v : V) → get a (insert a v).1 ≡ none
    pub get-insert :
        {V : Type 0} (a : Arena V) (v : V) (k : Key)
        → get (insert a v).0 k ≡ (if key_eq.beq k (insert a v).1 then some v else get a k)
    pub get-set :
        {V : Type 0} (a : Arena V) (j : Key) (v w : V) (k : Key)
        → get a j ≡ some w
        → get (set a j v) k ≡ (if key_eq.beq k j then some v else get a k)
    pub get-remove :
        {V : Type 0} (a : Arena V) (j k : Key)
        → get (remove a j) k ≡ (if key_eq.beq k j then none else get a k)

  abbrev pub OrderArena : Type 0
  OrderArena = Arena (Node Key)

  unfoldable pub is_empty : LevelQueue Key → Bool
  is_empty q = q.len == 0

  -- `if let Some(key) = key { nodes.get_mut(key).expect(..).next = next }`; `none` is a panic.
  unfoldable pub link_next : OrderArena → Option Key → Option Key → Option OrderArena
  link_next nodes none next = some nodes
  link_next nodes (some key) next = elim (get nodes key) [
    | none ↦ none
    | some node ↦ some (set nodes key (record node { next = next }))
  ]

  unfoldable pub link_previous : OrderArena → Option Key → Option Key → Option OrderArena
  link_previous nodes none previous = some nodes
  link_previous nodes (some key) previous = elim (get nodes key) [
    | none ↦ none
    | some node ↦ some (set nodes key (record node { previous = previous }))
  ]

  -- The end of the queue after its neighbour was relinked: unchanged when there is a neighbour.
  unfoldable pub end_after : Option Key → Option Key → Option Key → Option Key
  end_after none next end = next
  end_after (some key) next end = end

  unfoldable pub push_back :
      LevelQueue Key → OrderArena → Order → Option (LevelQueue Key × OrderArena × Key)
  push_back q nodes order =
      let node : Node Key = record { order = order; previous = q.tail; next = none } in
      let (nodes', key) = insert nodes node in
      do
        linked ← link_next nodes' q.tail (some key)
        some (
          record {
            head = end_after q.tail (some key) q.head;
            tail = some key;
            len = add_u64 q.len 1;
          },
          linked,
          key,
        )

  -- The inner `none` is a key that is not live.
  unfoldable pub remove_key :
      LevelQueue Key → OrderArena → Key → Option (LevelQueue Key × OrderArena × Option Order)
  remove_key q nodes key = elim (get nodes key) [
    | none ↦ some (q, nodes, none)
    | some node ↦ do
      linked ← link_next (remove nodes key) node.previous node.next
      linked' ← link_previous linked node.next node.previous
      some (
        record {
          head = end_after node.previous node.next q.head;
          tail = end_after node.next node.previous q.tail;
          len = sub_u64 q.len 1;
        },
        linked',
        some node.order,
      )
  ]

  -- The loop of `remove_client` from `cursor` on, on fuel; a removal that finds nothing panics.
  unfoldable pub client_loop :
      ℕ
      → LevelQueue Key
      → OrderArena
      → ClientId
      → Option Key
      → Option (LevelQueue Key × OrderArena × List Order)
  client_loop zero q nodes client cursor = none
  client_loop (suc fuel) q nodes client none = some (q, nodes, [])
  client_loop (suc fuel) q nodes client (some key) = do
    node ← get nodes key
    elim (text_beq node.order.client_id client) [
      | true ↦ do
        (q', nodes', removed) ← remove_key q nodes key
        order ← removed
        (q'', nodes'', rest) ← client_loop fuel q' nodes' client node.next
        some (q'', nodes'', order ∷ rest)
      | false ↦ client_loop fuel q nodes client node.next
    ]

  unfoldable pub remove_client :
      LevelQueue Key → OrderArena → ClientId → Option (LevelQueue Key × OrderArena × List Order)
  remove_client q nodes client = client_loop (suc q.len) q nodes client q.head

  -- `IterWithKeys` run to its end, on fuel.
  unfoldable pub iter_loop : ℕ → OrderArena → Option Key → Option (List (Key × Order))
  iter_loop zero nodes next = none
  iter_loop (suc fuel) nodes none = some []
  iter_loop (suc fuel) nodes (some key) = do
    node ← get nodes key
    rest ← iter_loop fuel nodes node.next
    some ((key, node.order) ∷ rest)

  unfoldable pub iter_with_keys : LevelQueue Key → OrderArena → Option (List (Key × Order))
  iter_with_keys q nodes = iter_loop (suc q.len) nodes q.head

  unfoldable pub iter : LevelQueue Key → OrderArena → Option (List Order)
  iter q nodes = Option.map (map (λ e. e.1)) (iter_with_keys q nodes)

  -- What `collect_makers` leaves in the two buffers.
  unfoldable pub collect_makers : LevelQueue Key → OrderArena → Option (List Maker × List Key)
  collect_makers q nodes =
      Option.map (λ es. (map (λ e. to_maker e.1) es, map (λ e. e.0) es)) (iter_with_keys q nodes)
