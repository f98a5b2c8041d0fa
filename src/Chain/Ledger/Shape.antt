-- ===== src/Chain/Ledger/Shape.antt =====
-- The shape that every chain built by `addBlock` of code/blockchain.go keeps.
use blockchain_sybil_attack.Base.{
  ℕ, suc, ◌≡◌, refl, Bool, true, false, ◌&&◌, Bool-cases, Option-cases, inl, inr, Option, none,
  some, List, [], ◌∷◌, ◌++◌, Map, get-put, length-put, length, length-append, is_some, ◌==◌, nat_eq,
  ==_iff, if◌then◌else◌, ok, arith, ◌||◌,
}
use blockchain_sybil_attack.Chain.Platform.{Platform}
use blockchain_sybil_attack.Chain.Block.{Block, is_valid}
use blockchain_sybil_attack.Chain.Ledger.{
  BlockChain, stored_in, block_of, size, without_id, add_node_id_to_list, matches_last, store_block,
  add_block,
}

abbrev pub member : ℕ → List ℕ → Bool
member id [] = false
member id (n ∷ ns) = n == id || member id ns

abbrev pub Distinct : List ℕ → Type 0
Distinct [] = Unit
Distinct (n ∷ ns) = (member n ns ≡ false) × Distinct ns

unfoldable pub last_of : List ℕ → Option ℕ
last_of [] = none
last_of (n ∷ []) = some n
last_of (n ∷ m ∷ ns) = last_of (m ∷ ns)

-- The identifiers of the list are distinct, they are the keys of the map, which stores each block
-- under its own identifier, and the last block is stored and its identifier is the list's last.
pub record WellFormed (bc : BlockChain) : Type 0 where
  pub distinct : Distinct bc.ordered_nodes_ids
  pub keys : (id : ℕ) → is_some (block_of bc id) ≡ member id bc.ordered_nodes_ids
  pub own : (id : ℕ) (b : Block) → block_of bc id ≡ some b → b.node_id ≡ id
  pub newest : (b : Block) → bc.last_block ≡ some b → block_of bc b.node_id ≡ some b
  pub at_end : (b : Block) → bc.last_block ≡ some b → last_of bc.ordered_nodes_ids ≡ some b.node_id
  pub sized : size bc ≡ length bc.ordered_nodes_ids

member-append : (id : ℕ) (ns ms : List ℕ) → member id (ns ++ ms) ≡ (member id ns || member id ms)
member-append id [] ms = refl
member-append id (n ∷ ns) ms = ground (arith, member-append id ns ms)

pub member-without_id :
    (j id : ℕ) (ns : List ℕ)
    → member j (without_id ns id) ≡ (if id == j then false else member j ns)
unfolding without_id
member-without_id j id [] = ground arith
member-without_id j id (n ∷ ns) = ground (arith, member-without_id j id ns)

pub Distinct-without_id : (id : ℕ) (ns : List ℕ) → Distinct ns → Distinct (without_id ns id)
unfolding without_id
Distinct-without_id id [] d = tt
Distinct-without_id id (n ∷ ns) d =
    ground (arith, Distinct-without_id id ns d.1, member-without_id n id ns)

pub length-without_id :
    (id : ℕ) (ns : List ℕ)
    → Distinct ns
    → length ns
      ≡ (if member id ns then suc (length (without_id ns id)) else length (without_id ns id))
unfolding without_id
length-without_id id [] d = refl
length-without_id id (n ∷ ns) d = ground (arith, length-without_id id ns d.1)

Distinct-append :
    (id : ℕ) (ns : List ℕ) → Distinct ns → member id ns ≡ false → Distinct (ns ++ id ∷ [])
Distinct-append id [] d h = (refl, tt)
Distinct-append id (n ∷ ns) d h =
    ground (arith, member-append n ns (id ∷ []), Distinct-append id ns d.1)

last_of-append : (id : ℕ) (ns : List ℕ) → last_of (ns ++ id ∷ []) ≡ some id
unfolding last_of
last_of-append id [] = refl
last_of-append id (n ∷ []) = refl
last_of-append id (n ∷ m ∷ ns) = last_of-append id (m ∷ ns)

module _ (bc : BlockChain) (m : Map ℕ Block) (b : Block) where
  pub block_of-stored_in :
      (id : ℕ)
      → bc.blocks_per_node_id ≡ some m
      → block_of (stored_in bc m b) id ≡ (if b.node_id == id then some b else block_of bc id)
  unfolding stored_in block_of
  block_of-stored_in id here = ground (arith, get-put m b.node_id id b)

  member-stored_in :
      (id : ℕ)
      → member id (stored_in bc m b).ordered_nodes_ids
        ≡ (if b.node_id == id then true else member id bc.ordered_nodes_ids)
  unfolding stored_in add_node_id_to_list
  member-stored_in id = ground (
    arith,
    member-append id (without_id bc.ordered_nodes_ids b.node_id) (b.node_id ∷ []),
    member-without_id id b.node_id bc.ordered_nodes_ids,
  )

  length-stored_in :
      Distinct bc.ordered_nodes_ids
      → length (stored_in bc m b).ordered_nodes_ids ≡ (
          if member b.node_id bc.ordered_nodes_ids
          then length bc.ordered_nodes_ids
          else suc (length bc.ordered_nodes_ids))
  unfolding stored_in add_node_id_to_list
  length-stored_in d = ground (
    arith,
    length-append (without_id bc.ordered_nodes_ids b.node_id) (b.node_id ∷ []),
    length-without_id b.node_id bc.ordered_nodes_ids d,
  )

  size-stored_in :
      bc.blocks_per_node_id ≡ some m
      → size (stored_in bc m b)
        ≡ (if is_some (block_of bc b.node_id) then size bc else suc (size bc))
  unfolding stored_in size block_of
  size-stored_in here = ground (arith, length-put m b.node_id b)

  pub stored_in-WellFormed :
      bc.blocks_per_node_id ≡ some m → WellFormed bc → WellFormed (stored_in bc m b)
  stored_in-WellFormed here w = record {
    distinct =
        unfold stored_in add_node_id_to_list in
        Distinct-append b.node_id (without_id bc.ordered_nodes_ids b.node_id)
          (Distinct-without_id b.node_id bc.ordered_nodes_ids w.distinct)
          (ground (arith, member-without_id b.node_id b.node_id bc.ordered_nodes_ids));
    keys = λ id. ground (arith, block_of-stored_in id here, member-stored_in id, w.keys id);
    own = λ id c e. ground (arith, block_of-stored_in id here, w.own id c);
    newest = λ c e.
        unfold stored_in in
        ground (arith, block_of-stored_in c.node_id here, ==_iff c.node_id c.node_id);
    at_end = λ c e.
        unfold stored_in add_node_id_to_list in
        ground (arith, last_of-append b.node_id (without_id bc.ordered_nodes_ids b.node_id));
    sized =
        ground (arith, size-stored_in here, length-stored_in w.distinct, w.keys b.node_id, w.sized);
  }

-- A call of `addBlock` that returns has either stored a valid block that names the last one, or
-- changed nothing.
pub data Added (lib : Platform) (now : ℕ) (bc : BlockChain) (b : Block) (bc' : BlockChain)
    (added : Bool) : Type 0 where
  accepted :
      (m : Map ℕ Block)
      → bc.blocks_per_node_id ≡ some m
      → is_valid lib now b ≡ true
      → matches_last lib bc b ≡ true
      → added ≡ true
      → bc' ≡ stored_in bc m b
      → Added lib now bc b bc' added
  refused :
      (is_valid lib now b && matches_last lib bc b) ≡ false
      → added ≡ false
      → bc' ≡ bc
      → Added lib now bc b bc' added

module _ (lib : Platform) (now : ℕ) (bc : BlockChain) (b : Block) {bc' : BlockChain}
    {added : Bool} where
  pub add_block-Added : add_block lib now bc b ≡ ok (bc', added) → Added lib now bc b bc' added
  unfolding add_block store_block
  add_block-Added e = elim (Bool-cases (is_valid lib now b && matches_last lib bc b)) [
    | inr no_match ↦ refused no_match (ground arith) (ground arith)
    | inl good ↦ elim (Option-cases bc.blocks_per_node_id) [
      | inl nothing ↦ absurd (ground arith)
      | inr (m, here) ↦ accepted m here (ground arith) (ground arith) (ground arith) (ground arith)
    ]
  ]

  -- `addBlock` keeps the shape, whether it accepts the block or not.
  pub add_block-WellFormed :
      WellFormed bc → add_block lib now bc b ≡ ok (bc', added) → WellFormed bc'
  add_block-WellFormed w e = elim (add_block-Added e) [
    | accepted m here valid match yes_added same ↦ rw same (stored_in-WellFormed bc m b here w)
    | refused bad not_added same ↦ rw same w
  ]
