-- ===== src/Start/Ready.antt =====
-- The chain of a gossiper that main of code/gossiper.go has started with the genesis flag.
use blockchain_sybil_attack.Base.{
  ℕ, zero, suc, ◌+◌, ◌*◌, ◌≡◌, ap, sym, ◌∙◌, true, Option-cases, none, some, inl, inr, [], ◌∷◌, ok,
  arith,
}
use blockchain_sybil_attack.Chain.Platform.{Platform, Time, RsaPublicKey}
use blockchain_sybil_attack.Chain.Block.{Block, is_valid}
use blockchain_sybil_attack.Chain.Ledger.{BlockChain}
use blockchain_sybil_attack.Chain.Mining.{
  trial, mine_block, genesis_chain, genesis_job, genesis_from, init_genesis,
}
use blockchain_sybil_attack.Chain.Mining.Search.{mined_trial}
use blockchain_sybil_attack.Chain.Mining.Genesis.{genesis_chain-IsLedger}
use blockchain_sybil_attack.Puzzles.{PuzzlesState}
use blockchain_sybil_attack.Puzzles.Steps.{Steps, Extends, Steps-Extends}
use blockchain_sybil_attack.Neighbors.{init_map, set_active, set_counter, start_monitor}
use blockchain_sybil_attack.Node.{Net, State}
use blockchain_sybil_attack.Start.{Flags, Supplies, start_puzzles, start}

module _ (lib : Platform) (id : ℕ) (key : RsaPublicKey) (fuel : ℕ) (now : ℕ → Time)
    (clocks : ℕ → ℕ → ℕ) where
  genesis_from-chain :
      (tries k : ℕ) (bc : BlockChain)
      → genesis_from lib id key tries fuel now clocks k ≡ some bc
      → (b : Block) × (bc ≡ genesis_chain id b)
        × (b.node_id ≡ id)
        × ((t : ℕ) × (is_valid lib t b ≡ true))
  unfolding genesis_from mine_block trial
  genesis_from-chain zero k bc e = absurd (ground arith)
  genesis_from-chain (suc tries) k bc e =
      elim (Option-cases (mine_block lib fuel (clocks k) (genesis_job lib id key (now k)))) [
        | inl slow ↦ absurd (ground arith)
        | inr (none, gave_up) ↦ genesis_from-chain tries (k + 1) bc (ground arith)
        | inr (some b, mined) ↦
            let (n, same, valid) =
              mined_trial lib fuel (clocks k) (genesis_job lib id key (now k)) 0 b mined in
            (b, ground arith, ap (λ (c : Block). c.node_id) same, (clocks k (2 * n + 1), valid))
      ]

module _ (net : Net) (lib : Platform) (w : Supplies) (flags : Flags) (s : State) where
  same_puzzles : start net lib w flags ≡ ok s → start_puzzles net lib w flags ≡ ok s.srh.ps
  unfolding start init_map set_active set_counter start_monitor
  same_puzzles e = ground arith

  -- A node that starts with the genesis flag starts with the chain that initGenesis makes, which holds
  -- one block, under the identifier 1, that was valid at some reading of the clock; whatever messages
  -- it then handles without a panic, its chain stays a ledger of which this very block is the oldest
  -- and to which blocks are only added.
  pub genesis_node-Extends :
      (ps' : PuzzlesState)
      → start net lib w flags ≡ ok s
      → flags.genesis ≡ true
      → Steps lib net.resolve s.srh.ps ps'
      → (b : Block) × (init_genesis lib 1 w.key w.tries w.fuel w.now w.clocks
          ≡ some s.srh.ps.local_chain)
        × (s.srh.ps.local_chain ≡ genesis_chain 1 b)
        × (b.node_id ≡ 1)
        × ((t : ℕ) × (is_valid lib t b ≡ true))
        × Extends lib (b ∷ []) ps'
  unfolding start_puzzles init_genesis
  genesis_node-Extends ps' e genesis steps =
      let started = same_puzzles e in
      let (bc, mined) : (bc : BlockChain) × (init_genesis lib 1 w.key w.tries w.fuel w.now w.clocks
            ≡ some bc) =
        elim (Option-cases (init_genesis lib 1 w.key w.tries w.fuel w.now w.clocks)) [
          | inl slow ↦ absurd (ground arith)
          | inr found ↦ found
        ] in
      let (b, same, named, valid) =
        genesis_from-chain lib 1 w.key w.fuel w.now w.clocks w.tries 0 bc mined in
      let here : s.srh.ps.local_chain ≡ genesis_chain 1 b = ground arith in
      (
        b,
        ground arith,
        here,
        named,
        valid,
        Steps-Extends lib net.resolve (b ∷ []) s.srh.ps ps' steps (record {
          joined = ground arith;
          newer = [];
          ledger =
              rw (here ∙ ap (λ i. genesis_chain i b) (sym named)) (genesis_chain-IsLedger lib b);
          worked = tt;
        }),
      )
