-- ===== src/Puzzles/Tests.antt =====
-- The theorems of code/puzzleshandler.go at a node with a chain of one block and a joiner.
use blockchain_sybil_attack.Base.{
  ℕ, get_or, ap, ◌≡◌, ◌≢◌, ◌↔◌, refl, true, false, bad_integrity, some, [], ◌∷◌, ok, panic, get,
  put, arith, text_eq, nat_eq, text_eqb, little_endian,
}
use blockchain_sybil_attack.Chain.Block.{
  hash, get_bytes, pub_key_to_bytes, is_valid, expired, enough_zeros, all_zero, all_zero_digits,
  binary_digits,
}
use blockchain_sybil_attack.Chain.Ledger.{
  add_block, matches_last, next_node_id, next_from, size, block_of, contains_valid_node_id,
}
use blockchain_sybil_attack.Chain.Ledger.History.{IsLedger, latest}
use blockchain_sybil_attack.Chain.Ledger.Integrity.{AllValid}
use blockchain_sybil_attack.Chain.Block.{Block, rsa_pub_key_to_bc_pub_key}
use blockchain_sybil_attack.Chain.Mining.{genesis_chain, trial, mine_from, mine_block}
use blockchain_sybil_attack.Messages.{empty_packet}
use blockchain_sybil_attack.Puzzles.{
  try_admit, PuzzlesState, handle_joining, handle_puzzle_response, handle_block_chain, proposed_job,
  handle_puzzle_proposal,
}
use blockchain_sybil_attack.Puzzles.Admission.{Response, handle_puzzle_response-Response}
use blockchain_sybil_attack.Puzzles.Joining.{handle_block_chain_iff, EndsWithChain}
use blockchain_sybil_attack.Puzzles.Handshake.{LastSent, offered, returned, handshake}
use blockchain_sybil_attack.Puzzles.Expiry.{expired_block_refused}
use blockchain_sybil_attack.Puzzles.Faults.{approach, respond, begin, stale_proposal_blocks}
use blockchain_sybil_attack.Puzzles.Steps.{response, here, next, Extends, Steps-Extends}
use blockchain_sybil_attack.Samples.{
  toy, sum, noon, first_block, second_block, first_block_valid, one_block_chain-IsLedger,
  two_block_chain, sponsor, newcomer, home, one_block_chain, asked_home, waiting_sponsor,
  good_answer, same_address, admitted_sponsor, home_match, home_admitted,
}

handle_puzzle_response-Response_example :
    Response toy 7 waiting_sponsor good_answer home admitted_sponsor home_match
handle_puzzle_response-Response_example =
    handle_puzzle_response-Response toy same_address 7 waiting_sponsor good_answer home
      {ps' = admitted_sponsor} {sent = home_match} home_admitted

Steps-Extends_example : Extends toy (first_block ∷ []) admitted_sponsor
Steps-Extends_example =
    Steps-Extends toy same_address (first_block ∷ []) waiting_sponsor admitted_sponsor
      (next here (response 7 good_answer home home_match home_admitted))
      (record { joined = refl; newer = []; ledger = one_block_chain-IsLedger; worked = tt })

handle_block_chain_iff_example :
    (handle_block_chain toy (λ i. 7) newcomer (record { chain = some two_block_chain })
      ≡ ok newcomer)
    ↔ (AllValid toy (λ i. 7) 0 two_block_chain (1 ∷ 2 ∷ [])
        × (newcomer ≡ record newcomer { local_chain = two_block_chain; joined = true }))
handle_block_chain_iff_example =
    handle_block_chain_iff toy (λ i. 7) newcomer newcomer two_block_chain refl

-- The chain of the sponsor after another joiner was admitted.
abbrev overtaken : PuzzlesState
overtaken = record waiting_sponsor { local_chain = two_block_chain }

other_hash : hash toy second_block ≢ hash toy first_block
unfolding hash get_bytes pub_key_to_bytes little_endian sum
other_hash e = let last : ◌≡◌ {A = ℕ} 31 18 = ap (λ d. get_or d 31 0) e in omega arith

stale_refused :
    handle_puzzle_response toy same_address 7 overtaken good_answer home ≡ ok (overtaken, [])
unfolding handle_puzzle_response try_admit add_block matches_last is_valid expired enough_zeros
    all_zero all_zero_digits binary_digits hash get_bytes pub_key_to_bytes little_endian sum get
    text_eqb
stale_refused = refl

abbrev approached : PuzzlesState
approached = elim (handle_joining toy (λ i. 7) noon overtaken home) [
  | ok ps ↦ ps
  | panic p ↦ newcomer
]

stale_waits : handle_joining toy (λ i. 7) noon overtaken home ≡ ok approached
unfolding handle_joining get text_eqb
stale_waits = refl

stale_proposal_blocks_example : approached ≡ overtaken
unfolding get text_eqb
stale_proposal_blocks_example =
    stale_proposal_blocks toy same_address asked_home home overtaken second_block approached refl
      refl other_hash
      (approach (λ i. 7) noon (respond 7 good_answer second_block [] begin refl refl stale_refused)
        stale_waits)

-- The block that the newcomer mines.
abbrev mined_block : Block
mined_block = record second_block { pub_key = first_block.pub_key }

mined_block_valid : is_valid toy 7 mined_block ≡ true
unfolding is_valid expired enough_zeros all_zero all_zero_digits binary_digits hash get_bytes
    pub_key_to_bytes little_endian
mined_block_valid = refl

both_fresh :
    (i k : ℕ) (c : Block)
    → latest (mined_block ∷ first_block ∷ []) k ≡ some c
    → is_valid toy 7 c ≡ true
both_fresh i k c e = grind (arith, mined_block_valid, first_block_valid)

newcomer_mines :
    mine_block toy 2 (λ i. 7) (proposed_job toy newcomer (offered toy noon sponsor 2 first_block))
    ≡ some (some mined_block)
unfolding mine_block mine_from trial is_valid expired enough_zeros all_zero all_zero_digits
    binary_digits hash get_bytes pub_key_to_bytes little_endian rsa_pub_key_to_bc_pub_key
newcomer_mines = refl

handshake_example :
    (asked answered admitted joined : PuzzlesState) × (handle_joining toy (λ i. 7) noon sponsor home
      ≡ ok asked)
    × LastSent asked
        (record empty_packet { p_proposal = some (offered toy noon sponsor 2 first_block) })
        home
    × (handle_puzzle_proposal toy same_address 2
          (λ i. 7)
          newcomer
          (offered toy noon sponsor 2 first_block)
          home
        ≡ ok answered)
    × LastSent answered
        (record empty_packet { p_response = some (returned sponsor newcomer mined_block) })
        home
    × (handle_puzzle_response toy same_address 7 asked (returned sponsor newcomer mined_block) home
        ≡ ok (admitted, record { ip_addr = home; node_id = 2 } ∷ []))
    × EndsWithChain admitted home
    × (handle_block_chain toy (λ i. 7) answered (record { chain = some admitted.local_chain })
        ≡ ok joined)
    × IsLedger toy (mined_block ∷ first_block ∷ []) admitted.local_chain
    × (joined.local_chain ≡ admitted.local_chain)
    × (joined.joined ≡ true)
    × (joined.my_id ≡ 2)
    × (contains_valid_node_id toy 7 joined.local_chain 2 ≡ true)
unfolding next_node_id next_from size block_of get is_valid expired enough_zeros all_zero
    all_zero_digits binary_digits hash get_bytes pub_key_to_bytes little_endian genesis_chain put
handshake_example =
    handshake toy same_address (λ i. 7) noon sponsor newcomer home home 2 7 2 (λ i. 7) (λ i. 7)
      first_block mined_block [] refl refl one_block_chain-IsLedger refl refl newcomer_mines
      mined_block_valid both_fresh

old_block : (j : ℕ) → is_valid toy 1000000000000000000000 first_block ≡ false
unfolding is_valid expired
old_block j = refl

expired_block_refused_example :
    handle_block_chain toy
      (λ i. 1000000000000000000000)
      newcomer
      (record { chain = some one_block_chain })
    ≡ panic bad_integrity
expired_block_refused_example =
    expired_block_refused toy (λ i. 1000000000000000000000) newcomer (first_block ∷ [])
      one_block_chain 1 first_block refl one_block_chain-IsLedger refl old_block
