-- ===== src/Chain/Mining/Search.antt =====
-- What the loop of `mineBlock` in code/blockchain.go returns, and that it ends.
use blockchain_sybil_attack.Base.{
  ℕ, zero, suc, ◌+◌, ◌-◌, ◌*◌, ◌<◌, ◌≤◌, ◌≡◌, refl, true, false, Bool-cases, inl, inr, Option, none,
  some, ltb, ltb→lt, arith, nat_eqb,
}
use blockchain_sybil_attack.Chain.Platform.{Platform}
use blockchain_sybil_attack.Chain.Block.{Block, expiration, is_valid}
use blockchain_sybil_attack.Chain.Mining.{Job, trial, mine_from, mine_block}

-- The search failed in every round from `i` up to `n`.
abbrev pub AllFail : Platform → (ℕ → ℕ) → Job → ℕ → ℕ → Type 0
AllFail lib clock job i n =
    (j : ℕ) → i ≤ j → j < n → is_valid lib (clock (2 * j + 1)) (trial lib job j) ≡ false

-- What a search from round `i` returns: the block of the first round that finds a valid one, or nil
-- in a round that ends above the time limit, with no valid block up to that round.
pub data Mined (lib : Platform) (clock : ℕ → ℕ) (job : Job) (i : ℕ) (r : Option Block)
    : Type 0 where
  found :
      (n : ℕ)
      → i ≤ n
      → r ≡ some (trial lib job n)
      → is_valid lib (clock (2 * n + 1)) (trial lib job n) ≡ true
      → AllFail lib clock job i n
      → Mined lib clock job i r
  gave_up :
      (n : ℕ)
      → i ≤ n
      → r ≡ none
      → expiration < clock (2 * n + 2) - clock 0
      → AllFail lib clock job i (n + 1)
      → Mined lib clock job i r

module _ (lib : Platform) (clock : ℕ → ℕ) (job : Job) where
  AllFail-next :
      (i n : ℕ)
      → is_valid lib (clock (2 * i + 1)) (trial lib job i) ≡ false
      → AllFail lib clock job (i + 1) n
      → AllFail lib clock job i n
  AllFail-next i n here later = λ j p q. elim (Bool-cases (nat_eqb i j)) [
    | inl same ↦ (let e : i ≡ j = ground arith in rw (← e) here)
    | inr other ↦ later j (ground arith) q
  ]

  Mined-next :
      (i : ℕ) {r : Option Block}
      → is_valid lib (clock (2 * i + 1)) (trial lib job i) ≡ false
      → Mined lib clock job (i + 1) r
      → Mined lib clock job i r
  Mined-next i here (found n p e v f) = found n (omega arith) e v (AllFail-next i n here f)
  Mined-next i here (gave_up n p e t f) =
      gave_up n (omega arith) e t (AllFail-next i (n + 1) here f)

  mine_from-Mined :
      (fuel i n : ℕ)
      → i ≤ n
      → n < i + fuel
      → expiration < clock (2 * n + 2) - clock 0
      → (r : Option Block) × (mine_from lib fuel clock job i ≡ some r) × Mined lib clock job i r
  unfolding mine_from
  mine_from-Mined zero i n p q t = absurd (omega arith)
  mine_from-Mined (suc fuel) i n p q t =
      elim (Bool-cases (is_valid lib (clock (2 * i + 1)) (trial lib job i))) [
        | inl valid ↦ (
          some (trial lib job i),
          ground arith,
          found i (omega arith) refl valid (λ j a b. absurd (omega arith)),
        )
        | inr bad ↦ elim (Bool-cases (ltb expiration (clock (2 * i + 2) - clock 0))) [
          | inl late ↦ (
            none,
            ground arith,
            gave_up i (omega arith) refl (ltb→lt _ _ late)
                (AllFail-next i (i + 1) bad (λ j a b. absurd (omega arith))),
          )
          | inr early ↦
              let (r, e, m) = mine_from-Mined fuel (i + 1) n (later early) (omega arith) t in
              (r, ground arith, Mined-next i bad m)
        ]
      ]
    where
      later : ltb expiration (clock (2 * i + 2) - clock 0) ≡ false → i + 1 ≤ n
      later early = elim (Bool-cases (nat_eqb i n)) [
        | inl same ↦ absurd (
            let e : n ≡ i = ground arith in
            let t' : expiration < clock (2 * i + 2) - clock 0 = rw e at t in ground arith)
        | inr other ↦ ground arith
      ]

  -- If the clock passes the time limit in round `n`, then mining ends within that round. It returns
  -- the block of the first round that passes the test, with the identifier, the timestamp, the key
  -- and the previous hash that it was given and the round's number as its nonce; or nil after the
  -- time limit, if no round up to then passes.
  pub mine_block-Mined :
      (fuel n : ℕ)
      → n < fuel
      → expiration < clock (2 * n + 2) - clock 0
      → (r : Option Block) × (mine_block lib fuel clock job ≡ some r) × Mined lib clock job 0 r
  unfolding mine_block
  mine_block-Mined fuel n p t = mine_from-Mined fuel 0 n (omega arith) (omega arith) t

-- A block that mining returns is a trial of the job, which passed the test in its round.
pub mined_trial :
    (lib : Platform) (fuel : ℕ) (clock : ℕ → ℕ) (job : Job) (i : ℕ) (b : Block)
    → mine_from lib fuel clock job i ≡ some (some b)
    → (n : ℕ) × (b ≡ trial lib job n) × (is_valid lib (clock (2 * n + 1)) b ≡ true)
unfolding mine_from
mined_trial lib zero clock job i b e = absurd (ground arith)
mined_trial lib (suc fuel) clock job i b e =
    elim (Bool-cases (is_valid lib (clock (2 * i + 1)) (trial lib job i))) [
      | inl passed ↦ (let same : b ≡ trial lib job i = ground arith in (i, same, rw same passed))
      | inr not_yet ↦ mined_trial lib fuel clock job (i + 1) b (ground arith)
    ]
