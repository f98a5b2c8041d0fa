-- ===== src/Sybil/Dials.antt =====
-- How the rounds of `checkNeighbors` in code/node_communication.go mark a neighbour that cannot be
-- dialled.
use native.Mathlib.Nat.{add-zero}
use blockchain_sybil_attack.Base.{
  ℕ, zero, suc, ◌+◌, ◌≡◌, ◌∙◌, ap, Bool, true, false, not, some, Text, get, put, get-put, is_some,
  min, ltb, ◌==◌, ==_refl, nat_eq, text_eq, arith,
}
use blockchain_sybil_attack.Chain.Platform.{Platform}
use blockchain_sybil_attack.Messages.{Address}
use blockchain_sybil_attack.Neighbors.{
  attempts, CheckNeighbors, SybilResistanceHandler, set_active, set_counter, is_active,
}
use blockchain_sybil_attack.Sybil.{create_inactive_packet, next_counter, check_neighbor}

-- `n` rounds of `checkNeighbors` over one address that cannot be dialled.
pub failing_rounds : Platform → ℕ → SybilResistanceHandler → Text → SybilResistanceHandler
failing_rounds lib zero srh k = srh
failing_rounds lib (suc n) srh k = failing_rounds lib n (check_neighbor lib (λ a. false) srh k) k

-- Where a neighbour stands after some failed rounds.
pub record Failed (srh : SybilResistanceHandler) (k : Text) (rounds : ℕ) : Type 0 where
  pub counter : get srh.cn.neighbors k ≡ some (min rounds attempts)
  pub known : is_some (get srh.cn.active_neighbors k) ≡ true
  pub marked : is_active srh k ≡ ltb rounds attempts

-- What the round of `checkNeighbors` stores for a neighbour.
after_check : SybilResistanceHandler → Text → ℕ → CheckNeighbors
after_check srh k n = record srh.cn {
  neighbors = put srh.cn.neighbors k n;
  active_neighbors = put srh.cn.active_neighbors k (not (n == attempts));
}

check_neighbor-after_check :
    (lib : Platform) (alive : Address → Bool) (srh : SybilResistanceHandler) (k : Text)
    → is_some (get srh.cn.active_neighbors k) ≡ true
    → (check_neighbor lib alive srh k).cn
      ≡ after_check srh k (next_counter lib (get srh.cn.neighbors k) (alive k))
unfolding check_neighbor set_counter set_active create_inactive_packet after_check
check_neighbor-after_check lib alive srh k known = ground arith

next_counter-min :
    (lib : Platform) (r : ℕ) → next_counter lib (some (min r attempts)) false ≡ min (r + 1) attempts
unfolding next_counter
next_counter-min lib r = ground arith

is_active-of :
    (srh : SybilResistanceHandler) (k : Text) (v : Bool)
    → get srh.cn.active_neighbors k ≡ some v
    → is_active srh k ≡ v
unfolding is_active
is_active-of srh k v h = ground arith

min-test : (r : ℕ) → not (min r attempts == attempts) ≡ ltb r attempts
min-test r = ground arith

module _ (lib : Platform) (srh : SybilResistanceHandler) (k : Text) where
  check_neighbor-Failed :
      (r : ℕ) → Failed srh k r → Failed (check_neighbor lib (λ a. false) srh k) k (r + 1)
  check_neighbor-Failed r f =
      let e : (check_neighbor lib (λ a. false) srh k).cn
          ≡ after_check srh k (min (r + 1) attempts) =
        check_neighbor-after_check lib (λ a. false) srh k f.known
        ∙ ap (after_check srh k) (rw f.counter (next_counter-min lib r)) in
      record {
        counter = rw e (unfold after_check in rw (get-put, ==_refl));
        known = rw e (unfold after_check in rw (get-put, ==_refl));
        marked =
            is_active-of _ k (not (min (r + 1) attempts == attempts))
              (rw e (unfold after_check in rw (get-put, ==_refl)))
            ∙ min-test (r + 1);
      }

failing_rounds-Failed :
    (lib : Platform) (n : ℕ) (srh : SybilResistanceHandler) (k : Text) (r : ℕ)
    → Failed srh k r
    → Failed (failing_rounds lib n srh k) k (r + n)
unfolding failing_rounds
failing_rounds-Failed lib zero srh k r f = rw add-zero f
failing_rounds-Failed lib (suc n) srh k r f =
    let e : r + 1 + n ≡ r + suc n = omega arith in
    rw e at (
      failing_rounds-Failed lib n (check_neighbor lib (λ a. false) srh k) k (r + 1)
        (check_neighbor-Failed lib srh k r f))

-- A neighbour that is active and has counter 0 is active after `n` rounds of failed dials exactly
-- while `n` is below `attempts`, and its counter never passes `attempts`.
pub failing_rounds_mark :
    (lib : Platform) (n : ℕ) (srh : SybilResistanceHandler) (k : Text)
    → get srh.cn.neighbors k ≡ some 0
    → get srh.cn.active_neighbors k ≡ some true
    → (is_active (failing_rounds lib n srh k) k ≡ ltb n attempts)
      × (get (failing_rounds lib n srh k).cn.neighbors k ≡ some (min n attempts))
failing_rounds_mark lib n srh k c a =
    let start : Failed srh k 0 = record {
      counter = c;
      known = rw a;
      marked = is_active-of srh k true a;
    } in
    let e : 0 + n ≡ n = omega arith in
    let f : Failed (failing_rounds lib n srh k) k n =
      rw e at (failing_rounds-Failed lib n srh k 0 start) in
    (f.marked, f.counter)
