-- ===== src/Search/Budget.antt =====
-- The budgets of code/filehandler.go.
use blockchain_sybil_attack.Base.{
  ℕ, zero, suc, ◌+◌, ◌-◌, ◌*◌, ◌/◌, ◌%◌, ◌^◌, ◌≤◌, ◌<◌, min, ◌≡◌, refl, false, Bool-cases, inl, inr,
  List, [], ◌∷◌, nat_eq, text_eq, length, replicate, leb, All, if◌then◌else◌, ok, panic,
  divide_by_zero, length_out_of_range, arith,
}
use native.Mathlib.Nat.{div-lt_iff_lt-mul, le-div_iff_mul-le}
use blockchain_sybil_attack.Messages.{Address, SearchRequest, Gossiper}
use blockchain_sybil_attack.Node.{State}
use blockchain_sybil_attack.Search.{
  add_to_first, split_budget, peers_but, forward_search_request, is_duplicate,
  handle_search_request,
}

pub sum : List ℕ → ℕ
sum [] = 0
sum (b ∷ bs) = b + sum bs

quotient : (b n : ℕ) → 1 ≤ n → (n * (b / n) ≤ b) × (b < n * (b / n) + n)
quotient b n h = omega arith

-- What the peers are given: everything, in shares that differ by one at most.
pub Fair : ℕ → ℕ → ℕ → List ℕ → Type 0
Fair n base total parts =
    (length parts ≡ n) × (sum parts ≡ total) × All (λ b. (base ≤ b) × (b ≤ base + 1)) parts

Fair-cons :
    (n base total : ℕ) (parts : List ℕ) (b : ℕ)
    → base ≤ b
    → b ≤ base + 1
    → Fair n base total parts
    → Fair (n + 1) base (b + total) (b ∷ parts)
unfolding Fair sum
Fair-cons n base total parts b low high (e, f, h) = (omega arith, omega arith, ((low, high), h))

Fair-replicate : (n base b : ℕ) → base ≤ b → b ≤ base + 1 → Fair n base (n * b) (replicate n b)
unfolding Fair sum
Fair-replicate zero base b low high = (refl, omega arith, tt)
Fair-replicate (suc n) base b low high =
    let (e, f, h) = Fair-replicate n base b low high in (omega arith, omega arith, ((low, high), h))

add_to_first-Fair :
    (k n base : ℕ)
    → k ≤ n
    → (parts : List ℕ) × (add_to_first k (replicate n base) ≡ ok parts)
      × Fair n base (n * base + k) parts
unfolding add_to_first Fair sum
add_to_first-Fair zero n base h =
    let (e, f, g) = Fair-replicate n base base (omega arith) (omega arith) in
    (replicate n base, refl, (e, omega arith, g))
add_to_first-Fair (suc k) zero base h = absurd (omega arith)
add_to_first-Fair (suc k) (suc n) base h =
    let (parts, run, (e, f, g)) = add_to_first-Fair k n base (omega arith) in
    ((base + 1) ∷ parts, ground arith, (omega arith, omega arith, ((omega arith, omega arith), g)))

quotient_small : (b n : ℕ) → 1 ≤ n → b ≤ n → b / n ≤ 1
quotient_small b n h small =
    let below = (div-lt_iff_lt-mul {k = n} {x = b} {y = 2} (omega arith)).1 (omega arith) in
    omega arith

quotient_pos : (b n : ℕ) → 1 ≤ n → n ≤ b → 1 ≤ b / n
quotient_pos b n h large = (le-div_iff_mul-le {k = n} {x = 1} {y = b} (omega arith)).1 (omega arith)

All-pos :
    (base : ℕ) (parts : List ℕ)
    → 1 ≤ base
    → All (λ b. (base ≤ b) × (b ≤ base + 1)) parts
    → All (λ b. 1 ≤ b) parts
All-pos base [] h all = tt
All-pos base (b ∷ parts) h (low, all) = (omega arith, All-pos base parts h all)

All-ones : (n : ℕ) → All (λ b. 1 ≤ b) (replicate n 1)
All-ones zero = tt
All-ones (suc n) = (omega arith, All-ones n)

-- A budget below 2 ^ 63 is split over at least one peer without a panic: the shares add up to the
-- budget, there is one for each peer or for each unit of the budget, whichever is fewer, and each is
-- at least one and is the quotient of the two or one more.
pub split_budget-Fair :
    (budget : ℕ) (peers : List Gossiper)
    → budget < 2 ^ 63
    → 1 ≤ length peers
    → (parts : List ℕ) × (split_budget budget peers ≡ ok parts)
      × Fair (min budget (length peers)) (budget / length peers) budget parts
      × All (λ b. 1 ≤ b) parts
unfolding split_budget Fair sum
split_budget-Fair budget peers small some_peer = elim (Bool-cases (leb budget (length peers))) [
  | inl few ↦
      let (e, f, g) =
        Fair-replicate budget (budget / length peers) 1
          (quotient_small budget (length peers) some_peer (ground arith)) (omega arith) in
      (replicate budget 1, ground arith, (ground arith, omega arith, g), All-ones budget)
  | inr many ↦
      let quot = quotient budget (length peers) some_peer in
      let (parts, run, (e, f, g)) =
        add_to_first-Fair (budget - length peers * (budget / length peers)) (length peers)
          (budget / length peers) (omega arith) in
      (
        parts,
        ground arith,
        (ground arith, omega arith, g),
        All-pos (budget / length peers) parts
            (quotient_pos budget (length peers) some_peer (ground arith)) g,
      )
]

wrapped : (b : ℕ) → 1 ≤ b → b < 2 ^ 64 → (b + 2 ^ 64 - 1) % 2 ^ 64 ≡ b - 1
wrapped b h small = omega arith

-- A search request with budget left that comes from the only peer of the node makes the node panic,
-- since there is no peer to share the budget among.
pub only_peer_search_panics :
    (s : State) (sr : SearchRequest) (from : Address)
    → 1 < sr.budget
    → sr.budget < 2 ^ 64
    → is_duplicate s sr ≡ false
    → peers_but from s.gossipers ≡ []
    → handle_search_request s sr from
      ≡ panic (if leb (2 ^ 63) (sr.budget - 1) then length_out_of_range else divide_by_zero)
unfolding handle_search_request forward_search_request split_budget
only_peer_search_panics s sr from more small fresh alone =
    let less = wrapped sr.budget (omega arith) small in ground arith
