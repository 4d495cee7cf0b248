-- ===== src/Runner/Rounds.antt =====
-- Rounds of turns, in each of which every worker has one.
use inter_process_communicat.Base.{
  ℕ, zero, suc, ◌-◌, ◌≤◌, ◌<◌, ◌≡◌, refl, ap, ◌∙◌, subst, List, [], ◌∷◌, ◌++◌, arith, defined,
  ◌>>=◌, >>=-eq-defined, length, transfer, dec_lt,
}
use inter_process_communicat.Runner.{Runner}
use inter_process_communicat.Runner.Workers.{Turn, turn, turns}
use inter_process_communicat.Runner.Steady.{turn-Steady}
use inter_process_communicat.Runner.Alert.{IsAlert}
use inter_process_communicat.Runner.Effort.{work_left}
use inter_process_communicat.Runner.Pull.{gos, turns-work, turns-less, Pulls-work}

-- The turns begin with `k` rounds, in each of which every one of `n` workers has a turn.
abbrev pub Rounds : ℕ → ℕ → List Turn → Type 0
Rounds n zero ts = Unit
Rounds n (suc k) ts =
    (first : List Turn) × (rest : List Turn) × (ts ≡ first ++ rest)
    × ((w : ℕ) → w < n → 1 ≤ gos w first)
    × Rounds n k rest

turns-append :
    (ts us : List Turn) (r : Runner) {r' : Runner}
    → turns r (ts ++ us) ≡ defined r'
    → (q : Runner) × (turns r ts ≡ defined q) × (turns q us ≡ defined r')
unfolding turns
turns-append [] us r h = (r, refl, h)
turns-append (t ∷ ts) us r h =
    let (q, first, rest) = >>=-eq-defined (turn r t) (λ q. turns q (ts ++ us)) h in
    let (p, before, after) = turns-append ts us q rest in
    (p, ap (λ m. m >>= λ q. turns q ts) first ∙ before, after)

turns-length :
    (ts : List Turn) (r : Runner) {r' : Runner}
    → turns r ts ≡ defined r'
    → length r'.workers ≡ length r.workers
unfolding turns
turns-length [] r h = transfer (λ (q : Runner). length q.workers ≡ length r.workers) h refl
turns-length (t ∷ ts) r h =
    let (q, first, rest) = >>=-eq-defined (turn r t) (λ q. turns q ts) h in
    turns-length ts q rest ∙ (turn-Steady r t first).1

pub Rounds-work :
    (n k : ℕ) (ts : List Turn) (r : Runner) {r' : Runner}
    → turns r ts ≡ defined r'
    → IsAlert r
    → length r.workers ≡ n
    → 1 ≤ n
    → Rounds n k ts
    → work_left r' ≤ work_left r - k
Rounds-work n zero ts r h v e staffed fair =
    let (_, less) = turns-work ts r h v in omega (arith, less)
Rounds-work n (suc k) ts r {r'} h v e staffed (first, rest, cut, all, fair) =
    let (q, before, after) =
      turns-append first rest r (subst (λ ts. turns r ts ≡ defined r') cut h) in
    let (alert, less) = turns-work first r before v in
    let later = Rounds-work n k rest q after alert (turns-length first r before ∙ e) staffed fair in
    elim (dec_lt 0 (work_left r)) [
      | yes left ↦
          let (w, exists, p) = Pulls-work r v (omega (arith, e, staffed)) left in
          let done = turns-less first r w before v p (all w (omega (arith, exists, e))) in
          omega (arith, later, done)
      | no nothing ↦ omega (arith, later, less, nothing)
    ]
