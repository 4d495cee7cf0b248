-- ===== src/Runner/Pull.antt =====
-- The workers that do some of the work, turn by turn.
use inter_process_communicat.Base.{
  ℕ, zero, suc, ◌≤◌, ◌<◌, ◌≡◌, refl, sym, ap, ◌∙◌, subst, ◌⊎◌, inl, inr, Option, none, some, List,
  [], ◌∷◌, arith, defined, >>=-eq-defined, length, get_elem?, get_elem?-set, set, Option-cases,
  Bool-cases, ◌==◌, ==_iff, if◌then◌else◌, transfer, dec_lt,
}
use inter_process_communicat.Runner.{
  Worker, at_loop, testing, before_wait, asleep, computing, exited, Runner, set_worker,
}
use inter_process_communicat.Runner.Workers.{
  step_if_any, wake_up, woken, Turn, go, spurious, turn, turns,
}
use inter_process_communicat.Runner.Tally.{tally, tally-witness}
use inter_process_communicat.Runner.Shutdown.{Others, step_worker-Others}
use inter_process_communicat.Runner.Alert.{awake, IsAlert, turn-IsAlert}
use inter_process_communicat.Runner.Effort.{effort, work_left, pull, go-Advances, spurious-Advances}

-- How many of the turns are steps of worker `w`.
abbrev pub gos : ℕ → List Turn → ℕ
gos w [] = 0
gos w (go v ∷ ts) = if v == w then suc (gos w ts) else gos w ts
gos w (spurious v ∷ ts) = gos w ts

-- Worker `w` still has something to do.
abbrev pub Pulls : Runner → ℕ → Type 0
Pulls r w = 1 ≤ pull (length r.queue) (get_elem? r.workers w)

turn-work :
    (r : Runner) (t : Turn) {r' : Runner}
    → turn r t ≡ defined r'
    → IsAlert r
    → work_left r' ≤ work_left r
turn-work r (go w) h v = let moved = go-Advances r w h v in omega (arith, moved.less)
turn-work r (spurious w) h v = let moved = spurious-Advances r w h in omega (arith, moved.less)

go-Others : (r : Runner) (v : ℕ) {r' : Runner} → turn r (go v) ≡ defined r' → Others v r r'
unfolding turn
go-Others r v {r'} h = elim (Option-cases (get_elem? r.workers v)) [
  | inl e ↦ transfer (Others v r) (rw (e, step_if_any) at h) (λ w ne. refl)
  | inr (s, e) ↦ step_worker-Others v r s (rw (e, step_if_any) at h)
]

pull-woken : (n : ℕ) (s : Worker) → pull n (some s) ≤ pull n (some (woken s))
pull-woken n asleep = ground arith
pull-woken n at_loop = omega arith
pull-woken n testing = omega arith
pull-woken n before_wait = omega arith
pull-woken n (computing a) = omega arith
pull-woken n exited = omega arith

wake_up-pull :
    (n w v : ℕ) (r : Runner) (o : Option Worker)
    → get_elem? r.workers v ≡ o
    → pull n (get_elem? r.workers w) ≤ pull n (get_elem? (wake_up r v o).workers w)
unfolding wake_up set_worker
wake_up-pull n w v r none e = omega arith
wake_up-pull n w v r (some s) e = elim (Bool-cases (v == w)) [
  | inl same ↦
      let at_w : get_elem? r.workers w ≡ some s =
        ap (get_elem? r.workers) (sym ((==_iff v w).0 same)) ∙ e in
      let now : get_elem? (set r.workers v (woken s)) w ≡ some (woken s) =
        ground (arith, get_elem?-set r.workers v (woken s) w) in
      rw (at_w, now) (pull-woken n s)
  | inr other ↦ rw (get_elem?-set r.workers v (woken s) w, other) (omega arith)
]

spurious-pull :
    (n : ℕ) (r : Runner) (v w : ℕ) {r' : Runner}
    → turn r (spurious v) ≡ defined r'
    → 1 ≤ pull n (get_elem? r.workers w)
    → 1 ≤ pull n (get_elem? r'.workers w)
unfolding turn
spurious-pull n r v w h p =
    transfer (λ (q : Runner). 1 ≤ pull n (get_elem? q.workers w)) h
      (omega (arith, p, wake_up-pull n w v r (get_elem? r.workers v) refl))

-- A turn does some of the work, or is one of another worker, and leaves `w` as it is.
turn-Pulls :
    (r : Runner) (t : Turn) (w : ℕ) {r' : Runner}
    → turn r t ≡ defined r'
    → IsAlert r
    → Pulls r w
    → (work_left r' < work_left r) ⊎ (Pulls r' w × (gos w (t ∷ []) ≡ 0))
turn-Pulls r (go v) w {r'} h alert p =
    let moved = go-Advances r v h alert in
    elim (Bool-cases (v == w)) [
      | inl own ↦
          let pulls : 1 ≤ pull (length r.queue) (get_elem? r.workers v) =
            subst (λ u. 1 ≤ pull (length r.queue) (get_elem? r.workers u))
              (sym ((==_iff v w).0 own)) p in
          inl (omega (arith, moved.less, pulls))
      | inr other ↦ elim moved.queued [
        | inl same ↦ inr (rw (same, go-Others r v h w (ground arith)) p, rw other refl)
        | inr less ↦ inl less
      ]
    ]
turn-Pulls r (spurious v) w {r'} h alert p = elim (spurious-Advances r v h).queued [
  | inl same ↦ inr (rw same (spurious-pull (length r.queue) r v w h p), refl)
  | inr less ↦ inl less
]

pub turns-work :
    (ts : List Turn) (r : Runner) {r' : Runner}
    → turns r ts ≡ defined r'
    → IsAlert r
    → IsAlert r' × (work_left r' ≤ work_left r)
unfolding turns
turns-work [] r {r'} h v =
    transfer (λ q. IsAlert q × (work_left q ≤ work_left r)) h (v, omega arith)
turns-work (t ∷ ts) r h v =
    let (q, first, rest) = >>=-eq-defined (turn r t) (λ q. turns q ts) h in
    let (alert, less) = turns-work ts q rest (turn-IsAlert r t first v) in
    (alert, omega (arith, less, turn-work r t first v))

-- Turns among which is one of a worker with something to do.
pub turns-less :
    (ts : List Turn) (r : Runner) (w : ℕ) {r' : Runner}
    → turns r ts ≡ defined r'
    → IsAlert r
    → Pulls r w
    → 1 ≤ gos w ts
    → work_left r' < work_left r
unfolding turns
turns-less [] r w h v p one = absurd (omega arith)
turns-less (t ∷ ts) r w h v p one =
    let (q, first, rest) = >>=-eq-defined (turn r t) (λ q. turns q ts) h in
    let alert = turn-IsAlert r t first v in
    elim (turn-Pulls r t w first v p) [
      | inl less ↦ let (_, no_more) = turns-work ts q rest alert in omega (arith, less, no_more)
      | inr (still, other) ↦
          let less = turns-less ts q w rest alert still (later t ts other one) in
          omega (arith, less, turn-work r t first v)
    ]
  where
    later : (t : Turn) (ts : List Turn) → gos w (t ∷ []) ≡ 0 → 1 ≤ gos w (t ∷ ts) → 1 ≤ gos w ts
    later (go u) ts none_here some_where = ground arith
    later (spurious u) ts none_here some_where = some_where

get_elem?-some-lt :
    (ws : List Worker) (w : ℕ) (s : Worker) → get_elem? ws w ≡ some s → w < length ws
get_elem?-some-lt [] w s e = absurd (cc)
get_elem?-some-lt (x ∷ ws) zero s e = omega arith
get_elem?-some-lt (x ∷ ws) (suc w) s e = omega (arith, get_elem?-some-lt ws w s e)

effort-pull : (n : ℕ) (s : Worker) → 1 ≤ effort s → 1 ≤ pull n (some s)
effort-pull n s h = ground arith

awake-pull : (n : ℕ) (s : Worker) → 1 ≤ n → 1 ≤ awake s → 1 ≤ pull n (some s)
awake-pull n s few h = ground arith

-- While there is work, a worker has something to do.
pub Pulls-work :
    (r : Runner)
    → IsAlert r
    → 1 ≤ length r.workers
    → 1 ≤ work_left r
    → (w : ℕ) × (w < length r.workers) × Pulls r w
Pulls-work r v staffed left = elim (dec_lt 0 (tally effort r.workers)) [
  | yes busy ↦
      let (w, s, at, one) = tally-witness effort r.workers busy in
      (w, get_elem?-some-lt r.workers w s at, rw at (effort-pull (length r.queue) s one))
  | no idle ↦
      let queued : 1 ≤ length r.queue = omega (arith, left, idle) in
      let ready : 1 ≤ tally awake r.workers = ground (arith, v.served, queued, staffed) in
      let (w, s, at, one) = tally-witness awake r.workers ready in
      (w, get_elem?-some-lt r.workers w s at, rw at (awake-pull (length r.queue) s queued one))
]
