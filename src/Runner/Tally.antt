-- ===== src/Runner/Tally.antt =====
-- Sums over the workers.
use inter_process_communicat.Base.{
  ℕ, zero, suc, ◌+◌, ◌≤◌, ◌≡◌, refl, ap, Bool, List, [], ◌∷◌, ◌++◌, map, some, arith, get_elem?,
  set, dec_lt,
}
use inter_process_communicat.Runner.{
  Worker, at_loop, testing, before_wait, asleep, computing, exited,
}
use inter_process_communicat.Runner.Workers.{spawn}
use inter_process_communicat.Runner.Submit.{wake_first, signal}

module _ (f : Worker → ℕ) where
  abbrev pub tally : List Worker → ℕ
  tally [] = 0
  tally (w ∷ ws) = f w + tally ws

  pub tally-set :
      (ws : List Worker) (w : ℕ) (s t : Worker)
      → get_elem? ws w ≡ some s
      → tally (set ws w t) + f s ≡ tally ws + f t
  tally-set [] w s t e = cc
  tally-set (x ∷ ws) zero s t e = let same : x ≡ s = cc in omega (arith, ap f same)
  tally-set (x ∷ ws) (suc w) s t e = omega (arith, tally-set ws w s t e)

  pub tally-map :
      (g : Worker → Worker)
      → ((s : Worker) → f (g s) ≡ f s)
      → (ws : List Worker) → tally (map g ws) ≡ tally ws
  tally-map g h [] = refl
  tally-map g h (w ∷ ws) = omega (arith, h w, tally-map g h ws)

  pub tally-append : (ws vs : List Worker) → tally (ws ++ vs) ≡ tally ws + tally vs
  tally-append [] vs = omega arith
  tally-append (w ∷ ws) vs = omega (arith, tally-append ws vs)

  pub tally-member :
      (ws : List Worker) (w : ℕ) (s : Worker) → get_elem? ws w ≡ some s → f s ≤ tally ws
  tally-member [] w s e = absurd (cc)
  tally-member (x ∷ ws) zero s e = let same : x ≡ s = cc in omega (arith, ap f same)
  tally-member (x ∷ ws) (suc w) s e = omega (arith, tally-member ws w s e)

  -- A worker that contributes to the sum.
  pub tally-witness :
      (ws : List Worker)
      → 1 ≤ tally ws
      → (w : ℕ) × (s : Worker) × (get_elem? ws w ≡ some s) × (1 ≤ f s)
  tally-witness [] h = absurd (omega arith)
  tally-witness (x ∷ ws) h = elim (dec_lt 0 (f x)) [
    | yes one ↦ (zero, x, refl, one)
    | no none_here ↦
        let (w, s, at, one) = tally-witness ws (omega (arith, h)) in (suc w, s, at, one)
  ]

  module _ (same : f asleep ≡ f testing) where
    tally-wake_first : (ws : List Worker) → tally (wake_first ws) ≡ tally ws
    unfolding wake_first
    tally-wake_first [] = refl
    tally-wake_first (asleep ∷ ws) = omega (arith, same)
    tally-wake_first (at_loop ∷ ws) = omega (arith, tally-wake_first ws)
    tally-wake_first (testing ∷ ws) = omega (arith, tally-wake_first ws)
    tally-wake_first (before_wait ∷ ws) = omega (arith, tally-wake_first ws)
    tally-wake_first (computing a ∷ ws) = omega (arith, tally-wake_first ws)
    tally-wake_first (exited ∷ ws) = omega (arith, tally-wake_first ws)

    -- Where a sleeping worker counts as much as one that it wakes.
    pub tally-signal : (pick : ℕ) (ws : List Worker) → tally (signal pick ws) ≡ tally ws
    unfolding signal
    tally-signal pick ws =
        ground (arith, same, tally-wake_first ws, tally-set ws pick asleep testing)

  pub tally-spawn : f at_loop ≡ 0 → (n i : ℕ) (created : ℕ → Bool) → tally (spawn n i created) ≡ 0
  unfolding spawn
  tally-spawn h zero i created = refl
  tally-spawn h (suc n) i created = ground (arith, h, tally-spawn h n (suc i) created)

pub tally-le :
    (f g : Worker → ℕ) → ((s : Worker) → f s ≤ g s) → (ws : List Worker) → tally f ws ≤ tally g ws
tally-le f g h [] = omega arith
tally-le f g h (w ∷ ws) = omega (arith, h w, tally-le f g h ws)
