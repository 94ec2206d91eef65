-- ===== src/Supervisor/Runner/Backoff.antt =====
-- internal/supervisor/runner.go: the sequence of backoff delays.
use zpinit.Base.{ℕ, zero, suc, ◌+◌, ◌-◌, ◌*◌, ◌^◌, ◌≤◌, ◌<◌, ◌≡◌, ap, arith}
use Prim.Native.Nat.{min}
use native.Mathlib.Nat.{pow-suc}
use zpinit.Base.Int.{ℤ, pos, negsuc, pos_part, neg_part, ◌+ℤ◌}
use zpinit.Config.Types.{Service}
use zpinit.Supervisor.Runner.State.{Runner}
use zpinit.Supervisor.Runner.Handlers.{
  World, backoff_step, base_delay, following_delay, jittered, fresh_budget, wrap64,
}

-- The runner after `n` backoff steps.
pub steps : World → ℕ → Runner → Runner
steps w zero r = r
steps w (suc n) r = (backoff_step w (steps w n r)).1

-- The jitter moves a delay by a tenth of it at most, either way.
pub record IsTenth (w : World) : Type 0 where
  pub tenth : (d : ℕ) → 10 * (pos_part (w.shift (pos d)) + neg_part (w.shift (pos d))) ≤ d

wrap64_small : (x : ℕ) → x < 2 ^ 63 → wrap64 (pos x) ≡ pos x
unfolding wrap64
wrap64_small x h = ground arith

double_pos : (d : ℕ) → pos d +ℤ pos d ≡ pos (d + d)
unfolding ◌+ℤ◌
double_pos d = ground arith

following_delay_lem :
    (cfg : Service) (d m : ℕ)
    → cfg.backoff_max ≡ pos m
    → d ≤ m
    → m < 2 ^ 62
    → following_delay cfg (pos d) ≡ pos (min (d + d) m)
unfolding following_delay
following_delay_lem cfg d m e le big =
    ground (arith, double_pos d, wrap64_small (d + d) (omega arith))

-- the delay of step `n`, before the jitter
abbrev pub capped : ℕ → ℕ → ℕ → ℕ
capped i m n = min (i * 2 ^ n) m

doubled : (i n : ℕ) → i * 2 ^ suc n ≡ i * 2 ^ n + i * 2 ^ n
doubled i n = omega (arith, ap (λ (t : ℕ). i * t) (pow-suc 2 n))

steps-next_delay :
    (w : World) (r : Runner) (i m : ℕ)
    → r.cfg.backoff_initial ≡ pos i
    → r.cfg.backoff_max ≡ pos m
    → 0 < i
    → i ≤ m
    → m < 2 ^ 62
    → (n : ℕ)
    → ((steps w n (fresh_budget r)).cfg ≡ r.cfg)
      × ((steps w n (fresh_budget r)).next_delay ≡ pos (capped i m n))
      × (0 < capped i m n)
unfolding steps fresh_budget backoff_step base_delay
steps-next_delay w r i m ei em low le big zero = ground arith
steps-next_delay w r i m ei em low le big (suc n) =
    let ih = steps-next_delay w r i m ei em low le big n in
    ground (arith, ih, following_delay_lem r.cfg (capped i m n) m em (omega arith) big, doubled i n)

-- a delay and its jitter: the sum is not negative, and within a tenth
jitter_sum :
    (d : ℕ) (s : ℤ)
    → 10 * (pos_part s + neg_part s) ≤ d
    → (y : ℕ) × (pos d +ℤ s ≡ pos y) × (9 * d ≤ 10 * y) × (10 * y ≤ 11 * d)
unfolding ◌+ℤ◌
jitter_sum d (pos k) h = (d + k, ground arith, omega arith, omega arith)
jitter_sum d (negsuc k) h = (d - suc k, ground arith, omega arith, omega arith)

jittered_tenth :
    (w : World) (d : ℕ)
    → IsTenth w
    → d < 2 ^ 62
    → (y : ℕ) × (jittered w (pos d) ≡ pos y) × (9 * d ≤ 10 * y) × (10 * y ≤ 11 * d)
unfolding jittered
jittered_tenth w d t h =
    let (y, e, low, up) = jitter_sum d (w.shift (pos d)) (t.tenth d) in
    (y, rw (e, wrap64_small y (omega arith)) (ground arith), low, up)

-- After a fresh start of a service with 0 < backoff_initial ≤ backoff_max < 2^62 ns, the delay of
-- backoff step n (from 0) is within a tenth of backoff_initial * 2^n, capped at backoff_max, if the
-- jitter keeps to a tenth. The doubling never overflows.
pub backoff_delays :
    (w : World) (r : Runner) (i m n : ℕ)
    → IsTenth w
    → r.cfg.backoff_initial ≡ pos i
    → r.cfg.backoff_max ≡ pos m
    → 0 < i
    → i ≤ m
    → m < 2 ^ 62
    → (y : ℕ) × ((backoff_step w (steps w n (fresh_budget r))).0 ≡ pos y)
      × (9 * capped i m n ≤ 10 * y)
      × (10 * y ≤ 11 * capped i m n)
unfolding backoff_step base_delay
backoff_delays w r i m n t ei em low le big =
    let (same, e, up) = steps-next_delay w r i m ei em low le big n in
    let (y, ey, ylow, yup) = jittered_tenth w (capped i m n) t (omega arith) in
    (y, ground (arith, e, ey), ylow, yup)
