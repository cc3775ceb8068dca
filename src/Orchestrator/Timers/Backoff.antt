-- ===== src/Orchestrator/Timers/Backoff.antt =====
-- The back-off of scheduleRetry in internal/orchestrator/orchestrator.go doubles up to its cap.
use native.Mathlib.Nat.{pow-suc}
use my_symphony.Base.{
  ◌≤ℤ◌, ◌-◌, ℤ, true, false, ◌≤◌, ◌≡◌, ◌^◌, ◌*◌, ◌*ℤ◌, ℕ, zero, suc, refl, pos, ltb, if◌then◌else◌,
  arith,
}
use my_symphony.Orchestrator.Timers.{retry_delay, clamp_attempt, milliseconds, backoff_ms}
use my_symphony.Go.Int64.{float_of_ℕ_exact, wrap, mul64, float_of_int}

-- The back-off in milliseconds as the specification puts it: 10 s, doubled for every attempt.
pub doubling : ℕ → ℕ
doubling zero = 10_000
doubling (suc k) = 2 * doubling k

pub least : ℕ → ℕ → ℕ
least a b = if ltb a b then a else b

-- The greatest number of milliseconds whose nanoseconds are an int64.
abbrev pub max_ms : ℕ
max_ms = 9_223_372_036_854

milliseconds_exact : (x : ℕ) → x ≤ max_ms → milliseconds (wrap (pos x)) ≡ pos (x * 1_000_000)
unfolding milliseconds mul64 ◌*ℤ◌
milliseconds_exact x h = ground arith

doubling-pow : (k : ℕ) → 10_000 * 2 ^ k ≡ doubling k
unfolding doubling
doubling-pow zero = refl
doubling-pow (suc k) = omega (arith, pow-suc 2 k, doubling-pow k)

clamp_attempt_pos : (k : ℕ) → clamp_attempt (pos (suc k)) ≡ pos (suc k)
unfolding clamp_attempt
clamp_attempt_pos k = ground arith

suc-sub_one : (k : ℕ) → suc k - 1 ≡ k
suc-sub_one k = omega arith

backoff_ms_lem :
    (k cap : ℕ) → cap ≤ max_ms → backoff_ms (pos (suc k)) (pos cap) ≡ pos (least (doubling k) cap)
unfolding backoff_ms float_of_int least
backoff_ms_lem k cap h =
    rw (clamp_attempt_pos k, suc-sub_one k, doubling-pow k, float_of_ℕ_exact cap (omega arith))
      (ground arith)

least-le : (a b : ℕ) → least a b ≤ b
unfolding least
least-le a b = ground arith

-- The delay before the retry of attempt k + 1 after a failure is 10 s doubled k times, held to the
-- configured cap, in nanoseconds; no overflow occurs for a cap of up to 292 years. A continuation
-- waits 1 s, whatever the attempt and the cap.
pub retry_delay_lem :
    (k cap : ℕ)
    → cap ≤ max_ms
    → (retry_delay false (pos (suc k)) (pos cap) ≡ pos (least (doubling k) cap * 1_000_000))
      × ((attempt any_cap : ℤ) → retry_delay true attempt any_cap ≡ pos 1_000_000_000)
unfolding retry_delay
retry_delay_lem k cap h = (
  rw (backoff_ms_lem k cap h)
      (milliseconds_exact (least (doubling k) cap) (omega (arith, least-le (doubling k) cap))),
  λ attempt any_cap. one_second,
)
  where
    one_second : milliseconds (pos 1000) ≡ pos 1_000_000_000
    one_second = milliseconds_exact 1000 (omega arith)

doubling_mono : (j k : ℕ) → j ≤ k → doubling j ≤ doubling k
unfolding doubling
doubling_mono zero zero h = omega arith
doubling_mono zero (suc k) h = omega (arith, doubling_mono zero k (omega arith))
doubling_mono (suc j) zero h = absurd (omega arith)
doubling_mono (suc j) (suc k) h = omega (arith, doubling_mono j k (omega arith))

least_mono : (a b c : ℕ) → a ≤ b → least a c ≤ least b c
unfolding least
least_mono a b c h = ground arith

-- Later attempts never wait less, and none waits longer than the cap.
pub retry_delay_mono :
    (j k cap : ℕ)
    → cap ≤ max_ms
    → j ≤ k
    → (retry_delay false (pos (suc j)) (pos cap) ≤ℤ retry_delay false (pos (suc k)) (pos cap))
      × (retry_delay false (pos (suc k)) (pos cap) ≤ℤ pos (cap * 1_000_000))
retry_delay_mono j k cap h le =
    rw ((retry_delay_lem j cap h).0, (retry_delay_lem k cap h).0)
      (
        omega (arith, least_mono (doubling j) (doubling k) cap (doubling_mono j k le)),
        omega (arith, least-le (doubling k) cap),
      )
