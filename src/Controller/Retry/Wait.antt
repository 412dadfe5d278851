-- ===== src/Controller/Retry/Wait.antt =====
-- The wait before a retry, in int64 arithmetic.
use github_app_operator.Base.{ℕ, zero, suc, ◌+◌, ◌-◌, ◌*◌, ◌^◌, ◌≤◌, ◌<◌, ◌≡◌, arith}
use github_app_operator.Base.Int.{
  pos, neg_part, wrap64-pos, wrap64-high, wrap64-negsuc, *ℤ-pos, +ℤ-pos, +ℤ-negsuc,
}
use github_app_operator.Controller.Config.{second, millisecond}
use github_app_operator.Controller.Retry.{wait_time, max_retries}

-- The exact wait, in nanoseconds.
abbrev pub exact_wait : ℕ → ℕ → ℕ → ℕ
exact_wait n i jitter = n * second * 2 ^ i + jitter * millisecond

wait_time-pos :
    (n i j : ℕ)
    → n * second * 2 ^ i + j * millisecond < 9223372036854775808
    → n * second < 9223372036854775808
    → n * second * 2 ^ i < 9223372036854775808
    → j * millisecond < 9223372036854775808
    → wait_time (pos n) i j ≡ pos (exact_wait n i j)
unfolding wait_time
wait_time-pos n i j h a b c = rw (
  *ℤ-pos n second,
  wrap64-pos (n * second) a,
  *ℤ-pos (n * second) (2 ^ i),
  wrap64-pos (n * second * 2 ^ i) b,
  wrap64-pos (j * millisecond) c,
  +ℤ-pos (n * second * 2 ^ i) (j * millisecond),
  wrap64-pos _ h,
)

-- In each of the five rounds, a retry-after of at most 576460752 seconds is waited for exactly,
-- doubled in each round and with the jitter of less than 500 milliseconds added: the int64
-- arithmetic does not wrap.
pub wait_time-exact :
    (n i jitter : ℕ)
    → n ≤ 576460752
    → i < max_retries
    → jitter < 500
    → wait_time (pos n) i jitter ≡ pos (exact_wait n i jitter)
wait_time-exact n zero j h k l =
    wait_time-pos n 0 j (omega arith) (omega arith) (omega arith) (omega arith)
wait_time-exact n (suc zero) j h k l =
    wait_time-pos n 1 j (omega arith) (omega arith) (omega arith) (omega arith)
wait_time-exact n (suc (suc zero)) j h k l =
    wait_time-pos n 2 j (omega arith) (omega arith) (omega arith) (omega arith)
wait_time-exact n (suc (suc (suc zero))) j h k l =
    wait_time-pos n 3 j (omega arith) (omega arith) (omega arith) (omega arith)
wait_time-exact n (suc (suc (suc (suc zero)))) j h k l =
    wait_time-pos n 4 j (omega arith) (omega arith) (omega arith) (omega arith)
wait_time-exact n (suc (suc (suc (suc (suc i))))) j h k l = absurd (omega arith)

-- A retry-after from 576460753 to 1152921503 seconds wraps round in the fifth round, with a jitter
-- of less than 500 milliseconds: the wait is negative.
pub wait_time-wraps :
    (n jitter : ℕ)
    → 576460753 ≤ n
    → n ≤ 1152921503
    → jitter < 500
    → 0 < neg_part (wait_time (pos n) 4 jitter)
unfolding wait_time
wait_time-wraps n j h k l =
    let m = 18446744073709551615 - n * second * 16 in
    rw
      (
        *ℤ-pos n second,
        wrap64-pos (n * second) (omega arith),
        *ℤ-pos (n * second) 16,
        wrap64-high (n * second * 16) (omega arith) (omega arith),
        wrap64-pos (j * millisecond) (omega arith),
        +ℤ-negsuc m (j * millisecond) (omega arith),
        wrap64-negsuc (m - j * millisecond) (omega arith),
      )
      (omega arith)
