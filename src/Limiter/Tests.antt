-- ===== src/Limiter/Tests.antt =====
-- Runs of the limiter, and each theorem about it at a concrete input.
use loghub.Common.{
  ℕ, ◌+◌, ◌-◌, ◌*◌, ◌≤◌, ◌<◌, ◌≡◌, refl, true, false, List, [], ◌∷◌, some, arith, Bytes, codes,
  bytes_eq,
}
use loghub.Limiter.{
  second, minute, interval, Memory, is_enough, take, Decision, Limiter, new, allow, backend_key,
}
use loghub.Limiter.Rate.{allowed_count, allowed_count_bound}
use loghub.Limiter.Waiting.{refill_time, IsNear, allow_after_wait}

abbrev fresh : Memory
fresh = record { full = λ k. 0; swept = 0 }

abbrev noon : ℕ
noon = 1000 * minute

abbrev one_a_minute : Limiter
one_a_minute = record { name = codes "sign-in"; per_minute = 1; burst = 1 }

-- The second attempt in a minute is refused, and told to wait for what is left of it.
second_refused :
    (allow refill_time one_a_minute
      (allow refill_time one_a_minute fresh noon (codes "a")).0
      (noon + 20 * second)
      (codes "a")).1
    ≡ record {
      allowed = false;
      limit = 1;
      remaining = 0;
      retry_after = 40 * second;
      reset_after = 40 * second;
    }
unfolding allow bytes_eq loghub.Limiter.decide take loghub.Limiter.put
second_refused = refl

burst_decision :
    (allow refill_time
      (record { name = codes "sign-in"; per_minute = 10; burst = 10 })
      fresh
      noon
      (codes "a")).1
    ≡ record {
      allowed = true;
      limit = 10;
      remaining = 9;
      retry_after = 0;
      reset_after = 6 * second;
    }
unfolding allow bytes_eq loghub.Limiter.decide take
burst_decision = refl

abbrev attempts : List (ℕ × Bytes)
attempts =
    (noon, codes "a")
    ∷ (noon, codes "b")
    ∷ (noon + 20 * second, codes "a")
    ∷ (noon + 60 * second, codes "a")
    ∷ []

allowed_twice : allowed_count 1 1 (codes "a") fresh attempts ≡ 2
unfolding allowed_count take bytes_eq loghub.Limiter.put
allowed_twice = refl

allowed_count_bound_example :
    allowed_count 1 1 (codes "a") fresh attempts * interval 1
    ≤ 1 * interval 1 + (noon + 90 * second - noon)
allowed_count_bound_example =
    allowed_count_bound 1 1 (codes "a") fresh attempts noon (noon + 90 * second) (omega arith)

refused_at_20 :
    (allow refill_time one_a_minute
      (allow refill_time one_a_minute fresh noon (codes "a")).0
      (noon + 20 * second)
      (codes "a")).1.allowed
    ≡ false
unfolding allow bytes_eq loghub.Limiter.decide take loghub.Limiter.put
refused_at_20 = refl

told_40 :
    noon
      + 20 * second
      + (allow refill_time one_a_minute
          (allow refill_time one_a_minute fresh noon (codes "a")).0
          (noon + 20 * second)
          (codes "a")).1.retry_after
    < noon + 61 * second
unfolding allow bytes_eq loghub.Limiter.decide take loghub.Limiter.put
told_40 = omega arith

exact-IsNear : IsNear refill_time
exact-IsNear per_minute nanos pos small one = (omega arith, omega arith)

full_soon :
    (allow refill_time one_a_minute fresh noon (codes "a")).0.full
      (backend_key one_a_minute (codes "a"))
    ≤ noon + 20 * second + 1 * interval 1
unfolding allow bytes_eq loghub.Limiter.decide take loghub.Limiter.put
full_soon = omega arith

new-one_a_minute : new (codes "sign-in") 1 ≡ some one_a_minute
unfolding new
new-one_a_minute = refl

allow_after_wait_example :
    (allow refill_time one_a_minute
      (allow refill_time one_a_minute
        (allow refill_time one_a_minute fresh noon (codes "a")).0
        (noon + 20 * second)
        (codes "a")).0
      (noon + 61 * second)
      (codes "a")).1.allowed
    ≡ true
allow_after_wait_example =
    allow_after_wait refill_time (codes "sign-in") 1
      (allow refill_time one_a_minute fresh noon (codes "a")).0 (noon + 20 * second)
      (noon + 61 * second) (codes "a") exact-IsNear new-one_a_minute (omega arith) full_soon
      refused_at_20 told_40
