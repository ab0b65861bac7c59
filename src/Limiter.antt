-- ===== src/Limiter.antt =====
-- src/limiter.h and limiter.cpp: a token bucket, and the effective rate of the last ten periods.
-- Times are nanoseconds of the steady clock. The counters are `long`, on which overflow is
-- undefined: they are natural numbers, which is what the defined runs compute. The clock's reading
-- is an argument. A reading before `current_period` gives a negative duration, for which the test
-- `intervals > 0` fails; so does it at 0, to which subtraction stops here.
pub mod Bucket
pub mod Rates
use dd_opentracing_cpp.Prelude.{
  ℕ, ◌+◌, ◌-◌, ◌*◌, ◌/◌, Bool, true, false, List, [], ◌∷◌, ◌++◌, ltb, leb, if◌then◌else◌, length,
  take, set, replicate, drop, min,
}
use dd_opentracing_cpp.Floats.{Floats}

pub record Limiter (D : Type 0) : Type 0 where
  pub num_tokens : ℕ
  pub max_tokens : ℕ
  pub refresh_interval : ℕ
  pub tokens_per_refresh : ℕ
  pub next_refresh : ℕ
  pub previous_rates : List D
  pub previous_rates_sum : D
  pub current_period : ℕ
  pub num_allowed : ℕ
  pub num_requested : ℕ

pub record LimitResult (D : Type 0) : Type 0 where
  pub allowed : Bool
  pub effective_rate : D

-- A second in nanoseconds.
abbrev pub second : ℕ
second = 1000000000

module _ {D : Type 0} (fl : Floats D) where
  -- `std::accumulate(begin, end, sum)`.
  unfoldable pub accumulate : D → List D → D
  accumulate sum [] = sum
  accumulate sum (x ∷ xs) = accumulate (fl.add sum x) xs

  -- `Limiter(now_func, max_tokens, refresh_rate, tokens_per_refresh)`.
  unfoldable pub make_limiter : ℕ → ℕ → D → ℕ → Limiter D
  make_limiter now max_tokens refresh_rate tokens_per_refresh = record {
    num_tokens = max_tokens;
    max_tokens = max_tokens;
    refresh_interval = fl.interval refresh_rate * tokens_per_refresh;
    tokens_per_refresh = tokens_per_refresh;
    next_refresh = now + fl.interval refresh_rate * tokens_per_refresh;
    previous_rates = replicate 9 fl.rate_one;
    previous_rates_sum = accumulate fl.rate_zero (replicate 9 fl.rate_one);
    current_period = now / second * second;
    num_allowed = 0;
    num_requested = 0;
  }

  -- `Limiter(now_func, allowed_per_second)`.
  unfoldable pub make_limiter_per_second : ℕ → D → Limiter D
  unfolding make_limiter
  make_limiter_per_second now allowed_per_second =
      make_limiter now (fl.ceil allowed_per_second) allowed_per_second 1

  -- Whole seconds from the current period to the second that `now` lies in.
  abbrev pub elapsed_periods : ℕ → Limiter D → ℕ
  elapsed_periods now l = (now / second * second - l.current_period) / second

  -- The rate of the period that ends.
  abbrev pub last_rate : Limiter D → D
  last_rate l =
      if ltb 0 l.num_requested then fl.ratio l.num_allowed l.num_requested else fl.rate_one

  -- `std::fill(begin + 1, end, 1.0)`.
  abbrev pub fill_tail : List D → List D
  fill_tail [] = []
  fill_tail (x ∷ xs) = x ∷ replicate (length xs) fl.rate_one

  -- `std::move_backward(begin, end - intervals, end)`: the first `intervals` entries stay.
  abbrev pub move_backward : ℕ → List D → List D
  move_backward intervals xs = take intervals xs ++ take (length xs - intervals) xs

  -- `std::fill(begin, begin + n, 1.0)`.
  abbrev pub fill_front : ℕ → List D → List D
  fill_front n xs = replicate (min n (length xs)) fl.rate_one ++ drop n xs

  unfoldable pub shift_rates : ℕ → D → List D → List D
  shift_rates intervals rate xs =
      if leb (length xs) intervals
      then fill_tail xs
      else fill_front (intervals - 2) (set (move_backward intervals xs) (intervals - 1) rate)

  -- "update effective rate calculations"
  unfoldable pub update_rates : ℕ → Limiter D → Limiter D
  unfolding shift_rates accumulate
  update_rates now l =
      let rates = shift_rates (elapsed_periods now l) (last_rate l) l.previous_rates in
      if ltb 0 (elapsed_periods now l)
      then record l {
        previous_rates = rates;
        previous_rates_sum = accumulate fl.rate_zero rates;
        num_allowed = 0;
        num_requested = 0;
        current_period = now;
      }
      else l

  -- "refill tokens"
  unfoldable pub refill : ℕ → Limiter D → Limiter D
  refill now l =
      let intervals = (now - l.next_refresh) / l.refresh_interval + 1 in
      if leb l.next_refresh now
      then record l {
        next_refresh = l.next_refresh + l.refresh_interval * intervals;
        num_tokens = min (l.num_tokens + intervals * l.tokens_per_refresh) l.max_tokens;
      }
      else l

  -- "determine if allowed or not"
  unfoldable pub decide_tokens : ℕ → Limiter D → Limiter D × Bool
  decide_tokens tokens_requested l =
      if leb tokens_requested l.num_tokens
      then (
        record l { num_allowed = l.num_allowed + 1; num_tokens = l.num_tokens - tokens_requested },
        true,
      )
      else (l, false)

  unfoldable pub effective_rate_of : Limiter D → D
  effective_rate_of l =
      fl.over (fl.add l.previous_rates_sum (fl.ratio l.num_allowed l.num_requested))
        (length l.previous_rates + 1)

  -- The state in which `allow` decides: the clock has been read and the request counted.
  unfoldable pub ready : ℕ → Limiter D → Limiter D
  unfolding update_rates refill
  ready now l =
      let counted = update_rates now l in
      refill now (record counted { num_requested = counted.num_requested + 1 })

  -- `allow(tokens_requested)`.
  unfoldable pub allow_tokens : ℕ → ℕ → Limiter D → Limiter D × LimitResult D
  unfolding decide_tokens effective_rate_of
  allow_tokens now tokens_requested l =
      let (l', allowed) = decide_tokens tokens_requested (ready now l) in
      (l', record { allowed = allowed; effective_rate = effective_rate_of l' })

  -- `allow()`.
  unfoldable pub allow : ℕ → Limiter D → Limiter D × LimitResult D
  allow now l = allow_tokens now 1 l

  -- A history of requests, each with the clock's reading; the tokens granted in all.
  unfoldable pub serve : List (ℕ × ℕ) → Limiter D → Limiter D × ℕ
  serve [] l = (l, 0)
  serve ((now, tokens) ∷ requests) l =
      let (l', result) = allow_tokens now tokens l in
      let (l'', granted) = serve requests l' in
      (l'', (if result.allowed then tokens else 0) + granted)
