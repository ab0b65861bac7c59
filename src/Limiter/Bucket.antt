-- ===== src/Limiter/Bucket.antt =====
-- The token bucket: how many tokens a limiter can grant.
use native.Mathlib.Nat.{mul-div-le, le-div_iff_mul-le, mul_comm, add_assoc, add-zero}
use dd_opentracing_cpp.Prelude.{
  ℕ, ◌+◌, ◌-◌, ◌*◌, ◌/◌, ◌≤◌, ◌<◌, ◌≡◌, refl, List, [], ◌∷◌, arith, leb, if◌then◌else◌, Bool-cases,
  inl, inr,
}
use dd_opentracing_cpp.Floats.{Floats}
use dd_opentracing_cpp.Limiter.{
  Limiter, make_limiter, update_rates, refill, decide_tokens, ready, allow_tokens, serve,
}

-- What the clock read at each request lies between two times.
abbrev pub Between : ℕ → ℕ → List (ℕ × ℕ) → Type 0
Between start end_time [] = Unit {0}
Between start end_time ((now, tokens) ∷ requests) =
    (start ≤ now) × (now ≤ end_time) × Between start end_time requests

module _ {D : Type 0} (fl : Floats D) (capacity interval per_refresh start : ℕ) where
  -- The account of a limiter made at `start`, up to the time `end_time`: `granted` tokens were
  -- given out, and the bucket was refilled `refills` times, all of them by then.
  pub record Account (end_time granted refills : ℕ) (l : Limiter D) : Type 0 where
    pub max_kept : l.max_tokens ≡ capacity
    pub interval_kept : l.refresh_interval ≡ interval
    pub refresh_kept : l.tokens_per_refresh ≡ per_refresh
    pub paid : granted + l.num_tokens ≤ capacity + per_refresh * refills
    pub due : l.next_refresh ≡ start + interval * (refills + 1)
    pub past : start + interval * refills ≤ end_time

  refills_by : ℕ → ℕ → Limiter D → ℕ
  refills_by now refills l =
      if leb l.next_refresh now
      then refills + ((now - l.next_refresh) / l.refresh_interval + 1)
      else refills

  Account-refill :
      (end_time granted refills now : ℕ) (l : Limiter D)
      → now ≤ end_time
      → Account end_time granted refills l
      → Account end_time granted (refills_by now refills l) (refill fl now l)
  unfolding refill refills_by
  Account-refill end_time granted refills now l h a = elim (Bool-cases (leb l.next_refresh now)) [
    | inl e ↦
        rw (e, refill, refills_by)
          (record {
            max_kept = a.max_kept;
            interval_kept = a.interval_kept;
            refresh_kept = a.refresh_kept;
            paid = grind (arith, a.paid, a.max_kept, a.refresh_kept);
            due = grind (arith, a.due, a.interval_kept);
            past = grind (
              arith,
              mul-div-le (now - l.next_refresh) l.refresh_interval,
              a.due,
              a.interval_kept,
            );
          })
    | inr e ↦ rw (e, refill, refills_by) a
  ]

  Account-update_rates :
      (end_time granted refills now : ℕ) (l : Limiter D)
      → Account end_time granted refills l
      → Account end_time granted refills (update_rates fl now l)
  unfolding update_rates
  Account-update_rates end_time granted refills now l a = ground arith

  Account-ready :
      (end_time granted refills now : ℕ) (l : Limiter D)
      → now ≤ end_time
      → Account end_time granted refills l
      → (n : ℕ) × Account end_time granted n (ready fl now l)
  unfolding ready
  Account-ready end_time granted refills now l h a =
      let u = update_rates fl now l in
      let counted : Limiter D = record u { num_requested = u.num_requested + 1 } in
      let b = Account-update_rates end_time granted refills now l a in
      (
        refills_by now refills counted,
        Account-refill end_time granted refills now counted h (record {
          max_kept = b.max_kept;
          interval_kept = b.interval_kept;
          refresh_kept = b.refresh_kept;
          paid = b.paid;
          due = b.due;
          past = b.past;
        }),
      )

  Account-decide_tokens :
      (end_time granted refills tokens : ℕ) (l : Limiter D)
      → Account end_time granted refills l
      → Account end_time
          (granted + (if (decide_tokens fl tokens l).1 then tokens else 0))
          refills
          (decide_tokens fl tokens l).0
  unfolding decide_tokens
  Account-decide_tokens end_time granted refills tokens l a = ground arith

  Account-serve :
      (end_time : ℕ) (requests : List (ℕ × ℕ)) (granted refills : ℕ) (l : Limiter D)
      → Between start end_time requests
      → Account end_time granted refills l
      → (n : ℕ) × Account end_time (granted + (serve fl requests l).1) n (serve fl requests l).0
  unfolding serve allow_tokens
  Account-serve end_time [] granted refills l h a = (refills, rw (add-zero granted) a)
  Account-serve end_time ((now, tokens) ∷ requests) granted refills l (_, h, hs) a =
      let (n, b) = Account-ready end_time granted refills now l h a in
      let c = Account-decide_tokens end_time granted n tokens (ready fl now l) b in
      let (m, d) =
        Account-serve end_time requests
          (granted + (if (decide_tokens fl tokens (ready fl now l)).1 then tokens else 0)) n
          (decide_tokens fl tokens (ready fl now l)).0 hs c in
      (m, rw (← add_assoc granted) d)

granted_bound :
    (granted tokens capacity per_refresh interval n span : ℕ)
    → 0 < interval
    → granted + tokens ≤ capacity + per_refresh * n
    → interval * n ≤ span
    → granted ≤ capacity + per_refresh * (span / interval)
granted_bound granted tokens capacity per_refresh interval n span hi hp hn =
    let fits : n ≤ span / interval = (le-div_iff_mul-le hi).1 (rw (mul_comm n interval) hn) in
    grind (arith, fits)

module _ {D : Type 0} (fl : Floats D) where
  Account-make_limiter :
      (start max_tokens per_refresh end_time : ℕ) (rate : D)
      → start ≤ end_time
      → Account fl max_tokens
          (fl.interval rate * per_refresh)
          per_refresh
          start
          end_time
          0
          0
          (make_limiter fl start max_tokens rate per_refresh)
  unfolding make_limiter
  Account-make_limiter start max_tokens per_refresh end_time rate h = record {
    max_kept = refl;
    interval_kept = refl;
    refresh_kept = refl;
    paid = omega arith;
    due = grind arith;
    past = grind arith;
  }

  -- However the requests fall between `start` and `end_time`, a limiter made at `start` with a
  -- positive refresh interval grants at most the tokens that it began with and those of the
  -- refreshes that fit into that time.
  pub serve-le :
      (start max_tokens per_refresh end_time : ℕ) (rate : D) (requests : List (ℕ × ℕ))
      → 0 < fl.interval rate * per_refresh
      → start ≤ end_time
      → Between start end_time requests
      → (serve fl requests (make_limiter fl start max_tokens rate per_refresh)).1
        ≤ max_tokens + per_refresh * ((end_time - start) / (fl.interval rate * per_refresh))
  serve-le start max_tokens per_refresh end_time rate requests hi he hs =
      let (n, a) =
        Account-serve fl max_tokens (fl.interval rate * per_refresh) per_refresh start end_time
          requests 0 0 _ hs (Account-make_limiter start max_tokens per_refresh end_time rate he) in
      omega (
        arith,
        granted_bound _
            (serve fl requests (make_limiter fl start max_tokens rate per_refresh)).0.num_tokens
            max_tokens per_refresh _ n (end_time - start) hi a.paid (omega (arith, a.past)),
      )
