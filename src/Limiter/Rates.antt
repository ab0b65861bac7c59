-- ===== src/Limiter/Rates.antt =====
-- The window of previous rates: what `allow` does to it when a period has ended.
use dd_opentracing_cpp.Prelude.{
  tests, ==_iff, ltb, ℕ, zero, suc, ◌+◌, ◌-◌, ◌≤◌, ◌<◌, ◌≡◌, refl, sym, ap, ◌∙◌, some, List, [],
  ◌∷◌, ◌++◌, arith, leb, if◌then◌else◌, ◌==◌, Bool-cases, min, inl, inr, length, take, drop,
  replicate, set, get_elem?, length-append, length-take, length-drop, length-replicate, length-set,
  get_elem?-set_self, get_elem?-set_ne,
}
use dd_opentracing_cpp.Floats.{Floats}
use dd_opentracing_cpp.Limiter.{fill_front, move_backward, shift_rates}

module _ {ℓ} {A : Type ℓ} where
  get_elem?-append_left :
      (xs ys : List A) (i : ℕ) → i < length xs → get_elem? (xs ++ ys) i ≡ get_elem? xs i
  get_elem?-append_left [] ys i h = absurd (omega arith)
  get_elem?-append_left (x ∷ xs) ys zero h = refl
  get_elem?-append_left (x ∷ xs) ys (suc i) h = get_elem?-append_left xs ys i (omega arith)

  get_elem?-append_right :
      (xs ys : List A) (i : ℕ) → get_elem? (xs ++ ys) (length xs + i) ≡ get_elem? ys i
  get_elem?-append_right [] ys i = ground (arith)
  get_elem?-append_right (x ∷ xs) ys i = ground (arith, get_elem?-append_right xs ys i)

  get_elem?-take : (n : ℕ) (xs : List A) (i : ℕ) → i < n → get_elem? (take n xs) i ≡ get_elem? xs i
  get_elem?-take zero xs i h = absurd (omega arith)
  get_elem?-take (suc n) [] i h = refl
  get_elem?-take (suc n) (x ∷ xs) zero h = refl
  get_elem?-take (suc n) (x ∷ xs) (suc i) h = get_elem?-take n xs i (omega arith)

  get_elem?-drop : (n : ℕ) (xs : List A) (i : ℕ) → get_elem? (drop n xs) i ≡ get_elem? xs (n + i)
  get_elem?-drop zero xs i = ground arith
  get_elem?-drop (suc n) [] i = refl
  get_elem?-drop (suc n) (x ∷ xs) i = ground (arith, get_elem?-drop n xs i)

  get_elem?-replicate : (n : ℕ) (a : A) (i : ℕ) → i < n → get_elem? (replicate n a) i ≡ some a
  get_elem?-replicate zero a i h = absurd (omega arith)
  get_elem?-replicate (suc n) a zero h = refl
  get_elem?-replicate (suc n) a (suc i) h = get_elem?-replicate n a i (omega arith)

module _ {D : Type 0} (fl : Floats D) where
  get_elem?-move_left :
      (n : ℕ) (xs : List D) (i : ℕ)
      → n < length xs
      → i < n
      → get_elem? (move_backward fl n xs) i ≡ get_elem? xs i
  get_elem?-move_left n xs i hn hi =
      get_elem?-append_left (take n xs) (take (length xs - n) xs) i
        (omega (arith, length-take n xs))
      ∙ get_elem?-take n xs i hi

  get_elem?-move_right :
      (n : ℕ) (xs : List D) (j : ℕ)
      → n + j < length xs
      → get_elem? (move_backward fl n xs) (n + j) ≡ get_elem? xs j
  get_elem?-move_right n xs j h =
      let e : length (take n xs) ≡ n = omega (arith, length-take n xs) in
      ap (λ k. get_elem? (move_backward fl n xs) (k + j)) (sym e)
      ∙ get_elem?-append_right (take n xs) (take (length xs - n) xs) j
      ∙ get_elem?-take (length xs - n) xs j (omega arith)

  length-move_backward :
      (n : ℕ) (xs : List D) → n ≤ length xs → length (move_backward fl n xs) ≡ length xs
  length-move_backward n xs h = omega (
    arith,
    length-append (take n xs) (take (length xs - n) xs),
    length-take n xs,
    length-take (length xs - n) xs,
  )

  get_elem?-fill_left :
      (k : ℕ) (ys : List D) (i : ℕ)
      → k ≤ length ys
      → i < k
      → get_elem? (fill_front fl k ys) i ≡ some fl.rate_one
  get_elem?-fill_left k ys i hk hi =
      get_elem?-append_left (replicate (min k (length ys)) fl.rate_one) (drop k ys) i
        (omega (arith, length-replicate (min k (length ys)) fl.rate_one))
      ∙ get_elem?-replicate (min k (length ys)) fl.rate_one i (omega arith)

  get_elem?-fill_right :
      (k : ℕ) (ys : List D) (j : ℕ)
      → k ≤ length ys
      → get_elem? (fill_front fl k ys) (k + j) ≡ get_elem? ys (k + j)
  get_elem?-fill_right k ys j hk =
      let e : length (replicate (min k (length ys)) fl.rate_one) ≡ k =
        omega (arith, length-replicate (min k (length ys)) fl.rate_one) in
      ap (λ m. get_elem? (fill_front fl k ys) (m + j)) (sym e)
      ∙ get_elem?-append_right (replicate (min k (length ys)) fl.rate_one) (drop k ys) j
      ∙ get_elem?-drop k ys j

  length-fill_front :
      (k : ℕ) (ys : List D) → k ≤ length ys → length (fill_front fl k ys) ≡ length ys
  length-fill_front k ys h = omega (
    arith,
    length-append (replicate (min k (length ys)) fl.rate_one) (drop k ys),
    length-replicate (min k (length ys)) fl.rate_one,
    length-drop k ys,
  )

  -- The window after `n` periods, fewer than it has entries.
  module _ (n : ℕ) (rate : D) (xs : List D) (h0 : 0 < n) (hn : n < length xs) where
    abbrev put : List D
    put = set (move_backward fl n xs) (n - 1) rate

    length-put : length put ≡ length xs
    length-put =
        length-set (move_backward fl n xs) (n - 1) rate ∙ length-move_backward n xs (omega arith)

    shift_rates-split : shift_rates fl n rate xs ≡ fill_front fl (n - 2) put
    unfolding shift_rates
    shift_rates-split = ground arith

    get_elem?-put_right : (i : ℕ) → n ≤ i → i < length xs → get_elem? put i ≡ get_elem? xs (i - n)
    get_elem?-put_right i h hi =
        let e : n + (i - n) ≡ i = omega arith in
        get_elem?-set_ne (move_backward fl n xs) {i = n - 1} {j = i} rate (omega arith)
        ∙ ap (get_elem? (move_backward fl n xs)) (sym e)
        ∙ get_elem?-move_right n xs (i - n) (omega arith)

    get_elem?-put_left : (i : ℕ) → i + 1 < n → get_elem? put i ≡ get_elem? xs i
    get_elem?-put_left i h =
        get_elem?-set_ne (move_backward fl n xs) {i = n - 1} {j = i} rate (omega arith)
        ∙ get_elem?-move_left n xs i hn (omega arith)

    get_elem?-shift_put :
        (i : ℕ) → n - 2 ≤ i → get_elem? (shift_rates fl n rate xs) i ≡ get_elem? put i
    get_elem?-shift_put i h =
        let e : n - 2 + (i - (n - 2)) ≡ i = omega arith in
        ap (λ ys. get_elem? ys i) shift_rates-split
        ∙ ap (get_elem? (fill_front fl (n - 2) put)) (sym e)
        ∙ get_elem?-fill_right (n - 2) put (i - (n - 2)) (omega (arith, length-put))
        ∙ ap (get_elem? put) e

    -- When `n` periods have ended, fewer than the window has entries, the entries from `n` on are
    -- the old ones moved back by `n`, the entry at `n - 1` is the rate of the last period, and the
    -- entries before `n - 2` are 1.0. The entry at `n - 2` is not set: it keeps the old value.
    pub get_elem?-shift_rates :
        (i : ℕ)
        → i < length xs
        → get_elem? (shift_rates fl n rate xs) i ≡ (
            if leb n i
            then get_elem? xs (i - n)
            else if i == n - 1
            then some rate
            else if ltb (i + 2) n
            then some fl.rate_one
            else get_elem? xs i)
    get_elem?-shift_rates i hi = elim (Bool-cases (leb n i)) [
      | inl a ↦ rw a (get_elem?-shift_put i (omega tests) ∙ get_elem?-put_right i (omega tests) hi)
      | inr a ↦ elim (Bool-cases (i == n - 1)) [
        | inl b ↦
            let e : i ≡ n - 1 = (==_iff i (n - 1)).0 b in
            rw (a, b)
              (get_elem?-shift_put i (omega arith)
                ∙ ap (get_elem? put) e
                ∙ get_elem?-set_self (move_backward fl n xs) (n - 1) rate
                    (omega (arith, length-move_backward n xs)))
        | inr b ↦ elim (Bool-cases (ltb (i + 2) n)) [
          | inl c ↦
              rw (a, b, c)
                (ap (λ ys. get_elem? ys i) shift_rates-split
                  ∙ get_elem?-fill_left (n - 2) put i (omega (arith, length-put)) (ground arith))
          | inr c ↦
              rw (a, b, c)
                (get_elem?-shift_put i (ground arith) ∙ get_elem?-put_left i (ground arith))
        ]
      ]
    ]
