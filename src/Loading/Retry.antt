-- ===== src/Loading/Retry.antt =====
-- RetryableWithMax of components/errors/retry.h with ExponentialBackoffForRetry of retry.cc. Arguments are
-- the function that is retried and the wait of components/util/sleepfor.h, which says whether it has
-- waited the entire duration; both change a state. Durations are whole seconds.
use Prim.Native.Nat.{min}
use fledge_key_value_service.Base.{
  ℕ, zero, suc, ◌+◌, ◌-◌, ◌^◌, ◌<◌, ◌≡◌, refl, ◌∙◌, ap, ◌⊎◌, inl, inr, Bool, true, false, Option,
  none, some, arith, leb, if◌then◌else◌, Bool-cases, subst,
}
use fledge_key_value_service.Base.Ints.{ℤ, pos, negsuc}
use fledge_key_value_service.Lookup.Types.{StatusCode, StatusOr, StatusOr-cases, ok, err, cancelled}

-- The base is 2, and no wait is longer than two minutes.
abbrev pub exponential_backoff_for_retry : ℕ → ℕ
exponential_backoff_for_retry retries = min (2 ^ retries) 120

-- The initial value of max_attempts_; `none` is kUnlimitedRetry.
abbrev pub max_attempts_of : ℤ → Option ℕ
max_attempts_of (pos zero) = none
max_attempts_of (pos (suc n)) = some (suc n)
max_attempts_of (negsuc n) = none

abbrev pub is_within : Option ℕ → ℕ → Bool
is_within none i = true
is_within (some max_attempts) i = leb i max_attempts

module _ {ℓ} {S : Type ℓ} {A : Type ℓ} (func : S → S × StatusOr A)
    (sleep_for : ℕ → S → S × Bool) where
  unfoldable pub after_sleep :
      (StatusOr A → S → Option (S × StatusOr A)) → StatusOr A → S × Bool → Option (S × StatusOr A)
  after_sleep next result (s, true) = next result s
  after_sleep next result (s, false) = some (s, err cancelled)

  unfoldable pub after_call :
      ℕ → (StatusOr A → S → Option (S × StatusOr A)) → S × StatusOr A → Option (S × StatusOr A)
  unfolding after_sleep
  after_call i next (s, ok a) = some (s, ok a)
  after_call i next (s, err e) =
      after_sleep next (err e) (sleep_for (exponential_backoff_for_retry i) s)

  -- The loop of operator() from the attempt `i` on; `none` where the fuel does not reach to its end.
  unfoldable pub retry : ℕ → Option ℕ → ℕ → StatusOr A → S → Option (S × StatusOr A)
  unfolding after_call
  retry zero max_attempts i result s = none
  retry (suc fuel) max_attempts i result s =
      let next = retry fuel max_attempts (suc i) in
      let tried = after_call i next (func s) in
      if is_within max_attempts i then tried else some (s, result)

  -- RetryWithMax, and RetryUntilOk, from the default value of the result.
  unfoldable pub retry_with_max : ℕ → ℤ → StatusOr A → S → Option (S × StatusOr A)
  unfolding retry
  retry_with_max fuel max_attempts result s = retry fuel (max_attempts_of max_attempts) 1 result s

  -- RetryUntilOk before its `.value()`. That gives what a success holds, and would abort on the CANCELLED
  -- of a wait that is cut short; the source waits with UnstoppableSleepFor there, which always waits the
  -- entire duration.
  unfoldable pub retry_until_ok : ℕ → StatusOr A → S → Option (S × StatusOr A)
  unfolding retry
  retry_until_ok fuel result s = retry fuel none 1 result s

  -- From `s` and the attempt `i` on, so many attempts fail, and each is followed by a complete wait; `t`
  -- is what they leave.
  abbrev pub Fails : ℕ → ℕ → S → S → Type ℓ
  Fails i zero s t = s ≡ t
  Fails i (suc n) s t =
      (u v : S) × (e : StatusCode) × (func s ≡ (u, err e))
      × (sleep_for (exponential_backoff_for_retry i) u ≡ (v, true))
      × Fails (suc i) n v t

  -- What the attempt `i` gives where it is the last one: it succeeds, or the wait after it is cancelled.
  abbrev pub Ends : ℕ → S → S × StatusOr A → Type ℓ
  Ends i t r =
      ((u : S) × (a : A) × (func t ≡ (u, ok a)) × (r ≡ (u, ok a)))
      ⊎ ((u v : S) × (e : StatusCode) × (func t ≡ (u, err e))
          × (sleep_for (exponential_backoff_for_retry i) u ≡ (v, false))
          × (r ≡ (v, err cancelled)))

  retry-Fails :
      (max_attempts : Option ℕ) (n i fuel : ℕ) (result : StatusOr A) (s t : S)
      → Fails i n s t
      → ((j : ℕ) → j < i + n → is_within max_attempts j ≡ true)
      → (last : StatusOr A) × (((n ≡ 0) × (last ≡ result)) ⊎ ((e : StatusCode) × (last ≡ err e)))
        × (retry (n + fuel) max_attempts i result s ≡ retry fuel max_attempts (i + n) last t)
  unfolding retry after_call after_sleep
  retry-Fails m zero i fuel result s t h within =
      let none_done : 0 + fuel ≡ fuel = omega arith in
      let same : i + 0 ≡ i = omega arith in (result, inl (refl, refl), rw (none_done, same, h))
  retry-Fails m (suc n) i fuel result s t (u, v, e, failed, slept, h) within =
      let one_more : suc n + fuel ≡ suc (n + fuel) = omega arith in
      let next : suc i + n ≡ i + suc n = omega arith in
      let (last, cases, same) =
        retry-Fails m n (suc i) fuel (err e) v t h (λ j lt. within j (omega (arith, lt))) in
      (
        last,
        elim cases [ inl (_, first) ↦ inr (e, first) | inr later ↦ inr later ],
        rw (one_more, within i (omega arith), failed) (rw slept (rw next at same)),
      )

  retry-Ends :
      (max_attempts : Option ℕ) (i fuel : ℕ) (result : StatusOr A) (t : S) (r : S × StatusOr A)
      → Ends i t r
      → is_within max_attempts i ≡ true
      → retry (suc fuel) max_attempts i result t ≡ some r
  unfolding retry after_call after_sleep
  retry-Ends m i fuel result t r (inl (u, a, fine, e)) within = rw (within, fine, e)
  retry-Ends m i fuel result t r (inr (u, v, e, failed, stopped, h)) within =
      rw (within, failed, h) (rw stopped)

  retry_over :
      (max_attempts : Option ℕ) (i fuel : ℕ) (result : StatusOr A) (t : S)
      → is_within max_attempts i ≡ false
      → retry (suc fuel) max_attempts i result t ≡ some (t, result)
  unfolding retry
  retry_over m i fuel result t over = rw over

  with_max :
      (fuel m : ℕ) (result : StatusOr A) (s : S)
      → retry_with_max fuel (pos (suc m)) result s ≡ retry fuel (some (suc m)) 1 result s
  unfolding retry_with_max
  with_max fuel m result s = refl

  -- The first `k` attempts: one of them is the last, or all fail.
  attempts :
      (k i : ℕ) (s : S)
      → ((n : ℕ) × (t : S) × (r : S × StatusOr A) × (n < k) × Fails i n s t × Ends (i + n) t r)
        ⊎ ((t : S) × Fails i k s t)
  attempts zero i s = inr (s, refl)
  attempts (suc k) i s =
      let u = (func s).0 in
      let waited = sleep_for (exponential_backoff_for_retry i) u in
      let here : i ≡ i + 0 = omega arith in
      elim (StatusOr-cases (func s).1) [
        | inl (a, fine) ↦
            inl (0, s, (u, ok a), omega arith, refl, inl (u, a, ap (λ x. (u, x)) fine, refl))
        | inr (e, failed) ↦ elim (Bool-cases waited.1) [
          | inr stopped ↦ inl (
            0,
            s,
            (waited.0, err cancelled),
            omega arith,
            refl,
            subst (λ j. Ends j s (waited.0, err cancelled)) here
                (inr
                  (u, waited.0, e, ap (λ x. (u, x)) failed, ap (λ x. (waited.0, x)) stopped, refl)),
          )
          | inl slept ↦ elim (attempts k (suc i) waited.0) [
            | inl (n, t, r, lt, fails, ends) ↦ inl (
              suc n,
              t,
              r,
              omega (arith, lt),
              (u, waited.0, e, ap (λ x. (u, x)) failed, ap (λ x. (waited.0, x)) slept, fails),
              subst (λ j. Ends j t r) (omega arith) ends,
            )
            | inr (t, fails) ↦
                inr (
                  t,
                  (u, waited.0, e, ap (λ x. (u, x)) failed, ap (λ x. (waited.0, x)) slept, fails),
                )
          ]
        ]
      ]

  -- RetryUntilOk, before its `.value()`, ends with the first attempt that succeeds, and gives its result,
  -- or ends with CANCELLED after the first wait that is cancelled: where `n` attempts fail before that one, fuel for one more is enough.
  pub retry_until_ok_lem :
      (n k : ℕ) (result : StatusOr A) (s t : S) (r : S × StatusOr A)
      → Fails 1 n s t
      → Ends (1 + n) t r
      → retry_until_ok (n + suc k) result s ≡ some r
  unfolding retry_until_ok
  retry_until_ok_lem n k result s t r fails ends =
      let (last, cases, same) = retry-Fails none n 1 (suc k) result s t fails (λ j lt. refl) in
      same ∙ retry-Ends none (1 + n) k last t r ends refl

  -- RetryWithMax with a positive number of attempts ends after at most that number of them: with the
  -- first attempt that succeeds, or the first wait that is cancelled, and otherwise, where all of them
  -- fail, with the error of the last one.
  pub retry_with_max_lem :
      (m : ℕ) (result : StatusOr A) (s : S)
      → ((n : ℕ) × (t : S) × (r : S × StatusOr A) × (n < suc m)
          × Fails 1 n s t
          × Ends (1 + n) t r
          × (retry_with_max (suc (suc m)) (pos (suc m)) result s ≡ some r))
        ⊎ ((t : S) × (e : StatusCode) × Fails 1 (suc m) s t
            × (retry_with_max (suc (suc m)) (pos (suc m)) result s ≡ some (t, err e)))
  retry_with_max_lem m result s = elim (attempts (suc m) 1 s) [
    | inl (n, t, r, lt, fails, ends) ↦
        let fuel : n + suc (suc m - n) ≡ suc (suc m) = omega (arith, lt) in
        let (last, cases, same) =
          retry-Fails (some (suc m)) n 1 (suc (suc m - n)) result s t fails
            (λ j le. ground (arith, le, lt)) in
        let end =
          retry-Ends (some (suc m)) (1 + n) (suc m - n) last t r ends (ground (arith, lt)) in
        inl (
          n,
          t,
          r,
          lt,
          fails,
          ends,
          with_max (suc (suc m)) m result s
              ∙ subst (λ f. retry f (some (suc m)) 1 result s ≡ some r) fuel (same ∙ end),
        )
    | inr (t, fails) ↦
        let fuel : suc m + 1 ≡ suc (suc m) = omega arith in
        let (last, cases, same) =
          retry-Fails (some (suc m)) (suc m) 1 1 result s t fails (λ j le. ground (arith, le)) in
        let end = retry_over (some (suc m)) (1 + suc m) 0 last t (ground arith) in
        elim cases [
          | inl (never, _) ↦ absurd (omega (arith, never))
          | inr (e, failed) ↦ inr (
            t,
            e,
            fails,
            with_max (suc (suc m)) m result s
                ∙ subst (λ f. retry f (some (suc m)) 1 result s ≡ some (t, err e)) fuel
                    (same ∙ end ∙ ap (λ l. some (t, l)) failed),
          )
        ]
  ]
