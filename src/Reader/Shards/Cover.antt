-- ===== src/Reader/Shards/Cover.antt =====
-- BuildShards: when the ranges cover the stream, and when they miss its last byte.
use Prim.Native.Nat.{min}
use mathlib.Core.Logic.{◌≢◌}
use native.Mathlib.Nat.{add-mod_left, mod-eq_of_lt, zero-mod}
use fledge_key_value_service.Base.{
  ℕ, zero, suc, ◌+◌, ◌-◌, ◌%◌, ◌≤◌, ◌<◌, ◌≡◌, refl, true, false, List, [], ◌∷◌, arith, ltb, ◌⊎◌,
  inl, inr, Bool-cases,
}
use fledge_key_value_service.Lookup.Types.{ok, err, internal}
use fledge_key_value_service.Reader.Shards.{
  ShardRange, Options, shard_size, ranges, last_end, is_complete, checked, build_shards,
}

-- The ranges follow each other without a gap from the start on, and the last one ends at `e`.
abbrev pub Covers : ℕ → List ShardRange → ℕ → Type 0
Covers b [] e = ⊥
Covers b (x ∷ []) e = (x.start_pos ≡ b) × (b ≤ e) × (x.end_pos ≡ e)
Covers b (x ∷ y ∷ rest) e =
    (x.start_pos ≡ b) × (b ≤ x.end_pos) × Covers (suc x.end_pos) (y ∷ rest) e

-- What the loop gives for the rest of `r` bytes.
abbrev Outcome : ℕ → ℕ → ℕ → ℕ → List ShardRange → Type 0
Outcome r b s n xs =
    ((r % suc s ≢ 0) × Covers b xs n) ⊎ ((r % suc s ≡ 0) × (is_complete (last_end xs) n ≡ false))

ranges_stop : (fuel b s n : ℕ) → n ≤ b → ranges fuel b s n ≡ []
unfolding ranges
ranges_stop zero b s n le = refl
ranges_stop (suc fuel) b s n le = ground arith

ranges_step :
    (fuel b s n e : ℕ)
    → b < n
    → min (b + s) n ≡ e
    → ranges (suc fuel) b s n ≡ record { start_pos = b; end_pos = e } ∷ ranges fuel (suc e) s n
unfolding ranges
ranges_step fuel b s n e lt end = let below : ltb b n ≡ true = ground arith in rw (below, end)

Covers-cons :
    (b e n : ℕ) (xs : List ShardRange)
    → b ≤ e
    → Covers (suc e) xs n
    → Covers b (record { start_pos = b; end_pos = e } ∷ xs) n
Covers-cons b e n [] le c = absurd c
Covers-cons b e n (y ∷ xs) le c = (refl, le, c)

incomplete_nil : (n : ℕ) → is_complete (last_end []) n ≡ false
unfolding last_end is_complete
incomplete_nil n = refl

incomplete-cons :
    (x : ShardRange) (xs : List ShardRange) (n : ℕ)
    → x.end_pos < n
    → is_complete (last_end xs) n ≡ false
    → is_complete (last_end (x ∷ xs)) n ≡ false
unfolding last_end is_complete
incomplete-cons x [] n lt h = ground arith
incomplete-cons x (y ∷ xs) n lt h = h

outcome : (fuel b s n : ℕ) → b < n → n - b ≤ fuel → Outcome (n - b) b s n (ranges fuel b s n)
outcome zero b s n lt le = absurd (omega arith)
outcome (suc fuel) b s n lt le = elim (Bool-cases (ltb (b + s) n)) [
  | inr last ↦
      let end : min (b + s) n ≡ n = ground (arith, last) in
      let remainder : (n - b) % suc s ≡ n - b = mod-eq_of_lt (ground (arith, last)) in
      rw (ranges_step fuel b s n n lt end, ranges_stop fuel (suc n) s n (omega arith))
        (inl ((λ e. omega (arith, remainder, e, lt)), (refl, omega arith, refl)))
  | inl inner ↦
      let e = b + s in
      let end : min (b + s) n ≡ b + s = ground (arith, inner) in
      let remainder : (n - b) % suc s ≡ (n - suc e) % suc s =
        (let split : n - b ≡ suc s + (n - suc e) = ground (arith, inner) in
          rw split (add-mod_left (suc s) (n - suc e))) in
      rw (ranges_step fuel b s n e lt end, remainder)
        (elim (Bool-cases (ltb (suc e) n)) [
          | inl more ↦
              elim (outcome fuel (suc e) s n (ground (arith, more)) (omega (arith, le, lt))) [
                | inl (rest, c) ↦
                    inl (rest, Covers-cons b e n (ranges fuel (suc e) s n) (omega arith) c)
                | inr (rest, h) ↦
                    inr (
                      rest,
                      incomplete-cons _ (ranges fuel (suc e) s n) n (ground (arith, inner)) h,
                    )
              ]
          | inr missed ↦ inr (
            (let none_left : n - suc e ≡ 0 = ground (arith, missed) in
                rw none_left (zero-mod (suc s))),
            incomplete-cons _ (ranges fuel (suc e) s n) n (ground (arith, inner))
                (rw (ranges_stop fuel (suc e) s n (ground (arith, missed))) (incomplete_nil n)),
          )
        ])
]

Covers-complete :
    (b n : ℕ) (xs : List ShardRange) → Covers b xs n → is_complete (last_end xs) n ≡ true
unfolding last_end is_complete
Covers-complete b n [] c = absurd c
Covers-complete b n (x ∷ []) c = ground (arith, c)
Covers-complete b n (x ∷ y ∷ xs) c = Covers-complete (suc x.end_pos) n (y ∷ xs) c.2

-- With at least one thread, BuildShards covers the stream with byte ranges that follow each other without
-- a gap or an overlap, except where the size of the stream is a multiple of the shard size plus one,
-- as it is for the empty stream: then it fails with INTERNAL.
pub build_shards_lem :
    (options : Options) (n : ℕ)
    → 1 ≤ options.num_worker_threads
    → ((n % suc (shard_size options n) ≢ 0)
        × ((shards : List ShardRange) × (build_shards options n ≡ ok shards) × Covers 0 shards n))
      ⊎ ((n % suc (shard_size options n) ≡ 0) × (build_shards options n ≡ err internal))
unfolding build_shards checked ranges last_end is_complete
build_shards_lem options zero threads =
    let some_thread : ltb options.num_worker_threads 1 ≡ false = ground arith in
    inr (zero-mod (suc (shard_size options 0)), rw some_thread)
build_shards_lem options (suc k) threads =
    let n = suc k in
    let s = shard_size options n in
    let some_thread : ltb options.num_worker_threads 1 ≡ false = ground arith in
    let whole : n - 0 ≡ n = omega arith in
    elim (outcome n 0 s n (omega arith) (omega arith)) [
      | inl (rest, c) ↦ inl (
        rw whole at rest,
        (ranges n 0 s n, rw some_thread (rw (Covers-complete 0 n (ranges n 0 s n) c)), c),
      )
      | inr (rest, h) ↦ inr (rw whole at rest, rw some_thread (rw h))
    ]
