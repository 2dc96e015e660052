-- ===== src/Reader/Shards/Once.antt =====
-- ReadStreamRecords: every record reaches the callback once.
use fledge_key_value_service.Base.{
  ℕ, suc, ◌%◌, ◌≤◌, ◌≡◌, refl, ◌∙◌, ap, sym, true, false, some, List, [], ◌∷◌, ◌++◌, map, arith,
  ltb, leb, if◌then◌else◌, Bool-cases, inl, inr, ◌≢◌,
}
use fledge_key_value_service.Base.Lists.{All}
use fledge_key_value_service.Lookup.Types.{StatusOr, ok}
use fledge_key_value_service.Reader.Shards.{
  ShardRange, ShardResult, Options, RecordReader, shard_size, pos, read_records, count, finished,
  read_shard, read_shard_records, read_all, check_results, check_all, read_shards,
  read_stream_records, record_stream_size,
}
use fledge_key_value_service.Reader.Shards.Cover.{Covers, build_shards_lem}

module _ {ℓ} {A : Type ℓ} where
  -- The records that are left where those before the position are passed over.
  abbrev pub from : ℕ → List (ℕ × A) → List (ℕ × A)
  from p [] = []
  from p ((q, a) ∷ rest) = if ltb q p then from p rest else (q, a) ∷ rest

  abbrev pub values : List (ℕ × A) → List A
  values = map (λ r. r.1)

  read_records-from :
      (e : ℕ) (rs : List (ℕ × A))
      → ((read_records e rs).1 ≡ from (suc e) rs)
        × ((read_records e rs).0 ++ values (from (suc e) rs) ≡ values rs)
  unfolding read_records
  read_records-from e [] = (refl, refl)
  read_records-from e ((p, a) ∷ rs) = elim (Bool-cases (leb p e)) [
    | inl below ↦
        let (left, read) = read_records-from e rs in
        let next : ltb p (suc e) ≡ true = ground (arith, below) in
        (rw (below, next) left, rw (below, next) (ap (λ l. a ∷ l) read))
    | inr above ↦
        let next : ltb p (suc e) ≡ false = ground (arith, above) in
        (rw (above, next), rw (above, next))
  ]

  from-from : (b e : ℕ) (rs : List (ℕ × A)) → b ≤ e → from (suc e) (from b rs) ≡ from (suc e) rs
  from-from b e [] le = refl
  from-from b e ((p, a) ∷ rs) le = elim (Bool-cases (ltb p b)) [
    | inl below ↦
        let next : ltb p (suc e) ≡ true = ground (arith, below) in
        rw (below, next) (from-from b e rs le)
    | inr above ↦ rw above
  ]

  from_end : (n : ℕ) (rs : List (ℕ × A)) → All (λ (r : ℕ × A). r.0 ≤ n) rs → from (suc n) rs ≡ []
  from_end n [] h = refl
  from_end n ((p, a) ∷ rs) h =
      let next : ltb p (suc n) ≡ true = ground arith in rw next (from_end n rs h.1)

  from_start : (rs : List (ℕ × A)) → from 0 rs ≡ rs
  from_start [] = refl
  from_start ((p, a) ∷ rs) = ground arith

  module _ (seek : ℕ → StatusOr (RecordReader A)) (rs : List (ℕ × A)) (z n : ℕ)
      (seeks : (b : ℕ) → seek b ≡ ok (record { records = from b rs; end = z; status = ok tt }))
      (inside : All (λ (r : ℕ × A). r.0 ≤ n) rs) where
    -- One step of the check, between two shards that meet.
    check_results-cons :
        (prev curr : ShardResult) (rest : List (StatusOr ShardResult))
        → prev.next_shard_first_record_pos ≡ curr.first_record_pos
        → check_results prev (ok curr ∷ rest) ≡ check_results curr rest
    unfolding check_results
    check_results-cons prev curr rest next = ground (arith, next)

    check_no_more : (prev : ShardResult) → check_results prev [] ≡ ok tt
    unfolding check_results
    check_no_more prev = refl

    check_all_ok :
        (first : ShardResult) (rest : List (StatusOr ShardResult))
        → check_all (ok first ∷ rest) ≡ check_results first rest
    unfolding check_all
    check_all_ok first rest = refl

    read_none : ((read_all seek []).0 ≡ []) × ((read_all seek []).1 ≡ [])
    unfolding read_all
    read_none = (refl, refl)

    result_of : ShardRange → ShardResult
    result_of x = record {
      first_record_pos = pos z (from x.start_pos rs);
      next_shard_first_record_pos = pos z (from (suc x.end_pos) rs);
      num_records_read = count (read_records x.end_pos (from x.start_pos rs)).0;
    }

    read_shard_lem :
        (x : ShardRange)
        → x.start_pos ≤ x.end_pos
        → ((read_shard_records seek x).1 ≡ ok (result_of x))
          × ((read_shard_records seek x).0 ++ values (from (suc x.end_pos) rs)
              ≡ values (from x.start_pos rs))
    unfolding read_shard_records read_shard finished result_of
    read_shard_lem x le =
        let (left, read) = read_records-from x.end_pos (from x.start_pos rs) in
        let same = from-from x.start_pos x.end_pos rs le in
        (rw (seeks x.start_pos) (rw (left, same)), rw (seeks x.start_pos) (rw same at read))

    next_of :
        (x : ShardRange)
        → (result_of x).next_shard_first_record_pos ≡ pos z (from (suc x.end_pos) rs)
    unfolding result_of
    next_of x = refl

    first_of : (x : ShardRange) → (result_of x).first_record_pos ≡ pos z (from x.start_pos rs)
    unfolding result_of
    first_of x = refl

    read_all-cons :
        (x : ShardRange) (xs : List ShardRange)
        → ((read_all seek (x ∷ xs)).0 ≡ (read_shard_records seek x).0 ++ (read_all seek xs).0)
          × ((read_all seek (x ∷ xs)).1 ≡ (read_shard_records seek x).1 ∷ (read_all seek xs).1)
    unfolding read_all
    read_all-cons x xs = (refl, refl)

    Covers-start :
        (b : ℕ) (x : ShardRange) (xs : List ShardRange) (e : ℕ)
        → Covers b (x ∷ xs) e
        → (x.start_pos ≡ b) × (x.start_pos ≤ x.end_pos)
    Covers-start b x [] e (s, le, end) = (s, omega (arith, s, le, end))
    Covers-start b x (y ∷ xs) e (s, le, _) = (s, omega (arith, s, le))

    -- The shards read the records from the first of them on, and between two of them there is none.
    read_all_lem :
        (b : ℕ) (xs : List ShardRange)
        → Covers b xs n
        → ((read_all seek xs).0 ≡ values (from b rs))
          × ((prev : ShardResult)
              → prev.next_shard_first_record_pos ≡ pos z (from b rs)
              → check_results prev (read_all seek xs).1 ≡ ok tt)
    read_all_lem b [] c = absurd c
    read_all_lem b (x ∷ []) (s, le, e) =
        let (result, read) = read_shard_lem x (omega (arith, s, le, e)) in
        let (all, results) = read_all-cons x [] in
        let none_left : from (suc x.end_pos) rs ≡ [] = rw e (from_end n rs inside) in
        (
          rw (all, read_none.0, sym (ap values none_left)) (read ∙ ap (λ b. values (from b rs)) s),
          λ prev next.
              rw (results, result, read_none.1)
                (check_results-cons prev (result_of x) []
                    (next ∙ ap (λ b. pos z (from b rs)) (sym s) ∙ sym (first_of x))
                  ∙ check_no_more (result_of x)),
        )
    read_all_lem b (x ∷ y ∷ xs) (s, le, c) =
        let (result, read) = read_shard_lem x (omega (arith, s, le)) in
        let (others, checks) = read_all_lem (suc x.end_pos) (y ∷ xs) c in
        let (all, results) = read_all-cons x (y ∷ xs) in
        (
          rw (all, others) (read ∙ ap (λ b. values (from b rs)) s),
          λ prev next.
              rw (results, result)
                (check_results-cons prev (result_of x) _
                    (next ∙ ap (λ b. pos z (from b rs)) (sym s) ∙ sym (first_of x))
                  ∙ checks (result_of x) (next_of x)),
        )

    check_all_lem :
        (b : ℕ) (xs : List ShardRange) → Covers b xs n → check_all (read_all seek xs).1 ≡ ok tt
    check_all_lem b [] c = absurd c
    check_all_lem b (x ∷ xs) c =
        let (s, le) = Covers-start b x xs n c in
        let (result, read) = read_shard_lem x le in
        let (all, results) = read_all-cons x xs in
        let before : ShardResult = record {
          first_record_pos = 0;
          next_shard_first_record_pos = pos z (from b rs);
          num_records_read = 0;
        } in
        let checks = (read_all_lem b (x ∷ xs) c).1 before refl in
        let next = ap (λ b. pos z (from b rs)) (sym s) ∙ sym (first_of x) in
        let same = check_results-cons before (result_of x) (read_all seek xs).1 next in
        rw (results, result)
          (check_all_ok (result_of x) (read_all seek xs).1
            ∙ sym same
            ∙ (rw (results, result) at checks))

    -- Where seeking gives the records from a position on, all of them at positions up to the size of the
    -- stream, and that size is not a multiple of the shard size plus one, the concurrent reader passes
    -- every record to the callback exactly once, whichever way the ranges cut the stream, and succeeds.
    pub read_stream_records_once :
        (options : Options)
        → 1 ≤ options.num_worker_threads
        → n % suc (shard_size options n) ≢ 0
        → read_stream_records options (some n) seek ≡ (values rs, ok tt)
    unfolding read_stream_records read_shards record_stream_size
    read_stream_records_once options threads whole = elim (build_shards_lem options n threads) [
      | inr (multiple, failed) ↦ absurd (whole multiple)
      | inl (rest, (shards, built, c)) ↦
          let (read, checks) = read_all_lem 0 shards c in
          rw built (rw (read, check_all_lem 0 shards c, from_start rs))
    ]
