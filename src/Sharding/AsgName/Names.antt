-- ===== src/Sharding/AsgName/Names.antt =====
-- The names that the regular expression of GetShardNumberOffAsgName matches.
use Prim.Native.Char.{code}
use Prim.Native.String.{[], ◌∷◌}
use fledge_key_value_service.Base.{
  ℕ, ◌+◌, ◌*◌, ◌-◌, ◌^◌, ◌<◌, ◌≤◌, String, ◌≡◌, refl, sym, ap, ◌∙◌, Bool, true, false, ◌&&◌, ◌||◌,
  Option, none, some, arith, eqb, leb, ltb, if◌then◌else◌, ◌==◌, eq_iff, Bool-cases, Option-cases,
  inl, inr,
}
use text.Mathlib.TextEquality.{Char-path}
use fledge_key_value_service.Lookup.Types.{ok, err, invalid_argument}
use fledge_key_value_service.Sharding.AsgName.{
  strip, number_before, match_asg, get_shard_number_off_asg_name,
}

-- One text behind another.
abbrev pub join : String → String → String
join [] t = t
join (c ∷ s) t = c ∷ join s t

abbrev pub IsNumeral : String → Type 0
IsNumeral [] = Unit
IsNumeral (c ∷ s) = (48 ≤ code c) × (code c ≤ 57) × IsNumeral s

-- The number with the digits of `n` and then those of the numeral.
abbrev pub number_of : ℕ → String → ℕ
number_of n [] = n
number_of n (c ∷ s) = number_of (n * 10 + (code c - 48)) s

strip-join : (p r : String) → strip p (join p r) ≡ some r
unfolding strip
strip-join [] r = refl
strip-join (c ∷ p) r = ground (arith, strip-join p r)

head_matches :
    {A : Type 0} (b : Bool) (o : Option A) (a : A)
    → (if b then o else none) ≡ some a
    → (b ≡ true) × (o ≡ some a)
head_matches true o a h = (refl, h)
head_matches false o a h = absurd (cc h)

strip_lem : (p s r : String) → strip p s ≡ some r → s ≡ join p r
unfolding strip
strip_lem [] s r h = cc h
strip_lem (c ∷ p) [] r h = absurd (cc h)
strip_lem (c ∷ p) (d ∷ s) r h =
    let (same, tail) = head_matches (eqb (code c) (code d)) (strip p s) r h in
    let e : d ≡ c = Char-path d c (ground (arith, same)) in
    let rest = strip_lem p s r tail in cc (e, rest)

abbrev pub is_nonempty : String → Bool
is_nonempty [] = false
is_nonempty (_ ∷ _) = true

number_before-join :
    (n : ℕ) (seen : Bool) (digits : String)
    → IsNumeral digits
    → (seen || is_nonempty digits) ≡ true
    → number_before "-instance-asg" n seen (join digits "-instance-asg") ≡ some (number_of n digits)
unfolding number_before
number_before-join n true [] h nonempty = refl
number_before-join n false [] h nonempty = absurd (cc nonempty)
number_before-join n seen (c ∷ digits) h nonempty =
    let (least, greatest, rest) = h in
    let low : leb 48 (code c) ≡ true = ground (arith, least) in
    let high : leb (code c) 57 ≡ true = ground (arith, greatest) in
    let next = number_before-join (n * 10 + (code c - 48)) true digits rest refl in
    rw (low, high) next

-- The text is a numeral and then the suffix; the numeral may be empty where a digit has been seen.
abbrev Numbered : ℕ → Bool → String → ℕ → Type 0
Numbered n seen s m =
    (digits : String) × IsNumeral digits
    × ((seen || is_nonempty digits) ≡ true)
    × (s ≡ join digits "-instance-asg")
    × (m ≡ number_of n digits)

number_before_lem :
    (n : ℕ) (seen : Bool) (s : String) (m : ℕ)
    → number_before "-instance-asg" n seen s ≡ some m
    → Numbered n seen s m
unfolding number_before
number_before_lem n seen [] m h = absurd (cc h)
number_before_lem n seen (c ∷ s) m h = elim (Bool-cases (leb 48 (code c) && leb (code c) 57)) [
  | inl digit ↦
      let h' = rw digit at h in
      let (digits, numeral, _, e, value) = number_before_lem (n * 10 + (code c - 48)) true s m h' in
      (
        c ∷ digits,
        (ground (arith, digit), ground (arith, digit), numeral),
        ground arith,
        cc e,
        value,
      )
  | inr other ↦
      let h' = rw other at h in
      let (end, e) = head_matches (seen && (c ∷ s) == "-instance-asg") (some n) m h' in
      let before : seen ≡ true = ground (arith, end) in
      let last : ((c ∷ s) == "-instance-asg") ≡ true = ground (arith, end) in
      ([], tt, rw before refl, (eq_iff (c ∷ s) "-instance-asg").0 last, cc e)
]

-- The name is kv-server-<environment>-<digits>-instance-asg, with digits of the number `n`, which an
-- int32_t holds.
abbrev pub IsAsgName : String → ℕ → String → Type 0
IsAsgName environment n asg_name =
    (digits : String) × IsNumeral digits
    × (is_nonempty digits ≡ true)
    × (asg_name ≡ join "kv-server-" (join environment (join "-" (join digits "-instance-asg"))))
    × (n ≡ number_of 0 digits)
    × (n < 2 ^ 31)

if_fits :
    (b : Bool) (m n : ℕ) → (if b then ok m else err invalid_argument) ≡ ok n → (b ≡ true) × (m ≡ n)
if_fits true m n h = (refl, cc h)
if_fits false m n h = absurd (cc h)

matched :
    (environment asg_name a b c : String) (m : ℕ)
    → strip "kv-server-" asg_name ≡ some a
    → strip environment a ≡ some b
    → strip "-" b ≡ some c
    → number_before "-instance-asg" 0 false c ≡ some m
    → ltb m (2 ^ 31) ≡ true
    → get_shard_number_off_asg_name environment asg_name ≡ ok m
unfolding get_shard_number_off_asg_name match_asg
matched environment asg_name a b c m p q r t small =
    rw (p, get_shard_number_off_asg_name, match_asg) (rw q (rw r (rw t (rw small refl))))

module _ (environment : String) (n : ℕ) (asg_name : String) where
  pub IsAsgName-get_shard_number :
      IsAsgName environment n asg_name → get_shard_number_off_asg_name environment asg_name ≡ ok n
  IsAsgName-get_shard_number (digits, numeral, nonempty, name, value, fits) =
      let tail = join digits "-instance-asg" in
      let named =
        ap (strip "kv-server-") name ∙ strip-join "kv-server-" (join environment (join "-" tail)) in
      matched environment asg_name (join environment (join "-" tail)) (join "-" tail) tail
        (number_of 0 digits) named (strip-join environment (join "-" tail)) (strip-join "-" tail)
        (number_before-join 0 false digits numeral nonempty) (ground (arith, value, fits))
      ∙ ap ok (sym value)

  pub get_shard_number-IsAsgName :
      get_shard_number_off_asg_name environment asg_name ≡ ok n → IsAsgName environment n asg_name
  unfolding get_shard_number_off_asg_name match_asg
  get_shard_number-IsAsgName h = elim (Option-cases (strip "kv-server-" asg_name)) [
    | inl e ↦ let h' = rw (e, get_shard_number_off_asg_name, match_asg) at h in absurd (cc h')
    | inr (a, ea) ↦
        let ha = rw (ea, get_shard_number_off_asg_name, match_asg) at h in
        elim (Option-cases (strip environment a)) [
          | inl e ↦ let h' = rw e at ha in absurd (cc h')
          | inr (b, eb) ↦
              let hb = rw eb at ha in
              elim (Option-cases (strip "-" b)) [
                | inl e ↦ let h' = rw e at hb in absurd (cc h')
                | inr (c, ec) ↦
                    let hc = rw ec at hb in
                    elim (Option-cases (number_before "-instance-asg" 0 false c)) [
                      | inl e ↦ let h' = rw e at hc in absurd (cc h')
                      | inr (m, em) ↦
                          let hm = rw em at hc in
                          let (small, same) = if_fits (ltb m (2 ^ 31)) m n hm in
                          let (digits, numeral, nonempty, name, value) =
                            number_before_lem 0 false c m em in
                          (
                            digits,
                            numeral,
                            nonempty,
                            strip_lem "kv-server-" asg_name a ea
                                ∙ ap (join "kv-server-") (
                                    strip_lem environment a b eb
                                    ∙ ap (join environment)
                                        (strip_lem "-" b c ec ∙ ap (join "-") name)),
                            sym same ∙ value,
                            ground (arith, small, same),
                          )
                    ]
              ]
        ]
  ]
