-- ===== src/Loading/Filenames/Names.antt =====
-- The names that are built are valid, and ordered as their commit times are.
use Prim.Native.Char.{code}
use Prim.Native.Nat.{◌/◌}
use Prim.Native.String.{[], ◌∷◌}
use fledge_key_value_service.Base.{
  ℕ, zero, suc, ◌+◌, ◌*◌, ◌%◌, ◌^◌, ◌≤◌, ◌<◌, ◌≡◌, refl, ◌∙◌, ap, sym, String, true, false, arith,
  ltb, if◌then◌else◌, Bool-cases, ltb→lt, not_ltb, inl, inr, ◌⊎◌,
}
use fledge_key_value_service.Base.Strings.{is_less, is_less_irrefl}
use fledge_key_value_service.Lookup.Types.{ok, err, invalid_argument}
use fledge_key_value_service.Loading.Filenames.{
  append, are_digits, matches, is_delta_filename, digit, last_digits, digits, padded, to_int64,
  get_filename, if_valid, to_delta_file_name,
}

code-digit : (d : ℕ) → d < 10 → code (digit d) ≡ 48 + d
code-digit zero lt = refl
code-digit (suc zero) lt = refl
code-digit (suc (suc zero)) lt = refl
code-digit (suc (suc (suc zero))) lt = refl
code-digit (suc (suc (suc (suc zero)))) lt = refl
code-digit (suc (suc (suc (suc (suc zero))))) lt = refl
code-digit (suc (suc (suc (suc (suc (suc zero)))))) lt = refl
code-digit (suc (suc (suc (suc (suc (suc (suc zero))))))) lt = refl
code-digit (suc (suc (suc (suc (suc (suc (suc (suc zero)))))))) lt = refl
code-digit (suc (suc (suc (suc (suc (suc (suc (suc (suc zero))))))))) lt = refl
code-digit (suc (suc (suc (suc (suc (suc (suc (suc (suc (suc d)))))))))) lt =
    absurd (omega (arith, lt))

is_less_digits :
    (s t : ℕ) (a b : String)
    → (if ltb (s / 10) (t / 10)
        then true
        else if ltb (t / 10) (s / 10)
        then false
        else is_less (digit (s % 10) ∷ a) (digit (t % 10) ∷ b))
      ≡ (if ltb s t then true else if ltb t s then false else is_less a b)
unfolding is_less
is_less_digits s t a b =
    let c = code-digit (s % 10) (omega arith) in
    let d = code-digit (t % 10) (omega arith) in ground (arith, c, d)

are_digits-digit :
    (k d : ℕ) (rest : String) → d < 10 → are_digits (suc k) (digit d ∷ rest) ≡ are_digits k rest
unfolding are_digits
are_digits-digit k d rest lt = let c = code-digit d lt in ground (arith, c)

-- Two numbers of so many digits are compared as their last digits are.
last_digits-is_less :
    (n s t : ℕ) (a b : String)
    → s < 10 ^ n
    → t < 10 ^ n
    → is_less (last_digits n s a) (last_digits n t b)
      ≡ (if ltb s t then true else if ltb t s then false else is_less a b)
unfolding last_digits
last_digits-is_less zero s t a b lt lt' = ground (arith, lt, lt')
last_digits-is_less (suc n) s t a b lt lt' =
    let c = code-digit (s % 10) (omega arith) in
    let d = code-digit (t % 10) (omega arith) in
    let power : 10 ^ suc n ≡ 10 ^ n * 10 = omega arith in
    let rest =
      last_digits-is_less n (s / 10) (t / 10) (digit (s % 10) ∷ a) (digit (t % 10) ∷ b)
        (omega (arith, lt, power)) (omega (arith, lt', power)) in
    rest ∙ is_less_digits s t a b

last_digits-are_digits :
    (n k v : ℕ) (rest : String) → are_digits (n + k) (last_digits n v rest) ≡ are_digits k rest
unfolding last_digits
last_digits-are_digits zero k v rest = let none : 0 + k ≡ k = omega arith in rw none
last_digits-are_digits (suc n) k v rest =
    let one_more : suc n + k ≡ n + suc k = omega arith in
    rw one_more (
      last_digits-are_digits n (suc k) (v / 10) (digit (v % 10) ∷ rest)
      ∙ are_digits-digit k (v % 10) rest (omega arith))

-- Names with the same prefix are compared as what follows it.
is_less-prefix : (p x y : String) → is_less (append p x) (append p y) ≡ is_less x y
unfolding is_less
is_less-prefix [] x y = refl
is_less-prefix (c ∷ p) x y = ground (arith, is_less-prefix p x y)

is_delta-prefix : (x : String) → is_delta_filename (append "DELTA" (append "_" x)) ≡ are_digits 16 x
unfolding is_delta_filename matches
is_delta-prefix x = refl

abbrev size : String → ℕ
size [] = 0
size (_ ∷ s) = suc (size s)

are_digits-size : (n : ℕ) (s : String) → are_digits n s ≡ true → size s ≡ n
unfolding are_digits
are_digits-size zero [] h = refl
are_digits-size zero (_ ∷ _) h = absurd (cc h)
are_digits-size (suc n) [] h = absurd (cc h)
are_digits-size (suc n) (c ∷ s) h = ground (arith, h, are_digits-size n s)

size-last_digits : (n v : ℕ) (rest : String) → size (last_digits n v rest) ≡ n + size rest
unfolding last_digits
size-last_digits zero v rest = omega arith
size-last_digits (suc n) v rest = omega (arith, size-last_digits n (v / 10) (digit (v % 10) ∷ rest))

size-digits : (fuel v : ℕ) (rest : String) → size rest ≤ size (digits fuel v rest)
unfolding digits
size-digits zero v rest = omega arith
size-digits (suc fuel) v rest = ground (arith, size-digits fuel (v / 10) (digit (v % 10) ∷ rest))

size-digits-suc : (fuel v : ℕ) (rest : String) → 1 ≤ v → size rest < size (digits (suc fuel) v rest)
unfolding digits
size-digits-suc fuel v rest some_digit =
    ground (arith, some_digit, size-digits fuel (v / 10) (digit (v % 10) ∷ rest))

padded_small : (t : ℕ) → t < 10 ^ 16 → padded 16 (to_int64 t) ≡ last_digits 16 t ""
unfolding padded digits
padded_small t lt =
    let positive : ltb t (2 ^ 63) ≡ true = ground (arith, lt) in
    let none : t / 10 ^ 16 ≡ 0 = omega (arith, lt) in rw positive (rw none)

too_long : (s : String) → 16 < size s → are_digits 16 s ≡ false
too_long s long = elim (Bool-cases (are_digits 16 s)) [
  | inl h ↦ absurd (omega (arith, are_digits-size 16 s h, long))
  | inr h ↦ h
]

signed : (s : String) → are_digits 16 ("-" ∷ s) ≡ false
unfolding are_digits
signed s = refl

padded_large : (t : ℕ) → 10 ^ 16 ≤ t → t < 2 ^ 64 → are_digits 16 (padded 16 (to_int64 t)) ≡ false
unfolding padded
padded_large t le lt = elim (Bool-cases (ltb t (2 ^ 63))) [
  | inr negative ↦ rw negative (signed _)
  | inl positive ↦
      let long = size-digits-suc 19 (t / 10 ^ 16) (last_digits 16 t "") (omega (arith, le)) in
      rw positive (
        too_long (digits 20 (t / 10 ^ 16) (last_digits 16 t ""))
          (omega (arith, long, size-last_digits 16 t "")))
]

filename_digits : (t : ℕ) → t < 10 ^ 16 → are_digits 16 (padded 16 (to_int64 t)) ≡ true
unfolding are_digits
filename_digits t lt =
    let all : 16 + 0 ≡ 16 = refl in
    ap (are_digits 16) (padded_small t lt) ∙ last_digits-are_digits 16 0 t ""

last_digits_order :
    (s t : ℕ)
    → s < 10 ^ 16
    → t < 10 ^ 16
    → is_less (last_digits 16 s "") (last_digits 16 t "") ≡ ltb s t
last_digits_order s t lt lt' =
    let e = last_digits-is_less 16 s t "" "" lt lt' in
    let same : is_less "" "" ≡ false = is_less_irrefl "" in ground (arith, e, same)

-- The name of a delta file is built where the commit time has at most sixteen digits, and is then valid;
-- for any greater number of 64 bits the result is the error.
pub to_delta_file_name_lem :
    (t : ℕ)
    → t < 2 ^ 64
    → ((t < 10 ^ 16)
        × (to_delta_file_name t ≡ ok (get_filename "DELTA" t))
        × (is_delta_filename (get_filename "DELTA" t) ≡ true))
      ⊎ ((10 ^ 16 ≤ t) × (to_delta_file_name t ≡ err invalid_argument))
unfolding to_delta_file_name get_filename if_valid
to_delta_file_name_lem t lt = elim (Bool-cases (ltb t (10 ^ 16))) [
  | inl small ↦
      let valid =
        is_delta-prefix (padded 16 (to_int64 t)) ∙ filename_digits t (ltb→lt t (10 ^ 16) small) in
      inl (ltb→lt t (10 ^ 16) small, rw valid, valid)
  | inr large ↦
      let invalid =
        is_delta-prefix (padded 16 (to_int64 t)) ∙ padded_large t (not_ltb t (10 ^ 16) large) lt in
      inr (not_ltb t (10 ^ 16) large, rw invalid)
]

-- The names of delta files are ordered as their commit times are.
pub delta_file_names-is_less :
    (s t : ℕ) (a b : String)
    → s < 2 ^ 64
    → t < 2 ^ 64
    → to_delta_file_name s ≡ ok a
    → to_delta_file_name t ≡ ok b
    → is_less a b ≡ ltb s t
unfolding get_filename
delta_file_names-is_less s t a b lt lt' built built' = elim (to_delta_file_name_lem s lt) [
  | inr (_, failed) ↦ absurd (cc (failed, built))
  | inl (small, named, _) ↦ elim (to_delta_file_name_lem t lt') [
    | inr (_, failed) ↦ absurd (cc (failed, built'))
    | inl (small', named', _) ↦
        let same : get_filename "DELTA" s ≡ a = cc (named, built) in
        let same' : get_filename "DELTA" t ≡ b = cc (named', built') in
        rw (sym same, sym same')
          (is_less-prefix "DELTA" _ _
            ∙ is_less-prefix "_" _ _
            ∙ rw (padded_small s small, padded_small t small') (last_digits_order s t small small'))
  ]
]
