-- ===== src/Storage/Streambuf/Seeks.antt =====
-- The invariant of the stream, and where a seek moves it.
use Prim.Native.Nat.{min}
use fledge_key_value_service.Base.{
  ℕ, zero, suc, ◌+◌, ◌-◌, ◌≤◌, ◌<◌, ◌≡◌, refl, sym, ◌∙◌, ap, subst, ◌⊎◌, inl, inr, ◌||◌, Bool, true,
  false, if◌then◌else◌, Option, none, some, List, arith, ltb, leb, Bool-cases,
}
use fledge_key_value_service.Base.Ints.{ℤ, pos, negsuc}
use fledge_key_value_service.Base.Lists.{length, get_elem?}
use fledge_key_value_service.Lookup.Types.{ok}
use fledge_key_value_service.Storage.Streambuf.{
  Streambuf, buffer_available_chars, buffer_start_position, buffer_cursor_position, store_size,
  size, SeekDir, new_position, move_to, seek_to, seek_in, seekoff, beg, cur, end, map_some,
}

-- Where a seek counts from in a blob of `n` characters, for a stream at `p`.
abbrev pub origin : ℕ → ℕ → SeekDir → ℕ
origin n p beg = 0
origin n p cur = p
origin n p end = n

-- So many characters further, or back, but not before the start.
abbrev pub shifted : ℕ → ℤ → ℕ
shifted p (pos k) = p + k
shifted p (negsuc k) = p - suc k

-- A seek before the start from there, or behind the end from there.
abbrev pub is_refused : SeekDir → ℤ → Bool
is_refused beg (negsuc k) = true
is_refused end (pos (suc k)) = true
is_refused _ _ = false

-- The position that a seek asks for, at most the end of the blob.
abbrev pub sought : ℕ → ℕ → SeekDir → ℤ → Option ℕ
sought n p dir off =
    if is_refused dir off then none else some (min n (shifted (origin n p dir) off))

-- The position of the stream: the limit, less what the buffer holds behind the cursor.
abbrev pub position_of {ℓ} : {A : Type ℓ} → Streambuf A → ℕ
position_of s = s.src_limit_position + s.cursor - s.area

-- The position of a seek that may fail.
abbrev pub position_after : Option ℕ → ℕ → ℕ
position_after none p = p
position_after (some q) p = q

module _ {ℓ} {A : Type ℓ} (content : List A) where
  -- The buffer holds the characters before the limit, and the cached size is that of the blob.
  pub record IsValid (s : Streambuf A) : Type ℓ where
    pub whole : s.area ≡ length s.buffer
    pub inside : s.cursor ≤ s.area
    pub behind : s.area ≤ s.src_limit_position
    pub within : s.src_limit_position ≤ length content
    pub cached : (s.src_cached_size ≡ none) ⊎ (s.src_cached_size ≡ some (length content))
    pub window :
        (i : ℕ)
        → i < s.area
        → get_elem? s.buffer i ≡ get_elem? content (s.src_limit_position - s.area + i)

  abbrev pub sized : Streambuf A → Streambuf A
  sized s = record s { src_cached_size = some (length content) }

  size_at :
      (s : Streambuf A) (c : Option ℕ)
      → s.src_cached_size ≡ c
      → (c ≡ none) ⊎ (c ≡ some (length content))
      → size (ok (length content)) c s ≡ (sized s, ok (length content))
  unfolding size store_size
  size_at s none h cases = refl
  size_at s (some n) h (inl never) = absurd (cc never)
  size_at s (some n) h (inr e) =
      let same : n ≡ length content = cc e in
      rw same (ap (λ c. (record s { src_cached_size = c }, ok (length content))) (h ∙ e))

  pub size_lem :
      (s : Streambuf A)
      → IsValid s
      → size (ok (length content)) s.src_cached_size s ≡ (sized s, ok (length content))
  size_lem s v = size_at s s.src_cached_size refl v.cached

  pub sized-IsValid : (s : Streambuf A) → IsValid s → IsValid (sized s)
  sized-IsValid s v = record {
    whole = v.whole;
    inside = v.inside;
    behind = v.behind;
    within = v.within;
    cached = inr refl;
    window = v.window;
  }

  move_to_lem :
      (p : ℕ) (s : Streambuf A)
      → p ≤ length content
      → IsValid s
      → IsValid (move_to p s) × (buffer_cursor_position (move_to p s) ≡ p)
  unfolding move_to buffer_start_position buffer_cursor_position buffer_available_chars
  move_to_lem p s le v =
      let inside = v.inside in
      let behind = v.behind in
      let whole = v.whole in
      elim (Bool-cases (ltb p (buffer_start_position s) || leb s.src_limit_position p)) [
        | inl out ↦ rw out (
          record {
            whole = refl;
            inside = omega arith;
            behind = omega arith;
            within = le;
            cached = v.cached;
            window = λ i lt. absurd (omega (arith, lt));
          },
          omega arith,
        )
        | inr in_buffer ↦
            let first : s.src_limit_position - s.area ≤ p = ground (arith, in_buffer) in
            let last : p < s.src_limit_position = ground (arith, in_buffer) in
            rw in_buffer (
              record {
                whole = refl;
                inside = omega (arith, first, last, inside, behind, whole);
                behind = omega (arith, behind, whole);
                within = v.within;
                cached = v.cached;
                window =
                    subst
                      (λ k.
                        (i : ℕ)
                        → i < k
                        → get_elem? s.buffer i ≡ get_elem? content (s.src_limit_position - k + i))
                      whole v.window;
              },
              omega (arith, first, last, inside, behind, whole),
            )
      ]

  abbrev Sought : Option ℕ → Streambuf A → Streambuf A × Option ℕ → Type ℓ
  Sought target s (t, r) =
      IsValid t
      × (r ≡ map_some (min (length content)) target)
      × (buffer_cursor_position t ≡ position_after r (buffer_cursor_position s))

  seek_to_lem :
      (target : Option ℕ) (s : Streambuf A)
      → IsValid s
      → Sought target s (seek_to (length content) target s)
  unfolding seek_to
  seek_to_lem none s v = (v, refl, refl)
  seek_to_lem (some p) s v =
      let (valid, position) = move_to_lem (min (length content) p) s (omega arith) v in
      (valid, refl, position)

  pub sized-position :
      (s : Streambuf A) → buffer_cursor_position (sized s) ≡ buffer_cursor_position s
  unfolding buffer_cursor_position buffer_available_chars
  sized-position s = refl

  buffer_cursor_position_lem :
      (s : Streambuf A) → IsValid s → buffer_cursor_position s ≡ position_of s
  unfolding buffer_cursor_position buffer_available_chars
  buffer_cursor_position_lem s v = omega (arith, v.inside, v.behind)

  new_position_lem :
      (n : ℕ) (dir : SeekDir) (off : ℤ) (s : Streambuf A)
      → map_some (min n) (new_position n dir off s) ≡ sought n (buffer_cursor_position s) dir off
  unfolding new_position
  new_position_lem n beg (pos off) s = ap some (omega arith)
  new_position_lem n beg (negsuc off) s = refl
  new_position_lem n cur (pos off) s = refl
  new_position_lem n cur (negsuc off) s = refl
  new_position_lem n end (pos zero) s = ap some (omega arith)
  new_position_lem n end (pos (suc off)) s = refl
  new_position_lem n end (negsuc off) s = refl

  -- Where the size of the blob is known, a seek keeps the stream valid. From the start of the blob, from the
  -- position of the stream or from its end it moves to the position that lies the offset further, or
  -- back but not before the start, and not behind the end; the position is the limit of the buffer less
  -- the characters that the buffer holds behind the cursor. A negative offset from the start and a
  -- positive one from the end fail, and then the position of the stream stays.
  pub seekoff_lem :
      (s : Streambuf A) (off : ℤ) (dir : SeekDir)
      → IsValid s
      → IsValid (seekoff (ok (length content)) off dir s).0
        × ((seekoff (ok (length content)) off dir s).1
            ≡ sought (length content) (position_of s) dir off)
        × (position_of (seekoff (ok (length content)) off dir s).0
            ≡ position_after (seekoff (ok (length content)) off dir s).1 (position_of s))
  unfolding seekoff seek_in
  seekoff_lem s off dir v =
      let n = length content in
      let target = new_position n dir off (sized s) in
      let (a, b, c) = seek_to_lem target (sized s) (sized-IsValid s v) in
      let r = (seek_to n target (sized s)).1 in
      let here : buffer_cursor_position (sized s) ≡ position_of s =
        buffer_cursor_position_lem (sized s) (sized-IsValid s v) in
      rw (size_lem s v) (
        a,
        b ∙ new_position_lem n dir off (sized s) ∙ ap (λ p. sought n p dir off) here,
        sym (buffer_cursor_position_lem (seek_to n target (sized s)).0 a)
            ∙ c
            ∙ ap (position_after r) here,
      )
