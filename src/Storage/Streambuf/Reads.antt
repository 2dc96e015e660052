-- ===== src/Storage/Streambuf/Reads.antt =====
-- The stream gives the characters of the blob from its position on.
use Prim.Native.Nat.{min}
use fledge_key_value_service.Base.{
  ℕ, suc, ◌+◌, ◌-◌, ◌≤◌, ◌<◌, ◌≡◌, refl, ◌∙◌, ap, sym, inl, inr, true, false, none, some, List,
  arith, ltb, leb, Bool-cases, ltb→lt, not_ltb,
}
use fledge_key_value_service.Base.Lists.{length, get_elem?}
use fledge_key_value_service.Lookup.Types.{ok}
use fledge_key_value_service.Storage.Streambuf.{
  Streambuf, buffer_available_chars, buffer_cursor_position, ReadChunk, fill, underflow, bump,
  read_char,
}
use fledge_key_value_service.Storage.Streambuf.Seeks.{
  IsValid, sized, size_lem, sized-IsValid, sized-position,
}
use fledge_key_value_service.Storage.Streambuf.Refill.{
  get_elem?_outside, get_elem?_inside, refilled, IsChunk, IsFull, fill_lem,
}

module _ {ℓ} {A : Type ℓ} (content : List A) (read_chunk : ReadChunk A) where
  abbrev Reads : ℕ → A → ℕ → Streambuf A → Type ℓ
  Reads fuel a buffer_size s =
      (t : Streambuf A) × (read_char fuel (ok (length content)) read_chunk buffer_size a s
        ≡ some (t, get_elem? content (buffer_cursor_position s)))
      × IsValid content t
      × (buffer_cursor_position t ≡ min (length content) (suc (buffer_cursor_position s)))

  read_buffered :
      (fuel buffer_size : ℕ) (a : A) (s : Streambuf A)
      → IsValid content s
      → s.cursor < s.area
      → Reads fuel a buffer_size s
  unfolding read_char bump buffer_cursor_position buffer_available_chars
  read_buffered fuel buffer_size a s v lt =
      let behind = v.behind in
      let within = v.within in
      let (c, e) = get_elem?_inside s.buffer s.cursor (omega (arith, lt, v.whole)) in
      let at : s.src_limit_position - s.area + s.cursor
          ≡ s.src_limit_position - (s.area - s.cursor) =
        omega (arith, behind, lt) in
      let here : get_elem? content (s.src_limit_position - (s.area - s.cursor)) ≡ some c =
        ap (get_elem? content) (sym at) ∙ sym (v.window s.cursor lt) ∙ e in
      let more : ltb s.cursor s.area ≡ true = ground (arith, lt) in
      (
        record s { cursor = suc s.cursor },
        rw more (rw (e, here)),
        record {
          whole = v.whole;
          inside = omega (arith, lt);
          behind = behind;
          within = within;
          cached = v.cached;
          window = v.window;
        },
        omega (arith, lt, behind, within),
      )

  bump-some :
      (s : Streambuf A) (c : A)
      → bump (some (s, some c)) ≡ some (record s { cursor = suc s.cursor }, some c)
  unfolding bump
  bump-some s c = refl

  bump-none : (s : Streambuf A) → bump (some (s, none)) ≡ some (s, none)
  unfolding bump
  bump-none s = refl

  read_char_underflow :
      (fuel buffer_size : ℕ) (a : A) (s : Streambuf A)
      → IsValid content s
      → ltb s.cursor s.area ≡ false
      → read_char fuel (ok (length content)) read_chunk buffer_size a s
        ≡ bump (fill fuel read_chunk buffer_size a (sized content s, ok (length content)))
  unfolding read_char underflow
  read_char_underflow fuel buffer_size a s v over = rw over (rw (size_lem content s v))

  fill_end :
      (fuel buffer_size : ℕ) (a : A) (s : Streambuf A)
      → length content ≤ s.src_limit_position
      → fill fuel read_chunk buffer_size a (s, ok (length content)) ≡ some (s, none)
  unfolding fill
  fill_end fuel buffer_size a s le =
      let over : leb (length content) s.src_limit_position ≡ true = ground (arith, le) in rw over

  at_limit :
      (s : Streambuf A)
      → IsValid content s
      → ltb s.cursor s.area ≡ false
      → buffer_cursor_position s ≡ s.src_limit_position
  unfolding buffer_cursor_position buffer_available_chars
  at_limit s v over = ground (arith, over, v.inside, v.behind)

  read_at_end :
      (fuel buffer_size : ℕ) (a : A) (s : Streambuf A)
      → IsValid content s
      → ltb s.cursor s.area ≡ false
      → length content ≤ s.src_limit_position
      → Reads fuel a buffer_size s
  read_at_end fuel buffer_size a s v over le =
      let position = at_limit s v over in
      let here : get_elem? content (buffer_cursor_position s) ≡ none =
        get_elem?_outside content (buffer_cursor_position s) (omega (arith, le, position)) in
      (
        sized content s,
        read_char_underflow fuel buffer_size a s v over
            ∙ ap bump (fill_end fuel buffer_size a (sized content s) le)
            ∙ bump-none (sized content s)
            ∙ ap (λ c. some (sized content s, c)) (sym here),
        sized-IsValid content s v,
        sized-position content s ∙ omega (arith, le, position, v.within),
      )

  refilled-IsValid :
      (m : ℕ) (chars : List A) (s : Streambuf A)
      → IsValid content s
      → IsChunk content read_chunk s.src_limit_position (suc m) chars
      → s.src_limit_position + suc m ≤ length content
      → IsValid content (record (refilled chars s) { cursor = 1 })
        × (buffer_cursor_position (record (refilled chars s) { cursor = 1 })
            ≡ suc s.src_limit_position)
  unfolding buffer_cursor_position buffer_available_chars
  refilled-IsValid m chars s v (chunk, len, same) le = (
    record {
      whole = refl;
      inside = omega (arith, len);
      behind = omega arith;
      within = omega (arith, len, le);
      cached = v.cached;
      window = λ i lt.
          let at : s.src_limit_position + i
              ≡ s.src_limit_position + length chars - length chars + i =
            omega arith in
          same i (omega (arith, lt, len)) ∙ ap (get_elem? content) at;
    },
    omega (arith, len),
  )

  read_refilled :
      (fuel buffer_size : ℕ) (a : A) (s : Streambuf A)
      → IsValid content s
      → ltb s.cursor s.area ≡ false
      → s.src_limit_position < length content
      → IsFull content read_chunk
      → Reads (suc (suc fuel)) a buffer_size s
  read_refilled fuel buffer_size a s v over lt full =
      let position = at_limit s v over in
      let (m, chars, chunk, le, filled) =
        fill_lem content read_chunk fuel buffer_size a (sized content s) full lt in
      let (c, first) = get_elem?_inside chars 0 (omega (arith, chunk.1)) in
      let (valid, after) =
        refilled-IsValid m chars (sized content s) (sized-IsValid content s v) chunk le in
      let here : get_elem? content (buffer_cursor_position s) ≡ some c =
        ap (get_elem? content) (position ∙ omega arith) ∙ sym (chunk.2 0 (omega arith)) ∙ first in
      (
        record (refilled chars (sized content s)) { cursor = 1 },
        read_char_underflow (suc (suc fuel)) buffer_size a s v over
            ∙ ap bump filled
            ∙ ap (λ x. bump (some (refilled chars (sized content s), x))) first
            ∙ bump-some (refilled chars (sized content s)) c
            ∙ ap (λ x. some (record (refilled chars (sized content s)) { cursor = 1 }, x))
                (sym here),
        valid,
        after ∙ omega (arith, position, le),
      )

  -- Where the size of the blob is known and ReadChunk gives all the characters that it is asked for,
  -- reading a character of a valid stream gives the character of the blob at the stream's position,
  -- or the end of file where that is the size of the blob; the stream stays valid and is moved on by
  -- one character, if there was one. The loop of underflow ends in its second round.
  pub read_char_lem :
      (fuel buffer_size : ℕ) (a : A) (s : Streambuf A)
      → IsFull content read_chunk
      → IsValid content s
      → (t : Streambuf A) × (read_char
            (suc (suc fuel))
            (ok (length content))
            read_chunk
            buffer_size
            a
            s
          ≡ some (t, get_elem? content (buffer_cursor_position s)))
        × IsValid content t
        × (buffer_cursor_position t ≡ min (length content) (suc (buffer_cursor_position s)))
  read_char_lem fuel buffer_size a s full v = elim (Bool-cases (ltb s.cursor s.area)) [
    | inl more ↦ read_buffered (suc (suc fuel)) buffer_size a s v (ltb→lt s.cursor s.area more)
    | inr over ↦ elim (Bool-cases (ltb s.src_limit_position (length content))) [
      | inl more ↦
          read_refilled fuel buffer_size a s v over
            (ltb→lt s.src_limit_position (length content) more) full
      | inr end ↦
          read_at_end (suc (suc fuel)) buffer_size a s v over
            (not_ltb s.src_limit_position (length content) end)
    ]
  ]
