-- ===== src/Storage/Streambuf/Refill.antt =====
-- The buffer after underflow has read a chunk.
use Prim.Native.Nat.{min}
use fledge_key_value_service.Base.{
  ℕ, zero, suc, ◌+◌, ◌-◌, ◌≤◌, ◌<◌, max, ◌≡◌, refl, ◌∙◌, ap, sym, subst, true, false, none, some,
  List, [], ◌∷◌, arith, ltb, leb,
}
use fledge_key_value_service.Base.Lists.{length, get_elem?}
use fledge_key_value_service.Lookup.Types.{ok}
use fledge_key_value_service.Storage.Streambuf.{
  Streambuf, resize, overwrite, done, ReadChunk, after_chunk, read_loop, after_loop, map_some, fill,
}

module _ {ℓ} {A : Type ℓ} where
  overwrite_all : (xs buffer : List A) → length xs ≡ length buffer → overwrite xs buffer ≡ xs
  overwrite_all [] [] h = refl
  overwrite_all [] (_ ∷ _) h = absurd (omega (arith, h))
  overwrite_all (x ∷ xs) [] h = refl
  overwrite_all (x ∷ xs) (_ ∷ buffer) h =
      ap (λ l. x ∷ l) (overwrite_all xs buffer (omega (arith, h)))

  length-resize : (n : ℕ) (a : A) (l : List A) → length (resize n a l) ≡ n
  length-resize zero a l = refl
  length-resize (suc n) a [] = omega (arith, length-resize n a [])
  length-resize (suc n) a (x ∷ l) = omega (arith, length-resize n a l)

  pub get_elem?_outside : (l : List A) (i : ℕ) → length l ≤ i → get_elem? l i ≡ none
  get_elem?_outside [] i h = refl
  get_elem?_outside (x ∷ l) zero h = absurd (omega (arith, h))
  get_elem?_outside (x ∷ l) (suc i) h = get_elem?_outside l i (omega (arith, h))

  pub get_elem?_inside : (l : List A) (i : ℕ) → i < length l → (a : A) × (get_elem? l i ≡ some a)
  get_elem?_inside [] i h = absurd (omega (arith, h))
  get_elem?_inside (x ∷ l) zero h = (x, refl)
  get_elem?_inside (x ∷ l) (suc i) h = get_elem?_inside l i (omega (arith, h))

  abbrev filled : List A → Streambuf A → Streambuf A
  filled chars s = record s {
    buffer = chars;
    src_limit_position = s.src_limit_position + length chars;
  }

  -- The stream after a chunk.
  abbrev pub refilled : List A → Streambuf A → Streambuf A
  refilled chars s = record s {
    buffer = chars;
    area = length chars;
    cursor = 0;
    src_limit_position = s.src_limit_position + length chars;
  }

  module _ (content : List A) (read_chunk : ReadChunk A) where
    -- The characters of the blob from the offset on, as many as were asked for.
    abbrev pub IsChunk : ℕ → ℕ → List A → Type ℓ
    IsChunk offset n chars =
        (read_chunk offset n ≡ ok (some chars))
        × (length chars ≡ n)
        × ((i : ℕ) → i < n → get_elem? chars i ≡ get_elem? content (offset + i))

    -- ReadChunk gives all the characters that it is asked for.
    abbrev pub IsFull : Type ℓ
    IsFull =
        (offset n : ℕ) → offset + n ≤ length content → (chars : List A) × IsChunk offset n chars

    read_loop_end :
        (fuel total n : ℕ) (s : Streambuf A)
        → total ≤ n
        → read_loop (suc fuel) read_chunk total n s ≡ some (s, done n)
    unfolding read_loop
    read_loop_end fuel total n s le = let over : ltb n total ≡ false = ground (arith, le) in rw over

    read_loop_step :
        (fuel total n : ℕ) (s : Streambuf A) (chars : List A)
        → ltb n total ≡ true
        → read_chunk s.src_limit_position (total - n) ≡ ok (some chars)
        → read_loop (suc fuel) read_chunk total n s
          ≡ read_loop fuel read_chunk total (n + length chars) (record s {
            buffer = overwrite chars s.buffer;
            src_limit_position = s.src_limit_position + length chars;
          })
    unfolding read_loop after_chunk
    read_loop_step fuel total n s chars more chunk = rw (more, chunk)

    read_loop_lem :
        (fuel m : ℕ) (s : Streambuf A) (chars : List A)
        → length s.buffer ≡ suc m
        → IsChunk s.src_limit_position (suc m) chars
        → read_loop (suc (suc fuel)) read_chunk (suc m) 0 s ≡ some (filled chars s, done (suc m))
    read_loop_lem fuel m s chars full (chunk, len, _) =
        let all : suc m ≡ suc m - 0 = omega arith in
        let read : 0 + length chars ≡ suc m = omega (arith, len) in
        read_loop_step (suc fuel) (suc m) 0 s chars (ground arith)
          (subst (λ k. read_chunk s.src_limit_position k ≡ ok (some chars)) all chunk)
        ∙ rw (read, overwrite_all chars s.buffer (len ∙ sym full))
            (read_loop_end fuel (suc m) (suc m) (filled chars s) (omega arith))

    after_loop_lem :
        (m : ℕ) (a : A) (s : Streambuf A) (chars : List A)
        → after_loop (suc m) a (filled chars s, done (suc m))
          ≡ (refilled chars s, get_elem? chars 0)
    unfolding after_loop
    after_loop_lem m a s chars = ground arith

    fill_chunk :
        (fuel buffer_size m : ℕ) (a : A) (s : Streambuf A) (chars : List A)
        → s.src_limit_position < length content
        → max (min (length content - s.src_limit_position) buffer_size) 1 ≡ suc m
        → IsChunk s.src_limit_position (suc m) chars
        → fill (suc (suc fuel)) read_chunk buffer_size a (s, ok (length content))
          ≡ some (refilled chars s, get_elem? chars 0)
    unfolding fill
    fill_chunk fuel buffer_size m a s chars lt total chunk =
        let before : leb (length content) s.src_limit_position ≡ false = ground (arith, lt) in
        let resized : Streambuf A = record s { buffer = resize (suc m) a s.buffer } in
        let read = read_loop_lem fuel m resized chars (length-resize (suc m) a s.buffer) chunk in
        rw (before, total)
          (ap (map_some (after_loop (suc m) a)) read ∙ ap some (after_loop_lem m a resized chars))

    pub fill_lem :
        (fuel buffer_size : ℕ) (a : A) (s : Streambuf A)
        → IsFull
        → s.src_limit_position < length content
        → (m : ℕ) × (chars : List A) × IsChunk s.src_limit_position (suc m) chars
          × (s.src_limit_position + suc m ≤ length content)
          × (fill (suc (suc fuel)) read_chunk buffer_size a (s, ok (length content))
              ≡ some (refilled chars s, get_elem? chars 0))
    fill_lem fuel buffer_size a s full lt =
        let total = max (min (length content - s.src_limit_position) buffer_size) 1 in
        let (chars, chunk) = full s.src_limit_position total (omega (arith, lt)) in
        let m = total - 1 in
        let positive : total ≡ suc m = omega arith in
        (
          m,
          chars,
          subst (λ k. IsChunk s.src_limit_position k chars) positive chunk,
          omega (arith, lt),
          fill_chunk fuel buffer_size m a s chars lt positive
              (subst (λ k. IsChunk s.src_limit_position k chars) positive chunk),
        )
