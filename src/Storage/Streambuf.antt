-- ===== src/Storage/Streambuf.antt =====
-- components/data/blob_storage/seeking_input_streambuf.cc. The size of the blob and the reading of a chunk of
-- it, which the derived classes give, are arguments. Characters are of any type; what the library's
-- std::streambuf does with the three pointers of the get area is written out. The error callback is left
-- out, a buffer size that is negative is taken as 0, and the pointers into a buffer that is resized
-- are taken to stay valid.
pub mod Seeks
pub mod Refill
pub mod Reads
use Prim.Native.Nat.{min}
use fledge_key_value_service.Base.{
  ℕ, zero, suc, ◌+◌, ◌-◌, max, Bool, true, false, ◌||◌, Option, none, some, List, [], ◌∷◌, ◌++◌,
  ltb, leb, if◌then◌else◌,
}
use fledge_key_value_service.Base.Ints.{ℤ, pos, negsuc}
use fledge_key_value_service.Base.Lists.{length, get_elem?, replicate}
use fledge_key_value_service.Lookup.Types.{StatusOr, ok, err}

-- The get area begins at the start of the buffer; `area` is egptr() - eback(), and `cursor` is
-- gptr() - eback().
pub record Streambuf {ℓ} (A : Type ℓ) : Type ℓ where
  pub buffer : List A
  pub area : ℕ
  pub cursor : ℕ
  pub src_limit_position : ℕ
  pub src_cached_size : Option ℕ

pub data SeekDir : Type 0 where
  beg cur end : SeekDir

-- The sum, or 0 where it is negative.
abbrev pub add_off : ℕ → ℤ → ℕ
add_off p (pos n) = p + n
add_off p (negsuc n) = p - suc n

-- The loop of underflow ends, in an error or not, with the number of characters that it has read.
pub data LoopEnd : Type 0 where
  failed : LoopEnd
  done : ℕ → LoopEnd

-- The chunk that ReadChunk gives, or `none` for a negative number.
abbrev pub ReadChunk {ℓ} : Type ℓ → Type ℓ
ReadChunk A = ℕ → ℕ → StatusOr (Option (List A))

abbrev pub map_some {ℓ κ} : {B : Type ℓ} {C : Type κ} → (B → C) → Option B → Option C
map_some f none = none
map_some f (some b) = some (f b)

module _ {ℓ} {A : Type ℓ} where
  unfoldable pub buffer_available_chars : Streambuf A → ℕ
  buffer_available_chars s = s.area - s.cursor

  unfoldable pub buffer_start_position : Streambuf A → ℕ
  buffer_start_position s = s.src_limit_position - s.area

  unfoldable pub buffer_cursor_position : Streambuf A → ℕ
  unfolding buffer_available_chars
  buffer_cursor_position s = s.src_limit_position - buffer_available_chars s

  -- setg with the whole buffer.
  abbrev pub setg : List A → ℕ → Streambuf A → Streambuf A
  setg buffer cursor s = record s { buffer = buffer; area = length buffer; cursor = cursor }

  unfoldable pub store_size : StatusOr ℕ → Streambuf A → Streambuf A × StatusOr ℕ
  store_size (err e) s = (s, err e)
  store_size (ok n) s = (record s { src_cached_size = some n }, ok n)

  -- Size, from the cached size on.
  unfoldable pub size : StatusOr ℕ → Option ℕ → Streambuf A → Streambuf A × StatusOr ℕ
  unfolding store_size
  size size_impl (some n) s = (s, ok n)
  size size_impl none s = store_size size_impl s

  -- The position before it is rounded down to the size; `none` is the result -1.
  unfoldable pub new_position : ℕ → SeekDir → ℤ → Streambuf A → Option ℕ
  unfolding buffer_cursor_position
  new_position n beg (pos off) s = some off
  new_position n beg (negsuc off) s = none
  new_position n cur off s = some (add_off (buffer_cursor_position s) off)
  new_position n end (pos zero) s = some n
  new_position n end (pos (suc off)) s = none
  new_position n end (negsuc off) s = some (add_off n (negsuc off))

  unfoldable pub move_to : ℕ → Streambuf A → Streambuf A
  unfolding buffer_start_position
  move_to p s =
      if ltb p (buffer_start_position s) || leb s.src_limit_position p
      then setg [] 0 (record s { src_limit_position = p })
      else setg s.buffer (p - buffer_start_position s) s

  unfoldable pub seek_to : ℕ → Option ℕ → Streambuf A → Streambuf A × Option ℕ
  unfolding move_to
  seek_to n none s = (s, none)
  seek_to n (some p) s = (move_to (min n p) s, some (min n p))

  unfoldable pub seek_in : SeekDir → ℤ → Streambuf A × StatusOr ℕ → Streambuf A × Option ℕ
  unfolding seek_to new_position
  seek_in dir off (s, err e) = (s, none)
  seek_in dir off (s, ok n) = seek_to n (new_position n dir off s) s

  -- `none` stands for the position -1.
  unfoldable pub seekoff : StatusOr ℕ → ℤ → SeekDir → Streambuf A → Streambuf A × Option ℕ
  unfolding seek_in size
  seekoff size_impl off dir s = seek_in dir off (size size_impl s.src_cached_size s)

  unfoldable pub seekpos : StatusOr ℕ → ℤ → Streambuf A → Streambuf A × Option ℕ
  unfolding seekoff
  seekpos size_impl p s = seekoff size_impl p beg s

  -- std::string::resize.
  abbrev pub resize : ℕ → A → List A → List A
  resize zero a l = []
  resize (suc n) a [] = a ∷ resize n a []
  resize (suc n) a (x ∷ l) = x ∷ resize n a l

  -- The characters are written to the start of the buffer.
  abbrev pub overwrite : List A → List A → List A
  overwrite [] buffer = buffer
  overwrite (x ∷ xs) [] = x ∷ xs
  overwrite (x ∷ xs) (_ ∷ buffer) = x ∷ overwrite xs buffer

  unfoldable pub after_chunk :
      (ℕ → Streambuf A → Option (Streambuf A × LoopEnd))
      → ℕ
      → Streambuf A
      → StatusOr (Option (List A))
      → Option (Streambuf A × LoopEnd)
  after_chunk next total_bytes_read s (err e) = some (s, failed)
  after_chunk next total_bytes_read s (ok none) = some (s, done total_bytes_read)
  after_chunk next total_bytes_read s (ok (some chars)) =
      next (total_bytes_read + length chars) (record s {
        buffer = overwrite chars s.buffer;
        src_limit_position = s.src_limit_position + length chars;
      })

  -- The loop of underflow; `none` where the fuel does not reach to its end.
  unfoldable pub read_loop : ℕ → ReadChunk A → ℕ → ℕ → Streambuf A → Option (Streambuf A × LoopEnd)
  unfolding after_chunk
  read_loop zero read_chunk total_bytes_to_read total_bytes_read s = none
  read_loop (suc fuel) read_chunk total_bytes_to_read total_bytes_read s =
      let next = read_loop fuel read_chunk total_bytes_to_read in
      let read =
        after_chunk next total_bytes_read s
          (read_chunk s.src_limit_position (total_bytes_to_read - total_bytes_read)) in
      if ltb total_bytes_read total_bytes_to_read then read else some (s, done total_bytes_read)

  -- underflow after the loop, with the character at the start of the buffer; `none` is the end of file.
  unfoldable pub after_loop : ℕ → A → Streambuf A × LoopEnd → Streambuf A × Option A
  after_loop total_bytes_to_read a (s, failed) = (s, none)
  after_loop total_bytes_to_read a (s, done zero) = (s, none)
  after_loop total_bytes_to_read a (s, done (suc n)) =
      let buffer =
        if ltb (suc n) total_bytes_to_read then resize (suc n) a s.buffer else s.buffer in
      (setg buffer 0 s, get_elem? buffer 0)

  -- The `a` fills a buffer that is made longer.
  unfoldable pub fill :
      ℕ → ReadChunk A → ℕ → A → Streambuf A × StatusOr ℕ → Option (Streambuf A × Option A)
  unfolding read_loop after_loop
  fill fuel read_chunk buffer_size a (s, err e) = some (s, none)
  fill fuel read_chunk buffer_size a (s, ok n) =
      let total = max (min (n - s.src_limit_position) buffer_size) 1 in
      let filled =
        map_some (after_loop total a)
          (read_loop fuel read_chunk total 0 (record s { buffer = resize total a s.buffer })) in
      if leb n s.src_limit_position then some (s, none) else filled

  unfoldable pub underflow :
      ℕ → StatusOr ℕ → ReadChunk A → ℕ → A → Streambuf A → Option (Streambuf A × Option A)
  unfolding fill size
  underflow fuel size_impl read_chunk buffer_size a s =
      fill fuel read_chunk buffer_size a (size size_impl s.src_cached_size s)

  -- std::streambuf::sbumpc: the character at the cursor, or that of underflow, is passed.
  unfoldable pub bump : Option (Streambuf A × Option A) → Option (Streambuf A × Option A)
  bump none = none
  bump (some (s, none)) = some (s, none)
  bump (some (s, some a)) = some (record s { cursor = suc s.cursor }, some a)

  unfoldable pub read_char :
      ℕ → StatusOr ℕ → ReadChunk A → ℕ → A → Streambuf A → Option (Streambuf A × Option A)
  unfolding bump underflow
  read_char fuel size_impl read_chunk buffer_size a s =
      if ltb s.cursor s.area
      then bump (some (s, get_elem? s.buffer s.cursor))
      else bump (underflow fuel size_impl read_chunk buffer_size a s)
