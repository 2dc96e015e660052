-- ===== src/Tests/Storage.antt =====
-- The stream over a blob of five characters, with a buffer for three.
use Prim.Native.Nat.{min}
use fledge_key_value_service.Base.{
  ℕ, zero, suc, ◌+◌, ◌≤◌, ◌<◌, ◌≡◌, refl, ap, ◌∙◌, inl, String, Option, none, some, List, [], ◌∷◌,
  arith,
}
use fledge_key_value_service.Base.Ints.{pos, negsuc}
use fledge_key_value_service.Base.Lists.{length, get_elem?}
use fledge_key_value_service.Lookup.Types.{ok}
use fledge_key_value_service.Storage.Streambuf.{
  Streambuf, buffer_available_chars, buffer_start_position, buffer_cursor_position, store_size,
  size, end, new_position, move_to, seek_to, seek_in, seekoff, seekpos, ReadChunk, after_chunk,
  read_loop, after_loop, fill, underflow, bump, read_char,
}
use fledge_key_value_service.Storage.Streambuf.Seeks.{
  IsValid, sought, position_of, position_after, seekoff_lem,
}
use fledge_key_value_service.Storage.Streambuf.Refill.{IsFull}
use fledge_key_value_service.Storage.Streambuf.Reads.{read_char_lem}

abbrev blob : List String
blob = "a" ∷ "b" ∷ "c" ∷ "d" ∷ "e" ∷ []

abbrev slice : ℕ → ℕ → List String → List String
slice offset zero l = []
slice offset (suc n) [] = []
slice zero (suc n) (x ∷ l) = x ∷ slice zero n l
slice (suc offset) (suc n) (x ∷ l) = slice offset (suc n) l

abbrev read_chunk : ReadChunk String
read_chunk offset n = ok (some (slice offset n blob))

-- No more than two characters at a time.
abbrev read_short : ReadChunk String
read_short offset n = ok (some (slice offset (min n 2) blob))

abbrev start : Streambuf String
start = record { buffer = []; area = 0; cursor = 0; src_limit_position = 0; src_cached_size = none }

-- The characters that are read one after the other.
abbrev read_chars : ℕ → ReadChunk String → Streambuf String → List (Option String)
read_chars zero chunk s = []
read_chars (suc n) chunk s = elim (read_char 9 (ok 5) chunk 3 "" s) [
  | none ↦ []
  | some (t, c) ↦ c ∷ read_chars n chunk t
]

storage_program : Unit {0}
unfolding buffer_available_chars buffer_start_position buffer_cursor_position store_size size
    new_position move_to seek_to seek_in seekoff seekpos after_chunk read_loop after_loop fill
    underflow bump read_char
storage_program = tt

reads :
    read_chars 6 read_chunk start ≡ some "a" ∷ some "b" ∷ some "c" ∷ some "d" ∷ some "e" ∷ none ∷ []
unfolding storage_program
reads = refl

reads_after_seek :
    (read_chars 2 read_chunk (seekoff (ok 5) (negsuc 1) end start).0 ≡ some "d" ∷ some "e" ∷ [])
    × ((seekpos (ok 5) (pos 9) start).1 ≡ some 5)
    × ((seekpos (ok 5) (negsuc 0) start).1 ≡ none)
unfolding storage_program
reads_after_seek = (refl, refl, refl)

-- A second chunk is written over the first, and what is behind it is not written at all.
short_reads :
    read_chars 5 read_short start ≡ some "c" ∷ some "b" ∷ some "" ∷ some "d" ∷ some "e" ∷ []
unfolding storage_program
short_reads = refl

start-IsValid : IsValid blob start
start-IsValid = record {
  whole = refl;
  inside = omega arith;
  behind = omega arith;
  within = omega arith;
  cached = inl refl;
  window = λ i lt. absurd (omega (arith, lt));
}

length-slice :
    (offset n : ℕ) (l : List String) → offset + n ≤ length l → length (slice offset n l) ≡ n
length-slice offset zero l h = refl
length-slice offset (suc n) [] h = absurd (omega (arith, h))
length-slice zero (suc n) (x ∷ l) h = omega (arith, length-slice zero n l (omega (arith, h)))
length-slice (suc offset) (suc n) (x ∷ l) h = length-slice offset (suc n) l (omega (arith, h))

get_elem?-slice :
    (offset n i : ℕ) (l : List String)
    → i < n
    → get_elem? (slice offset n l) i ≡ get_elem? l (offset + i)
get_elem?-slice offset zero i l h = absurd (omega (arith, h))
get_elem?-slice offset (suc n) i [] h = refl
get_elem?-slice zero (suc n) zero (x ∷ l) h = refl
get_elem?-slice zero (suc n) (suc i) (x ∷ l) h =
    let at : suc (0 + i) ≡ 0 + suc i = omega arith in
    get_elem?-slice zero n i l (omega (arith, h)) ∙ ap (get_elem? (x ∷ l)) at
get_elem?-slice (suc offset) (suc n) i (x ∷ l) h =
    let at : suc (offset + i) ≡ suc offset + i = omega arith in
    get_elem?-slice offset (suc n) i l h ∙ ap (get_elem? (x ∷ l)) at

read_chunk-IsFull : IsFull blob read_chunk
read_chunk-IsFull offset n le = (
  slice offset n blob,
  (refl, length-slice offset n blob le, λ i lt. get_elem?-slice offset n i blob lt),
)

read_char_lem_example :
    (t : Streambuf String) × (read_char 2 (ok 5) read_chunk 3 "" start
      ≡ some (t, get_elem? blob (buffer_cursor_position start)))
    × IsValid blob t
    × (buffer_cursor_position t ≡ min 5 (suc (buffer_cursor_position start)))
read_char_lem_example = read_char_lem blob read_chunk 0 3 "" start read_chunk-IsFull start-IsValid

seekoff_lem_example :
    IsValid blob (seekoff (ok 5) (negsuc 1) end start).0
    × ((seekoff (ok 5) (negsuc 1) end start).1 ≡ sought 5 (position_of start) end (negsuc 1))
    × (position_of (seekoff (ok 5) (negsuc 1) end start).0
        ≡ position_after (seekoff (ok 5) (negsuc 1) end start).1 (position_of start))
seekoff_lem_example = seekoff_lem blob start (negsuc 1) end start-IsValid
