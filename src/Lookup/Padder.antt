-- ===== src/Lookup/Padder.antt =====
-- components/internal_server/string_padder.cc. The reader and the writer of the QUICHE library are the
-- argument of the section: their documented behaviour is the record's laws.
use fledge_key_value_service.Base.{
  ℕ, ◌+◌, ◌<◌, ◌^◌, ◌%◌, ◌≡◌, Option, none, some, List, ◌++◌, arith,
}
use fledge_key_value_service.Base.Lists.{length, replicate, length-append, length-replicate}
use fledge_key_value_service.Lookup.Types.{invalid_argument, StatusOr, ok, err, ◌>>=◌}

-- A reader gives what it read and what is left, or nothing where the input is too short.
pub record DataCodec : Type 0 where
  pub write_uint32 : ℕ → List ℕ
  pub read_uint32 : List ℕ → Option (ℕ × List ℕ)
  pub read_string_piece : ℕ → List ℕ → Option (List ℕ × List ℕ)
  pub length-write : (n : ℕ) → n < 2 ^ 32 → length (write_uint32 n) ≡ 4
  pub read-write :
      (n : ℕ) (rest : List ℕ) → n < 2 ^ 32 → read_uint32 (write_uint32 n ++ rest) ≡ some (n, rest)
  pub read-string : (s rest : List ℕ) → read_string_piece (length s) (s ++ rest) ≡ some (s, rest)

abbrev pub or_invalid {ℓ} : {A : Type ℓ} → Option A → StatusOr A
or_invalid none = err invalid_argument
or_invalid (some a) = ok a

module _ (codec : DataCodec) where
  -- The output is filled with the character 0, and the size and the string are written over it. This
  -- is Pad for outputs whose size fits an int.
  unfoldable pub pad : List ℕ → ℕ → List ℕ
  pad string_to_pad extra_padding =
      codec.write_uint32 (length string_to_pad % 2 ^ 32)
      ++ (string_to_pad ++ replicate extra_padding b'0')

  unfoldable pub unpad : List ℕ → StatusOr (List ℕ)
  unpad padded_string = do
    (string_size, rest) ← or_invalid (codec.read_uint32 padded_string)
    (output, _) ← or_invalid (codec.read_string_piece string_size rest)
    ok output

  -- Where the padded size fits an int, a string comes back from its padded form, whatever the padding.
  pub unpad-pad :
      (s : List ℕ) (extra : ℕ) → 4 + length s + extra < 2 ^ 31 → unpad (pad s extra) ≡ ok s
  unfolding unpad pad
  unpad-pad s extra h =
      let e : length s % 2 ^ 32 ≡ length s = omega arith in
      rw e (
        rw (codec.read-write (length s) (s ++ replicate extra b'0') (omega arith))
          (rw (codec.read-string s (replicate extra b'0'))))

  pub length-pad : (s : List ℕ) (extra : ℕ) → length (pad s extra) ≡ 4 + length s + extra
  unfolding pad
  length-pad s extra =
      let size = length s % 2 ^ 32 in
      omega (
        arith,
        length-append (codec.write_uint32 size) (s ++ replicate extra b'0'),
        codec.length-write size (omega arith),
        length-append s (replicate extra b'0'),
        length-replicate {A = ℕ} extra b'0',
      )
