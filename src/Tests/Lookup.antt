-- ===== src/Tests/Lookup.antt =====
-- The lookups of components/internal_server on small inputs: a cache of one shard of two.
use fledge_key_value_service.Base.{
  ℕ, zero, suc, ◌+◌, ◌*◌, ◌%◌, ◌^◌, ◌<◌, String, ◌≡◌, refl, true, false, Option, none, some, List,
  [], ◌∷◌, ◌++◌, arith, eqb, ◌==◌, if◌then◌else◌,
}
use Prim.Native.Nat.{◌/◌}
use Prim.Native.Char.{code}
use Prim.Native.String.{[], ◌∷◌}
use fledge_key_value_service.Base.Lists.{length, All}
use fledge_key_value_service.Base.Maps.{contains, find}
use fledge_key_value_service.Lookup.Types.{ok, not_found, value, status, InternalLookupResponse}
use fledge_key_value_service.Lookup.Padder.{DataCodec}
use fledge_key_value_service.Base.Maps.{insert_or_assign, emplace, set_insert, erase}
use fledge_key_value_service.Base.Lists.{replicate}
use fledge_key_value_service.Cache.State.{KeyValueCache, create, zero_time}
use fledge_key_value_service.Cache.KeyValue.{
  update_key_value, add_node, get_key_value_pairs, add_pair, collect_pairs,
}
use fledge_key_value_service.Cache.KeyValue.Lookup.{visible}
use fledge_key_value_service.Cache.Sets.{update_key_value_set, is_empty}
use fledge_key_value_service.Cache.Sets.Members.{is_member}
use fledge_key_value_service.Cache.Sets.States.{IsValid}
use fledge_key_value_service.Cache.Sets.Valid.{IsValid-create}
use fledge_key_value_service.Cache.Run.{Call, update, update_set, run, step}
use fledge_key_value_service.Cache.Run.Members.{run-IsValid}
use fledge_key_value_service.Query.Ast.{Node, value_node, op_node, union_node, ◌>>=◌}
use fledge_key_value_service.Query.Eval.{holds}
use fledge_key_value_service.Lookup.Local.{
  Parsed, move_out, fill_values, process_keys, process_query, local_lookup,
}
use fledge_key_value_service.Lookup.Local.Values.{process_keys_repeated}
use fledge_key_value_service.Lookup.Local.Queries.{process_query_lem}
use fledge_key_value_service.Lookup.Sharded.{
  ShardedLookup, to_set, shard_keys, get_key_values, process_sharded_keys, add_key, add_keys,
  bucket_keys, serialize_sharded_requests, max_length, compute_padding, start, get_lookup_futures,
  update_response, set_request_failed, process_response, process_responses,
}
use fledge_key_value_service.Lookup.Sharded.Padding.{IsShort, IsPadded, shard_keys-IsPadded}
use fledge_key_value_service.Lookup.Sharded.Values.{AreReachable, Answered, get_key_values_lem}

program : Unit {0}
unfolding find run step contains get_key_value_pairs update_key_value update_key_value_set add_pair
    collect_pairs insert_or_assign add_node emplace set_insert erase
program = tt

lookups : Unit {0}
unfolding to_set get_key_values process_sharded_keys shard_keys add_key add_keys bucket_keys
    serialize_sharded_requests max_length compute_padding start get_lookup_futures update_response
    set_request_failed process_response process_responses is_empty local_lookup process_keys
    fill_values move_out
lookups = tt

abbrev byte : ℕ → ℕ → ℕ
byte n d = n / d % 256

pub read : List ℕ → Option (ℕ × List ℕ)
read (a ∷ b ∷ c ∷ d ∷ rest) = some (a * 16777216 + b * 65536 + c * 256 + d, rest)
read _ = none

pub take : ℕ → List ℕ → Option (List ℕ × List ℕ)
take zero s = some ([], s)
take (suc n) [] = none
take (suc n) (x ∷ s) = do (a, rest) ← take n s; some (x ∷ a, rest)

pub take_all : (s rest : List ℕ) → take (length s) (s ++ rest) ≡ some (s, rest)
unfolding take
take_all [] rest = refl
take_all (x ∷ s) rest = rw (take_all s rest)

pub read-bytes :
    (n : ℕ) (rest : List ℕ)
    → n < 2 ^ 32
    → read (byte n 16777216 ∷ byte n 65536 ∷ byte n 256 ∷ byte n 1 ∷ rest) ≡ some (n, rest)
unfolding read
read-bytes n rest h = ground arith

-- Network byte order.
abbrev pub network : DataCodec
network = record {
  write_uint32 = λ n. byte n 16777216 ∷ byte n 65536 ∷ byte n 256 ∷ byte n 1 ∷ [];
  read_uint32 = read;
  read_string_piece = take;
  length-write = λ n h. refl;
  read-write = read-bytes;
  read-string = take_all;
}

abbrev calls : List Call
calls =
    update "a" "1" (zero_time + 5)
    ∷ update_set "A" ("x" ∷ "y" ∷ []) (zero_time + 1)
    ∷ update_set "B" ("z" ∷ []) (zero_time + 2)
    ∷ []

abbrev pub cache : KeyValueCache
cache = run create calls

pub cache-IsValid : IsValid cache
cache-IsValid = run-IsValid create calls IsValid-create

-- Moving a string out leaves the empty string.
abbrev pub emptied : String → String
emptied _ = ""

a_seen : visible cache "a" ≡ some "1"
unfolding program
a_seen = refl

process_keys_repeated_example :
    find "a" (process_keys emptied cache ("a" ∷ "b" ∷ "a" ∷ [])) ≡ some (value "")
unfolding contains
process_keys_repeated_example = process_keys_repeated emptied cache "a" "1" ("b" ∷ []) a_seen refl

abbrev pub tree : Node
tree = op_node union_node (value_node "A") (value_node "B")

-- The tree of the one query "A|B"; all else is refused.
abbrev pub parse : String → Parsed
parse q =
    if q == "A|B"
    then record { failed = false; ast = some tree; error = none }
    else record { failed = true; ast = none; error = none }

process_query_lem_example :
    (s : List String) × (process_query parse cache "A|B" ≡ some (ok s))
    × ((v : String) → contains v s ≡ holds (is_member cache) tree v)
process_query_lem_example =
    process_query_lem parse cache "A|B" refl tree cache-IsValid refl refl refl

-- Two shards; the cache is that of the first, and the second has the key "b".
abbrev pub sharded : ShardedLookup
sharded = record {
  local = local_lookup emptied parse cache;
  num_shards = 2;
  current_shard_num = 0;
  hash_function = λ k n. if k == "b" then 1 else 0;
  serialize = λ r. replicate (length r.keys) 1;
  client = λ i. if eqb i 1 then some (λ request padding. ok (("b", value "2") ∷ [])) else none;
}

sharded-AreReachable : AreReachable sharded
sharded-AreReachable i lt other = ((λ request padding. ok (("b", value "2") ∷ [])), rw second)
  where
    second : eqb i 1 ≡ true
    second = ground arith

get_key_values_lem_example :
    (r : InternalLookupResponse) × (get_key_values sharded ("a" ∷ "b" ∷ []) ≡ ok r)
    × Answered sharded (λ j. contains j ("a" ∷ "b" ∷ [])) "b" none (find "b" r)
unfolding local_lookup
get_key_values_lem_example =
    get_key_values_lem sharded sharded-AreReachable "a" ("b" ∷ []) "b" (omega arith)

-- Both shards' values come back in one response.
both_shards :
    get_key_values sharded ("a" ∷ "b" ∷ "c" ∷ [])
    ≡ ok (("a", value "1") ∷ ("c", status not_found) ∷ ("b", value "2") ∷ [])
unfolding program lookups
both_shards = refl

abbrev cut_off : ShardedLookup
cut_off = record sharded { client = λ _. none }

-- Each key behind its tag, as bytes.
abbrev encode : String → List ℕ
encode [] = []
encode (c ∷ text) = code c ∷ encode text

abbrev encode_keys : List String → List ℕ
encode_keys [] = []
encode_keys (k ∷ ks) = 10 ∷ length (encode k) ∷ (encode k ++ encode_keys ks)

abbrev encoded : ShardedLookup
encoded = record sharded {
  serialize = λ r. if r.lookup_sets then 16 ∷ 1 ∷ encode_keys r.keys else encode_keys r.keys;
}

encoded-IsShort : All (IsShort encoded false 3) (bucket_keys encoded ("a" ∷ "b" ∷ []))
unfolding lookups
encoded-IsShort = (omega arith, (omega arith, tt))

shard_keys-IsPadded_example :
    (m : ℕ) × (m < 2 ^ 31)
    × All (IsPadded network encoded false m) (shard_keys encoded ("a" ∷ "b" ∷ []) false)
shard_keys-IsPadded_example =
    shard_keys-IsPadded network encoded false ("a" ∷ "b" ∷ []) 3 encoded-IsShort (omega arith)
