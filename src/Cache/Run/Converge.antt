-- ===== src/Cache/Run/Converge.antt =====
-- Updates and deletions of single values may arrive in any order.
use mathlib.Core.List.{Mem, Perm, Permᴰ, mem-cons_of_mem, mem-cons_self}
use mathlib.Core.List.Perm
use mathlib.Core.Logic.{∥∥₁_elim}
use fledge_key_value_service.Base.{
  ℕ, String, ◌≡◌, refl, sym, ap, ◌∙◌, Option, none, some, List, [], ◌∷◌, arith, if◌then◌else◌, ◌==◌,
  eq_iff, inl, inr, Option-cases,
}
use fledge_key_value_service.Base.Maps.{String-set}
use fledge_key_value_service.Cache.State.{CacheValue, KeyValueCache}
use fledge_key_value_service.Cache.KeyValue.{is_older}
use fledge_key_value_service.Cache.KeyValue.Entries.{entry, write, entry-update, entry-delete}
use fledge_key_value_service.Cache.KeyValue.Lookup.{value_of, visible}
use fledge_key_value_service.Cache.Run.{Call, update, delete, step}
use fledge_key_value_service.Cache.Run.Registers.{cutoff, cutoff-update, cutoff-delete}

-- An update, or a deletion where there is no value.
pub record Write : Type 0 where
  pub key : String
  pub value : Option String
  pub time : ℕ

abbrev pub to_call : Write → Call
to_call w = elim w.value [ none ↦ delete w.key w.time | some v ↦ update w.key v w.time ]

unfoldable pub run_writes : KeyValueCache → List Write → KeyValueCache
run_writes c [] = c
run_writes c (w ∷ ws) = run_writes (step c (to_call w)) ws

-- Two writes of one key at one logical time are the same write.
abbrev pub IsConsistent : List Write → Type 0
IsConsistent ws =
    (a b : Write) → Mem a ws → Mem b ws → a.key ≡ b.key → a.time ≡ b.time → a.value ≡ b.value

write_comm :
    (cut s t : ℕ) (v w : Option String) (e : Option CacheValue)
    → (s ≡ t → v ≡ w)
    → write cut s v (write cut t w e) ≡ write cut t w (write cut s v e)
unfolding write is_older
write_comm cut s t v w none h = ground arith
write_comm cut s t v w (some e) h = ground arith

-- One write, as the entry of the key `k` sees it.
write_at : ℕ → String → Write → Option CacheValue → Option CacheValue
write_at cut k w e = if w.key == k then write cut w.time w.value e else e

write_at_comm :
    (cut : ℕ) (k : String) (a b : Write) (e : Option CacheValue)
    → (a.key ≡ b.key → a.time ≡ b.time → a.value ≡ b.value)
    → write_at cut k a (write_at cut k b e) ≡ write_at cut k b (write_at cut k a e)
unfolding write_at
write_at_comm cut k a b e h =
    ground (arith, eq_iff a.key k, eq_iff b.key k, write_comm cut a.time b.time a.value b.value e)

entries : ℕ → String → List Write → Option CacheValue → Option CacheValue
entries cut k [] e = e
entries cut k (w ∷ ws) e = entries cut k ws (write_at cut k w e)

entry-step :
    (c : KeyValueCache) (w : Write) (k : String)
    → (entry (step c (to_call w)) k ≡ write_at (cutoff c) k w (entry c k))
      × (cutoff (step c (to_call w)) ≡ cutoff c)
unfolding step write_at
entry-step c w k = elim (Option-cases w.value) [
  | inl e ↦
      rw (e, to_call)
        (ground (arith, e, entry-delete c w.key k w.time), cutoff-delete c w.key w.time)
  | inr (v, e) ↦
      rw (e, to_call)
        (ground (arith, e, entry-update c w.key k v w.time), cutoff-update c w.key v w.time)
]

entry-run_writes :
    (c : KeyValueCache) (ws : List Write) (k : String)
    → entry (run_writes c ws) k ≡ entries (cutoff c) k ws (entry c k)
unfolding run_writes entries
entry-run_writes c [] k = refl
entry-run_writes c (w ∷ ws) k =
    let (e, same) = entry-step c w k in rw (entry-run_writes (step c (to_call w)) ws k, same, e)

entries-permᴰ :
    (cut : ℕ) (k : String) {xs ys : List Write}
    → Permᴰ xs ys
    → IsConsistent xs
    → (e : Option CacheValue) → entries cut k xs e ≡ entries cut k ys e
unfolding entries
entries-permᴰ cut k Permᴰ.nil h e = refl
entries-permᴰ cut k (Permᴰ.cons {a = a} {b = b} p q) h e = rw p (
    entries-permᴰ cut k q (λ x y mx my. h x y (mem-cons_of_mem a mx) (mem-cons_of_mem a my))
      (write_at cut k b e))
entries-permᴰ cut k (Permᴰ.swap {a = a} {b = b} {l = l} p q) h e =
    rw (← p, ← q)
      (ap (entries cut k l)
        (write_at_comm cut k b a e (h b a (mem-cons_of_mem a mem-cons_self) mem-cons_self)))
entries-permᴰ cut k (Permᴰ.trans p q) h e =
    entries-permᴰ cut k p h e
    ∙ entries-permᴰ cut k q
        (λ x y mx my. h x y ((Perm.mem_iff ∣ p ∣₁).1 mx) ((Perm.mem_iff ∣ p ∣₁).1 my)) e

Entry-set : IsSet (Option CacheValue)
Entry-set = hlevel String-set

-- Updates and deletions of single values leave every key with the same entry, and so with the same
-- visible value, in whatever order they arrive and from whatever state, if any two of them of one
-- key with one logical commit time are the same.
pub writes_converge :
    (c : KeyValueCache) (xs ys : List Write) (k : String)
    → Perm xs ys
    → IsConsistent xs
    → (entry (run_writes c xs) k ≡ entry (run_writes c ys) k)
      × (visible (run_writes c xs) k ≡ visible (run_writes c ys) k)
writes_converge c xs ys k p h = (same, ap value_of same)
  where
    same : entry (run_writes c xs) k ≡ entry (run_writes c ys) k
    same = ∥∥₁_elim p (Entry-set _ _) λ q.
        entry-run_writes c xs k
        ∙ entries-permᴰ (cutoff c) k q h (entry c k)
        ∙ sym (entry-run_writes c ys k)
