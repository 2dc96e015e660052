-- ===== src/Loading/Notifier/Order.antt =====
-- The names that the notifier passes to its callback.
use fledge_key_value_service.Base.{
  String, ◌≡◌, refl, ◌∙◌, ap, sym, subst, inl, inr, true, false, List, [], ◌∷◌, ◌++◌, if◌then◌else◌,
  Bool-cases,
}
use fledge_key_value_service.Base.Strings.{is_less, is_less_trans}
use fledge_key_value_service.Base.Lists.{All}
use fledge_key_value_service.Lookup.Types.{ok, StatusOr-cases}
use fledge_key_value_service.Loading.Filenames.{is_delta_filename}
use fledge_key_value_service.Loading.Notifier.{
  Round, Watcher, Action, sleep_for, set_flag, callback, announce, listed, after_decision,
  should_list_blobs, watch_round, watch,
}

-- The names that actions pass to the callback.
abbrev pub callbacks : List Action → List String
callbacks [] = []
callbacks (sleep_for _ ∷ rest) = callbacks rest
callbacks (set_flag ∷ rest) = callbacks rest
callbacks (callback key ∷ rest) = key ∷ callbacks rest

-- Each name is greater than the one before it, and the first is greater than the given one.
abbrev pub IsAscending : String → List String → Type 0
IsAscending start [] = Unit
IsAscending start (name ∷ names) = (is_less start name ≡ true) × IsAscending name names

abbrev pub delta_names : List String → List String
delta_names [] = []
delta_names (name ∷ names) =
    let rest = delta_names names in if is_delta_filename name then name ∷ rest else rest

abbrev pub last : String → List String → String
last key [] = key
last key (name ∷ names) = last name names

-- What ListBlobs promises: the names after the given one, in their order.
abbrev pub IsListing : Round → Type 0
IsListing r =
    (start : String) (names : List String) → r.list_blobs start ≡ ok names → IsAscending start names

callbacks-append : (xs ys : List Action) → callbacks (xs ++ ys) ≡ callbacks xs ++ callbacks ys
callbacks-append [] ys = refl
callbacks-append (sleep_for _ ∷ xs) ys = callbacks-append xs ys
callbacks-append (set_flag ∷ xs) ys = callbacks-append xs ys
callbacks-append (callback key ∷ xs) ys = ap (λ l. key ∷ l) (callbacks-append xs ys)

announce_lem :
    (names : List String) (key : String)
    → (callbacks (announce names key).1 ≡ delta_names names)
      × ((announce names key).0 ≡ last key (delta_names names))
unfolding announce
announce_lem [] key = (refl, refl)
announce_lem (name ∷ names) key = elim (Bool-cases (is_delta_filename name)) [
  | inl delta ↦
      let (a, b) = announce_lem names name in (rw delta (ap (λ l. name ∷ l) a), rw delta b)
  | inr other ↦ let (a, b) = announce_lem names key in (rw other a, rw other b)
]

weaken :
    (r s : String) (names : List String)
    → is_less r s ≡ true
    → IsAscending s names
    → IsAscending r names
weaken r s [] lt h = tt
weaken r s (name ∷ names) lt h = (is_less_trans r s name lt h.0, h.1)

delta_names-IsAscending :
    (start : String) (names : List String)
    → IsAscending start names
    → IsAscending start (delta_names names)
delta_names-IsAscending start [] h = tt
delta_names-IsAscending start (name ∷ names) h = elim (Bool-cases (is_delta_filename name)) [
  | inl delta ↦ rw delta (h.0, delta_names-IsAscending name names h.1)
  | inr other ↦ rw other (delta_names-IsAscending start names (weaken start name names h.0 h.1))
]

append-IsAscending :
    (start : String) (xs ys : List String)
    → IsAscending start xs
    → IsAscending (last start xs) ys
    → IsAscending start (xs ++ ys)
append-IsAscending start [] ys a b = b
append-IsAscending start (x ∷ xs) ys a b = (a.0, append-IsAscending x xs ys a.1 b)

last-append : (key : String) (xs ys : List String) → last key (xs ++ ys) ≡ last (last key xs) ys
last-append key [] ys = refl
last-append key (x ∷ xs) ys = last-append x xs ys

-- A round passes on the names of delta files of a listing, or nothing.
abbrev Announces : String → Watcher × List Action → Type 0
Announces key result =
    (names : List String) × (callbacks result.1 ≡ names)
    × (result.0.last_key ≡ last key names)
    × IsAscending key names

watch_round_lem : (r : Round) (w : Watcher) → IsListing r → Announces w.last_key (watch_round r w)
unfolding watch_round after_decision listed
watch_round_lem r w listing =
    elim (StatusOr-cases (should_list_blobs r.flag r.changes w.last_key)) [
      | inr (e, failed) ↦ rw failed ([], refl, refl, tt)
      | inl (false, no_list) ↦ rw no_list ([], refl, refl, tt)
      | inl (true, list) ↦ elim (StatusOr-cases (r.list_blobs w.last_key)) [
        | inr (e, failed) ↦ rw (list, failed) ([], refl, refl, tt)
        | inl (names, found) ↦
            let (a, b) = announce_lem names w.last_key in
            rw (list, found)
              (
                delta_names names,
                a,
                b,
                delta_names-IsAscending w.last_key names (listing w.last_key names found),
              )
      ]
    ]

-- Whatever the change notifier says and however often calls fail: where the blob storage
-- lists the names after the given one in ascending order, the names that the notifier passes to its
-- callback are ascending, the first is greater than the name where it started, and the last key is
-- the last of them. So no file is announced twice, and none before one with a smaller name.
pub watch-IsAscending :
    (rounds : List Round) (w : Watcher)
    → All IsListing rounds
    → IsAscending w.last_key (callbacks (watch rounds w).1)
      × ((watch rounds w).0.last_key ≡ last w.last_key (callbacks (watch rounds w).1))
unfolding watch
watch-IsAscending [] w h = (tt, refl)
watch-IsAscending (r ∷ rounds) w h =
    let v = (watch_round r w).0 in
    let (names, calls, key, ascending) = watch_round_lem r w h.0 in
    let (rest, end) = watch-IsAscending rounds v h.1 in
    let next = subst (λ key. IsAscending key (callbacks (watch rounds v).1)) key rest in
    let all =
      callbacks-append (watch_round r w).1 (watch rounds v).1
      ∙ ap (λ l. l ++ callbacks (watch rounds v).1) calls in
    (
      rw all (append-IsAscending w.last_key names (callbacks (watch rounds v).1) ascending next),
      end
          ∙ ap (λ k. last k (callbacks (watch rounds v).1)) key
          ∙ sym (last-append w.last_key names (callbacks (watch rounds v).1))
          ∙ ap (last w.last_key) (sym all),
    )
