-- ===== src/Follows/Suggestions/Open.antt =====
-- Whom the suggestions leave open to follow.
use enix_backend.Base.{
  ℕ, zero, suc, subst, ◌≡◌, ◌≢◌, refl, ap, sym, ◌∙◌, inl, inr, Bool, true, false, not, Bool-cases,
  some, Option-cases, List, [], ◌∷◌, map, keep, take, count, arith, All, ◌==◌, ltb,
}
use enix_backend.Base.Rows.{All-map}
use enix_backend.Http.{Result, ok, err}
use enix_backend.Effects.{result}
use enix_backend.Follows.{World, Person, Suggested, is_among}
use enix_backend.Follows.Status.{follows_in}
use enix_backend.Follows.Connections.{connection_counts, following_ids, following_ids-follows}
use enix_backend.Follows.Suggestions.{
  insert_by, sort_by, is_new, is_before, sorted_suggestions, fetch_suggested, suggested, is_popular,
  cached_suggestions, find_suggestions, get_follow_suggestions, safe_limit, mutual_connections,
}

module _ {A : Type 0} (P : A → Type 0) (before : A → A → Bool) where
  All-insert_by : (x : A) (xs : List A) → P x → All P xs → All P (insert_by before x xs)
  All-insert_by x [] p h = (p, tt)
  All-insert_by x (y ∷ ys) p (q, h) = elim (Bool-cases (before y x)) [
    | inl after ↦ rw after (q, All-insert_by x ys p h)
    | inr here ↦ rw here (p, (q, h))
  ]

  All-sort_by : (xs : List A) → All P xs → All P (sort_by before xs)
  All-sort_by [] h = tt
  All-sort_by (x ∷ xs) (p, h) = All-insert_by x (sort_by before xs) p (All-sort_by xs h)

module _ {A : Type 0} (P : A → Type 0) where
  pub All-take : (n : ℕ) (xs : List A) → All P xs → All P (take n xs)
  All-take zero xs h = tt
  All-take (suc n) [] h = tt
  All-take (suc n) (x ∷ xs) (p, h) = (p, All-take n xs h)

  All-keep : (p : A → Bool) (xs : List A) → ((x : A) → p x ≡ true → P x) → All P (keep p xs)
  All-keep p [] h = tt
  All-keep p (x ∷ xs) h = elim (Bool-cases (p x)) [
    | inl hit ↦ rw hit (h x hit, All-keep p xs h)
    | inr miss ↦ rw miss (All-keep p xs h)
  ]

All-among-P : (P : ℕ → Type 0) (k : ℕ) (ids : List ℕ) → All P ids → is_among k ids ≡ true → P k
All-among-P P k [] h e = cc
All-among-P P k (j ∷ ids) (p, h) e = elim (Bool-cases (j == k)) [
  | inl same ↦ let e' : j ≡ k = ground arith in subst P e' p
  | inr other ↦ All-among-P P k ids h (ground arith)
]

-- `ORDER BY` neither loses nor adds rows.
abbrev pub Reorders : (List Person → List Person) → Type 0
Reorders f = (rows : List Person) (p : Person → Bool) → count p (f rows) ≡ count p rows

All-count-zero :
    {A : Type 0} (p : A → Bool) (xs : List A)
    → count (λ x. not (p x)) xs ≡ 0
    → All (λ x. p x ≡ true) xs
All-count-zero p [] e = tt
All-count-zero p (x ∷ xs) e = elim (Bool-cases (p x)) [
  | inl hit ↦ (hit, All-count-zero p xs (ground (arith, hit, e)))
  | inr miss ↦ absurd (ground (arith, miss, e))
]

count-All-not :
    {A : Type 0} (p : A → Bool) (xs : List A)
    → All (λ x. p x ≡ true) xs
    → count (λ x. not (p x)) xs ≡ 0
count-All-not p [] h = refl
count-All-not p (x ∷ xs) (e, h) = ground (arith, e, count-All-not p xs h)

pub Reorders-All :
    (f : List Person → List Person)
    → Reorders f
    → (p : Person → Bool) (rows : List Person) → All (λ x. p x ≡ true) rows
    → All (λ x. p x ≡ true) (f rows)
Reorders-All f reorders p rows h =
    All-count-zero p (f rows) (reorders rows (λ x. not (p x)) ∙ count-All-not p rows h)

-- Somebody else, whom the user does not follow.
abbrev pub IsOpen : World → ℕ → Person → Type 0
IsOpen w user p = (p.id ≢ user) × (follows_in w user p.id ≡ false)

abbrev IsOpenId : World → ℕ → ℕ → Type 0
IsOpenId w user k = (k ≢ user) × (follows_in w user k ≡ false)

All-keys : (P : ℕ → Type 0) (l : List (ℕ × ℕ)) → All (λ (k, n). P k) l → All P (map (λ (k, n). k) l)
All-keys P [] h = tt
All-keys P ((k, n) ∷ l) (p, h) = (p, All-keys P l h)

new-IsOpen :
    (user : ℕ) (w : World) (e : ℕ × ℕ)
    → is_new user (following_ids user w) e ≡ true
    → IsOpenId w user e.0
new-IsOpen user w (k, n) e =
    (λ same. ground (arith, e, same), ground (arith, e, following_ids-follows user k w.follows))

sorted_suggestions-IsOpen :
    (user limit : ℕ) (w : World)
    → All (IsOpenId w user) (sorted_suggestions user limit (following_ids user w) w)
sorted_suggestions-IsOpen user limit w =
    let P : ℕ × ℕ → Type 0 = λ e. IsOpenId w user e.0 in
    let ids = following_ids user w in
    let entries = connection_counts [] (mutual_connections user ids w) in
    All-keys (IsOpenId w user) _ (
      All-take P limit (sort_by is_before (keep (is_new user ids) entries)) (
        All-sort_by P is_before (keep (is_new user ids) entries)
          (All-keep P (is_new user ids) entries (new-IsOpen user w))))

fetched-IsOpen :
    (w : World) (user : ℕ) (ids : List ℕ)
    → All (IsOpenId w user) ids
    → All (IsOpen w user) (fetch_suggested ids w)
fetched-IsOpen w user [] h = tt
fetched-IsOpen w user (k ∷ ks) h = All-sort_by (IsOpen w user) _ _ (
    All-keep (IsOpen w user) (λ p. is_among p.id (k ∷ ks)) w.people
      (λ p e. All-among-P (IsOpenId w user) p.id (k ∷ ks) h e))

-- Suggestions that are kept, and that a request could still read.
abbrev pub SuggestionsAgree : World → Type 0
SuggestionsAgree w = (i : ℕ) (c : Suggested) → w.suggestions i ≡ some c → All (IsOpen w i) c.value

-- an answer, and all of it open to follow
abbrev pub AreOpen : World → ℕ → Result (List Person) → Type 0
AreOpen w user (ok people) = All (IsOpen w user) people
AreOpen w user (err e) = true ≡ false

module _ (by_followers : List Person → List Person) (reorders : Reorders by_followers) where
  popular-IsOpen :
      (w : World) (user limit : ℕ)
      → following_ids user w ≡ []
      → All (IsOpen w user) (take limit (by_followers (keep (is_popular user) w.people)))
  popular-IsOpen w user limit nobody =
      All-take (IsOpen w user) limit (by_followers (keep (is_popular user) w.people)) (
        All-map _ (IsOpen w user) _
          (λ p e. (
            (λ same. ground (arith, e, same)),
            sym (following_ids-follows user p.id w.follows) ∙ ap (is_among p.id) nobody,
          ))
          (Reorders-All by_followers reorders (is_popular user) _
            (All-keep _ (is_popular user) w.people (λ p e. e))))

  pub suggested-IsOpen :
      (w : World) (user limit : ℕ) (ids : List ℕ)
      → following_ids user w ≡ ids
      → All (IsOpen w user) (suggested by_followers user limit ids w)
  suggested-IsOpen w user limit [] e = popular-IsOpen w user limit e
  suggested-IsOpen w user limit (k ∷ ids) e =
      fetched-IsOpen w user (sorted_suggestions user limit (k ∷ ids) w) (
        subst (λ l. All (IsOpenId w user) (sorted_suggestions user limit l w)) e
          (sorted_suggestions-IsOpen user limit w))

  found-AreOpen :
      (now user limit : ℕ) (w : World) (cached : List Person)
      → All (IsOpen w user) cached
      → AreOpen w user (result (find_suggestions by_followers now user limit cached w))
  found-AreOpen now user limit w [] h = suggested-IsOpen w user limit (following_ids user w) refl
  found-AreOpen now user limit w (p ∷ cached) h = All-take (IsOpen w user) limit (p ∷ cached) h

  cached-IsOpen :
      (now user : ℕ) (w : World)
      → SuggestionsAgree w
      → All (IsOpen w user) (cached_suggestions now (w.suggestions user))
  cached-IsOpen now user w h = elim (Option-cases (w.suggestions user)) [
    | inl missing ↦ rw missing tt
    | inr (c, found) ↦ elim (Bool-cases (ltb now c.expires)) [
      | inl alive ↦ rw found (rw alive (h user c found))
      | inr old ↦ rw found (rw old tt)
    ]
  ]

  pub get_follow_suggestions-AreOpen :
      (now user limit : ℕ) (w : World)
      → SuggestionsAgree w
      → AreOpen w user (result (get_follow_suggestions by_followers now user limit w))
  unfolding get_follow_suggestions
  get_follow_suggestions-AreOpen now user limit w h =
      found-AreOpen now user (safe_limit limit) w (cached_suggestions now (w.suggestions user))
        (cached-IsOpen now user w h)
