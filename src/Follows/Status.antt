-- ===== src/Follows/Status.antt =====
-- The cached answers of `isFollowing`, and the cool-down of `followUser`.
use Prim.Native.String.{String}
use enix_backend.Base.{
  ⊤, ℕ, ◌+◌, ◌<◌, ◌≡◌, refl, inl, inr, Bool, true, false, Bool-cases, some, List, [], ◌∷◌, ◌++◌,
  arith, ◌==◌, ==_refl, find?, find?-passes, Option-cases, All, is_some, ltb,
}
use enix_backend.Base.Rows.{find?-unique, All-map, delete_key, HasKeys}
use enix_backend.Http.{ok}
use enix_backend.Effects.{Ended, returned, threw, final, result}
use enix_backend.Follows.{
  Follow, World, Cached, follow_id, follow_where, find_follow, find_person, follow_user,
  unfollow_user, is_following, is_about, ttl,
}

-- the row of the table
abbrev pub follows_in : World → ℕ → ℕ → Bool
follows_in w i j = is_some (find_follow i j w)

-- Every answer that is kept, and that a request could still read, is what the table says.
abbrev pub StatusAgrees : World → Type 0
StatusAgrees w = (i j : ℕ) (c : Cached) → w.statuses i j ≡ some c → c.value ≡ follows_in w i j

pub find_append-other :
    (i j : ℕ) (f : Follow) (fs : List Follow)
    → follow_where i j f ≡ false
    → is_some (find? (follow_where i j) (fs ++ f ∷ [])) ≡ is_some (find? (follow_where i j) fs)
find_append-other i j f [] h = rw h refl
find_append-other i j f (g ∷ fs) h = ground (arith, find_append-other i j f fs h)

pub find_delete_key-other :
    (i j k : ℕ) (fs : List Follow)
    → All (λ g. follow_id g ≡ k → follow_where i j g ≡ false) fs
    → is_some (find? (follow_where i j) (delete_key follow_id k fs))
      ≡ is_some (find? (follow_where i j) fs)
unfolding delete_key
find_delete_key-other i j k [] h = refl
find_delete_key-other i j k (g ∷ fs) (p, h) = ground (arith, p, find_delete_key-other i j k fs h)

-- Following a user leaves no stale answer in the cache: if every cached answer about follows agreed
-- with the table before, every one does afterwards, whether the call returns or throws.
pub follow_user-StatusAgrees :
    (wait_message : ℕ → String) (now a b : ℕ) (w : World)
    → StatusAgrees w
    → StatusAgrees (final (follow_user wait_message now a b w))
unfolding follow_user
follow_user-StatusAgrees wait_message now a b w h i j c kept = ground (
  arith,
  h i j c,
  find_append-other i j
      (record { id = w.next_id; follower_id = a; following_id = b; date_created = now }) w.follows,
)

-- If every cached answer about follows agrees with the table, isFollowing answers what the table
-- says, and every cached answer still agrees afterwards.
pub is_following-right :
    (now a b : ℕ) (w : World)
    → StatusAgrees w
    → (result (is_following now a b w) ≡ ok (follows_in w a b))
      × StatusAgrees (final (is_following now a b w))
unfolding is_following
is_following-right now a b w h = elim (Option-cases (w.statuses a b)) [
  | inl missing ↦ (rw missing refl, λ i j c kept. ground (arith, missing, h i j c))
  | inr (c, found) ↦ elim (Bool-cases (ltb now c.expires)) [
    | inl alive ↦
        let right : c.value ≡ follows_in w a b = h a b c found in
        (ground (arith, found, alive, right), λ i j d kept. ground (arith, found, alive, h i j d))
    | inr old ↦ (ground (arith, found, old), λ i j d kept. ground (arith, found, old, h i j d))
  ]
]

-- Unfollowing a user leaves no stale answer in the cache, if the identifiers of rows are their own:
-- if every cached answer about follows agreed with the table before, every one does afterwards,
-- whether the call returns or throws.
pub unfollow_user-StatusAgrees :
    (now a b : ℕ) (w : World)
    → HasKeys follow_id w.follows
    → StatusAgrees w
    → StatusAgrees (final (unfollow_user now a b w))
unfolding unfollow_user
unfollow_user-StatusAgrees now a b w keys h i j c kept =
    elim (Option-cases (find? (follow_where a b) w.follows)) [
      | inl missing ↦ ground (arith, missing, h i j c)
      | inr (f, found) ↦ elim (Bool-cases (is_about a b i j)) [
        | inl about ↦ ground (arith, found, about)
        | inr apart ↦
            let matched : follow_where a b f ≡ true =
              find?-passes (follow_where a b) w.follows found in
            let differs : follow_where i j f ≡ false = ground arith in
            let others =
              All-map _ (λ g. follow_id g ≡ follow_id f → follow_where i j g ≡ false) w.follows
                (λ g only k. rw (only k) differs)
                (find?-unique follow_id (follow_where a b) w.follows keys found) in
            let same = find_delete_key-other i j (follow_id f) w.follows others in
            ground (arith, found, apart, same, h i j c)
      ]
    ]

-- a call that throws and changes nothing
abbrev pub IsRefused : World → Ended World ⊤ → Type 0
IsRefused w (returned a u) = true ≡ false
IsRefused w (threw e u) = u ≡ w

waiting-IsRefused :
    (wait_message : ℕ → String) (now a b : ℕ) (w : World)
    → 0 < ttl now (w.cooldowns a b)
    → IsRefused w (follow_user wait_message now a b w)
unfolding follow_user
waiting-IsRefused wait_message now a b w left = elim (Bool-cases (a == b)) [
  | inl same ↦ rw same refl
  | inr differ ↦ elim (Option-cases (find_follow a b w)) [
    | inr (f, found) ↦ rw differ (rw found refl)
    | inl missing ↦ elim (Option-cases (find_person a w)) [
      | inl unknown ↦ rw differ (rw missing (rw unknown refl))
      | inr (p, here) ↦ elim (Option-cases (find_person b w)) [
        | inl unknown ↦ rw differ (rw missing (rw here (rw unknown refl)))
        | inr (q, there) ↦
            let wait : ltb 0 (ttl now (w.cooldowns a b)) ≡ true = ground arith in
            rw differ (rw missing (rw here (rw there (rw wait refl))))
      ]
    ]
  ]
]

unfollow_user-cooldown :
    (now later a b : ℕ) (w : World)
    → result (unfollow_user now a b w) ≡ ok tt
    → later < now + 300
    → 0 < ttl later ((final (unfollow_user now a b w)).cooldowns a b)
unfolding unfollow_user
unfollow_user-cooldown now later a b w done soon = elim (Option-cases (find_follow a b w)) [
  | inl missing ↦ ground (arith, missing)
  | inr (f, found) ↦ rw found (rw (==_refl a) (rw (==_refl b) (omega arith)))
]

-- If a user was unfollowed and the next call, less than 300 seconds later, is to follow the same
-- user again, it throws and changes nothing.
pub unfollow_user-follow_user-IsRefused :
    (wait_message : ℕ → String) (now later a b : ℕ) (w : World)
    → result (unfollow_user now a b w) ≡ ok tt
    → later < now + 300
    → IsRefused
        (final (unfollow_user now a b w))
        (follow_user wait_message later a b (final (unfollow_user now a b w)))
unfollow_user-follow_user-IsRefused wait_message now later a b w done soon =
    waiting-IsRefused wait_message later a b (final (unfollow_user now a b w))
      (unfollow_user-cooldown now later a b w done soon)
