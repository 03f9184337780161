-- ===== src/Follows/Counted.antt =====
-- The counters of followers and of followed users, which `followUser` and `unfollowUser` adjust.
use Prim.Native.String.{String}
use enix_backend.Base.{
  ℕ, suc, incr, decr, ◌≡◌, refl, subst, true, inl, inr, Bool, Option, some, List, [], ◌∷◌, ◌++◌,
  arith, find?, find?-passes, Option-cases,
}
use enix_backend.Base.Rows.{update_where, by_key, delete_key}
use enix_backend.Base.Counter.{Counter, IsLinked, IsLinked-append, IsLinked-delete, IsLinked-edit}
use enix_backend.Effects.{final}
use enix_backend.Follows.{
  Person, Follow, World, person_id, follow_id, follow_where, followers, followings, follow_user,
  unfollow_user,
}

abbrev pub following_counter : Counter Person
following_counter = record {
  key = person_id;
  get = λ p. p.following_count;
  bump = followings;
  get-bump = λ f p. refl;
  key-bump = λ f p. refl;
}

abbrev pub follower_counter : Counter Person
follower_counter = record {
  key = person_id;
  get = λ p. p.followers_count;
  bump = followers;
  get-bump = λ f p. refl;
  key-bump = λ f p. refl;
}

abbrev pub by_follower : Follow → Option ℕ
by_follower f = some f.follower_id

abbrev pub of_followed : Follow → Option ℕ
of_followed f = some f.following_id

-- Both counts of every user are the numbers of rows, and the identifiers of rows are their own.
pub record FollowsCounted (people : List Person) (follows : List Follow) (next : ℕ) : Type 0 where
  pub outgoing : IsLinked following_counter by_follower follow_id people follows next
  pub incoming : IsLinked follower_counter of_followed follow_id people follows next

abbrev pub HasCountedFollows : World → Type 0
HasCountedFollows w = FollowsCounted w.people w.follows w.next_id

module _ {people : List Person} {follows : List Follow} {next : ℕ}
    (h : FollowsCounted people follows next) where
  FollowsCounted-append :
      (f : Follow)
      → f.id ≡ next
      → FollowsCounted
          (update_where
            (by_key person_id f.following_id)
            (followers incr)
            (update_where (by_key person_id f.follower_id) (followings incr) people))
          (follows ++ f ∷ [])
          (suc next)
  FollowsCounted-append f e = record {
    outgoing =
        IsLinked-edit following_counter by_follower follow_id
          (IsLinked-append following_counter by_follower follow_id h.outgoing f e)
          (by_key person_id f.following_id) (followers incr) (λ p. refl) (λ p. refl);
    incoming =
        IsLinked-append follower_counter of_followed follow_id
          (IsLinked-edit follower_counter of_followed follow_id h.incoming
            (by_key person_id f.follower_id) (followings incr) (λ p. refl) (λ p. refl))
          f e;
  }

  FollowsCounted-delete :
      (q : Follow → Bool) (f : Follow)
      → find? q follows ≡ some f
      → FollowsCounted
          (update_where
            (by_key person_id f.following_id)
            (followers decr)
            (update_where (by_key person_id f.follower_id) (followings decr) people))
          (delete_key follow_id f.id follows)
          next
  FollowsCounted-delete q f found = record {
    outgoing =
        IsLinked-edit following_counter by_follower follow_id
          (IsLinked-delete following_counter by_follower follow_id h.outgoing q f found)
          (by_key person_id f.following_id) (followers decr) (λ p. refl) (λ p. refl);
    incoming =
        IsLinked-delete follower_counter of_followed follow_id
          (IsLinked-edit follower_counter of_followed follow_id h.incoming
            (by_key person_id f.follower_id) (followings decr) (λ p. refl) (λ p. refl))
          q f found;
  }

-- Following a user keeps, for every user, the number of followers and the number of followed users
-- equal to the numbers of rows, whether the call returns or throws.
pub follow_user-counted :
    (wait_message : ℕ → String) (now a b : ℕ) (w : World)
    → HasCountedFollows w
    → HasCountedFollows (final (follow_user wait_message now a b w))
unfolding follow_user
follow_user-counted wait_message now a b w h =
    let f : Follow = record {
      id = w.next_id;
      follower_id = a;
      following_id = b;
      date_created = now;
    } in
    ground (arith, FollowsCounted-append h f refl)

-- Unfollowing a user keeps, for every user, the number of followers and the number of followed users
-- equal to the numbers of rows, whether the call returns or throws.
pub unfollow_user-counted :
    (now a b : ℕ) (w : World)
    → HasCountedFollows w
    → HasCountedFollows (final (unfollow_user now a b w))
unfolding unfollow_user
unfollow_user-counted now a b w h = elim (Option-cases (find? (follow_where a b) w.follows)) [
  | inl missing ↦ rw missing h
  | inr (f, found) ↦
      let matched : follow_where a b f ≡ true = find?-passes (follow_where a b) w.follows found in
      let from : f.follower_id ≡ a = ground arith in
      let to : f.following_id ≡ b = ground arith in
      let gone : FollowsCounted
          (update_where (by_key person_id b) (followers decr)
            (update_where (by_key person_id a) (followings decr) w.people))
          (delete_key follow_id f.id w.follows) w.next_id =
        subst
          (λ j.
            FollowsCounted
              (update_where (by_key person_id j) (followers decr)
                (update_where (by_key person_id a) (followings decr) w.people))
              (delete_key follow_id f.id w.follows) w.next_id)
          to
          (subst
            (λ i.
              FollowsCounted
                (update_where (by_key person_id f.following_id) (followers decr)
                  (update_where (by_key person_id i) (followings decr) w.people))
                (delete_key follow_id f.id w.follows) w.next_id)
            from (FollowsCounted-delete h (follow_where a b) f found)) in
      rw found gone
]
