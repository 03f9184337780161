-- ===== src/Posts/Reactions/Latest.antt =====
-- The reactions that a user has to a post or a comment: `reactToPostOrComment`.
use Prim.Native.String.{String}
use enix_backend.Base.{
  ℕ, suc, ◌≤◌, ◌≡◌, refl, inl, inr, Bool, true, Option, none, some, List, [], ◌∷◌, ◌++◌, ==_refl,
  arith, find?, count,
}
use enix_backend.Base.Rows.{
  find?-update_where, by_key, count-append, count-find?-none, count-update_where,
}
use enix_backend.Http.{Error, ok}
use enix_backend.Posts.Entities.{Reaction, ReactionType}
use enix_backend.Posts.Db.{Db, Outcome, threw, caught, Tag, returned, calm, final, result}
use enix_backend.Posts.Repo.{where_id}
use enix_backend.Posts.Users.{get_or_set_user-calm}
use enix_backend.Posts.Reactions.{
  reaction_where, reaction_id, reacted, react_to_post_or_comment, new_reaction, find_reaction,
  save_reaction, set_reaction, change_reaction, forget_answers,
}

module _ (p : Reaction → Bool) where
  find?-append :
      (rs : List Reaction) (r : Reaction)
      → find? p rs ≡ none
      → p r ≡ true
      → find? p (rs ++ r ∷ []) ≡ some r
  find?-append [] r h e = rw e refl
  find?-append (s ∷ rs) r h e = ground (arith, find?-append rs r, e)

  count-found : (rs : List Reaction) {r : Reaction} → find? p rs ≡ some r → 1 ≤ count p rs
  count-found [] found = cc
  count-found (s ∷ rs) {r} found = ground (arith, count-found rs {r = r})

-- The user has one reaction, this one.
abbrev pub HasOnly : ℕ → Option ℕ → Option ℕ → Reaction → Db → Type 0
HasOnly user post comment r db =
    (count (reaction_where user post comment) db.reactions ≡ 1)
    × (find? (reaction_where user post comment) db.reactions ≡ some r)

where_id_itself : (o : Option ℕ) → where_id o o ≡ true
where_id_itself none = refl
where_id_itself (some k) = ==_refl k

module _ (user : ℕ) (t : ReactionType) (post comment : Option ℕ) where
  change-latest :
      (db : Db) {r : Reaction}
      → count (reaction_where user post comment) db.reactions ≤ 1
      → find? (reaction_where user post comment) db.reactions ≡ some r
      → HasOnly user post comment (reacted t r) (final (change_reaction t r (calm db)))
  unfolding change_reaction
  change-latest db {r} one found = ground (
    arith,
    count-update_where (reaction_where user post comment) (by_key reaction_id r.id) (reacted t)
        db.reactions (λ s. refl),
    find?-update_where (reaction_where user post comment) (by_key reaction_id r.id) (reacted t)
        db.reactions (λ s. refl) found (==_refl r.id),
    count-found (reaction_where user post comment) db.reactions found,
  )

  abbrev Latest : Reaction → Db → Type 0
  Latest r db' = (r.reaction_type ≡ t) × HasOnly user post comment r db'

  added-latest :
      (rs : List Reaction) (k : ℕ)
      → find? (reaction_where user post comment) rs ≡ none
      → let r : Reaction = record {
        id = k;
        reaction_type = t;
        user_id = user;
        post_id = post;
        comment_id = comment;
      } in
        (count (reaction_where user post comment) (rs ++ r ∷ []) ≡ 1)
        × (find? (reaction_where user post comment) (rs ++ r ∷ []) ≡ some r)
  added-latest rs k missing =
      let r : Reaction = record {
        id = k;
        reaction_type = t;
        user_id = user;
        post_id = post;
        comment_id = comment;
      } in
      let fits : reaction_where user post comment r ≡ true =
        ground (arith, ==_refl user, where_id_itself post, where_id_itself comment) in
      ground (
        arith,
        fits,
        count-append (reaction_where user post comment) rs r,
        count-find?-none (reaction_where user post comment) rs missing,
        find?-append (reaction_where user post comment) rs r missing fits,
      )

forget-calm :
    (post comment : Option ℕ) (db : Db)
    → (tags : List Tag) × (forget_answers post comment (calm db)
        ≡ returned tt (record (calm db) { invalidated = tags }))
unfolding forget_answers
forget-calm none none db = (_, refl)
forget-calm none (some j) db = (_, refl)
forget-calm (some k) none db = (_, refl)
forget-calm (some k) (some j) db = (_, refl)

module _ (user : ℕ) (t : ReactionType) where
  new_reaction-Latest :
      (post comment : Option ℕ) (db : Db) {r : Reaction}
      → find? (reaction_where user post comment) db.reactions ≡ none
      → result (new_reaction user t post comment (calm db)) ≡ ok r
      → Latest user t post comment r (final (new_reaction user t post comment (calm db)))
  unfolding new_reaction save_reaction
  new_reaction-Latest post comment db {r} missing done = elim (get_or_set_user-calm user db) [
    | inl unknown ↦ ground (arith, unknown)
    | inr (cache, known, _) ↦
        let x : Reaction = record {
          id = db.next_id;
          reaction_type = t;
          user_id = user;
          post_id = post;
          comment_id = comment;
        } in
        let saved : Db = record db {
          tables = record db.tables {
            reactions = db.reactions ++ x ∷ [];
            next_id = suc db.next_id;
          };
          cached_users = cache;
        } in
        ground (
          arith,
          known,
          (forget-calm post comment saved).1,
          added-latest user t post comment db.reactions db.next_id missing,
        )
  ]

  set_reaction-Latest :
      (post comment : Option ℕ) (db : Db) {r : Reaction} (o : Option Reaction)
      → count (reaction_where user post comment) db.reactions ≤ 1
      → find? (reaction_where user post comment) db.reactions ≡ o
      → result (set_reaction user t post comment o (calm db)) ≡ ok r
      → Latest user t post comment r (final (set_reaction user t post comment o (calm db)))
  unfolding change_reaction
  set_reaction-Latest post comment db none one found done =
      new_reaction-Latest post comment db found done
  set_reaction-Latest post comment db (some x) one found done =
      ground (arith, change-latest user t post comment db one found)

  past_catch :
      (P : Reaction → Db → Type 0) {r : Reaction} (known : Error → Bool) (message : String)
      (o : Outcome Reaction)
      → (result o ≡ ok r → P r (final o))
      → result (caught known message o) ≡ ok r
      → P r (final (caught known message o))
  past_catch P known message (returned x db) h done = h done
  past_catch P known message (threw e db) h done = cc

  -- A user who reacts has, if no call fails and the call returns, one reaction to that post or
  -- comment, the one that was asked for, provided he had at most one before.
  pub react-latest :
      (post comment : Option ℕ) (db : Db) {r : Reaction}
      → count (reaction_where user post comment) db.reactions ≤ 1
      → result (react_to_post_or_comment user t post comment (calm db)) ≡ ok r
      → (r.reaction_type ≡ t)
        × HasOnly user post comment r
            (final (react_to_post_or_comment user t post comment (calm db)))
  unfolding react_to_post_or_comment find_reaction
  react-latest none none db one done = ground arith
  react-latest (some k) (some j) db one done = ground arith
  react-latest (some k) none db {r} one done =
      past_catch (Latest user t (some k) none) _ _
        (set_reaction user t (some k) none (find? (reaction_where user (some k) none) db.reactions)
          (calm db))
        (set_reaction-Latest (some k) none db _ one refl) done
  react-latest none (some j) db {r} one done =
      past_catch (Latest user t none (some j)) _ _
        (set_reaction user t none (some j) (find? (reaction_where user none (some j)) db.reactions)
          (calm db))
        (set_reaction-Latest none (some j) db _ one refl) done
