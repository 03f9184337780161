-- ===== src/Posts/Reactions.antt =====
-- `reactToPostOrComment` and `removeReaction`.
pub mod Latest
use Prim.Native.String.{String}
use enix_backend.Base.{
  ℕ, suc, ⊤, Bool, not, Option, none, some, List, [], ◌∷◌, ◌++◌, ◌==◌, ◌&&◌, find?, is_some,
}
use enix_backend.Base.Rows.{update_where, by_key, delete_key}
use enix_backend.Http.{bad_request, not_found}
use enix_backend.Posts.Entities.{Reaction, ReactionType}
use enix_backend.Posts.Db.{
  Db, Action, io, gets, pure, write, throw_if, or_throw, ◌>>=◌, ◌>>◌, catch_all, invalidate,
  get_or_set_user, Tag, post_of, comment_of,
}
use enix_backend.Posts.Repo.{for_some, where_id, not_found_or_bad}

abbrev pub reaction_where : ℕ → Option ℕ → Option ℕ → Reaction → Bool
reaction_where user_id post_id comment_id r =
    r.user_id == user_id && where_id post_id r.post_id && where_id comment_id r.comment_id

abbrev pub reaction_id : Reaction → ℕ
reaction_id r = r.id

unfoldable pub find_reaction : ℕ → Option ℕ → Option ℕ → Action (Option Reaction)
unfolding io
find_reaction user_id post_id comment_id = do
  io
  gets (λ db. find? (reaction_where user_id post_id comment_id) db.reactions)

abbrev pub reacted : ReactionType → Reaction → Reaction
reacted reaction_type r = record r { reaction_type = reaction_type }

-- `save` of the reaction that is there
unfoldable pub change_reaction : ReactionType → Reaction → Action Reaction
unfolding io
change_reaction reaction_type r = do
  io
  write λ t. record t {
    reactions = update_where (by_key reaction_id r.id) (reacted reaction_type) t.reactions;
  }
  pure (reacted reaction_type r)

unfoldable pub save_reaction : ℕ → ReactionType → Option ℕ → Option ℕ → Action Reaction
unfolding io
save_reaction user_id reaction_type post_id comment_id = io >> λ db.
    let reaction : Reaction = record {
      id = db.next_id;
      reaction_type = reaction_type;
      user_id = user_id;
      post_id = post_id;
      comment_id = comment_id;
    } in
    (write (λ t. record t { reactions = t.reactions ++ reaction ∷ []; next_id = suc t.next_id })
        >> pure reaction)
      db

unfoldable pub forget_answers : Option ℕ → Option ℕ → Action ⊤
unfolding invalidate
forget_answers post_id comment_id = do
  for_some post_id λ k. invalidate (Tag.post ∷ post_of k ∷ [])
  for_some comment_id λ k. invalidate (Tag.comment ∷ comment_of k ∷ [])

unfoldable pub new_reaction : ℕ → ReactionType → Option ℕ → Option ℕ → Action Reaction
unfolding save_reaction forget_answers
new_reaction user_id reaction_type post_id comment_id = do
  get_or_set_user user_id
  saved_reaction ← save_reaction user_id reaction_type post_id comment_id
  forget_answers post_id comment_id
  pure saved_reaction

-- a reaction that is there is changed, else there is a new one
abbrev pub set_reaction : ℕ → ReactionType → Option ℕ → Option ℕ → Option Reaction → Action Reaction
set_reaction user_id reaction_type post_id comment_id (some r) = change_reaction reaction_type r
set_reaction user_id reaction_type post_id comment_id none =
    new_reaction user_id reaction_type post_id comment_id

unfoldable pub react_to_post_or_comment : ℕ → ReactionType → Option ℕ → Option ℕ → Action Reaction
unfolding find_reaction change_reaction new_reaction
react_to_post_or_comment user_id reaction_type post_id comment_id =
    catch_all not_found_or_bad "Failed to react to post/comment" do
      throw_if (not (is_some post_id) && not (is_some comment_id))
          (bad_request "Either postId or commentId must be provided")
      throw_if (is_some post_id && is_some comment_id)
          (bad_request "Cannot react to both post and comment")
      existing_reaction ← find_reaction user_id post_id comment_id
      set_reaction user_id reaction_type post_id comment_id existing_reaction

unfoldable pub delete_reaction : Reaction → Action ⊤
unfolding io
delete_reaction r =
    io >> write λ t. record t { reactions = delete_key reaction_id r.id t.reactions }

unfoldable pub remove_reaction : ℕ → Option ℕ → Option ℕ → Action ⊤
unfolding find_reaction delete_reaction forget_answers
remove_reaction user_id post_id comment_id =
    catch_all not_found_or_bad "Failed to remove reaction" do
      throw_if (not (is_some post_id) && not (is_some comment_id))
          (bad_request "Either postId or commentId must be provided")
      found ← find_reaction user_id post_id comment_id
      reaction ← or_throw found (not_found "Reaction not found")
      delete_reaction reaction
      forget_answers post_id comment_id
