-- ===== src/Posts/Create.antt =====
-- createPost and updatePost, with what their fields become.
pub mod Files
pub mod RolledBack
use Prim.Native.String.{String}
use enix_backend.Base.{
  ℕ, suc, pos, ⊤, Bool, true, false, not, ◌||◌, Option, none, some, List, [], ◌∷◌, ◌++◌, map, ◌==◌,
  leb, if◌then◌else◌,
}
use enix_backend.Http.{Error, not_found, bad_request, forbidden}
use enix_backend.Posts.Entities.{Post}
use enix_backend.Posts.Db.{
  Db, Tables, Action, io, gets, pure, write, throw_if, or_throw, ◌>>=◌, ◌>>◌, catch_all, invalidate,
  get_or_set_user, Tag, post_of, posts_by,
}
use enix_backend.Posts.Repo.{
  find_post, need_post, update_post, not_found_or_bad, not_found_or_forbidden,
}
use enix_backend.Posts.Engage.{cleaned}
use enix_backend.Posts.Text.{extract_hashtags, extract_mentions, determine_post_type}

-- the text functions: those of src/utils that clean what users write, and `toLowerCase`
pub record Tools : Type 0 where
  pub sanitize_text : String → String
  pub sanitize_url : String → String
  pub lower : String → String

pub record CreatePostDto : Type 0 where
  pub content : String
  pub media_url : Option String
  pub media_urls : Option (List String)
  pub link_url : Option String
  pub link_title : Option String
  pub link_description : Option String
  pub link_image : Option String
  pub is_public : Option Bool
  pub allow_comments : Option Bool
  pub is_draft : Option Bool
  pub parent_post_id : Option ℕ
  pub scheduled_date : Option ℕ

-- `values ? values.map(f) : []`
abbrev pub cleaned_all : (String → String) → Option (List String) → List String
cleaned_all f none = []
cleaned_all f (some urls) = map f urls

-- `value ?? d`
abbrev pub or_else : {A : Type 0} → Option A → A → A
or_else none d = d
or_else (some a) d = a

-- `scheduledDate <= new Date()`, if one is given
abbrev is_past : ℕ → Option ℕ → Bool
is_past now none = false
is_past now (some date) = leb date now

-- `postRepository.create(...)`, with the identifier that `save` will give
abbrev pub new_post : Tools → ℕ → CreatePostDto → ℕ → Post
new_post tools user_id dto id =
    let content : String = tools.sanitize_text dto.content in
    let media_url : Option String = cleaned tools.sanitize_url dto.media_url in
    let media_urls : List String = cleaned_all tools.sanitize_url dto.media_urls in
    record {
      id = id;
      user_id = user_id;
      content = content;
      media_url = media_url;
      media_urls = media_urls;
      link_url = cleaned tools.sanitize_url dto.link_url;
      link_title = cleaned tools.sanitize_text dto.link_title;
      link_description = cleaned tools.sanitize_text dto.link_description;
      link_image = cleaned tools.sanitize_url dto.link_image;
      is_public = or_else dto.is_public true;
      allow_comments = or_else dto.allow_comments true;
      is_pinned = false;
      is_edited = false;
      is_draft = or_else dto.is_draft false;
      is_archived = false;
      scheduled_date = dto.scheduled_date;
      hashtags = extract_hashtags tools.lower content;
      mentions = extract_mentions tools.lower content;
      post_type = some (determine_post_type tools.lower media_url media_urls);
      parent_post_id = dto.parent_post_id;
      likes_count = pos 0;
      comments_count = pos 0;
      shares_count = pos 0;
      views_count = pos 0;
      bookmarks_count = pos 0;
      reports_count = pos 0;
    }

-- `if (parentPostId) await this.validateAndSetParentPost(post, parentPostId);`
unfoldable pub validate_parent : Option ℕ → Action ⊤
unfolding find_post
validate_parent none = pure tt
validate_parent (some parent_id) = do
  found ← find_post parent_id
  or_throw found (not_found "Parent post not found")
  pure tt

-- `save` of a row that is not there yet
unfoldable pub save_post : (ℕ → Post) → Action Post
unfolding io
save_post f = io >> λ db.
    (write (λ t. record t { posts = t.posts ++ f db.next_id ∷ []; next_id = suc t.next_id })
        >> pure (f db.next_id))
      db

abbrev pub post_tags : ℕ → ℕ → List Tag
post_tags post_id user_id = Tag.post ∷ post_of post_id ∷ posts_by user_id ∷ []

unfoldable pub create_post : Tools → ℕ → ℕ → CreatePostDto → Action Post
unfolding get_or_set_user validate_parent save_post invalidate
create_post tools now user_id dto = catch_all not_found_or_bad "Failed to create post" do
  get_or_set_user user_id
  throw_if (is_past now dto.scheduled_date) (bad_request "Scheduled date must be in the future")
  validate_parent dto.parent_post_id
  saved_post ← save_post (new_post tools user_id dto)
  invalidate (post_tags saved_post.id user_id)
  pure saved_post

-- A field that is `undefined` stays as it is, one that is `null` is `some none`.
pub record UpdatePostDto : Type 0 where
  pub content : Option String
  pub media_url : Option (Option String)
  pub media_urls : Option (Option (List String))
  pub link_url : Option (Option String)
  pub link_title : Option (Option String)
  pub link_description : Option (Option String)
  pub link_image : Option (Option String)
  pub is_public : Option Bool
  pub allow_comments : Option Bool
  pub is_draft : Option Bool

abbrev pub with_content : Tools → Option String → Post → Post
with_content tools none p = p
with_content tools (some content) p = record p {
  content = tools.sanitize_text content;
  hashtags = extract_hashtags tools.lower (tools.sanitize_text content);
  mentions = extract_mentions tools.lower (tools.sanitize_text content);
}

abbrev changed : (String → String) → Option (Option String) → Option String → Option String
changed f none old = old
changed f (some new) old = cleaned f new

abbrev changed_all : (String → String) → Option (Option (List String)) → List String → List String
changed_all f none old = old
changed_all f (some new) old = cleaned_all f new

abbrev typed : Tools → Post → Post
typed tools p = record p {
  post_type = some (determine_post_type tools.lower p.media_url p.media_urls);
}

-- The type is determined anew if a field of media is given.
abbrev retyped : Tools → Option (Option String) → Option (Option (List String)) → Post → Post
retyped tools none none p = p
retyped tools (some url) urls p = typed tools p
retyped tools none (some urls) p = typed tools p

abbrev pub with_media : Tools → UpdatePostDto → Post → Post
with_media tools dto p = retyped tools dto.media_url dto.media_urls (record p {
  media_url = changed tools.sanitize_url dto.media_url p.media_url;
  media_urls = changed_all tools.sanitize_url dto.media_urls p.media_urls;
})

abbrev pub with_rest : Tools → UpdatePostDto → Post → Post
with_rest tools dto p = record p {
  link_url = changed tools.sanitize_url dto.link_url p.link_url;
  link_title = changed tools.sanitize_text dto.link_title p.link_title;
  link_description = changed tools.sanitize_text dto.link_description p.link_description;
  link_image = changed tools.sanitize_url dto.link_image p.link_image;
  is_public = or_else dto.is_public p.is_public;
  allow_comments = or_else dto.allow_comments p.allow_comments;
  is_draft = or_else dto.is_draft p.is_draft;
  is_edited = true;
}

abbrev pub edited : Tools → UpdatePostDto → Post → Post
edited tools dto p = with_rest tools dto (with_media tools dto (with_content tools dto.content p))

unfoldable pub edit_post : Tools → ℕ → ℕ → UpdatePostDto → Action Post
unfolding need_post update_post invalidate
edit_post tools user_id post_id dto = catch_all not_found_or_forbidden "Failed to update post" do
  post ← need_post post_id
  throw_if (not (post.user_id == user_id)) (forbidden "You can only update your own posts")
  update_post post_id (edited tools dto)
  invalidate (Tag.post ∷ post_of post_id ∷ [])
  pure (edited tools dto post)
