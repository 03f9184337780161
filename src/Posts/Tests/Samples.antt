-- ===== src/Posts/Tests/Samples.antt =====
-- Concrete tables: two users, a post of the first with a comment, a like and a bookmark on it, and a
-- collection.
use Prim.Native.String.{String}
use enix_backend.Base.{pos, Bool, true, false, none, some, List, [], ◌∷◌}
use enix_backend.Posts.Entities.{Post, Comment, Like, LikeType, Bookmark, Collection}
use enix_backend.Posts.Db.{Db, Tables}

abbrev pub itself : String → String
itself s = s

abbrev pub a_post : Post
a_post = record {
  id = 1;
  user_id = 1;
  content = "hello";
  media_url = none;
  media_urls = [];
  link_url = none;
  link_title = none;
  link_description = none;
  link_image = none;
  is_public = true;
  allow_comments = true;
  is_pinned = false;
  is_edited = false;
  is_draft = false;
  is_archived = false;
  scheduled_date = none;
  hashtags = [];
  mentions = [];
  post_type = none;
  parent_post_id = none;
  likes_count = pos 1;
  comments_count = pos 1;
  shares_count = pos 0;
  views_count = pos 0;
  bookmarks_count = pos 1;
  reports_count = pos 0;
}

abbrev pub a_comment : Comment
a_comment = record {
  id = 2;
  content = "welcome";
  is_edited = false;
  likes_count = pos 0;
  replies_count = pos 0;
  post_id = 1;
  user_id = 2;
  parent_comment_id = none;
}

abbrev pub a_like : Like
a_like = record {
  id = 3;
  like_type = LikeType.post;
  user_id = 2;
  post_id = some 1;
  comment_id = none;
}

abbrev pub a_bookmark : Bookmark
a_bookmark = record { id = 4; user_id = 2; post_id = 1; note = none }

abbrev pub a_collection : Collection
a_collection = record {
  id = 5;
  user_id = 2;
  name = "saved";
  description = none;
  is_public = false;
  cover_image = none;
  posts_count = pos 7;
}

abbrev pub some_tables : Tables
some_tables = record {
  users = 1 ∷ 2 ∷ [];
  posts = a_post ∷ [];
  comments = a_comment ∷ [];
  likes = a_like ∷ [];
  shares = [];
  bookmarks = a_bookmark ∷ [];
  reports = [];
  reactions = [];
  collections = a_collection ∷ [];
  next_id = 6;
}

abbrev pub with_faults : List Bool → Db
with_faults fs = record { tables = some_tables; cached_users = []; invalidated = []; faults = fs }
