-- ===== src/Posts/Entities.antt =====
-- The rows of the tables of posts: src/rest/api/users/services/posts/assets/entities. Identifiers
-- (UUID texts) are only compared, so they are numbers; a time is in milliseconds.
use Prim.Native.String.{String}
use enix_backend.Base.{ℕ, ℤ, Bool, Option, List}

-- 'text' | 'image' | 'video' | 'document' | 'mixed'
pub data PostType : Type 0 where
  plain image video document mixed : PostType

pub record Post : Type 0 where
  pub id : ℕ
  pub user_id : ℕ
  pub content : String
  pub media_url : Option String
  pub media_urls : List String
  pub link_url : Option String
  pub link_title : Option String
  pub link_description : Option String
  pub link_image : Option String
  pub is_public : Bool
  pub allow_comments : Bool
  pub is_pinned : Bool
  pub is_edited : Bool
  pub is_draft : Bool
  pub is_archived : Bool
  pub scheduled_date : Option ℕ
  pub hashtags : List String
  pub mentions : List String
  pub post_type : Option PostType
  pub parent_post_id : Option ℕ
  pub likes_count : ℤ
  pub comments_count : ℤ
  pub shares_count : ℤ
  pub views_count : ℤ
  pub bookmarks_count : ℤ
  pub reports_count : ℤ

pub record Comment : Type 0 where
  pub id : ℕ
  pub content : String
  pub is_edited : Bool
  pub likes_count : ℤ
  pub replies_count : ℤ
  pub post_id : ℕ
  pub user_id : ℕ
  pub parent_comment_id : Option ℕ

pub data LikeType : Type 0 where
  post comment : LikeType

pub record Like : Type 0 where
  pub id : ℕ
  pub like_type : LikeType
  pub user_id : ℕ
  pub post_id : Option ℕ
  pub comment_id : Option ℕ

pub record Share : Type 0 where
  pub id : ℕ
  pub comment : Option String
  pub post_id : ℕ
  pub user_id : ℕ

pub record Bookmark : Type 0 where
  pub id : ℕ
  pub user_id : ℕ
  pub post_id : ℕ
  pub note : Option String

pub record Report : Type 0 where
  pub id : ℕ
  pub user_id : ℕ
  pub post_id : ℕ
  pub reason : String
  pub description : Option String
  pub status : String

pub data ReactionType : Type 0 where
  like love laugh wow sad angry : ReactionType

pub record Reaction : Type 0 where
  pub id : ℕ
  pub reaction_type : ReactionType
  pub user_id : ℕ
  pub post_id : Option ℕ
  pub comment_id : Option ℕ

pub record Collection : Type 0 where
  pub id : ℕ
  pub user_id : ℕ
  pub name : String
  pub description : Option String
  pub is_public : Bool
  pub cover_image : Option String
  pub posts_count : ℤ
