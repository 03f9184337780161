-- ===== src/Posts/Create/Files.antt =====
-- createPostWithFiles: a post, its uploads to the bucket, and the rollback when one of them fails.
use Prim.Native.String.{String}
use enix_backend.Base.{ℕ, pos, ⊤, Bool, true, false, Option, none, some, List, [], ◌∷◌, ◌++◌}
use enix_backend.Http.{internal}
use enix_backend.Effects.{Ended, returned, threw, Call, final, pure, ◌>>=◌, ◌>>◌, catch_all}
use enix_backend.Storage.{StorageType, File, Names, Bucket, UploadResult, upload_file, delete_file}
use enix_backend.Posts.Entities.{Post, PostType}
use enix_backend.Posts.Db.{Db, Outcome, Action, get_or_set_user, invalidate}
use enix_backend.Posts.Repo.{update_post, not_found_or_bad}
use enix_backend.Posts.Owner.{remove_post}
use enix_backend.Posts.Text.{extract_hashtags, extract_mentions, determine_post_type}
use enix_backend.Posts.Create.{Tools, or_else, validate_parent, save_post, post_tags}

-- The database and the bucket.
pub record Site : Type 0 where
  pub db : Db
  pub bucket : Bucket

abbrev ended : {A : Type 0} → Bucket → Outcome A → Ended Site A
ended b (Outcome.returned a db) = returned a (record { db = db; bucket = b })
ended b (Outcome.threw e db) = threw e (record { db = db; bucket = b })

abbrev pub on_db : {A : Type 0} → Action A → Call Site A
on_db m s = ended s.bucket (m s.db)

-- What the inner `try` block works on: the site, and what has been uploaded so far.
pub record Uploads : Type 0 where
  pub site : Site
  pub urls : List String
  pub keys : List String

abbrev pub uploaded : Uploads → Ended Bucket UploadResult → Ended Uploads ⊤
uploaded u (returned r b) = returned tt (record {
  site = record u.site { bucket = b };
  urls = u.urls ++ r.url ∷ [];
  keys = u.keys ++ r.key ∷ [];
})
uploaded u (threw e b) = threw e (record u { site = record u.site { bucket = b } })

abbrev in_uploads : {A : Type 0} → Uploads → Ended Site A → Ended Uploads A
in_uploads u (returned a s) = returned a (record u { site = s })
in_uploads u (threw e s) = threw e (record u { site = s })

abbrev on_site : {A : Type 0} → Call Site A → Call Uploads A
on_site m u = in_uploads u (m u.site)

-- `allMediaUrls.length > 0 ? allMediaUrls[0] : null`
abbrev first : List String → Option String
first [] = none
first (url ∷ urls) = some url

abbrev pub plain_post : Tools → ℕ → String → Option Bool → Option Bool → Option ℕ → ℕ → Post
plain_post tools user_id content is_public allow_comments parent_post_id id = record {
  id = id;
  user_id = user_id;
  content = tools.sanitize_text content;
  media_url = none;
  media_urls = [];
  link_url = none;
  link_title = none;
  link_description = none;
  link_image = none;
  is_public = or_else is_public true;
  allow_comments = or_else allow_comments true;
  is_pinned = false;
  is_edited = false;
  is_draft = false;
  is_archived = false;
  scheduled_date = none;
  hashtags = extract_hashtags tools.lower (tools.sanitize_text content);
  mentions = extract_mentions tools.lower (tools.sanitize_text content);
  post_type = some PostType.plain;
  parent_post_id = parent_post_id;
  likes_count = pos 0;
  comments_count = pos 0;
  shares_count = pos 0;
  views_count = pos 0;
  bookmarks_count = pos 0;
  reports_count = pos 0;
}

module _ (tools : Tools) (names : Names) (place user_text : String) where
  -- A loop over files: each is uploaded, and its URL and key are noted.
  unfoldable pub upload_each : StorageType → Option String → List File → Call Uploads ⊤
  upload_each storage_type sub_type [] u = returned tt u
  upload_each storage_type sub_type (file ∷ files) u =
      ((λ v.
            uploaded v
              (upload_file names place user_text file storage_type sub_type none v.site.bucket))
          >> upload_each storage_type sub_type files)
        u

  abbrev with_uploads : List String → Post → Post
  with_uploads urls p = record p {
    media_url = first urls;
    media_urls = urls;
    post_type = some (determine_post_type tools.lower (first urls) urls);
  }

  -- the inner `try` block
  unfoldable pub upload_files : Post → List File → List File → Call Uploads Post
  unfolding upload_each update_post
  upload_files saved_post files documents = do
    upload_each StorageType.media (some "post") files
    upload_each StorageType.documents none documents
    (λ u.
        (on_site (on_db (update_post saved_post.id (with_uploads u.urls)))
            >> pure (with_uploads u.urls saved_post))
          u)

  -- The deletion of what was uploaded; errors are logged and dropped.
  unfoldable pub delete_each : List String → Site → Site
  delete_each [] s = s
  delete_each (key ∷ keys) s =
      delete_each keys (record s { bucket = final (delete_file key user_text s.bucket) })

  -- the inner `catch` block
  unfoldable pub or_roll_back : ℕ → Ended Uploads Post → Ended Site Post
  unfolding delete_each remove_post
  or_roll_back post_id (returned p u) = returned p u.site
  or_roll_back post_id (threw e u) =
      (on_db (remove_post post_id) >> (λ s. threw e s)) (delete_each u.keys u.site)

  -- the uploads of a post that is saved, or their rollback
  unfoldable pub attach : Post → List File → List File → Call Site Post
  unfolding upload_files or_roll_back
  attach saved_post files documents s =
      or_roll_back saved_post.id
        (upload_files saved_post files documents (record { site = s; urls = []; keys = [] }))

  unfoldable pub create_post_with_files :
      ℕ → String → List File → List File → Option Bool → Option Bool → Option ℕ → Call Site Post
  unfolding get_or_set_user validate_parent save_post attach invalidate
  create_post_with_files user_id content files documents is_public allow_comments parent_post_id =
      catch_all not_found_or_bad (internal "Failed to create post with files") do
        on_db (get_or_set_user user_id)
        on_db (validate_parent parent_post_id)
        saved_post ←
            on_db
              (save_post (plain_post tools user_id content is_public allow_comments parent_post_id))
        finished ← attach saved_post files documents
        on_db (invalidate (post_tags finished.id user_id))
        pure finished
