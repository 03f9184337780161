-- ===== src/Storage.antt =====
-- src/rest/storage: uploads to a bucket and deletions from it. The calls of the client of S3 and
-- the functions of node's `path` are arguments.
pub mod Owned
mod Tests
use Prim.Native.Char.{Char, code}
use Prim.Native.String.{String, ◌++◌}
use text.Mathlib.Text.{◌==◌ as str_eq, starts_with}
use enix_backend.Base.{
  ℕ, zero, suc, ◌*◌, Bool, true, false, not, ◌&&◌, ◌||◌, Option, none, some, List, [], ◌∷◌, any,
  keep, ◌==◌, ltb, leb, if◌then◌else◌, ⊤,
}
use enix_backend.Http.{Error, failure, bad_request, internal, is_bad_request}
use enix_backend.Effects.{
  Ended, returned, threw, Call, pure, modify, throw_if, ◌>>=◌, ◌>>◌, catch_all,
}

pub data StorageType : Type 0 where
  profile media documents temp backups : StorageType

abbrev pub type_text : StorageType → String
type_text profile = "profile"
type_text media = "media"
type_text documents = "documents"
type_text temp = "temp"
type_text backups = "backups"

pub record TypeMetadata : Type 0 where
  pub allowed_mime_types : List String
  pub max_file_size : ℕ
  pub sub_types : List String

abbrev megabytes : ℕ → ℕ
megabytes n = n * 1024 * 1024

-- `STORAGE_TYPE_METADATA`
abbrev pub metadata : StorageType → TypeMetadata
metadata profile = record {
  allowed_mime_types =
      "image/jpeg" ∷ "image/jpg" ∷ "image/png" ∷ "image/gif" ∷ "image/webp" ∷ "image/svg+xml" ∷ [];
  max_file_size = megabytes 5;
  sub_types = "avatar" ∷ "cover" ∷ "offline" ∷ "chat" ∷ [];
}
metadata media = record {
  allowed_mime_types =
      "image/jpeg" ∷ "image/jpg" ∷ "image/png" ∷ "image/gif" ∷ "image/webp" ∷ "video/mp4"
      ∷ "video/webm" ∷ "video/quicktime" ∷ "audio/mpeg" ∷ "audio/mp3" ∷ "audio/wav" ∷ "audio/ogg"
      ∷ [];
  max_file_size = megabytes 100;
  sub_types = "photo" ∷ "video" ∷ "audio" ∷ "post" ∷ [];
}
metadata documents = record {
  allowed_mime_types =
      "application/pdf" ∷ "application/msword"
      ∷ "application/vnd.openxmlformats-officedocument.wordprocessingml.document"
      ∷ "application/vnd.ms-excel"
      ∷ "application/vnd.openxmlformats-officedocument.spreadsheetml.sheet" ∷ "text/plain"
      ∷ "text/csv" ∷ [];
  max_file_size = megabytes 50;
  sub_types = [];
}
metadata temp = record {
  allowed_mime_types = "*" ∷ [];
  max_file_size = megabytes 10;
  sub_types = [];
}
metadata backups = record {
  allowed_mime_types =
      "application/zip" ∷ "application/x-tar" ∷ "application/gzip" ∷ "application/x-gzip" ∷ [];
  max_file_size = megabytes 500;
  sub_types = [];
}

-- `metadata.maxFileSize / 1024 / 1024`, printed
abbrev megabytes_text : StorageType → String
megabytes_text profile = "5"
megabytes_text media = "100"
megabytes_text documents = "50"
megabytes_text temp = "10"
megabytes_text backups = "500"

abbrev includes : String → List String → Bool
includes s texts = any (λ t. str_eq t s) texts

-- `subTypes.join(', ')`
abbrev listed : List String → String
listed [] = ""
listed (t ∷ []) = t
listed (t ∷ ts) = t ++ (", " ++ listed ts)

-- `Express.Multer.File`, without the bytes
pub record File : Type 0 where
  pub original_name : String
  pub mime_type : String
  pub size : ℕ

-- `path.extname`, `path.basename` without an extension, and the text of `crypto.randomBytes(16)`
pub record Names : Type 0 where
  pub extname : String → String
  pub basename : String → String → String
  pub random : String

abbrev is_plain : Char → Bool
is_plain c =
    (leb b'a' (code c) && leb (code c) b'z')
    || ((leb b'A' (code c) && leb (code c) b'Z')
        || ((leb b'0' (code c) && leb (code c) b'9') || (code c == b'-' || code c == b'_')))

-- `.replace(/[^a-zA-Z0-9-_]/g, '_')`: a character beyond the first 65536 is two units of UTF-16.
replaced : String → String
replaced String.[] = ""
replaced (String.◌∷◌ c cs) =
    (if is_plain c then String.◌∷◌ c String.[] else (if leb 65536 (code c) then "__" else "_"))
    ++ replaced cs

-- `.substring(0, n)` of a text without such characters
shortened : ℕ → String → String
shortened zero s = ""
shortened (suc n) String.[] = ""
shortened (suc n) (String.◌∷◌ c cs) = String.◌∷◌ c (shortened n cs)

-- `a || b`
abbrev or_text : String → String → String
or_text a b = if str_eq a "" then b else a

abbrev given : Option String → String
given none = ""
given (some s) = s

abbrev sub_path : String → String
sub_path s = if str_eq s "" then "" else "/" ++ s

unfoldable pub generate_file_key :
    Names → String → StorageType → Option String → String → Option String → String
unfolding replaced shortened
generate_file_key names user_id storage_type sub_type original custom =
    let ext : String = names.extname original in
    let base : String =
      or_text (given custom) (or_text (names.basename original ext) names.random) in
    user_id
    ++ ("/"
        ++ (type_text storage_type
            ++ (sub_path (given sub_type) ++ ("/" ++ (shortened 100 (replaced base) ++ ext)))))

-- The keys in the bucket; `faults` says of each call, in order, whether it throws.
pub record Bucket : Type 0 where
  pub keys : List String
  pub faults : List Bool

-- A call of the client of S3: one that throws has done nothing.
abbrev send_with : List Bool → (List String → List String) → List String → Ended Bucket ⊤
send_with [] f keys = returned tt (record { keys = f keys; faults = [] })
send_with (false ∷ fs) f keys = returned tt (record { keys = f keys; faults = fs })
send_with (true ∷ fs) f keys = threw failure (record { keys = keys; faults = fs })

unfoldable pub send : (List String → List String) → Call Bucket ⊤
send f b = send_with b.faults f b.keys

-- A put of a key that is there replaces what it held.
abbrev put : String → List String → List String
put key keys = key ∷ keep (λ k. not (str_eq k key)) keys

abbrev pub without : String → List String → List String
without key keys = keep (λ k. not (str_eq k key)) keys

pub record UploadResult : Type 0 where
  pub url : String
  pub key : String
  pub size : ℕ
  pub mime_type : String

abbrev is_any : List String → Bool
is_any [] = false
is_any (t ∷ ts) = str_eq t "*"

abbrev is_profile : StorageType → Bool
is_profile profile = true
is_profile _ = false

-- the checks of a file before it is uploaded
abbrev pub check_file : StorageType → Option String → File → Call Bucket ⊤
check_file storage_type sub_type file = do
  throw_if (ltb (metadata storage_type).max_file_size file.size) (
      bad_request
        ("File size exceeds maximum allowed size of " ++ (megabytes_text storage_type ++ "MB")))
  throw_if
      (not (is_any (metadata storage_type).allowed_mime_types)
        && not (includes file.mime_type (metadata storage_type).allowed_mime_types))
      (bad_request (
        "File type "
        ++ (file.mime_type ++ (" is not allowed for storage type " ++ type_text storage_type))))
  throw_if
      (is_profile storage_type
        && (not (str_eq (given sub_type) "")
            && not (includes (given sub_type) (metadata storage_type).sub_types)))
      (bad_request (
        "Invalid sub-type "
        ++ (given sub_type
            ++ (" for profile storage. Allowed: " ++ listed (metadata storage_type).sub_types))))

-- `place` is the endpoint and the bucket, as they stand in a URL.
unfoldable pub upload_file :
    Names
    → String
    → String
    → File
    → StorageType
    → Option String
    → Option String
    → Call Bucket UploadResult
unfolding generate_file_key send
upload_file names place user_id file storage_type sub_type custom =
    let key : String =
      generate_file_key names user_id storage_type sub_type file.original_name custom in
    catch_all is_bad_request (internal "Failed to upload file") do
      check_file storage_type sub_type file
      send (put key)
      pure (record {
        url = place ++ ("/" ++ key);
        key = key;
        size = file.size;
        mime_type = file.mime_type;
      })

unfoldable pub delete_file : String → String → Call Bucket ⊤
unfolding send
delete_file key user_id = catch_all is_bad_request (internal "Failed to delete file") do
  throw_if (not (starts_with key (user_id ++ "/")))
      (bad_request "You do not have permission to delete this file")
  send (without key)
