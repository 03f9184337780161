-- ===== src/Posts/Text.antt =====
-- What the posts service reads from texts: extractHashtags, extractMentions, determinePostType.
use Prim.Native.Char.{Char, code}
use Prim.Native.String.{String}
use Prim.Native.String as Str
use text.Mathlib.Text.{find?, ◌==◌ as str_eq}
use enix_backend.Base.{
  ℕ, ◌≡◌, refl, Bool, true, false, not, ◌&&◌, ◌||◌, Option, none, some, List, [], ◌∷◌, ◌++◌, map,
  any, ◌==◌, leb, if◌then◌else◌, is_some, keep,
}
use enix_backend.Posts.Entities.{PostType}

-- `\w`
abbrev is_word : Char → Bool
is_word c =
    (leb b'a' (code c) && leb (code c) b'z')
    || ((leb b'A' (code c) && leb (code c) b'Z')
        || ((leb b'0' (code c) && leb (code c) b'9') || (code c == b'_')))

-- the word after a mark, if one was read
abbrev ended : Option String → List String
ended none = []
ended (some String.[]) = []
ended (some (String.◌∷◌ c w)) = String.◌∷◌ c w ∷ []

-- What one character does to the word that is being read.
abbrev read : ℕ → Char → Option String → Option String
read mark c none = if code c == mark then some "" else none
read mark c (some w) =
    if is_word c
    then some (Str.◌++◌ w (String.◌∷◌ c String.[]))
    else (if code c == mark then some "" else none)

abbrev closes : Char → Option String → List String
closes c none = []
closes c (some w) = if is_word c then [] else ended (some w)

-- The words that stand after a mark: `content.match(/#(\w+)/g)`, each without its mark.
matches : ℕ → Option String → String → List String
matches mark word String.[] = ended word
matches mark word (String.◌∷◌ c cs) = closes c word ++ matches mark (read mark c word) cs

-- `[...new Set(words)]`
unique : List String → List String
unique [] = []
unique (w ∷ ws) = w ∷ keep (λ v. not (str_eq v w)) (unique ws)

unfoldable pub extract_hashtags : (String → String) → String → List String
unfolding matches unique
extract_hashtags lower content = unique (map lower (matches b'#' none content))

unfoldable pub extract_mentions : (String → String) → String → List String
unfolding matches unique
extract_mentions lower content = unique (map lower (matches b'@' none content))

two_tags : extract_hashtags (λ s. s) "a #b #c1! #b ##" ≡ "b" ∷ "c1" ∷ []
unfolding extract_hashtags
two_tags = refl

abbrev image_extensions : List String
image_extensions = ".jpg" ∷ ".jpeg" ∷ ".png" ∷ ".gif" ∷ ".webp" ∷ ".svg" ∷ []

abbrev video_extensions : List String
video_extensions = ".mp4" ∷ ".webm" ∷ ".mov" ∷ ".quicktime" ∷ []

abbrev document_extensions : List String
document_extensions = ".pdf" ∷ ".doc" ∷ ".docx" ∷ ".xls" ∷ ".xlsx" ∷ ".txt" ∷ ".csv" ∷ []

-- `extensions.some((ext) => url.includes(ext))`
abbrev mentions_one : List String → String → Bool
mentions_one extensions url = any (λ ext. is_some (find? url ext)) extensions

-- which of image, video and document were seen
pub record Seen : Type 0 where
  pub image : Bool
  pub video : Bool
  pub document : Bool

abbrev see : String → Seen → Seen
see url s =
    if mentions_one image_extensions url
    then record s { image = true }
    else (if mentions_one video_extensions url
        then record s { video = true }
        else (if mentions_one document_extensions url then record s { document = true } else s))

see_all : (String → String) → List String → Seen → Seen
see_all lower [] s = s
see_all lower (url ∷ urls) s = see_all lower urls (see (lower url) s)

abbrev type_seen : Seen → PostType
type_seen s =
    if (s.image && s.video) || ((s.image && s.document) || (s.video && s.document))
    then PostType.mixed
    else (if s.image
        then PostType.image
        else (if s.video
            then PostType.video
            else (if s.document then PostType.document else PostType.plain)))

abbrev with_first : Option String → List String → List String
with_first none urls = urls
with_first (some String.[]) urls = urls
with_first (some (String.◌∷◌ c s)) urls = String.◌∷◌ c s ∷ urls

-- A missing link and an empty one are the same.
unfoldable pub determine_post_type : (String → String) → Option String → List String → PostType
unfolding see_all
determine_post_type lower media_url media_urls = type_seen (
    see_all lower (with_first media_url media_urls)
      (record { image = false; video = false; document = false }))

a_mix : determine_post_type (λ s. s) (some "x.png") ("y.pdf" ∷ []) ≡ PostType.mixed
unfolding determine_post_type
a_mix = refl
