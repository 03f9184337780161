-- ===== src/Storage/Tests.antt =====
-- The theorem on storage at a concrete upload.
use Prim.Native.String.{String, count}
use text.Mathlib.Text.{◌==◌ as str_eq}
use enix_backend.Base.{◌≡◌, ◌≢◌, refl, false, none, some, [], ◌∷◌, any}
use enix_backend.Effects.{returned, threw}
use enix_backend.Storage.{
  StorageType, File, Names, Bucket, UploadResult, without, upload_file, delete_file,
}
use enix_backend.Storage.Owned.{refusal, upload_file-IsOwned}

abbrev names : Names
names = record { extname = λ n. ".png"; basename = λ n ext. "me"; random = "00" }

abbrev picture : File
picture = record { original_name = "me.png"; mime_type = "image/png"; size = 1000 }

abbrev uploaded : UploadResult
uploaded = record {
  url = "here/u1/profile/avatar/me.png";
  key = "u1/profile/avatar/me.png";
  size = 1000;
  mime_type = "image/png";
}

abbrev empty : Bucket
empty = record { keys = []; faults = [] }

abbrev holding : Bucket
holding = record { keys = "u1/profile/avatar/me.png" ∷ []; faults = [] }

upload_file-IsOwned_example :
    ((other : String)
      → count other ≡ count "u1"
      → other ≢ "u1"
      → (c : Bucket) → delete_file uploaded.key other c ≡ threw refusal c)
    × ((c : Bucket)
        → c.faults ≡ []
        → (delete_file uploaded.key "u1" c
            ≡ returned tt (record { keys = without uploaded.key c.keys; faults = [] }))
          × (any (λ k. str_eq k uploaded.key) (without uploaded.key c.keys) ≡ false))
unfolding upload_file
upload_file-IsOwned_example =
    upload_file-IsOwned names "here" "u1" picture StorageType.profile (some "avatar") none empty
      holding uploaded refl
