-- ===== src/Posts/Tests/Rollback.antt =====
-- The theorem on createPostWithFiles at concrete tables, with a bucket whose first call throws.
use enix_backend.Base.{[], ◌∷◌, true}
use enix_backend.Storage.{File, Names, Bucket}
use enix_backend.Posts.Create.{Tools}

abbrev tools : Tools
tools = record { sanitize_text = λ s. s; sanitize_url = λ s. s; lower = λ s. s }

abbrev names : Names
names = record { extname = λ n. ".png"; basename = λ n ext. "me"; random = "00" }

abbrev picture : File
picture = record { original_name = "me.png"; mime_type = "image/png"; size = 1000 }

abbrev failing : Bucket
failing = record { keys = []; faults = true ∷ [] }
