-- ===== src/Storage/Owned.antt =====
-- Whose files a key names.
use Prim.Native.String.{String, ◌++◌, count}
use text.Mathlib.Text.{◌==◌ as str_eq, starts_with}
use text.Mathlib.TextEquality.{starts_with_iff}
use text.Mathlib.TextPositions.{starts_with-append}
use text.Mathlib.TextLemmas.{append_inj, append_assoc}
use enix_backend.Base.{
  ◌≡◌, ◌≢◌, refl, sym, ◌∙◌, subst, ⊤, Bool, true, false, Option, List, [], ◌∷◌, any, Bool-cases,
  inl, inr,
}
use enix_backend.Http.{Error, bad_request, internal, is_bad_request}
use enix_backend.Effects.{Ended, returned, threw, Call, after, caught}
use enix_backend.Storage.{
  StorageType, File, Names, Bucket, UploadResult, generate_file_key, check_file, send, put, without,
  upload_file, delete_file,
}

-- An answer, if there is one, names this key.
abbrev HasKey : String → Ended Bucket UploadResult → Type 0
HasKey key (returned r b) = r.key ≡ key
HasKey key (threw e b) = ⊤

after-HasKey :
    (key : String) (o : Ended Bucket ⊤) (f : ⊤ → Call Bucket UploadResult)
    → ((b : Bucket) → HasKey key (f tt b))
    → HasKey key (after o f)
after-HasKey key (returned _ b) f h = h b
after-HasKey key (threw e b) f h = tt

caught-HasKey :
    (key : String) (known : Error → Bool) (hidden : Error) (o : Ended Bucket UploadResult)
    → HasKey key o
    → HasKey key (caught known hidden o)
caught-HasKey key known hidden (returned r b) h = h
caught-HasKey key known hidden (threw e b) h = tt

module _ (names : Names) (place user : String) (file : File) (storage_type : StorageType)
    (sub_type custom : Option String) where
  abbrev file_key : String
  file_key = generate_file_key names user storage_type sub_type file.original_name custom

  upload_file-HasKey :
      (b : Bucket)
      → HasKey file_key (upload_file names place user file storage_type sub_type custom b)
  unfolding upload_file
  upload_file-HasKey b =
      caught-HasKey file_key is_bad_request (internal "Failed to upload file") _ (
        after-HasKey file_key (check_file storage_type sub_type file b) _
          λ c. after-HasKey file_key (send (put file_key) c) _ λ d. refl)

  file_key-begins : (rest : String) × (file_key ≡ user ++ ("/" ++ rest))
  unfolding generate_file_key
  file_key-begins = (_, refl)

  -- Of texts of one length, only this one with a slash begins the key.
  begins-eq :
      (other : String)
      → count other ≡ count user
      → starts_with file_key (other ++ "/") ≡ true
      → other ≡ user
  begins-eq other same begins =
      let (more, prefix) = (starts_with_iff file_key (other ++ "/")).0 begins in
      let (rest, whole) = file_key-begins in
      (append_inj {s₁ = other} {s₂ = user} (sym (append_assoc other "/" more) ∙ prefix ∙ whole)
        same).0

abbrev pub refusal : Error
refusal = bad_request "You do not have permission to delete this file"

without-gone :
    (key : String) (keys : List String) → any (λ k. str_eq k key) (without key keys) ≡ false
without-gone key [] = refl
without-gone key (k ∷ keys) = elim (Bool-cases (str_eq k key)) [
  | inl same ↦ rw same (without-gone key keys)
  | inr other ↦ rw other (rw other (without-gone key keys))
]

delete_file-refused :
    (key user : String) (c : Bucket)
    → starts_with key (user ++ "/") ≡ false
    → delete_file key user c ≡ threw refusal c
unfolding delete_file
delete_file-refused key user c h = rw h refl

delete_file-done :
    (key user : String) (c : Bucket)
    → starts_with key (user ++ "/") ≡ true
    → c.faults ≡ []
    → delete_file key user c ≡ returned tt (record { keys = without key c.keys; faults = [] })
unfolding delete_file send
delete_file-done key user c h calm = rw h (rw calm refl)

own-begins : (user rest : String) → starts_with (user ++ ("/" ++ rest)) (user ++ "/") ≡ true
own-begins user rest =
    subst (λ s. starts_with s (user ++ "/") ≡ true) (append_assoc user "/" rest)
      (starts_with-append (user ++ "/") rest)

-- The key that an upload answers with belongs to the user who uploaded: any other user whose
-- identifier has the same length is refused when deleting it and nothing changes, while the user
-- deletes it, if the call does not fail, and no such key is left in the bucket.
pub upload_file-IsOwned :
    (names : Names) (place user : String) (file : File) (storage_type : StorageType)
    (sub_type custom : Option String) (b b' : Bucket) (r : UploadResult)
    → upload_file names place user file storage_type sub_type custom b ≡ returned r b'
    → ((other : String)
        → count other ≡ count user
        → other ≢ user
        → (c : Bucket) → delete_file r.key other c ≡ threw refusal c)
      × ((c : Bucket)
          → c.faults ≡ []
          → (delete_file r.key user c
              ≡ returned tt (record { keys = without r.key c.keys; faults = [] }))
            × (any (λ k. str_eq k r.key) (without r.key c.keys) ≡ false))
upload_file-IsOwned names place user file storage_type sub_type custom b b' r done =
    let key : r.key ≡ generate_file_key names user storage_type sub_type file.original_name custom =
      subst (HasKey (generate_file_key names user storage_type sub_type file.original_name custom))
        done (upload_file-HasKey names place user file storage_type sub_type custom b) in
    let (rest, whole) = file_key-begins names place user file storage_type sub_type custom in
    (
      λ other same different c.
          delete_file-refused r.key other c (elim (Bool-cases (starts_with r.key (other ++ "/"))) [
            | inl begins ↦ absurd (
                different (
                  begins-eq names place user file storage_type sub_type custom other same
                    (rw (← key) begins)))
            | inr e ↦ e
          ]),
      λ c calm. (
        delete_file-done r.key user c (rw key (rw whole (own-begins user rest))) calm,
        without-gone r.key c.keys,
      ),
    )
