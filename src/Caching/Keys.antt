-- ===== src/Caching/Keys.antt =====
-- The keys of cached users are neither sets of tags nor lists of tags.
use Prim.Native.String.{String, ◌++◌}
use text.Mathlib.TextLemmas.{append_assoc, append_cancel_left, cons-append}
use enix_backend.Base.{ℕ, ◌≡◌, ◌≢◌, sym, ap, ◌∙◌, arith}
use enix_backend.Redis.Client.{Caches}
use enix_backend.Redis.Keys.{tag, tags_of}
use enix_backend.Redis.Tags.Covered.{IsApart}
use enix_backend.Redis.Tags.Runs.{first}
use enix_backend.Caching.{LookupType, lookup_name, user_cache_key}

abbrev user_part : LookupType → String → String
user_part kind identifier = ":" ++ (lookup_name kind ++ (":" ++ identifier))

user_key-ne-tag :
    (prefix : String) (kind : LookupType) (identifier name : String)
    → user_cache_key prefix kind identifier ≢ tag prefix name
user_key-ne-tag prefix kind identifier name same =
    let rest = append_cancel_left ":" _ _ (append_cancel_left prefix _ _ same) in
    let c : first ("cache" ++ (":" ++ ("user" ++ user_part kind identifier))) ≡ b'c' =
      ap first (cons-append "c" "ache" (":" ++ ("user" ++ user_part kind identifier))) in
    let t : first ("tag" ++ (":" ++ name)) ≡ b't' = ap first (cons-append "t" "ag" (":" ++ name)) in
    let starts : ◌≡◌ {A = ℕ} b'c' b't' = sym c ∙ ap first rest ∙ t in absurd (omega (arith, starts))

user_key-ne-tags_of :
    (prefix : String) (kind : LookupType) (identifier other : String)
    → user_cache_key prefix kind identifier ≢ tags_of prefix other
user_key-ne-tags_of prefix kind identifier other same =
    let rest = append_cancel_left ":" _ _ (append_cancel_left prefix _ _ same) in
    let cut : "cache:tags" ++ (":" ++ other) ≡ "cache" ++ (":" ++ ("tags" ++ (":" ++ other))) =
      append_assoc "cache:" "tags" (":" ++ other)
      ∙ append_assoc "cache" ":" ("tags" ++ (":" ++ other)) in
    let kinds = append_cancel_left ":" _ _ (append_cancel_left "cache" _ _ (rest ∙ cut)) in
    let u : first ("user" ++ user_part kind identifier) ≡ b'u' =
      ap first (cons-append "u" "ser" (user_part kind identifier)) in
    let t : first ("tags" ++ (":" ++ other)) ≡ b't' =
      ap first (cons-append "t" "ags" (":" ++ other)) in
    let starts : ◌≡◌ {A = ℕ} b'u' b't' = sym u ∙ ap first kinds ∙ t in
    absurd (omega (arith, starts))

pub user_cache_key-IsApart :
    {V : Type 0} (redis : Caches V) (prefix : String) (kind : LookupType) (identifier : String)
    → IsApart redis prefix (user_cache_key prefix kind identifier)
user_cache_key-IsApart redis prefix kind identifier = record {
  no_tag = user_key-ne-tag prefix kind identifier;
  no_tags = user_key-ne-tags_of prefix kind identifier;
}
