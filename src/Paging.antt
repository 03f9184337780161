-- ===== src/Paging.antt =====
-- Pages of a listing: src/common/dto/pagination.dto.ts, and the arithmetic that every listing
-- repeats.
pub mod Cover
use Prim.Native.Nat.{◌/◌}
use Prim.Native.String.{String}
use text.Mathlib.Text.{◌==◌ as str_eq}
use enix_backend.Base.{
  ℕ, ◌+◌, ◌-◌, ◌*◌, Bool, Option, none, some, List, ◌==◌, ltb, if◌then◌else◌, any, take, drop, keep,
  count,
}

pub record PaginationDto : Type 0 where
  pub page : Option ℕ
  pub limit : Option ℕ
  pub sort_by : Option String
  pub sort_order : Option String

pub record PaginationMeta : Type 0 where
  pub page : ℕ
  pub limit : ℕ
  pub total : ℕ
  pub total_pages : ℕ
  pub has_next_page : Bool
  pub has_previous_page : Bool

-- `A` with the flag that tells whether the reader likes it
pub record PaginationResponse (A : Type 0) : Type 0 where
  pub items : List (A × Bool)
  pub meta : PaginationMeta

-- `n || d`
abbrev or_number : Option ℕ → ℕ → ℕ
or_number none d = d
or_number (some n) d = if n == 0 then d else n

abbrev pub page_of : PaginationDto → ℕ
page_of dto = or_number dto.page 1

abbrev pub limit_of : PaginationDto → ℕ
limit_of dto = or_number dto.limit 10

-- `a || b` on texts: the empty text counts as missing.
abbrev or_text : Option String → String → String
or_text none t = t
or_text (some s) t = if str_eq s "" then t else s

-- `allowedSortFields.includes(sortBy) ? sortBy : 'dateCreated'`
abbrev pub safe_sort_by : List String → PaginationDto → String
safe_sort_by allowed dto =
    if any (λ field. str_eq field (or_text dto.sort_by "dateCreated")) allowed
    then or_text dto.sort_by "dateCreated"
    else "dateCreated"

-- `sortOrder === 'ASC'`, where `default` stands in for a missing order
abbrev pub is_ascending : String → PaginationDto → Bool
is_ascending default dto = str_eq (or_text dto.sort_order default) "ASC"

-- `Math.ceil(total / limit)`
abbrev pub total_pages : ℕ → ℕ → ℕ
total_pages total limit = (total + (limit - 1)) / limit

abbrev pub meta_of : PaginationDto → ℕ → PaginationMeta
meta_of dto total = record {
  page = page_of dto;
  limit = limit_of dto;
  total = total;
  total_pages = total_pages total (limit_of dto);
  has_next_page = ltb (page_of dto) (total_pages total (limit_of dto));
  has_previous_page = ltb 1 (page_of dto);
}

-- `.skip((page - 1) * limit).take(limit)`
abbrev pub slice : {A : Type 0} → PaginationDto → List A → List A
slice dto rows = take (limit_of dto) (drop ((page_of dto - 1) * limit_of dto) rows)

-- ORDER BY, which the database carries out: by a column, upwards or downwards.
abbrev pub Sorting : Type 0 → Type 0
Sorting A = String → Bool → List A → List A
