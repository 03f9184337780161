-- ===== src/Paging/Cover.antt =====
-- The pages of a listing, put together.
use native.Mathlib.Omega.{div_any}
use native.Mathlib.Nat.{mod-lt}
use enix_backend.Base.{
  ◌∷◌, ℕ, zero, suc, ◌+◌, ◌-◌, ◌*◌, ◌≤◌, ◌<◌, ◌≡◌, refl, ap, ◌∙◌, sym, some, List, [], ◌++◌, arith,
  length, take, drop, ◌==◌, false, true, Bool, map, count, subst, take-append-drop, drop-drop,
  drop_all,
}
use Prim.Native.String.{String}
use mathlib.Core.List.{append_assoc, append-nil, map-append}
use enix_backend.Paging.{PaginationDto, Sorting, slice, total_pages}

-- the request of a page
abbrev pub at_page : ℕ → ℕ → PaginationDto → PaginationDto
at_page k limit dto = record dto { page = some k; limit = some limit }

-- what a function of the page gives for so many pages, from one on
abbrev pub pages_from : {A : Type 0} → (ℕ → List A) → ℕ → ℕ → List A
pages_from f k zero = []
pages_from f k (suc n) = f k ++ pages_from f (suc k) n

total_pages-cover : (total limit : ℕ) → 0 < limit → total ≤ total_pages total limit * limit
total_pages-cover total limit h =
    omega (arith, div_any (total + (limit - 1)) limit, mod-lt (total + (limit - 1)) h)

zero_times : (n : ℕ) → 0 * n ≡ 0
zero_times n = omega arith

module _ {A : Type 0} (limit : ℕ) (dto : PaginationDto) (rows : List A) (pos : 0 < limit) where
  abbrev page_rows : ℕ → List A
  page_rows k = slice (at_page k limit dto) rows

  page_rows-eq : (k : ℕ) → page_rows (suc k) ≡ take limit (drop (k * limit) rows)
  page_rows-eq k =
      let given : (limit == 0) ≡ false = ground arith in
      let first : (suc k == 0) ≡ false = ground arith in
      let before : suc k - 1 ≡ k = omega arith in rw given (rw first (rw before refl))

  page_rows-step : (k : ℕ) → page_rows (suc k) ++ drop (suc k * limit) rows ≡ drop (k * limit) rows
  page_rows-step k = rw (page_rows-eq k) (
      rw (← drop-drop limit (k * limit) (suc k * limit) rows (omega arith))
        (take-append-drop limit (drop (k * limit) rows)))

  pages_from-drop :
      (n k m : ℕ)
      → k + n ≡ m
      → pages_from page_rows (suc k) n ++ drop (m * limit) rows ≡ drop (k * limit) rows
  pages_from-drop zero k m e =
      let same : m ≡ k = omega arith in ap (λ j. drop (j * limit) rows) same
  pages_from-drop (suc n) k m e =
      append_assoc (page_rows (suc k)) (pages_from page_rows (suc (suc k)) n)
        (drop (m * limit) rows)
      ∙ ap (λ l. page_rows (suc k) ++ l) (pages_from-drop n (suc k) m (omega arith))
      ∙ page_rows-step k

  pub pages-cover : pages_from page_rows 1 (total_pages (length rows) limit) ≡ rows
  pages-cover =
      let n : ℕ = total_pages (length rows) limit in
      let none_left : drop (n * limit) rows ≡ [] =
        drop_all (n * limit) rows (total_pages-cover (length rows) limit pos) in
      sym (append-nil (pages_from page_rows 1 n))
      ∙ ap (λ l. pages_from page_rows 1 n ++ l) (sym none_left)
      ∙ pages_from-drop n 0 n (omega arith)
      ∙ ap (λ j. drop j rows) (zero_times limit)

map-pages_from :
    {A B : Type 0} (f : A → B) (g : ℕ → List A) (h : ℕ → List B)
    → ((k : ℕ) → h k ≡ map f (g k))
    → (n k : ℕ) → pages_from h k n ≡ map f (pages_from g k n)
map-pages_from f g h same zero k = refl
map-pages_from f g h same (suc n) k =
    ap (λ l. l ++ pages_from h (suc k) n) (same k)
    ∙ ap (λ l. map f (g k) ++ l) (map-pages_from f g h same n (suc k))
    ∙ sym (map-append f (g k) (pages_from g (suc k) n))

-- ORDER BY neither loses nor adds rows.
abbrev pub IsSorting : {A : Type 0} → Sorting A → Type 0
IsSorting {A} sorting =
    (field : String) (up : Bool) (rows : List A) (p : A → Bool)
    → count p (sorting field up rows) ≡ count p rows

count-all : {A : Type 0} (xs : List A) → count (λ (a : A). true) xs ≡ length xs
count-all [] = refl
count-all (x ∷ xs) = ap suc (count-all xs)

length-sorting :
    {A : Type 0} (sorting : Sorting A)
    → IsSorting sorting
    → (field : String) (up : Bool) (rows : List A) → length (sorting field up rows) ≡ length rows
length-sorting {A} sorting permutes field up rows =
    sym (count-all (sorting field up rows))
    ∙ permutes field up rows (λ (a : A). true)
    ∙ count-all rows

-- All pages of what is listed in order, one page after the other, where each row is shown by `f`.
pub pages-sorted :
    {A B : Type 0} (sorting : Sorting A)
    → IsSorting sorting
    → (limit : ℕ) → 0 < limit
    → (dto : PaginationDto) (field : String) (up : Bool) (found : List A) (f : A → B)
      (page : ℕ → List B)
    → ((k : ℕ) → page k ≡ map f (slice (at_page k limit dto) (sorting field up found)))
    → pages_from page 1 (total_pages (length found) limit) ≡ map f (sorting field up found)
pages-sorted sorting permutes limit pos dto field up found f page same =
    map-pages_from f (λ k. slice (at_page k limit dto) (sorting field up found)) page same
      (total_pages (length found) limit) 1
    ∙ ap (map f) (
        subst
          (λ n.
            pages_from (λ k. slice (at_page k limit dto) (sorting field up found)) 1
              (total_pages n limit)
            ≡ sorting field up found)
          (length-sorting sorting permutes field up found)
          (pages-cover limit dto (sorting field up found) pos))
