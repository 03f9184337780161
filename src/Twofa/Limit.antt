-- ===== src/Twofa/Limit.antt =====
-- The limit of failed codes: `checkRateLimit` and `incrementRateLimit` within `verifyTwoFactor`.
use Prim.Native.String.{String}
use enix_backend.Base.{
  length as len, subst, ap, ◌∙◌, sym, ◌==◌, ℕ, suc, ◌+◌, ◌≤◌, ◌<◌, ◌≡◌, refl, inl, inr, Bool, true,
  false, Option, none, some, List, [], ◌∷◌, arith, leb, if◌then◌else◌, All, ◌⊎◌, ⊤, ==_refl,
}
use enix_backend.Http.{Error, ok, err, bad_request, internal, failure}
use enix_backend.Effects.{Call, Ended, caught, returned, final, result, threw}
use enix_backend.Accounts.{Accounts, Security, save_security, find_user, attempts_of}
use enix_backend.Twofa.{
  not_found_or_bad, Tools, length, verify_two_factor, reject, try_code, try_backup_code, try_secret,
  try_decrypted, is_totp, non_empty, security_of, verify_backup_code,
}

-- At any time from `start` on and before `until`, so many wrong codes of the user count.
abbrev pub Counts : ℕ → ℕ → ℕ → ℕ → Accounts → Type 0
Counts user start until n a = (t : ℕ) → start ≤ t → t < until → attempts_of t user a ≡ n

abbrev pub HasTwofa : ℕ → Accounts → Type 0
HasTwofa user a =
    (s : Security) × (security_of (find_user user a) ≡ some s) × (s.is_two_factor_enabled ≡ true)

-- Every code of a list, each tried at its time, is refused as a bad request.
abbrev pub AllRefused : Tools → ℕ → List (ℕ × String) → Accounts → Type 0
AllRefused tools user [] a = ⊤
AllRefused tools user ((now, code) ∷ tries) a =
    ((m : String) × (result (verify_two_factor tools now user code a) ≡ err (bad_request m)))
    × AllRefused tools user tries (final (verify_two_factor tools now user code a))

abbrev pub after_tries : Tools → ℕ → List (ℕ × String) → Accounts → Accounts
after_tries tools user [] a = a
after_tries tools user ((now, code) ∷ tries) a =
    after_tries tools user tries (final (verify_two_factor tools now user code a))

-- A try at a time of that span.
abbrev pub InTime : ℕ → ℕ → ℕ × String → Type 0
InTime start until (now, code) = (start ≤ now) × (now < until)

-- The code is right, or the stored secret cannot be read, or a wrong code is counted.
abbrev Judged : ℕ → ℕ → Ended Accounts ⊤ → Accounts → Type 0
Judged now user o a =
    (result o ≡ ok tt) ⊎ ((result o ≡ err failure) ⊎ ((m : String) × (o ≡ reject now user m a)))

Judged-if :
    (now user : ℕ) (b : Bool) (right other : Call Accounts ⊤) (a : Accounts)
    → Judged now user (right a) a
    → Judged now user (other a) a
    → Judged now user ((if b then right else other) a) a
Judged-if now user true right other a h j = h
Judged-if now user false right other a h j = j

module _ (tools : Tools) (user now : ℕ) (code : String) (s : Security) (a : Accounts) where
  refused : (m : String) → Judged now user (reject now user m a) a
  refused m = inr (inr (m, refl))

  try_backup_code-Judged :
      (codes : Option (List String))
      → Judged now user (try_backup_code tools now user code s codes a) a
  unfolding save_security
  try_backup_code-Judged none = refused _
  try_backup_code-Judged (some []) = refused _
  try_backup_code-Judged (some (h ∷ hs)) =
      Judged-if now user (verify_backup_code tools.compare code (h ∷ hs)) _ _ a (inl refl)
        (refused _)

  try_decrypted-Judged :
      (secret : Option String) → Judged now user (try_decrypted tools now user code s secret a) a
  unfolding save_security
  try_decrypted-Judged none = inr (inl refl)
  try_decrypted-Judged (some secret) =
      Judged-if now user (tools.totp secret code now) _ _ a (inl refl) (refused _)

  try_secret-Judged :
      (secret : Option String) → Judged now user (try_secret tools now user code s secret a) a
  try_secret-Judged none = refused _
  try_secret-Judged (some sealed) = try_decrypted-Judged (tools.decrypt sealed)

  try_code-Judged : Judged now user (try_code tools now user code s a) a
  try_code-Judged =
      Judged-if now user (length code == 8) _ _ a (try_backup_code-Judged s.two_factor_backup_codes)
        (Judged-if now user (is_totp tools code) _ _ a
          (try_secret-Judged (non_empty s.two_factor_secret)) (refused _))

module _ (tools : Tools) (user start until : ℕ) (short : until ≤ start + 900000) where
  Judged-counted :
      (now n : ℕ) (m : String) (a : Accounts) (o : Ended Accounts ⊤)
      → start ≤ now
      → now < until
      → Counts user start until n a
      → Judged now user o a
      → result (caught (not_found_or_bad tools) (internal "Failed to verify 2FA") o)
        ≡ err (bad_request m)
      → Counts user start until (suc n) (final o) × ((final o).users ≡ a.users)
  Judged-counted now n m a (returned x b) late early counted judged wrong = cc
  Judged-counted now n m a (threw e b) late early counted (inl right) wrong = cc
  Judged-counted now n m a (threw e b) late early counted (inr (inl broken)) wrong =
      ground (arith, broken, wrong)
  Judged-counted now n m a (threw e b) late early counted (inr (inr (k, rejected))) wrong =
      let here : attempts_of now user a ≡ n = counted now late early in
      let there : b ≡ final (reject now user k a) = ap final rejected in
      rw there (λ t from before. ground (arith, here, ==_refl user), refl)

  final-catch :
      (o : Ended Accounts ⊤) (known : Error → Bool) (e : Error) → final (caught known e o) ≡ final o
  final-catch (returned x b) known e = refl
  final-catch (threw f b) known e = refl

  reaches_code :
      (now n : ℕ) (code : String) (a : Accounts) (s : Security)
      → attempts_of now user a ≡ n
      → n < 5
      → security_of (find_user user a) ≡ some s
      → s.is_two_factor_enabled ≡ true
      → verify_two_factor tools now user code a
        ≡ caught
            (not_found_or_bad tools)
            (internal "Failed to verify 2FA")
            (try_code tools now user (tools.upper code) s a)
  unfolding verify_two_factor
  reaches_code now n code a s here few has on =
      let open_gate : leb 5 (attempts_of now user a) ≡ false = ground (arith, here) in
      rw open_gate (rw has (rw on refl))

  wrong-counted :
      (now n : ℕ) (code m : String) (a : Accounts)
      → start ≤ now
      → now < until
      → n < 5
      → HasTwofa user a
      → Counts user start until n a
      → result (verify_two_factor tools now user code a) ≡ err (bad_request m)
      → Counts user start until (suc n) (final (verify_two_factor tools now user code a))
        × ((final (verify_two_factor tools now user code a)).users ≡ a.users)
  wrong-counted now n code m a late early few (s, has, on) counted wrong =
      let o : Ended Accounts ⊤ = try_code tools now user (tools.upper code) s a in
      let reached = reaches_code now n code a s (counted now late early) few has on in
      let same : final (verify_two_factor tools now user code a) ≡ final o =
        ap final reached
        ∙ final-catch o (not_found_or_bad tools) (internal "Failed to verify 2FA") in
      let hit : Counts user start until (suc n) (final o) × ((final o).users ≡ a.users) =
        Judged-counted now n m a o late early counted
          (try_code-Judged tools user now (tools.upper code) s a)
          (sym (ap result reached) ∙ wrong) in
      rw same hit

  tries-counted :
      (tries : List (ℕ × String)) (n : ℕ) (a : Accounts)
      → n + len tries ≤ 5
      → All (InTime start until) tries
      → HasTwofa user a
      → Counts user start until n a
      → AllRefused tools user tries a
      → Counts user start until (n + len tries) (after_tries tools user tries a)
  tries-counted [] n a few in_time has counted refusals =
      subst (λ k. Counts user start until k a) (omega arith) counted
  tries-counted ((now, code) ∷ tries) n a few ((late, early), in_time) (s, has, on) counted
        ((m, wrong), refusals) =
      let next : Accounts = final (verify_two_factor tools now user code a) in
      let (more, same) =
        wrong-counted now n code m a late early (omega arith) (s, has, on) counted wrong in
      let still : HasTwofa user next = (s, (rw same has), on) in
      subst (λ k. Counts user start until k (after_tries tools user tries next)) (omega arith)
        (tries-counted tries (suc n) next (omega arith) in_time still more refusals)

-- Once five codes of a user with two-factor authentication have been refused as bad requests within
-- fifteen minutes, and no earlier failure counted, every further code in those fifteen minutes is
-- refused, whatever it is, and changes nothing.
pub five_refusals-locked :
    (tools : Tools) (user start : ℕ) (tries : List (ℕ × String)) (now : ℕ) (code : String)
    (a : Accounts)
    → len tries ≡ 5
    → All (InTime start (start + 900000)) tries
    → HasTwofa user a
    → Counts user start (start + 900000) 0 a
    → AllRefused tools user tries a
    → start ≤ now
    → now < start + 900000
    → verify_two_factor tools now user code (after_tries tools user tries a)
      ≡ threw
          (bad_request "Too many failed attempts. Please try again in 15 minutes.")
          (after_tries tools user tries a)
unfolding verify_two_factor
five_refusals-locked tools user start tries now code a five in_time has counted refusals late
      early =
    let five_counted =
      tries-counted tools user start (start + 900000) (omega arith) tries 0 a (omega arith) in_time
        has counted refusals in
    let all_five : 0 + len tries ≡ 5 = omega arith in
    let full : attempts_of now user (after_tries tools user tries a) ≡ 5 =
      five_counted now late early ∙ all_five in
    rw full refl
