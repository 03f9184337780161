-- ===== src/Twofa/Backup.antt =====
-- Backup codes: `verifyBackupCode` and `removeBackupCode` within `verifyTwoFactor`.
use Prim.Native.String.{String}
use enix_backend.Base.{
  ℕ, suc, ◌≡◌, refl, sym, ap, ◌∙◌, inl, inr, Bool, true, false, Bool-cases, none, some, List, [],
  ◌∷◌, arith, leb, ◌==◌, ==_refl, count, find?-passes,
}
use enix_backend.Base.Rows.{find?-update_where, by_key}
use enix_backend.Http.{ok, err, bad_request, internal}
use enix_backend.Effects.{final, result, caught}
use enix_backend.Accounts.{
  Accounts, User, Security, find_user, user_key, with_security, save_security, attempts_of,
}
use enix_backend.Twofa.{
  Tools, length, verify_two_factor, remove_backup_code, verify_backup_code, accept,
  not_found_or_bad, try_backup_code,
}

module _ (test : String → String → Bool) (code : String) where
  count-remove :
      (hs : List String)
      → verify_backup_code test code hs ≡ true
      → suc (count (test code) (remove_backup_code test code hs)) ≡ count (test code) hs
  count-remove [] h = cc
  count-remove (x ∷ hs) h = ground (arith, count-remove hs)

  verify_eq_zero :
      (hs : List String) → count (test code) hs ≡ 0 → verify_backup_code test code hs ≡ false
  verify_eq_zero [] h = refl
  verify_eq_zero (x ∷ hs) h = ground (arith, verify_eq_zero hs)

-- The user is found, with two-factor authentication and these hashed codes left.
abbrev pub HasCodes : ℕ → User → Security → List String → Accounts → Type 0
HasCodes user u s hs a =
    (find_user user a ≡ some u)
    × (u.security ≡ some s)
    × (s.is_two_factor_enabled ≡ true)
    × (s.two_factor_backup_codes ≡ some hs)

module _ (tools : Tools) (user : ℕ) (given : String) (eight : length (tools.upper given) ≡ 8) where
  tried :
      (now : ℕ) (hs : List String) (a : Accounts) (u : User) (s : Security)
      → HasCodes user u s hs a
      → leb 5 (attempts_of now user a) ≡ false
      → verify_two_factor tools now user given a
        ≡ caught
            (not_found_or_bad tools)
            (internal "Failed to verify 2FA")
            (try_backup_code tools now user (tools.upper given) s (some hs) a)
  unfolding verify_two_factor
  tried now hs a u s (here, sec, on, codes) free =
      let eight_long : (length (tools.upper given) == 8) ≡ true = ground (arith, eight) in
      rw free (rw here (rw sec simp (on, eight_long, codes)))

  abbrev used : ℕ → List String → Security → Security
  used now hs s = record s {
    two_factor_backup_codes = some (remove_backup_code tools.compare (tools.upper given) hs);
    two_factor_last_verified = some now;
  }

  matched :
      (now : ℕ) (hs : List String) (a : Accounts) (u : User) (s : Security)
      → HasCodes user u s hs a
      → result (verify_two_factor tools now user given a) ≡ ok tt
      → (verify_backup_code tools.compare (tools.upper given) hs ≡ true)
        × (verify_two_factor tools now user given a
            ≡ accept now user
                (record s {
                  two_factor_backup_codes =
                      some (remove_backup_code tools.compare (tools.upper given) hs);
                })
                a)
  unfolding verify_two_factor
  matched now hs a u s has done = elim (Bool-cases (leb 5 (attempts_of now user a))) [
    | inl full ↦ ground (arith, full)
    | inr free ↦ let e = tried now hs a u s has free in by_code hs e (sym (ap result e) ∙ done)
  ]
    where
      by_code :
          (hs : List String)
          → (verify_two_factor tools now user given a
              ≡ caught
                  (not_found_or_bad tools)
                  (internal "Failed to verify 2FA")
                  (try_backup_code tools now user (tools.upper given) s (some hs) a))
          → result (
              caught
                (not_found_or_bad tools)
                (internal "Failed to verify 2FA")
                (try_backup_code tools now user (tools.upper given) s (some hs) a))
            ≡ ok tt
          → (verify_backup_code tools.compare (tools.upper given) hs ≡ true)
            × (verify_two_factor tools now user given a
                ≡ accept now user
                    (record s {
                      two_factor_backup_codes =
                          some (remove_backup_code tools.compare (tools.upper given) hs);
                    })
                    a)
      by_code [] e e' = cc
      by_code (h ∷ hs) e e' =
          elim (Bool-cases (verify_backup_code tools.compare (tools.upper given) (h ∷ hs))) [
            | inl good ↦ (good, ground (arith, e, good))
            | inr bad ↦ ground (arith, e', bad)
          ]

  -- A backup code that is accepted takes one hash that it matches off the list.
  pub backup_code-removed :
      (now : ℕ) (hs : List String) (a : Accounts) (u : User) (s : Security)
      → HasCodes user u s hs a
      → result (verify_two_factor tools now user given a) ≡ ok tt
      → let hs' = remove_backup_code tools.compare (tools.upper given) hs in
        HasCodes user
          (with_security (used now hs s) u)
          (used now hs s)
          hs'
          (final (verify_two_factor tools now user given a))
        × (suc (count (tools.compare (tools.upper given)) hs')
            ≡ count (tools.compare (tools.upper given)) hs)
        × ((final (verify_two_factor tools now user given a)).attempts user ≡ none)
  unfolding save_security
  backup_code-removed now hs a u s has done =
      let (good, accepted) = matched now hs a u s has done in
      let kept =
        find?-update_where (by_key user_key user) (by_key user_key user)
          (with_security (used now hs s)) a.users (λ x. refl) has.0
          (find?-passes (by_key user_key user) a.users has.0) in
      rw accepted (
        (kept, refl, has.2, refl),
        count-remove tools.compare (tools.upper given) hs good,
        ground (arith, ==_refl user),
      )

  -- A backup code of eight characters that was accepted, and that matched one of the stored hashes
  -- alone, is refused if it is the next code that the user gives, at whatever time.
  pub backup_code-once :
      (now later : ℕ) (hs : List String) (a : Accounts) (u : User) (s : Security)
      → HasCodes user u s hs a
      → count (tools.compare (tools.upper given)) hs ≡ 1
      → result (verify_two_factor tools now user given a) ≡ ok tt
      → result (
          verify_two_factor tools later user given
            (final (verify_two_factor tools now user given a)))
        ≡ err (bad_request "Invalid backup code")
  backup_code-once now later hs a u s has single done =
      let b : Accounts = final (verify_two_factor tools now user given a) in
      let (still, fewer, reset) = backup_code-removed now hs a u s has done in
      let hs' : List String = remove_backup_code tools.compare (tools.upper given) hs in
      let gone : verify_backup_code tools.compare (tools.upper given) hs' ≡ false =
        verify_eq_zero tools.compare (tools.upper given) hs' (omega arith) in
      let free : leb 5 (attempts_of later user b) ≡ false = rw reset refl in
      ap result (tried later hs' b (with_security (used now hs s) u) (used now hs s) still free)
      ∙ wrong_code later hs' b (used now hs s) gone
    where
      wrong_code :
          (later : ℕ) (hs : List String) (b : Accounts) (s : Security)
          → verify_backup_code tools.compare (tools.upper given) hs ≡ false
          → result (
              caught
                (not_found_or_bad tools)
                (internal "Failed to verify 2FA")
                (try_backup_code tools later user (tools.upper given) s (some hs) b))
            ≡ err (bad_request "Invalid backup code")
      wrong_code later [] b s e = refl
      wrong_code later (h ∷ hs) b s e = rw e refl
