-- ===== src/Auth/SignInTests.antt =====
-- The theorems on links, backup codes and providers, at the account of the address "a".
use flow_ai.Common.{
  ℕ, zero, suc, ◌≡◌, refl, sym, ◌∙◌, Bool, true, false, Option, none, some, List, [], ◌∷◌, arith,
  failed, bad_request, unauthorized, Text, HttpError,
}
use mathlib.Core.Option
use flow_ai.Database.Laws.{AtMostOne}
use flow_ai.Database.Rows.{rows}
use flow_ai.Redis.Entries.{Server, server}
use flow_ai.RefreshTokens.{RefreshToken, revoke_all}
use flow_ai.Auth.{AuthResponse, User, TwoFactorAuth, respond}
use flow_ai.Auth.Links.{MagicLink, PasswordReset, is_link, verify_magic_link, reset_password}
use flow_ai.Auth.Links.Once.{Request, sends, verifies, run, link_used_once}
use flow_ai.Auth.Links.Reset.{token_of, reset_signs_out}
use flow_ai.Auth.TwoFactor.{of_user, verify_2fa, finish}
use flow_ai.Auth.TwoFactor.BackupCodes.{backup_code_once}
use flow_ai.Auth.OAuth.{github, Profile, google, is_linked, handle_oauth_login}
use flow_ai.Auth.OAuth.SameAccount.{SignIn, sign_ins, same_account}
use flow_ai.Auth.Tests.{keys, sign, user, users, jtis}

only_first : {A : Type 0} (a x : A) (k : ℕ) → (rows A).find (some a ∷ []) k ≡ some x → k ≡ 0
only_first a x zero e = refl
only_first a x (suc k) e = ground arith

-- In a table of one row at most one row satisfies a clause.
single : {A : Type 0} (a : A) (p : ℕ → A → Bool) → AtMostOne (rows A) (some a ∷ []) p
single a p i j r q ei ej hi hj = only_first a r i ei ∙ sym (only_first a q j ej)

abbrev link : MagicLink
link = record { token = 4; user_id = 0; email = b'a' ∷ []; expires_at = 600000; used_at = none }

abbrev links : List (Option MagicLink)
links = some link ∷ []

abbrev requests : List Request
requests = sends (b'b' ∷ []) 5 200 ∷ verifies 5 300 jtis ∷ verifies 4 350 jtis ∷ []

abbrev after : List (Option User) × List (Option MagicLink) × List (Option RefreshToken)
after =
    let (reply, s, l, t) =
      verify_magic_link (rows User) (rows MagicLink) sign (rows RefreshToken) 4 100 jtis users links
        [] in
    run sign (rows User) (rows RefreshToken) (rows MagicLink) requests (s, l, t)

link_used_once_example :
    verify_magic_link
      (rows User)
      (rows MagicLink)
      sign
      (rows RefreshToken)
      4
      400
      jtis
      after.0
      after.1
      after.2
    ≡ (failed bad_request, after.0, after.1, after.2)
unfolding verify_magic_link
link_used_once_example =
    link_used_once sign (rows User) (rows RefreshToken) (rows MagicLink) 4 100 400 jtis jtis
      requests users links [] (respond sign (rows RefreshToken) 0 user jtis 100 []).0
      (single link (is_link 4)) refl (refl, (refl, (refl, tt)))

abbrev password_reset : PasswordReset
password_reset = record { token = 4; user_id = 0; expires_at = 1000; used_at = none }

abbrev others : List (Option RefreshToken)
others =
    some (record { token = 1; user_id = 0; expires_at = 50 })
    ∷ some (record { token = 2; user_id = 1; expires_at = 50 })
    ∷ []

abbrev reset :
    Option HttpError × List (Option User) × List (Option PasswordReset) × List (Option RefreshToken)
reset =
    reset_password (rows User) (rows PasswordReset) (rows RefreshToken) 4 9 100 users
      (some password_reset ∷ []) others

reset_signs_out_example :
    (Option.map (λ (u : User). u.password_hash) ((rows User).find reset.1 0) ≡ some (some 9))
    × ((rows User).find reset.1 1 ≡ none)
    × (Option.map (λ (x : PasswordReset). x.used_at) ((rows PasswordReset).find reset.2 0)
        ≡ some (some 100))
    × (token_of (rows User) (rows PasswordReset) (rows RefreshToken) 0 reset.3 0 ≡ false)
unfolding reset_password revoke_all
reset_signs_out_example =
    reset_signs_out (rows User) (rows PasswordReset) (rows RefreshToken) 4 9 100 0 1 0 users
      (some password_reset ∷ []) others password_reset refl refl refl

abbrev factor : TwoFactorAuth
factor = record {
  user_id = 0;
  secret = 3;
  is_enabled = true;
  backup_codes = (b'X' ∷ []) ∷ (b'Y' ∷ []) ∷ [];
}

abbrev waiting : Server ℕ ℕ
waiting = record { is_up = true; entries = (5, 0) ∷ (6, 0) ∷ [] }

abbrev left : List (Option TwoFactorAuth)
left =
    (verify_2fa (λ now code secret. false) (rows TwoFactorAuth) sign (rows User) (rows RefreshToken)
      (server keys ℕ) 5 100 (b'x' ∷ []) jtis (some factor ∷ []) users [] waiting).1

backup_code_once_example :
    verify_2fa
      (λ now code secret. false)
      (rows TwoFactorAuth)
      sign
      (rows User)
      (rows RefreshToken)
      (server keys ℕ)
      6
      200
      (b'X' ∷ [])
      jtis
      left
      users
      []
      waiting
    ≡ (failed unauthorized, left, users, [], waiting)
unfolding verify_2fa finish
backup_code_once_example =
    backup_code_once (λ now code secret. false) (rows TwoFactorAuth) sign (rows User)
      (rows RefreshToken) (server keys ℕ) 5 6 100 200 (b'x' ∷ []) (b'X' ∷ []) jtis jtis
      (some factor ∷ []) users users [] [] waiting waiting 0 0 factor
      (respond sign (rows RefreshToken) 0 user jtis 100 []).0 (single factor (of_user 0)) refl
      (omega arith) refl refl refl refl refl refl

abbrev profile : Text → Profile
profile email = record {
  provider = google;
  provider_id = 8;
  email = email;
  first_name = [];
  last_name = [];
  avatar = none;
}

-- Another user of another provider with the same address signs in between.
abbrev between : List SignIn
between =
    record {
      profile = record (profile (b'a' ∷ [])) { provider = github; provider_id = 3 };
      jtis = jtis;
      now = 150;
    }
    ∷ []

abbrev first_sign_in : AuthResponse × List (Option User) × List (Option RefreshToken)
first_sign_in =
    handle_oauth_login (rows User) sign (rows RefreshToken) (profile (b'a' ∷ [])) jtis 100 users []

same_account_example :
    (handle_oauth_login
      (rows User)
      sign
      (rows RefreshToken)
      (profile (b'b' ∷ []))
      jtis
      200
      (sign_ins (rows User) sign (rows RefreshToken) between first_sign_in.1 first_sign_in.2).0
      []).0.user.id
    ≡ first_sign_in.0.user.id
same_account_example =
    same_account (rows User) sign (rows RefreshToken) (profile (b'a' ∷ [])) (profile (b'b' ∷ []))
      jtis jtis 100 200 between users [] [] (single user (is_linked google 8)) refl refl (refl, tt)
