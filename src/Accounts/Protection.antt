-- ===== src/Accounts/Protection.antt =====
-- What `get_current_user` of backend/app/api/auth.py lets through.
use mathlib.Core.Path.{subst}
use readprism.Prelude.{
  ℕ, ◌≡◌, ◌≢◌, refl, ap, sym, ◌∙◌, true, false, Option, none, some, List, [], ◌∷◌, arith, inl, inr,
  Bool-cases, Option-cases,
}
use readprism.Prelude.Text.{Text, codes, text_eq, text_eq_iff, starts_with}
use readprism.Billing.Account.{Plan}
use readprism.Entitlements.Quotas.{Quota, is_paused}
use readprism.Accounts.Tokens.{Settings, Library}
use readprism.Accounts.Registration.{Member, Users, by_id}
use readprism.Accounts.Replies.{Error, not_authenticated, Reply, ok, http}
use readprism.Accounts.Guard.{
  Request, ApiToken, Via, bearer, cookie, api_token, is_mutating, enforce_csrf,
  is_demo_allowed_write, enforce_demo_read_only, is_paused_allowed_write, enforce_paused_read_only,
  find_token, may_write, of_token, counted, user_for_api_token, user_error, checked, first_error,
  unless, is_nonempty, identify, by_cookie, by_cookies, by_bearer, get_current_user,
}

-- The CSRF header repeats the cookie, and there is one.
abbrev pub IsCsrfProof : Request → Type 0
IsCsrfProof r = (is_nonempty r.csrf_cookie ≡ true) × (r.csrf_cookie ≡ r.csrf_header)

-- A text that is there and not empty, or the other one.
abbrev token_of : Option Text → Text → Text
token_of none other = other
token_of (some []) other = other
token_of (some (c ∷ t)) other = c ∷ t

-- The token that a request presents: its bearer token, or else its session cookie.
abbrev pub presented : Request → Text
presented r = token_of r.bearer (token_of r.access_cookie [])

enforce_csrf_passed :
    (r : Request) → enforce_csrf r ≡ none → is_mutating r.method ≡ true → IsCsrfProof r
unfolding enforce_csrf
enforce_csrf_passed r e mutating =
    let same = text_eq_iff r.csrf_cookie r.csrf_header in
    (ground (arith, same), ground (arith, same))

enforce_demo_passed :
    (r : Request) (m : Member)
    → enforce_demo_read_only r m ≡ none
    → is_mutating r.method ≡ true
    → m.is_demo ≡ true
    → is_demo_allowed_write r.path ≡ true
unfolding enforce_demo_read_only
enforce_demo_passed r m e mutating demo = ground arith

error-ok : (e : Error) (m : Member) → http e ≢ ok m
error-ok e m eq = cc

module _ (s : Settings) (lib : Library) (hash : Text → Text) (configured : Plan → Quota → Option ℕ)
    (now : ℕ) where
  enforce_paused_passed :
      (r : Request) (m : Member)
      → enforce_paused_read_only s lib hash configured now r m ≡ none
      → is_mutating r.method ≡ true
      → is_paused s.billing configured now m.account ≡ true
      → is_paused_allowed_write r ≡ true
  unfolding enforce_paused_read_only
  enforce_paused_passed r m e mutating paused = ground arith

  -- The token is stored under its hash for the user, is not revoked and may write.
  pub IsWriter : Text → Users → List ApiToken → Member → Type 0
  IsWriter token users tokens m =
      (t : ApiToken) × (find_token s lib hash configured now (hash token) tokens ≡ some t)
      × (text_eq t.token_hash (hash token) ≡ true)
      × (by_id users t.user_id ≡ some m)
      × (t.revoked ≡ false)
      × (may_write s lib hash configured now t ≡ true)

  -- What the way of signing in adds to a request that writes.
  unfoldable pub IsProven : Request → Users → List ApiToken → Via → Member → Type 0
  IsProven r users tokens bearer m = Unit
  IsProven r users tokens cookie m = IsCsrfProof r
  IsProven r users tokens api_token m = IsWriter (presented r) users tokens m

  found_writer :
      (r : Request) (users : Users) (t : ApiToken) (m : Member)
      → of_token s lib hash configured now r users (some t) ≡ ok m
      → is_mutating r.method ≡ true
      → (by_id users t.user_id ≡ some m)
        × (t.revoked ≡ false)
        × (may_write s lib hash configured now t ≡ true)
  found_writer r users t m e mutating = ground arith

  counted_reply :
      (h : Text) (tokens : List ApiToken) (reply : Reply Member)
      → (counted s lib hash configured now h tokens reply).0 ≡ reply
  counted_reply h tokens (ok m) = refl
  counted_reply h tokens (http e) = refl

  found_hash :
      (h : Text) (tokens : List ApiToken) (t : ApiToken)
      → find_token s lib hash configured now h tokens ≡ some t
      → text_eq t.token_hash h ≡ true
  unfolding find_token
  found_hash h [] t e = cc
  found_hash h (u ∷ tokens) t e = elim (Bool-cases (text_eq u.token_hash h)) [
    | inl same ↦ let e' : some u ≡ some t = rw same at e in let one : u ≡ t = cc in rw one at same
    | inr other ↦ found_hash h tokens t (rw other at e)
  ]

  user_for_api_token-IsWriter :
      (r : Request) (token : Text) (users : Users) (tokens : List ApiToken) (m : Member)
      → (user_for_api_token s lib hash configured now r token users tokens).0 ≡ ok m
      → is_mutating r.method ≡ true
      → IsWriter token users tokens m
  unfolding user_for_api_token IsWriter
  user_for_api_token-IsWriter r token users tokens m e mutating =
      let found = find_token s lib hash configured now (hash token) tokens in
      let e' = sym (counted_reply (hash token) tokens _) ∙ e in
      elim (Option-cases found) [
        | inl none_found ↦ absurd (error-ok _ m (rw none_found at e'))
        | inr (t, some_found) ↦
            let writer = found_writer r users t m (rw some_found at e') mutating in
            let hashed = found_hash (hash token) tokens t some_found in
            (t, some_found, hashed, writer.0, writer.1, writer.2)
      ]

  first_error-none :
      (a b : Option Error)
      → first_error s lib hash configured now a b ≡ none
      → (a ≡ none) × (b ≡ none)
  first_error-none none b h = (refl, h)
  first_error-none (some e) b h = cc

  unless_ok :
      (o : Option Error) (n m : Member)
      → unless s lib hash configured now o n ≡ ok m
      → (o ≡ none) × (n ≡ m)
  unless_ok none n m h = (refl, ground arith)
  unless_ok (some e) n m h = cc

  checked_ok :
      (r : Request) (via : Via) (reply : Reply Member) (m : Member)
      → checked s lib hash configured now r via reply ≡ ok m
      → (reply ≡ ok m) × (user_error s lib hash configured now r via m ≡ none)
  checked_ok r via (http e) m h = cc
  checked_ok r via (ok n) m h =
      let (e, same) = unless_ok (user_error s lib hash configured now r via n) n m h in
      (ap ok same, rw same at e)

  user_error_passed :
      (r : Request) (via : Via) (m : Member)
      → user_error s lib hash configured now r via m ≡ none
      → (enforce_demo_read_only r m ≡ none)
        × (enforce_paused_read_only s lib hash configured now r m ≡ none)
  unfolding user_error
  user_error_passed r bearer m h = first_error-none _ _ h
  user_error_passed r cookie m h = first_error-none _ _ h
  user_error_passed r api_token m h =
      let (demo, rest) = first_error-none _ _ h in (demo, (first_error-none _ _ rest).0)

  -- A request that writes, let through.
  pub record IsGuarded (r : Request) (users : Users) (tokens : List ApiToken) (via : Via)
      (m : Member) : Type 0 where
    pub demo : m.is_demo ≡ true → is_demo_allowed_write r.path ≡ true
    pub paused :
        is_paused s.billing configured now m.account ≡ true → is_paused_allowed_write r ≡ true
    pub proven : IsProven r users tokens via m

  checked-IsGuarded :
      (r : Request) (users : Users) (tokens : List ApiToken) (via : Via) (reply : Reply Member)
      (m : Member)
      → checked s lib hash configured now r via reply ≡ ok m
      → is_mutating r.method ≡ true
      → (reply ≡ ok m → IsProven r users tokens via m)
      → IsGuarded r users tokens via m
  checked-IsGuarded r users tokens via reply m e mutating proof =
      let (identified, passed) = checked_ok r via reply m e in
      let (demo, paused) = user_error_passed r via m passed in
      record {
        demo = enforce_demo_passed r m demo mutating;
        paused = enforce_paused_passed r m paused mutating;
        proven = proof identified;
      }

  identify-IsGuarded :
      (r : Request) (users : Users) (tokens : List ApiToken) (given via : Via) (token : Text)
      (m : Member)
      → identify s lib hash configured now r given token users tokens ≡ (via, ok m)
      → is_mutating r.method ≡ true
      → token ≡ presented r
      → IsProven r users tokens given m
      → IsGuarded r users tokens via m
  unfolding IsProven
  identify-IsGuarded r users tokens given via token m e mutating same proof =
      elim (Bool-cases (starts_with token (codes "rp_"))) [
        | inl t ↦
            let e' = rw t at e in
            subst (λ x. IsGuarded r users tokens x m) (ap (λ p. p.0) e')
              (checked-IsGuarded r users tokens api_token _ m (ap (λ p. p.1) e') mutating (λ found.
                subst (λ x. IsWriter x users tokens m) same
                  (user_for_api_token-IsWriter r token users tokens m found mutating)))
        | inr f ↦
            let e' = rw f at e in
            subst (λ x. IsGuarded r users tokens x m) (ap (λ p. p.0) e')
              (checked-IsGuarded r users tokens given _ m (ap (λ p. p.1) e') mutating
                (λ found. proof))
      ]

  by_cookie-IsGuarded :
      (r : Request) (users : Users) (tokens : List ApiToken) (via : Via) (m : Member)
      (refused : Option Error) (token : Text)
      → enforce_csrf r ≡ refused
      → by_cookie s lib hash configured now r refused token users tokens ≡ (via, ok m)
      → is_mutating r.method ≡ true
      → token ≡ presented r
      → IsGuarded r users tokens via m
  unfolding IsProven
  by_cookie-IsGuarded r users tokens via m (some x) token csrf e mutating same =
      absurd (error-ok x m (ap (λ p. p.1) e))
  by_cookie-IsGuarded r users tokens via m none token csrf e mutating same =
      identify-IsGuarded r users tokens cookie via token m e mutating same
        (enforce_csrf_passed r csrf mutating)

  by_cookies-IsGuarded :
      (r : Request) (users : Users) (tokens : List ApiToken) (via : Via) (m : Member)
      (token : Option Text)
      → by_cookies s lib hash configured now r token users tokens ≡ (via, ok m)
      → is_mutating r.method ≡ true
      → token_of token [] ≡ presented r
      → IsGuarded r users tokens via m
  by_cookies-IsGuarded r users tokens via m none e mutating same =
      absurd (error-ok not_authenticated m (ap (λ p. p.1) e))
  by_cookies-IsGuarded r users tokens via m (some []) e mutating same =
      absurd (error-ok not_authenticated m (ap (λ p. p.1) e))
  by_cookies-IsGuarded r users tokens via m (some (c ∷ t)) e mutating same =
      by_cookie-IsGuarded r users tokens via m (enforce_csrf r) (c ∷ t) refl e mutating same

  by_bearer-IsGuarded :
      (r : Request) (users : Users) (tokens : List ApiToken) (via : Via) (m : Member)
      (token : Option Text)
      → by_bearer s lib hash configured now r token users tokens ≡ (via, ok m)
      → is_mutating r.method ≡ true
      → token_of token (token_of r.access_cookie []) ≡ presented r
      → IsGuarded r users tokens via m
  unfolding IsProven
  by_bearer-IsGuarded r users tokens via m none e mutating same =
      by_cookies-IsGuarded r users tokens via m r.access_cookie e mutating same
  by_bearer-IsGuarded r users tokens via m (some []) e mutating same =
      by_cookies-IsGuarded r users tokens via m r.access_cookie e mutating same
  by_bearer-IsGuarded r users tokens via m (some (c ∷ t)) e mutating same =
      identify-IsGuarded r users tokens bearer via (c ∷ t) m e mutating same tt

  -- A request that changes data and gets a user passes the demo and the pause of the account; through a
  -- cookie its CSRF header is not empty and repeats the cookie, and with an API token the token that it
  -- presents is stored, by its hash, for this user, is not revoked and may write.
  pub get_current_user-IsGuarded :
      (r : Request) (users : Users) (tokens : List ApiToken) (via : Via) (m : Member)
      → get_current_user s lib hash configured now r users tokens ≡ (via, ok m)
      → is_mutating r.method ≡ true
      → IsGuarded r users tokens via m
  unfolding get_current_user
  get_current_user-IsGuarded r users tokens via m e mutating =
      by_bearer-IsGuarded r users tokens via m r.bearer e mutating refl
