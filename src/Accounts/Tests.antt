-- ===== src/Accounts/Tests.antt =====
-- Runs of the handlers, and the theorems at concrete requests.
use readprism.Prelude.{
  ◌⊎◌, ℕ, ◌≡◌, ◌≢◌, refl, true, false, Option, none, some, List, [], ◌∷◌, arith,
}
use readprism.Prelude.Text.{text_eq, Text, codes}
use readprism.Billing.Account.{Plan, strip, effective_plan, start_trial}
use readprism.Entitlements.Quotas.{Quota, is_paused}
use readprism.Accounts.Tokens.{
  good, create_refresh_token, create_access_token, create_magic_token, make_token, cache_get,
  cache_set, cache_delete, refresh_allowlist_key, magic_key, access_secret, refresh_secret,
  refresh_claims, access_claims,
}
use readprism.Accounts.Registration.{
  by_email, by_id, can_register, effective_mode, has_users, closed, domain_signup_allowed,
  verification_required, email_domain, domain_limit, count_recent,
}
use readprism.Accounts.Replies.{Visit, Store, ok, http, invalid_link, invalid_refresh}
use readprism.Accounts.SignIn.{
  UserCreate, open_session, login, magic_link_request, new_member, magic_link_error,
}
use readprism.Accounts.Sessions.{
  check_refresh, check_magic, decode_token, refresh, logout, magic_link_verify, verify_token,
}
use readprism.Accounts.Guard.{
  Request, put, cookie, get_current_user, user_error, enforce_demo_read_only,
  enforce_paused_read_only, is_paused_allowed_write, user_for_jwt, enforce_csrf,
}
use readprism.Accounts.Calls.{Call, logs_in, refreshes, registers, run}
use readprism.Accounts.Grants.{DrawsOther}
use readprism.Accounts.SingleUse.{refresh_once, magic_link_once, logout_revokes}
use readprism.Accounts.RoundTrip.{
  with_confirmed, check_refresh-create_refresh_token, verify_token-make_token,
}
use readprism.Accounts.Protection.{IsGuarded, get_current_user-IsGuarded}
use readprism.Accounts.Types.{access_token_apart}
use readprism.Accounts.Registry.{ledger_run}
use readprism.Accounts.Views.{view, IsUp}
use readprism.Accounts.Refinement.{AllUp, run_refines}
use readprism.Accounts.Admission.{account_ids, account_ids-run}
use readprism.Accounts.Samples.{
  library, library-IsLibrary, settings, passwords, ada, ada_user, visit, no_cache, store, encode,
  decode, read_uuid, write_option, read_option,
}

abbrev password : Text
password = codes "tern"

abbrev address : Text
address = codes "ada@b.org"

-- The refresh token of Ada's sign-in at 100 s, and the store after it.
abbrev token : Text
token = (create_refresh_token settings library 7 (5 ∷ []) true no_cache (visit 100 5).now).0

abbrev signed : Store
signed = (login settings library passwords (visit 100 5) address password store).1

abbrev owner : Text
owner = 7 ∷ []

token_valid :
    check_refresh settings library (visit 200 6) (some token) signed.cache ≡ ok (owner, 5 ∷ [])
unfolding check_refresh decode_token cache_get login open_session by_email create_refresh_token
    cache_set refresh_allowlist_key refresh_secret encode decode write_option read_option
token_valid = refl

abbrev later_calls : List (Visit × Call)
later_calls = (visit 250 7, logs_in address password) ∷ []

refresh_once_example :
    check_refresh settings library
      (visit 300 9)
      (some token)
      (run settings library passwords later_calls
        (refresh settings library (visit 200 6) (some token) none signed).1).cache
    ≢ ok (owner, 5 ∷ [])
unfolding DrawsOther create_refresh_token encode write_option
refresh_once_example =
    refresh_once settings library passwords (visit 200 6) (some token) none signed owner (5 ∷ [])
      later_calls (visit 300 9) (some token) owner token_valid refl refl (refl, tt)

-- The sign-in link of 100 s, and the store after it.
abbrev link : Text
link = (create_magic_token settings library address (5 ∷ []) true no_cache (visit 100 5).now).0

abbrev linked : Store
linked =
    (magic_link_request settings library passwords (visit 100 5) address none false [] store).0.1

link_valid : check_magic settings library (visit 200 6) link linked.cache ≡ ok (address, 5 ∷ [])
unfolding check_magic decode_token cache_get magic_link_request by_email create_magic_token
    cache_set magic_key encode decode write_option read_option
link_valid = refl

magic_link_once_example :
    check_magic settings library
      (visit 300 9)
      link
      (run settings library passwords later_calls
        (magic_link_verify settings library (visit 200 6) link linked).1).cache
    ≢ ok (address, 5 ∷ [])
unfolding DrawsOther
magic_link_once_example =
    magic_link_once settings library passwords (visit 200 6) link linked address (5 ∷ [])
      later_calls (visit 300 9) link address link_valid refl refl (refl, tt)

token_decodes :
    library.decode (refresh_secret settings) token false (visit 200 6).now
    ≡ good (refresh_claims settings library 7 (5 ∷ []) (visit 100 5).now)
unfolding create_refresh_token refresh_claims refresh_secret encode decode write_option read_option
token_decodes = refl

logout_revokes_example :
    check_refresh settings library
      (visit 300 9)
      (some token)
      (run settings library passwords later_calls
        (logout settings library (visit 200 6) none (some token) signed)).cache
    ≢ ok (owner, 5 ∷ [])
unfolding DrawsOther refresh_claims create_refresh_token encode write_option
logout_revokes_example =
    logout_revokes settings library passwords (visit 200 6) none (some token) signed token
      (refresh_claims settings library 7 (5 ∷ []) (visit 100 5).now) 5 [] later_calls (visit 300 9)
      (some token) owner refl token_decodes refl refl (refl, tt)

check_refresh-create_refresh_token_example :
    let (t, cache) =
      create_refresh_token settings library 7 (5 ∷ []) true no_cache (visit 100 5).now in
    check_refresh settings library (visit 200 6) (some t) cache ≡ ok (owner, 5 ∷ [])
check_refresh-create_refresh_token_example =
    check_refresh-create_refresh_token settings library library-IsLibrary 7 5 [] no_cache
      (visit 100 5).now (visit 200 6) (omega arith) (omega arith) refl

verify_token-make_token_example :
    let (answer, after) =
      verify_token settings library
        (visit 200 6).now
        (make_token settings library ada_user (visit 100 5).now)
        (ada ∷ []) in
    (answer ≡ some (with_confirmed (visit 200 6).now ada))
    × (by_id after 7 ≡ some (with_confirmed (visit 200 6).now ada))
    × (by_id after 9 ≡ by_id (ada ∷ []) 9)
unfolding by_id
verify_token-make_token_example =
    verify_token-make_token settings library library-IsLibrary ada_user ada (ada ∷ [])
      (visit 100 5).now (visit 200 6).now 9 refl (omega arith) (omega arith) refl

abbrev unconfigured : Plan → Quota → Option ℕ
unconfigured plan q = none

-- A write of a browser session.
abbrev write : Request
write = record {
  method = put;
  path = codes "/api/v1/me";
  bearer = none;
  access_cookie = some (create_access_token settings library 7 none (visit 100 5).now);
  csrf_cookie = codes "c";
  csrf_header = codes "c";
}

write_admitted :
    get_current_user settings library (λ t. t) unconfigured (visit 200 6).now write (ada ∷ []) []
    ≡ (cookie, ok ada)
unfolding get_current_user user_error enforce_demo_read_only enforce_paused_read_only
    is_paused_allowed_write is_paused effective_plan user_for_jwt enforce_csrf decode_token
    access_secret by_id create_access_token access_claims encode decode write_option read_option
    read_uuid
write_admitted = refl

get_current_user-IsGuarded_example :
    IsGuarded settings library
      (λ t. t)
      unconfigured
      (visit 200 6).now
      write
      (ada ∷ [])
      []
      cookie
      ada
get_current_user-IsGuarded_example =
    get_current_user-IsGuarded settings library (λ t. t) unconfigured (visit 200 6).now write
      (ada ∷ []) [] cookie ada write_admitted refl

access_valid :
    user_for_jwt settings library
      (λ t. t)
      unconfigured
      (visit 200 6).now
      (create_access_token settings library 7 none (visit 100 5).now)
      (ada ∷ [])
    ≡ ok ada
unfolding user_for_jwt decode_token access_secret by_id create_access_token access_claims encode
    decode write_option read_option read_uuid
access_valid = refl

access_token_apart_example :
    let access = create_access_token settings library 7 none (visit 100 5).now in
    (check_magic settings library (visit 200 6) access no_cache ≡ http invalid_link)
    × ((verify_token settings library (visit 200 6).now access (ada ∷ [])).0 ≡ none)
    × ((text_eq (refresh_secret settings) settings.secret_key ≡ false)
        ⊎ (check_refresh settings library (visit 200 6) (some access) no_cache
            ≡ http invalid_refresh))
access_token_apart_example =
    access_token_apart settings library (λ t. t) unconfigured (visit 200 6).now
      (create_access_token settings library 7 none (visit 100 5).now) (ada ∷ []) ada (visit 200 6)
      no_cache (ada ∷ []) access_valid refl

abbrev stranger : UserCreate
stranger = record {
  email = codes "eve@b.org";
  password = codes "eveeveeve";
  display_name = none;
  invite_code = none;
  accept_terms = true;
}

abbrev calls : List (Visit × Call)
calls =
    (visit 100 5, logs_in address password)
    ∷ (visit 200 6, refreshes (some token) none)
    ∷ (visit 300 9, registers stranger)
    ∷ []

abbrev up : (now jti : ℕ) → IsUp (visit now jti)
up now jti = record { gets = refl; sets = refl; deletes = refl }

run_refines_example :
    view (run settings library passwords calls store)
    ≡ ledger_run settings library passwords calls (view store)
unfolding AllUp
run_refines_example =
    run_refines settings library passwords calls store (up 100 5, (up 200 6, (up 300 9, tt)))

closed_mode : effective_mode settings ≡ closed
unfolding effective_mode strip
closed_mode = refl

has_ada : has_users store.users ≡ true
unfolding has_users
has_ada = refl

account_ids-run_example : account_ids (run settings library passwords calls store).users ≡ 7 ∷ []
unfolding account_ids
account_ids-run_example =
    account_ids-run settings library passwords closed_mode refl calls store has_ada

-- A deletion that Redis loses leaves the token valid: it is accepted again.
lost_deletion :
    check_refresh settings library
      (visit 300 9)
      (some token)
      (refresh settings library
        (record (visit 200 6) { delete_up = false })
        (some token)
        none
        signed).1.cache
    ≡ ok (owner, 5 ∷ [])
unfolding refresh check_refresh decode_token cache_get cache_delete login open_session by_email
    create_refresh_token cache_set refresh_allowlist_key refresh_secret encode decode write_option
    read_option read_uuid
lost_deletion = refl

-- A magic link for an address that was registered with a capital letter makes a second account.
abbrev capital : Store
capital = record {
  users =
      record ada {
        account = record ada.account { user = record ada_user { email = codes "Ada@b.org" } };
      }
      ∷ [];
  cache = no_cache;
}

second_account :
    account_ids
      (magic_link_request
        (record settings { registration_mode = codes "open" })
        library
        passwords
        (visit 100 5)
        (codes "Ada@b.org")
        none
        true
        []
        capital).0.1.users
    ≡ 7 ∷ 8 ∷ []
unfolding account_ids magic_link_request by_email magic_link_error can_register effective_mode strip
    has_users domain_signup_allowed verification_required email_domain domain_limit count_recent
    create_magic_token cache_set magic_key new_member start_trial encode write_option
second_account = refl
