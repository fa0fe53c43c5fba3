-- ===== src/Accounts/Samples.antt =====
-- A library that meets what the two Python libraries document, and data for the tests: a token is its
-- secret and its claims in plain text, and the text of a UUID is its number.
use mathlib.Core.Path.{ap}
use readprism.Prelude.{
  ℕ, zero, suc, ◌*◌, ◌≤◌, ◌<◌, ◌≡◌, refl, Bool, true, false, ◌&&◌, Option, none, some, [], ◌∷◌,
  ◌++◌, arith, if◌then◌else◌, leb, ltb, length, take, drop,
}
use readprism.Prelude.Text.{Text, codes, text_eq, text_eq_iff}
use readprism.Links.Signed.{second}
use readprism.Accounts.Tokens.{
  Library, IsLibrary, Claims, Decoded, good, expired, malformed, is_claim, Settings, Cache,
}
use readprism.Billing.Account
use readprism.Billing.Account.{User, free, day}
use readprism.Accounts.Registration.{Member}
use readprism.Accounts.Replies.{Visit, Store}
use readprism.Accounts.SignIn.{Passwords}

-- A text with its length before it, and the text and the rest that such a beginning gives.
abbrev write_text : Text → Text → Text
write_text t rest = suc (length t) ∷ (t ++ rest)

unfoldable pub write_option : Option Text → Text → Text
write_option none rest = 0 ∷ rest
write_option (some t) rest = write_text t rest

unfoldable pub read_option : Text → Option Text × Text
read_option [] = (none, [])
read_option (zero ∷ rest) = (none, rest)
read_option (suc n ∷ rest) = (some (take n rest), drop n rest)

take-append : (t rest : Text) → take (length t) (t ++ rest) ≡ t
take-append [] rest = refl
take-append (c ∷ t) rest = ap (λ l. c ∷ l) (take-append t rest)

drop-append : (t rest : Text) → drop (length t) (t ++ rest) ≡ rest
drop-append [] rest = refl
drop-append (c ∷ t) rest = drop-append t rest

read-write_option : (o : Option Text) (rest : Text) → read_option (write_option o rest) ≡ (o, rest)
unfolding read_option write_option
read-write_option none rest = refl
read-write_option (some t) rest = rw (take-append t rest, drop-append t rest) refl

unfoldable pub encode : Text → Claims → Text
encode secret c = write_option (some secret) (
    write_option c.type (
      write_option c.sub
        (write_option c.email (write_option c.jti (write_option c.sid (c.iat ∷ c.exp ∷ []))))))

abbrev in_time : Claims → Bool → ℕ → Decoded
in_time c verify_exp now =
    if ltb now (c.iat * second)
    then malformed
    else if verify_exp && leb (c.exp * second) now
    then expired
    else good c

abbrev with_times :
    Option Text → Option Text → Option Text → Option Text → Option Text → Text → Bool → ℕ → Decoded
with_times type sub email jti sid (iat ∷ exp ∷ []) verify_exp now =
    in_time
      (record { type = type; sub = sub; email = email; jti = jti; sid = sid; iat = iat; exp = exp })
      verify_exp now
with_times type sub email jti sid _ verify_exp now = malformed

unfoldable pub decode : Text → Text → Bool → ℕ → Decoded
decode secret token verify_exp now =
    let (signed, r) = read_option token in
    let (type, r1) = read_option r in
    let (sub, r2) = read_option r1 in
    let (email, r3) = read_option r2 in
    let (jti, r4) = read_option r3 in
    let (sid, r5) = read_option r4 in
    if is_claim signed secret
    then with_times type sub email jti sid r5 verify_exp now
    else malformed

in_time-good :
    (c : Claims) (now : ℕ)
    → c.iat * second ≤ now
    → now < c.exp * second
    → in_time c true now ≡ good c
in_time-good c now issued fresh = ground arith

decode-encode :
    (secret : Text) (c : Claims) (now : ℕ)
    → c.iat * second ≤ now
    → now < c.exp * second
    → decode secret (encode secret c) true now ≡ good c
unfolding decode encode
decode-encode secret c now issued fresh =
    rw
      (
        read-write_option (some secret),
        read-write_option c.type,
        read-write_option c.sub,
        read-write_option c.email,
        read-write_option c.jti,
        read-write_option c.sid,
        (text_eq_iff secret secret).1 refl,
      )
      (in_time-good c now issued fresh)

unfoldable pub read_uuid : Text → Option ℕ
read_uuid (u ∷ []) = some u
read_uuid _ = none

abbrev pub library : Library
library = record {
  encode = encode;
  decode = decode;
  show_uuid = λ u. u ∷ [];
  read_uuid = read_uuid;
}

pub library-IsLibrary : IsLibrary library
unfolding read_uuid
library-IsLibrary = record {
  decode-encode = decode-encode;
  read-show = λ u. refl;
  show_nonempty = λ u. (u, [], refl);
}

abbrev pub billing : Account.Settings
billing = record {
  hosted = true;
  billing_provider = [];
  billing_trial_days = 30;
  billing_past_due_grace_days = 7;
  billing_reader_price_ids = [];
  billing_pro_price_ids = [];
  billing_team_price_ids = [];
  razorpay_plan_id_pro = [];
  billing_checkout_reader_monthly = [];
  billing_checkout_reader_yearly = [];
  billing_checkout_pro_monthly = [];
  billing_checkout_pro_yearly = [];
  billing_checkout_monthly = [];
  billing_checkout_yearly = [];
  hosted_paused_delete_days = 30;
  hosted_delete_reminder_days = 7;
}

abbrev pub settings : Settings
settings = record {
  billing = billing;
  secret_key = codes "k";
  refresh_secret_key = [];
  access_token_expire_minutes = 30;
  refresh_token_expire_days = 30;
  magic_link_expire_minutes = 20;
  email_verification_expire_hours = 48;
  email_verification = codes "auto";
  signup_per_domain_per_hour = 10;
  registration_mode = codes "closed";
  registration_invite_codes = codes "tern, swift";
  demo_mode = false;
  terms_version = codes "2026-07-21";
}

abbrev pub passwords : Passwords
passwords = record { hash = λ p. b'#' ∷ p; check = λ p h. text_eq (b'#' ∷ p) h; dummy_hash = [] }

-- A user in the trial, 7, at `ada@b.org`.
abbrev pub ada_user : User
ada_user = record {
  id = 7;
  email = codes "ada@b.org";
  tier = free;
  created_at = 0;
  trial_ends_at = some (30 * day);
  plan_expires_at = none;
  billing_provider = none;
  billing_customer_id = none;
  billing_subscription_id = none;
  billing_status = none;
  billing_portal_url = none;
  billing_event_at = none;
  deletion_reminder_sent_at = none;
  email_verified_at = none;
}

abbrev pub ada : Member
ada = record {
  account = record { user = ada_user; quota_overrides = λ q. none };
  hashed_password = codes "#tern";
  display_name = none;
  is_demo = false;
  terms_accepted_at = some 0;
  terms_version = none;
}

abbrev pub visit : ℕ → ℕ → Visit
visit now jti = record {
  now = now * second;
  wants_cookies = false;
  get_up = true;
  set_up = true;
  delete_up = true;
  new_id = 8;
  jti = jti ∷ [];
  csrf = codes "c";
}

abbrev pub no_cache : Cache
no_cache key = none

abbrev pub store : Store
store = record { users = ada ∷ []; cache = no_cache }
