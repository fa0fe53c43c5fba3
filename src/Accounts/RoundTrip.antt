-- ===== src/Accounts/RoundTrip.antt =====
-- What the program signs it accepts: a refresh token of `_create_refresh_token` and a confirmation link
-- of `make_token`, until they expire.
use readprism.Prelude.{
  [], false, ap, sym, ◌∙◌, ◌==◌, or_else, ℕ, ◌+◌, ◌*◌, ◌/◌, ◌≤◌, ◌<◌, ◌≡◌, refl, true, none, some,
  ◌∷◌, arith, if◌then◌else◌, lt→ltb, inl, inr, Bool-cases,
}
use readprism.Prelude.Text.{Text, text_eq, lower}
use readprism.Links.Signed.{second, expiry}
use readprism.Billing.Account
use readprism.Accounts.Tokens.{
  Settings, Library, IsLibrary, Claims, Cache, cache_get, cache_set, create_refresh_token,
  refresh_claims, refresh_allowlist_key, refresh_secret, make_token, verify_claims,
}
use readprism.Accounts.Registration.{Member, Users, by_id, email_of, id_of}
use readprism.Accounts.Replies.{Visit, ok, Error, invalid_refresh, refresh_revoked}
use readprism.Accounts.Sessions.{
  check_refresh, decode_token, check_record, both, verify_token, mark_verified, update_row,
}
use readprism.Accounts.Grants.{text_eq_refl}

expiry_bound : (now ttl later : ℕ) → later < expiry now ttl * second → later < now + ttl * second
expiry_bound now ttl later h = omega arith

issued_before : (now later : ℕ) → now ≤ later → now / second * second ≤ later
issued_before now later h = omega arith

-- A row whose address is confirmed, at the time given unless it was before.
abbrev pub with_confirmed : ℕ → Member → Member
with_confirmed now m = record m {
  account = record m.account {
    user = record m.account.user {
      email_verified_at = some (or_else m.account.user.email_verified_at now);
    };
  };
}

module _ (s : Settings) (lib : Library) (laws : IsLibrary lib) where
  set_then_get :
      (cache : Cache) (now later ttl : ℕ) (key value : Text)
      → later < now + ttl * second
      → cache_get true (cache_set true cache now key value ttl) later key ≡ some value
  unfolding cache_get cache_set
  set_then_get cache now later ttl key value h =
      rw (text_eq_refl key, lt→ltb later (now + ttl * second) h) refl

  decode-encode_lem :
      (secret : Text) (c : Claims) (now : ℕ)
      → c.iat * second ≤ now
      → now < c.exp * second
      → decode_token lib secret (lib.encode secret c) now ≡ ok c
  unfolding decode_token
  decode-encode_lem secret c now issued fresh =
      rw (laws.decode-encode secret c now issued fresh) refl

  both_recorded :
      (bad : Error) (w : Visit) (cache : Cache) (key : Text → Text) (used : Error) (owner : Text)
      (c : ℕ) (o : Text) (k : ℕ) (t : Text)
      → owner ≡ c ∷ o
      → cache_get w.get_up cache w.now (key (k ∷ t)) ≡ some owner
      → check_record s lib bad w cache key (both (some owner) (some (k ∷ t))) used
        ≡ ok (owner, k ∷ t)
  both_recorded bad w cache key used owner c o k t e found =
      let found' : cache_get w.get_up cache w.now (key (k ∷ t)) ≡ some (c ∷ o) = rw e at found in
      rw (e, found', text_eq_refl (c ∷ o)) refl

  -- A refresh token that was recorded is accepted, for its user and jti, while the cache answers and
  -- the token has not expired.
  pub check_refresh-create_refresh_token :
      (user_id : ℕ) (k : ℕ) (t : Text) (cache : Cache) (now : ℕ) (w : Visit)
      → now ≤ w.now
      → w.now < expiry now (s.refresh_token_expire_days * 86_400) * second
      → w.get_up ≡ true
      → let (token, cache') = create_refresh_token s lib user_id (k ∷ t) true cache now in
        check_refresh s lib w (some token) cache' ≡ ok (lib.show_uuid user_id, k ∷ t)
  unfolding create_refresh_token check_refresh refresh_claims
  check_refresh-create_refresh_token user_id k t cache now w later fresh up =
      let c = refresh_claims s lib user_id (k ∷ t) now in
      let ttl = s.refresh_token_expire_days * 86_400 in
      let owner = lib.show_uuid user_id in
      let key = refresh_allowlist_key (k ∷ t) in
      let cache' = cache_set true cache now key owner ttl in
      let (a, o, e) = laws.show_nonempty user_id in
      let stored = set_then_get cache now w.now ttl key owner (expiry_bound now ttl w.now fresh) in
      let got : cache_get w.get_up cache' w.now key ≡ some owner = rw up stored in
      rw (decode-encode_lem (refresh_secret s) c w.now (issued_before now w.now later) fresh) (
        both_recorded invalid_refresh w cache' refresh_allowlist_key refresh_revoked owner a o k t e
          got)

  answer_of_link :
      (user : Account.User) (m : Member) (users : Users) (now later : ℕ)
      → by_id users user.id ≡ some m
      → now ≤ later
      → later < expiry now (s.email_verification_expire_hours * 3600) * second
      → verify_token s lib later (make_token s lib user now) users ≡ (
          if text_eq (lower user.email) (lower (email_of m))
          then (
            some (mark_verified s lib later m),
            update_row s lib (mark_verified s lib later) (id_of m) users,
          )
          else (none, users))
  unfolding make_token verify_token verify_claims
  answer_of_link user m users now later found after fresh =
      let c = verify_claims s lib user now in
      let decoded = laws.decode-encode s.secret_key c later (issued_before now later after) fresh in
      let same = text_eq (lower user.email) (lower (email_of m)) in
      elim (Bool-cases same) [
        | inl t ↦ rw (decoded, laws.read-show user.id, found, t) refl
        | inr f ↦ rw (decoded, laws.read-show user.id, found, f) refl
      ]

  update_row_found :
      (f : Member → Member) (users : Users) (m : Member) (u : ℕ)
      → ((x : Member) → id_of (f x) ≡ id_of x)
      → by_id users u ≡ some m
      → (id_of m ≡ u) × (by_id (update_row s lib f (id_of m) users) u ≡ some (f m))
  unfolding by_id update_row
  update_row_found f [] m u keeps e = cc
  update_row_found f (x ∷ users) m u keeps e = elim (Bool-cases (id_of x == u)) [
    | inl t ↦
        let here : some x ≡ some m = rw t at e in
        let same : x ≡ m = cc in
        let id : id_of x ≡ u = ground (arith, t) in
        let t' : (id_of (f x) == u) ≡ true = rw (keeps x) t in
        let own : (id_of x == id_of x) ≡ true = ground arith in
        (ap id_of (sym same) ∙ id, rw⁻¹ same (rw own (rw t' refl)))
    | inr n ↦
        let (id, rest) = update_row_found f users m u keeps (rw n at e) in
        let n' : (id_of x == id_of m) ≡ false = ground (arith, n, id) in (id, rw n' (rw n rest))
  ]

  update_row_others :
      (f : Member → Member) (users : Users) (u other : ℕ)
      → ((x : Member) → id_of (f x) ≡ id_of x)
      → (other == u) ≡ false
      → by_id (update_row s lib f u users) other ≡ by_id users other
  unfolding by_id update_row
  update_row_others f [] u other keeps apart = refl
  update_row_others f (x ∷ users) u other keeps apart = elim (Bool-cases (id_of x == u)) [
    | inl t ↦
        let n : (id_of x == other) ≡ false = ground (arith, t, apart) in
        let n' : (id_of (f x) == other) ≡ false = rw (keeps x) n in rw t (rw (n, n') refl)
    | inr n ↦
        let rest = update_row_others f users u other keeps apart in
        rw n (ap (λ o. if id_of x == other then some x else o) rest)
  ]

  mark_verified_lem : (now : ℕ) (m : Member) → mark_verified s lib now m ≡ with_confirmed now m
  unfolding mark_verified
  mark_verified_lem now m = ground arith

  -- A confirmation link that has not expired, for an account in the table: while the account has the
  -- address that the link was made for, up to case, the link is answered by the account, and the
  -- table has it with the address confirmed, at this time unless it was before. Otherwise the link is
  -- answered by nobody and the account stays as it is. Every other account stays as it is too.
  pub verify_token-make_token :
      (user : Account.User) (m : Member) (users : Users) (now later other : ℕ)
      → by_id users user.id ≡ some m
      → now ≤ later
      → later < expiry now (s.email_verification_expire_hours * 3600) * second
      → (other == user.id) ≡ false
      → let same = text_eq (lower user.email) (lower (email_of m)) in
        let (answer, after) = verify_token s lib later (make_token s lib user now) users in
        (answer ≡ (if same then some (with_confirmed later m) else none))
        × (by_id after user.id ≡ some (if same then with_confirmed later m else m))
        × (by_id after other ≡ by_id users other)
  verify_token-make_token user m users now later other found after fresh apart =
      let answer = answer_of_link user m users now later found after fresh in
      let keeps : (x : Member) → id_of (mark_verified s lib later x) ≡ id_of x =
        λ x. ap id_of (mark_verified_lem later x) in
      let (id, changed) =
        update_row_found (mark_verified s lib later) users m user.id keeps found in
      let apart' : (other == id_of m) ≡ false = rw id apart in
      let others =
        update_row_others (mark_verified s lib later) users (id_of m) other keeps apart' in
      let marked = mark_verified_lem later m in
      elim (Bool-cases (text_eq (lower user.email) (lower (email_of m)))) [
        | inl t ↦ rw answer (rw t (ap some marked, changed ∙ ap some marked, others))
        | inr f ↦ rw answer (rw f (refl, found, refl))
      ]
