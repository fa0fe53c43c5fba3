-- ===== src/Links/Validity.antt =====
-- Which links the endpoints accept: the issuers and verifiers of backend/app/utils/signed_links.py and
-- backend/app/utils/unsubscribe.py together.
use mathlib.Core.Path.{subst}
use readprism.Prelude.{
  ℕ, ◌+◌, ◌*◌, ◌≡◌, ◌≢◌, ◌≤◌, refl, Bool, true, false, ◌&&◌, none, some, [], ◌∷◌, arith, Bool-cases,
  inl, inr,
}
use readprism.Prelude.Text.{Text, codes, text_eq, text_eq_iff, member}
use readprism.Links.Signed.{
  second, join, is_nonempty, expiry, actions, Link, unexpired, signature, action_url, verify_action,
}

-- What holds of a link that was issued at `now` for `ttl` seconds, by what its verifier answers.
abbrev pub IsTimed : ℕ → ℕ → (ℕ → Bool) → Type 0
IsTimed now ttl verifies =
    ((later : ℕ) → later ≤ now + ttl * second → verifies later ≡ true)
    × ((later : ℕ) → now + ttl * second + second ≤ later → verifies later ≡ false)

module _ (hmac : Text → Text) (show : ℕ → Text) (shown : (m : Text) → hmac m ≢ []) where
  nonempty : (m : Text) → text_eq (hmac m) [] ≡ false
  nonempty m = elim (Bool-cases (text_eq (hmac m) [])) [
    | inl e ↦ absurd (shown m ((text_eq_iff (hmac m) []).0 e))
    | inr e ↦ e
  ]

  -- What the verifiers ask of a link with its own signature.
  timed :
      (m : Text) (now ttl : ℕ) (known : Bool)
      → known ≡ true
      → IsTimed now ttl (λ later.
        known
        && is_nonempty (hmac m)
        && unexpired (expiry now ttl) later
        && text_eq (hmac m) (hmac m))
  timed m now ttl known k =
      let self = text_eq_iff (hmac m) (hmac m) in
      let full = nonempty m in
      (λ later h. ground (arith, h, k, self, full), λ later h. ground (arith, h, k, self, full))

  some_injective : (a b : Link) → some a ≡ some b → a ≡ b
  some_injective a b e = cc

  -- A link for an action that exists is accepted until its time is over, and refused from a second
  -- later on; for any other action no link is made.
  pub action_url-IsTimed :
      (user item action : Text) (ttl now : ℕ)
      → (member action actions ≡ false → action_url hmac show user item action ttl now ≡ none)
        × ((l : Link)
            → action_url hmac show user item action ttl now ≡ some l
            → IsTimed now ttl (verify_action hmac show l.uid l.subject l.action l.exp l.sig))
  unfolding action_url verify_action signature
  action_url-IsTimed user item action ttl now = (
    λ e. rw e refl,
    λ l e. elim (Bool-cases (member action actions)) [
      | inl known ↦
          let issued : Link = record {
            uid = user;
            subject = item;
            action = action;
            exp = expiry now ttl;
            sig = signature hmac show user item action (expiry now ttl);
          } in
          subst
            (λ x. IsTimed now ttl (verify_action hmac show x.uid x.subject x.action x.exp x.sig))
            (some_injective issued l (rw known at e))
            (timed (join (codes "email-action" ∷ user ∷ item ∷ action ∷ show (expiry now ttl) ∷ []))
              now ttl (member action actions) known)
      | inr other ↦ absurd (let e' : none ≡ some l = rw other at e in cc)
    ],
  )

-- Two different texts with one HMAC under the instance's key.
pub IsCollision : (Text → Text) → Type 0
IsCollision hmac = (m : Text) × (n : Text) × (m ≢ n) × (hmac m ≡ hmac n)
