-- ===== src/Abuse/Hosts.antt =====
-- How many sources an account may have on one host: `enforce_sources_per_host` of
-- backend/app/services/abuse.py.
use readprism.Prelude.{
  ℕ, ◌+◌, ◌≡◌, ◌≢◌, ◌≤◌, ◌<◌, ◌↔◌, refl, sym, ap, ◌∙◌, inl, inr, true, false, none, List, [], ◌∷◌,
  arith, Bool-cases,
}
use readprism.Prelude.Text.{Text, text_eq, text_eq_iff}
use readprism.Url.{UrlParts}
use readprism.Abuse.Budgets.{
  Settings, host_of, count_host, bump, add_links, enforce_sources_per_host,
}

nameless_other : (host h : Text) → text_eq host [] ≡ true → h ≢ [] → text_eq host h ≡ false
nameless_other [] [] e n = absurd (n refl)
nameless_other [] (c ∷ h) e n = refl
nameless_other (c ∷ host) h e n = cc

module _ (urlparse : Text → UrlParts) (limit : ℕ) where
  -- Every host that gets a link stays within the limit.
  abbrev Fits : (Text → ℕ) → List Text → Type 0
  Fits counts urls =
      (h : Text)
      → h ≢ []
      → 0 < count_host urlparse h urls
      → counts h + count_host urlparse h urls ≤ limit

  add_links-Fits :
      (urls : List Text) (counts : Text → ℕ)
      → add_links urlparse limit counts urls ≡ none
      → Fits counts urls
  unfolding add_links count_host
  add_links-Fits [] counts e h named some_link = omega (arith, some_link)
  add_links-Fits (url ∷ urls) counts e h named some_link =
      let host = host_of urlparse url in
      elim (Bool-cases (text_eq host [])) [
        | inl nameless ↦
            let other = nameless_other host h nameless named in
            let rest = add_links-Fits urls counts (ground (arith, e, nameless)) h named in
            ground (arith, rest, other, some_link)
        | inr hosted ↦
            let rest = add_links-Fits urls (bump counts host) (ground (arith, e, hosted)) h named in
            let same : text_eq host h ≡ true → counts host ≡ counts h =
              λ q. ap counts ((text_eq_iff host h).0 q) in
            ground (arith, rest, e, hosted, same)
      ]

  Fits-add_links :
      (urls : List Text) (counts : Text → ℕ)
      → Fits counts urls
      → add_links urlparse limit counts urls ≡ none
  unfolding add_links count_host
  Fits-add_links [] counts fits = refl
  Fits-add_links (url ∷ urls) counts fits =
      let host = host_of urlparse url in
      let self = text_eq_iff host host in
      elim (Bool-cases (text_eq host [])) [
        | inl nameless ↦ rw nameless (
            Fits-add_links urls counts λ h named some_link.
              let other = nameless_other host h nameless named in
              ground (arith, fits h named, other, some_link))
        | inr hosted ↦
            let rest = Fits-add_links urls (bump counts host) λ h named some_link.
              let same : text_eq host h ≡ true → counts host ≡ counts h =
                λ q. ap counts ((text_eq_iff host h).0 q) in
              ground (arith, fits h named, same, some_link) in
            let here = fits host (λ q. cc) in ground (arith, rest, here, self, hosted)
      ]

-- On a hosted instance with a limit, links are accepted exactly when, for every host that gets one of
-- them, the sources that the account has there and the new ones together stay within the limit.
pub enforce_sources_per_host_iff :
    (s : Settings) (urlparse : Text → UrlParts) (existing urls : List Text)
    → s.hosted ≡ true
    → 0 < s.hosted_max_sources_per_host
    → (enforce_sources_per_host s urlparse existing urls ≡ none) ↔ (
        (h : Text)
        → h ≢ []
        → 0 < count_host urlparse h urls
        → count_host urlparse h existing + count_host urlparse h urls
          ≤ s.hosted_max_sources_per_host)
unfolding enforce_sources_per_host
enforce_sources_per_host_iff s urlparse existing urls hosted limited =
    let limit = s.hosted_max_sources_per_host in
    let counts : Text → ℕ = λ h. count_host urlparse h existing in
    let shut : enforce_sources_per_host s urlparse existing urls
        ≡ add_links urlparse limit counts urls =
      ground (arith, hosted, limited) in
    (
      λ e. add_links-Fits urlparse limit urls counts (sym shut ∙ e),
      λ fits. shut ∙ Fits-add_links urlparse limit urls counts fits,
    )
