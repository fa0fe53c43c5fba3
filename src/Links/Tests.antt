-- ===== src/Links/Tests.antt =====
-- The theorems of the signed links, with a keyed function that has no collisions.
use readprism.Prelude.{ℕ, ◌+◌, ◌≡◌, false, none, some, [], ◌∷◌}
use readprism.Prelude.Text.{Text, codes, member}
use readprism.Links.Signed.{actions, Link, action_url, verify_action}
use readprism.Links.Validity.{IsTimed, action_url-IsTimed}

abbrev keyed : Text → Text
keyed m = b'k' ∷ m

abbrev digits : ℕ → Text
digits n = (n + 100) ∷ []

abbrev now : ℕ
now = 1_789_866_000_000_000

abbrev until : ℕ
until = 1_789_866_060

abbrev user : Text
user = codes "u1"

abbrev item : Text
item = codes "i1"

action_url-IsTimed_example :
    (member (codes "up") actions ≡ false
      → action_url keyed digits user item (codes "up") 60 now ≡ none)
    × ((l : Link)
        → action_url keyed digits user item (codes "up") 60 now ≡ some l
        → IsTimed now 60 (verify_action keyed digits l.uid l.subject l.action l.exp l.sig))
action_url-IsTimed_example =
    action_url-IsTimed keyed digits (λ m e. cc) user item (codes "up") 60 now
