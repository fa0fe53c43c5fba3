-- ===== src/Ingestion/ItemTests.antt =====
-- The theorems of hashes and digest caps at concrete items.
use readprism.Prelude.{ℕ, ◌≡◌, refl, Option, none, some, List, [], ◌∷◌, ◌++◌, arith, true, false}
use readprism.Prelude.Text.{Text, codes}
use readprism.Url.{UrlParts}
use readprism.Ingestion.Items.{hamming}
use readprism.Ingestion.BitCount.{differing, hamming_lem}
use readprism.Ingestion.Caps.{Item, cap_per_source, first_items, cap_per_source_first}
use readprism.Ingestion.Takedown.{
  BlockedUrl, labels, join_labels, find_key, normalize_host, normalize_target, add_blocked_entry,
  is_url_blocked, put_entry,
}
use readprism.Ingestion.Blocking.{is_url_blocked_covers}
use readprism.Ingestion.Samples.{hashes, urls, at_blog}

abbrev from_source : ℕ → Option ℕ → Item
from_source id source = record { id = id; source_id = source }

abbrev digest : List Item
digest =
    from_source 1 (some 5)
    ∷ from_source 2 none
    ∷ from_source 3 (some 5)
    ∷ from_source 4 (some 5)
    ∷ from_source 5 (some 6)
    ∷ []

abbrev of_digest : List Item
of_digest =
    from_source 1 (some 5)
    ∷ from_source 2 none
    ∷ from_source 3 (some 5)
    ∷ from_source 5 (some 6)
    ∷ []

two_of_each : first_items 2 [] digest ≡ of_digest
unfolding first_items
two_of_each = refl

cap_per_source_first_example : cap_per_source digest 2 ≡ first_items 2 [] digest
cap_per_source_first_example = cap_per_source_first digest 2 (omega arith)

hamming_lem_example : hamming hashes (codes "abc") (codes "abcdef") ≡ 2
unfolding differing
hamming_lem_example =
    hamming_lem hashes (codes "abc") (codes "abcdef") 3 6 refl refl (omega arith) (omega arith)

abbrev at_subdomain : Text → UrlParts
at_subdomain link = record (at_blog link) { hostname = some (codes "news.blog.example") }

abbrev link : Text
link = codes "https://news.blog.example/a"

abbrev blocked : List BlockedUrl
blocked = record { url_key = codes "blog.example"; reason = codes "notice" } ∷ []

host_labels :
    labels (normalize_host urls at_subdomain link)
    ≡ (codes "news" ∷ []) ++ (codes "blog" ∷ codes "example" ∷ [])
unfolding labels normalize_host
host_labels = refl

blog_blocked : find_key (join_labels (codes "blog" ∷ codes "example" ∷ [])) blocked ≡ true
unfolding find_key join_labels
blog_blocked = refl

is_url_blocked_covers_example : is_url_blocked urls at_subdomain blocked link ≡ true
is_url_blocked_covers_example =
    is_url_blocked_covers urls at_subdomain blocked link (codes "news" ∷ []) (codes "blog")
      (codes "example") [] refl host_labels blog_blocked

abbrev target : Text
target = codes "www.blog.example"

not_listed : find_key (normalize_target urls at_blog target none) [] ≡ false
unfolding find_key
not_listed = refl

added : add_blocked_entry urls at_blog [] target (codes "notice") none ≡ some blocked
unfolding add_blocked_entry normalize_target normalize_host put_entry
added = refl
