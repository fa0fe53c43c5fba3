-- ===== src/Ingestion/Dispatch.antt =====
-- One poll's fetch: `_load_feed_bytes` and `fetch_feed` of backend/app/services/ingestion/rss_parser.py,
-- `apply_permanent_redirect` of backend/app/services/ingestion/identity.py, and `dispatch_source` of
-- backend/app/services/ingestion/dispatcher.py up to its deduplication.
use readprism.Prelude.{
  ℕ, suc, Bool, true, false, ◌&&◌, ◌||◌, not, Option, none, some, List, [], ◌∷◌, leb, ◌==◌,
  if◌then◌else◌, or_else,
}
use readprism.Prelude.Text.{Text, codes, text_eq, rstrip}
use readprism.Billing.Account.{strip}
use readprism.Ingestion.Poll.{Source, or_text}
use readprism.Ingestion.Items.{RawItem, UrlLib, canonicalize_url}

-- An HTTP response, and its headers. `permanent_url` is what `safe_fetch` adds after a 301.
pub record Response : Type 0 where
  pub status_code : ℕ
  pub content : Text
  pub etag : Option Text
  pub last_modified : Option Text
  pub permanent_url : Option Text

-- An entry as feedparser yields it, with its text and date as extracted.
pub record Entry : Type 0 where
  pub link : Option Text
  pub title : Option Text
  pub text : Text
  pub published_at : Option ℕ
  pub id : Option Text
  pub guid : Option Text

-- What a poll asks of outside. The number counts its calls, which may be answered differently.
-- `fetch` is none where the URL is blocked or the request raises, `parse` where feedparser raises.
pub record Web : Type 0 where
  pub fetch : ℕ → Text → Option Text → Option Text → Option Response
  pub xml_safe : Text → Option Text
  pub parse : Text → Option (List Entry)
  pub autodiscover : ℕ → Text → Option Text
  pub scrape_page : Text → Option RawItem
  pub newsletter_items : List RawItem

pub record HttpFeed : Type 0 where
  pub status : ℕ
  pub body : Option Text
  pub etag : Option Text
  pub last_modified : Option Text
  pub permanent_url : Option Text

pub record FeedFetchResult : Type 0 where
  pub items : List RawItem
  pub not_modified : Bool
  pub etag : Option Text
  pub last_modified : Option Text
  pub status_code : Option ℕ
  pub permanent_url : Option Text

-- `a or b`, on optional texts: an empty text is falsy.
abbrev pub or_opt : Option Text → Option Text → Option Text
or_opt none b = b
or_opt (some []) b = b
or_opt (some (c ∷ t)) b = some (c ∷ t)

-- `x.strip() if x else None`
abbrev stripped : Option Text → Option Text
stripped none = none
stripped (some []) = none
stripped (some (c ∷ t)) = some (strip (c ∷ t))

abbrev safe_body : Response → Option Text → Option HttpFeed
safe_body r none = none
safe_body r (some body) = some record {
  status = r.status_code;
  body = some body;
  etag = stripped r.etag;
  last_modified = stripped r.last_modified;
  permanent_url = r.permanent_url;
}

abbrev bodiless : ℕ → Option Text → Option Text → HttpFeed
bodiless status etag modified = record {
  status = status;
  body = none;
  etag = etag;
  last_modified = modified;
  permanent_url = none;
}

abbrev read_response : Web → Option Text → Option Text → Option Response → Option HttpFeed
read_response web etag last_modified none = none
read_response web etag last_modified (some r) =
    if r.status_code == 304
    then some (
        bodiless 304 (or_opt (stripped r.etag) etag)
          (or_opt (stripped r.last_modified) last_modified))
    else if leb 400 r.status_code
    then some (bodiless r.status_code (stripped r.etag) (stripped r.last_modified))
    else safe_body r (web.xml_safe r.content)

unfoldable pub load_feed_bytes : Web → ℕ → Text → Option Text → Option Text → Option HttpFeed
load_feed_bytes web call url etag last_modified =
    read_response web etag last_modified (web.fetch call url etag last_modified)

-- A body that is there and not empty.
abbrev pub body_of : Option HttpFeed → Option Text
body_of none = none
body_of (some p) = or_opt p.body none

unfoldable pub items_from_feed : List Entry → List RawItem
items_from_feed [] = []
items_from_feed (e ∷ entries) =
    let rest = items_from_feed entries in
    elim (or_opt e.link none) [
      | none ↦ rest
      | some link ↦
          record {
            url = link;
            title = or_else e.title (codes "Untitled");
            full_text = or_opt (some e.text) none;
            guid = or_opt (or_opt e.id e.guid) none;
            published_at = e.published_at;
            simhash = none;
          }
          ∷ rest
    ]

abbrev pub no_items : FeedFetchResult
no_items = record {
  items = [];
  not_modified = false;
  etag = none;
  last_modified = none;
  status_code = none;
  permanent_url = none;
}

abbrev etag_of : Option HttpFeed → Option Text
etag_of none = none
etag_of (some p) = p.etag

abbrev modified_of : Option HttpFeed → Option Text
modified_of none = none
modified_of (some p) = p.last_modified

abbrev permanent_of : Option HttpFeed → Option Text
permanent_of none = none
permanent_of (some p) = p.permanent_url

-- The end of `fetch_feed`, when no other feed was found.
abbrev pub own_items : Option HttpFeed → Option (List Entry) → FeedFetchResult
own_items primary none = record no_items { etag = etag_of primary }
own_items primary (some entries) = record no_items {
  items = items_from_feed entries;
  etag = etag_of primary;
  last_modified = modified_of primary;
  permanent_url = permanent_of primary;
}

-- The statuses that `fetch_feed` passes on.
abbrev pub is_reported : ℕ → Bool
is_reported status = status == 410 || status == 429 || leb 500 status

abbrev pub has_status : (ℕ → Bool) → Option HttpFeed → Bool
has_status p none = false
has_status p (some f) = p f.status

-- A feed that was found on the page; none is an exception of the parser.
abbrev pub found_items :
    Option HttpFeed → Option (Option (List Entry)) → FeedFetchResult → Option FeedFetchResult
found_items secondary none own = none
found_items secondary (some none) own = some own
found_items secondary (some (some entries)) own = some (record no_items {
  items = items_from_feed entries;
  etag = etag_of secondary;
  last_modified = modified_of secondary;
})

-- `feedparser.parse` of a body, if there is one; the outer none is its exception.
abbrev pub parse_some : Web → Option Text → Option (Option (List Entry))
parse_some web none = some none
parse_some web (some body) = elim (web.parse body) [
  | none ↦ none
  | some entries ↦ some (some entries)
]

abbrev pub is_empty : Option (List Entry) → Bool
is_empty none = true
is_empty (some []) = true
is_empty (some (e ∷ l)) = false

abbrev pub secondary_items : Web → Option HttpFeed → FeedFetchResult → Option FeedFetchResult
secondary_items web secondary own =
    if has_status (λ n. n == 304) secondary
    then some (record no_items {
      not_modified = true;
      etag = etag_of secondary;
      last_modified = modified_of secondary;
    })
    else found_items secondary (parse_some web (body_of secondary)) own

abbrev pub search_page : Web → ℕ → Text → Option Text → FeedFetchResult → Option FeedFetchResult
search_page web call url none own = some own
search_page web call url (some d) own =
    if text_eq d url
    then some own
    else secondary_items web (load_feed_bytes web (suc call) d none none) own

abbrev pub primary_items :
    Web → ℕ → Text → Option HttpFeed → Option (Option (List Entry)) → Option FeedFetchResult
primary_items web call url primary none = none
primary_items web call url primary (some feed) =
    if is_empty feed
    then search_page web call url (or_opt (web.autodiscover call url) none) (own_items primary feed)
    else some (own_items primary feed)

abbrev status_of : Option HttpFeed → ℕ
status_of none = 0
status_of (some p) = p.status

-- `fetch_feed`, which uses up to two calls from the given number on.
unfoldable pub fetch_feed : Web → ℕ → Text → Option Text → Option Text → FeedFetchResult
unfolding load_feed_bytes items_from_feed
fetch_feed web call url etag last_modified =
    let primary = load_feed_bytes web call url etag last_modified in
    let answer = record no_items {
      etag = etag_of primary;
      last_modified = modified_of primary;
      status_code = some (status_of primary);
      permanent_url = permanent_of primary;
    } in
    if has_status (λ n. n == 304) primary
    then record answer { not_modified = true }
    else if has_status is_reported primary
    then answer
    else or_else (primary_items web call url primary (parse_some web (body_of primary))) no_items

-- `_remember_validators`
unfoldable pub remember_validators : Source → FeedFetchResult → Source
remember_validators source fetched = record source {
  http_etag = or_opt fetched.etag source.http_etag;
  http_last_modified = or_opt fetched.last_modified source.http_last_modified;
}

unfoldable pub apply_permanent_redirect : UrlLib → Source → Text → Option Text → Source
apply_permanent_redirect lib source fetched_url none = source
apply_permanent_redirect lib source fetched_url (some []) = source
apply_permanent_redirect lib source fetched_url (some (c ∷ permanent)) =
    let target = or_text (canonicalize_url lib (c ∷ permanent)) (c ∷ permanent) in
    let fetched = rstrip b'/' fetched_url in
    let feed = rstrip b'/' (or_else source.feed_url []) in
    if not (text_eq feed []) && text_eq feed fetched
    then record source { feed_url = some target }
    else if text_eq (rstrip b'/' source.url) fetched
    then record source { url = target }
    else source
