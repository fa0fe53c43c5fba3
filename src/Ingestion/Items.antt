-- ===== src/Ingestion/Items.antt =====
-- What an item of a feed is identified by: backend/app/services/ingestion/canonicalize.py, simhash.py and
-- backfill.py. `urllib`, BLAKE2s, hexadecimal numbers and the classes of characters are parameters.
use Prim.Native.Nat.{bit_xor}
use readprism.Prelude.{
  ℕ, zero, suc, ◌+◌, ◌*◌, ◌/◌, ◌%◌, ◌^◌, Bool, true, false, ◌&&◌, ◌||◌, not, Option, none, some,
  List, [], ◌∷◌, ◌++◌, ltb, leb, ◌==◌, if◌then◌else◌, or_else, length, take,
}
use readprism.Prelude.Text.{Text, codes, text_eq, starts_with, remove_prefix, lower, rstrip, member}
use readprism.Url.{UrlParts}

-- An item as a feed's parser yields it, of the fields that storing it reads.
pub record RawItem : Type 0 where
  pub url : Text
  pub title : Text
  pub full_text : Option Text
  pub guid : Option Text
  pub published_at : Option ℕ
  pub simhash : Option Text

-- `urllib.parse`. `urlparse` is none where it, or reading the port, raises ValueError.
pub record UrlLib : Type 0 where
  pub urlparse : Text → Option UrlParts
  pub parse_qsl : Text → List (Text × Text)
  pub urlencode : List (Text × Text) → Text
  pub urlunparse : Text → Text → Text → Text → Text
  pub query : Text → Text
  pub strip : Text → Text
  pub show : ℕ → Text

abbrev tracking : List Text
tracking =
    codes "utm_source"
    ∷ codes "utm_medium"
    ∷ codes "utm_campaign"
    ∷ codes "utm_term"
    ∷ codes "utm_content"
    ∷ codes "utm_id"
    ∷ codes "fbclid"
    ∷ codes "gclid"
    ∷ codes "mc_cid"
    ∷ codes "mc_eid"
    ∷ codes "igshid"
    ∷ []

unfoldable pub is_tracking : Text → Bool
is_tracking key = starts_with (lower key) (codes "utm_") || member (lower key) tracking

unfoldable pub keep_params : List (Text × Text) → List (Text × Text)
unfolding is_tracking
keep_params [] = []
keep_params ((k, v) ∷ l) = if is_tracking k then keep_params l else (k, v) ∷ keep_params l

abbrev has_colon : Text → Bool
has_colon [] = false
has_colon (c ∷ t) = (c == b':') || has_colon t

abbrev bracketed : Text → Text
bracketed host = if has_colon host then codes "[" ++ (host ++ codes "]") else host

abbrev or_default : Text → Text → Text
or_default [] d = d
or_default (c ∷ t) d = c ∷ t

-- The default port of a scheme.
abbrev default_port : Text → Option ℕ
default_port scheme =
    if text_eq scheme (codes "https")
    then some 443
    else if text_eq scheme (codes "http")
    then some 80
    else none

abbrev same_port : Option ℕ → ℕ → Bool
same_port none p = false
same_port (some q) p = q == p

abbrev with_port : UrlLib → Text → Text → Option ℕ → Text
with_port lib scheme host none = host
with_port lib scheme host (some p) =
    if p == 0 || same_port (default_port scheme) p then host else host ++ (codes ":" ++ lib.show p)

abbrev clean_path : Text → Text
clean_path [] = codes "/"
clean_path (c ∷ p) = if text_eq (c ∷ p) (codes "/") then c ∷ p else rstrip b'/' (c ∷ p)

abbrev canonical : UrlLib → Text → Option UrlParts → Option Text
canonical lib url none = none
canonical lib url (some parsed) =
    let host = lower (or_else parsed.hostname []) in
    let scheme = lower (or_default parsed.scheme (codes "https")) in
    if text_eq host []
    then none
    else some (
        lib.urlunparse scheme
          (with_port lib scheme (bracketed (remove_prefix host (codes "www."))) parsed.port)
          (clean_path parsed.path)
          (lib.urlencode (keep_params (lib.parse_qsl (lib.query (lib.strip url))))))

unfoldable pub canonicalize_url : UrlLib → Text → Option Text
unfolding keep_params
canonicalize_url lib url = canonical lib url (lib.urlparse (lib.strip url))

-- `isalnum`, `lower`, BLAKE2s over 8 bytes, and hexadecimal numbers.
pub record HashLib : Type 0 where
  pub is_alnum : ℕ → Bool
  pub lower : Text → Text
  pub digest : Text → ℕ
  pub show_hex : ℕ → Text
  pub read_hex : Text → Option ℕ

-- `_tokens`, with the token that is read.
unfoldable pub tokens_from : HashLib → Text → Text → List Text
tokens_from lib current [] = if text_eq current [] then [] else current ∷ []
tokens_from lib current (c ∷ t) =
    let longer = tokens_from lib (current ++ (c ∷ [])) t in
    let next = tokens_from lib [] t in
    if lib.is_alnum c then longer else if text_eq current [] then next else current ∷ next

abbrev or_empty : List Text → List Text
or_empty [] = codes "empty" ∷ []
or_empty (t ∷ l) = t ∷ l

unfoldable pub tokens : HashLib → Text → List Text
unfolding tokens_from
tokens lib text = or_empty (tokens_from lib [] (lib.lower text))

-- How many tokens have a bit set.
unfoldable pub ones : HashLib → ℕ → List Text → ℕ
ones lib index [] = 0
ones lib index (t ∷ l) = (lib.digest t / 2 ^ index) % 2 + ones lib index l

-- The bits below `n` whose weight is positive: more tokens have them than not.
unfoldable pub packed : HashLib → List Text → ℕ → ℕ
unfolding ones
packed lib l zero = 0
packed lib l (suc n) = packed lib l n + (if ltb (length l) (2 * ones lib n l) then 2 ^ n else 0)

unfoldable pub simhash_text : HashLib → Text → Text
unfolding tokens packed
simhash_text lib text = lib.show_hex (packed lib (tokens lib text) 64)

-- `bit_count`, with fuel.
unfoldable pub bit_count_from : ℕ → ℕ → ℕ
bit_count_from zero n = 0
bit_count_from (suc f) n = let rest = n % 2 + bit_count_from f (n / 2) in if n == 0 then 0 else rest

abbrev distance : Option ℕ → Option ℕ → ℕ
distance (some a) (some b) = bit_count_from (bit_xor a b) (bit_xor a b)
distance _ _ = 64

unfoldable pub hamming : HashLib → Text → Text → ℕ
unfolding bit_count_from
hamming lib left right = distance (lib.read_hex left) (lib.read_hex right)

unfoldable pub is_near_duplicate : HashLib → Option Text → Option Text → Bool
unfolding hamming
is_near_duplicate lib none right = false
is_near_duplicate lib (some l) none = false
is_near_duplicate lib (some l) (some r) =
    not (text_eq l []) && not (text_eq r []) && leb (hamming lib l r) 3

-- `newest_n`. The dates of items carry a time zone and `datetime.min` has none, so a sort that meets
-- both raises TypeError: none.
abbrev any_dated : List RawItem → Bool
any_dated [] = false
any_dated (i ∷ l) = elim i.published_at [ none ↦ any_dated l | some t ↦ true ]

abbrev any_undated : List RawItem → Bool
any_undated [] = false
any_undated (i ∷ l) = elim i.published_at [ none ↦ true | some t ↦ any_undated l ]

abbrev pub stamp : RawItem → ℕ
stamp i = or_else i.published_at 0

unfoldable pub insert_newest : RawItem → List RawItem → List RawItem
insert_newest i [] = i ∷ []
insert_newest i (j ∷ l) =
    let rest = insert_newest i l in if leb (stamp j) (stamp i) then i ∷ j ∷ l else j ∷ rest

unfoldable pub newest_first : List RawItem → List RawItem
unfolding insert_newest
newest_first [] = []
newest_first (i ∷ l) = insert_newest i (newest_first l)

unfoldable pub newest_n : List RawItem → ℕ → Option (List RawItem)
unfolding newest_first
newest_n items limit =
    if limit == 0 || leb (length items) limit
    then some items
    else if any_dated items && any_undated items
    then none
    else some (take limit (newest_first items))
