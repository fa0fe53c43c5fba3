-- ===== src/Ingestion/Takedown.antt =====
-- The takedown list of an instance: backend/app/services/takedown.py. The table is a list of rows with
-- unique keys. The SQL filters that the readers use are not in it.
use readprism.Prelude.{
  ℕ, Bool, true, false, ◌&&◌, ◌||◌, not, Option, none, some, List, [], ◌∷◌, ◌++◌, ◌==◌,
  if◌then◌else◌,
}
use readprism.Prelude.Text.{Text, codes, text_eq, starts_with, remove_prefix, lower, rstrip}
use readprism.Url.{UrlParts}
use readprism.Ingestion.Poll.{or_text}
use readprism.Ingestion.Items.{UrlLib, canonicalize_url}

-- `p in s`
abbrev contains : Text → Text → Bool
contains [] p = starts_with [] p
contains (c ∷ s) p = starts_with (c ∷ s) p || contains s p

abbrev has_scheme : Text → Bool
has_scheme s = contains s (codes "://")

abbrev lstrip_slash : Text → Text
lstrip_slash [] = []
lstrip_slash (c ∷ s) = if c == b'/' then lstrip_slash s else c ∷ s

-- A row of `blocked_urls`.
pub record BlockedUrl : Type 0 where
  pub url_key : Text
  pub reason : Text

abbrev cons_label : ℕ → List Text → List Text
cons_label c [] = (c ∷ []) ∷ []
cons_label c (t ∷ ts) = (c ∷ t) ∷ ts

-- `s.split(".")`
unfoldable pub labels : Text → List Text
labels [] = [] ∷ []
labels (c ∷ s) = let rest = labels s in if c == b'.' then [] ∷ rest else cons_label c rest

-- `".".join(parts)`
unfoldable pub join_labels : List Text → Text
join_labels [] = []
join_labels (t ∷ []) = t
join_labels (t ∷ u ∷ l) = t ++ (b'.' ∷ join_labels (u ∷ l))

-- The host and its parent domains of two labels and more.
unfoldable pub parents : List Text → List Text
parents [] = []
parents (p ∷ []) = []
parents (p ∷ q ∷ l) = join_labels (p ∷ q ∷ l) ∷ parents (q ∷ l)

abbrev pub or_host : List Text → Text → List Text
or_host [] host = host ∷ []
or_host (c ∷ l) host = c ∷ l

unfoldable pub find_key : Text → List BlockedUrl → Bool
find_key key [] = false
find_key key (b ∷ table) = text_eq b.url_key key || find_key key table

abbrev pub any_key : List Text → List BlockedUrl → Bool
any_key [] table = false
any_key (k ∷ keys) table = find_key k table || any_key keys table

-- Sets the reason of a key that is there, or adds a row.
unfoldable pub put_entry : Text → Text → List BlockedUrl → List BlockedUrl
put_entry key reason [] = record { url_key = key; reason = reason } ∷ []
put_entry key reason (b ∷ table) =
    if text_eq b.url_key key
    then record b { reason = reason } ∷ table
    else b ∷ put_entry key reason table

unfoldable pub delete_entry : Text → List BlockedUrl → List BlockedUrl
delete_entry key [] = []
delete_entry key (b ∷ table) = if text_eq b.url_key key then table else b ∷ delete_entry key table

module _ (lib : UrlLib) (urlparse : Text → UrlParts) where
  unfoldable pub normalize_host : Text → Text
  normalize_host host_str =
      let h = lower (lib.strip host_str) in
      let named = if has_scheme h then or_text (urlparse h).hostname h else h in
      rstrip b'/' (lstrip_slash (remove_prefix named (codes "www.")))

  unfoldable pub normalize_target : Text → Option Bool → Text
  unfolding normalize_host
  normalize_target target is_host =
      let raw = lib.strip target in
      let as_url = or_text (canonicalize_url lib raw) raw in
      let path = lib.strip (urlparse raw).path in
      let bare = (text_eq path [] || text_eq path (codes "/")) && text_eq (lib.query raw) [] in
      let guessed =
        if not (has_scheme raw)
        then normalize_host raw
        else if bare
        then normalize_host (or_text (urlparse raw).hostname raw)
        else as_url in
      if text_eq raw []
      then []
      else elim is_host [ none ↦ guessed | some host ↦ if host then normalize_host raw else as_url ]

  -- None is the ValueError.
  unfoldable pub add_blocked_entry :
      List BlockedUrl → Text → Text → Option Bool → Option (List BlockedUrl)
  unfolding put_entry
  add_blocked_entry table target reason is_host =
      let key = normalize_target target is_host in
      if text_eq key [] then none else some (put_entry key reason table)

  unfoldable pub remove_blocked_entry :
      List BlockedUrl → Text → Option Bool → Bool × List BlockedUrl
  unfolding find_key delete_entry
  remove_blocked_entry table target is_host =
      let key = normalize_target target is_host in
      if find_key key table then (true, delete_entry key table) else (false, table)

  unfoldable pub is_url_blocked : List BlockedUrl → Text → Bool
  unfolding labels parents
  is_url_blocked table url =
      let host = normalize_host url in
      not (text_eq url [])
      && (find_key (or_text (canonicalize_url lib url) url) table
          || find_key url table
          || any_key (or_host (parents (labels host)) host) table)
