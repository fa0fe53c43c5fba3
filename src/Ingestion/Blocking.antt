-- ===== src/Ingestion/Blocking.antt =====
-- What the takedown list of backend/app/services/takedown.py covers, and how its entries come and go.
use readprism.Prelude.{
  ◌≡◌, refl, sym, ap, ◌∙◌, Bool, true, false, Option, none, some, List, [], ◌∷◌, ◌++◌, arith,
  Bool-cases, inl, inr,
}
use readprism.Prelude.Text.{Text, text_eq, text_eq_iff}
use readprism.Url.{UrlParts}
use readprism.Ingestion.Items.{UrlLib}
use readprism.Ingestion.Takedown.{
  BlockedUrl, labels, join_labels, parents, or_host, find_key, any_key, put_entry, delete_entry,
  normalize_host, normalize_target, add_blocked_entry, remove_blocked_entry, is_url_blocked,
}

any_key-parents :
    (table : List BlockedUrl) (sub : List Text) (p q : Text) (l : List Text)
    → find_key (join_labels (p ∷ q ∷ l)) table ≡ true
    → any_key (parents (sub ++ (p ∷ q ∷ l))) table ≡ true
unfolding parents
any_key-parents table [] p q l found = ground (arith, found)
any_key-parents table (s ∷ []) p q l found = ground (arith, found)
any_key-parents table (s ∷ t ∷ sub) p q l found =
    ground (arith, any_key-parents table (t ∷ sub) p q l found)

any_key-or_host :
    (table : List BlockedUrl) (keys : List Text) (host : Text)
    → any_key keys table ≡ true
    → any_key (or_host keys host) table ≡ true
any_key-or_host table [] host h = cc
any_key-or_host table (k ∷ keys) host h = h

-- A block of a host covers the host and all its subdomains: whatever labels stand before the blocked
-- name of two labels and more, a URL there is blocked.
pub is_url_blocked_covers :
    (lib : UrlLib) (urlparse : Text → UrlParts) (table : List BlockedUrl) (url : Text)
    (sub : List Text) (p q : Text) (l : List Text)
    → text_eq url [] ≡ false
    → labels (normalize_host lib urlparse url) ≡ sub ++ (p ∷ q ∷ l)
    → find_key (join_labels (p ∷ q ∷ l)) table ≡ true
    → is_url_blocked lib urlparse table url ≡ true
unfolding is_url_blocked
is_url_blocked_covers lib urlparse table url sub p q l some_url named found =
    let host = normalize_host lib urlparse url in
    let keys = ap (λ x. any_key (or_host (parents x) host) table) named in
    let covered =
      any_key-or_host table (parents (sub ++ (p ∷ q ∷ l))) host
        (any_key-parents table sub p q l found) in
    ground (arith, some_url, keys ∙ covered)

some_injective : (a b : List BlockedUrl) → some a ≡ some b → a ≡ b
some_injective a b e = cc

find_key-put :
    (key reason : Text) (table : List BlockedUrl) → find_key key (put_entry key reason table) ≡ true
unfolding find_key put_entry
find_key-put key reason [] = ground (arith, text_eq_iff key key)
find_key-put key reason (b ∷ table) = ground (arith, find_key-put key reason table)

delete_entry-put :
    (key reason : Text) (table : List BlockedUrl)
    → find_key key table ≡ false
    → delete_entry key (put_entry key reason table) ≡ table
unfolding find_key put_entry delete_entry
delete_entry-put key reason [] fresh = ground (arith, text_eq_iff key key)
delete_entry-put key reason (b ∷ table) fresh =
    ground (arith, fresh, delete_entry-put key reason table (ground (arith, fresh)))

-- Removing the entry that was added for a target gives back the table as it was, if the target had no
-- entry before; a second removal finds nothing. While the entry is there, it is found under its key.
pub remove_blocked_entry-add :
    (lib : UrlLib) (urlparse : Text → UrlParts) (table after : List BlockedUrl)
    (target reason : Text) (is_host : Option Bool)
    → find_key (normalize_target lib urlparse target is_host) table ≡ false
    → add_blocked_entry lib urlparse table target reason is_host ≡ some after
    → (find_key (normalize_target lib urlparse target is_host) after ≡ true)
      × (remove_blocked_entry lib urlparse after target is_host ≡ (true, table))
      × (remove_blocked_entry lib urlparse table target is_host ≡ (false, table))
unfolding add_blocked_entry remove_blocked_entry
remove_blocked_entry-add lib urlparse table after target reason is_host fresh added =
    let key = normalize_target lib urlparse target is_host in
    elim (Bool-cases (text_eq key [])) [
      | inl empty ↦ absurd (let refused : none ≡ some after = rw empty at added in cc)
      | inr named ↦
          let same : put_entry key reason table ≡ after = some_injective _ _ (rw named at added) in
          let there = ap (find_key key) (sym same) ∙ find_key-put key reason table in
          let gone = ap (delete_entry key) (sym same) ∙ delete_entry-put key reason table fresh in
          (there, rw there (ap (λ t. (true, t)) gone), rw fresh refl)
    ]
