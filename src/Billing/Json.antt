-- ===== src/Billing/Json.antt =====
-- JSON values as `json.loads` gives them, read the way the provider adapters of
-- backend/app/services/billing read them. A number is its Python text and whether it is not zero.
use readprism.Prelude.{ℕ, Bool, true, false, Option, none, some, [], ◌∷◌, ◌++◌, ◌==◌, if◌then◌else◌}
use readprism.Prelude.Int.{ℤ}
use readprism.Prelude.Text.{Text, codes, text_eq}

mutual
  pub data Json : Type 0 where
    null : Json
    bool : Bool → Json
    number : Text → Bool → Json
    text : Text → Json
    array : Items → Json
    object : Fields → Json

  pub data Items : Type 0 where
    nil : Items
    cons : Json → Items → Items

  pub data Fields : Type 0 where
    end : Fields
    field : Text → Json → Fields → Fields

-- What a parser answers: a value, a ValueError, TypeError or KeyError, or another exception.
pub data Fallible {ℓ} (A : Type ℓ) : Type ℓ where
  ok : A → Fallible A
  invalid crashed : Fallible A

module _ {ℓ κ} {A : Type ℓ} {B : Type κ} where
  infixl 20 ◌>>=◌
  unfoldable pub ◌>>=◌ : Fallible A → (A → Fallible B) → Fallible B
  ok a >>= f = f a
  invalid >>= f = invalid
  crashed >>= f = crashed

-- Python's libraries. `read_uuid` and `fromisoformat` are none for a ValueError, and a date without a
-- time zone is read in UTC; `fromtimestamp` reads the text of a number of seconds, none where it raises;
-- `show` is `str` of a value that is no text; `digest` is the hexadecimal
-- SHA-256, and `hmac` the hexadecimal HMAC-SHA256 of a key and a message.
pub record Library : Type 0 where
  pub loads : Text → Option Json
  pub show : Json → Text
  pub read_uuid : Text → Option ℕ
  pub fromisoformat : Text → Option ℕ
  pub read_int : Text → Option ℤ
  pub fromtimestamp : Text → Option ℕ
  pub isdigit : Text → Bool
  pub digest : Text → Text
  pub hmac : Text → Text → Text

abbrev pub truthy : Json → Bool
truthy null = false
truthy (bool b) = b
truthy (number t nonzero) = nonzero
truthy (text []) = false
truthy (text (c ∷ t)) = true
truthy (array nil) = false
truthy (array (cons j l)) = true
truthy (object end) = false
truthy (object (field k j l)) = true

unfoldable pub lookup : Text → Fields → Json
lookup key end = null
lookup key (field k j l) = if text_eq k key then j else lookup key l

-- `j.get(key)`, an AttributeError on what is no dictionary.
abbrev pub get : Json → Text → Fallible Json
get (object l) key = ok (lookup key l)
get _ key = crashed

-- `j or {}`
abbrev pub or_dict : Json → Json
or_dict j = if truthy j then j else object end

-- `str(j)`
abbrev pub str : Library → Json → Text
str lib (text t) = t
str lib j = lib.show j

-- `str(j or "")`
abbrev pub str_or_empty : Library → Json → Text
str_or_empty lib j = if truthy j then str lib j else []

-- `str(j) if j else None`
abbrev pub str_if : Library → Json → Option Text
str_if lib j = if truthy j then some (str lib j) else none

abbrev pub is_text : Json → Text → Bool
is_text (text t) s = text_eq t s
is_text _ s = false

-- A value that is stored as it is: a text or null. The column refuses any other when it is written; the
-- model refuses it when the body is read, so that a body whose value is of another kind fails here also
-- where the event is not applied.
abbrev pub column : Json → Fallible (Option Text)
column null = ok none
column (text t) = ok (some t)
column _ = crashed

-- `s.replace("Z", "+00:00")`
unfoldable pub replace_z : Text → Text
replace_z [] = []
replace_z (c ∷ t) = if c == b'Z' then codes "+00:00" ++ replace_z t else c ∷ replace_z t

abbrev pub or_invalid : Option ℕ → Fallible (Option ℕ)
or_invalid none = invalid
or_invalid (some t) = ok (some t)

-- `_dt`
abbrev pub date : Library → Json → Fallible (Option ℕ)
date lib j = if truthy j then or_invalid (lib.fromisoformat (replace_z (str lib j))) else ok none

-- `uuid.UUID(str(j)) if j else None`, with None for a ValueError.
abbrev pub user_of : Library → Json → Option ℕ
user_of lib j = if truthy j then lib.read_uuid (str lib j) else none
