-- ===== src/Digest/Learning.antt =====
-- What a digest learns of its reader: `_adjust_digest_preferences` and `_learn_digest_length` of
-- backend/app/services/digest/builder.py, and backend/app/services/digest/length.py. The moving average
-- of floats is a parameter: it gives `round(factor * ema)` for the counts from oldest to newest.
use readprism.Prelude.{
  ℕ, ◌+◌, ◌-◌, ◌*◌, ◌≤◌, ◌≡◌, refl, Bool, true, false, ◌&&◌, Option, none, some, List, [], ◌∷◌, min,
  max, ltb, if◌then◌else◌, arith, take,
}

-- The columns of `users` that learning reads and writes.
pub record Preferences : Type 0 where
  pub digest_max_items : ℕ
  pub digest_length_locked : Bool
  pub serendipity_percentage : ℕ

abbrev pub length_floor : ℕ
length_floor = 5

abbrev pub length_cap : ℕ
length_cap = 30

abbrev pub ema_window : ℕ
ema_window = 10

-- `target_digest_length`, of the rounded product.
unfoldable pub target_digest_length : Option ℕ → ℕ → Bool → ℕ
target_digest_length none current locked = current
target_digest_length (some n) current locked =
    if locked then current else max length_floor (min length_cap n)

abbrev pub reverse_onto : List ℕ → List ℕ → List ℕ
reverse_onto l [] = l
reverse_onto l (x ∷ xs) = reverse_onto (x ∷ l) xs

-- `_learn_digest_length`: the counts of opened items, newest digest first. A failure of a query leaves
-- the row as it was.
unfoldable pub learn_digest_length : (List ℕ → Option ℕ) → List ℕ → Preferences → Preferences
unfolding target_digest_length
learn_digest_length rounded_ema [] p = p
learn_digest_length rounded_ema (n ∷ opened) p =
    let counts = reverse_onto [] (take ema_window (n ∷ opened)) in
    if p.digest_length_locked then p else record p {
      digest_max_items = target_digest_length (rounded_ema counts) p.digest_max_items false;
    }

-- The ratio `topics / total` against 3/10 and 6/10, as the code compares the floats.
unfoldable pub adjust_serendipity : ℕ → ℕ → ℕ → ℕ
adjust_serendipity topics total percentage =
    if ltb 10 total && ltb (10 * topics) (3 * total) && ltb percentage 25
    then min 25 (percentage + 3)
    else if ltb 10 total && ltb (6 * total) (10 * topics) && ltb 10 percentage
    then max 10 (percentage - 2)
    else percentage

-- `_adjust_digest_preferences`: the length, then the serendipity level, for the topics that were read
-- in two weeks. No row is no measurement.
unfoldable pub adjust_digest_preferences :
    (List ℕ → Option ℕ) → List ℕ → Option (ℕ × ℕ) → Preferences → Preferences
unfolding learn_digest_length adjust_serendipity
adjust_digest_preferences rounded_ema opened none p = learn_digest_length rounded_ema opened p
adjust_digest_preferences rounded_ema opened (some (topics, total)) p =
    let learned = learn_digest_length rounded_ema opened p in
    record learned {
      serendipity_percentage = adjust_serendipity topics total learned.serendipity_percentage;
    }

-- What learning may do to a row `p`, which becomes `q`.
pub record IsGentle (p q : Preferences) : Type 0 where
  pub pinned : p.digest_length_locked ≡ true → q.digest_max_items ≡ p.digest_max_items
  pub long : min 5 p.digest_max_items ≤ q.digest_max_items
  pub short : q.digest_max_items ≤ max 30 p.digest_max_items
  pub curious : min 10 p.serendipity_percentage ≤ q.serendipity_percentage
  pub focused : q.serendipity_percentage ≤ max 25 p.serendipity_percentage
  pub choice : q.digest_length_locked ≡ p.digest_length_locked

adjust_serendipity_bounds :
    (topics total percentage : ℕ)
    → (min 10 percentage ≤ adjust_serendipity topics total percentage)
      × (adjust_serendipity topics total percentage ≤ max 25 percentage)
unfolding adjust_serendipity
adjust_serendipity_bounds topics total percentage = ground arith

target_digest_length_bounds :
    (o : Option ℕ) (current : ℕ)
    → (min 5 current ≤ target_digest_length o current false)
      × (target_digest_length o current false ≤ max 30 current)
unfolding target_digest_length
target_digest_length_bounds none current = (omega arith, omega arith)
target_digest_length_bounds (some n) current = ground arith

untouched-IsGentle : (p : Preferences) → IsGentle p p
untouched-IsGentle p = record {
  pinned = λ e. refl;
  long = omega arith;
  short = omega arith;
  curious = omega arith;
  focused = omega arith;
  choice = refl;
}

if-IsGentle :
    (b : Bool) (p q : Preferences)
    → (b ≡ true → IsGentle p p)
    → (b ≡ false → IsGentle p q)
    → IsGentle p (if b then p else q)
if-IsGentle true p q h g = h refl
if-IsGentle false p q h g = g refl

learn-IsGentle :
    (rounded_ema : List ℕ → Option ℕ) (opened : List ℕ) (p : Preferences)
    → IsGentle p (learn_digest_length rounded_ema opened p)
unfolding learn_digest_length
learn-IsGentle rounded_ema [] p = untouched-IsGentle p
learn-IsGentle rounded_ema (n ∷ opened) p =
    let counts = reverse_onto [] (take ema_window (n ∷ opened)) in
    let (low, high) = target_digest_length_bounds (rounded_ema counts) p.digest_max_items in
    if-IsGentle p.digest_length_locked p _ (λ e. untouched-IsGentle p)
      λ free. record {
        pinned = λ e. absurd (let clash : false ≡ true = rw free at e in cc);
        long = low;
        short = high;
        curious = omega arith;
        focused = omega arith;
        choice = refl;
      }

-- Learning, whatever was read and opened and wherever the reader set the row, takes the percentage of
-- discoveries below 10 or above 25 only as far as it was there before, takes the length below 5 or above
-- 30 only as far as it was there before, and leaves a length that the reader fixed.
pub adjust_digest_preferences-IsGentle :
    (rounded_ema : List ℕ → Option ℕ) (opened : List ℕ) (read : Option (ℕ × ℕ)) (p : Preferences)
    → IsGentle p (adjust_digest_preferences rounded_ema opened read p)
unfolding adjust_digest_preferences
adjust_digest_preferences-IsGentle rounded_ema opened none p = learn-IsGentle rounded_ema opened p
adjust_digest_preferences-IsGentle rounded_ema opened (some (topics, total)) p =
    let learned = learn-IsGentle rounded_ema opened p in
    let level = (learn_digest_length rounded_ema opened p).serendipity_percentage in
    let (low, high) = adjust_serendipity_bounds topics total level in
    record {
      pinned = learned.pinned;
      long = learned.long;
      short = learned.short;
      curious = omega (arith, low, learned.curious);
      focused = omega (arith, high, learned.focused);
      choice = learned.choice;
    }
