-- ===== src/Digest/Sections.antt =====
-- The sections of a digest: backend/app/services/digest/sections.py. Items, creators and topics are
-- named by their ids.
use readprism.Prelude.Int.{ℤ, pos_part}
use readprism.Prelude.{
  mem, length, ℕ, ◌+◌, ◌-◌, ◌*◌, ◌/◌, min, max, Bool, true, false, ◌&&◌, ◌||◌, not, Option, none,
  some, List, [], ◌∷◌, ◌++◌, leb, ◌==◌, if◌then◌else◌, or_else,
}

-- A ranked row: the item, its PRS in the order of the floats, and the flags of its breakdown.
pub record Row : Type 0 where
  pub id : ℕ
  pub prs : ℤ
  pub creator : Option ℕ
  pub reading_time_minutes : Option ℕ
  pub topic_clusters : List ℕ
  pub from_discovery : Bool
  pub exploration : Bool
  pub serendipity_candidate : Bool

pub data Name : Type 0 where
  lead creator deep_reads more discovery : Name

abbrev pub same_name : Name → Name → Bool
same_name lead lead = true
same_name creator creator = true
same_name deep_reads deep_reads = true
same_name more more = true
same_name discovery discovery = true
same_name _ _ = false

pub record Section : Type 0 where
  pub items : List Row
  pub max_items : ℕ

abbrev pub is_full : Section → Bool
is_full s = leb s.max_items (length s.items)

abbrev pub total_of : (Name → ℕ) → ℕ
total_of f = f lead + (f creator + (f deep_reads + (f more + f discovery)))

-- What the passes of `build` share: the sections, `used_ids` and `topic_counts`.
pub record Board : Type 0 where
  pub sections : Name → Section
  pub used_ids : List ℕ
  pub topic_counts : ℕ → ℕ

abbrev pub set_section : Name → Section → (Name → Section) → Name → Section
set_section n s f m = if same_name n m then s else f m

abbrev pub count_topic : ℕ → List ℕ → ℕ
count_topic t [] = 0
count_topic t (u ∷ l) = (if t == u then 1 else 0) + count_topic t l

-- `_update_topics`
abbrev pub update_topics : Row → (ℕ → ℕ) → ℕ → ℕ
update_topics r counts t = counts t + count_topic t r.topic_clusters

-- `add`, and what the passes do when it succeeds.
unfoldable pub add : Name → Row → Board → Board
add n r b = if is_full (b.sections n) then b else record {
  sections =
      set_section n
        (record { items = (b.sections n).items ++ (r ∷ []); max_items = (b.sections n).max_items })
        b.sections;
  used_ids = r.id ∷ b.used_ids;
  topic_counts = update_topics r b.topic_counts;
}

abbrev pub any_full : ℕ → (ℕ → ℕ) → List ℕ → Bool
any_full max_per_topic counts [] = false
any_full max_per_topic counts (t ∷ l) =
    leb max_per_topic (counts t) || any_full max_per_topic counts l

-- `_check_saturation`, the other way round.
unfoldable pub saturated : ℕ → Board → Row → Bool
saturated max_per_topic b r = any_full max_per_topic b.topic_counts r.topic_clusters

abbrev pub is_lead_eligible : Row → Bool
is_lead_eligible r = not r.exploration

abbrev pub is_deep_read_eligible : Row → Bool
is_deep_read_eligible r = leb 8 (or_else r.reading_time_minutes 0)

abbrev pub is_discovery_eligible : Row → Bool
is_discovery_eligible r = r.from_discovery || r.serendipity_candidate

-- The first pass. The break stands after every row.
unfoldable pub fill_discovery : List Row → Board → Board
fill_discovery [] b = b
fill_discovery (r ∷ l) b =
    let b' =
      (if is_discovery_eligible r && not (mem r.id b.used_ids) then add discovery r b else b) in
    let rest = fill_discovery l b' in if is_full (b'.sections discovery) then b' else rest

-- The lead and the deep reads: the break stands after an item that passed the guards.
unfoldable pub fill : ℕ → Name → (Row → Bool) → List Row → Board → Board
fill max_per_topic n eligible [] b = b
fill max_per_topic n eligible (r ∷ l) b =
    let b' = add n r b in
    let rest = fill max_per_topic n eligible l b' in
    let skipped = fill max_per_topic n eligible l b in
    if mem r.id b.used_ids || not (eligible r) || saturated max_per_topic b r
    then skipped
    else if is_full (b'.sections n)
    then b'
    else rest

-- A creator's rows, at most two, and `creator_best`, from 0.0 up.
pub record Group : Type 0 where
  pub creator : ℕ
  pub rows : List Row
  pub best : ℕ

-- A row under its creator, unless the creator has two.
unfoldable pub put_row : ℕ → Row → List Group → List Group
put_row c r [] = record { creator = c; rows = r ∷ []; best = pos_part r.prs } ∷ []
put_row c r (g ∷ gs) =
    let rest = put_row c r gs in
    if g.creator == c
    then (if leb 2 (length g.rows)
        then g
        else record g { rows = g.rows ++ (r ∷ []); best = max g.best (pos_part r.prs) })
      ∷ gs
    else g ∷ rest

abbrev pub put_under : Option ℕ → Row → List Group → List Group
put_under none r groups = groups
put_under (some c) r groups = put_row c r groups

unfoldable pub gather : ℕ → Board → List Row → List Group → List Group
gather max_per_topic b [] groups = groups
gather max_per_topic b (r ∷ l) groups = gather max_per_topic b l (
    if mem r.id b.used_ids || saturated max_per_topic b r
    then groups
    else put_under r.creator r groups)

-- `sorted(creator_rows, key=..., reverse=True)`, which is stable.
unfoldable pub insert_group : Group → List Group → List Group
insert_group g [] = g ∷ []
insert_group g (h ∷ gs) =
    let rest = insert_group g gs in if leb h.best g.best then g ∷ h ∷ gs else h ∷ rest

unfoldable pub best_first : List Group → List Group
best_first [] = []
best_first (g ∷ gs) = insert_group g (best_first gs)

abbrev pub rows_of : List Group → List Row
rows_of [] = []
rows_of (g ∷ gs) = g.rows ++ rows_of gs

-- The loop that emits the creators' rows.
unfoldable pub emit : ℕ → List Row → Board → Board
emit max_per_topic [] b = b
emit max_per_topic (r ∷ l) b =
    emit max_per_topic l (if saturated max_per_topic b r then b else add creator r b)

unfoldable pub fill_creators : ℕ → List Row → Board → Board
fill_creators max_per_topic ranked b =
    emit max_per_topic (rows_of (best_first (gather max_per_topic b ranked []))) b

-- The last pass. The break stands before the guards.
unfoldable pub fill_more : ℕ → List Row → Board → Board
fill_more max_per_topic [] b = b
fill_more max_per_topic (r ∷ l) b =
    let b' =
      (if mem r.id b.used_ids || is_discovery_eligible r || saturated max_per_topic b r
        then b
        else add more r b) in
    let rest = fill_more max_per_topic l b' in if is_full (b.sections more) then b else rest

abbrev pub placed : Board → ℕ
placed b = total_of (λ n. length (b.sections n).items)

unfoldable pub set_more : ℕ → Board → Board
set_more cap b = record b {
  sections =
      set_section more (record { items = (b.sections more).items; max_items = cap }) b.sections;
}

-- `SectionBuilder`. The share of a topic is `math.floor(total_items * max_topic_pct)`, of a float.
pub record SectionBuilder : Type 0 where
  pub total_items : ℕ
  pub serendipity_pct : ℕ
  pub topic_share : ℕ

abbrev pub discovery_count : SectionBuilder → ℕ
discovery_count s = max 1 ((s.total_items * s.serendipity_pct + 99) / 100)

-- The rounding of the float matters below 5 only, where no half is rounded down.
abbrev pub lead_count : SectionBuilder → ℕ
lead_count s = max 1 (min 5 (min s.total_items (max 3 ((s.total_items * 35 + 50) / 100))))

abbrev pub max_of : SectionBuilder → Name → ℕ
max_of s lead = lead_count s
max_of s creator = max 1 (s.total_items / 4)
max_of s deep_reads = max 1 (s.total_items / 5)
max_of s more = 0
max_of s discovery = discovery_count s

abbrev pub start_board : SectionBuilder → Board
start_board s = record {
  sections = λ n. record { items = []; max_items = max_of s n };
  used_ids = [];
  topic_counts = λ t. 0;
}

-- The four passes before the size of `more` is known.
unfoldable pub build_main : SectionBuilder → List Row → Board
build_main s ranked =
    let max_per_topic = max 1 s.topic_share in
    fill max_per_topic deep_reads is_deep_read_eligible ranked (
      fill_creators max_per_topic ranked
        (fill max_per_topic lead is_lead_eligible ranked (fill_discovery ranked (start_board s))))

unfoldable pub build : SectionBuilder → List Row → Board
build s ranked =
    let b = build_main s ranked in
    fill_more (max 1 s.topic_share) ranked (set_more (s.total_items - placed b) b)
