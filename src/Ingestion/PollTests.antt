-- ===== src/Ingestion/PollTests.antt =====
-- The theorems of the poll tasks at concrete feeds and accounts.
use readprism.Prelude.{
  All, ◌+◌, ◌≡◌, ◌⊎◌, refl, true, false, ◌&&◌, not, none, some, List, [], ◌∷◌, mem, arith,
}
use readprism.Prelude.Text.{codes}
use readprism.Ingestion.Poll.{is_dead_reddit_feed, is_reddit_feed}
use readprism.Ingestion.Dedup.{new_items, StoredRow}
use readprism.Ingestion.Fresh.{AreNewTo, AreApart, new_items-AreNew}
use readprism.Ingestion.Filing.{insert_items}
use readprism.Ingestion.Uniqueness.{IsUnique, ConflictsWith, insert_items_lem}
use readprism.Ingestion.FeedPoll.{within_budgets, has_paused, user_ids, any_pro}
use readprism.Ingestion.FeedRun.{poll_feed}
use readprism.Ingestion.Charges.{one_if, within_budgets_fetches}
use readprism.Ingestion.Priority.{IsInStep, subscriptions, poll_feed-AreInStep}
use readprism.Ingestion.ProQuery.{Follow, pro_followed, readers, pro_followed_is_any}
use readprism.Abuse.Budgets.{hour}
use readprism.Ingestion.Samples.{
  today, config, accounts, blog_row, blog, followers, no_counts, always, at_blog, urls, hashes,
  items, table, missing, clock,
}

within_budgets_fetches_example :
    (within_budgets config always at_blog today accounts followers blog_row no_counts).store.fetches
      1
      (hour today)
    ≡ 0 + one_if (mem 1 (user_ids followers) && not (has_paused config today accounts 1))
within_budgets_fetches_example =
    within_budgets_fetches config today accounts always (λ n. refl) refl (omega arith) at_blog
      blog_row followers no_counts 1

poll_feed-AreInStep_example :
    let after =
      poll_feed config always at_blog 14
        (λ n. n)
        (λ n. n ∷ [])
        missing
        urls
        hashes
        (λ url. false)
        20
        clock
        accounts
        followers
        blog
        table
        no_counts
        (codes "raised") in
    All (IsInStep after.feed.feed) after.subs × (subscriptions after.subs ≡ subscriptions followers)
poll_feed-AreInStep_example =
    poll_feed-AreInStep config always at_blog 14 (λ n. n) (λ n. n ∷ []) missing urls hashes
      (λ url. false) 20 clock accounts table followers blog no_counts (codes "raised")

abbrev rows : List Follow
rows =
    record { feed_id = some 7; user_id = 1; is_active = true }
    ∷ record { feed_id = none; user_id = 3; is_active = true }
    ∷ []

pro_followed_is_any_example :
    pro_followed config 7 today accounts rows
    ≡ some (any_pro config today accounts (readers 7 rows))
pro_followed_is_any_example = pro_followed_is_any config today refl 7 accounts rows

abbrev filed : List StoredRow
filed = record { url = codes "/a"; guid = none; simhash = none } ∷ []

new_items-AreNew_example :
    AreNewTo urls hashes filed (new_items urls hashes filed items)
    × AreApart hashes (new_items urls hashes filed items)
new_items-AreNew_example = new_items-AreNew urls hashes filed items

table-IsUnique : IsUnique table
unfolding IsUnique ConflictsWith
table-IsUnique = (λ h. absurd h, tt)

insert_items_lem_example :
    let after = (insert_items (λ url. false) table table).1 in
    IsUnique after
    × All (λ c. (false ≡ true) ⊎ ConflictsWith c after) table
    × (insert_items (λ url. false) table after ≡ (0, after))
insert_items_lem_example = insert_items_lem (λ url. false) table table (table-IsUnique)

still_blog : is_dead_reddit_feed at_blog (codes "https://blog.example/feed") today ≡ false
unfolding is_dead_reddit_feed is_reddit_feed
still_blog = refl
