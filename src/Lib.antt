-- ===== src/Lib.antt =====
-- Weirling (the readprism repository): a reader that polls feeds, ranks their items for each account
-- and mails a digest; the hosted service adds plans, quotas and billing. This library models the parts
-- of the Python backend that keep state or decide, and proves what they promise.
--
-- Polling (Ingestion). Ingestion/Schedule: the rules on one feed's schedule, and Ingestion/Poll: their
-- application to a row, both of backend/app/services/ingestion/schedule.py (`apply_poll_result` and all
-- it calls; a row is a record of the columns of `sources` and `feeds` that scheduling reads or writes).
-- Ingestion/Feeds: the sharing of feeds by subscriptions, backend/app/services/ingestion/feeds.py
-- (`sync_feeds`, `mirror`). A poll writes a feed's row; `mirror` then copies it to each subscriber's.
--
-- Poll tasks (Ingestion). Ingestion/Items: the identity of an item, backend/app/services/ingestion/
-- canonicalize.py, simhash.py and backfill.py, of which Ingestion/Caps has the digest's cap per source.
-- Ingestion/Dispatch: the fetch of a feed, backend/app/services/ingestion/rss_parser.py (`fetch_feed`).
-- Ingestion/Dedup: what of it is new, backend/app/services/ingestion/dispatcher.py (`dispatch_source`).
-- Ingestion/Filing: the table of items.
-- Ingestion/Takedown: the list of blocked hosts and links, backend/app/services/takedown.py.
-- Ingestion/Poller, FeedPoll, FeedRun and ProQuery: backend/app/workers/tasks/ingest_feeds.py, from one
-- source's poll (`_ingest_source`) over its budgets (`_within_budgets`) to a round of the loop over the
-- shared feeds (`poll_feed`), which ends in Schedule's `apply_poll_result` and Feeds' `mirror_one`.
-- Abuse. Abuse/Budgets: the hourly and daily counters of backend/app/services/abuse.py. A poll charges
-- them; whether an account is paused or has Pro is asked of Entitlements.
--
-- Billing. Billing/Account: plans, prices and the account's columns; Billing/Events: webhooks
-- (`apply_update`), both of backend/app/services/billing/__init__.py. The event table, the accounts and
-- the product events are one store that is passed along. Billing/Pausing: the daily task of
-- backend/app/workers/tasks/paused_accounts.py, which reads what billing wrote.
-- Billing/Json, Lemonsqueezy, Paddle and Razorpay: the providers' adapters in
-- backend/app/services/billing, and Billing/Webhook: the endpoint `webhook` of backend/app/api/billing.py,
-- which checks a signature, parses the body and calls `apply_update`.
--
-- Entitlements. Entitlements/Quotas: plans, limits and totals; Entitlements/Allowance: the daily
-- allowances, both of backend/app/services/entitlements.py, over `cache_incr` of
-- backend/app/utils/cache.py. Entitlements/Concurrent interleaves the two calls of the store that each of
-- several requests makes.
-- Entitlements/Screen: what the plan screen shows (`usage`, and `plans_on_sale` of the billing file).
-- An account's plan is `effective_plan` of the billing model.
--
-- Ranking. Ranking/Interleaving: the team draft, and Ranking/Report: the report over all its digests,
-- both of backend/app/services/ranking/interleaving.py.
-- Digest. Digest/Sections: `SectionBuilder` of backend/app/services/digest/sections.py. Around it, of
-- backend/app/services/digest/builder.py: Digest/Candidates (the items that a build ranks, capped by
-- Ingestion/Caps), Digest/Stories (the cards of same-story items, with synthesis.py), Digest/Assembly (from
-- the ranking to the stored rows and the table of interactions), Digest/Summaries (model summaries,
-- counted by Entitlements/Allowance), Digest/Prompts and Digest/Learning.
--
-- Fetch. Fetch/Guard: `validate_public_url`, `safe_fetch` and `_read_capped` of
-- backend/app/utils/ssrf.py; a fetch is the list of the connections that it opens and its result.
--
-- Links. Links/Signed: the tokens of backend/app/utils/signed_links.py and unsubscribe.py.
--
-- Accounts. Accounts/Tokens: the signed tokens and the calls of backend/app/utils/cache.py that record
-- them; Accounts/Registration: who may register, backend/app/services/registration.py and
-- email_verification.py; Accounts/SignIn and Accounts/Sessions: the handlers of
-- backend/app/api/auth.py over the store of users and cache of Accounts/Replies; Accounts/Guard: who a
-- request comes from and what it may do (`get_current_user`); Accounts/Screen: the state of a browser
-- session. Accounts/Calls makes the handlers, the demo sign-in included, steps of one store, and Accounts/Registry is the abstract account of them, with a
-- registry of sessions and one of sign-in links. A plan's pause is asked of Entitlements.
--
-- RateLimit. RateLimit/Window: the limiter of backend/app/utils/ratelimit.py.
--
-- Each component's other files hold its theorems, and its Tests file runs it on concrete data.
-- Prelude has the shared types: native naturals, integers over them, lists, text as code points.
-- Url is the answer of `urllib.parse.urlparse`, which is a parameter, as are the random generators, the
-- provider's answers, the calls of Redis that fail, Python's address parsers, the resolver and the
-- network, feedparser, PyJWT, bcrypt, `uuid`, `json.loads`, BLAKE2s, HMAC, vectors and their closeness,
-- the queries of a digest build, its moving average of floats, and, in a poll, the answer of the
-- takedown list (Ingestion/Takedown). The calls of a poll to the network are numbered, so
-- that it may answer each differently.
--
-- Numbers: a moment is a count of microseconds (Python's `datetime`), in RateLimit one of seconds, which
-- is the grain of Redis; intervals are seconds. Fuel is used twice. The team draft's outer
-- loop has `count_new` of both rankings: as many rounds as there are items, which is the bound of the
-- source's own `while`. A fetch recurses on its number of hops. The bits of a simhash are counted with
-- the number itself as fuel, which halves at each step.
--
-- Not modelled: the database sessions, most HTTP endpoints (those of signing in are), mail texts, parsers of feeds and pages, the
-- learned ranking (floats), embeddings, language models, migrations, the web client and the
-- deployment files; they are input and output, third-party calls or arithmetic on floats.
pub mod Prelude
pub mod Url
pub mod Abuse
pub mod Accounts
pub mod Billing
pub mod Digest
pub mod Entitlements
pub mod Fetch
pub mod Ingestion
pub mod Links
pub mod Ranking
pub mod RateLimit
