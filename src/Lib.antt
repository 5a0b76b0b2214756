-- ===== src/Lib.antt =====
-- KAIROS, the analysis engine of the URIM platform: the checks on its datasets, the half-time
-- markets, the opportunities and suggestions that are made of them, how finished matches settle
-- them, the repository that loads them, the journal that remembers them, the plan by which matches
-- are looked up at the provider, and the rate limiter.
--
-- The program (apps/api/app/modules/kairos) works on a snapshot of what the sports provider
-- reported about one upcoming match. A `KairosMatchDataset` is refused unless it is temporally
-- sound and about that match alone; `analyze_half_time_markets` estimates six markets from it;
-- `KairosOpportunityService.analyze` ranks what is eligible together with a double chance and
-- hands out one opportunity; `build_kairos_suggestion` makes the daily suggestion of the match's
-- 1X2 probabilities; after the match `evaluate_market_outcome` settles the markets. The journal
-- keeps what was handed out and how it ended. The public routes are throttled by a sliding window
-- in Redis.
--
-- Files and the code they model:
--   Observation, Match: the records and the score methods of kairos/models.py. Identifiers are
--   natural numbers; goals are integers, since the code tests their sign.
--   Dataset/Checks: `source_observations`, `validate_temporal_integrity` and
--   `validate_data_integrity` of kairos/models.py, each `raise` a constructor of `KairosError`.
--   A dict is a list of values under distinct keys, in insertion order.
--   Market: the nine markets of kairos/opportunity_config.py and `evaluate_market_outcome` of
--   kairos/journal.py.
--   HalfTime/Model, HalfTime/Scoring, HalfTime/Analyze: kairos/half_time.py, the constants of
--   kairos/opportunity_config.py; HalfTime/Scoring also has the fields and the
--   validator of `KairosHalfTimeMarketAnalysis` of kairos/schemas.py, which `_analysis` constructs.
--   Opportunity/Model, Opportunity/Service: kairos/opportunities.py, with the fields of
--   `KairosOpportunityCandidate`; Opportunity/Schema has the fields and the validator of
--   `KairosMatchOpportunity`, both of kairos/schemas.py. Response holds the fields of the
--   analysis response that these read.
--   Suggestion/Model, Suggestion/Service: kairos/suggestions.py; Suggestion/Contract has the
--   validator of `KairosSuggestion` of kairos/schemas.py.
--   Repository/Rows, Repository/Latest, Repository/Queries, Repository/Load: kairos/repository.py
--   over the observation tables of db/models.py, each a list of rows. A statement is read as what
--   it selects, how it ranks and sorts, and its limit. `ROW_NUMBER` may take any of the rows that
--   tie; the model takes the first. Repository/Stored has the constraints of the tables and, apart
--   from them, the flags that a load can read; Repository/Errors has what it raises on others.
--   Journal/Store, Journal/Model, Journal/Service, Journal/Metrics: the journal of
--   kairos/journal.py and its two tables of db/models.py, with their unique columns and CHECK
--   constraints. `now` is the time of the server; columns of fixed precision hold the values as
--   they are given.
--   Discovery/Model, Discovery/Plan, Discovery/Funnel, Discovery/Recent: the plan, the funnel and the
--   selection of recent matches of sports_data/discovery.py. A field of another type than the code
--   asks for is `none`.
--   RateLimit: the script and `retry_after` of kairos/rate_limit.py; Redis' sorted set is the
--   interface `SortedSet`, and `SortedSetLaws` names what it is relied on for.
--   Base and its children: tests, lists, results, text, sorting, integers and datetimes.
--   Fixture: the match that the tests share.
--
-- A constructor of kairos/schemas.py whose field limits are not met is an error result, as are the
-- TypeErrors of comparisons between a naive and an aware datetime in the journal and the discovery.
--
-- Python's floats are the interface `Float` of Float, whose `Laws` name the facts of IEEE doubles
-- (without NaN) that a theorem uses; Float/Rational shows that fractions satisfy them. SHA-256 of
-- a JSON text is a parameter `digest` on the structured payload. A datetime is its instant in
-- microseconds and whether it has an offset. Every loop over a list is structural recursion on it.
-- The `while` loop of Discovery/Recent runs on fuel, one pass more than there are rows, which is
-- proved enough. Texts for people are constructors.
--
-- Not modelled: the probabilities of the analysis service, the performance report, the summary of a
-- day in sports_data/discovery.py, normalisation and synchronisation of what the provider sends,
-- the clients of Redis and of the provider, and the web application. They are large, or mostly calls of other libraries.
pub mod Base
mod Fixture
pub mod Observation
pub mod Match
pub mod Dataset
pub mod Market
pub mod Float
pub mod HalfTime
pub mod Response
pub mod Opportunity
pub mod Suggestion
pub mod RateLimit
pub mod Repository
pub mod Journal
pub mod Discovery
