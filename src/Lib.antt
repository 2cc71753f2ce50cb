-- ===== src/Lib.antt =====
-- FQDN routing rules on Dragonfly or Redis, from the Python code of fqdnrules/,
-- memoryBenchmarkScript/ and fast_api_snack_bar/.
-- The program keeps rules (fqdn1 pattern, port, fqdn2 pattern) in Redis hashes, and answers a
-- query with the most specific rule that covers it. A query's names are expanded into candidate
-- patterns; the candidates' keys are grouped by a hash tag, a script is sent for each group in one
-- pipeline, and the best of the groups' hits is the answer. The catch-all tiers are replicated
-- over buckets, whose keys carry tokens chosen so that they hash into different shares of the slot
-- space. Around the store stand benchmarks and scripts that diagnose a server; a web application
-- counts snack sales in a sorted set.
-- - Pattern models fqdnrules/fqdn_pattern.py: normalize_fqdn, hash_tag, is_bucketed_tag,
--   candidates, field_candidates. Names are lists of character codes. `strip` removes the white
--   space of Unicode. Names are taken to have no cased letters but those of ASCII: `lower` lowers
--   the letters from A to Z, and Python's also the others.
-- - Zlib has the CRC-32 that picks a query's bucket.
-- - Slots models fqdnrules/fqdn_slots.py: crc16, slot, key_slot, slot_range, the modulo test and
--   compute_bucket_table. The search runs on as many draws as the code's own cap allows, and
--   raises where the code does, so no other fuel is needed; `ceil_log` computes
--   math.ceil(math.log(x)) in whole numbers.
-- - Redis is the server as an interface: hash commands and their documented laws. Redis.Memory
--   shows that it can be met.
-- - Router models fqdnrules/fqdn_router.py: a RuleStore is its namespace and bucket count, the
--   server's state is passed along, put, put_many and delete build the commands that the code
--   pipelines, and lookup is the whole of the method. Router.Script is the Lua text.
-- - Router.Table is an abstract store without keys, tags, replicas or buckets, which
--   Router.Refines and Router.History relate to the code: an Entry is what a put writes, change is
--   one write, table_match is the answer by the order of the candidates alone. Router.Probe is
--   what the tools' queries meet in it.
-- - Benchmark models the key layout, the write phase, the query mix, the query file and the serial
--   query phase of fqdnrules/benchmark.py; Benchmark.Found and Benchmark.Missed put the two phases
--   together. The query file is read with universal newlines. The random generator is a parameter;
--   the loop of build_key_sizes runs on as many rounds as there are rules, which is enough as
--   every size is positive.
-- - CrossCheck models fqdnrules/go-benchmark/crosscheck_python.py: the rules, the queries and the
--   run. The keys of the namespace are taken as deleted: the server is flushed.
-- - Diagnose models what fqdnrules/diagnose_hot_tag_routing.py and
--   fqdnrules/diagnose_router_hotspot.py share, the reading of thread statistics and the report.
--   The percentages are compared as products of whole numbers, which is what the floats decide for
--   counts below 2 ** 46. Diagnose.Hotspot models the rules and the lookups of the latter; the
--   clock that ends a worker's loop is a number of rounds.
-- - Pinning models the comparison of two client lists and the verdict of
--   fqdnrules/diagnose_thread_pinning.py.
-- - Correlate models the two parsers and closest_sample of fqdnrules/correlate_iowait.py, on lists
--   of lines. The regular expressions are read as functions in Correlate.Rows and Correlate.Iso,
--   where the decimal digits of Unicode are a parameter. A datetime is its microseconds and
--   whether it has a time zone; the difference is exact, which total_seconds is below 2 ** 51
--   microseconds. Floats and the conversions int, float and datetime.fromisoformat are parameters,
--   and their ValueErrors are errors of the result.
-- - SnackBar models fast_api_snack_bar/app: leaderboard.py, the sale route of main.py, and the
--   worker. The sorted sets and the rate limiter are interfaces; SnackBar.Interleaved is a step
--   relation whose steps are the parts of the handlers between two awaits, and the handlers that
--   are cancelled or fail at one.
-- - Histogram models memoryBenchmarkScript/keyspace_size_histogram.py, on what MEMORY USAGE
--   answers for each key.
-- - MemoryBenchmark models the populate functions, the JSON documents, DEFAULT_CONFIGS,
--   build_configs, the counts of a sweep with one repeat, the loop of benchmark_instance and the
--   rows of print_sweep_report of memoryBenchmarkScript/memory_benchmark.py. A populate function
--   returns the batches that its pipeline sends; random values and the printing of JSON are
--   parameters.
-- - Prelude has what all of them share: the library names, the Boolean tests, lists, texts,
--   numerals, results, and the stable sort with the highest first.
-- - Tests runs the models at concrete inputs.
-- Errors are values of `Result`: a ValueError, an InvalidFqdn, an IndexError, a ZeroDivisionError,
-- a TypeError or a RuntimeError of the code. Ports and counts are natural numbers.
-- Not modelled: time, floats, printing, command lines, threads and sockets; the Go ports of the
-- store; the pages and the cache of the web application; the opening of connections and the
-- processes that the diagnosing scripts start.
pub mod Benchmark
pub mod CrossCheck
pub mod SnackBar
pub mod Pinning
pub mod Correlate
pub mod Diagnose
pub mod Histogram
pub mod MemoryBenchmark
pub mod Prelude
pub mod Tests
pub mod Zlib
pub mod Pattern
pub mod Slots
pub mod Redis
pub mod Router
