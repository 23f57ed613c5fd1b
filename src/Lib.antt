-- ===== src/Lib.antt =====
-- Verification library of the DeFi transaction indexer.
--
-- The program follows an Ethereum chain: a worker asks a node for blocks, decodes their receipts
-- and traces, and writes rows to PostgreSQL; a follow loop repeats this, checks for reorgs first
-- and rolls the tables back; a dispatcher posts signed webhooks for failed transactions and
-- keeps a ledger of the deliveries. An HTTP API and a terminal client read the tables.
--
-- Which module models what (paths from the repository's root):
--   Reorg       crates/indexer/src/worker.rs: classify_fork, next_scan_depth, detect_fork. The
--               node is a function from a height to its answer.
--   Follow      crates/indexer/src/worker.rs: next_target, cap_range_to (Follow), process_chunk and
--               index_range (Follow.Ranges), one round of follow and the loop (Follow.Cycle),
--               a reorg and the round behind it (Follow.Recovery).
--               Follow.BlockStore is the interface to the tables: its laws are what the loop rests
--               on. What the node, the operator and the scheduler of the tasks do is given with a
--               round, so a list of rounds is an interleaving.
--   Db          crates/db/src/queries.rs and models.rs: the rows, the inserts with their keys and
--               foreign keys, what the columns take (Db.Schema, from migrations/), the checkpoint, recent_block_hashes and rollback_from_block
--               (Db, Db.Rows, Db.Category). Db.Process has the writes of process_block
--               (worker.rs) in their order and makes the tables a store of the follow loop; Db.Laws
--               fills the laws of that interface.
--   Alerts      crates/db/src/queries.rs: try_claim_alert_match, record_alert_delivery and the
--               anti-join of find_pending_alert_matches (Alerts), its joins and those of the
--               rate alerts (Alerts.Matches), the table of the subscriptions (Alerts.Subscriptions);
--               crates/indexer/src/alerts.rs: redact_urls (Alerts.Redact), dispatch_item
--               (Alerts.Dispatch), dispatch_rate_item (Alerts.Rate), dispatch_once and
--               dispatch_rate_once (Alerts.Once).
--   Api         crates/api/src: auth.rs and error.rs (Api), pagination.rs (Api.Pagination), and
--               routes/alerts.rs: the checks of a body (Api.Bodies) and the handlers of the alert
--               subscriptions (Api.Subscriptions). A list of calls, each with its header, its random
--               bytes and the state of the database, is a history of the API. Api.Delivered brings
--               it together with the dispatcher. routes/failed_tx.rs: the list of the failed
--               transactions, with its two queries (Api.FailedTx).
--   Validators  crates/db/src/validators.rs: ip_is_safe, webhook_url_is_safe.
--   Classifier  crates/decoder/src/classifier.rs: classify_error; worker.rs: the stored category.
--   Events      crates/decoder/src/events.rs: decode_log and its decoders.
--   Receipts    worker.rs: the part of process_block from the block and its receipts to the rows.
--               Db.Process writes these, and Db.Complete is about both together.
--   Abi         crates/decoder/src/abi.rs: decode_args.
--   Trace       crates/decoder/src/trace.rs: parse_call_frame, flatten_call_frame (Trace),
--               decode_revert_reason and decode_abi_string (Trace.Revert); worker.rs:
--               process_failed_txs (Trace.Failed), which brings them and the classifier together.
--   Tui         crates/tui/src: dto.rs (Tui.Dto), format.rs (Tui.Format), event.rs (Tui.Event),
--               app.rs: the state and its transitions (Tui.App, Tui.Update), the event loop with
--               its fetch tasks as a step relation (Tui.Run).
--   Prelude     names of the libraries, tests on numbers, lists, texts, machine words.
--   Examples    runs on small inputs.
--
-- Numbers: u64 and usize are natural numbers, with saturation and wrap-around written out where
-- the code has them; heights in the tables are natural numbers (the code casts to i64, so they
-- stand for heights below 2^63). The counters and the selections of the client, u32 and i32, are
-- natural numbers as well. Texts are lists of characters. Times are seconds.
--
-- Fuel: detect_fork runs on as much as there are local blocks: each turn widens its window by a
-- block at least. index_range runs on the end of the range plus two: each turn moves its start
-- forward. redact_urls runs on the length of its text: each turn takes at least a scheme. `spent`
-- and `none` mark the fuel's end. The decimal digits of a value run on 40, for values below 2^128;
-- those of an integer of an event on 80, for 256 bits, and those of a 64-bit number on 20. The
-- call tree is read back from flat frames on their number: each turn takes a frame.
--
-- An SQL statement is modelled by its meaning on the tables, one statement at a time; a
-- statement that a constraint refuses changes nothing. The tasks of a chunk run one after the
-- other in any order that the round gives, and the writes of a task that is aborted half way, when
-- another task of its chunk fails, are not represented; the tasks of a dispatcher's cycle end in any order
-- and with any result. A fetch task of the client answers at any time and with any result.
--
-- Parameters: the node's answers, the URL and address parsers, HMAC, hex and JSON encoding, the
-- lower case of characters outside ASCII, the receiver of a webhook, decoding of UTF-8 and hex,
-- the traces of the node, the answers of the database, what sol! and alloy make of the
-- events (their topics and the decoding of a log), the display of hashes, addresses and bytes, the
-- parser and the format of times, random bytes, the order of rows that a statement leaves open.
--
-- Not modelled: the loop around the dispatcher's cycles, the other read queries, the other routes
-- of the HTTP API, the drawing, the HTTP calls and the floating-point texts of the terminal
-- client, the web front end, configuration, retry and logging. Generated row ids are left out, but
-- for those of the subscriptions: nothing else that is modelled reads them.
pub mod Prelude
pub mod Reorg
pub mod Follow
pub mod Db
pub mod Alerts
pub mod Validators
pub mod Classifier
pub mod Trace
pub mod Examples
pub mod Abi
pub mod Api
pub mod Events
pub mod Receipts
pub mod Tui
