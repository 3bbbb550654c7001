-- ===== src/Lib.antt =====
-- Verification of trustguard-rag: the job protocol of the ingest workers, the store of the crawler, the
-- clean-up of documents, the hybrid search and the answers with their citations.
--
-- The program is a service that ingests documents into knowledge bases and searches them. Its
-- services and workers share one SQL database and one message broker. A service creates an ingest
-- job and, in the same transaction, an outbox event. A relay leases batches of events and publishes
-- them as commands. A consumer hands a command to a handler, which claims the job under a lease and
-- runs the pipeline; a worker that stops leaves a lease that runs out, and a recovery loop puts its
-- job back. Documents go through their statuses with the jobs, and their deletion cancels the jobs
-- that work on them. A search asks a vector and a keyword retriever, merges what they give, keeps
-- the chunks of ready documents, and ranks them. An answer is generated from a context of the best
-- results that fit a budget of tokens, and is shown only if it cites passages of that context.
--
-- A crawl job belongs to a source and has one worker at a time, which the job's attempt fences: a
-- worker asks the store between its steps whether it may go on. A job is paused, cancelled, resumed
-- and recovered, and keeps the pages that wait for a review; reviewers lease them. A clean-up removes
-- a document from the database, the search engines and the files, and any of these may fail; what is
-- left is found by the status of the document and is resumed.
--
-- The files, with the code that each is about:
--   Prelude            names, Boolean tests, lists, stable sorting and Python's operations on texts
--                      (str of a number, strip, rstrip, len, json.dumps) that the others share
--   Domain             app/domain/ingest.py, document.py, worker.py: statuses, steps, actions
--   Store/Table        a table under primary keys, as the stores use it: get, set, update, select, add
--   Store/Loops        a loop over the rows that a query gives
--   Store/Values       the JSON values of dictionaries, with Python's truth value and str
--   Store/Rows         the rows of app/stores/models.py, the database, and add_outbox_event and
--                      event_from_row of app/stores/outbox_store.py
--   Jobs/Claim         app/stores/job_store.py: create, create_ingest_command, claim, heartbeat
--   Jobs/Leased        app/stores/job_store.py: mark_running, attach_conflict, set_document_id, finish,
--                      mark_retrying, append_step_log
--   Jobs/Publication   app/stores/job_store.py: publish_document, request_resolution, and
--                      increment_content_revision of app/stores/document_store.py
--   Jobs/Recovery      app/stores/job_store.py: recover_expired_jobs, clear_document_references
--   Jobs/Rows          the consistency of a job's row, kept by every change of it
--   Jobs/Recovered     the effect of the recovery on each job
--   Jobs/Announced     the command that the recovery leaves in the outbox
--   Outbox             app/stores/outbox_store.py: add, claim_batch, mark_published, mark_failed, get
--   Outbox/Relay       leases and retries of events
--   Outbox/Order       which events a claim leases
--   Outbox/Queued      the events that wait in the outbox for a relay
--   Documents          app/stores/document_store.py: create, get, update_status, ready_ids,
--                      request_delete, enqueue_pending_cleanups, recover_orphan_publications
--   Documents/Deletion deletions and the content revision
--   Documents/Queries  app/stores/document_store.py: update, find_by_source, find_ready_by_filename,
--                      find_ready_by_source_uri, find_ready_by_source_uri_prefix
--   Protocol           the calls of the three stores in any order, and what every run of them keeps
--   Worker/Messages    app/workers/messages.py, and the command of app/workers/publisher.py
--   Worker/Handlers    app/workers/handlers.py: _claim_job, the handlers, dispatch_command
--   Worker/Consumer    app/workers/consumer.py: on_message; app/stores/rabbitmq.py: declare_topology
--   Worker/Redelivery, Worker/Resumption, Worker/RoundTrip
--                      what becomes of a command, of a job that is put back, of a message
--   Retrieval/Items    the items and scores of app/core/retrieval/search.py
--   Retrieval/Ranking  _retrieve_with_retry, _effective_mode, _promote_exact_entity_matches,
--                      _deduplicate_by_document; exact_entity_match_priority of security_entities.py
--   Retrieval/Variants _retrieve_query_variants
--   Retrieval/Fusion   _rrf_fusion, _minmax_normalize, _weighted_score_fusion, _merge_results
--   Retrieval/Expansion
--                      _expand_adjacent_chunks
--   Retrieval/Reranker app/core/retrieval/reranker.py: rerank, _bge_rerank, _call_api
--   Retrieval/Search, Retrieval/Selection
--                      HybridSearch.search: the checks, the retrievers, then the rest
--   Retrieval/Provenance, Neighbours, Readiness, Limits, Abstention, Retry, Promotion
--                      what holds of the results
--   Retrieval/Ranks, Retrieval/Coverage, Retrieval/Best, Retrieval/Merging
--                      the scores of the fusion by reciprocal rank, and the best results of the variants
--   Generation/Context app/core/generation/context_builder.py: ContextBuilder
--   Generation/Truncation, Generation/Budget, Generation/Selected
--                      the bisection of _truncate_to_fit, what build promises of the evidence, and the
--                      results that it is drawn from
--   Generation/Citations
--                      app/core/generation/citation_validator.py: parse_answer,
--                      render_declared_citations, validate_citations
--   Generation/Answer  app/core/generation/answer_service.py: AnswerService.answer
--   Generation/Marks, Generation/Sets, Generation/Cited
--                      the citations that are found in a text, the sets of their ids, and what both
--                      functions promise
--   Ingest/Compensator, Ingest/Pending
--                      app/core/ingest/compensator.py: Compensator, with the calls that it makes of the
--                      chunk store, the indexers and the blob store; resume_pending_cleanups
--   Ingest/Cleanup, Ingest/Untouched, Ingest/Resumption
--                      how a deletion ends, what it leaves of other documents, and what becomes of the
--                      documents that wait for one
--   Crawl/Values, Crawl/Rows
--                      the dictionaries, rows and database of app/stores/crawler_store.py, and the
--                      statuses of app/domain/crawler.py
--   Crawl/Jobs, Crawl/Control
--                      CrawlerStore: create_job, create_source_job, claim, heartbeat, control_state,
--                      finish, request_pause, request_cancel, request_cancel_for_source, resume,
--                      recover_stale_jobs
--   Crawl/Review, Crawl/Claims, Crawl/Cleanup
--                      CrawlerStore: update_progress with _merge_runner_review_progress,
--                      update_review_item, patch_review_progress, claim_review_items,
--                      claim_expired_review_content and the two ends of a cleanup
--   Crawl/Urls         CrawlerStore: is_url_crawled, record_url
--   Crawl/Calls        the calls of CrawlerStore in any order
--   Crawl/Machine      the state machine of a crawl job; Changes, Sweeps, Tracks and Runs show that
--                      every call moves the jobs along it
--   Crawl/Lifecycle, Fencing, Restart, Recovery, Overlap, Exclusive, Reviewers, Merging
--                      what follows for jobs, runners, sources and reviewers
--   Examples           the theorems at concrete databases, messages and searches
--
-- How the code is read. A method of a store is a function of the time, its arguments and the database
-- to its result and the database that it leaves, since each is one transaction; one that raises
-- leaves the database as it was. An interleaving is a list of timed calls. Times are natural numbers
-- of seconds, and a caller gives the rows that other sessions have locked, which SKIP LOCKED passes
-- over. uuid4 is a sequence of texts with a counter in the database. An identifier that a caller
-- draws itself is an argument. A job's created_at and a document's created_at are not read by the
-- protocol and are left out. A dictionary is a list of keys and values in its order. Scores are of
-- any type with the operations that the code asks of floats, so no law of arithmetic is used.
--
-- Bounds and fuel. Loops are recursions on the lists that they go through. The retries of a retriever
-- are a recursion on the retries that are left, so they need no fuel. The deliveries of one command
-- are run on fuel, and fuel above the retries that the count leaves is enough, which is proved. The
-- bisection of a text runs on fuel of two more than the text's length, since each step makes the
-- interval shorter, and its result is proved on this fuel.
-- The digits of a number are read on fuel above the number, which no number of digits reaches.
--
-- Not modelled. The pipeline, the knowledge-base store, the blob store, the compensator and the runner
-- of the crawler enter the handlers as effects on the database. The retrievers, the rows of
-- neighbouring chunks, the scores of the rerankers and the entities in a text enter the search as
-- arguments; the counter of tokens, the replies of the model, json.loads and the digits of other
-- scripts enter the answers as arguments; json.dumps and json.loads enter the messages as arguments; the operator LIKE enters a search for documents as one. A citation with a negative id is left out, since no evidence
-- has one. HTTP, SQL, RabbitMQ, Qdrant, OpenSearch and the models are libraries and services. The
-- query planner, the filters, the extractors, OCR, the engine of the crawler and the schedule of its
-- sources, experiences, scopes, the API and the MCP server are left.
pub mod Prelude
pub mod Domain
pub mod Store
pub mod Jobs
pub mod Outbox
pub mod Crawl
pub mod Documents
pub mod Protocol
pub mod Ingest
pub mod Worker
pub mod Retrieval
pub mod Generation
pub mod Examples
