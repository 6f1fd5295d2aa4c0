-- ===== src/Lib.antt =====
-- Calibre Bookwarden audits the metadata of a Calibre library against what the books themselves
-- say.
--
-- This library models the decisions of the program: code under src/calibre_ai_auditor that turns
-- evidence into verdicts, verdicts into patches and patches into operations. The parts and the
-- files that model them:
--
-- Operations: src/calibre_ai_auditor/storage/operations.py, the ledger of operations and its
-- outbox (create_operation, transition_operation), over two rows of
-- src/calibre_ai_auditor/storage/models.py. Operations/Lifecycle proves what runs of transitions
-- do, Operations/Creation what creation does to the two tables.
-- Lease: src/calibre_ai_auditor/verification/durable_v2.py, the leases by which workers share
-- verification runs. Lease/Exclusion is about claims against each other, Lease/Recovery about the
-- list of recoverable runs, Lease/Books models and proves the reset of a run's books.
-- Isbn: src/calibre_ai_auditor/rules/isbn.py. Isbn/Canonical is about canonical_isbn13,
-- Isbn/Checksum is about the sums of the two checksums, Isbn/Errors about the errors that they
-- detect.
-- Verdict: the schema of src/calibre_ai_auditor/verification/verdict.py.
-- Rules: src/calibre_ai_auditor/verification/rules.py, the rule of each field from a declared and
-- an observed value to a FieldVerdict. Rules/IsbnRule models verify_isbn, with its verdicts on
-- well-formed ISBNs (Rules/IsbnRule/Forms) in Rules/IsbnRule/Verdicts and its conversion in
-- Rules/IsbnRule/Conversion; Rules/Publication, Rules/Series and Rules/Numbers model the others;
-- Rules/Shape collects them and proves what their verdicts share.
-- Engine: src/calibre_ai_auditor/verification/engine.py from the rules' verdicts on, and
-- ConservativeAutoApply of src/calibre_ai_auditor/verification/restore.py. Engine/Tallies is about
-- the loop, Engine/Gate about the decisions.
-- Identity: src/calibre_ai_auditor/verification/identity_v2.py, the resolver that may promote a
-- manifestation to Tier A. Identity/Patch models the validation of patches, Identity/Fields the
-- decision on each field, Identity/Core the tests on formats and external records,
-- Identity/Resolve resolve_manifestation itself. Identity/Support and Identity/Authority prove
-- which evidence counts, Identity/Dump what validation keeps of a patch, Identity/TierA what Tier
-- A stands on, Identity/Evidence what the patch rests on, Identity/Namespaces which identifiers it
-- keeps.
-- Package: the sealed evidence packages of src/calibre_ai_auditor/verification/pipeline_v2.py;
-- Package/Derived proves what a valid seal says.
-- Audit: the rest of src/calibre_ai_auditor/verification/pipeline_v2.py, the pipeline that reads
-- the books and makes the packages, with src/calibre_ai_auditor/verification/persistence_v2.py and
-- run_persisted_library_audit of src/calibre_ai_auditor/verification/service_v2.py. Audit/Steps
-- has steps that raise or return over the state of the callbacks, Audit/Setup the constructor of
-- the pipeline, Audit/Inspect the snapshot and the inspection of a book, Audit/Drafts and
-- Audit/Run the packages and the run; Audit/Rows and Audit/Store model the tables and
-- SQLAuditStore (started, stated, packaged and finished are the transactions of start,
-- record_state, record_package and finish), Audit/Service the persisted run. Audit/Yields and
-- Audit/Gives are the rules for steps; Audit/Spared and Audit/Reported follow what a run reports
-- (Audit/Reports), Audit/Sealable and Audit/Returned why it returns, Audit/Stored what
-- record_package did where it committed, Audit/Resumed what a resumed run leaves out, Audit/Grows
-- and Audit/Ended how a persisted run ends.
-- Apply: the tables and the pilot's runtime facts of src/calibre_ai_auditor/apply/coordinator.py.
-- Apply/Checks models its checks, Apply/Queue queue_v2_operation and the authorizations and
-- acknowledgements around it. Apply/Queued takes a successful call apart, Apply/Rows has the
-- lemmas on tables; Apply/Approval, Apply/Exclusion and Apply/Budget prove what the call
-- guarantees. Apply/Validation models validate_apply_operation, Apply/Validated proves what
-- passing it means.
-- Writer: src/calibre_ai_auditor/apply/writer.py and the turn of the loop in
-- src/calibre_ai_auditor/cli/main.py that uses it. Writer/Claim models claim_next_operation, with
-- Writer/Claim/Fair and Writer/Claim/Locks about it; Writer/Steps what the functions share;
-- Writer/Process and Writer/Undo model MetadataWriter.process, Writer/Reconcile the recovery.
-- Writer/Closed says what the end of an operation leaves and how the ways to end combine;
-- Writer/Moves, Writer/Applying, Writer/Undoing and Writer/Turn follow a turn to its end,
-- Writer/Interrupted, Writer/Recovering and Writer/Recovered a recovery. Writer/Checked joins the
-- writer with the coordinator's validation.
-- Prelude: shared helpers: lists, dictionaries, texts and strings as Python has them.
-- Tests: concrete inputs.
--
-- How the parts interact: the rules give the engine its field verdicts, the engine's verdict
-- carries the patch and the flag for automatic change; the resolver works on evidence of its own
-- and uses the ISBN checksums; the pipeline calls the resolver for each book and seals its
-- resolution in a package with the evidence, which the store keeps; a package with a manual
-- authorization becomes an operation of the ledger; the writer claims the operation, carries it
-- out and ends it, or recovers it after a crash. A worker does the audit for the books of a run
-- while it holds the run's lease.
--
-- Correspondence: a function has the name it has in the source, without a leading underscore.
-- State is passed explicitly: a session is its two tables, the leases are a list of rows, a
-- transaction is one step. A raised exception is `none`, or a value where its kind or its text
-- matters. Texts that the code takes apart are lists of code points; names and ids that it only
-- compares are strings; sets are lists without repetition; dictionaries are lists of pairs in
-- insertion order. Clock and uuids are arguments. Moments and confidences are natural numbers,
-- unbounded as Python's integers are. The loop of claim_next_operation has fuel, and more fuel
-- than there are pending events is enough; every other loop runs over a list. The writer works on
-- the rows of one operation, and what it calls, Calibre, apply_patch and the checks of files and
-- authorizations, gives answers that are arguments; a run ends with what it committed, by a return
-- or by an exception. So do the reader, the inspector and the enricher of the pipeline, whose
-- answers for one book are a RawBook; its callbacks are a Listener, and the store is one.
--
-- Parameters: Python (Rules.antt), Runtime (Identity.antt), Sealing (Package.antt), Reading
-- (Audit.antt), Host (Apply.antt) and Calibre (Writer.antt) hold what the code takes from Python's
-- floats, unicodedata, re, difflib, json, hashlib, os.path and pydantic. Payloads
-- (Audit/Rows.antt) has the conversion of a package to JSON and back, Setup (Audit/Setup.antt) the
-- attributes of the reader and the answer of ensure_secure_directory. The theorems that assume
-- something of them say so: that int(c) of an ASCII digit is its value.
--
-- Not modelled: the rules of title and authors, the loop of the engine that calls the rules, the
-- coordinator's path for verdicts of the first version, the comparison of a package's files,
-- ApplyEngine, the enrichers of the pipeline, restore points, job queue, curation; and the code
-- around them: extraction, OCR, covers, network providers, access to Calibre, the web API and the
-- command line, migrations and scripts. The explanations in free text (reason, reasons of book
-- verdicts) are left out, except those of the resolver.
pub mod Prelude
pub mod Isbn
pub mod Verdict
pub mod Rules
pub mod Engine
pub mod Identity
pub mod Operations
pub mod Lease
pub mod Package
pub mod Audit
pub mod Apply
pub mod Writer
mod Tests
