-- ===== src/Examples/Removal.antt =====
-- The removal of a document at a concrete database and its search engines.
use trustguard_rag.Prelude.{◌≡◌, refl, none, some, [], ◌∷◌, String, str_eq}
use trustguard_rag.Domain.{DocumentStatus}
use trustguard_rag.Store.Table.{lookup}
use trustguard_rag.Store.Rows.{DocumentRow}
use trustguard_rag.Ingest.Pending.{resume_pending_cleanups}
use trustguard_rag.Ingest.Compensator.{World, Faults, delete_document, artifact_prefix}
use trustguard_rag.Ingest.Cleanup.{Deletes, delete_document-Deletes}
use trustguard_rag.Ingest.Resumption.{no_faults, resume_pending_cleanups-Gone}
use trustguard_rag.Examples.Data.{document, db}

abbrev deleting_document : DocumentRow
deleting_document = record document { status = DocumentStatus.deleting }

-- Two documents, of which the first waits for its deletion.
abbrev two_documents : World
two_documents = record {
  db = record db { documents = ("doc", deleting_document) ∷ ("other", deleting_document) ∷ [] };
  chunks = (record { document_id = "doc"; qdrant_point_id = some "p1" }) ∷ [];
  points = (record { point_id = "p1"; document_id = "doc" }) ∷ [];
  indexed = "doc" ∷ "other" ∷ [];
  artifacts = "artifacts/doc/a.md" ∷ "artifacts/other/b.md" ∷ [];
}

-- OpenSearch does not answer for the second.
abbrev other_fails : String → Faults
other_fails id = record no_faults { opensearch = str_eq id "other" }

-- The deletion of a document while OpenSearch does not answer.
delete_document-Deletes_example :
    Deletes "other" "artifacts/other"
      (delete_document 200 (other_fails "other") "other" two_documents)
unfolding lookup artifact_prefix
delete_document-Deletes_example =
    delete_document-Deletes 200 (other_fails "other") "other" deleting_document two_documents refl

-- The first is removed although the second fails.
resume_pending_cleanups-Gone_example :
    lookup "doc" (resume_pending_cleanups 200 other_fails two_documents).1.db.documents ≡ none
unfolding lookup
resume_pending_cleanups-Gone_example =
    resume_pending_cleanups-Gone 200 other_fails "doc" deleting_document two_documents
      (refl, (refl, tt)) refl refl refl
