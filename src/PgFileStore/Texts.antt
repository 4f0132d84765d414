-- ===== src/PgFileStore/Texts.antt =====
-- The texts in SQL of the `FileStore` of pg_file_store.go, and what it makes of rows and results.
use fileprocessor.Base.{
  ℕ, ◌⊎◌, inl, inr, Bool, true, false, Option, none, some, List, [], ◌∷◌, ◌==◌, if◌then◌else◌,
  Bytes, codes,
}
use fileprocessor.Processor.{StoredFile}
use fileprocessor.PgFileStore.{FileArgument, Statement, FileStoreError}

-- The document of a file: its id, content, file and title.
pub record FileDocumentView : Type 0 where
  pub id : Bytes
  pub content : Bytes
  pub file_id : Bytes
  pub title : Bytes

abbrev pub create_file_sql : Bytes
create_file_sql =
    codes
      "INSERT INTO files (\n\t\tid, user_id, file_type, name, size, url, source,\n\t\tmetadata, created_at, updated_at, accessed_at, client_id, tenant_id\n\t) VALUES (\n\t\t$1, $2, $3, $4, $5, $6, $7,\n\t\t$8, $9, $9, $9, NULLIF($10, ''), NULLIF($11, '')\n\t) ON CONFLICT (id) DO UPDATE SET\n\t\tfile_type = EXCLUDED.file_type,\n\t\tname      = EXCLUDED.name,\n\t\tsize      = EXCLUDED.size,\n\t\turl       = EXCLUDED.url,\n\t\tsource    = EXCLUDED.source,\n\t\tmetadata  = EXCLUDED.metadata,\n\t\tupdated_at = EXCLUDED.updated_at"

abbrev pub create_document_sql : Bytes
create_document_sql =
    codes
      "INSERT INTO documents (\n\t\tid, user_id, file_id, title, content, file_type, filename,\n\t\ttotal_char_count, total_line_count, metadata, pages,\n\t\tsource_type, source, client_id, tenant_id\n\t) VALUES (\n\t\t$1, $2, $3, $4, $5, $6, $7,\n\t\t$8, $9, $10, $11::jsonb,\n\t\t$12, $13, NULLIF($14, ''), NULLIF($15, '')\n\t) ON CONFLICT (id) DO UPDATE SET\n\t\tfile_id          = EXCLUDED.file_id,\n\t\ttitle            = EXCLUDED.title,\n\t\tcontent          = EXCLUDED.content,\n\t\tfile_type        = EXCLUDED.file_type,\n\t\tfilename         = EXCLUDED.filename,\n\t\ttotal_char_count  = EXCLUDED.total_char_count,\n\t\ttotal_line_count  = EXCLUDED.total_line_count,\n\t\tmetadata         = EXCLUDED.metadata,\n\t\tpages            = EXCLUDED.pages,\n\t\tsource_type      = EXCLUDED.source_type,\n\t\tsource           = EXCLUDED.source"

abbrev pub get_document_sql : Bytes
get_document_sql =
    codes
      "SELECT id, COALESCE(file_id, ''), COALESCE(title, ''), COALESCE(content, '')\n\t\t  FROM documents WHERE file_id = $1 LIMIT 1"

abbrev pub append_sql : Bytes
append_sql = codes "UPDATE documents SET content = COALESCE(content, '') || $2 WHERE file_id = $1"

abbrev pub stats_sql : Bytes
stats_sql =
    codes
      "UPDATE files\n\t\t  SET metadata = jsonb_set(COALESCE(metadata, '{}'::jsonb), '{chunk_stats}', $2::jsonb)\n\t\t  WHERE id = $1"

abbrev pub insert_chunk_sql : Bytes
insert_chunk_sql =
    codes
      "INSERT INTO chunks (\n\t\tid, text, index, type, metadata,\n\t\tuser_id, client_id, tenant_id,\n\t\tcreated_at, updated_at, accessed_at\n\t) VALUES (\n\t\t$1, $2, $3, $4, $5::jsonb,\n\t\t$6, NULLIF($7, ''), NULLIF($8, ''),\n\t\t$9, $9, $9\n\t)"

abbrev pub file_chunks_sql : Bytes
file_chunks_sql =
    codes
      "INSERT INTO file_chunks (file_id, chunk_id, user_id, tenant_id, created_at)\n\t\t\tVALUES ($1, $2, $3, NULLIF($4, ''), $5)"

abbrev pub document_chunks_sql : Bytes
document_chunks_sql =
    codes
      "INSERT INTO document_chunks (document_id, chunk_id, user_id, tenant_id, created_at)\n\t\t\tVALUES ($1, $2, $3, NULLIF($4, ''), $5)"

abbrev pub get_file_sql : Bytes
get_file_sql =
    codes
      "SELECT id, COALESCE(name, ''), COALESCE(url, ''), COALESCE(file_type, ''), COALESCE(file_hash, '')\n\t\t  FROM files WHERE id = $1"

-- The statements of `DeleteFile`.
unfoldable pub delete_statements : {T : Type 0} → Bytes → List (Statement T)
delete_statements file_id =
    (
      codes
          "DELETE FROM document_chunks\n\t\tWHERE document_id IN (SELECT id FROM documents WHERE file_id = $1)",
      FileArgument.text_value file_id ∷ [],
    )
    ∷ (codes "DELETE FROM file_chunks WHERE file_id = $1", FileArgument.text_value file_id ∷ [])
    ∷ (codes "DELETE FROM documents WHERE file_id = $1", FileArgument.text_value file_id ∷ [])
    ∷ (codes "DELETE FROM files WHERE id = $1", FileArgument.text_value file_id ∷ [])
    ∷ []

unfoldable pub pages_arg : Bytes → Option Bytes
pages_arg [] = none
pages_arg (c ∷ s) = some (c ∷ s)

unfoldable pub document_view : Bytes × (Bytes × (Bytes × Bytes)) → FileDocumentView
document_view (id, (file_id, (title, content))) = record {
  id = id;
  content = content;
  file_id = file_id;
  title = title;
}

unfoldable pub stored_file : Bytes × (Bytes × (Bytes × (Bytes × Bytes))) → StoredFile
stored_file (id, (name, (url, (file_type, hash)))) = record {
  id = id;
  name = name;
  url = url;
  file_type = file_type;
  hash = hash;
}

-- The row that was asked for, or that there is none.
unfoldable pub found_or : {E R A : Type 0} → Bytes → (R → A) → E ⊎ Option R → FileStoreError E ⊎ A
found_or id view (inl err) = inl (FileStoreError.statement_failed err)
found_or id view (inr none) = inl (FileStoreError.not_found id)
found_or id view (inr (some row)) = inr (view row)

-- `errors.Is(err, ErrNotFound)`.
unfoldable pub is_not_found : {E : Type 0} → FileStoreError E → Bool
is_not_found (FileStoreError.not_found id) = true
is_not_found FileStoreError.user_id_required = false
is_not_found (FileStoreError.open_failed err) = false
is_not_found (FileStoreError.statement_failed err) = false
is_not_found (FileStoreError.begin_failed err) = false
is_not_found (FileStoreError.lookup_failed err) = false
is_not_found (FileStoreError.read_rows_failed err) = false
is_not_found (FileStoreError.commit_failed err) = false

-- The results of a statement that is not in a transaction.
unfoldable pub executed : {W E A : Type 0} → A → (E ⊎ ℕ) × W → (FileStoreError E ⊎ A) × W
executed a (inl err, w) = (inl (FileStoreError.statement_failed err), w)
executed a (inr rows, w) = (inr a, w)

unfoldable pub only_error : {W E : Type 0} → (E ⊎ ℕ) × W → Option (FileStoreError E) × W
only_error (inl err, w) = (some (FileStoreError.statement_failed err), w)
only_error (inr rows, w) = (none, w)

unfoldable pub appended : {W E : Type 0} → Bytes → (E ⊎ ℕ) × W → Option (FileStoreError E) × W
appended file_id (inl err, w) = (some (FileStoreError.statement_failed err), w)
appended file_id (inr rows, w) =
    (if rows == 0 then some (FileStoreError.not_found file_id) else none, w)
