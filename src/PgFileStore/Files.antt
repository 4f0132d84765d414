-- ===== src/PgFileStore/Files.antt =====
-- The `FileStore` of pg_file_store.go.
use fileprocessor.Base.{
  ℕ, ◌⊎◌, Option, List, [], ◌∷◌, ◌++◌, ◌==◌, if◌then◌else◌, Bytes, codes, length,
}
use fileprocessor.Processor.{
  JsonValue, FileRecord, DocumentRecord, ChunkRecord, ChunkStats, StoredFile, FileStore,
}
use fileprocessor.PgFileStore.{
  FileArgument, Statement, PostgresFileStore, FileStoreError, jsonb_arg, jsonb_arg_with,
  in_transaction, value_or, id_or_new,
}
use fileprocessor.PgFileStore.Texts.{
  FileDocumentView, create_file_sql, create_document_sql, get_document_sql, append_sql, stats_sql,
  insert_chunk_sql, file_chunks_sql, document_chunks_sql, get_file_sql, delete_statements,
  pages_arg, document_view, stored_file, found_or, is_not_found, executed, only_error, appended,
}

module _ {W E X T : Type 0} (s : PostgresFileStore W E X T) where
  unfoldable pub file_statement : Bytes → FileRecord → T → Statement T
  file_statement id rec now = (
    create_file_sql,
    FileArgument.text_value id
        ∷ FileArgument.text_value s.owner.user_id
        ∷ FileArgument.text_value rec.file_type
        ∷ FileArgument.text_value rec.name
        ∷ FileArgument.number_value rec.size
        ∷ FileArgument.text_value rec.url
        ∷ FileArgument.text_value rec.source
        ∷ FileArgument.nullable_value
            (jsonb_arg_with s.pool.encode_map rec.metadata (codes "file_hash") rec.hash)
        ∷ FileArgument.time_value now
        ∷ FileArgument.text_value s.owner.client_id
        ∷ FileArgument.text_value s.owner.tenant_id
        ∷ [],
  )

  -- `CreateFile`.
  unfoldable pub create_file : FileRecord → W → (FileStoreError E ⊎ Bytes) × W
  create_file rec w =
      let (id, w1) = id_or_new s.pool rec.id w in
      let (now, w2) = s.pool.now w1 in executed id (s.pool.exec (file_statement id rec now) w2)

  unfoldable pub document_statement : Bytes → DocumentRecord → Statement T
  document_statement id rec = (
    create_document_sql,
    FileArgument.text_value id
        ∷ FileArgument.text_value s.owner.user_id
        ∷ FileArgument.text_value rec.file_id
        ∷ FileArgument.text_value rec.title
        ∷ FileArgument.text_value rec.content
        ∷ FileArgument.text_value rec.file_type
        ∷ FileArgument.text_value rec.filename
        ∷ FileArgument.number_value rec.total_char_count
        ∷ FileArgument.number_value rec.total_line_count
        ∷ FileArgument.nullable_value (jsonb_arg s.pool.encode_map rec.metadata)
        ∷ FileArgument.nullable_value (pages_arg rec.pages_json)
        ∷ FileArgument.text_value rec.source_type
        ∷ FileArgument.text_value rec.source
        ∷ FileArgument.text_value s.owner.client_id
        ∷ FileArgument.text_value s.owner.tenant_id
        ∷ [],
  )

  -- `CreateDocument`.
  unfoldable pub create_document : DocumentRecord → W → (FileStoreError E ⊎ Bytes) × W
  create_document rec w =
      let (id, w1) = id_or_new s.pool rec.id w in
      executed id (s.pool.exec (document_statement id rec) w1)

  -- `GetDocumentByFileID`.
  unfoldable get_document_by_file_id : Bytes → W → FileStoreError E ⊎ FileDocumentView
  get_document_by_file_id file_id w =
      found_or file_id document_view
        (s.pool.query_four (get_document_sql, FileArgument.text_value file_id ∷ []) w)

  -- `AppendToDocument`.
  unfoldable pub append_to_document : Bytes → Bytes → W → Option (FileStoreError E) × W
  append_to_document file_id additional_content w = appended file_id (
      s.pool.exec
        (
          append_sql,
          FileArgument.text_value file_id ∷ FileArgument.text_value additional_content ∷ [],
        )
        w)

  -- `UpdateFileChunkStats`, of the statistics as JSON.
  unfoldable pub update_file_chunk_stats : Bytes → ChunkStats → W → Option (FileStoreError E) × W
  update_file_chunk_stats file_id stats w =
      let payload = s.pool.encode_map (
        (codes "ChunkCount", JsonValue.json_number stats.chunk_count)
        ∷ (codes "ChunkingStatus", JsonValue.json_text stats.chunking_status)
        ∷ (codes "EmbeddingStatus", JsonValue.json_text stats.embedding_status)
        ∷ []) in
      only_error (
        s.pool.exec
          (stats_sql, FileArgument.text_value file_id ∷ FileArgument.text_value payload ∷ []) w)

  unfoldable pub chunk_statement : Bytes → Bytes → ℕ → Bytes → Option Bytes → T → Statement T
  chunk_statement chunk_id text index chunk_type metadata now = (
    insert_chunk_sql,
    FileArgument.text_value chunk_id
        ∷ FileArgument.text_value text
        ∷ FileArgument.number_value index
        ∷ FileArgument.text_value chunk_type
        ∷ FileArgument.nullable_value metadata
        ∷ FileArgument.text_value s.owner.user_id
        ∷ FileArgument.text_value s.owner.client_id
        ∷ FileArgument.text_value s.owner.tenant_id
        ∷ FileArgument.time_value now
        ∷ [],
  )

  -- The statement that links a chunk, if there is an id to link it to.
  unfoldable pub link_statement : Bytes → Bytes → Bytes → T → List (Statement T)
  link_statement sql id chunk_id now =
      if length id == 0
      then []
      else (
        sql,
        FileArgument.text_value id
            ∷ FileArgument.text_value chunk_id
            ∷ FileArgument.text_value s.owner.user_id
            ∷ FileArgument.text_value s.owner.tenant_id
            ∷ FileArgument.time_value now
            ∷ [],
      )
        ∷ []

  unfoldable pub chunk_statements : Bytes → ChunkRecord → T → List (Statement T)
  chunk_statements chunk_id rec now =
      chunk_statement chunk_id rec.text rec.index rec.chunk_type
        (jsonb_arg s.pool.encode_map rec.metadata) now
      ∷ (link_statement file_chunks_sql rec.file_id chunk_id now
          ++ link_statement document_chunks_sql rec.document_id chunk_id now)

  -- `CreateChunk`.
  unfoldable pub create_chunk : ChunkRecord → W → (FileStoreError E ⊎ Bytes) × W
  create_chunk rec w =
      let (chunk_id, w1) = id_or_new s.pool rec.id w in
      let (now, w2) = s.pool.now w1 in
      value_or chunk_id
        (in_transaction s.pool (chunk_statements chunk_id rec now) (s.pool.begin w2))

  -- `GetFile`.
  unfoldable pub get_file : Bytes → W → FileStoreError E ⊎ StoredFile
  get_file id w =
      found_or id stored_file (s.pool.query_five (get_file_sql, FileArgument.text_value id ∷ []) w)

  -- `DeleteFile`.
  unfoldable pub delete_file_rows : Bytes → W → Option (FileStoreError E) × W
  delete_file_rows file_id w = in_transaction s.pool (delete_statements file_id) (s.pool.begin w)

  -- The store as the one that a processor calls.
  unfoldable as_file_store : FileStore W (FileStoreError E)
  as_file_store = record {
    create_file = create_file;
    create_document = create_document;
    append_to_document = append_to_document;
    update_file_chunk_stats = update_file_chunk_stats;
    create_chunk = create_chunk;
    get_file = λ id w. (get_file id w, w);
    delete_file = delete_file_rows;
    is_not_found = is_not_found;
  }
