-- ===== src/PgFileStore/Chunks.antt =====
-- The `ChunkStore` of pg_file_store.go, an adapter of the same store.
use fileprocessor.Base.{
  ◌⊎◌, inl, inr, Option, none, some, List, [], ◌∷◌, ◌==◌, if◌then◌else◌, Bytes, codes, bytes_eq,
  length,
}
use fileprocessor.Processor.{JsonValue}
use fileprocessor.Ingestion.{CreateChunkParams, UpdateFileStatsParams, StoredDocument}
use fileprocessor.PgVectorStore.{Rows}
use fileprocessor.Searcher.{Chunk}
use fileprocessor.PgFileStore.{
  FileArgument, Statement, PostgresFileStore, FileStoreError, set_key, end_transaction,
  run_statements, done_or, value_or,
}
use fileprocessor.PgFileStore.Texts.{found_or, document_chunks_sql, file_chunks_sql}
use fileprocessor.PgFileStore.Files.{link_statement, update_file_chunk_stats}

pub record RagFile : Type 0 where
  pub id : Bytes
  pub name : Bytes

abbrev get_stored_document_sql : Bytes
get_stored_document_sql =
    codes
      "SELECT id, COALESCE(content, ''), COALESCE(file_type, ''), COALESCE(pages::text, '')\n\t\t  FROM documents WHERE id = $1"

abbrev insert_new_chunk_sql : Bytes
insert_new_chunk_sql =
    codes
      "INSERT INTO chunks (\n\t\tid, text, index, type, metadata,\n\t\tuser_id, client_id, tenant_id, created_at, updated_at, accessed_at\n\t) VALUES (\n\t\t$1, $2, $3, $4, $5::jsonb,\n\t\t$6, NULLIF($7, ''), NULLIF($8, ''), $9, $9, $9\n\t)"

abbrev lookup_file_sql : Bytes
lookup_file_sql = codes "SELECT file_id FROM documents WHERE id = $1"

abbrev get_chunks_sql : Bytes
get_chunks_sql =
    codes
      "SELECT c.id, COALESCE(c.text, ''), COALESCE(fc.file_id, ''), COALESCE(c.type, ''), c.index, COALESCE(c.parent_id::text, ''), COALESCE(c.metadata::text, '')\n\t\t  FROM chunks c\n\t\t  LEFT JOIN file_chunks fc ON fc.chunk_id = c.id\n\t\t  WHERE c.id = ANY($1)"

abbrev get_rag_file_sql : Bytes
get_rag_file_sql = codes "SELECT id, COALESCE(name, '') FROM files WHERE id = $1"

unfoldable pub stored_document : Bytes × (Bytes × (Bytes × Bytes)) → StoredDocument
stored_document (id, (content, (file_type, pages))) = record {
  content = content;
  file_type = file_type;
  raw_pages = pages;
}

unfoldable rag_file : Bytes × Bytes → RagFile
rag_file (id, name) = record { id = id; name = name }

-- The entries of the caller's metadata, or the text as an entry where it is not a map.
unfoldable given_entries :
    (Bytes → Option (List (Bytes × JsonValue))) → Bytes → List (Bytes × JsonValue)
given_entries decode [] = []
given_entries decode (c ∷ s) = elim (decode (c ∷ s)) [
  | none ↦ (codes "raw", JsonValue.json_text (c ∷ s)) ∷ []
  | some m ↦ m
]

-- The entries of a chunk, with the id of the caller.
unfoldable chunk_entries :
    (Bytes → Option (List (Bytes × JsonValue))) → CreateChunkParams → List (Bytes × JsonValue)
unfolding given_entries set_key
chunk_entries decode p =
    if length p.id == 0
    then given_entries decode p.metadata
    else set_key (codes "fileprocessor_id") (JsonValue.json_text p.id)
        (given_entries decode p.metadata)

-- `byID[id]`, once all rows are in the map: the last row with the id.
unfoldable last_with_id : Bytes → List Chunk → Option Chunk
last_with_id id [] = none
last_with_id id (ch ∷ chs) = elim (last_with_id id chs) [
  | some later ↦ some later
  | none ↦ if bytes_eq ch.id id then some ch else none
]

unfoldable add_found : Option Chunk → List Chunk → List Chunk
add_found none out = out
add_found (some ch) out = ch ∷ out

-- The chunks in the order of the ids.
unfoldable in_order : List Bytes → List Chunk → List Chunk
unfolding last_with_id add_found
in_order [] rows = []
in_order (id ∷ ids) rows = add_found (last_with_id id rows) (in_order ids rows)

unfoldable ordered_rows :
    {E : Type 0} → List Bytes → E ⊎ Rows E Chunk → FileStoreError E ⊎ List Chunk
ordered_rows ids (inl err) = inl (FileStoreError.statement_failed err)
ordered_rows ids (inr (rows, some err)) = inl (FileStoreError.read_rows_failed err)
ordered_rows ids (inr (rows, none)) = inr (in_order ids rows)

module _ {W E X T : Type 0} (s : PostgresFileStore W E X T) where
  -- `GetDocument`.
  unfoldable pub get_document : Bytes → W → FileStoreError E ⊎ StoredDocument
  get_document id w =
      found_or id stored_document
        (s.pool.query_four (get_stored_document_sql, FileArgument.text_value id ∷ []) w)

  unfoldable new_chunk_statement : Bytes → CreateChunkParams → T → Statement T
  new_chunk_statement chunk_id p now = (
    insert_new_chunk_sql,
    FileArgument.text_value chunk_id
        ∷ FileArgument.text_value p.text
        ∷ FileArgument.number_value p.index
        ∷ FileArgument.text_value p.chunk_type
        ∷ FileArgument.text_value (s.pool.encode_map (chunk_entries s.pool.decode_map p))
        ∷ FileArgument.text_value s.owner.user_id
        ∷ FileArgument.text_value s.owner.client_id
        ∷ FileArgument.text_value s.owner.tenant_id
        ∷ FileArgument.time_value now
        ∷ [],
  )

  unfoldable document_link : Bytes → CreateChunkParams → T → Statement T
  document_link chunk_id p now = (
    document_chunks_sql,
    FileArgument.text_value p.document_id
        ∷ FileArgument.text_value chunk_id
        ∷ FileArgument.text_value s.owner.user_id
        ∷ FileArgument.text_value s.owner.tenant_id
        ∷ FileArgument.time_value now
        ∷ [],
  )

  -- The file that the document belongs to, and the link of the chunk to it, if there is one.
  unfoldable link_to_file : X → Bytes → T → E ⊎ Option Bytes → W → Option (FileStoreError E) × W
  link_to_file tx chunk_id now (inl err) w = (some (FileStoreError.lookup_failed err), w)
  link_to_file tx chunk_id now (inr none) w = run_statements s.pool tx [] w
  link_to_file tx chunk_id now (inr (some file_id)) w =
      run_statements s.pool tx (link_statement s file_chunks_sql file_id chunk_id now) w

  unfoldable create_in : X → Bytes → CreateChunkParams → T → W → Option (FileStoreError E) × W
  create_in tx chunk_id p now w =
      done_or (s.pool.tx_exec tx (new_chunk_statement chunk_id p now) w) (λ w1.
        done_or (s.pool.tx_exec tx (document_link chunk_id p now) w1) (λ w2.
          link_to_file tx chunk_id now
            (s.pool.tx_query_text tx (lookup_file_sql, FileArgument.text_value p.document_id ∷ [])
              w2)
            w2))

  unfoldable create_begun :
      Bytes → CreateChunkParams → T → (E ⊎ X) × W → Option (FileStoreError E) × W
  create_begun chunk_id p now (inl err, w) = (some (FileStoreError.begin_failed err), w)
  create_begun chunk_id p now (inr tx, w) =
      end_transaction s.pool tx (create_in tx chunk_id p now w)

  -- `CreateChunk`.
  unfoldable create_stored_chunk : CreateChunkParams → W → (FileStoreError E ⊎ Bytes) × W
  create_stored_chunk p w =
      let (chunk_id, w1) = s.pool.new_uuid w in
      let (now, w2) = s.pool.now w1 in
      value_or chunk_id (create_begun chunk_id p now (s.pool.begin w2))

  -- `GetChunksByIDs`.
  unfoldable get_chunks_by_ids : List Bytes → W → FileStoreError E ⊎ List Chunk
  get_chunks_by_ids [] w = inr []
  get_chunks_by_ids (id ∷ ids) w =
      ordered_rows (id ∷ ids) (s.pool.query_chunks get_chunks_sql (id ∷ ids) w)

  -- `GetFile`.
  unfoldable get_rag_file : Bytes → W → FileStoreError E ⊎ RagFile
  get_rag_file id w =
      found_or id rag_file (s.pool.query_pair (get_rag_file_sql, FileArgument.text_value id ∷ []) w)

  -- `UpdateFileChunkStats`.
  unfoldable pub update_stats : UpdateFileStatsParams → W → Option (FileStoreError E) × W
  update_stats p w =
      update_file_chunk_stats s p.file_id
        (record {
          chunk_count = p.chunk_count;
          chunking_status = p.chunking_status;
          embedding_status = p.embedding_status;
        })
        w
