-- ===== src/Lib.antt =====
-- A model of the library: how a file is loaded and its document cut into chunks, how texts are
-- embedded through a cache and their vectors stored, and how a query finds the chunks again.
--
-- The program loads files, cuts their text into chunks, embeds the chunks and stores text and
-- vectors, so that a query finds them again. The parts that are modelled are these:
--
-- Text        Go's string functions that the code calls (`strings.Split`, `Join`, `TrimSpace`,
--             `HasPrefix`, `Contains`, `Count`, `strconv.Itoa`), over the bytes of a string. A string
--             is a list of bytes, and the length of a string is the number of its bytes.
-- Cascade     the recursion through the separators that `recursiveSplit` in chunker.go and
--             `RAGChunker.recursiveSplit` in rag_chunker.go share; what they do differently is a
--             parameter. The recursion is on the list of separators still to be tried.
-- ForceSplit  `forceSplit` in chunker.go and `forceSplitBySize` in rag_chunker.go: windows of bytes.
--             The loop runs on as much fuel as the text has bytes, since every round takes one byte
--             off at least when the size is positive. For the size 0 the code does not end on a text
--             that is not empty; its callers do not pass it.
-- Merging     the loop that the two functions `mergeParts` share; how a round writes a part is a
--             parameter, because there they differ.
-- Chunker     `CharChunker` in chunker.go: `NewCharChunker`, `Chunk`, `splitChars`,
--             `recursiveSplit`, `mergeParts`.
-- TokenChunker  `TokenChunker` in chunker.go, with the caller's tokenizer as a parameter, and
--             `overlapTail`, whose conversion of a string to runes is written out.
-- MdSplitter  mdsplitter.go: `newMDSplitter` and `Split`, the loop over the lines as a fold over the
--             variables of the function. A Go map is a list of pairs in the order of an iteration.
-- RagChunker  rag_chunker.go: `ChunkDocument` and the chunkers it chooses from by the type of the
--             document, over MdSplitter, Cascade and Merging.
-- EmbeddingCache  rag_cache.go: `Embed` as its two critical sections, `Stats`, `Clear`, `Warmup` and
--             the eviction. The hash, the clock and the embedder are parameters; a result slice is a
--             list with `none` for a nil vector. A panic while the write lock is held is an outcome
--             with the map it leaves; the lock stays held, so that no call sees this map.
-- Ingestion   rag_processor.go: `ProcessFile` and `DeleteFileVectors`, over stores, an embedder and
--             encoders that are parameters and act on a state of which nothing is known.
-- Searcher    rag_searcher.go: `SemanticSearch` as a chain of steps that may fail, and `fuseRRF`
--             (Searcher/Fusion). The stores, the embedder and the floating-point operations are
--             parameters, and so is the order in which a loop over a map finds its entries; the proofs
--             use of it only that it is a permutation.
-- Router      the two retrievers of eino_retriever_router.go and `hydrateChunks`, over the same
--             parameters; what the eino package does with the options of a call is an argument.
--             Router/Hybrid: `WeightedRRFFusion`, and of eino_retriever.go the router, over the order
--             in which the answers of its retrievers arrive, and `Retrieve`. Router/Parents:
--             `ExpandParentContext`.
-- FallbackEmbedder  fallback_embedder.go, over its two embedders.
-- RemoteEmbedder  openai_embedder.go and gemini_embedder.go, over HTTP and JSON, and the embedder
--             that the first makes of both.
-- Paths       the functions of `path/filepath` on a system with `/`, and of `strings` on file names.
-- Loader      loader.go: the type of a file. Loader/Content has the pages and the content of a file
--             (loader_text.go, loader_office.go, `extractPDFPages` of loader_bytes.go), Loader/Load
--             `LoadFile` and `LoadBytes`. The disk, as it stands during a call, and the packages that
--             read PDF and office documents are parameters.
-- Storage     storage.go, over the calls that fs.go forwards to the file system.
-- Processor   the records and interfaces of types.go and `New` of processor.go; Processor/Rag has
--             `runRAG`, Processor/Run `ProcessFile`, Processor/Enrich ocr.go and the choice of the
--             text for an image, Processor/Jobs the goroutines and `DeleteFile`. A goroutine is a
--             value that `ProcessFile` returns besides its response; Processor/Drains runs the waiting
--             ones as a step relation, each as a whole and in any order. The stores, the models and
--             the machine act on a state of which nothing is known. Processor/Run calls Loader/Load,
--             and Processor/Rag calls Ingestion.
-- PgVectorStore  pgvector_store.go: the configuration and the texts in SQL, PgVectorStore/Schema the
--             opening and tuning, PgVectorStore/Rows the upserts and deletions,
--             PgVectorStore/Queries the searches, PgVectorStore/Dimension the type of the column. The
--             pool of connections is a parameter that is given texts and arguments. What PostgreSQL
--             documents of transactions, COPY and ON CONFLICT is the record `IsPostgres` of
--             PgVectorStore/Batches, over the rows of the table and those that a transaction sees.
-- PgFileStore  pg_file_store.go: the pool, the owner and the transactions, PgFileStore/Texts the texts
--             in SQL and the rows, PgFileStore/Files the operations of the `FileStore`, with
--             `as_file_store`, the store as the interface that the processor calls, PgFileStore/Chunks the adapter `PostgresChunkStore`. What PostgreSQL
--             documents of a transaction is the record `IsTransactional` of PgFileStore/Atomic, over
--             the effect of a statement on the data of the tables; what it documents of the four
--             deletions of `DeleteFile` is the record `IsSql` of PgFileStore/Deletion.
-- KeywordIndex  sqlite_keyword_index.go: the queries, KeywordIndex/Refresh the opening and the rebuild
--             from PostgreSQL. The databases are a parameter; what SQLite documents of a transaction is
--             the record `IsSqlite` of KeywordIndex/Atomic.
--
-- PublicEmbeddings  public_embeddings_store.go: the index and the tuning, PublicEmbeddings/Opening
--             the constructors, PublicEmbeddings/Writes the upserts and deletions,
--             PublicEmbeddings/Search the searches and the transaction that guards those of a tenant.
--             What PostgreSQL documents of `SET LOCAL` is the record `IsLocal` of
--             PublicEmbeddings/Tenant. Row-level security is a matter of the host's database, of which
--             the repository has nothing, and is not modelled.
--
-- Base holds the names that these share. The ink of a text (Text/Ink) is its visible
-- ASCII characters but for the punctuation that the separators contain.
--
-- Numbers that the code keeps in an `int` and that can be negative are integers, the others natural
-- numbers; neither wraps around, since they are lengths of strings in memory and counters. The
-- exception is the dimension that is read from the type of a column, in the 64 bits of an `int`.
--
-- Not modelled: openai_vision.go, which is a request to a remote service and the decoding of its
-- answer; `NewRetriever` and the setters of options in eino_retriever.go; the helpers in ragcore.go
-- that read metadata; eino_graph.go, which wires a graph of another package; errors.go and doc.go,
-- which hold constants and comments.
pub mod Base
pub mod Text
pub mod Cascade
pub mod ForceSplit
pub mod Paths
pub mod Loader
pub mod Merging
pub mod MdSplitter
pub mod RagChunker
pub mod EmbeddingCache
pub mod Chunker
pub mod TokenChunker
pub mod Storage
pub mod Processor
pub mod PgVectorStore
pub mod PgFileStore
pub mod PublicEmbeddings
pub mod RemoteEmbedder
pub mod KeywordIndex
pub mod Searcher
pub mod Ingestion
pub mod FallbackEmbedder
pub mod Router
pub mod Tests
