-- ===== src/Tests/Tables.antt =====
-- A file store over a database of four tables.
use fileprocessor.Base.{
  ℕ, refl, sym, ap, ◌⊎◌, inr, true, Option, none, [], ◌∷◌, if◌then◌else◌, Bytes, codes, bytes_eq,
}
use fileprocessor.PgFileStore.{FileArgument, Statement, FilePool, PostgresFileStore}
use fileprocessor.PgFileStore.Files.{delete_file_rows}
use fileprocessor.PgFileStore.Atomic.{IsWhole, IsTransactional}
use fileprocessor.PgFileStore.Deletion.{
  Tables, IsSql, without_links, without_chunks, without_documents, without_row, without_file,
  delete_file_rows-Deletes,
}

abbrev delete_by : Bytes → Bytes → Tables → Tables
delete_by sql file_id t =
    if bytes_eq sql (
      codes
        "DELETE FROM document_chunks\n\t\tWHERE document_id IN (SELECT id FROM documents WHERE file_id = $1)")
    then without_links file_id t
    else if bytes_eq sql (codes "DELETE FROM file_chunks WHERE file_id = $1")
    then without_chunks file_id t
    else if bytes_eq sql (codes "DELETE FROM documents WHERE file_id = $1")
    then without_documents file_id t
    else if bytes_eq sql (codes "DELETE FROM files WHERE id = $1")
    then without_row file_id t
    else t

effect : Statement ℕ → Tables → Tables
effect (sql, FileArgument.text_value file_id ∷ []) t = delete_by sql file_id t
effect st t = t

effect-IsSql : IsSql effect (λ t. t)
unfolding effect
effect-IsSql = record {
  deletes_links = λ file_id d. refl;
  deletes_chunks = λ file_id d. refl;
  deletes_documents = λ file_id d no_links. refl;
  deletes_row = λ file_id d no_chunks no_documents. refl;
}

-- The tables that were committed, and those that the transaction sees.
abbrev Journal : Type 0
Journal = Tables × Tables

abbrev pool : FilePool Journal Bytes ℕ ℕ
pool = record {
  exec = λ st w. (inr 1, w);
  begin = λ w. (inr 0, (w.0, w.0));
  tx_exec = λ tx st w. (none, (w.0, effect st w.1));
  tx_query_text = λ tx st w. inr none;
  commit = λ tx w. (none, (w.1, w.1));
  rollback = λ tx w. (w.0, w.0);
  close = λ w. w;
  query_pair = λ st w. inr none;
  query_four = λ st w. inr none;
  query_five = λ st w. inr none;
  query_chunks = λ sql ids w. inr ([], none);
  new_uuid = λ w. (codes "u", w);
  now = λ w. (0, w);
  encode_map = λ m. codes "{}";
  decode_map = λ text. none;
}

abbrev file_store : PostgresFileStore Journal Bytes ℕ ℕ
file_store = record {
  pool = pool;
  is_open = true;
  owner = record { user_id = codes "u1"; tenant_id = []; client_id = [] };
}

pool-IsTransactional : IsTransactional pool (λ w. w.0) (λ tx w. w.1) effect
pool-IsTransactional = record {
  begun = λ w w' tx e. (
    sym (ap (λ (r : (Bytes ⊎ ℕ) × Journal). r.1.0) e),
    sym (ap (λ (r : (Bytes ⊎ ℕ) × Journal). r.1.1) e),
  );
  not_begun = λ w w' err e. sym (ap (λ (r : (Bytes ⊎ ℕ) × Journal). r.1.0) e);
  executed = λ tx st w w' e. (
    sym (ap (λ (r : Option Bytes × Journal). r.1.0) e),
    sym (ap (λ (r : Option Bytes × Journal). r.1.1) e),
  );
  not_executed = λ tx st w w' err e. sym (ap (λ (r : Option Bytes × Journal). r.1.0) e);
  committed = λ tx w w' e. sym (ap (λ (r : Option Bytes × Journal). r.1.0) e);
  not_committed = λ tx w w' err e. cc (ap (λ (r : Option Bytes × Journal). r.0) e);
  rolled_back = λ tx w. refl;
}

-- Two files, of which the first has a document.
abbrev stored : Tables
stored = record {
  document_chunks = (codes "d1", codes "c1") ∷ (codes "d2", codes "c2") ∷ [];
  file_chunks = (codes "f1", codes "c1") ∷ (codes "f2", codes "c2") ∷ [];
  documents = (codes "d1", codes "f1") ∷ [];
  files = codes "f1" ∷ codes "f2" ∷ [];
}

delete_file_rows-Deletes_example :
    IsWhole
      (λ (w : Journal). w.0)
      stored
      (without_file (codes "f1") stored)
      (delete_file_rows file_store (codes "f1") (stored, stored))
delete_file_rows-Deletes_example =
    delete_file_rows-Deletes file_store (λ w. w.0) (λ tx w. w.1) effect (λ t. t)
      pool-IsTransactional effect-IsSql (codes "f1") (stored, stored)
