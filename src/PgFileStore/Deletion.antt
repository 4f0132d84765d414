-- ===== src/PgFileStore/Deletion.antt =====
-- `DeleteFile` against the tables: what it deletes, by what PostgreSQL documents of `DELETE`.
use fileprocessor.Base.{
  ◌≡◌, refl, sym, ap, ◌∙◌, inl, inr, Bool, false, ◌&&◌, ◌||◌, Option, none, some, List, [], ◌∷◌,
  if◌then◌else◌, Bool-cases, Bytes, codes, bytes_eq,
}
use mathlib.Core.Path.{subst}
use fileprocessor.PgFileStore.{FileArgument, Statement, PostgresFileStore, FileStoreError}
use fileprocessor.PgFileStore.Texts.{delete_statements}
use fileprocessor.PgFileStore.Files.{delete_file_rows}
use fileprocessor.PgFileStore.Atomic.{after_all, IsWhole, IsTransactional, in_transaction-IsWhole}

-- The rows of `document_chunks` by document and chunk, of `file_chunks` by file and chunk, of
-- `documents` by id and file, and of `files` by id.
pub record Tables : Type 0 where
  pub document_chunks : List (Bytes × Bytes)
  pub file_chunks : List (Bytes × Bytes)
  pub documents : List (Bytes × Bytes)
  pub files : List Bytes

-- The rows but those for which the condition holds.
unfoldable pub without : {A : Type 0} → (A → Bool) → List A → List A
without p [] = []
without p (x ∷ xs) = if p x then without p xs else x ∷ without p xs

without-without :
    {A : Type 0} (p : A → Bool) (xs : List A) → without p (without p xs) ≡ without p xs
unfolding without
without-without p [] = refl
without-without p (x ∷ xs) = elim (Bool-cases (p x)) [
  | inl gone ↦ rw gone (without-without p xs)
  | inr stays ↦ rw (stays, stays) (ap (◌∷◌ x) (without-without p xs))
]

-- Whether the document is one of the file's.
unfoldable pub has_document : Bytes → List (Bytes × Bytes) → Bytes → Bool
has_document file_id [] document_id = false
has_document file_id ((id, file) ∷ rows) document_id =
    (bytes_eq id document_id && bytes_eq file file_id) || has_document file_id rows document_id

module _ (file_id : Bytes) (t : Tables) where
  -- What each of the four deletions leaves.
  abbrev pub without_links : Tables
  without_links = record t {
    document_chunks =
        without (λ (row : Bytes × Bytes). has_document file_id t.documents row.0) t.document_chunks;
  }

  abbrev pub without_chunks : Tables
  without_chunks = record t {
    file_chunks = without (λ (row : Bytes × Bytes). bytes_eq row.0 file_id) t.file_chunks;
  }

  abbrev pub without_documents : Tables
  without_documents = record t {
    documents = without (λ (row : Bytes × Bytes). bytes_eq row.1 file_id) t.documents;
  }

  abbrev pub without_row : Tables
  without_row = record t { files = without (λ (id : Bytes). bytes_eq id file_id) t.files }

  -- The tables without everything that belongs to the file.
  abbrev pub without_file : Tables
  without_file = record {
    document_chunks =
        without (λ (row : Bytes × Bytes). has_document file_id t.documents row.0) t.document_chunks;
    file_chunks = without (λ (row : Bytes × Bytes). bytes_eq row.0 file_id) t.file_chunks;
    documents = without (λ (row : Bytes × Bytes). bytes_eq row.1 file_id) t.documents;
    files = without (λ (id : Bytes). bytes_eq id file_id) t.files;
  }

-- What PostgreSQL documents of the four statements: each deletes the rows for which its condition
-- holds. A row to which others still refer is left out of account, since what is done then is for
-- the foreign keys to say.
pub record IsSql {T D : Type 0} (effect : Statement T → D → D) (view : D → Tables) : Type 0 where
  pub deletes_links :
      (file_id : Bytes) (d : D)
      → view (
          effect
            (
              codes
                  "DELETE FROM document_chunks\n\t\tWHERE document_id IN (SELECT id FROM documents WHERE file_id = $1)",
              FileArgument.text_value file_id ∷ [],
            )
            d)
        ≡ without_links file_id (view d)
  pub deletes_chunks :
      (file_id : Bytes) (d : D)
      → view (
          effect
            (
              codes "DELETE FROM file_chunks WHERE file_id = $1",
              FileArgument.text_value file_id ∷ [],
            )
            d)
        ≡ without_chunks file_id (view d)
  pub deletes_documents :
      (file_id : Bytes) (d : D)
      → without_links file_id (view d) ≡ view d
      → view (
          effect
            (codes "DELETE FROM documents WHERE file_id = $1", FileArgument.text_value file_id ∷ [])
            d)
        ≡ without_documents file_id (view d)
  pub deletes_row :
      (file_id : Bytes) (d : D)
      → without_chunks file_id (view d) ≡ view d
      → without_documents file_id (view d) ≡ view d
      → view
          (effect (codes "DELETE FROM files WHERE id = $1", FileArgument.text_value file_id ∷ []) d)
        ≡ without_row file_id (view d)

IsWhole-view :
    {W E D B : Type 0} (tables : W → D) (view : D → B) (old new : D)
    (result : Option (FileStoreError E) × W)
    → IsWhole tables old new result
    → IsWhole (λ w. view (tables w)) (view old) (view new) result
IsWhole-view tables view old new (none, w) h = ap view h
IsWhole-view tables view old new (some err, w) h = ap view h

module _ {T D : Type 0} (effect : Statement T → D → D) (view : D → Tables)
    (sql : IsSql effect view) where
  -- The statements of `DeleteFile`, in their order, leave nothing of the file.
  deleted :
      (file_id : Bytes) (d : D)
      → view (after_all effect (delete_statements file_id) d) ≡ without_file file_id (view d)
  unfolding after_all delete_statements
  deleted file_id d =
      let t = view d in
      let t1 = without_links file_id t in
      let t2 = without_chunks file_id t1 in
      let t3 = without_documents file_id t2 in
      let one = sql.deletes_links file_id d in
      let two = sql.deletes_chunks file_id _ ∙ ap (without_chunks file_id) one in
      let no_links : without_links file_id t2 ≡ t2 =
        ap (λ rows. record t2 { document_chunks = rows }) (without-without _ t.document_chunks) in
      let three =
        sql.deletes_documents file_id _
          (subst (λ u. without_links file_id u ≡ u) (sym two) no_links)
        ∙ ap (without_documents file_id) two in
      let no_chunks : without_chunks file_id t3 ≡ t3 =
        ap (λ rows. record t3 { file_chunks = rows }) (without-without _ t.file_chunks) in
      let no_documents : without_documents file_id t3 ≡ t3 =
        ap (λ rows. record t3 { documents = rows }) (without-without _ t.documents) in
      sql.deletes_row file_id _ (subst (λ u. without_chunks file_id u ≡ u) (sym three) no_chunks)
        (subst (λ u. without_documents file_id u ≡ u) (sym three) no_documents)
      ∙ ap (without_row file_id) three

-- By what PostgreSQL documents of transactions and of `DELETE`, a call of `DeleteFile` without an
-- error leaves no link of a document of the file to a chunk, no link of the file to a chunk, no
-- document of the file, and not the file itself, and leaves all other rows of the four tables as
-- they were; a call with an error leaves all rows as they were.
pub delete_file_rows-Deletes :
    {W E X T D : Type 0} (s : PostgresFileStore W E X T) (tables : W → D) (seen : X → W → D)
    (effect : Statement T → D → D) (view : D → Tables)
    → IsTransactional s.pool tables seen effect
    → IsSql effect view
    → (file_id : Bytes) (w : W)
    → IsWhole
        (λ (w' : W). view (tables w'))
        (view (tables w))
        (without_file file_id (view (tables w)))
        (delete_file_rows s file_id w)
unfolding delete_file_rows
delete_file_rows-Deletes s tables seen effect view pg sql file_id w =
    subst
      (λ new. IsWhole (λ w'. view (tables w')) (view (tables w)) new (delete_file_rows s file_id w))
      (deleted effect view sql file_id (tables w))
      (IsWhole-view tables view (tables w) _ _
        (in_transaction-IsWhole s tables seen effect pg (delete_statements file_id) w))
