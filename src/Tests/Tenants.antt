-- ===== src/Tests/Tenants.antt =====
-- A database that keeps the tenant of the open transaction and shows the files of that tenant.
use fileprocessor.Base.{
  ℕ, zero, suc, ◌≡◌, refl, sym, ap, ◌∙◌, ◌⊎◌, inr, Bool, true, false, Option, none, some, List, [],
  ◌∷◌, ◌++◌, if◌then◌else◌, Bytes, codes, bytes_eq, pos,
}
use fileprocessor.PgVectorStore.{DistanceMetric, Rows, default_pg_hnsw_config}
use fileprocessor.PgVectorStore.Queries.{SearchParams, Conversions}
use fileprocessor.PublicEmbeddings.{EmbeddingsPool, PublicEmbeddingsStore}
use fileprocessor.PublicEmbeddings.Search.{
  set_tenant_sql, search_embeddings, keyword_search_embeddings,
}
use fileprocessor.PublicEmbeddings.Tenant.{IsLocal, StaysWithin, searches-StayWithinTenant}

-- The statement that set the tenant.
abbrev Setting : Type 0
Setting = Option Bytes

abbrev Found : Type 0
Found = Rows Bytes (Bytes × (Bytes × ℕ))

abbrev quoted : Bytes → Bytes
quoted tenant_id = codes "'" ++ (tenant_id ++ codes "'")

abbrev set_sql : Bytes → Bytes
set_sql tenant_id = codes "SET LOCAL app.tenant_id = " ++ quoted tenant_id

abbrev is_acme : Bytes → Bool
is_acme sql = bytes_eq sql (set_sql (codes "acme"))

-- The rows that the policies leave.
abbrev rows_for : Setting → Found
rows_for none = ([], none)
rows_for (some sql) = if is_acme sql then ((codes "c1", (codes "f1", 9)) ∷ [], none) else ([], none)

abbrev pool : EmbeddingsPool Setting Bytes ℕ ℕ ℕ
pool = record {
  exec = λ sql arguments w. (none, w);
  begin = λ w. (inr 0, w);
  copy_from = λ tx name columns rows w. (none, w);
  tx_exec = λ tx sql arguments w. (none, some sql);
  commit = λ tx w. (none, none);
  rollback = λ tx w. none;
  query_text = λ sql w. inr (codes "vector(1024)");
  query_matches = λ sql arguments w. inr (rows_for w);
  tx_query_matches = λ tx sql arguments w. inr (rows_for w);
  query_batch = λ sql arguments w. inr ([], none);
  close = λ w. w;
  quote_literal = quoted;
  is_permission_denied = λ err. false;
}

abbrev store : PublicEmbeddingsStore Setting Bytes ℕ ℕ ℕ
store = record { pool = pool; is_open = true; config = default_pg_hnsw_config; model = [] }

abbrev HasSet : ℕ → Bytes → Setting → Type 0
HasSet tx tenant_id w = w ≡ some (set_sql tenant_id)

abbrev IsClean : Setting → Type 0
IsClean w = w ≡ none

pool-IsLocal : IsLocal store HasSet IsClean (λ tx w. Unit)
unfolding set_tenant_sql
pool-IsLocal = record {
  not_begun = λ w w' err clean e. sym (ap (λ (r : (Bytes ⊎ ℕ) × Setting). r.1) e) ∙ clean;
  begun = λ w w' tx clean e. tt;
  kept = λ tx tenant_id w h. tt;
  set = λ tx tenant_id w w' e. sym (ap (λ (r : Option Bytes × Setting). r.1) e);
  ended = λ tx w h. refl;
}

zeros : ℕ → List ℕ
zeros zero = []
zeros (suc n) = 0 ∷ zeros n

abbrev conversions : Conversions ℕ
conversions = record { one_minus = λ d. d; negate = λ d. d; inverse_of_succ = λ d. d }

abbrev params : SearchParams
params = record {
  limit = pos 5;
  metric = DistanceMetric.cosine;
  file_ids = codes "f1" ∷ [];
  tenant_id = codes "acme";
}

searches-StayWithinTenant_example :
    StaysWithin store HasSet IsClean
      (λ tx w. Unit)
      pool-IsLocal
      (codes "acme")
      (search_embeddings store conversions (zeros 1024) params none)
    × StaysWithin store HasSet IsClean
        (λ tx w. Unit)
        pool-IsLocal
        (codes "acme")
        (keyword_search_embeddings store (codes "tax") params none)
searches-StayWithinTenant_example =
    searches-StayWithinTenant store HasSet IsClean (λ tx w. Unit) pool-IsLocal conversions
      (zeros 1024) (codes "tax") params none refl refl
