-- ===== src/RemoteEmbedder/Retried.antt =====
-- An OpenAI-compatible service that refuses a request for its costs, and the fallback on Gemini.
use fileprocessor.Base.{
  ℕ, ◌≡◌, refl, ◌⊎◌, inl, inr, true, false, some, List, [], ◌∷◌, ◌++◌, arith, ◌==◌, Bool-cases,
  Bytes, codes, ℤ, is_nonpos, pos, length, fail_as, and_then,
}
use fileprocessor.Text.{has_prefix, contains, decimal}
use fileprocessor.FallbackEmbedder.{is_credit_error, retry, after_primary, embed_with_fallback}
use fileprocessor.RemoteEmbedder.{
  Http, Json, OpenAiEmbedder, or_dim, or_text, status_error, accept_status, exchange, embed_open_ai,
  embed_gemini, new_gemini_embedder, new_open_ai_embedder,
}

has_prefix-append : (p s : Bytes) → has_prefix (p ++ s) p ≡ true
unfolding has_prefix
has_prefix-append [] s = refl
has_prefix-append (b ∷ p) s = ground (arith, has_prefix-append p s)

contains-append : (s p t : Bytes) → contains (s ++ (p ++ t)) p ≡ true
unfolding contains
contains-append [] [] [] = unfold has_prefix in refl
contains-append [] [] (c ∷ t) = unfold has_prefix in refl
contains-append [] (b ∷ p) t = ground (arith, has_prefix-append (b ∷ p) t)
contains-append (c ∷ s) p t = ground (arith, contains-append s p t)

-- The text of such an error is a credit error.
refused-IsCreditError :
    (shown raw : Bytes) (n : ℕ)
    → (n ≡ 402) ⊎ (n ≡ 403)
    → is_credit_error (status_error shown n raw) ≡ true
unfolding is_credit_error status_error decimal
refused-IsCreditError shown raw n (inl e) =
    let found : contains (status_error shown 402 raw) (codes "HTTP 402") ≡ true =
      contains-append shown (codes "HTTP 402") (codes ": " ++ raw) in
    rw (e, found) refl
refused-IsCreditError shown raw n (inr e) =
    let found : contains (status_error shown 403 raw) (codes "HTTP 403") ≡ true =
      contains-append shown (codes "HTTP 403") (codes ": " ++ raw) in
    rw e (ground (arith, found))

not-ok : (n : ℕ) → (n ≡ 402) ⊎ (n ≡ 403) → n == 200 ≡ false
not-ok n (inl e) = ground (arith, e)
not-ok n (inr e) = ground (arith, e)

-- What the text of an error begins with.
abbrev before : Bytes → Bytes
before url = codes "openai_embedder: " ++ (url ++ codes " ")

or_dim-positive : (dim : ℤ) → is_nonpos (or_dim dim (pos 1024)) ≡ false
unfolding or_dim
or_dim-positive dim = elim (Bool-cases (is_nonpos dim)) [
  | inl nonpos ↦ rw nonpos refl
  | inr positive ↦ rw positive positive
]

module _ {R P V D : Type 0} (http : Http R P) (json : Json V D) where
  exchange-refused :
      (name shown url body raw : Bytes) (content_type : Bytes × Bytes)
      (headers : List (Bytes × Bytes)) (r : R) (p : P)
      → http.new_request url body ≡ inr r
      → http.send r (content_type ∷ headers) ≡ inr p
      → http.read_body p ≡ inr raw
      → http.status_code p == 200 ≡ false
      → exchange http json name shown url body content_type headers
        ≡ inl (status_error shown (http.status_code p) raw)
  unfolding exchange accept_status fail_as and_then
  exchange-refused name shown url body raw content_type headers r p created sent got bad =
      rw (created, sent, got, bad) refl

  embed_open_ai-refused :
      (e : OpenAiEmbedder) (text : Bytes) (texts : List Bytes) (body raw : Bytes) (r : R) (p : P)
      → is_nonpos e.dim ≡ false
      → json.encode_texts (text ∷ texts) e.model (some e.dim) ≡ inr body
      → http.new_request e.url body ≡ inr r
      → ((headers : List (Bytes × Bytes)) → http.send r headers ≡ inr p)
      → http.read_body p ≡ inr raw
      → http.status_code p == 200 ≡ false
      → embed_open_ai http json e (text ∷ texts)
        ≡ inl (status_error (before e.url) (http.status_code p) raw)
  unfolding embed_open_ai fail_as and_then
  embed_open_ai-refused e text texts body raw r p positive encoded created sent got bad =
      let some_texts : length (text ∷ texts) == 0 ≡ false = ground arith in
      rw (some_texts, positive, encoded)
        (rw (exchange-refused _ (before e.url) e.url body raw _ _ r p created (sent _) got bad)
          refl)

  -- If an OpenAI-compatible service answers a request with the status 402 or 403, whatever it writes,
  -- then the embedder that `NewOpenAIEmbedder` makes answers as the Gemini embedder does that it has
  -- behind it, with a random key and the same dimension.
  pub new_open_ai_embedder-AsksGemini :
      (open_router_key gemini_key url api_key model : Bytes) (dim : ℤ) (text : Bytes)
      (texts : List Bytes) (body raw : Bytes) (r : R) (p : P)
      → json.encode_texts (text ∷ texts) model (some (or_dim dim (pos 1024))) ≡ inr body
      → http.new_request url body ≡ inr r
      → ((headers : List (Bytes × Bytes)) → http.send r headers ≡ inr p)
      → http.read_body p ≡ inr raw
      → (http.status_code p ≡ 402) ⊎ (http.status_code p ≡ 403)
      → embed_with_fallback
          (new_open_ai_embedder http json open_router_key gemini_key url api_key model dim)
          (text ∷ texts)
        ≡ embed_gemini http json
            (new_gemini_embedder http json gemini_key []
              (codes "gemini-embedding-2")
              (or_dim dim (pos 1024)))
            (text ∷ texts)
  unfolding embed_with_fallback after_primary retry new_open_ai_embedder
  new_open_ai_embedder-AsksGemini open_router_key gemini_key url api_key model dim text texts body
        raw r p encoded created sent got refused =
      let failed =
        embed_open_ai-refused
          (record {
            url = url;
            api_key = or_text api_key open_router_key;
            model = model;
            dim = or_dim dim (pos 1024);
          })
          text texts body raw r p (or_dim-positive dim) encoded created sent got
          (not-ok (http.status_code p) refused) in
      rw (failed, refused-IsCreditError (before url) raw (http.status_code p) refused) refl
