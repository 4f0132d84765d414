-- ===== src/Tests/Remote.antt =====
-- A service without credit, and Gemini with an answer.
use fileprocessor.Base.{ℕ, ◌≡◌, refl, inl, inr, [], ◌∷◌, if◌then◌else◌, Bytes, codes, bytes_eq, pos}
use fileprocessor.FallbackEmbedder.{embed_with_fallback}
use fileprocessor.RemoteEmbedder.{
  Http, Json, or_dim, embed_gemini, new_gemini_embedder, new_open_ai_embedder,
}
use fileprocessor.RemoteEmbedder.Retried.{new_open_ai_embedder-AsksGemini}

-- A request is its URL, and a response the status.
abbrev http : Http Bytes ℕ
http = record {
  new_request = λ url body. inr url;
  send = λ r headers. inr (if bytes_eq r (codes "https://a/v1/embeddings") then 402 else 200);
  read_body = λ p. inr (codes "{}");
  status_code = λ p. p;
}

abbrev json : Json ℕ ℕ
json = record {
  encode_texts = λ texts model dimensions. inr (codes "{}");
  decode_vectors = λ raw. inr [];
  narrow = λ d. d;
  encode_content = λ model text. inr (codes "{}");
  decode_values = λ raw. inr (1 ∷ 2 ∷ 3 ∷ []);
}

new_open_ai_embedder-AsksGemini_example :
    embed_with_fallback
      (new_open_ai_embedder http json [] []
        (codes "https://a/v1/embeddings")
        []
        (codes "m")
        (pos 2))
      (codes "hi" ∷ [])
    ≡ embed_gemini http json
        (new_gemini_embedder http json [] []
          (codes "gemini-embedding-2")
          (or_dim (pos 2) (pos 1024)))
        (codes "hi" ∷ [])
new_open_ai_embedder-AsksGemini_example =
    new_open_ai_embedder-AsksGemini http json [] [] (codes "https://a/v1/embeddings") [] (codes "m")
      (pos 2) (codes "hi") [] (codes "{}") (codes "{}") (codes "https://a/v1/embeddings") 402 refl
      refl (λ headers. refl) refl (inl refl)
