-- ===== src/RemoteEmbedder.antt =====
-- openai_embedder.go and gemini_embedder.go: the embedders that ask a remote service. HTTP, JSON, the
-- keys of the package `constant` and the services, as they answer during a call, are parameters.
pub mod Retried
use fileprocessor.Base.{
  ℕ, ◌⊎◌, inl, inr, Option, none, some, List, [], ◌∷◌, ◌++◌, map, ltb, ◌==◌, if◌then◌else◌, Bytes,
  codes, ℤ, is_nonpos, to_ℕ, pos, length, take, fail_as, and_then,
}
use fileprocessor.Text.{decimal}
use fileprocessor.FallbackEmbedder.{FallbackEmbedder}

-- `net/http`: a request `R` of a URL with a body, and a response `P`. An error is its text.
pub record Http (R P : Type 0) : Type 0 where
  pub new_request : Bytes → Bytes → Bytes ⊎ R
  pub send : R → List (Bytes × Bytes) → Bytes ⊎ P
  pub read_body : P → Bytes ⊎ Bytes
  pub status_code : P → ℕ

-- `encoding/json` on the types of the two services; a `D` is a float64, a `V` a float32.
pub record Json (V D : Type 0) : Type 0 where
  pub encode_texts : List Bytes → Bytes → Option ℤ → Bytes ⊎ Bytes
  pub decode_vectors : Bytes → Bytes ⊎ List (List D)
  pub narrow : D → V
  pub encode_content : Bytes → Bytes → Bytes ⊎ Bytes
  pub decode_values : Bytes → Bytes ⊎ List V

pub record OpenAiEmbedder : Type 0 where
  pub url : Bytes
  pub api_key : Bytes
  pub model : Bytes
  pub dim : ℤ

pub record GeminiEmbedder : Type 0 where
  pub api_key : Bytes
  pub model : Bytes
  pub dim : ℤ

-- The value, or another one in the place of an empty text.
unfoldable pub or_text : Bytes → Bytes → Bytes
or_text given default = if length given == 0 then default else given

unfoldable pub or_dim : ℤ → ℤ → ℤ
or_dim given default = if is_nonpos given then default else given

unfoldable pub key_header : Bytes → Bytes → Bytes → List (Bytes × Bytes)
key_header name before key = if length key == 0 then [] else (name, before ++ key) ∷ []

-- The error of a status: `shown` is what the text names before it.
unfoldable pub status_error : Bytes → ℕ → Bytes → Bytes
status_error shown n raw = shown ++ (codes "HTTP " ++ (decimal n ++ (codes ": " ++ raw)))

unfoldable pub accept_status : Bytes → ℕ → Bytes → Bytes ⊎ Bytes
accept_status shown n raw = if n == 200 then inr raw else inl (status_error shown n raw)

-- The value of each result, or the first error.
unfoldable pub all_or_first : {A : Type 0} → List (Bytes ⊎ A) → Bytes ⊎ List A
all_or_first [] = inr []
all_or_first (r ∷ rs) = and_then r (λ a. and_then (all_or_first rs) (λ rest. inr (a ∷ rest)))

module _ {R P V D : Type 0} (http : Http R P) (json : Json V D) where
  -- The request and the body of its response, in both embedders.
  unfoldable pub exchange :
      Bytes → Bytes → Bytes → Bytes → Bytes × Bytes → List (Bytes × Bytes) → Bytes ⊎ Bytes
  exchange name shown url body content_type headers =
      and_then (fail_as (λ err. name ++ (codes "create req: " ++ err)) (http.new_request url body))
        (λ r.
          and_then
            (fail_as (λ err. name ++ (codes "http: " ++ err))
              (http.send r (content_type ∷ headers)))
            (λ p.
              and_then (fail_as (λ err. name ++ (codes "read body: " ++ err)) (http.read_body p))
                (accept_status shown (http.status_code p))))

  -- `OpenAIEmbedder.Embed`.
  unfoldable pub embed_open_ai : OpenAiEmbedder → List Bytes → Bytes ⊎ List (List V)
  embed_open_ai e texts =
      let dimensions = if is_nonpos e.dim then none else some e.dim in
      let name = codes "openai_embedder: " in
      if length texts == 0
      then inr []
      else and_then
          (fail_as (λ err. name ++ (codes "marshal: " ++ err))
            (json.encode_texts texts e.model dimensions))
          (λ body.
            and_then
              (exchange name (name ++ (e.url ++ codes " ")) e.url body
                (codes "Content-Type", codes "application/json")
                (key_header (codes "Authorization") (codes "Bearer ") e.api_key))
              (λ raw.
                and_then
                  (fail_as (λ err. name ++ (codes "decode: " ++ err)) (json.decode_vectors raw))
                  (λ found. inr (map (map json.narrow) found))))

  -- `embedURL`.
  unfoldable pub embed_url : GeminiEmbedder → Bytes
  embed_url e =
      codes "https://generativelanguage.googleapis.com/v1beta/models/"
      ++ (e.model ++ codes ":embedContent")

  -- `vals[:e.dim]`, where that is shorter.
  unfoldable pub cut_values : ℤ → List V → List V
  cut_values dim vals =
      if is_nonpos dim
      then vals
      else (if ltb (to_ℕ dim) (length vals) then take (to_ℕ dim) vals else vals)

  -- `embedOne`.
  unfoldable pub embed_one : GeminiEmbedder → Bytes → Bytes ⊎ List V
  embed_one e text =
      let name = codes "gemini_embedder: " in
      and_then
        (fail_as (λ err. name ++ (codes "marshal: " ++ err)) (json.encode_content e.model text))
        (λ body.
          and_then
            (exchange name name (embed_url e) body (codes "Content-Type", codes "application/json")
              (key_header (codes "x-goog-api-key") [] e.api_key))
            (λ raw.
              and_then (fail_as (λ err. name ++ (codes "decode: " ++ err)) (json.decode_values raw))
                (λ vals. inr (cut_values e.dim vals))))

  -- `GeminiEmbedder.Embed`: the requests are sent at once, and the results put in order.
  unfoldable pub embed_gemini : GeminiEmbedder → List Bytes → Bytes ⊎ List (List V)
  embed_gemini e texts =
      if length texts == 0 then inr [] else all_or_first (map (embed_one e) texts)

  -- `NewGeminiEmbedder`; the first argument is a random key.
  unfoldable pub new_gemini_embedder : Bytes → Bytes → Bytes → ℤ → GeminiEmbedder
  new_gemini_embedder random_key api_key model dim = record {
    api_key = or_text api_key random_key;
    model = or_text model (codes "gemini-embedding-2");
    dim = or_dim dim (pos 768);
  }

  -- `NewOpenAIEmbedder`; the first arguments are a random key of either service.
  unfoldable pub new_open_ai_embedder :
      (open_router_key gemini_key url api_key model : Bytes) → ℤ → FallbackEmbedder (List V)
  new_open_ai_embedder open_router_key gemini_key url api_key model dim =
      let actual = or_dim dim (pos 1024) in
      record {
        primary = embed_open_ai (record {
          url = url;
          api_key = or_text api_key open_router_key;
          model = model;
          dim = actual;
        });
        primary_dimension = to_ℕ actual;
        fallback =
            some (
              embed_gemini (new_gemini_embedder gemini_key [] (codes "gemini-embedding-2") actual));
      }
