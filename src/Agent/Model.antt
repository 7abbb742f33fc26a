-- ===== src/Agent/Model.antt =====
-- python/analytics/agent/llm.py. What the two providers answer is a parameter, as are `json.loads`
-- and whether a client can be made; the sentences of a reason are constructors.
pub mod Replies
use quer_project_q.Common.{
  String, Bool, true, false, Option, none, some, List, [], ◌∷◌, str_eq, if◌then◌else◌, ℤ, pos,
  ◌>>=◌,
}
use quer_project_q.Agent.Json.{
  Json, null, bool, int, num, str, arr, obj, Items, nil, cons, Fields, end, field, Dict, fields,
  get_or_null, truthy, is_null,
}
use quer_project_q.Agent.Config.{Config}

-- Why there is no payload.
pub data Failure : Type 0 where
  call_failed : String → Failure
  refused_request : Failure
  cut_off : ℤ → Failure
  no_text_block no_content : Failure
  not_valid_json : String → Failure
  not_an_object : String → Failure

-- A block of a hosted model's reply; `none` is an attribute that is not there.
pub record Block : Type 0 where
  pub kind : Option String
  pub text : String

pub record Response : Type 0 where
  pub stop_reason : Option String
  pub content : List Block

-- What `messages.create` does.
pub data Created : Type 0 where
  created : Response → Created
  create_failed : String → Created

module _ (Float : Type 0) where
  -- What `chat` does: the JSON of the reply, or an exception.
  pub data Chatted : Type 0 where
    chatted : Json Float → Chatted
    chat_failed : String → Chatted

  -- `json.loads`
  pub data Loads : Type 0 where
    loads_as : Json Float → Loads
    garbled : String → Loads

  -- The methods of a client: `messages.create`, with its keywords, and `chat`, with its body.
  pub record Client : Type 0 where
    pub create : Dict Float → Created
    pub chat : Json Float → Chatted

  -- (payload, reason)
  pub record Reply : Type 0 where
    pub payload : Option (Json Float)
    pub reason : Option Failure

-- getattr(value, name, None) == text
abbrev pub is_text : String → Option String → Bool
is_text t none = false
is_text t (some s) = str_eq s t

-- The text of the first text block.
unfoldable pub first_text : List Block → Option String
first_text [] = none
first_text (b ∷ bs) =
    let rest = first_text bs in if is_text "text" b.kind then some b.text else rest

module _ {Float : Type 0} where
  abbrev pub fail : Failure → Reply Float
  fail why = record { payload = none; reason = some why }

  -- `type(payload).__name__`, None apart
  unfoldable pub kind_name : Json Float → String
  kind_name null = "null"
  kind_name (bool b) = "bool"
  kind_name (int n) = "int"
  kind_name (num x) = "float"
  kind_name (str s) = "str"
  kind_name (arr xs) = "list"
  kind_name (obj fs) = "dict"

  unfoldable pub checked : Json Float → Reply Float
  unfolding kind_name
  checked (obj fs) = record { payload = some (obj fs); reason = none }
  checked v = fail (not_an_object (kind_name v))

  -- The keywords of `messages.create`.
  unfoldable pub anthropic_request : Config Float → String → String → Json Float → Dict Float
  anthropic_request cfg system prompt schema =
      ("model", str cfg.model)
      ∷ ("max_tokens", int cfg.max_tokens)
      ∷ ("thinking", obj (field "type" (str "adaptive") end))
      ∷ (
        "output_config",
        obj (
            field "effort" (str cfg.effort) (
              field "format" (obj (field "type" (str "json_schema") (field "schema" schema end)))
                end)),
      )
      ∷ ("system", str system)
      ∷ (
        "messages",
        arr (cons (obj (field "role" (str "user") (field "content" (str prompt) end))) nil),
      )
      ∷ []

  abbrev chat_message : String → String → Json Float
  chat_message role content = obj (field "role" (str role) (field "content" (str content) end))

  unfoldable pub ollama_body : Config Float → String → String → Json Float → Json Float
  ollama_body cfg system prompt schema = obj (
      field "model" (str cfg.model) (
        field "stream" (bool false) (
          field "format" schema (
            field "options"
              (obj (field "num_ctx" (int cfg.num_ctx) (field "temperature" (int (pos 0)) end)))
              (field "messages"
                (arr (cons (chat_message "system" system) (cons (chat_message "user" prompt) nil)))
                (if is_null cfg.think then end else field "think" cfg.think end))))))

  -- `v.get(key)`, of a value that may be no dict: `none` is the AttributeError.
  unfoldable pub get_of : String → Json Float → Option (Json Float)
  get_of key (obj fs) = some (get_or_null key (fields fs))
  get_of key v = none

-- `loads` is `json.loads`; `zero_float` is whether a float is 0.
module _ {Float : Type 0} (zero_float : Float → Bool) (loads : Json Float → Loads Float) where
  unfoldable pub loaded_reply : Loads Float → Reply Float
  unfolding checked
  loaded_reply (loads_as v) = checked v
  loaded_reply (garbled e) = fail (not_valid_json e)

  -- `_parse`
  unfoldable pub parse : Json Float → Reply Float
  unfolding loaded_reply
  parse text = loaded_reply (loads text)

  unfoldable pub text_reply : Option String → Reply Float
  unfolding parse
  text_reply none = fail no_text_block
  text_reply (some text) = parse (str text)

  unfoldable pub created_reply : Config Float → Created → Reply Float
  unfolding text_reply first_text
  created_reply cfg (create_failed e) = fail (call_failed e)
  created_reply cfg (created response) =
      if is_text "refusal" response.stop_reason
      then fail refused_request
      else if is_text "max_tokens" response.stop_reason
      then fail (cut_off cfg.max_tokens)
      else text_reply (first_text response.content)

  -- `_anthropic_call`
  unfoldable pub anthropic_call :
      Config Float → Client Float → String → String → Json Float → Reply Float
  unfolding created_reply anthropic_request
  anthropic_call cfg client system prompt schema =
      created_reply cfg (client.create (anthropic_request cfg system prompt schema))

  -- `(message or {}).get("content")`
  unfoldable pub content_of : Json Float → Option (Json Float)
  unfolding get_of
  content_of message = if truthy zero_float message then get_of "content" message else some null

  unfoldable pub content_reply : Json Float → Reply Float
  unfolding parse
  content_reply text = if truthy zero_float text then parse text else fail no_content

  -- What follows the call in `_ollama_call`; `none` is an exception, which nothing catches.
  unfoldable pub chatted_reply : Chatted Float → Option (Reply Float)
  unfolding content_of content_reply
  chatted_reply (chat_failed e) = some (fail (call_failed e))
  chatted_reply (chatted response) =
      get_of "message" response >>= content_of >>= λ text. some (content_reply text)

  -- `_ollama_call`
  unfoldable pub ollama_call :
      Config Float → Client Float → String → String → Json Float → Option (Reply Float)
  unfolding chatted_reply ollama_body
  ollama_call cfg client system prompt schema =
      chatted_reply (client.chat (ollama_body cfg system prompt schema))

  -- `json_call`; a provider that `_CALLS` does not have is a KeyError.
  unfoldable pub json_call :
      Config Float → Client Float → String → String → Json Float → Option (Reply Float)
  unfolding anthropic_call ollama_call
  json_call cfg client system prompt schema =
      if str_eq cfg.provider "anthropic"
      then some (anthropic_call cfg client system prompt schema)
      else if str_eq cfg.provider "ollama"
      then ollama_call cfg client system prompt schema
      else none

-- `client`: the constructor of the provider's client, which may raise (`none`); so may the lookup.
unfoldable pub make_client :
    {Float : Type 0}
    → (Config Float → Option (Client Float))
    → (Config Float → Option (Client Float))
    → Config Float
    → Option (Client Float)
make_client anthropic_client ollama_client cfg =
    if str_eq cfg.provider "anthropic"
    then anthropic_client cfg
    else if str_eq cfg.provider "ollama"
    then ollama_client cfg
    else none
