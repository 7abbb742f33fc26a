-- ===== src/Agent/Model/Replies.antt =====
-- What `json_call` of python/analytics/agent/llm.py promises the planner and the narrator.
use quer_project_q.Common.{
  String, ◌≡◌, refl, Bool, true, false, Bool-cases, Option, none, some, inl, inr, ◌⊎◌, str_eq,
  ◌>>=◌,
}
use quer_project_q.Agent.Json.{
  Json, null, bool, int, num, str, arr, obj, Fields, fields, get_or_null, truthy,
}
use quer_project_q.Agent.Config.{Config}
use quer_project_q.Agent.Model.{
  Failure, Created, created, create_failed, Chatted, chatted, chat_failed, Loads, loads_as, garbled,
  Client, Reply, fail, checked, first_text, is_text, loaded_reply, parse, text_reply, created_reply,
  anthropic_request, anthropic_call, ollama_body, get_of, content_of, content_reply, chatted_reply,
  ollama_call, json_call,
}

module _ {Float : Type 0} where
  -- Either an object and no reason, or a reason and no payload.
  abbrev pub IsReply : Reply Float → Type 0
  IsReply r =
      ((fs : Fields Float) × (r.payload ≡ some (obj fs)) × (r.reason ≡ none))
      ⊎ ((why : Failure) × (r.payload ≡ none) × (r.reason ≡ some why))

  -- No dict.
  abbrev pub IsNoDict : Json Float → Type 0
  IsNoDict (obj fs) = ⊥
  IsNoDict v = Unit

  -- A reply of the local model that is no dict, or whose message is something else than a dict
  -- that counts as true.
  abbrev pub IsMisshapen : (Float → Bool) → Json Float → Type 0
  IsMisshapen zero_float response =
      IsNoDict response
      ⊎ ((fs : Fields Float) × (message : Json Float) × (response ≡ obj fs)
          × (message ≡ get_or_null "message" (fields fs))
          × (truthy zero_float message ≡ true)
          × IsNoDict message)

  fail-IsReply : (why : Failure) → IsReply (fail why)
  fail-IsReply why = inr (why, refl, refl)

  checked-IsReply : (v : Json Float) → IsReply (checked v)
  unfolding checked
  checked-IsReply null = fail-IsReply _
  checked-IsReply (bool b) = fail-IsReply _
  checked-IsReply (int n) = fail-IsReply _
  checked-IsReply (num x) = fail-IsReply _
  checked-IsReply (str s) = fail-IsReply _
  checked-IsReply (arr xs) = fail-IsReply _
  checked-IsReply (obj fs) = inl (fs, refl, refl)

module _ {Float : Type 0} (zero_float : Float → Bool) (loads : Json Float → Loads Float) where
  loaded-IsReply : (l : Loads Float) → IsReply (loaded_reply zero_float loads l)
  unfolding loaded_reply
  loaded-IsReply (loads_as v) = checked-IsReply v
  loaded-IsReply (garbled e) = fail-IsReply _

  parse-IsReply : (text : Json Float) → IsReply (parse zero_float loads text)
  unfolding parse
  parse-IsReply text = loaded-IsReply (loads text)

  text-IsReply : (o : Option String) → IsReply (text_reply zero_float loads o)
  unfolding text_reply
  text-IsReply none = fail-IsReply _
  text-IsReply (some text) = parse-IsReply (str text)

  created-IsReply :
      (cfg : Config Float) (c : Created) → IsReply (created_reply zero_float loads cfg c)
  unfolding created_reply
  created-IsReply cfg (create_failed e) = fail-IsReply _
  created-IsReply cfg (created response) =
      elim (Bool-cases (is_text "refusal" response.stop_reason)) [
        | inl refusal ↦ rw refusal (fail-IsReply _)
        | inr go_on ↦ elim (Bool-cases (is_text "max_tokens" response.stop_reason)) [
          | inl cut ↦ rw (go_on, cut) (fail-IsReply _)
          | inr whole ↦ rw (go_on, whole) (text-IsReply (first_text response.content))
        ]
      ]

  content-IsReply : (text : Json Float) → IsReply (content_reply zero_float loads text)
  unfolding content_reply
  content-IsReply text = elim (Bool-cases (truthy zero_float text)) [
    | inl some_text ↦ rw some_text (parse-IsReply text)
    | inr empty ↦ rw empty (fail-IsReply _)
  ]

  -- What `chat` does, where `_ollama_call` raises.
  abbrev pub Raises : Chatted Float → Type 0
  Raises (chatted response) = IsMisshapen zero_float response
  Raises (chat_failed e) = ⊥

  abbrev pub ChatReply : Chatted Float → Option (Reply Float) → Type 0
  ChatReply c none = Raises c
  ChatReply c (some r) = IsReply r

  dict_message-ChatReply :
      (fs : Fields Float) (message : Json Float)
      → message ≡ get_or_null "message" (fields fs)
      → truthy zero_float message ≡ true
      → ChatReply
          (chatted (obj fs))
          (get_of "content" message >>= λ text. some (content_reply zero_float loads text))
  unfolding get_of
  dict_message-ChatReply fs (obj m) e h = content-IsReply _
  dict_message-ChatReply fs null e h = inr (fs, null, refl, e, h, tt)
  dict_message-ChatReply fs (bool b) e h = inr (fs, bool b, refl, e, h, tt)
  dict_message-ChatReply fs (int n) e h = inr (fs, int n, refl, e, h, tt)
  dict_message-ChatReply fs (num x) e h = inr (fs, num x, refl, e, h, tt)
  dict_message-ChatReply fs (str s) e h = inr (fs, str s, refl, e, h, tt)
  dict_message-ChatReply fs (arr xs) e h = inr (fs, arr xs, refl, e, h, tt)

  message-ChatReply :
      (fs : Fields Float) (message : Json Float)
      → message ≡ get_or_null "message" (fields fs)
      → ChatReply (chatted (obj fs)) (
          content_of zero_float loads message >>= λ text.
          some (content_reply zero_float loads text))
  unfolding content_of
  message-ChatReply fs message e = elim (Bool-cases (truthy zero_float message)) [
    | inl there ↦ rw there (dict_message-ChatReply fs message e there)
    | inr empty ↦ rw empty (content-IsReply null)
  ]

  chatted-ChatReply : (c : Chatted Float) → ChatReply c (chatted_reply zero_float loads c)
  unfolding chatted_reply get_of
  chatted-ChatReply (chat_failed e) = fail-IsReply _
  chatted-ChatReply (chatted (obj fs)) = message-ChatReply fs _ refl
  chatted-ChatReply (chatted null) = inl tt
  chatted-ChatReply (chatted (bool b)) = inl tt
  chatted-ChatReply (chatted (int n)) = inl tt
  chatted-ChatReply (chatted (num x)) = inl tt
  chatted-ChatReply (chatted (str s)) = inl tt
  chatted-ChatReply (chatted (arr xs)) = inl tt

  -- What `json_call` returns, or why it raises: the provider is none of the two, or it is the local
  -- one and its reply is misshapen.
  abbrev pub CallReply : Config Float → Client Float → Json Float → Option (Reply Float) → Type 0
  CallReply cfg client body (some r) = IsReply r
  CallReply cfg client body none =
      (str_eq cfg.provider "anthropic" ≡ false)
      × ((str_eq cfg.provider "ollama" ≡ false) ⊎ Raises (client.chat body))

  chat-CallReply :
      (cfg : Config Float) (client : Client Float) (body : Json Float) (o : Option (Reply Float))
      → str_eq cfg.provider "anthropic" ≡ false
      → ChatReply (client.chat body) o
      → CallReply cfg client body o
  chat-CallReply cfg client body none h k = (h, inr k)
  chat-CallReply cfg client body (some r) h k = k

  anthropic-IsReply :
      (cfg : Config Float) (client : Client Float) (system prompt : String) (schema : Json Float)
      → IsReply (anthropic_call zero_float loads cfg client system prompt schema)
  unfolding anthropic_call
  anthropic-IsReply cfg client system prompt schema =
      created-IsReply cfg (client.create (anthropic_request cfg system prompt schema))

  ollama-ChatReply :
      (cfg : Config Float) (client : Client Float) (system prompt : String) (schema : Json Float)
      → ChatReply
          (client.chat (ollama_body cfg system prompt schema))
          (ollama_call zero_float loads cfg client system prompt schema)
  unfolding ollama_call
  ollama-ChatReply cfg client system prompt schema =
      chatted-ChatReply (client.chat (ollama_body cfg system prompt schema))

  -- A call of a model returns either an object and no reason, or a reason and no payload, whatever
  -- the model answered. It raises only for a provider that is not known and, with the local
  -- provider, for a reply that is not a dict or whose message is not one.
  pub json_call-CallReply :
      (cfg : Config Float) (client : Client Float) (system prompt : String) (schema : Json Float)
      → CallReply cfg client
          (ollama_body cfg system prompt schema)
          (json_call zero_float loads cfg client system prompt schema)
  unfolding json_call
  json_call-CallReply cfg client system prompt schema =
      elim (Bool-cases (str_eq cfg.provider "anthropic")) [
        | inl hosted ↦ rw hosted (anthropic-IsReply cfg client system prompt schema)
        | inr other ↦ elim (Bool-cases (str_eq cfg.provider "ollama")) [
          | inl local ↦
              rw (other, local)
                (chat-CallReply cfg client (ollama_body cfg system prompt schema)
                  (ollama_call zero_float loads cfg client system prompt schema) other
                  (ollama-ChatReply cfg client system prompt schema))
          | inr unknown ↦ rw (other, unknown) (other, inl unknown)
        ]
      ]
