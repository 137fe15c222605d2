-- ===== src/Slack/Adapter.antt =====
-- slack/adapter.go: NewAdapter with its options, and Run. `C` stands for the clients, `H` and `E` for the
-- payload handlers of the two APIs; `golack` is `golack.New` for a configuration with a token, a secret,
-- a port and, where it is set, a timeout.
use go_sarah.Shared.{
  ℕ, ◌≡◌, refl, ◌∙◌, inl, inr, Bool, true, false, not, ◌&&◌, ◌||◌, Option, none, some, List, [],
  ◌∷◌, arith, if◌then◌else◌, Bool-cases, is_nil, ◌==◌, nat_eq, any, Text, codes, text_eq, is_empty,
  Result, ok, err, Outcome, returns, panics,
}
use go_sarah.Errors.{Error, plain}
use go_sarah.Slack.{Config}
use go_sarah.Slack.Connection.{Attempt, new_run, run, ServerEnd, run_events}

-- What `apiSpecificAdapterBuilder` builds.
pub data ApiSpecificAdapter (H E : Type 0) : Type 0 where
  rtm_api_adapter : H → ApiSpecificAdapter H E
  events_api_adapter : E → ApiSpecificAdapter H E

-- `Adapter`, whose fields may be nil before NewAdapter is done.
pub record Adapter (C H E : Type 0) : Type 0 where
  pub config : Config
  pub client : Option C
  pub builder : Option (ApiSpecificAdapter H E)

pub data AdapterOption (C H E : Type 0) : Type 0 where
  with_slack_client : C → AdapterOption C H E
  with_events_payload_handler : E → AdapterOption C H E
  with_rtm_payload_handler : H → AdapterOption C H E

abbrev pub no_client : Error
no_client = plain (
    codes
      "Slack client must be provided with WithSlackClient option or must be configurable with given *Config")

abbrev pub no_handler : Error
no_handler = plain (
    codes
      "RTM or Events API configuration must be applied with WithRTMPayloadHandler or WithEventsPayloadHandler")

given_timeout : ℕ → Option ℕ
given_timeout t = if t == 0 then none else some t

-- The client, made of the configuration if no option gives one.
client_of : {C : Type 0} → (Text → Text → ℕ → Option ℕ → C) → Config → Option C → Result Error C
unfolding given_timeout
client_of golack config (some c) = ok c
client_of golack config none =
    if is_empty config.token
    then err no_client
    else ok (
        golack config.token config.app_secret config.listen_port
          (given_timeout config.request_timeout))

-- What happens to a connection of either API.
abbrev pub Course : Type 0
Course = List Attempt × ServerEnd

run_api : {H E : Type 0} → Option (ApiSpecificAdapter H E) → Course → Outcome (List Error)
run_api none course = panics
run_api (some (rtm_api_adapter h)) (attempts, end_) = returns (run attempts new_run).notified
run_api (some (events_api_adapter h)) (attempts, end_) = returns (run_events end_)

module _ {C H E : Type 0} where
  unfoldable pub apply : AdapterOption C H E → Adapter C H E → Adapter C H E
  apply (with_slack_client c) a = record a { client = some c }
  apply (with_events_payload_handler h) a = record a { builder = some (events_api_adapter h) }
  apply (with_rtm_payload_handler h) a = record a { builder = some (rtm_api_adapter h) }

  unfoldable pub apply_all : List (AdapterOption C H E) → Adapter C H E → Adapter C H E
  apply_all [] a = a
  apply_all (opt ∷ opts) a = apply_all opts (apply opt a)

  checked_builder : Adapter C H E → Option (ApiSpecificAdapter H E) → Result Error (Adapter C H E)
  checked_builder a none = err no_handler
  checked_builder a (some builder) = ok a

  with_client : Adapter C H E → Result Error C → Result Error (Adapter C H E)
  unfolding checked_builder
  with_client a (err e) = err e
  with_client a (ok c) = checked_builder (record a { client = some c }) a.builder

  -- `NewAdapter`.
  unfoldable pub new_adapter :
      (Text → Text → ℕ → Option ℕ → C)
      → Config
      → List (AdapterOption C H E)
      → Result Error (Adapter C H E)
  unfolding client_of with_client
  new_adapter golack config opts =
      let a = apply_all opts (record { config = config; client = none; builder = none }) in
      with_client a (client_of golack config a.client)

  -- `Adapter.Run`: the errors that it escalates.
  unfoldable pub run_adapter : Adapter C H E → Course → Outcome (List Error)
  unfolding run_api
  run_adapter a course = run_api a.builder course

  abbrev pub is_ok : Result Error (Adapter C H E) → Bool
  is_ok (ok a) = true
  is_ok (err e) = false

  abbrev pub gives_client : AdapterOption C H E → Bool
  gives_client (with_slack_client c) = true
  gives_client (with_events_payload_handler h) = false
  gives_client (with_rtm_payload_handler h) = false

  apply_all-fields :
      (opts : List (AdapterOption C H E)) (a : Adapter C H E)
      → (is_nil (apply_all opts a).client ≡ is_nil a.client && not (any gives_client opts))
        × (is_nil (apply_all opts a).builder
            ≡ is_nil a.builder && not (any (λ o. not (gives_client o)) opts))
  unfolding apply_all apply
  apply_all-fields [] a = (ground arith, ground arith)
  apply_all-fields (with_slack_client c ∷ opts) a =
      let (l, r) = apply_all-fields opts (record a { client = some c }) in (l ∙ ground arith, r)
  apply_all-fields (with_events_payload_handler h ∷ opts) a =
      let (l, r) = apply_all-fields opts (record a { builder = some (events_api_adapter h) }) in
      (l, r ∙ ground arith)
  apply_all-fields (with_rtm_payload_handler h ∷ opts) a =
      let (l, r) = apply_all-fields opts (record a { builder = some (rtm_api_adapter h) }) in
      (l, r ∙ ground arith)

  checked_builder-is_ok :
      (a : Adapter C H E) (o : Option (ApiSpecificAdapter H E))
      → is_ok (checked_builder a o) ≡ not (is_nil o)
  unfolding checked_builder
  checked_builder-is_ok a none = refl
  checked_builder-is_ok a (some b) = refl

  with_client-is_ok :
      (golack : Text → Text → ℕ → Option ℕ → C) (config : Config) (a : Adapter C H E) (c : Option C)
      (b : Option (ApiSpecificAdapter H E))
      → a.builder ≡ b
      → is_ok (with_client a (client_of golack config c))
        ≡ (not (is_nil c) || not (is_empty config.token)) && not (is_nil b)
  unfolding with_client client_of checked_builder
  with_client-is_ok golack config a (some c) none h = rw h refl
  with_client-is_ok golack config a (some c) (some b) h = rw h refl
  with_client-is_ok golack config a none b h = elim (Bool-cases (is_empty config.token)) [
    | inl missing ↦ rw missing refl
    | inr given_token ↦ rw (given_token, h) (checked_builder-is_ok _ b)
  ]

  -- NewAdapter makes an adapter exactly if an option gives a client or the configuration has a token, and an option gives a payload handler.
  pub new_adapter-is_ok :
      (golack : Text → Text → ℕ → Option ℕ → C) (config : Config)
      (opts : List (AdapterOption C H E))
      → is_ok (new_adapter golack config opts)
        ≡ (any gives_client opts || not (is_empty config.token))
          && any (λ o. not (gives_client o)) opts
  unfolding new_adapter
  new_adapter-is_ok golack config opts =
      let a : Adapter C H E =
        apply_all opts (record { config = config; client = none; builder = none }) in
      let (l, r) =
        apply_all-fields opts (record { config = config; client = none; builder = none }) in
      with_client-is_ok golack config a a.client a.builder refl ∙ rw (l, r) (ground arith)
