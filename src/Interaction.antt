-- ===== src/Interaction.antt =====
-- interaction/interaction.go: the scope of a run, the requests to a user and the responses.
use spice_agent.Base.{
  ℕ, Bool, ◌||◌, not, if◌then◌else◌, ltb, ◌==◌, length, Bytes, blank_or_padded, Result, ok, err,
  ◌>>=◌,
}

pub data InteractionError : Type 0 where
  bad_token token_too_long bad_prompt prompt_too_long bad_json json_too_long : InteractionError

-- MaximumPayloadBytes
abbrev pub maximum_interaction_bytes : ℕ
maximum_interaction_bytes = 524288

-- token
unfoldable pub token : Bytes → Result InteractionError Bytes
token value =
    if blank_or_padded value
    then err bad_token
    else if ltb 128 (length value)
    then err token_too_long
    else ok value

-- validateJSON. `json_valid` is json.Valid.
unfoldable pub validate_json : (Bytes → Bool) → Bytes → Result InteractionError Bytes
validate_json json_valid value =
    if length value == 0 || not (json_valid value)
    then err bad_json
    else if ltb maximum_interaction_bytes (length value)
    then err json_too_long
    else ok value

-- Scope, by its run ID.
pub record Scope : Type 0 where
  pub run_id : Bytes

pub record Request : Type 0 where
  pub id : Bytes
  pub kind : Bytes
  pub prompt : Bytes
  pub schema : Bytes

pub record Response : Type 0 where
  pub id : Bytes
  pub value : Bytes

-- NewScope
unfoldable pub new_scope : Bytes → Result InteractionError Scope
unfolding token
new_scope run_id = token run_id >>= λ r. ok (record { run_id = r })

-- The test of the prompt in NewRequest.
unfoldable pub check_prompt : Bytes → Result InteractionError Bytes
check_prompt prompt =
    if blank_or_padded prompt
    then err bad_prompt
    else if ltb maximum_interaction_bytes (length prompt)
    then err prompt_too_long
    else ok prompt

-- NewRequest
unfoldable pub new_request :
    (Bytes → Bool) → Bytes → Bytes → Bytes → Bytes → Result InteractionError Request
unfolding token check_prompt validate_json
new_request json_valid id kind prompt schema = token id >>= λ i. token kind >>= λ k.
    check_prompt prompt >>= λ p. validate_json json_valid schema >>= λ s.
    ok (record { id = i; kind = k; prompt = p; schema = s })

-- NewResponse
unfoldable pub new_response : (Bytes → Bool) → Bytes → Bytes → Result InteractionError Response
unfolding token validate_json
new_response json_valid id value =
    token id >>= λ i. validate_json json_valid value >>= λ v. ok (record { id = i; value = v })

-- Scope.Validate, Request.Validate and Response.Validate, as tests.
abbrev passes {ℓ} : {A : Type ℓ} → Result InteractionError A → Bool
passes (ok a) = Bool.true
passes (err e) = Bool.false

unfoldable pub valid_scope : Scope → Bool
unfolding new_scope
valid_scope scope = passes (new_scope scope.run_id)

unfoldable pub valid_request : (Bytes → Bool) → Request → Bool
unfolding new_request
valid_request json_valid r = passes (new_request json_valid r.id r.kind r.prompt r.schema)

unfoldable pub valid_response : (Bytes → Bool) → Response → Bool
unfolding new_response
valid_response json_valid r = passes (new_response json_valid r.id r.value)
