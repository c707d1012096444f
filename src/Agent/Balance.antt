-- ===== src/Agent/Balance.antt =====
-- agent/agent.go, executeTurn: the order of a turn's events, and the ends of what it starts.
use spice_agent.Base.{
  ℕ, ◌≡◌, refl, sym, subst, ap, ◌⊎◌, inl, inr, ◌+◌, Bool-cases, Bool, true, false, ◌||◌, if_intro,
  List, [], ◌∷◌, ◌++◌, Option, none, some, Result, err, ltb, leb, length, arith, Bytes,
}
use spice_agent.Event.Kind.{Kind, terminal_kind}
use spice_agent.Event.Envelope.{Envelope}
use spice_agent.Agent.Emitter.{Emitter, EmitError, is_committed}
use spice_agent.Agent.Emission.{IsInStep, IsEmission, emit-IsEmission}
use spice_agent.Agent.Turn.{
  Moment, TurnState, TurnCause, emission_failed, Received, text_delta, tool_call, stream_completed,
  stream_failed, invalid_event, recv_error, ◌>>=◌, note_attempt, attempted, send, send_failure,
  fail_turn, fail_model, durability, consume,
}

-- Where the events of a run stand with respect to its turns and model operations.
pub data TurnPhase : Type 0 where
  outside in_turn in_model model_broken after_model in_tool out_of_order : TurnPhase

-- The order of events: a turn may have one model operation, and after it its tools, one at a time.
unfoldable pub order : TurnPhase → Kind → TurnPhase
order outside Kind.turn_started = in_turn
order in_turn Kind.model_started = in_model
order in_turn Kind.turn_failed = outside
order in_model Kind.model_delta = in_model
order in_model Kind.model_completed = after_model
order in_model Kind.model_failed = model_broken
order model_broken Kind.turn_failed = outside
order after_model Kind.turn_completed = outside
order after_model Kind.turn_failed = outside
order after_model Kind.tool_started = in_tool
order in_tool Kind.tool_progress = in_tool
order in_tool Kind.tool_completed = after_model
order in_tool Kind.tool_failed = after_model
order _ _ = out_of_order

-- The phase after the committed events.
unfoldable pub phase_after : List (Kind × Bool) → TurnPhase
phase_after [] = outside
phase_after ((kind, true) ∷ earlier) = order (phase_after earlier) kind
phase_after ((kind, false) ∷ earlier) = phase_after earlier

-- A terminal event was not committed.
unfoldable pub lost_terminal : List (Kind × Bool) → Bool
lost_terminal [] = false
lost_terminal ((kind, true) ∷ earlier) = lost_terminal earlier
lost_terminal ((kind, false) ∷ earlier) = terminal_kind kind || lost_terminal earlier

-- The events stand at the phase, if no terminal event was lost.
abbrev pub StandsAt : TurnPhase → List (Kind × Bool) → Type 0
StandsAt p attempts = (lost_terminal attempts ≡ true) ⊎ (phase_after attempts ≡ p)

stands_committed :
    (p : TurnPhase) (kind : Kind) (as' : List (Kind × Bool))
    → StandsAt p as'
    → StandsAt (order p kind) ((kind, true) ∷ as')
unfolding lost_terminal phase_after
stands_committed p kind as' (inl lost) = inl lost
stands_committed p kind as' (inr at) = inr (ap (λ x. order x kind) at)

stands_refused :
    (p : TurnPhase) (kind : Kind) (as' : List (Kind × Bool))
    → StandsAt p as'
    → StandsAt p ((kind, false) ∷ as')
unfolding lost_terminal phase_after
stands_refused p kind as' (inl lost) = inl (ground (arith, lost))
stands_refused p kind as' (inr at) = inr at

stands_lost :
    (p : TurnPhase) (kind : Kind) (as' : List (Kind × Bool))
    → terminal_kind kind ≡ true
    → StandsAt p ((kind, false) ∷ as')
unfolding lost_terminal
stands_lost p kind as' h = inl (ground (arith, h))

-- A state between two emissions of a turn.
pub record IsAt (p : TurnPhase) (s : TurnState) : Type 0 where
  pub in_step : IsInStep s.emitter
  pub stands : StandsAt p s.attempts

abbrev pub Attempted : TurnState → Kind → TurnState × Option EmitError → Type 0
Attempted s kind (s', failure) =
    IsInStep s'.emitter × (s'.attempts ≡ (kind, is_committed failure) ∷ s.attempts)

-- What the ends of the parts of a turn come to.
abbrev pub FailsAt : TurnPhase → Option (TurnState × List TurnCause) → Type 0
FailsAt p none = ⊥
FailsAt p (some (s, causes)) = IsAt p s

abbrev pub ConsumesAt :
    {C : Type 0} → Option (TurnState × Result (List TurnCause) (Bytes × List C)) → Type 0
ConsumesAt none = ⊥
ConsumesAt (some (s, result)) = IsAt in_model s

module _ (json_valid : Bytes → Bool) (marshal : Envelope → Option Bytes) (script : ℕ → Moment) where
  attempted_lem :
      (s : TurnState) (kind : Kind) (answer : Option (Emitter × Option EmitError))
      → IsEmission s.emitter kind answer
      → (r : TurnState × Option EmitError) × (attempted json_valid marshal script s kind answer
          ≡ some r)
        × Attempted s kind r
  unfolding attempted note_attempt
  attempted_lem s kind none h = absurd h
  attempted_lem s kind (some (emitter, failure)) h =
      (note_attempt json_valid marshal script s kind (emitter, failure), refl, (h.0, refl))

  pub send_lem :
      (kind : Kind) (s : TurnState)
      → IsInStep s.emitter
      → (r : TurnState × Option EmitError) × (send json_valid marshal script kind s ≡ some r)
        × Attempted s kind r
  unfolding send
  send_lem kind s v = attempted_lem s kind _ (
      emit-IsEmission json_valid marshal (script s.moment).ended (script s.moment).encoding
        s.emitter (script s.moment).now kind (script s.moment).acknowledged v)

  pub send_failure_lem :
      (kind : Kind) (s : TurnState)
      → IsInStep s.emitter
      → (r : TurnState × Option EmitError) × (send_failure json_valid marshal script kind s
          ≡ some r)
        × Attempted s kind r
  unfolding send_failure
  send_failure_lem kind s v = attempted_lem s kind _ (
      emit-IsEmission json_valid marshal none (script s.moment).encoding s.emitter
        (script s.moment).now kind (script s.moment).acknowledged v)

  -- After an attempt: at the next phase if it was committed.
  pub landed :
      (p : TurnPhase) (kind : Kind) (s : TurnState) (r : TurnState × Option EmitError)
      → IsAt p s
      → Attempted s kind r
      → is_committed r.1 ≡ true
      → IsAt (order p kind) r.0
  landed p kind s (s', failure) v (step, made) yes_committed = record {
    in_step = step;
    stands =
        subst (StandsAt (order p kind))
          (sym (subst (λ b. s'.attempts ≡ (kind, b) ∷ s.attempts) yes_committed made))
          (stands_committed p kind s.attempts v.stands);
  }

  -- An attempt that was refused leaves the phase.
  pub refused :
      (p : TurnPhase) (kind : Kind) (s : TurnState) (r : TurnState × Option EmitError)
      → IsAt p s
      → Attempted s kind r
      → is_committed r.1 ≡ false
      → IsAt p r.0
  refused p kind s (s', failure) v (step, made) not_committed = record {
    in_step = step;
    stands =
        subst (StandsAt p)
          (sym (subst (λ b. s'.attempts ≡ (kind, b) ∷ s.attempts) not_committed made))
          (stands_refused p kind s.attempts v.stands);
  }

  -- A terminal event brings its phase, or is lost.
  pub closed :
      (p : TurnPhase) (kind : Kind) (s : TurnState) (r : TurnState × Option EmitError)
      → terminal_kind kind ≡ true
      → IsAt p s
      → Attempted s kind r
      → IsAt (order p kind) r.0
  closed p kind s (s', failure) t v (step, made) = elim (Bool-cases (is_committed failure)) [
    | inl c ↦ landed p kind s (s', failure) v (step, made) c
    | inr c ↦ record {
      in_step = step;
      stands =
          subst (StandsAt (order p kind))
            (sym (subst (λ b. s'.attempts ≡ (kind, b) ∷ s.attempts) c made))
            (stands_lost (order p kind) kind s.attempts t);
    }
  ]

  pub fail_turn_lem :
      (p : TurnPhase) (causes : List TurnCause) (s : TurnState)
      → order p Kind.turn_failed ≡ outside
      → IsAt p s
      → FailsAt outside (fail_turn json_valid marshal script causes s)
  unfolding fail_turn terminal_kind
  fail_turn_lem p causes s h v =
      let (r, run, att) = send_failure_lem Kind.turn_failed s v.in_step in
      subst
        (λ x. FailsAt outside (x >>= λ y. some (y.0, causes ++ durability Kind.turn_failed y.1)))
        (sym run) (subst (λ q. IsAt q r.0) h (closed p Kind.turn_failed s r refl v att))

  pub fail_model_lem :
      (causes : List TurnCause) (s : TurnState)
      → IsAt in_model s
      → FailsAt outside (fail_model json_valid marshal script causes s)
  unfolding fail_model terminal_kind order
  fail_model_lem causes s v =
      let (r, run, att) = send_failure_lem Kind.model_failed s v.in_step in
      subst
        (λ x. FailsAt outside (
          x >>= λ y.
          fail_turn json_valid marshal script (causes ++ durability Kind.model_failed y.1) y.0))
        (sym run)
        (fail_turn_lem model_broken (causes ++ durability Kind.model_failed r.1) r.0 refl
          (closed in_model Kind.model_failed s r refl v att))

  module _ {C : Type 0} where
    delta_lem :
        (rest : List (Received C)) (text : Bytes) (calls : List C) (s : TurnState)
        (r : TurnState × Option EmitError)
        → IsAt in_model s
        → Attempted s Kind.model_delta r
        → ((s' : TurnState)
            → IsAt in_model s'
            → ConsumesAt (consume json_valid marshal script rest text calls s'))
        → ConsumesAt (elim r.1 [
          | none ↦ consume json_valid marshal script rest text calls r.0
          | some failure ↦ some (r.0, err (emission_failed failure ∷ []))
        ])
    unfolding order is_committed
    delta_lem rest text calls s (s', none) v att more =
        more s' (landed in_model Kind.model_delta s (s', none) v att refl)
    delta_lem rest text calls s (s', some failure) v att more =
        elim (Bool-cases (is_committed (some failure))) [
          | inl c ↦ landed in_model Kind.model_delta s (s', some failure) v att c
          | inr c ↦ refused in_model Kind.model_delta s (s', some failure) v att c
        ]

    -- The stream's events keep the turn in its model operation.
    pub consume_lem :
        (answers : List (Received C)) (text : Bytes) (calls : List C) (s : TurnState)
        → IsAt in_model s
        → ConsumesAt (consume json_valid marshal script answers text calls s)
    unfolding consume
    consume_lem [] text calls s v = v
    consume_lem (recv_error ∷ rest) text calls s v = v
    consume_lem (invalid_event ∷ rest) text calls s v = v
    consume_lem (stream_failed ∷ rest) text calls s v = v
    consume_lem (stream_completed ∷ rest) text calls s v = v
    consume_lem (tool_call call ∷ rest) text calls s v =
        if_intro ConsumesAt (leb 128 (length calls)) (λ _. v)
          (λ _. consume_lem rest text (calls ++ call ∷ []) s v)
    consume_lem (text_delta value ∷ rest) text calls s v =
        if_intro ConsumesAt (ltb 4194304 (length text + length value)) (λ _. v)
          (λ _.
            let (r, run, att) = send_lem Kind.model_delta s v.in_step in
            subst
              (λ x. ConsumesAt (
                x >>= λ y. elim y.1 [
                  | none ↦ consume json_valid marshal script rest (text ++ value) calls y.0
                  | some failure ↦ some (y.0, err (emission_failed failure ∷ []))
                ]))
              (sym run)
              (delta_lem rest (text ++ value) calls s r v att
                (λ s' v'. consume_lem rest (text ++ value) calls s' v')))
