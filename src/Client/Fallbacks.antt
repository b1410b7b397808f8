-- ===== src/Client/Fallbacks.antt =====
-- What an evaluation of ldclient.go returns when it fails, and of which type.
use go_server_sdk.Prelude.{
  String, Bool, true, Option, none, some, ◌∷◌, if◌then◌else◌, if-elim, option-elim, Eq, ◌≡◌, ◌≢◌,
  refl, arith,
}
use go_server_sdk.Types.{Error, DataStore}
use go_server_sdk.Client.{
  EvaluationDetail, EvalResult, user_not_specified, client_not_ready, Engine, EventsScope, Client,
  new_evaluation_error, evaluate_internal, checked_detail, evaluation_event, variation_and_flag,
}

module _ {A F X V T R S : Type 0} ⦃t : Eq T⦄ (engine : Engine A F X V T R)
    (store : DataStore A S) where
  -- The three ways in which an evaluation ends.
  variation_cases :
      (P : (EvaluationDetail V R × Option F) × Error → Type 0) (key : String) (context : X)
      (default_val : V) (check : Bool) (scope : EventsScope) (client : Client F X V R S)
      → ((e : String)
          → P ((new_evaluation_error engine store default_val user_not_specified, none), some e))
      → P ((new_evaluation_error engine store default_val client_not_ready, none), none)
      → ((result : EvalResult V R) (flag : Option F) (err : Error)
          → P ((checked_detail engine store default_val check result err, flag), err))
      → P (variation_and_flag engine store key context default_val check scope client).0
  unfolding variation_and_flag
  variation_cases P key context default_val check scope client invalid offline evaluated =
      let (((result, flag), err), c) =
        evaluate_internal engine store key context default_val scope client in
      let detail = checked_detail engine store default_val check result err in
      let event =
        evaluation_event engine store scope key context default_val flag detail
          result.is_experiment in
      let not_ready : Answer =
        (((new_evaluation_error engine store default_val client_not_ready, none), none), client) in
      let answered : Answer = (
        ((detail, flag), err),
        if scope.disabled then c else record c { recorded = event ∷ c.recorded },
      ) in
      option-elim {A = String} {B = Answer} (λ r. P r.0) (engine.context_error context)
        (if client.offline then not_ready else answered)
        (λ e. (
          ((new_evaluation_error engine store default_val user_not_specified, none), some e),
          client,
        ))
        (λ n.
          if-elim {A = Answer} (λ r. P r.0) client.offline not_ready answered (λ o. offline)
            (λ o. evaluated result flag err))
        (λ e s. invalid e)
    where
      Answer : Type 0
      Answer = ((EvaluationDetail V R × Option F) × Error) × Client F X V R S

  -- An error's fallback.
  abbrev pub IsDefault : V → EvaluationDetail V R → Type 0
  IsDefault default_val detail = (detail.value ≡ default_val) × (detail.variation_index ≡ none)

  checked_detail-IsDefault :
      (default_val : V) (check : Bool) (result : EvalResult V R) (err : Error) (e : String)
      → err ≡ some e
      → IsDefault default_val (checked_detail engine store default_val check result err)
  unfolding checked_detail
  checked_detail-IsDefault default_val check result none e h = cc h
  checked_detail-IsDefault default_val check result (some _) e h = (refl, refl)

  checked_detail_type :
      (default_val : V) (result : EvalResult V R) (err : Error)
      → engine.value_type default_val ≢ engine.null_type
      → engine.value_type (checked_detail engine store default_val true result err).value
        ≡ engine.value_type default_val
  unfolding checked_detail new_evaluation_error
  checked_detail_type default_val result (some e) h = refl
  checked_detail_type default_val result none h = ground (
    arith,
    h,
    t.beq_iff (engine.value_type default_val) engine.null_type,
    t.beq_iff (engine.value_type result.detail.value) (engine.value_type default_val),
  )

  -- A checked evaluation with a default value that is not null returns a value of the default value's
  -- type, on every path.
  pub variation_and_flag-type :
      (key : String) (context : X) (default_val : V) (scope : EventsScope)
      (client : Client F X V R S)
      → engine.value_type default_val ≢ engine.null_type
      → engine.value_type
          (variation_and_flag engine store key context default_val true scope client).0.0.0.value
        ≡ engine.value_type default_val
  unfolding new_evaluation_error
  variation_and_flag-type key context default_val scope client h =
      variation_cases (λ r. engine.value_type r.0.0.value ≡ engine.value_type default_val) key
        context default_val true scope client (λ e. refl) refl
        (λ result flag err. checked_detail_type default_val result err h)

  -- An evaluation that returns an error returns the default value with no variation index.
  pub variation_and_flag-IsDefault :
      (key : String) (context : X) (default_val : V) (check : Bool) (scope : EventsScope)
      (client : Client F X V R S) (e : String)
      → (variation_and_flag engine store key context default_val check scope client).0.1 ≡ some e
      → IsDefault default_val
          (variation_and_flag engine store key context default_val check scope client).0.0.0
  unfolding new_evaluation_error
  variation_and_flag-IsDefault key context default_val check scope client e h =
      variation_cases (λ r. r.1 ≡ some e → IsDefault default_val r.0.0) key context default_val
        check scope client (λ e₁ f. (refl, refl)) (λ f. (refl, refl))
        (λ result flag err f. checked_detail-IsDefault default_val check result err e f) h
