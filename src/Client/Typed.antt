-- ===== src/Client/Typed.antt =====
-- What the typed variation methods of ldclient.go promise, whatever the hooks do.
use go_server_sdk.Prelude.{
  String, Bool, true, Option, some, map_option, ◌≡◌, ◌≢◌, refl, ap, ◌∙◌, Eq,
}
use go_server_sdk.Types.{Error, DataStore}
use go_server_sdk.Hooks.Series.{each_with, series, run_evaluation_lem}
use go_server_sdk.Hooks.Stages.{pass}
use go_server_sdk.Client.{EvaluationDetail, EventsScope, Engine, variation_and_flag}
use go_server_sdk.Client.Fallbacks.{variation_and_flag-IsDefault, variation_and_flag-type}
use go_server_sdk.Client.Variations.{
  Conversion, EvaluationSeriesContext, World, HookList, evaluation, variation_with_hooks,
  typed_variation,
}

module _ {A F X V T R S U D P : Type 0} ⦃t : Eq T⦄ (engine : Engine A F X V T R)
    (store : DataStore A S) (unset empty : D) where
  -- A typed variation method ends without a panic, whatever its hooks do. Its value is that of the detail;
  -- if it returns an error, the value is the default value, for a conversion that gives a converted value
  -- back; and if types are checked and the default value is not null, the detail has a value of its type.
  pub typed_variation_lem :
      (conversion : Conversion P V) (check : Bool) (scope : EventsScope) (method : String)
      (hooks : HookList (World U F X V R S) X V D R) (key : String) (context : X) (default_val : P)
      (w : World U F X V R S)
      → ((p : P) → conversion.of_value (conversion.to_value p) ≡ p)
      → (r : ((P × EvaluationDetail V R) × Error) × World U F X V R S) × (typed_variation engine
            store unset empty conversion check scope method hooks key context default_val w
          ≡ some r)
        × (r.0.0.0 ≡ conversion.of_value (r.0.0.1.value))
        × ((e : String) → r.0.1 ≡ some e → r.0.0.0 ≡ default_val)
        × (check ≡ true
            → engine.value_type (conversion.to_value default_val) ≢ engine.null_type
            → engine.value_type (r.0.0.1.value)
              ≡ engine.value_type (conversion.to_value default_val))
  unfolding typed_variation variation_with_hooks series
  typed_variation_lem conversion check scope method hooks key context default_val w law =
      let default_value = conversion.to_value default_val in
      let about : EvaluationSeriesContext X V = record {
        flag_key = key;
        eval_context = context;
        default_value = default_value;
        method = method;
      } in
      let fn : World U F X V R S → (EvaluationDetail V R × (Option F × Error)) × World U F X V R S =
        evaluation engine store unset empty key context default_value check scope in
      let w₁ = (pass (λ hook d. hook.before_stage about d) (each_with empty hooks) w).1 in
      let convert : (EvaluationDetail V R × (Option F × Error)) × World U F X V R S
          → ((P × EvaluationDetail V R) × Error) × World U F X V R S =
        λ r. (((conversion.of_value (r.0.0.value), r.0.0), r.0.1.1), r.1) in
      (
        convert (series unset empty hooks about fn w),
        ap (map_option convert) (run_evaluation_lem unset empty hooks about fn w),
        refl,
        λ e failed.
            (ap conversion.of_value
                (variation_and_flag-IsDefault engine store key context default_value check scope
                  w₁.1 e failed).0
              ∙ law default_val),
        λ checked typed.
            (ap
                (λ b.
                  engine.value_type
                    (variation_and_flag engine store key context default_value b scope
                      w₁.1).0.0.0.value)
                checked
              ∙ variation_and_flag-type engine store key context default_value scope w₁.1 typed),
      )
