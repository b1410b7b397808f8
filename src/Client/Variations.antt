-- ===== src/Client/Variations.antt =====
-- ldclient.go: the evaluation with the hooks around it, and what the typed variation methods share.
use go_server_sdk.Prelude.{String, ℤ, Bool, Option, map_option, List, Eq}
use go_server_sdk.Types.{Error, DataStore}
use go_server_sdk.Hooks.{Hook, run_evaluation}
use go_server_sdk.Client.{EvaluationDetail, EventsScope, Engine, Client, variation_and_flag}

-- EvaluationSeriesContext of the package ldhooks.
pub record EvaluationSeriesContext (X V : Type 0) : Type 0 where
  pub flag_key : String
  pub eval_context : X
  pub default_value : V
  pub method : String

-- What the client uses of ldvalue for values of the type `P`, with the type's name in the methods.
pub record Conversion (P V : Type 0) : Type 0 where
  pub to_value : P → V
  pub of_value : V → P

pub record Conversions (L V : Type 0) : Type 0 where
  pub bools : Conversion Bool V
  pub ints : Conversion ℤ V
  pub floats : Conversion L V
  pub strings : Conversion String V

-- JSON values are not converted.
abbrev pub unconverted : {V : Type 0} → Conversion V V
unconverted = record { to_value = λ v. v; of_value = λ v. v }

-- `U` is the part of the world that is not the client.
abbrev pub World : (U F X V R S : Type 0) → Type 0
World U F X V R S = U × Client F X V R S

-- The hooks of the client's runner.
abbrev pub HookList : (W X V D R : Type 0) → Type 0
HookList W X V D R = List (Hook W (EvaluationSeriesContext X V) D (EvaluationDetail V R))

-- `unset` and `empty` are series data.
module _ {A F X V T R S U D : Type 0} ⦃t : Eq T⦄ (engine : Engine A F X V T R)
    (store : DataStore A S) (unset empty : D) where
  -- The function that variationWithHooks gives to the runner.
  abbrev pub evaluation :
      String
      → X
      → V
      → Bool
      → EventsScope
      → World U F X V R S
      → (EvaluationDetail V R × (Option F × Error)) × World U F X V R S
  evaluation key context default_val check_type scope w =
      let (((detail, flag), err), c) =
        variation_and_flag engine store key context default_val check_type scope w.1 in
      ((detail, (flag, err)), (w.0, c))

  unfoldable pub variation_with_hooks :
      HookList (World U F X V R S) X V D R
      → String
      → X
      → V
      → Bool
      → EventsScope
      → String
      → World U F X V R S
      → Option ((EvaluationDetail V R × (Option F × Error)) × World U F X V R S)
  variation_with_hooks hooks key context default_val check_type scope method w =
      run_evaluation unset empty hooks
        (record {
          flag_key = key;
          eval_context = context;
          default_value = default_val;
          method = method;
        })
        (evaluation key context default_val check_type scope) w

  -- What the typed methods share: the conversion of the default value and of the result.
  unfoldable pub typed_variation :
      {P : Type 0}
      → Conversion P V
      → Bool
      → EventsScope
      → String
      → HookList (World U F X V R S) X V D R
      → String
      → X
      → P
      → World U F X V R S
      → Option (((P × EvaluationDetail V R) × Error) × World U F X V R S)
  unfolding variation_with_hooks
  typed_variation conversion check_type scope method hooks key context default_val w =
      map_option (λ r. (((conversion.of_value (r.0.0.value), r.0.0), r.0.1.1), r.1))
        (variation_with_hooks hooks key context (conversion.to_value default_val) check_type scope
          method w)

  -- The methods without a detail.
  unfoldable pub plain_variation :
      {P : Type 0}
      → Conversion P V
      → Bool
      → EventsScope
      → String
      → HookList (World U F X V R S) X V D R
      → String
      → X
      → P
      → World U F X V R S
      → Option ((P × Error) × World U F X V R S)
  unfolding typed_variation
  plain_variation conversion check_type scope method hooks key context default_val w =
      map_option (λ r. ((r.0.0.0, r.0.1), r.1))
        (typed_variation conversion check_type scope method hooks key context default_val w)
