-- ===== src/Client/Methods.antt =====
-- The typed variation methods of ldclient.go by name. The detail methods return the detail too and use the
-- scope whose events have reasons. A method whose name ends in Ctx gives its context.Context to the hooks,
-- which do not show it here, and is told apart by its name.
use go_server_sdk.Prelude.{String, ℤ, Bool, true, false, Option, Eq}
use go_server_sdk.Types.{Error, DataStore}
use go_server_sdk.Client.{EvaluationDetail, Engine}
use go_server_sdk.Client.Variations.{
  Conversions, unconverted, World, HookList, typed_variation, plain_variation,
}

-- The methods, each with its scope and its name.
module _ {A F X V T R S U D L : Type 0} ⦃t : Eq T⦄ (engine : Engine A F X V T R)
    (store : DataStore A S) (unset empty : D) where
  unfoldable pub bool_variation :
      Conversions L V
      → HookList (World U F X V R S) X V D R
      → String
      → X
      → Bool
      → World U F X V R S
      → Option ((Bool × Error) × World U F X V R S)
  bool_variation values hooks key context default_val w =
      plain_variation engine store unset empty (values.bools) true (w.1.events_default)
        "LDClient.BoolVariation" hooks key context default_val w

  unfoldable pub bool_variation_detail :
      Conversions L V
      → HookList (World U F X V R S) X V D R
      → String
      → X
      → Bool
      → World U F X V R S
      → Option (((Bool × EvaluationDetail V R) × Error) × World U F X V R S)
  bool_variation_detail values hooks key context default_val w =
      typed_variation engine store unset empty (values.bools) true (w.1.events_with_reasons)
        "LDClient.BoolVariationDetail" hooks key context default_val w

  unfoldable pub bool_variation_ctx :
      Conversions L V
      → HookList (World U F X V R S) X V D R
      → String
      → X
      → Bool
      → World U F X V R S
      → Option ((Bool × Error) × World U F X V R S)
  bool_variation_ctx values hooks key context default_val w =
      plain_variation engine store unset empty (values.bools) true (w.1.events_default)
        "LDClient.BoolVariationCtx" hooks key context default_val w

  unfoldable pub bool_variation_detail_ctx :
      Conversions L V
      → HookList (World U F X V R S) X V D R
      → String
      → X
      → Bool
      → World U F X V R S
      → Option (((Bool × EvaluationDetail V R) × Error) × World U F X V R S)
  bool_variation_detail_ctx values hooks key context default_val w =
      typed_variation engine store unset empty (values.bools) true (w.1.events_with_reasons)
        "LDClient.BoolVariationDetailCtx" hooks key context default_val w

  unfoldable pub int_variation :
      Conversions L V
      → HookList (World U F X V R S) X V D R
      → String
      → X
      → ℤ
      → World U F X V R S
      → Option ((ℤ × Error) × World U F X V R S)
  int_variation values hooks key context default_val w =
      plain_variation engine store unset empty (values.ints) true (w.1.events_default)
        "LDClient.IntVariation" hooks key context default_val w

  unfoldable pub int_variation_detail :
      Conversions L V
      → HookList (World U F X V R S) X V D R
      → String
      → X
      → ℤ
      → World U F X V R S
      → Option (((ℤ × EvaluationDetail V R) × Error) × World U F X V R S)
  int_variation_detail values hooks key context default_val w =
      typed_variation engine store unset empty (values.ints) true (w.1.events_with_reasons)
        "LDClient.IntVariationDetail" hooks key context default_val w

  unfoldable pub int_variation_ctx :
      Conversions L V
      → HookList (World U F X V R S) X V D R
      → String
      → X
      → ℤ
      → World U F X V R S
      → Option ((ℤ × Error) × World U F X V R S)
  int_variation_ctx values hooks key context default_val w =
      plain_variation engine store unset empty (values.ints) true (w.1.events_default)
        "LDClient.IntVariationCtx" hooks key context default_val w

  unfoldable pub int_variation_detail_ctx :
      Conversions L V
      → HookList (World U F X V R S) X V D R
      → String
      → X
      → ℤ
      → World U F X V R S
      → Option (((ℤ × EvaluationDetail V R) × Error) × World U F X V R S)
  int_variation_detail_ctx values hooks key context default_val w =
      typed_variation engine store unset empty (values.ints) true (w.1.events_with_reasons)
        "LDClient.IntVariationDetailCtx" hooks key context default_val w

  unfoldable pub float64_variation :
      Conversions L V
      → HookList (World U F X V R S) X V D R
      → String
      → X
      → L
      → World U F X V R S
      → Option ((L × Error) × World U F X V R S)
  float64_variation values hooks key context default_val w =
      plain_variation engine store unset empty (values.floats) true (w.1.events_default)
        "LDClient.Float64Variation" hooks key context default_val w

  unfoldable pub float64_variation_detail :
      Conversions L V
      → HookList (World U F X V R S) X V D R
      → String
      → X
      → L
      → World U F X V R S
      → Option (((L × EvaluationDetail V R) × Error) × World U F X V R S)
  float64_variation_detail values hooks key context default_val w =
      typed_variation engine store unset empty (values.floats) true (w.1.events_with_reasons)
        "LDClient.Float64VariationDetail" hooks key context default_val w

  unfoldable pub float64_variation_ctx :
      Conversions L V
      → HookList (World U F X V R S) X V D R
      → String
      → X
      → L
      → World U F X V R S
      → Option ((L × Error) × World U F X V R S)
  float64_variation_ctx values hooks key context default_val w =
      plain_variation engine store unset empty (values.floats) true (w.1.events_default)
        "LDClient.Float64VariationCtx" hooks key context default_val w

  unfoldable pub float64_variation_detail_ctx :
      Conversions L V
      → HookList (World U F X V R S) X V D R
      → String
      → X
      → L
      → World U F X V R S
      → Option (((L × EvaluationDetail V R) × Error) × World U F X V R S)
  float64_variation_detail_ctx values hooks key context default_val w =
      typed_variation engine store unset empty (values.floats) true (w.1.events_with_reasons)
        "LDClient.Float64VariationDetailCtx" hooks key context default_val w

  unfoldable pub string_variation :
      Conversions L V
      → HookList (World U F X V R S) X V D R
      → String
      → X
      → String
      → World U F X V R S
      → Option ((String × Error) × World U F X V R S)
  string_variation values hooks key context default_val w =
      plain_variation engine store unset empty (values.strings) true (w.1.events_default)
        "LDClient.StringVariation" hooks key context default_val w

  unfoldable pub string_variation_detail :
      Conversions L V
      → HookList (World U F X V R S) X V D R
      → String
      → X
      → String
      → World U F X V R S
      → Option (((String × EvaluationDetail V R) × Error) × World U F X V R S)
  string_variation_detail values hooks key context default_val w =
      typed_variation engine store unset empty (values.strings) true (w.1.events_with_reasons)
        "LDClient.StringVariationDetail" hooks key context default_val w

  unfoldable pub string_variation_ctx :
      Conversions L V
      → HookList (World U F X V R S) X V D R
      → String
      → X
      → String
      → World U F X V R S
      → Option ((String × Error) × World U F X V R S)
  string_variation_ctx values hooks key context default_val w =
      plain_variation engine store unset empty (values.strings) true (w.1.events_default)
        "LDClient.StringVariationCtx" hooks key context default_val w

  unfoldable pub string_variation_detail_ctx :
      Conversions L V
      → HookList (World U F X V R S) X V D R
      → String
      → X
      → String
      → World U F X V R S
      → Option (((String × EvaluationDetail V R) × Error) × World U F X V R S)
  string_variation_detail_ctx values hooks key context default_val w =
      typed_variation engine store unset empty (values.strings) true (w.1.events_with_reasons)
        "LDClient.StringVariationDetailCtx" hooks key context default_val w

-- The types of JSON values are not checked.
module _ {A F X V T R S U D : Type 0} ⦃t : Eq T⦄ (engine : Engine A F X V T R)
    (store : DataStore A S) (unset empty : D) where
  unfoldable pub json_variation :
      HookList (World U F X V R S) X V D R
      → String
      → X
      → V
      → World U F X V R S
      → Option ((V × Error) × World U F X V R S)
  json_variation hooks key context default_val w =
      plain_variation engine store unset empty unconverted false (w.1.events_default)
        "LDClient.JSONVariation" hooks key context default_val w

  unfoldable pub json_variation_detail :
      HookList (World U F X V R S) X V D R
      → String
      → X
      → V
      → World U F X V R S
      → Option (((V × EvaluationDetail V R) × Error) × World U F X V R S)
  json_variation_detail hooks key context default_val w =
      typed_variation engine store unset empty unconverted false (w.1.events_with_reasons)
        "LDClient.JSONVariationDetail" hooks key context default_val w

  unfoldable pub json_variation_ctx :
      HookList (World U F X V R S) X V D R
      → String
      → X
      → V
      → World U F X V R S
      → Option ((V × Error) × World U F X V R S)
  json_variation_ctx hooks key context default_val w =
      plain_variation engine store unset empty unconverted false (w.1.events_default)
        "LDClient.JSONVariationCtx" hooks key context default_val w

  unfoldable pub json_variation_detail_ctx :
      HookList (World U F X V R S) X V D R
      → String
      → X
      → V
      → World U F X V R S
      → Option (((V × EvaluationDetail V R) × Error) × World U F X V R S)
  json_variation_detail_ctx hooks key context default_val w =
      typed_variation engine store unset empty unconverted false (w.1.events_with_reasons)
        "LDClient.JSONVariationDetailCtx" hooks key context default_val w
