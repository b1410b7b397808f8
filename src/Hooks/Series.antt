-- ===== src/Hooks/Series.antt =====
-- RunEvaluation of internal/hooks/runner.go: the evaluation between the two stages.
use go_server_sdk.Prelude.{
  suc, false, true, Option, none, some, map_option, List, [], ◌∷◌, map, ◌≡◌, refl, sym, ap, ◌∙◌,
  arith,
}
use go_server_sdk.Types.{Error}
use go_server_sdk.Hooks.{
  Hook, count, execute_stage, Execution, before_evaluation, after_evaluation,
  prepare_evaluation_series, run_evaluation,
}
use go_server_sdk.Hooks.Stages.{
  pass, pass_back, hooks_of, data_of, execute_stage-pass, execute_stage-pass_back,
}

abbrev pub zip : {H D : Type 0} → List H → List D → List (H × D)
zip [] ds = []
zip (h ∷ hs) [] = []
zip (h ∷ hs) (d ∷ ds) = (h, d) ∷ zip hs ds

-- Each hook with the same data.
abbrev pub each_with : {H D : Type 0} → D → List H → List (H × D)
each_with d hooks = map (λ h. (h, d)) hooks

hooks_of-zip :
    {H D : Type 0} (hs : List H) (ds : List D) → count ds ≡ count hs → hooks_of (zip hs ds) ≡ hs
hooks_of-zip [] ds e = refl
hooks_of-zip (h ∷ hs) [] e = ground (arith, e)
hooks_of-zip (h ∷ hs) (d ∷ ds) e = ap (λ r. h ∷ r) (hooks_of-zip hs ds (ground (arith, e)))

data_of-zip :
    {H D : Type 0} (hs : List H) (ds : List D) → count ds ≡ count hs → data_of (zip hs ds) ≡ ds
data_of-zip [] [] e = refl
data_of-zip [] (d ∷ ds) e = ground (arith, e)
data_of-zip (h ∷ hs) [] e = ground (arith, e)
data_of-zip (h ∷ hs) (d ∷ ds) e = ap (λ r. d ∷ r) (data_of-zip hs ds (ground (arith, e)))

hooks_of-each_with : {H D : Type 0} (d : D) (hs : List H) → hooks_of (each_with d hs) ≡ hs
hooks_of-each_with d [] = refl
hooks_of-each_with d (h ∷ hs) = ap (λ r. h ∷ r) (hooks_of-each_with d hs)

data_of-each_with :
    {H D : Type 0} (d : D) (hs : List H) → data_of (each_with d hs) ≡ map (λ _. d) hs
data_of-each_with d [] = refl
data_of-each_with d (h ∷ hs) = ap (λ r. d ∷ r) (data_of-each_with d hs)

count-pass :
    {H D W : Type 0} (fn : H → D → W → (D × Error) × W) (d : D) (hs : List H) (w : W)
    → count (pass fn (each_with d hs) w).0 ≡ count hs
unfolding pass
count-pass fn d [] w = refl
count-pass fn d (h ∷ hs) w = ap suc (count-pass fn d hs (fn h d w).1)

module _ {W X D R : Type 0} (unset empty : D) where
  -- The before stages in order, each with the empty data, then `fn`, then the after stages in the reverse
  -- order, each with what the same hook's before stage has left, and with `fn`'s detail.
  unfoldable pub series :
      {F : Type 0} → List (Hook W X D R) → X → (W → (R × F) × W) → W → (R × F) × W
  unfolding pass pass_back
  series hooks context fn w =
      let (ds, w₁) = pass (λ hook d. hook.before_stage context d) (each_with empty hooks) w in
      let (answer, w₂) = fn w₁ in
      let (ignored, w₃) =
        pass_back (λ hook d. hook.after_stage context d answer.0) (zip hooks ds) w₂ in
      (answer, w₃)

  before_lem :
      (hooks : List (Hook W X D R)) (context : X) (w : W)
      → before_evaluation unset empty (prepare_evaluation_series unset empty hooks context) w
        ≡ some (
          record {
            hooks = hooks;
            series_data =
                (pass (λ hook d. hook.before_stage context d) (each_with empty hooks) w).0;
            context = context;
          },
          (pass (λ hook d. hook.before_stage context d) (each_with empty hooks) w).1,
        )
  unfolding before_evaluation prepare_evaluation_series
  before_lem hooks context w =
      let f : Hook W X D R → D → W → (D × Error) × W = λ hook d. hook.before_stage context d in
      let hs = each_with empty hooks in
      let e : Execution W X D R = prepare_evaluation_series unset empty hooks context in
      let back : Option (List D × W) → Option (Execution W X D R × W) =
        map_option (λ r. (record e { series_data = r.0 }, r.1)) in
      ap (λ hooks. back (execute_stage unset false f hooks e.series_data w))
        (sym (hooks_of-each_with empty hooks))
      ∙ ap (λ ds. back (execute_stage unset false f (hooks_of hs) ds w))
          (sym (data_of-each_with empty hooks))
      ∙ ap back (execute_stage-pass unset f hs w)

  after_lem :
      (hooks : List (Hook W X D R)) (ds : List D) (context : X) (detail : R) (w : W)
      → count ds ≡ count hooks
      → after_evaluation unset empty detail
          (record { hooks = hooks; series_data = ds; context = context })
          w
        ≡ some (
          record {
            hooks = hooks;
            series_data =
                (pass_back (λ hook d. hook.after_stage context d detail) (zip hooks ds) w).0;
            context = context;
          },
          (pass_back (λ hook d. hook.after_stage context d detail) (zip hooks ds) w).1,
        )
  unfolding after_evaluation
  after_lem hooks ds context detail w same =
      let f : Hook W X D R → D → W → (D × Error) × W =
        λ hook d. hook.after_stage context d detail in
      let e : Execution W X D R = record { hooks = hooks; series_data = ds; context = context } in
      let back : Option (List D × W) → Option (Execution W X D R × W) =
        map_option (λ r. (record e { series_data = r.0 }, r.1)) in
      let hs = zip hooks ds in
      ap (λ xs. back (execute_stage unset true f xs ds w)) (sym (hooks_of-zip hooks ds same))
      ∙ ap (λ xs. back (execute_stage unset true f (hooks_of hs) xs w))
          (sym (data_of-zip hooks ds same))
      ∙ ap back (execute_stage-pass_back unset f hs w)

  -- RunEvaluation ends without a panic, with the answer of the evaluation, after which the world is as the
  -- two passes over the hooks leave it; a failing stage keeps its hook's data and stops nothing.
  pub run_evaluation_lem :
      {F : Type 0} (hooks : List (Hook W X D R)) (context : X) (fn : W → (R × F) × W) (w : W)
      → run_evaluation unset empty hooks context fn w ≡ some (series hooks context fn w)
  unfolding run_evaluation series
  run_evaluation_lem [] context fn w = refl
  run_evaluation_lem {F} (h ∷ hs) context fn w =
      let hooks = h ∷ hs in
      let f : Hook W X D R → D → W → (D × Error) × W = λ hook d. hook.before_stage context d in
      let (ds, w₁) = pass f (each_with empty hooks) w in
      let (answer, w₂) = fn w₁ in
      let go_on : Option (Execution W X D R × W) → Option ((R × F) × W) = λ o. elim o [
        | none ↦ none
        | some (e, v) ↦
            (let ((detail, flag), u) = fn v in
              map_option (λ r. ((detail, flag), r.1)) (after_evaluation unset empty detail e u))
      ] in
      ap go_on (before_lem hooks context w)
      ∙ ap (map_option (λ r. (answer, r.1)))
          (after_lem hooks ds context answer.0 w₂ (count-pass f empty hooks w))
