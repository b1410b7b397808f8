-- ===== src/Hooks.antt =====
-- internal/hooks/runner.go, iterator.go and evaluation_execution.go: the stages of the hooks around an
-- evaluation. A hook's stages act on an unspecified world `W`; `D` is EvaluationSeriesData and `X` the
-- EvaluationSeriesContext. The cursor is an integer, -1 before the first hook. Logging is left out.
pub mod Positions
pub mod Stages
pub mod Series
use go_server_sdk.Prelude.{
  ℕ, zero, suc, ◌-◌, ℤ, pos, negsuc, ltb, Bool, true, false, ◌&&◌, Option, none, some, is_some,
  map_option, List, [], ◌∷◌, map, if◌then◌else◌, nat_eq, ◌==◌,
}
use go_server_sdk.Types.{Error}

-- `detail` is the result of the evaluation.
pub record Hook (W X D R : Type 0) : Type 0 where
  pub before_stage : X → D → W → (D × Error) × W
  pub after_stage : X → D → R → W → (D × Error) × W

-- `collection[i]`
unfoldable pub nth {ℓ} : {A : Type ℓ} → ℕ → List A → Option A
nth i [] = none
nth zero (x ∷ xs) = some x
nth (suc i) (x ∷ xs) = nth i xs

-- `s[i] = x`
unfoldable pub put {ℓ} : {A : Type ℓ} → ℕ → A → List A → Option (List A)
put i x [] = none
put zero x (y ∷ ys) = some (x ∷ ys)
put (suc i) x (y ∷ ys) = map_option (λ zs. y ∷ zs) (put i x ys)

-- At an integer index; `none` where Go panics.
abbrev pub element {ℓ} : {A : Type ℓ} → ℤ → List A → Option A
element (pos n) xs = nth n xs
element (negsuc n) xs = none

abbrev pub assign {ℓ} : {A : Type ℓ} → ℤ → A → List A → Option (List A)
assign (pos n) x xs = put n x xs
assign (negsuc n) x xs = none

abbrev pub count {ℓ} : {A : Type ℓ} → List A → ℕ
count [] = 0
count (x ∷ xs) = suc (count xs)

pub record Iterator (H : Type 0) : Type 0 where
  pub reverse : Bool
  pub cursor : ℤ
  pub collection : List H

abbrev pub succ_ℤ : ℤ → ℤ
succ_ℤ (pos n) = pos (suc n)
succ_ℤ (negsuc zero) = pos 0
succ_ℤ (negsuc (suc n)) = negsuc n

abbrev pub pred_ℤ : ℤ → ℤ
pred_ℤ (pos zero) = negsuc 0
pred_ℤ (pos (suc n)) = pos n
pred_ℤ (negsuc n) = negsuc (suc n)

module _ {H : Type 0} where
  unfoldable pub new_iterator : Bool → List H → Iterator H
  new_iterator reverse hooks = record {
    reverse = reverse;
    cursor = if reverse then pos (count hooks) else negsuc 0;
    collection = hooks;
  }

  unfoldable pub get_next_index : Iterator H → ℤ
  get_next_index it = if it.reverse then pred_ℤ it.cursor else succ_ℤ it.cursor

  unfoldable pub in_bounds : ℤ → Iterator H → Bool
  in_bounds (pos n) it = ltb n (count it.collection)
  in_bounds (negsuc n) it = false

  unfoldable pub has_next : Iterator H → Bool
  unfolding get_next_index in_bounds
  has_next it = in_bounds (get_next_index it) it

  unfoldable pub get_next : Iterator H → (ℤ × Option H) × Iterator H
  unfolding get_next_index in_bounds
  get_next it =
      let i = get_next_index it in
      if in_bounds i it
      then ((i, element i it.collection), record it { cursor = i })
      else ((it.cursor, none), it)

-- What is kept of a hook's answer.
abbrev pub kept : {D : Type 0} → D → D × Error → D
kept old (out, none) = out
kept old (out, some e) = old

-- `unset` is a zero-valued EvaluationSeriesData.
module _ {H D W : Type 0} (unset : D) where
  -- The loop of executeStage over at most `fuel` hooks.
  unfoldable pub stage_loop :
      ℕ → (H → D → W → (D × Error) × W) → List D → Iterator H → List D → W → Option (List D × W)
  unfolding has_next get_next
  stage_loop zero fn data_ it return_data w = some (return_data, w)
  stage_loop (suc fuel) fn data_ it return_data w =
      let ((i, hook), it₁) = get_next it in
      let step : H → D → Option (List D × W) = λ h d.
        (let (answer, w₁) = fn h d w in
          elim (assign i (kept d answer) return_data) [
            | none ↦ none
            | some ret ↦ stage_loop fuel fn data_ it₁ ret w₁
          ]) in
      if has_next it
      then elim hook [
        | none ↦ none
        | some h ↦ elim (element i data_) [ none ↦ none | some d ↦ step h d ]
      ]
      else some (return_data, w)

  unfoldable pub execute_stage :
      Bool → (H → D → W → (D × Error) × W) → List H → List D → W → Option (List D × W)
  execute_stage reverse fn hooks data_ w =
      stage_loop (suc (count hooks)) fn data_ (new_iterator reverse hooks) (map (λ _. unset) hooks)
        w

pub record EvaluationExecution (H X D : Type 0) : Type 0 where
  pub hooks : List H
  pub series_data : List D
  pub context : X

abbrev pub Execution : (W X D R : Type 0) → Type 0
Execution W X D R = EvaluationExecution (Hook W X D R) X D

-- `empty` is what EmptyEvaluationSeriesData returns.
module _ {W X D R : Type 0} (unset empty : D) where
  unfoldable pub before_evaluation : Execution W X D R → W → Option (Execution W X D R × W)
  before_evaluation e w =
      map_option (λ r. (record e { series_data = r.0 }, r.1))
        (execute_stage unset false (λ hook d. hook.before_stage e.context d) e.hooks e.series_data
          w)

  unfoldable pub after_evaluation : R → Execution W X D R → W → Option (Execution W X D R × W)
  after_evaluation detail e w =
      map_option (λ r. (record e { series_data = r.0 }, r.1))
        (execute_stage unset true (λ hook d. hook.after_stage e.context d detail) e.hooks
          e.series_data w)

  unfoldable pub prepare_evaluation_series : List (Hook W X D R) → X → Execution W X D R
  prepare_evaluation_series hooks context = record {
    hooks = hooks;
    series_data = map (λ _. empty) hooks;
    context = context;
  }

  -- `fn` returns the detail, and the flag and the error as an `F`.
  unfoldable pub run_evaluation :
      {F : Type 0} → List (Hook W X D R) → X → (W → (R × F) × W) → W → Option ((R × F) × W)
  run_evaluation [] context fn w = some (fn w)
  run_evaluation (h ∷ hs) context fn w =
      elim (before_evaluation (prepare_evaluation_series (h ∷ hs) context) w) [
        | none ↦ none
        | some (e, w₁) ↦
            (let ((detail, flag), w₂) = fn w₁ in
              map_option (λ r. ((detail, flag), r.1)) (after_evaluation detail e w₂))
      ]
