-- ===== src/Hooks/Stages.antt =====
-- executeStage of internal/hooks/evaluation_execution.go, over the iterator of iterator.go, against two
-- passes over the hooks and their data.
use go_server_sdk.Prelude.{
  ℕ, zero, suc, ℤ, pos, negsuc, ltb, Bool, true, false, none, some, List, [], ◌∷◌, map,
  if◌then◌else◌, arith, ◌≡◌, refl, ap, ◌∙◌,
}
use go_server_sdk.Types.{Error}
use go_server_sdk.Hooks.Positions.{
  rev_onto, count-rev_onto, count-map, nth_at, put_at, bound_at, map-map, map-rev_rev,
}
use go_server_sdk.Hooks.{
  nth, put, count, Iterator, succ_ℤ, pred_ℤ, new_iterator, get_next_index, in_bounds, has_next,
  get_next, kept, stage_loop, execute_stage,
}

-- What a hook's data is after a stage: the stage's answer, or the old data if the stage fails.
abbrev pub taken : {D : Type 0} → D → D × Error → D
taken d answer = elim answer.1 [ none ↦ answer.0 | some e ↦ d ]

kept_lem : {D : Type 0} (d : D) (answer : D × Error) → kept d answer ≡ taken d answer
kept_lem d (out, none) = refl
kept_lem d (out, some e) = refl

-- The pass over the hooks in order, each with its data.
unfoldable pub pass :
    {H D W : Type 0} → (H → D → W → (D × Error) × W) → List (H × D) → W → List D × W
pass fn [] w = ([], w)
pass fn ((h, d) ∷ hs) w =
    let (answer, w₁) = fn h d w in let (rest, w₂) = pass fn hs w₁ in (taken d answer ∷ rest, w₂)

-- The pass in the reverse order; its data stands in the order of the hooks.
unfoldable pub pass_back :
    {H D W : Type 0} → (H → D → W → (D × Error) × W) → List (H × D) → W → List D × W
unfolding pass
pass_back fn hs w = let (outs, w₁) = pass fn (rev_onto hs []) w in (rev_onto outs [], w₁)

-- The data of the hooks, and what is made for the answers.
abbrev pub hooks_of : {H D : Type 0} → List (H × D) → List H
hooks_of hs = map (λ x. x.0) hs

abbrev pub data_of : {H D : Type 0} → List (H × D) → List D
data_of hs = map (λ x. x.1) hs

-- The cursor before the hook `n`.
abbrev pub cursor_before : ℕ → ℤ
cursor_before zero = negsuc 0
cursor_before (suc n) = pos n

module _ {H D W : Type 0} (unset : D) (fn : H → D → W → (D × Error) × W) where
  abbrev pub unset_for : List (H × D) → List D
  unset_for hs = map (λ _. unset) hs

  at_hook :
      (reverse : Bool) (c : ℤ) (hooks : List H) (i : ℕ) (h : H)
      → (if reverse then pred_ℤ c else succ_ℤ c) ≡ pos i
      → ltb i (count hooks) ≡ true
      → nth i hooks ≡ some h
      → (has_next (record { reverse = reverse; cursor = c; collection = hooks }) ≡ true)
        × (get_next (record { reverse = reverse; cursor = c; collection = hooks })
            ≡ ((pos i, some h), record { reverse = reverse; cursor = pos i; collection = hooks }))
  unfolding has_next get_next get_next_index in_bounds
  at_hook reverse c hooks i h index bound hook =
      (ground (arith, index, bound), ground (arith, index, bound, hook))

  -- Where the loop stands at a hook, it runs that hook's stage and goes on.
  loop_step :
      (fuel : ℕ) (reverse : Bool) (c : ℤ) (hooks : List H) (ds ret ret₁ : List D) (i : ℕ) (h : H)
      (d : D) (w : W)
      → (if reverse then pred_ℤ c else succ_ℤ c) ≡ pos i
      → ltb i (count hooks) ≡ true
      → nth i hooks ≡ some h
      → nth i ds ≡ some d
      → put i (taken d (fn h d w).0) ret ≡ some ret₁
      → stage_loop unset
          (suc fuel)
          fn
          ds
          (record { reverse = reverse; cursor = c; collection = hooks })
          ret
          w
        ≡ stage_loop unset fuel fn ds
            (record { reverse = reverse; cursor = pos i; collection = hooks })
            ret₁
            (fn h d w).1
  unfolding stage_loop
  loop_step fuel reverse c hooks ds ret ret₁ i h d w index bound hook datum assigned =
      let (more, found) = at_hook reverse c hooks i h index bound hook in
      ground (arith, more, found, datum, assigned, kept_lem d (fn h d w).0)

  loop_end :
      (fuel : ℕ) (it : Iterator H) (ds ret : List D) (w : W)
      → has_next it ≡ false
      → stage_loop unset fuel fn ds it ret w ≡ some (ret, w)
  unfolding stage_loop
  loop_end zero it ds ret w e = refl
  loop_end (suc fuel) it ds ret w e = ground (arith, e)

  next_of_before : (n : ℕ) → succ_ℤ (cursor_before n) ≡ pos n
  next_of_before zero = refl
  next_of_before (suc n) = refl

  after_last :
      (n : ℕ) (ph : List H)
      → count ph ≡ n
      → has_next (record { reverse = false; cursor = cursor_before n; collection = rev_onto ph [] })
        ≡ false
  unfolding has_next get_next_index in_bounds
  after_last n ph e = ground (arith, e, next_of_before n, count-rev_onto ph [])

  before_first :
      (hooks : List H)
      → has_next (record { reverse = true; cursor = pos 0; collection = hooks }) ≡ false
  unfolding has_next get_next_index in_bounds
  before_first hooks = refl

  -- After the hooks of `ph`, which stand in reverse.
  loop_forward :
      (hs : List (H × D)) (n : ℕ) (ph : List H) (pd pr : List D) (w : W)
      → count ph ≡ n
      → count pd ≡ n
      → count pr ≡ n
      → stage_loop unset
          (suc (count hs))
          fn
          (rev_onto pd (data_of hs))
          (record {
            reverse = false;
            cursor = cursor_before n;
            collection = rev_onto ph (hooks_of hs);
          })
          (rev_onto pr (unset_for hs))
          w
        ≡ some (rev_onto pr (pass fn hs w).0, (pass fn hs w).1)
  unfolding pass
  loop_forward [] n ph pd pr w e f g = loop_end 1 _ _ _ _ (after_last n ph e)
  loop_forward ((h, d) ∷ hs) n ph pd pr w e f g =
      let answer = fn h d w in
      loop_step (suc (count hs)) false (cursor_before n) (rev_onto ph (h ∷ hooks_of hs))
        (rev_onto pd (d ∷ data_of hs)) (rev_onto pr (unset ∷ unset_for hs))
        (rev_onto pr (taken d answer.0 ∷ unset_for hs)) n h d w (next_of_before n)
        (bound_at n ph h (hooks_of hs) e) (nth_at n ph h (hooks_of hs) e)
        (nth_at n pd d (data_of hs) f) (put_at n (taken d answer.0) pr unset (unset_for hs) g)
      ∙ loop_forward hs (suc n) (h ∷ ph) (d ∷ pd) (taken d answer.0 ∷ pr) answer.1 (ap suc e)
          (ap suc f) (ap suc g)

  -- The hooks of `hs` stand in reverse, before those of `ph`.
  loop_backward :
      (hs : List (H × D)) (n : ℕ) (ph : List H) (pd pr : List D) (w : W)
      → count hs ≡ n
      → stage_loop unset
          (suc n)
          fn
          (rev_onto (data_of hs) pd)
          (record { reverse = true; cursor = pos n; collection = rev_onto (hooks_of hs) ph })
          (rev_onto (unset_for hs) pr)
          w
        ≡ some (rev_onto (pass fn hs w).0 pr, (pass fn hs w).1)
  unfolding pass
  loop_backward [] zero ph pd pr w e = loop_end 1 _ _ _ _ (before_first ph)
  loop_backward [] (suc n) ph pd pr w e = ground (arith, e)
  loop_backward ((h, d) ∷ hs) zero ph pd pr w e = ground (arith, e)
  loop_backward ((h, d) ∷ hs) (suc n) ph pd pr w e =
      let answer = fn h d w in
      let same : count hs ≡ n = ground (arith, e) in
      loop_step (suc n) true (pos (suc n)) (rev_onto (hooks_of hs) (h ∷ ph))
        (rev_onto (data_of hs) (d ∷ pd)) (rev_onto (unset_for hs) (unset ∷ pr))
        (rev_onto (unset_for hs) (taken d answer.0 ∷ pr)) n h d w refl
        (bound_at n (hooks_of hs) h ph (count-map (λ x. x.0) hs ∙ same))
        (nth_at n (hooks_of hs) h ph (count-map (λ x. x.0) hs ∙ same))
        (nth_at n (data_of hs) d pd (count-map (λ x. x.1) hs ∙ same))
        (put_at n (taken d answer.0) (unset_for hs) unset pr (count-map (λ _. unset) hs ∙ same))
      ∙ loop_backward hs n (h ∷ ph) (d ∷ pd) (taken d answer.0 ∷ pr) answer.1 same

  -- The stage in the order of the hooks ends, and is the pass over them.
  pub execute_stage-pass :
      (hs : List (H × D)) (w : W)
      → execute_stage unset false fn (hooks_of hs) (data_of hs) w ≡ some (pass fn hs w)
  unfolding execute_stage new_iterator
  execute_stage-pass hs w =
      let it : Iterator H = new_iterator false (hooks_of hs) in
      ap (λ n. stage_loop unset (suc n) fn (data_of hs) it (map (λ _. unset) (hooks_of hs)) w)
        (count-map (λ x. x.0) hs)
      ∙ ap (λ ret. stage_loop unset (suc (count hs)) fn (data_of hs) it ret w)
          (map-map (λ _. unset) (λ x. x.0) hs)
      ∙ loop_forward hs 0 [] [] [] w refl refl refl

  pub execute_stage-pass_back :
      (hs : List (H × D)) (w : W)
      → execute_stage unset true fn (hooks_of hs) (data_of hs) w ≡ some (pass_back fn hs w)
  unfolding execute_stage new_iterator pass_back
  execute_stage-pass_back hs w =
      let rs = rev_onto hs [] in
      let n = count (hooks_of hs) in
      let it : List H → Iterator H =
        λ hooks. record { reverse = true; cursor = pos n; collection = hooks } in
      let same : count rs ≡ n = ground (arith, count-rev_onto hs [], count-map (λ x. x.0) hs) in
      ap (λ ret. stage_loop unset (suc n) fn (data_of hs) (it (hooks_of hs)) ret w)
        (map-map (λ _. unset) (λ x. x.0) hs ∙ map-rev_rev (λ _. unset) hs)
      ∙ ap (λ ds. stage_loop unset (suc n) fn ds (it (hooks_of hs)) (rev_onto (unset_for rs) []) w)
          (map-rev_rev (λ x. x.1) hs)
      ∙ ap
          (λ hooks.
            stage_loop unset (suc n) fn (rev_onto (data_of rs) []) (it hooks)
              (rev_onto (unset_for rs) []) w)
          (map-rev_rev (λ x. x.0) hs)
      ∙ loop_backward rs n [] [] [] w same
