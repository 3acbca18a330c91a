-- ===== src/Scheduler/Score.antt =====
-- `reset_urgency` and `score_pair`. A note is the text that the source formats from the same values.
use idol_id_agents.Prelude.{
  ℕ, ◌-◌, ◌*◌, Text, text, Bool, ◌&&◌, ◌||◌, List, [], ◌∷◌, ◌++◌, ◌==◌, leb, not, max,
  if◌then◌else◌,
}
use idol_id_agents.Model.{AllowanceWindow, Route, WorkOrder, second, whole}
use idol_id_agents.Model.Atoms.{member}
use idol_id_agents.Scheduler.Floats.{Floats, fmax, fmin}

module _ (F : Floats) where
  open F use {Float, lt, of_ratio, add, sub, mul, div, sqrt, log10}

  pub data Note : Type 0 where
    window_unmeasured : Note
    cannot_finish_before : Text → Note
    window_factor : Text → Float → ℕ → Float → Note
    premium_conservation : Note
    priority_is : ℕ → Note
    weights_are : Float → Float → Note
    penalties_are : Float → Float → Note
    performance_is : Float → Note

  abbrev one : Float
  one = of_ratio 1 1

  pub time_factor : ℕ → Float
  time_factor left =
      if leb left (900 * second)
      then of_ratio 3 1
      else if leb left (3600 * second)
      then of_ratio 23 10
      else if leb left (6 * 3600 * second)
      then of_ratio 17 10
      else if leb left (24 * 3600 * second)
      then of_ratio 13 10
      else one

  -- One round of the loop over the windows, on the best factor and the notes so far.
  pub weigh_window : WorkOrder → ℕ → AllowanceWindow → Float × List Note → Float × List Note
  unfolding time_factor
  weigh_window order now window (best, notes) =
      let left = window.resets_at - now in
      let unused = fmax F (of_ratio 0 1) (fmin F one (of_ratio window.remaining_fraction whole)) in
      let factor = add one (mul unused (sub (time_factor left) one)) in
      if not (leb (order.estimated_seconds * second) left)
      then (best, notes ++ cannot_finish_before window.label ∷ [])
      else (fmax F best factor, notes ++ window_factor window.label unused left factor ∷ [])

  pub weigh_windows : WorkOrder → ℕ → List AllowanceWindow → Float × List Note → Float × List Note
  unfolding weigh_window
  weigh_windows order now [] acc = acc
  weigh_windows order now (window ∷ rest) acc =
      weigh_windows order now rest (weigh_window order now window acc)

  unfoldable pub reset_urgency : Route → WorkOrder → ℕ → Float × List Note
  unfolding weigh_windows
  reset_urgency route order now = elim route.allowance [
    | [] ↦ (one, window_unmeasured ∷ [])
    | window ∷ rest ↦ weigh_windows order now (window ∷ rest) (one, [])
  ]

  -- The constructor of a work order admits no risk but these four.
  pub risk_weight : Text → Float
  unfolding ◌==◌
  risk_weight risk =
      if risk == text "low"
      then of_ratio 8 10
      else if risk == text "medium"
      then one
      else if risk == text "high"
      then of_ratio 125 100
      else of_ratio 15 10

  pub role_weight : Text → Float
  unfolding ◌==◌
  role_weight role =
      if role == text "observer"
      then of_ratio 85 100
      else if role == text "evidence"
      then of_ratio 105 100
      else if (role == text "implementer") || (role == text "integrator")
      then of_ratio 12 10
      else if role == text "reviewer"
      then of_ratio 135 100
      else if role == text "architect"
      then of_ratio 15 10
      else one

  abbrev spares_premium : WorkOrder → Bool
  spares_premium order =
      member order.risk (text "low" ∷ text "medium" ∷ [])
      && member order.role
          (text "observer" ∷ text "counterexample" ∷ text "evidence" ∷ text "mechanic" ∷ [])

  unfoldable pub score_pair : WorkOrder → Route → ℕ → Float → Float × List Note
  unfolding reset_urgency risk_weight role_weight member
  score_pair order route now performance =
      let (urgency, notes) = reset_urgency route order now in
      let duration =
        fmax F one (sqrt (div (of_ratio order.estimated_seconds 1) (of_ratio 300 1))) in
      let tokens = fmax F one (log10 (of_ratio (max order.estimated_tokens 10) 1)) in
      let spared = route.premium && spares_premium order in
      let premium = if spared then of_ratio 18 10 else one in
      let weighted =
        mul
          (mul (mul (mul (of_ratio order.priority 1) urgency) (risk_weight order.risk))
            (role_weight order.role))
          performance in
      (
        div (div (div weighted duration) tokens) premium,
        notes
            ++ ((if spared then premium_conservation ∷ [] else [])
                ++ (priority_is order.priority
                    ∷ (weights_are (risk_weight order.risk) (role_weight order.role)
                        ∷ (penalties_are duration tokens ∷ (performance_is performance ∷ []))))),
      )
