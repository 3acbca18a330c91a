-- ===== src/Allowance/Budget.antt =====
-- The tokens that the selected candidates draw from a window.
use mathlib.Core.Path.{subst}
use idol_id_agents.Prelude.{
  ℕ, ◌+◌, ◌≤◌, Text, ◌≡◌, sym, ap, ◌∙◌, ◌&&◌, List, [], ◌∷◌, ◌++◌, All, ◌==◌, eq_iff, Option, none,
  some, arith, if◌then◌else◌, Bool-cases, inl, inr, and_true,
}
use idol_id_agents.Scheduler.Floats.{Floats}
use idol_id_agents.Allowance.Windows.{Window}
use idol_id_agents.Allowance.Eligible.{Candidate}
use idol_id_agents.Allowance.Select.{Selection, spend, select}
use idol_id_agents.Allowance.Chosen.{Draws, nothing_drawn, drawn, select-keeps}

module _ (F : Floats) where
  -- What a candidate draws from the window `name` of the provider `id`.
  abbrev pub draw_of : Text → Text → Text → Option (Window F) → ℕ → ℕ
  draw_of id name p none tokens = 0
  draw_of id name p (some w) tokens = if (p == id) && (w.name == name) then tokens else 0

  unfoldable pub drawn_total : Text → Text → List (Candidate F) → ℕ
  drawn_total id name [] = 0
  drawn_total id name (c ∷ rest) =
      draw_of id name c.provider.id c.window c.tokens + drawn_total id name rest

  drawn_total-snoc :
      (id name : Text) (xs : List (Candidate F)) (c : Candidate F)
      → drawn_total id name (xs ++ c ∷ [])
        ≡ drawn_total id name xs + draw_of id name c.provider.id c.window c.tokens
  unfolding drawn_total
  drawn_total-snoc id name [] c = omega arith
  drawn_total-snoc id name (x ∷ xs) c = omega (arith, drawn_total-snoc id name xs c)

  module _ (start : Text → Text → ℕ) where
    -- What is left and what is drawn make up what was there.
    abbrev pub Balanced : Selection F → Type 0
    Balanced s =
        (id name : Text) → s.remaining id name + drawn_total id name s.selected ≡ start id name

    spend-balance :
        (p window id name : Text) (tokens : ℕ) (remaining : Text → Text → ℕ)
        → tokens ≤ remaining p window
        → spend F p window tokens remaining id name
            + (if (p == id) && (window == name) then tokens else 0)
          ≡ remaining id name
    unfolding spend
    spend-balance p window id name tokens remaining enough =
        elim (Bool-cases ((p == id) && (window == name))) [
          | inr other ↦ rw other (omega arith)
          | inl here ↦
              let both = and_true _ _ here in
              let e : remaining id name ≡ remaining p window =
                ap (λ q. remaining q name) (sym ((eq_iff p id).0 both.0))
                ∙ ap (remaining p) (sym ((eq_iff window name).0 both.1)) in
              rw here (omega (arith, e, enough))
        ]

    Draws-balance :
        (c : Candidate F) (s : Selection F) (r : Text → Text → ℕ) (id name : Text)
        → Draws F c s r
        → r id name + draw_of id name c.provider.id c.window c.tokens ≡ s.remaining id name
    Draws-balance c s r id name (nothing_drawn e) =
        subst
          (λ w.
            s.remaining id name + draw_of id name c.provider.id w c.tokens ≡ s.remaining id name)
          (sym e) (omega arith)
    Draws-balance c s r id name (drawn w e enough) =
        subst
          (λ v.
            spend F c.provider.id w.name c.tokens s.remaining id name
              + draw_of id name c.provider.id v c.tokens
            ≡ s.remaining id name)
          (sym e) (spend-balance c.provider.id w.name id name c.tokens s.remaining enough)

    pub select-Balanced :
        (cs : List (Candidate F)) (s : Selection F)
        → All (λ c. Unit {0}) cs
        → Balanced s
        → Balanced (select F cs s)
    select-Balanced =
        select-keeps F (λ c. Unit) Balanced
          (λ s t r p id name. rw (r.remaining, r.selected) (p id name))
          (λ c s t u r p. subst Balanced (sym r.result) (λ id name. omega (
            arith,
            p id name,
            drawn_total-snoc id name s.selected c,
            Draws-balance c s r.remaining id name r.draws,
          )))
