-- ===== src/Control/Issued.antt =====
-- The permits that a claim guard issues, and how long they are accepted.
use mathlib.Core.Path.{subst}
use idol_id_agents.Prelude.{
  ℕ, ◌+◌, ◌≤◌, ◌<◌, Text, Bool, true, false, ◌≡◌, ◌≢◌, refl, sym, ap, ◌∙◌, ◌||◌, not, not-false,
  or_false, any, is_empty, length, ltb, leb, Option, none, some, Result, ok, err, Bool-cases, inl,
  inr, arith, ◌==◌, eq_refl, eq_iff, ok-injective, if◌then◌else◌, ◌∷◌,
}
use idol_id_agents.Model.Atoms.{member}
use idol_id_agents.Control.{
  lease_over, guard_closed, attempt_id_invalid, subject_invalid, already_issued, ControlError,
  ControlState, Mode, enabled, disabled, draining, skew, status_for, valid_epoch,
  valid_subject_hash,
}
use idol_id_agents.Control.Permits.{
  AttemptPermit, PermitPayload, ClaimGuard, token_schema, verify_token, authorize_token, authorize,
  is_epoch, is_mode_disabled, is_mode_enabled, lease_refused, permit_payload, sign, issue_in, issue,
}
use idol_id_agents.Control.Machine.{position, position_in}
use idol_id_agents.Control.Revoked.{epoch_of}

module _ (mac_permit : Text → PermitPayload → Text) where
  err≢ok :
      {e : ControlError} {t : AttemptPermit}
      → ◌≢◌ {A = Result ControlError AttemptPermit} (err e) (ok t)
  err≢ok h = cc

  -- The lease and the epoch.
  abbrev Leased : ClaimGuard → Text → Text → ℕ → AttemptPermit → ClaimGuard → Type 0
  Leased g id subject now token g' =
      (epoch : Text) × (expires : ℕ) × (g.state.enable_epoch ≡ some epoch)
      × (g.state.enable_expires_at ≡ some expires)
      × (now < expires)
      × (token
          ≡ sign mac_permit g.secret
              (permit_payload id subject epoch g.state.generation now expires))
      × (g'.issued_ids ≡ id ∷ g.issued_ids)

  issue_in-over :
      (g : ClaimGuard) (id subject epoch : Text) (now expires : ℕ)
      → lease_refused g.state expires now ≡ true
      → issue_in mac_permit g id subject now (some epoch) (some expires) ≡ (err lease_over, g)
  unfolding issue_in
  issue_in-over g id subject epoch now expires h = rw h refl

  issue_in-signs :
      (g : ClaimGuard) (id subject epoch : Text) (now expires : ℕ)
      → lease_refused g.state expires now ≡ false
      → issue_in mac_permit g id subject now (some epoch) (some expires) ≡ (
        ok (
            sign mac_permit g.secret
              (permit_payload id subject epoch g.state.generation now expires)),
        record g { issued_ids = id ∷ g.issued_ids },
      )
  unfolding issue_in
  issue_in-signs g id subject epoch now expires h = rw h refl

  issue_in-Leased :
      (g : ClaimGuard) (id subject : Text) (now : ℕ) (epoch : Option Text) (expires : Option ℕ)
      {token : AttemptPermit} {g' : ClaimGuard}
      → g.state.enable_epoch ≡ epoch
      → g.state.enable_expires_at ≡ expires
      → issue_in mac_permit g id subject now epoch expires ≡ (ok token, g')
      → Leased g id subject now token g'
  unfolding issue_in
  issue_in-Leased g id subject now none expires e u h = absurd (err≢ok (ap (λ p. p.0) h))
  issue_in-Leased g id subject now (some epoch) none e u h = absurd (err≢ok (ap (λ p. p.0) h))
  issue_in-Leased g id subject now (some epoch) (some expires) {token} {g'} e u h =
      elim (Bool-cases (lease_refused g.state expires now)) [
        | inl over ↦
            let made = sym (issue_in-over g id subject epoch now expires over) ∙ h in
            absurd (err≢ok (ap (λ p. p.0) made))
        | inr current ↦
            let (ahead, late) =
              or_false (ltb (now + skew) g.state.updated_at) (leb expires now) current in
            let made = sym (issue_in-signs g id subject epoch now expires current) ∙ h in
            let signed = ok-injective (ap (λ p. p.0) made) in
            let kept = ap (λ p. p.1) made in
            (epoch, expires, e, u, ground arith, sym signed, sym (ap (λ k. k.issued_ids) kept))
      ]

  past_if :
      {token : AttemptPermit} {g' : ClaimGuard} (g : ClaimGuard) (test : Bool) (e : ControlError)
      (rest : Result ControlError AttemptPermit × ClaimGuard)
      → (if test then (err e, g) else rest) ≡ (ok token, g')
      → (test ≡ false) × (rest ≡ (ok token, g'))
  past_if g true e rest h = absurd (err≢ok (ap (λ p. p.0) h))
  past_if g false e rest h = (refl, h)

  -- A permit comes from an open guard, for an identifier that it has not served, within its lease.
  abbrev IsIssued : ClaimGuard → Text → Text → ℕ → AttemptPermit → ClaimGuard → Type 0
  IsIssued g id subject now token g' =
      (g.active ≡ true)
      × (is_empty id ≡ false)
      × (valid_subject_hash subject ≡ true)
      × (member id g.issued_ids ≡ false)
      × Leased g id subject now token g'

  issue-IsIssued :
      (g : ClaimGuard) (id subject : Text) (now : ℕ) {token : AttemptPermit} {g' : ClaimGuard}
      → issue mac_permit g id subject now ≡ (ok token, g')
      → IsIssued g id subject now token g'
  unfolding issue
  issue-IsIssued g id subject now h =
      let ill = is_empty id || ltb 200 (length id) || any (λ ch. ltb ch 32) id in
      let (active, h₁) = past_if g (not g.active) guard_closed _ h in
      let (named, h₂) = past_if g ill attempt_id_invalid _ h₁ in
      let (subjected, h₃) = past_if g (not (valid_subject_hash subject)) subject_invalid _ h₂ in
      let (new, h₄) = past_if g (member id g.issued_ids) already_issued _ h₃ in
      (
        not-false _ active,
        (or_false (is_empty id) _ (or_false (is_empty id || ltb 200 (length id)) _ named).0).0,
        not-false _ subjected,
        new,
        issue_in-Leased g id subject now g.state.enable_epoch g.state.enable_expires_at refl refl
            h₄,
      )

  accepted-epoch :
      (m : Mode) (epoch drained : Option Text) (t : Text)
      → epoch_of (position_in m epoch drained) ≡ some t
      → (is_mode_disabled m ≡ false)
        × (is_epoch (if is_mode_enabled m then epoch else drained) t ≡ true)
  accepted-epoch enabled epoch drained t h = (refl, rw h (eq_refl t))
  accepted-epoch draining epoch drained t h = (refl, rw h (eq_refl t))
  accepted-epoch disabled epoch drained t h = cc

  signed-verify_token :
      (secret : Text) (p : PermitPayload)
      → p.schema ≡ token_schema
      → is_empty p.attempt_id ≡ false
      → valid_subject_hash p.subject_hash ≡ true
      → valid_epoch p.enable_epoch ≡ true
      → 1 ≤ p.issued_generation
      → p.issued_at < p.admission_expires_at
      → verify_token mac_permit (sign mac_permit secret p) secret ≡ ok tt
  unfolding verify_token
  signed-verify_token secret p schema named subject epoch generation open_lease =
      let known : (p.schema == token_schema) ≡ true = (eq_iff _ _).1 schema in
      let counted : ltb p.issued_generation 1 ≡ false = ground arith in
      let current : leb p.admission_expires_at p.issued_at ≡ false = ground arith in
      rw (known, named, subject, epoch, counted, current, eq_refl (mac_permit secret p)) refl

  -- A permit that a guard issues is accepted under its secret in every state of the guard's epoch
  -- that is as new as the guard's, on or draining, whose update the clock is not behind. The guard's
  -- state has a valid epoch and a generation.
  pub issue-authorize :
      (g g' : ClaimGuard) (id subject : Text) (now later : ℕ) (token : AttemptPermit)
      (s : ControlState)
      → issue mac_permit g id subject now ≡ (ok token, g')
      → ((t : Text) → g.state.enable_epoch ≡ some t → valid_epoch t ≡ true)
      → 1 ≤ g.state.generation
      → g.state.generation ≤ s.generation
      → epoch_of (position (some s)) ≡ g.state.enable_epoch
      → (status_for s later).integrity_valid ≡ true
      → authorize mac_permit s g.secret (some token) later ≡ ok tt
  unfolding authorize authorize_token
  issue-authorize g g' id subject now later token s h wellformed counted newer same clock =
      let (active, named, subjected, new, leased) = issue-IsIssued g id subject now h in
      let (epoch, expires, e, u, running, signed, kept) = leased in
      let p = permit_payload id subject epoch g.state.generation now expires in
      let verified =
        signed-verify_token g.secret p refl named subjected (wellformed epoch e) counted running in
      let (on_mode, accepted) =
        accepted-epoch s.mode s.enable_epoch s.drain_epoch epoch (same ∙ e) in
      let fresh : ltb s.generation g.state.generation ≡ false = ground arith in
      subst (λ k. authorize mac_permit s g.secret (some k) later ≡ ok tt) (sym signed)
        (rw (on_mode, clock, verified, accepted, fresh) refl)
