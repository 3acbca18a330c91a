-- ===== src/Control/Revoked.antt =====
-- An epoch that a control has left never comes back.
use mathlib.Core.Path.{subst}
use idol_id_agents.Prelude.{
  ℕ, Text, true, false, ◌≡◌, ◌≢◌, refl, sym, ap, ◌∙◌, not, not-false, ◌||◌, or_false, Option, none,
  some, Result, ok, inl, inr, eq_iff, refuse_if-ok, >>=-ok, >>-ok, ok-injective,
}
use idol_id_agents.Control.{
  ControlError, ControlState, Mode, enabled, disabled, draining, status_for,
}
use idol_id_agents.Control.Records.{FileId, Disk, Crypto, Key}
use idol_id_agents.Control.Mutations.{Operation, Fresh, mutate}
use idol_id_agents.Control.Permits.{
  AttemptPermit, PermitPayload, Entered, verify_token, authorize_token, authorize, allowed_epoch,
  is_epoch, is_mode_disabled, boundary_of, boundary_refusal, load, enter,
}
use idol_id_agents.Control.RoundTrip.{IsDigesting}
use idol_id_agents.Control.Machine.{
  Position, off, on, drains, position, position_in, Moves, switches_on, prolongs, starts_drain,
  keeps_drain, drains_nothing, switches_off,
}
use idol_id_agents.Control.Reached.{IsFresh, IsLive, Acts, mutate-refines}

-- The epoch whose permits a position accepts.
abbrev pub epoch_of : Position → Option Text
epoch_of off = none
epoch_of (on epoch) = epoch
epoch_of (drains epoch) = epoch

Moves-epoch :
    {fresh : Text} {op : Operation} {p q : Position} (t : Text)
    → Moves fresh op p q
    → fresh ≢ t
    → epoch_of p ≢ some t
    → epoch_of q ≢ some t
Moves-epoch t (switches_on ttl) apart h = λ e. apart (cc)
Moves-epoch t (prolongs ttl epoch) apart h = h
Moves-epoch t (starts_drain epoch) apart h = h
Moves-epoch t (keeps_drain epoch) apart h = h
Moves-epoch t drains_nothing apart h = λ e. cc
Moves-epoch t (switches_off p) apart h = λ e. cc

module _ (mac_permit : Text → PermitPayload → Text) where
  by_mode :
      (m : Mode) (epoch drained : Option Text) (t : Text)
      → is_mode_disabled m ≡ false
      → is_epoch (elim m [ enabled ↦ epoch | disabled ↦ drained | draining ↦ drained ]) t ≡ true
      → epoch_of (position_in m epoch drained) ≡ some t
  by_mode disabled epoch drained t h k = cc
  by_mode enabled none drained t h k = cc
  by_mode enabled (some e) drained t h k = ap some (sym ((eq_iff t e).0 k))
  by_mode draining epoch none t h k = cc
  by_mode draining epoch (some e) t h k = ap some (sym ((eq_iff t e).0 k))

  allowed-mode :
      (s : ControlState)
      → allowed_epoch s ≡ elim s.mode [
        | enabled ↦ s.enable_epoch
        | disabled ↦ s.drain_epoch
        | draining ↦ s.drain_epoch
      ]
  allowed-mode s = cases s.mode
    where
      cases :
          (m : Mode)
          → allowed_epoch (record s { mode = m }) ≡ elim m [
            | enabled ↦ s.enable_epoch
            | disabled ↦ s.drain_epoch
            | draining ↦ s.drain_epoch
          ]
      cases enabled = refl
      cases disabled = refl
      cases draining = refl

  -- A permit that is accepted is of the epoch of the switch.
  pub authorize-epoch :
      (s : ControlState) (secret : Text) (token : AttemptPermit) (now : ℕ)
      → authorize mac_permit s secret (some token) now ≡ ok tt
      → epoch_of (position (some s)) ≡ some token.payload.enable_epoch
  unfolding authorize authorize_token
  authorize-epoch s secret token now h =
      let (running, h₁) =
        refuse_if-ok (is_mode_disabled s.mode || not (status_for s now).integrity_valid)
          ControlError.dispatch_refused _ h in
      let (verified, h₂) = >>-ok (verify_token mac_permit token secret) _ h₁ in
      let (epoch, h₃) =
        refuse_if-ok (not (is_epoch (allowed_epoch s) token.payload.enable_epoch))
          ControlError.permit_epoch _ h₂ in
      by_mode s.mode s.enable_epoch s.drain_epoch token.payload.enable_epoch
        (or_false _ _ running).0
        (subst (λ o. is_epoch o token.payload.enable_epoch ≡ true) (allowed-mode s)
          (not-false _ epoch))

  module _ (c : Crypto) (most : ℕ) (digests : IsDigesting c) where
    -- The files after any operations of any processes, at any times, none of which makes the epoch
    -- `t` anew. The control's lock makes each of them one step.
    pub data Reach (t : Text) (d : Disk) : Disk → Type 0 where
      here : Reach t d d
      next :
          {e : Disk} (op : Operation) (expected : Option ℕ) (now : ℕ) (x : Fresh)
          → Reach t d e
          → IsFresh x
          → x.epoch ≢ t
          → Reach t d (mutate c most op expected now x e).1

    -- A live control whose switch is not in the epoch.
    pub record IsLeft (t : Text) (d : Disk) : Type 0 where
      pub lock : FileId
      pub state : ControlState
      pub key : Key
      pub live : IsLive c most digests lock state key d
      pub left : epoch_of (position (some state)) ≢ some t

    act-IsLeft :
        (t : Text) (op : Operation) (x : Fresh) (now : ℕ) (lock : FileId) (s : ControlState)
        (key : Key) (d : Disk) (w : Result ControlError _ × Disk)
        → x.epoch ≢ t
        → IsLive c most digests lock s key d
        → epoch_of (position (some s)) ≢ some t
        → Acts c most digests op x now lock s key d w
        → IsLeft t w.1
    act-IsLeft t op x now lock s key d w apart live left (inl (e, same)) =
        subst (λ (v : Result ControlError _ × Disk). IsLeft t v.1) (sym same)
          (record { lock = lock; state = s; key = key; live = live; left = left })
    act-IsLeft t op x now lock s key d w apart live left (inr moved) = record {
      lock = lock;
      state = moved.state;
      key = key;
      live = moved.live;
      left = Moves-epoch t moved.moves apart left;
    }

    pub Reach-IsLeft : {t : Text} {d e : Disk} → Reach t d e → IsLeft t d → IsLeft t e
    Reach-IsLeft here h = h
    Reach-IsLeft {t} (next {e} op expected now x r fresh apart) h =
        let before = Reach-IsLeft r h in
        act-IsLeft t op x now before.lock before.state before.key e
          (mutate c most op expected now x e) apart before.live before.left
          (mutate-refines c most digests op expected now x before.lock before.state before.key e
            fresh before.live)

    -- A permit of an epoch that a live control has left, by `disable` or in any other way, is refused
    -- at every boundary, whatever operations follow, as long as none makes the same epoch anew.
    pub Reach-refuses :
        {d e : Disk} (token : AttemptPermit) (boundary : Text) (now : ℕ) (r : Entered)
        → Reach token.payload.enable_epoch d e
        → IsLeft token.payload.enable_epoch d
        → enter mac_permit c most boundary (some token) now e ≢ ok r
    unfolding enter
    Reach-refuses {d} {e} token boundary now r steps left h =
        let there = Reach-IsLeft steps left in
        let (b, entering, h₁) = >>=-ok (boundary_refusal (boundary_of boundary) (some token)) _ h in
        let (loaded, found, h₂) = >>=-ok (load c most e) _ h₁ in
        let (passed, h₃) =
          >>-ok (authorize mac_permit loaded.0 loaded.1.secret (some token) now) _ h₂ in
        let known : load c most e ≡ ok (there.state, there.key) =
          rw there.live.locked there.live.loads in
        let same = ok-injective (sym found ∙ known) in
        there.left (
          ap (λ (p : ControlState × Key). epoch_of (position (some p.0))) (sym same)
          ∙ authorize-epoch loaded.0 loaded.1.secret token now passed)
