-- ===== src/Control/Machine.antt =====
-- The switch as a machine of three positions, and the operations as its moves.
use mathlib.Core.Path.{subst}
use idol_id_agents.Prelude.{
  ℕ, suc, Text, Bool, true, false, ◌≡◌, refl, sym, ap, Option, none, some, Result, ok, err,
  refuse_if-ok, >>=-ok, >>-ok, ok-injective, if◌then◌else◌,
}
use idol_id_agents.Control.{ControlError, ControlState, Mode, enabled, disabled, draining}
use idol_id_agents.Control.Mutations.{
  Operation, enable, refresh, drain, disable, generation_of, drained_epoch, is_ahead,
  enable_refusal, refresh_epoch, next_state,
}

-- Off; on in an epoch; or letting the attempts of an epoch, if there was one, run to their end.
pub data Position : Type 0 where
  off : Position
  on drains : Option Text → Position

abbrev pub position_in : Mode → Option Text → Option Text → Position
position_in enabled epoch drained = on epoch
position_in disabled epoch drained = off
position_in draining epoch drained = drains drained

-- A control that was never set is off.
abbrev pub position : Option ControlState → Position
position none = off
position (some s) = position_in s.mode s.enable_epoch s.drain_epoch

-- The moves of the switch; a new epoch comes only with `enable`, from off.
pub data Moves (fresh : Text) : Operation → Position → Position → Type 0 where
  switches_on : (ttl : ℕ) → Moves fresh (enable ttl) off (on (some fresh))
  prolongs : (ttl : ℕ) (epoch : Option Text) → Moves fresh (refresh ttl) (on epoch) (on epoch)
  starts_drain : (epoch : Option Text) → Moves fresh drain (on epoch) (drains epoch)
  keeps_drain : (epoch : Option Text) → Moves fresh drain (drains epoch) (drains epoch)
  drains_nothing : Moves fresh drain off (drains none)
  switches_off : (p : Position) → Moves fresh disable p off

enable-off :
    (now : ℕ) (previous : Option ControlState)
    → enable_refusal now previous ≡ ok tt
    → position previous ≡ off
unfolding enable_refusal
enable-off now none h = refl
enable-off now (some s) h =
    let (clock, mode) = refuse_if-ok _ _ _ h in by_mode s.mode s.enable_epoch s.drain_epoch mode
  where
    by_mode :
        (m : Mode) (epoch drained : Option Text)
        → ◌≡◌ {A = Result ControlError (Unit {0})}
            (elim m [
              | enabled ↦ err ControlError.already_enabled
              | draining ↦ err ControlError.draining_first
              | disabled ↦ ok tt
            ])
            (ok tt)
        → position_in m epoch drained ≡ off
    by_mode enabled epoch drained e = cc
    by_mode draining epoch drained e = cc
    by_mode disabled epoch drained e = refl

pub refresh-on :
    (now : ℕ) (previous : Option ControlState) {kept : Text}
    → refresh_epoch now previous ≡ ok kept
    → position previous ≡ on (some kept)
unfolding refresh_epoch
refresh-on now none h = cc
refresh-on now (some s) {kept} h = by_mode s.mode s.enable_epoch s.drain_epoch (is_ahead s now) h
  where
    by_mode :
        (m : Mode) (epoch drained : Option Text) (ahead : Bool)
        → ◌≡◌ {A = Result ControlError Text}
            (elim m [
              | enabled ↦ elim epoch [
                | none ↦ err ControlError.not_enabled
                | some e ↦ if ahead then err ControlError.clock_rollback else ok e
              ]
              | draining ↦ err ControlError.not_enabled
              | disabled ↦ err ControlError.not_enabled
            ])
            (ok kept)
        → position_in m epoch drained ≡ on (some kept)
    by_mode enabled none drained ahead e = cc
    by_mode enabled (some epoch) drained true e = cc
    by_mode enabled (some epoch) drained false e = cc
    by_mode draining epoch drained ahead e = cc
    by_mode disabled epoch drained ahead e = cc

drain-Moves :
    (fresh : Text) (previous : Option ControlState)
    → Moves fresh drain (position previous) (drains (drained_epoch previous))
drain-Moves fresh none = drains_nothing
drain-Moves fresh (some s) = by_mode s.mode s.enable_epoch s.drain_epoch
  where
    by_mode :
        (m : Mode) (epoch drained : Option Text)
        → Moves fresh drain
            (position_in m epoch drained)
            (drains (elim m [ enabled ↦ epoch | draining ↦ drained | disabled ↦ none ]))
    by_mode enabled epoch drained = starts_drain epoch
    by_mode draining epoch drained = keeps_drain drained
    by_mode disabled epoch drained = drains_nothing

-- A state that an operation gives is a move of the switch, with the next generation.
pub next_state-Moves :
    (op : Operation) (fresh : Text) (now : ℕ) (previous : Option ControlState) {s : ControlState}
    → next_state op fresh now previous ≡ ok s
    → Moves fresh op (position previous) (position (some s))
      × (s.generation ≡ suc (generation_of previous))
      × (s.updated_at ≡ now)
unfolding next_state
next_state-Moves (enable ttl) fresh now previous h =
    let (free, same) = >>-ok (enable_refusal now previous) _ h in
    let e = ok-injective same in
    (
      subst (λ t. Moves fresh (enable ttl) (position previous) (position (some t))) e
          (rw (enable-off now previous free) (switches_on ttl)),
      ap (λ t. t.generation) (sym e),
      ap (λ t. t.updated_at) (sym e),
    )
next_state-Moves (refresh ttl) fresh now previous h =
    let (kept, found, same) = >>=-ok (refresh_epoch now previous) _ h in
    let e = ok-injective same in
    (
      subst (λ t. Moves fresh (refresh ttl) (position previous) (position (some t))) e
          (rw (refresh-on now previous found) (prolongs ttl (some kept))),
      ap (λ t. t.generation) (sym e),
      ap (λ t. t.updated_at) (sym e),
    )
next_state-Moves drain fresh now previous h =
    let e = ok-injective h in
    (
      subst (λ t. Moves fresh drain (position previous) (position (some t))) e
          (drain-Moves fresh previous),
      ap (λ t. t.generation) (sym e),
      ap (λ t. t.updated_at) (sym e),
    )
next_state-Moves disable fresh now previous h =
    let e = ok-injective h in
    (
      subst (λ t. Moves fresh disable (position previous) (position (some t))) e
          (switches_off (position previous)),
      ap (λ t. t.generation) (sym e),
      ap (λ t. t.updated_at) (sym e),
    )
