-- ===== src/Control/Engine/Finalizing.antt =====
-- How the engine of internal/release/control/engine.go brings a control state to success.
use devflow_service.Base.{inl, inr, refl, true, ◌≡◌}
use devflow_service.Control.Engine.{Engine}
use devflow_service.Control.Engine.Laws.{Observed-allowed, ObservedAll, extend, start}
use devflow_service.Control.Lifecycle.{finalizing, pending, succeeded}
use devflow_service.Control.Lifecycle.Paths.{before_success, success_step}
use devflow_service.Control.State.{ReleaseControlState}

-- A state of the run that is finalizing.
abbrev pub PassesFinalizing : Engine → ReleaseControlState → ReleaseControlState → Type 0
PassesFinalizing e s t =
    (u : ReleaseControlState) × ObservedAll e s u
    × (u.lifecycle_status ≡ finalizing)
    × ObservedAll e u t

before-PassesFinalizing :
    {e : Engine} {s t : ReleaseControlState}
    → ObservedAll e s t
    → before_success s.lifecycle_status ≡ true
    → t.lifecycle_status ≡ succeeded
    → PassesFinalizing e s t
unfolding before_success
before-PassesFinalizing start b h = absurd (cc (rw h at b))
before-PassesFinalizing (extend {s} {t} {u} o rest) b h =
    elim (success_step s.lifecycle_status t.lifecycle_status b (Observed-allowed o).2) [
      | inl here ↦ (t, extend o start, here, rest)
      | inr before ↦
          let (v, p, e, q) = before-PassesFinalizing rest before h in (v, extend o p, e, q)
    ]

-- Whatever controllers an engine has, and whatever they decide, a run of accepted observations that
-- leads from a pending control state to a succeeded one passes a control state that is finalizing.
pub observed_success-PassesFinalizing :
    {e : Engine} {s t : ReleaseControlState}
    → ObservedAll e s t
    → s.lifecycle_status ≡ pending
    → t.lifecycle_status ≡ succeeded
    → PassesFinalizing e s t
unfolding before_success
observed_success-PassesFinalizing run_of pends h = before-PassesFinalizing run_of (rw pends refl) h
