-- ===== src/Control/Lifecycle/Paths.antt =====
-- Paths through the transition table of control_rules.go.
use devflow_service.Base.{
  Bool, Bool-cases, List, [], arith, false, if◌then◌else◌, inl, inr, not, refl, suc, true, ℕ, ◌+◌,
  ◌<◌, ◌∙◌, ◌∷◌, ◌≡◌, ◌≢◌, ◌≤◌, ◌⊎◌,
}
use devflow_service.Control.Lifecycle.{
  LifecycleStatus, can_transition, dispatching, failed, finalizing, is_terminal, other, paused,
  pending, running, same_lifecycle, succeeded, unset,
}

-- The statuses of a release one after another, each allowed after the one before it.
pub data Follows : LifecycleStatus → List LifecycleStatus → LifecycleStatus → Type 0 where
  stop : {s : LifecycleStatus} → Follows s [] s
  move :
      {s t u : LifecycleStatus} {rest : List LifecycleStatus}
      → can_transition s t ≡ true
      → Follows t rest u
      → Follows s (t ∷ rest) u

-- A terminal status allows no other status after it.
can_transition-terminal :
    (from to : LifecycleStatus)
    → is_terminal from ≡ true
    → can_transition from to ≡ true
    → to ≡ from
unfolding can_transition
can_transition-terminal from to t h = ground arith

-- How far a release has come; pausing is no step back.
abbrev pub rank : LifecycleStatus → ℕ
rank unset = 0
rank pending = 1
rank dispatching = 2
rank running = 3
rank paused = 3
rank finalizing = 4
rank succeeded = 5
rank failed = 5
rank (other s) = 0

-- Whether a step goes to another status, and neither pauses a running release nor resumes it.
abbrev pub advances : LifecycleStatus → LifecycleStatus → Bool
advances running paused = false
advances paused running = false
advances s t = not (same_lifecycle s t)

-- The steps of a path that advance.
abbrev pub advance_count : LifecycleStatus → List LifecycleStatus → ℕ
advance_count s [] = 0
advance_count s (t ∷ rest) =
    if advances s t then suc (advance_count t rest) else advance_count t rest

can_transition-rank :
    (from to : LifecycleStatus)
    → can_transition from to ≡ true
    → (if advances from to then suc (rank from) else rank from) ≤ rank to
unfolding can_transition
can_transition-rank unset to h = ground arith
can_transition-rank (other s) to h = elim (Bool-cases (same_lifecycle (other s) to)) [
  | inl same ↦ rw same (omega arith)
  | inr apart ↦ absurd (cc (rw apart at h))
]
can_transition-rank from to h = ground arith

-- Each step of a path that goes to another status, other than a pause or a resumption, uses up a
-- rank: so no path of the table has more of them than there are ranks between its ends.
pub Follows-advances :
    {from to : LifecycleStatus} {path : List LifecycleStatus}
    → Follows from path to
    → rank from + advance_count from path ≤ rank to
Follows-advances stop = omega arith
Follows-advances (move {s} {t} {u} {rest} h p) = elim (Bool-cases (advances s t)) [
  | inl on ↦ rw on (omega (arith, rw on at (can_transition-rank s t h), Follows-advances p))
  | inr off ↦ rw off (omega (arith, rw off at (can_transition-rank s t h), Follows-advances p))
]

-- A path that begins at a terminal status stays at that status.
pub Follows-terminal :
    {from to : LifecycleStatus} {path : List LifecycleStatus}
    → Follows from path to
    → is_terminal from ≡ true
    → to ≡ from
Follows-terminal stop t = refl
Follows-terminal (move {s} {t = mid} {u} {rest} h p) t =
    let e = can_transition-terminal s mid t h in Follows-terminal p (rw e t) ∙ e

unfoldable pub before_success : LifecycleStatus → Bool
before_success finalizing = false
before_success succeeded = false
before_success _ = true

pub success_step :
    (s t : LifecycleStatus)
    → before_success s ≡ true
    → can_transition s t ≡ true
    → (t ≡ finalizing) ⊎ (before_success t ≡ true)
unfolding can_transition before_success
success_step s t b h = ground arith

-- From every status of the table but the failed one the table has a path to success.
pub reaches_success :
    (s : LifecycleStatus)
    → 0 < rank s
    → s ≢ failed
    → (path : List LifecycleStatus) × Follows s path succeeded
unfolding can_transition
reaches_success unset h f = absurd (omega arith)
reaches_success (other s) h f = absurd (omega arith)
reaches_success failed h f = absurd (f refl)
reaches_success succeeded h f = ([], stop)
reaches_success finalizing h f = (succeeded ∷ [], move refl stop)
reaches_success paused h f = (finalizing ∷ succeeded ∷ [], move refl (move refl stop))
reaches_success running h f = (finalizing ∷ succeeded ∷ [], move refl (move refl stop))
reaches_success dispatching h f =
    (running ∷ finalizing ∷ succeeded ∷ [], move refl (move refl (move refl stop)))
reaches_success pending h f = (
  dispatching ∷ running ∷ finalizing ∷ succeeded ∷ [],
  move refl (move refl (move refl (move refl stop))),
)
