-- ===== src/Intent/Worker/Settles.antt =====
-- How ProcessNextReleaseIntent of internal/release/service/release_executor.go leaves the intent.
use mathlib.Core.List.{Memᴰ}
use devflow_service.Base.{
  ==_iff, All, Bool, Bool-cases, List, Option, [], ap, arith, false, inl, inr, none, refl, some,
  subst, sym, true, ℕ, ◌==◌, ◌∙◌, ◌∷◌, ◌≡◌,
}
use devflow_service.Intent.Claim.{
  claim_found, claim_next_pending_by_kind, claim_row, claim_where, is_claimable, is_claimable_of,
  oldest,
}
use devflow_service.Intent.Claim.Order.{FirstInLine, oldest-FirstInLine, set_where-split}
use devflow_service.Intent.Table.{
  change_where, first_where, has_id, mark_failed, mark_submitted, set_where, settled,
}
use devflow_service.Intent.Types.{Intent, IntentStatus, intent_release}
use devflow_service.Intent.Worker.{execute, process_next_release_intent, report, settle}
use devflow_service.Runtime.Reconcile.Run.{quiet}
use devflow_service.Runtime.Store.Calls.{answered}
use devflow_service.Service.Quiet.{IsQuiet}
use devflow_service.Service.World.{M, Result, ServiceError, World, err, faulty_calm, ok}
use devflow_service.Text.{Text, codes}
use devflow_service.Transport.Writeback.{answer}

first_where-found :
    (test : Intent → Bool) (row : Intent) (rows : List Intent)
    → Memᴰ row rows
    → test row ≡ true
    → (r : Intent) × (first_where test rows ≡ some r)
unfolding first_where
first_where-found test row [] m on = elim m [ ]
first_where-found test row (x ∷ rows) (Memᴰ.head e) on = (x, rw (← e, on) refl)
first_where-found test row (x ∷ rows) (Memᴰ.tail m) on = elim (Bool-cases (test x)) [
  | inl here ↦ (x, rw here refl)
  | inr off ↦ rw off (first_where-found test row rows m on)
]

set_where-Memᴰ :
    (test : Intent → Bool) (change : Intent → Intent) (row : Intent) (rows : List Intent)
    → Memᴰ row rows
    → test row ≡ true
    → Memᴰ (change row) (set_where test change rows)
unfolding set_where
set_where-Memᴰ test change row [] m on = elim m [ ]
set_where-Memᴰ test change row (x ∷ rows) (Memᴰ.head e) on = Memᴰ.head (rw (← e, on) refl)
set_where-Memᴰ test change row (x ∷ rows) (Memᴰ.tail m) on =
    Memᴰ.tail (set_where-Memᴰ test change row rows m on)

-- Every live row with the id has the status and no claim.
abbrev SettledAs : ℕ → IntentStatus → World → Type 0
SettledAs id status w =
    All
      (λ (r : Intent).
        has_id id r ≡ true
        → (r.status ≡ status) × (r.claimed_by ≡ []) × (r.lease_expires_at ≡ none))
      w.intents

abbrev outcome : Result (Unit {0}) → Option ServiceError
outcome (ok x) = none
outcome (err e) = some e

abbrev final_status : Result (Unit {0}) → IntentStatus
final_status (ok x) = IntentStatus.running
final_status (err e) = IntentStatus.failed

-- A mark meets the row and settles it.
mark-SettledAs :
    (id : ℕ) (status : IntentStatus) (message last_error : Text) (now : ℕ) (w : World)
    (row : Intent)
    → Memᴰ row w.intents
    → has_id id row ≡ true
    → ((change_where (has_id id) (settled status message last_error now) w).0 ≡ ok tt)
      × SettledAs id status (change_where (has_id id) (settled status message last_error now) w).1
unfolding change_where
mark-SettledAs id status message last_error now w row m on =
    let (r, here) = first_where-found (has_id id) row w.intents m on in
    rw here (
      refl,
      set_where-split
          (λ (s : Intent).
            has_id id s ≡ true
            → (s.status ≡ status) × (s.claimed_by ≡ []) × (s.lease_expires_at ≡ none))
          (has_id id) (settled status message last_error now) w.intents
          (λ s on2 e. (refl, refl, refl)) (λ s off e. cc),
    )

-- The result of serving a claimed intent, when the statements succeed.
abbrev Served : Intent → Result (Unit {0}) → (Bool × Option ServiceError) × World → Type 0
Served row dispatched (answer, w) =
    (answer ≡ (true, outcome dispatched)) × SettledAs row.id (final_status dispatched) w

report-ok : (m : Result (Unit {0}) × World) → m.0 ≡ ok tt → report m ≡ ((true, none), m.1)
report-ok (ok x, w) e = refl
report-ok (err x, w) e = cc

settle-Served :
    (dispatch : ℕ → M (Unit {0})) (error_text : ServiceError → Text) (row : Intent) (later : ℕ)
    (m : Result (Unit {0}) × World)
    → m.1.faults ≡ []
    → Memᴰ row m.1.intents
    → has_id row.id row ≡ true
    → Served row m.0 (settle dispatch error_text row.id later m)
unfolding mark_submitted mark_failed
settle-Served dispatch error_text row later (ok x, w) calm m on =
    let (answered, settled') =
      mark-SettledAs row.id IntentStatus.running (codes "release dispatched") [] later w row m on in
    subst (Served row (ok x))
      (sym (
        ap report (
          faulty_calm
            (change_where (has_id row.id)
              (settled IntentStatus.running (codes "release dispatched") [] later))
            w calm)
        ∙ report-ok _ answered))
      (refl, settled')
settle-Served dispatch error_text row later (err e, w) calm m on =
    let (answered, settled') =
      mark-SettledAs row.id IntentStatus.failed (error_text e) (error_text e) later w row m on in
    subst (λ (v : World). Served row (err e) ((true, some e), v))
      (sym (
        ap (λ (p : Result (Unit {0}) × World). p.1)
          (faulty_calm
            (change_where (has_id row.id)
              (settled IntentStatus.failed (error_text e) (error_text e) later))
            w calm)))
      (refl, settled')

-- The world in which a claimed row is dispatched.
abbrev claimed_world : Text → ℕ → ℕ → World → Intent → World
claimed_world worker now lease w row = record w {
  intents = set_where (λ r. r.id == row.id) (claim_row worker now lease) w.intents;
}

-- The result of one round of a worker, by the row that is first in line.
abbrev pub Round :
    (ℕ → M (Unit {0}))
    → Text
    → ℕ
    → ℕ
    → World
    → Option Intent
    → (Bool × Option ServiceError) × World
    → Type 0
Round dispatch worker now lease w none result = result ≡ ((false, none), w)
Round dispatch worker now lease w (some row) result =
    Served row (dispatch row.resource_id (claimed_world worker now lease w row)).0 result

claimable-has_id :
    (now : ℕ) (row : Intent)
    → is_claimable_of intent_release now row ≡ true
    → has_id row.id row ≡ true
unfolding is_claimable_of is_claimable
claimable-has_id now row on = ground arith

execute-Round :
    (dispatch : ℕ → M (Unit {0})) (error_text : ServiceError → Text)
    → ((id : ℕ) → IsQuiet (dispatch id))
    → (worker : Text) (lease now later : ℕ) (w : World) (o : Option Intent) → w.faults ≡ []
    → FirstInLine (is_claimable_of intent_release now) w.intents o
    → Round dispatch worker now lease w o
        (execute dispatch error_text later (claim_found o worker now lease w))
unfolding claim_row is_claimable_of is_claimable
execute-Round dispatch error_text quiet worker lease now later w none calm f = refl
execute-Round dispatch error_text quiet worker lease now later w (some row) calm (m, on, f) =
    let v = claimed_world worker now lease w row in
    let (same_intents, still_calm) = quiet row.resource_id v calm in
    settle-Served dispatch error_text (claim_row worker now lease row) later
      (dispatch row.resource_id v) still_calm
      (subst (λ (rows : List Intent). Memᴰ (claim_row worker now lease row) rows) (sym same_intents)
        (set_where-Memᴰ (λ r. r.id == row.id) (claim_row worker now lease) row w.intents m
          ((==_iff row.id row.id).1 refl)))
      (claimable-has_id now row on)

-- What a worker does in one round, when the statements succeed: without a row to claim it does
-- nothing; else it dispatches the release of the row that is first in line, and afterwards the
-- intent is running, or failed if the dispatch failed, without a claim, and that error is the
-- worker's. The dispatch, where statements succeed, leaves the intents as they are and lets the
-- statements after it succeed, as `DispatchRelease` does if its phases do.
pub worker_settles :
    (dispatch : ℕ → M (Unit {0})) (error_text : ServiceError → Text)
    → ((id : ℕ) → IsQuiet (dispatch id))
    → (worker : Text) (lease now later : ℕ) (w : World) → w.faults ≡ []
    → Round dispatch worker now lease w
        (oldest (is_claimable_of intent_release now) w.intents)
        (process_next_release_intent dispatch error_text worker lease now later w)
unfolding process_next_release_intent claim_next_pending_by_kind claim_where
worker_settles dispatch error_text quiet worker lease now later w calm =
    subst
      (Round dispatch worker now lease w (oldest (is_claimable_of intent_release now) w.intents))
      (sym (
        ap (execute dispatch error_text later)
          (faulty_calm (claim_where (is_claimable_of intent_release now) worker now lease) w calm)))
      (execute-Round dispatch error_text quiet worker lease now later w
        (oldest (is_claimable_of intent_release now) w.intents) calm
        (oldest-FirstInLine (is_claimable_of intent_release now) w.intents))
