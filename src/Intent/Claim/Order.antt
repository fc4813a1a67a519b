-- ===== src/Intent/Claim/Order.antt =====
-- Which row ClaimNextPending and ClaimNextPendingByKind take.
use mathlib.Core.List.{Memᴰ}
use devflow_service.Base.{
  All, All-mono, Bool, Bool-cases, List, Option, [], arith, false, inl, inr, leb, leb→le,
  lt_of_not-leb, none, refl, some, subst, true, ℕ, ◌∷◌, ◌≡◌, ◌≤◌,
}
use devflow_service.Intent.Claim.{
  claim_found, claim_next_pending_by_kind, claim_where, is_claimable_of, older, oldest,
}
use devflow_service.Intent.Table.{set_where}
use devflow_service.Intent.Types.{Intent, IntentKind}
use devflow_service.Service.World.{World, faulty_calm}
use devflow_service.Text.{Text}

pub set_where-All {κ} :
    (P : Intent → Type κ) (test : Intent → Bool) (change : Intent → Intent) (rows : List Intent)
    → ((row : Intent) → P row → test row ≡ true → P (change row))
    → All P rows
    → All P (set_where test change rows)
unfolding set_where
set_where-All P test change [] step h = tt
set_where-All P test change (row ∷ rows) step (p, h) = elim (Bool-cases (test row)) [
  | inl e ↦ (rw e (step row p e), set_where-All P test change rows step h)
  | inr e ↦ (rw e p, set_where-All P test change rows step h)
]

pub set_where-split {κ} :
    (P : Intent → Type κ) (test : Intent → Bool) (change : Intent → Intent) (rows : List Intent)
    → ((row : Intent) → test row ≡ true → P (change row))
    → ((row : Intent) → test row ≡ false → P row)
    → All P (set_where test change rows)
unfolding set_where
set_where-split P test change [] on off = tt
set_where-split P test change (row ∷ rows) on off = elim (Bool-cases (test row)) [
  | inl e ↦ (rw e (on row e), set_where-split P test change rows on off)
  | inr e ↦ (rw e (off row e), set_where-split P test change rows on off)
]

-- What the inner query of a claim answers, described without the loop.
abbrev pub FirstInLine : (Intent → Bool) → List Intent → Option Intent → Type 0
FirstInLine test rows none = All (λ (r : Intent). test r ≡ false) rows
FirstInLine test rows (some row) =
    Memᴰ row rows
    × (test row ≡ true)
    × All (λ (r : Intent). test r ≡ true → row.created_at ≤ r.created_at) rows

FirstInLine-skip :
    (test : Intent → Bool) (r : Intent) (rows : List Intent) (o : Option Intent)
    → test r ≡ false
    → FirstInLine test rows o
    → FirstInLine test (r ∷ rows) o
FirstInLine-skip test r rows none off h = (off, h)
FirstInLine-skip test r rows (some row) off (m, on, h) = (Memᴰ.tail m, on, ((λ e. cc), h))

FirstInLine-older :
    (test : Intent → Bool) (r : Intent) (rows : List Intent) (o : Option Intent)
    → test r ≡ true
    → FirstInLine test rows o
    → FirstInLine test (r ∷ rows) (some (older r o))
FirstInLine-older test r rows none on h = (
  Memᴰ.head refl,
  on,
  (
    (λ e. omega arith),
    All-mono (λ (s : Intent). test s ≡ false)
        (λ (s : Intent). test s ≡ true → r.created_at ≤ s.created_at) (λ s off e. cc) rows h,
  ),
)
FirstInLine-older test r rows (some row) on (m, on', h) =
    elim (Bool-cases (leb r.created_at row.created_at)) [
      | inl le ↦
          subst (λ (x : Intent). FirstInLine test (r ∷ rows) (some x)) (rw le)
            (
              Memᴰ.head refl,
              on,
              (
                (λ e. omega arith),
                All-mono (λ (s : Intent). test s ≡ true → row.created_at ≤ s.created_at)
                    (λ (s : Intent). test s ≡ true → r.created_at ≤ s.created_at)
                    (λ s k e. omega (arith, k e, leb→le _ _ le)) rows h,
              ),
            )
      | inr gt ↦
          subst (λ (x : Intent). FirstInLine test (r ∷ rows) (some x)) (rw gt)
            (Memᴰ.tail m, on', ((λ e. omega (arith, lt_of_not-leb _ _ gt)), h))
    ]

pub oldest-FirstInLine :
    (test : Intent → Bool) (rows : List Intent) → FirstInLine test rows (oldest test rows)
unfolding oldest
oldest-FirstInLine test [] = tt
oldest-FirstInLine test (r ∷ rows) = elim (Bool-cases (test r)) [
  | inl on ↦
      rw on (FirstInLine-older test r rows (oldest test rows) on (oldest-FirstInLine test rows))
  | inr off ↦
      rw off (FirstInLine-skip test r rows (oldest test rows) off (oldest-FirstInLine test rows))
]

-- When the statement reaches the database, a claim finds nothing and changes nothing exactly where
-- no row can be claimed; else it takes a row that can be claimed and of which none is older, and
-- writes the worker, the lease and one more attempt into it.
pub claim_takes_oldest :
    (kind : IntentKind) (worker : Text) (now lease : ℕ) (w : World)
    → w.faults ≡ []
    → (o : Option Intent) × FirstInLine (is_claimable_of kind now) w.intents o
      × (claim_next_pending_by_kind kind worker now lease w ≡ claim_found o worker now lease w)
unfolding claim_next_pending_by_kind claim_where
claim_takes_oldest kind worker now lease w calm = (
  oldest (is_claimable_of kind now) w.intents,
  oldest-FirstInLine (is_claimable_of kind now) w.intents,
  faulty_calm (claim_where (is_claimable_of kind now) worker now lease) w calm,
)
