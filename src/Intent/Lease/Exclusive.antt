-- ===== src/Intent/Lease/Exclusive.antt =====
-- Two claims of one intent, in internal/intent/repository/repository.go.
use devflow_service.Base.{
  All, List, Option, [], arith, false, none, some, subst, ℕ, ◌+◌, ◌==◌, ◌∷◌, ◌≡◌, ◌≢◌, ◌≤◌,
}
use devflow_service.Intent.Claim.{
  claim_found, claim_next_pending_by_kind, claim_row, claim_where, is_claimable, is_claimable_of,
  oldest,
}
use devflow_service.Intent.Claim.Order.{set_where-split}
use devflow_service.Intent.Lease.{
  Held, HeldRow, Permits, QueueCall, claim_where-Held, serve, serve-Held,
}
use devflow_service.Intent.Types.{Intent, IntentKind}
use devflow_service.Service.Terminal.Kept.{Keeps}
use devflow_service.Service.World.{M, Result, ServiceError, World, err, faulty, faulty_on, ok}
use devflow_service.Text.{Text, is_empty}

-- What a claim starts: the intent that it returns is held for the lease.
abbrev Starts : ℕ → Result Intent × World → Type 0
Starts until (ok c, w) = Held c.id until w
Starts until (err e, w) = Unit

claimed_row-HeldRow :
    (worker : Text) (now lease id : ℕ) (r : Intent)
    → is_empty worker ≡ false
    → HeldRow id (now + lease) (claim_row worker now lease r)
unfolding claim_row is_claimable
claimed_row-HeldRow worker now lease id r filled e t le = ground arith

claim_found-Starts :
    (o : Option Intent) (worker : Text) (now lease : ℕ) (w : World)
    → is_empty worker ≡ false
    → Starts (now + lease) (claim_found o worker now lease w)
unfolding claim_row
claim_found-Starts none worker now lease w filled = tt
claim_found-Starts (some row) worker now lease w filled =
    set_where-split (HeldRow row.id (now + lease)) (λ r. r.id == row.id)
      (claim_row worker now lease) w.intents
      (λ r e. claimed_row-HeldRow worker now lease row.id r filled)
      (λ r off e. absurd (ground arith))

statement-Starts :
    (until : ℕ) (m : M Intent) (faults : List (Option ServiceError)) (w : World)
    → ((w' : World) → Starts until (m w'))
    → Starts until (faulty_on faults m w)
statement-Starts until m [] w begins = begins w
statement-Starts until m (none ∷ rest) w begins = begins (record w { faults = rest })
statement-Starts until m (some e ∷ rest) w begins = tt

claim-Starts :
    (kind : IntentKind) (worker : Text) (now lease : ℕ) (w : World)
    → is_empty worker ≡ false
    → Starts (now + lease) (claim_next_pending_by_kind kind worker now lease w)
unfolding claim_next_pending_by_kind claim_where faulty
claim-Starts kind worker now lease w filled =
    statement-Starts (now + lease) (claim_where (is_claimable_of kind now) worker now lease)
      w.faults w
      (λ w'.
        claim_found-Starts (oldest (is_claimable_of kind now) w'.intents) worker now lease w'
          filled)

ok_injective : (a c : Intent) → Path (Result Intent) (ok a) (ok c) → a ≡ c
ok_injective a c e = cc

started :
    (until : ℕ) (m : Result Intent × World) (c : Intent)
    → Starts until m
    → m.0 ≡ ok c
    → Held c.id until m.1
started until (ok a, w) c h e = subst (λ (x : Intent). Held x.id until w) (ok_injective a c e) h
started until (err x, w) c h e = cc

returned :
    (id until : ℕ) (m : Result Intent × World) (c : Intent)
    → Keeps (Held id until) (λ (r : Intent). r.id ≢ id) m
    → m.0 ≡ ok c
    → c.id ≢ id
returned id until (ok a, w) c h e = subst (λ (x : Intent). x.id ≢ id) (ok_injective a c e) h.1
returned id until (err x, w) c h e = cc

-- An intent that a worker with a name has claimed is not given to another claim while the lease
-- lasts, whatever the workers do meanwhile: claim, mark, insert intents with other ids, or set a
-- status other than pending; and whatever the database answers.
pub lease_excludes :
    (kind : IntentKind) (worker : Text) (now lease : ℕ) (w : World) (c : Intent)
    → is_empty worker ≡ false
    → (claim_next_pending_by_kind kind worker now lease w).0 ≡ ok c
    → (calls : List QueueCall) → All (Permits c.id (now + lease)) calls
    → (kind' : IntentKind) (worker' : Text) (now' lease' : ℕ) (c' : Intent) → now' ≤ now + lease
    → (claim_next_pending_by_kind kind' worker' now' lease'
        (serve calls (claim_next_pending_by_kind kind worker now lease w).1)).0
      ≡ ok c'
    → c'.id ≢ c.id
unfolding claim_next_pending_by_kind is_claimable_of
lease_excludes kind worker now lease w c filled first calls permits kind' worker' now' lease' c' le
      second =
    let held =
      started (now + lease) (claim_next_pending_by_kind kind worker now lease w) c
        (claim-Starts kind worker now lease w filled) first in
    let later =
      serve-Held c.id (now + lease) calls (claim_next_pending_by_kind kind worker now lease w).1
        permits held in
    returned c.id (now + lease) _ c'
      (claim_where-Held c.id (now + lease) (is_claimable_of kind' now') worker' now' lease' _ le
        (λ r e. ground arith) later)
      second
