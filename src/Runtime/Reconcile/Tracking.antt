-- ===== src/Runtime/Reconcile/Tracking.antt =====
-- Which workloads of the store are labelled with a release, through the calls of the reconciler.
use devflow_service.Base.{
  ==_iff, Bool-cases, List, Option, Option-cases, [], ap, arith, erase, find, find-erase_other,
  find-erase_same, find-put_other, find-put_same, inl, inr, none, put, refl, some, subst, sym, ℕ,
  ℕ-Key, ◌==◌, ◌∙◌, ◌∷◌, ◌≡◌, ◌≢◌, ◌⊎◌,
}
use devflow_service.Release.Types.{ReleaseStatus}
use devflow_service.Runtime.Observed.{value_at}
use devflow_service.Runtime.Reconcile.{
  Reconciler, ReleaseRecord, clear_tracking, record_if, release_among, release_from_workload,
  release_id_label, release_status_label, status_text, tracked_release,
}
use devflow_service.Runtime.Store.{MemoryStore}
use devflow_service.Runtime.Store.Workloads.{upsert_observed_workload}
use devflow_service.Runtime.Types.{RuntimeObservedWorkload, RuntimeSpec}
use devflow_service.Text.{codes, text_eq}
use devflow_service.Text.Laws.{Text-Key}

-- What the documentation of `uuid.Parse` says: it reads back what `UUID.String` prints, and no id
-- from an empty text.
pub record IsUuidParse (r : Reconciler) : Type 0 where
  pub round_trip : (a : ℕ) → r.uuid_parse (r.uuid_string a) ≡ some a
  pub no_id : r.uuid_parse [] ≡ none

-- Each workload is stored under the id of its spec.
abbrev pub IsKeyed : MemoryStore → Type 0
IsKeyed s =
    (j : ℕ) (w : RuntimeObservedWorkload)
    → find j s.observed_workloads ≡ some w
    → w.runtime_spec_id ≡ j

some_unique :
    {w v : RuntimeObservedWorkload} (o : Option RuntimeObservedWorkload)
    → o ≡ some w
    → o ≡ some v
    → w ≡ v
some_unique o p q = cc

-- After an upsert, a workload is the new one, or one that was there.
upsert_cases :
    (w : RuntimeObservedWorkload) (s : MemoryStore) (j : ℕ) (v : RuntimeObservedWorkload)
    → find j (upsert_observed_workload (some w) s).observed_workloads ≡ some v
    → ((w ≡ v) × (w.runtime_spec_id ≡ j)) ⊎ (find j s.observed_workloads ≡ some v)
unfolding upsert_observed_workload
upsert_cases w s j v e = elim (Bool-cases (w.runtime_spec_id == j)) [
  | inl p ↦
      let same = find-put_same j w.runtime_spec_id w s.observed_workloads p in
      inl (some_unique _ same e, (==_iff _ _).0 p)
  | inr p ↦ inr (sym (find-put_other j w.runtime_spec_id w s.observed_workloads p) ∙ e)
]

upsert_at :
    (w : RuntimeObservedWorkload) (s : MemoryStore) (j : ℕ)
    → w.runtime_spec_id ≡ j
    → find j (upsert_observed_workload (some w) s).observed_workloads ≡ some w
unfolding upsert_observed_workload
upsert_at w s j e = find-put_same j w.runtime_spec_id w s.observed_workloads ((==_iff _ _).1 e)

record_if-id :
    (id : ℕ) (found rest : Option ReleaseRecord) (release : ReleaseRecord)
    → record_if id found rest ≡ some release
    → (release.release_id ≡ id) ⊎ (rest ≡ some release)
record_if-id id none rest release e = inr e
record_if-id id (some found) rest release e = elim (Bool-cases (found.release_id == id)) [
  | inl p ↦ inl (ground arith)
  | inr p ↦ inr (ground arith)
]

pub upsert-IsKeyed :
    (w : RuntimeObservedWorkload) (s : MemoryStore)
    → IsKeyed s
    → IsKeyed (upsert_observed_workload (some w) s)
upsert-IsKeyed w s h j v e = elim (upsert_cases w s j v e) [
  | inl (same, at) ↦ subst (λ x. x.runtime_spec_id ≡ j) same at
  | inr old ↦ h j v old
]

label_gone :
    (status : Option ReleaseStatus) (w : RuntimeObservedWorkload)
    → find release_id_label (clear_tracking status w).labels ≡ none
unfolding clear_tracking text_eq
label_gone none w =
    let labels = erase release_id_label w.labels in
    find-put_other release_id_label (codes "devflow.io/observe-state") (codes "done")
      (erase release_status_label labels) refl
    ∙ find-erase_other release_id_label release_status_label labels refl
    ∙ find-erase_same release_id_label release_id_label w.labels refl
label_gone (some status) w =
    let labels = erase release_id_label w.labels in
    find-put_other release_id_label (codes "devflow.io/observe-state") (codes "done")
      (put release_status_label (status_text status) labels) refl
    ∙ find-put_other release_id_label release_status_label (status_text status) labels refl
    ∙ find-erase_same release_id_label release_id_label w.labels refl

module _ (r : Reconciler) where
  -- At most the workload under one id is labelled with a release.
  abbrev pub IsOnlyAt : ℕ → ℕ → MemoryStore → Type 0
  IsOnlyAt id k s =
      (j : ℕ) (w : RuntimeObservedWorkload)
      → find j s.observed_workloads ≡ some w
      → tracked_release r w ≡ some id
      → j ≡ k

  -- No workload is labelled with a release.
  abbrev pub IsUntracked : ℕ → MemoryStore → Type 0
  IsUntracked id s =
      (j : ℕ) (w : RuntimeObservedWorkload)
      → find j s.observed_workloads ≡ some w
      → tracked_release r w ≢ some id

  -- A workload whose tracking was cleared is labelled with no release.
  pub clear_tracking-untracked :
      (status : Option ReleaseStatus) (w : RuntimeObservedWorkload)
      → IsUuidParse r
      → tracked_release r (clear_tracking status w) ≡ none
  unfolding tracked_release value_at
  clear_tracking-untracked status w u =
      rw (tracked_release, value_at, label_gone status w, u.no_id) refl

  pub upsert-IsOnlyAt :
      (id k : ℕ) (w : RuntimeObservedWorkload) (s : MemoryStore)
      → tracked_release r w ≡ none
      → IsOnlyAt id k s
      → IsOnlyAt id k (upsert_observed_workload (some w) s)
  upsert-IsOnlyAt id k w s e h j v p q = elim (upsert_cases w s j v p) [
    | inl (same, at) ↦ absurd (cc (ap (tracked_release r) same, e, q))
    | inr old ↦ h j v old q
  ]

  -- To clear the one labelled workload leaves none.
  pub upsert-IsUntracked :
      (id k : ℕ) (w : RuntimeObservedWorkload) (s : MemoryStore)
      → tracked_release r w ≡ none
      → w.runtime_spec_id ≡ k
      → IsOnlyAt id k s
      → IsUntracked id (upsert_observed_workload (some w) s)
  upsert-IsUntracked id k w s e at h j v p q = elim (upsert_cases w s j v p) [
    | inl (same, there) ↦ cc (ap (tracked_release r) same, e, q)
    | inr old ↦
        let here = upsert_at w s j (at ∙ sym (h j v old q)) in
        cc (ap (tracked_release r) (some_unique _ here p), e, q)
  ]

  -- A release that is found has the id that was asked for.
  pub release_among-id :
      (id : ℕ) (specs : List RuntimeSpec) (s : MemoryStore) (release : ReleaseRecord)
      → release_among r id specs s ≡ some release
      → release.release_id ≡ id
  unfolding release_among
  release_among-id id [] s release e = absurd cc
  release_among-id id (spec ∷ specs) s release e =
      elim (Option-cases (find spec.id s.observed_workloads)) [
        | inl o ↦ release_among-id id specs s release (rw (release_among, o) at e)
        | inr (w, o) ↦
            elim (record_if-id id (release_from_workload r spec w) (release_among r id specs s)
              release (rw (release_among, o) at e)) [
                | inl p ↦ p
                | inr p ↦ release_among-id id specs s release p
              ]
      ]

  record_if-untracked :
      (id : ℕ) (spec : RuntimeSpec) (w : RuntimeObservedWorkload) (rest : Option ReleaseRecord)
      → tracked_release r w ≢ some id
      → record_if id (release_from_workload r spec w) rest ≡ rest
  unfolding release_from_workload
  record_if-untracked id spec w rest h = elim (Option-cases (tracked_release r w)) [
    | inl e ↦ rw (release_from_workload, e) refl
    | inr (i, e) ↦ elim (Bool-cases (i == id)) [
      | inl p ↦ absurd (h (e ∙ ap some ((==_iff _ _).0 p)))
      | inr p ↦ rw (release_from_workload, e) (rw p refl)
    ]
  ]

  -- Without a labelled workload, no release is found.
  pub release_among-untracked :
      (id : ℕ) (specs : List RuntimeSpec) (s : MemoryStore)
      → IsUntracked id s
      → release_among r id specs s ≡ none
  unfolding release_among
  release_among-untracked id [] s h = refl
  release_among-untracked id (spec ∷ specs) s h =
      elim (Option-cases (find spec.id s.observed_workloads)) [
        | inl o ↦ rw (release_among, o) (release_among-untracked id specs s h)
        | inr (w, o) ↦
            rw (release_among, o)
              (record_if-untracked id spec w (release_among r id specs s) (h spec.id w o)
                ∙ release_among-untracked id specs s h)
      ]
