-- ===== src/Runtime/Reconcile/Matching.antt =====
-- The workload that the reconciler matches to a release is the one that is labelled with it.
use devflow_service.Base.{
  Bool, Bool-cases, List, Option, Option-cases, [], arith, false, find, inl, inr, ltb, none, refl,
  some, true, ℕ, ℕ-Key, ◌&&◌, ◌==◌, ◌∙◌, ◌∷◌, ◌≡◌,
}
use devflow_service.Runtime.Observed.{value_at}
use devflow_service.Runtime.Reconcile.{
  Reconciler, ReleaseRecord, clear_tracking, cleared, in_place, is_stale, is_tracked,
  match_workload, more_recent, release_id_label, tracked_release,
}
use devflow_service.Runtime.Reconcile.Tracking.{
  IsKeyed, IsOnlyAt, IsUuidParse, clear_tracking-untracked, upsert-IsKeyed, upsert-IsOnlyAt,
}
use devflow_service.Runtime.Store.{MemoryStore}
use devflow_service.Runtime.Types.{RuntimeObservedWorkload, RuntimeSpec}
use devflow_service.Service.World.{Result, err, ok}
use devflow_service.Text.Laws.{Text-Key, text_eq_iff}

abbrev pub Kept : ℕ → Option RuntimeObservedWorkload → Type 0
Kept k none = Unit
Kept k (some w) = w.runtime_spec_id ≡ k

abbrev pub KeptResult : ℕ → Result (Option RuntimeObservedWorkload) → Type 0
KeptResult k (ok matched) = Kept k matched
KeptResult k (err e) = Unit

and_left : (a b : Bool) → (a && b) ≡ true → a ≡ true
and_left a b h = ground arith

module _ (r : Reconciler) where
  -- What the loop over the specs keeps, and what it gives.
  abbrev pub Matches : ℕ → ℕ → Result (Option RuntimeObservedWorkload) × MemoryStore → Type 0
  Matches id k (found, s) = KeptResult k found × IsOnlyAt r id k s × IsKeyed s

  tracked_of :
      (id : ℕ) (release : ReleaseRecord) (w : RuntimeObservedWorkload)
      → IsUuidParse r
      → id == 0 ≡ false
      → release.release_id ≡ id
      → is_tracked r release w ≡ true
      → tracked_release r w ≡ some id
  unfolding is_tracked tracked_release
  tracked_of id release w u nz e h =
      let same =
        (text_eq_iff (value_at release_id_label w.labels) (r.uuid_string release.release_id)).0
          (and_left _ _ h) in
      rw (tracked_release, same, u.round_trip release.release_id, e, nz) refl

  newer-Kept :
      (k : ℕ) (matched : Option RuntimeObservedWorkload) (w : RuntimeObservedWorkload)
      → Kept k matched
      → w.runtime_spec_id ≡ k
      → Kept k (some (more_recent matched w))
  newer-Kept k none w h e = e
  newer-Kept k (some matched) w h e = elim (Bool-cases (ltb matched.observed_at w.observed_at)) [
    | inl p ↦ rw p e
    | inr p ↦ rw p h
  ]

  pub match_workload-Matches :
      (id k : ℕ) (release : ReleaseRecord) (now : ℕ) (specs : List RuntimeSpec)
      (matched : Option RuntimeObservedWorkload) (s : MemoryStore)
      → IsUuidParse r
      → id == 0 ≡ false
      → release.release_id ≡ id
      → Kept k matched
      → IsOnlyAt r id k s
      → IsKeyed s
      → Matches id k (match_workload r release now specs matched s)
  unfolding match_workload
  match_workload-Matches id k release now [] matched s u nz e h only keyed = (h, only, keyed)
  match_workload-Matches id k release now (spec ∷ specs) matched s u nz e h only keyed =
      let skip = match_workload-Matches id k release now specs matched s u nz e h only keyed in
      elim (Bool-cases (in_place release spec)) [
        | inr p ↦ rw (match_workload, p) skip
        | inl p ↦ elim (Option-cases (find spec.id s.observed_workloads)) [
          | inl o ↦ rw (match_workload, p) (rw o (tt, only, keyed))
          | inr (w, o) ↦ elim (Bool-cases (is_tracked r release w)) [
            | inr q ↦ rw (match_workload, p) (rw o (rw q skip))
            | inl q ↦
                let tracked = tracked_of id release w u nz e q in
                let at = keyed spec.id w o ∙ only spec.id w o tracked in
                let untracked = clear_tracking-untracked r none w u in
                elim (Bool-cases (is_stale now w)) [
                  | inl old ↦
                      rw (match_workload, p)
                        (rw o (
                          rw q (
                            rw old (
                              match_workload-Matches id k release now specs matched (cleared w s) u
                                nz e h
                                (upsert-IsOnlyAt r id k (clear_tracking none w) s untracked only)
                                (upsert-IsKeyed (clear_tracking none w) s keyed)))))
                  | inr fresh ↦
                      rw (match_workload, p)
                        (rw o (
                          rw q (
                            rw fresh (
                              match_workload-Matches id k release now specs
                                (some (more_recent matched w)) s u nz e
                                (newer-Kept k matched w h at) only keyed))))
                ]
          ]
        ]
      ]
