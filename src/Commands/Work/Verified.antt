-- ===== src/Commands/Work/Verified.antt =====
-- Work is marked as verified only on evidence.
use done_means_done.Base.{
  ◌≡◌, refl, sym, ◌∙◌, ap, inl, inr, true, false, not, some, String, List, [], ◌∷◌, arith,
  string_eq, eq_self, ◌||◌, filter, map, all, is_empty, Bool-cases, Option-cases, >>=-eq-some,
  guard-eq-some,
}
use mathlib.Core.Path.{subst}
use mathlib.Core.Option.{some-injective}
use done_means_done.Host.{Host}
use done_means_done.Authority.{replace, truthy}
use done_means_done.Authority.Rows.{get-replaced, id_of-get}
use done_means_done.Check.Definition.{SourceMap}
use done_means_done.Check.Verdict.{is_some}
use done_means_done.Check.Verdict.Accepting.{check_verdict-work}
use done_means_done.Gate.{task_fingerprint, task_snapshot, task_candidates}
use done_means_done.Assessment.Evidence.{
  Assessment, accepted, verdict_of, work_ok, work_owed, mapped_checks,
}
use done_means_done.Commands.{require_text}
use done_means_done.Commands.Work.{
  Change, edited_work, put_work, status_allowed, with_status, set_work,
}
use done_means_done.Task.{Task, Work, Check, get, work_row, check_row}

module _ (h : Host) (task_dir : String) where
  abbrev pub judged : SourceMap → Task → Assessment
  judged fp t = record { host = h; task_dir = task_dir; t = t; fp = fp }

  module _ (fp : SourceMap) (t : Task) (rows : List Work) where
    accepted-work :
        (cid : String)
        → accepted (judged fp (record t { work = rows })) cid ≡ accepted (judged fp t) cid
    unfolding accepted verdict_of
    accepted-work cid = elim (Option-cases (get t.checks cid)) [
      | inl e ↦ rw (accepted, verdict_of, e) refl
      | inr (c, e) ↦
          rw (accepted, verdict_of, e)
            (ap (λ v. not (is_some v)) (check_verdict-work h task_dir fp t rows c))
    ]

    task_fingerprint-work : task_fingerprint h (record t { work = rows }) ≡ task_fingerprint h t
    unfolding task_fingerprint task_snapshot task_candidates
    task_fingerprint-work = refl

    mapped_checks-work :
        (wid : String)
        → mapped_checks (judged fp (record t { work = rows })) wid ≡ mapped_checks (judged fp t) wid
    unfolding mapped_checks
    mapped_checks-work wid = refl

    all-accepted :
        (cs : List Check)
        → is_empty
            (map (λ (c : Check). c.ident) (filter (λ c. not (accepted (judged fp t) c.ident)) cs))
          ≡ true
        → all (λ c. accepted (judged fp (record t { work = rows })) c.ident) cs ≡ true
    all-accepted [] h = refl
    all-accepted (c ∷ cs) h = elim (Bool-cases (accepted (judged fp t) c.ident)) [
      | inl e ↦ ground (arith, accepted-work c.ident, all-accepted cs)
      | inr e ↦ absurd (ground arith)
    ]

    -- What `status_allowed` asks of a verified item.
    record IsProved (w : Work) : Type 0 where
      live : w.removed ≡ false
      mapped : is_empty (mapped_checks (judged fp t) w.ident) ≡ false
      owed : is_empty (work_owed (judged fp t) w.ident) ≡ true

    status_allowed-IsProved :
        (w : Work) → status_allowed (judged fp t) w "verified" ≡ true → IsProved w
    unfolding status_allowed
    status_allowed-IsProved w e = record {
      live = ground arith;
      mapped = ground (arith, eq_self {A = String} "verified");
      owed = ground (arith, eq_self {A = String} "verified");
    }

    work_ok-IsProved :
        (w : Work)
        → IsProved w
        → get rows w.ident ≡ some (record w { status = "verified" })
        → work_ok (judged fp (record t { work = rows })) w.ident ≡ true
    unfolding work_ok work_owed
    work_ok-IsProved w p there =
        rw
          (
            work_ok,
            there,
            p.live,
            mapped_checks-work w.ident,
            p.mapped,
            all-accepted (mapped_checks (judged fp t) w.ident) p.owed,
          )
          refl

  -- The trees are there, and the item is done by the assessment's rules.
  abbrev pub IsDone : String → Task → Type 0
  IsDone wid u =
      (fp : SourceMap) × (task_fingerprint h u ≡ some fp) × (work_ok (judged fp u) wid ≡ true)

  with_status-verified :
      (t : Task) (w final : Work)
      → with_status h task_dir t w (some "verified") ≡ some final
      → (fp : SourceMap) × (task_fingerprint h t ≡ some fp)
        × (status_allowed (judged fp t) w "verified" ≡ true)
        × (record w { status = "verified" } ≡ final)
  unfolding with_status string_eq
  with_status-verified t w final done =
      let (_, h1) = guard-eq-some (not w.removed) done in
      let (fp, (hf, h2)) = >>=-eq-some (task_fingerprint h t) h1 in
      let (ok, h3) = guard-eq-some (status_allowed (judged fp t) w "verified") h2 in
      (fp, hf, ok, some-injective _ _ h3)

  ident-edited_work : (w e : Work) (c : Change) → edited_work w c ≡ some e → e.ident ≡ w.ident
  unfolding edited_work
  ident-edited_work w e c done =
      let (_, h1) =
        guard-eq-some (not (truthy c.replacement) || truthy (require_text c.note)) done in
      ap (λ v. v.ident) (sym (some-injective _ _ h1))

  put_work-IsDone :
      (v u : Task) (w old final : Work)
      → get v.work w.ident ≡ some old
      → with_status h task_dir v w (some "verified") ≡ some final
      → put_work final v ≡ some u
      → IsDone w.ident u
  put_work-IsDone v u w old final there marked put =
      let (fp, found, allowed, same) = with_status-verified v w final marked in
      let (rows, (hr, h1)) = >>=-eq-some (replace final.ident final v.work) put in
      let named = ap (λ x. x.ident) (sym same) in
      let there' =
        get-replaced final.ident v.work {x = old} final
          (subst (λ k. get v.work k ≡ some old) (sym named) there) refl hr in
      let row = subst (λ k. get rows k ≡ some final) named there' ∙ ap some (sym same) in
      subst (IsDone w.ident) (some-injective _ _ h1) (
        fp,
        task_fingerprint-work fp v rows ∙ found,
        work_ok-IsProved fp v rows w (status_allowed-IsProved fp v rows w allowed) row,
      )

  -- A work item that `dmd work set` marks as verified is done by the gate's own rule: it is live, checks are
  -- mapped to it, and each is accepted against the trees as they are.
  pub set_work-IsDone :
      (wid : String) (c : Change) (t u : Task)
      → c.status ≡ some "verified"
      → set_work h task_dir wid c t ≡ some u
      → IsDone wid u
  unfolding set_work
  set_work-IsDone wid c t u given done =
      let (w, (hw, h1)) = >>=-eq-some (get t.work wid) done in
      let (e, (he, h2)) = >>=-eq-some (edited_work w c) h1 in
      let (v, (hv, h3)) = >>=-eq-some (put_work e t) h2 in
      let (final, (hf, h4)) = >>=-eq-some (with_status h task_dir v e c.status) h3 in
      let (rows, (hr, h5)) = >>=-eq-some (replace e.ident e t.work) hv in
      let named = ident-edited_work w e c he ∙ id_of-get wid t.work hw in
      let there =
        subst (λ x. get x.work e.ident ≡ some e) (some-injective _ _ h5)
          (get-replaced e.ident t.work {x = w} e (subst (λ k. get t.work k ≡ some w) (sym named) hw)
            refl hr) in
      subst (λ k. IsDone k u) named
        (put_work-IsDone v u e e final there
          (subst (λ s. with_status h task_dir v e s ≡ some final) given hf) h4)
