-- ===== src/Commands/Findings/Closing.antt =====
-- A finding is closed only with evidence: what `dmd finding set` resolves is resolved for the gate.
use done_means_done.Base.{
  ◌≡◌, ◌⊎◌, refl, sym, ◌∙◌, ap, inl, inr, Bool, true, false, not, ◌||◌, Option, none, some, String,
  List, [], ◌∷◌, Memᴰ, arith, ◌==◌, string_eq, Bool-cases, contains, >>=-eq-some, guard-eq-some,
  guard, ◌>>=◌, traverse,
}
use text.Mathlib.TextEquality.{eq_iff}
use mathlib.Core.Path.{subst}
use mathlib.Core.Option.{some-injective}
use done_means_done.Check.Definition.{SourceMap, lookup, value_of}
use done_means_done.Check.Verdict.{is_some}
use done_means_done.Authority.Rows.{get-replaced, id_of-get}
use done_means_done.Authority.{replace, truthy}
use done_means_done.Gate.{task_fingerprint}
use done_means_done.Assessment.Findings.{open_findings}
use done_means_done.Assessment.Findings.Resolution.{Resolves}
use done_means_done.Assessment.Findings.Coverage.{lookup-open_findings}
use done_means_done.Commands.{require_text, Context}
use done_means_done.Commands.Standing.{assessed}
use done_means_done.Commands.Findings.{
  FindingArgs, resolved_states, edited_finding, put_finding, holds, assessed_now, bind_disproof,
  examined, disprove, by_status, set_finding,
}
use done_means_done.Commands.Checks.Authoring.{declared_input}
use done_means_done.Task.{Task, Finding, get, finding_row}

guard-eq_true : (c : Bool) {x : Unit {0}} → guard c ≡ some x → c ≡ true
guard-eq_true true h = refl
guard-eq_true false h = cc

not_some {ℓ} : {A : Type ℓ} (o : Option A) → not (is_some o) ≡ true → o ≡ none
not_some none h = refl
not_some (some a) h = cc

get-Memᴰ : (key : String) (rows : List Finding) {f : Finding} → get rows key ≡ some f → Memᴰ f rows
unfolding get
get-Memᴰ key [] h = cc
get-Memᴰ key (x ∷ xs) {f} h = elim (Bool-cases (x.ident == key)) [
  | inl e ↦ Memᴰ.head (sym (some-injective _ _ (rw e at h)))
  | inr e ↦ Memᴰ.tail (get-Memᴰ key xs (rw e at h))
]

-- The two states that the assessment itself judges.
abbrev pub Judged : String → Type 0
Judged s = (s ≡ "fixed-verified") ⊎ (s ≡ "disproved")

marks_something : (s : String) → Judged s → (s == "") ≡ false
marks_something s (inl e) = ground (arith, eq_iff "fixed-verified" "")
marks_something s (inr e) = ground (arith, eq_iff "disproved" "")

by_equal : {r s : String} → r ≡ s → Judged s → Judged r
by_equal e (inl h) = inl (e ∙ h)
by_equal e (inr h) = inr (e ∙ h)

module _ (ctx : Context) where
  -- The trees of the record are there, and the finding is not open.
  abbrev pub IsClosed : String → Task → Type 0
  IsClosed fid u =
      (fp : SourceMap) × (task_fingerprint ctx.host u ≡ some fp)
      × (lookup fid (open_findings (assessed ctx fp u)) ≡ none)

  holds-IsClosed :
      (fid : String) (u : Task) {x : Unit {0}} → holds ctx fid u ≡ some x → IsClosed fid u
  unfolding holds
  holds-IsClosed fid u h =
      let (a, (ha, h1)) = >>=-eq-some (assessed_now ctx u) h in
      let (fp, (hf, h2)) = >>=-eq-some (task_fingerprint ctx.host u) ha in
      let closed = not_some _ (guard-eq_true _ h1) in
      (
        fp,
        hf,
        subst (λ b. lookup fid (open_findings b) ≡ none) (sym (some-injective _ _ h2)) closed,
      )

  -- The record holds the finding.
  abbrev Holds : String → Task → Type 0
  Holds fid u = (f : Finding) × (f.ident ≡ fid) × Memᴰ f u.findings

  put_finding-Holds :
      (f old : Finding) (t u : Task)
      → get t.findings f.ident ≡ some old
      → put_finding f t ≡ some u
      → get u.findings f.ident ≡ some f
  put_finding-Holds f old t u found done =
      let (rows, (hr, h1)) = >>=-eq-some (replace f.ident f t.findings) done in
      subst (λ v. get v.findings f.ident ≡ some f) (some-injective _ _ h1)
        (get-replaced f.ident t.findings {x = old} f found refl hr)

  IsClosed-Resolves :
      (f : Finding) (u : Task)
      → get u.findings f.ident ≡ some f
      → IsClosed f.ident u
      → (fp : SourceMap) × (task_fingerprint ctx.host u ≡ some fp)
        × Resolves (assessed ctx fp u) f.ident
  IsClosed-Resolves f u there (fp, found, closed) = (
    fp,
    found,
    (lookup-open_findings (assessed ctx fp u) f (get-Memᴰ f.ident u.findings there)).0 closed,
  )

  -- The trees are there, and the finding is resolved by the rules against them.
  abbrev pub Closes : String → Task → Type 0
  Closes fid u =
      (fp : SourceMap) × (task_fingerprint ctx.host u ≡ some fp) × Resolves (assessed ctx fp u) fid

  by_status-fixed :
      (args : FindingArgs) (old f : Finding) (t : Task)
      → f.status ≡ "fixed-verified"
      → by_status ctx args old f t ≡ (holds ctx f.ident t >>= λ _. some t)
  unfolding by_status
  by_status-fixed args old f t e =
      ground (arith, eq_iff "fixed-verified" "disproved", eq_iff "fixed-verified" "duplicate")

  by_status-disproved :
      (args : FindingArgs) (old f : Finding) (t : Task)
      → f.status ≡ "disproved"
      → by_status ctx args old f t ≡ disprove ctx args f t
  unfolding by_status
  by_status-disproved args old f t e = ground arith

  holding-Closes :
      (f : Finding) (t u : Task)
      → get t.findings f.ident ≡ some f
      → (holds ctx f.ident t >>= λ _. some t) ≡ some u
      → Closes f.ident u
  holding-Closes f t u there done =
      let (_, (held, same)) = >>=-eq-some (holds ctx f.ident t) done in
      subst (Closes f.ident) (some-injective _ _ same)
        (IsClosed-Resolves f t there (holds-IsClosed f.ident t held))

  ident-bind_disproof :
      (files : List String) (f b : Finding) (t : Task)
      → bind_disproof ctx files f t ≡ some b
      → b.ident ≡ f.ident
  ident-bind_disproof [] f b t h =
      let (fp, (_, e)) = >>=-eq-some (task_fingerprint ctx.host t) h in
      ap (λ g. g.ident) (sym (some-injective _ _ e))
  ident-bind_disproof (p ∷ ps) f b t h = ap (λ g. g.ident) (sym (some-injective _ _ h))

  disprove-Closes :
      (args : FindingArgs) (f : Finding) (t u : Task)
      → get t.findings f.ident ≡ some f
      → disprove ctx args f t ≡ some u
      → Closes f.ident u
  unfolding disprove
  disprove-Closes args f t u there done =
      let (file, (_, h1)) = >>=-eq-some (args.artifact) done in
      let (inputs, (_, h2)) =
        >>=-eq-some (traverse (declared_input ctx.host t.root) args.inputs) h1 in
      let (b, (hb, h3)) =
        >>=-eq-some
          (bind_disproof ctx (examined ctx f inputs t) (record f { artifact = some file }) t) h2 in
      let (v, (hv, h4)) = >>=-eq-some (put_finding b t) h3 in
      let same = ident-bind_disproof _ _ b t hb in
      let put = put_finding-Holds b f t v (rw same there) hv in
      subst (λ k. Closes k u) same
        (holding-Closes b v u put
          (subst (λ k. (holds ctx k v >>= λ _. some v) ≡ some u) (sym same) h4))

  status-edited_finding :
      (args : FindingArgs) (f : Finding) (s : String)
      → args.status ≡ some s
      → (s == "") ≡ false
      → (edited_finding ctx args f).status ≡ s
  unfolding edited_finding
  status-edited_finding args f s e h = ground arith

  ident-edited_finding :
      (args : FindingArgs) (f : Finding) → (edited_finding ctx args f).ident ≡ f.ident
  unfolding edited_finding
  ident-edited_finding args f = refl

  by_status-Closes :
      (args : FindingArgs) (old f : Finding) (t u : Task)
      → Judged f.status
      → get t.findings f.ident ≡ some f
      → by_status ctx args old f t ≡ some u
      → Closes f.ident u
  by_status-Closes args old f t u (inl e) there done =
      holding-Closes f t u there (sym (by_status-fixed args old f t e) ∙ done)
  by_status-Closes args old f t u (inr e) there done =
      disprove-Closes args f t u there (sym (by_status-disproved args old f t e) ∙ done)

  -- A finding that `dmd finding set` marks as fixed or as disproved is resolved, in the record that the
  -- command leaves and against the trees as they are.
  pub set_finding-Closes :
      (fid s : String) (args : FindingArgs) (t u : Task)
      → args.status ≡ some s
      → Judged s
      → set_finding ctx fid args t ≡ some u
      → Closes fid u
  unfolding set_finding
  set_finding-Closes fid s args t u given which done =
      let (old, (ho, h1)) = >>=-eq-some (get t.findings fid) done in
      let f = edited_finding ctx args old in
      let (_, h2) = guard-eq-some (not (value_of args.status == "deferred")) h1 in
      let (_, h3) =
        guard-eq-some (not (contains resolved_states f.status) || truthy (require_text args.note))
          h2 in
      let (v, (hv, h4)) = >>=-eq-some (put_finding f t) h3 in
      let same = ident-edited_finding args old ∙ id_of-get fid t.findings ho in
      let put =
        put_finding-Holds f old t v (subst (λ k. get t.findings k ≡ some old) (sym same) ho) hv in
      let status = status-edited_finding args old s given (marks_something s which) in
      subst (λ k. Closes k u) same (by_status-Closes args old f v u (by_equal status which) put h4)
