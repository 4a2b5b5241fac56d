-- ===== src/Sv2/Session/Safety.antt =====
-- The job that the miner is given is valid, and the containers of the session stay bounded.
use supryolo.Base.{
  ℕ, ◌+◌, ◌≤◌, ◌<◌, ◌≡◌, refl, sym, ap, subst, ◌∙◌, arith, List, [], ◌∷◌, inl, inr, true, false,
  length, ◌==◌, ok, ==_iff, ==_refl, Bool-cases, none, some, ◌%◌, ◌^◌, All,
}
use supryolo.Job.{Job}
use supryolo.Target.{lex_less}
use supryolo.Sv2.Session.{Session, Stored, valid, activate, activated, find_job, capped, maximum}
use supryolo.Sv2.Session.Inversion.{activate-ok}

-- Each job is stored under its own number.
abbrev pub Keyed : List (ℕ × Stored) → Type 0
Keyed jobs = All (λ e. e.1.wire.job ≡ e.0) jobs

-- The current job is valid and needs 32 zero bits.
abbrev pub IsMineable : Session → Job → Type 0
IsMineable s j = (valid j s ≡ true) × (lex_less maximum j.work.target ≡ false)

pub record Safe (s : Session) : Type 0 where
  pub keyed : Keyed s.jobs
  pub jobs_fit : length s.jobs ≤ 1024
  pub pending_fit : length s.pending ≤ 4096
  pub early : (s.phase == 3) ≡ false → s.current ≡ none
  pub mineable : (j : Job) → s.current ≡ some j → IsMineable s j

pub find_job-Keyed :
    (k : ℕ) (jobs : List (ℕ × Stored)) (st : Stored)
    → find_job k jobs ≡ some st
    → Keyed jobs
    → st.wire.job ≡ k
unfolding find_job
find_job-Keyed k [] st e h = cc
find_job-Keyed k ((j, t) ∷ jobs) st e h = elim (Bool-cases (j == k)) [
  | inl hit ↦
      let same : t ≡ st = cc (rw hit at e) in
      subst (λ t. t.wire.job ≡ k) same (h.0 ∙ (==_iff j k).0 hit)
  | inr miss ↦ find_job-Keyed k jobs st (rw miss at e) h.1
]

pub lex_less_irrefl : (t : List ℕ) → lex_less t t ≡ false
unfolding lex_less
lex_less_irrefl [] = refl
lex_less_irrefl (x ∷ t) = ground (arith, lex_less_irrefl t)

capped-easy : (t : List ℕ) → lex_less maximum (capped t) ≡ false
unfolding capped
capped-easy t = elim (Bool-cases (lex_less maximum t)) [
  | inl above ↦ rw above (lex_less_irrefl maximum)
  | inr below ↦ rw below below
]

pub activated-valid :
    (k : ℕ) (st : Stored) (time : ℕ) (header : List ℕ) (others : List (ℕ × Stored)) (s : Session)
    → (s.phase == 3) ≡ true
    → st.wire.job ≡ k
    → valid (activated s st time header) (record s {
      generation = (s.generation + 1) % 2 ^ 64;
      current = some (activated s st time header);
      jobs = (k, record st { job = activated s st time header; future = false }) ∷ others;
    })
      ≡ true
unfolding valid find_job
activated-valid k st time header others s p e =
    rw (p, e, ==_refl s.channel, ==_refl s.epoch, ==_refl k, ==_refl ((s.generation + 1) % 2 ^ 64))
      refl

some-injective {ℓ} : {A : Type ℓ} {a b : A} → some a ≡ some b → a ≡ b
some-injective h = cc

pub activate-Safe :
    (k : ℕ) (st : Stored) (time : ℕ) (others : List (ℕ × Stored)) (s s' : Session)
    → activate k st time others s ≡ ok s'
    → (s.phase == 3) ≡ true
    → st.wire.job ≡ k
    → Keyed others
    → length others < 1024
    → length s.pending ≤ 4096
    → Safe s'
activate-Safe k st time others s s' e p same keyed room fit =
    let (header, _, _, state) = activate-ok k st time others s s' e in
    subst Safe (sym state) (record {
      keyed = (same, keyed);
      jobs_fit = omega arith;
      pending_fit = fit;
      early = λ early. cc (p, early);
      mineable = λ j c.
          subst (IsMineable _) (some-injective c)
            (activated-valid k st time header others s p same, capped-easy s.target);
    })

-- A change that keeps jobs, phase, channel, epoch and current job.
pub same-Safe :
    (s s' : Session)
    → Safe s
    → ((j : Job) → valid j s' ≡ valid j s)
    → s'.jobs ≡ s.jobs
    → s'.phase ≡ s.phase
    → s'.current ≡ s.current
    → length s'.pending ≤ 4096
    → Safe s'
same-Safe s s' safe v jobs phase current fit = record {
  keyed = subst Keyed (sym jobs) safe.keyed;
  jobs_fit = omega (arith, ap length jobs, safe.jobs_fit);
  pending_fit = fit;
  early = λ early. current ∙ safe.early (ap (λ p. p == 3) (sym phase) ∙ early);
  mineable =
      λ j c. let (ok_before, easy) = safe.mineable j (sym current ∙ c) in (v j ∙ ok_before, easy);
}

-- Before phase 3 there is no job to be invalid.
pub early-Safe :
    (s s' : Session)
    → Safe s
    → s.current ≡ none
    → s'.jobs ≡ s.jobs
    → s'.current ≡ s.current
    → s'.pending ≡ s.pending
    → Safe s'
early-Safe s s' safe no_job jobs current pending = record {
  keyed = subst Keyed (sym jobs) safe.keyed;
  jobs_fit = omega (arith, ap length jobs, safe.jobs_fit);
  pending_fit = omega (arith, ap length pending, safe.pending_fit);
  early = λ early. current ∙ no_job;
  mineable = λ j c. cc (current, no_job, c);
}
