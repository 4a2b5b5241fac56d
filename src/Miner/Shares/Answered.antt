-- ===== src/Miner/Shares/Answered.antt =====
-- Which pending numbers a session's answers take away, one after the other.
use supryolo.Base.{
  ℕ, ◌≡◌, refl, sym, ap, ◌∙◌, arith, List, [], ◌∷◌, ◌++◌, inl, inr, Bool, true, map, ◌==◌, ==_refl,
  ◌&&◌, append-nil, ok,
}
use supryolo.Sv2.Types.{
  Message, setup_success, open_success, new_job, prev_hash, target, accepted, rejected, error,
  NewJob,
}
use supryolo.Sv2.Session.{Session, handle}
use supryolo.Sv2.Session.Settle.{Event, answer_accepted, answer_rejected, prompt, contains, remove}
use supryolo.Sv2.Session.Settle.Laws.{answered, answered-append, answered-map, settle-ok}
use supryolo.Sv2.Session.Inversion.{
  activate-ok, setup_success-ok, open_success-ok, new_job-ok, prev_hash-ok, target-ok, accepted-ok,
  rejected-ok, NewJobStored,
}

-- `q` is `p` after these were taken out, each of which was there.
abbrev pub Removes : List ℕ → List ℕ → List ℕ → Type 0
Removes [] p q = p ≡ q
Removes (k ∷ ks) p q = (contains k p ≡ true) × Removes ks (remove k p) q

Removes-front : (front rest : List ℕ) → Removes front (front ++ rest) rest
unfolding contains remove
Removes-front [] rest = refl
Removes-front (k ∷ front) rest = (rw (==_refl k) refl, rw (==_refl k) (Removes-front front rest))

nothing : (p q : List ℕ) (out : List Event) → q ≡ p → answered out ≡ [] → Removes (answered out) p q
nothing p q out e o = rw o (sym e)

front_removed :
    (p q front rest : List ℕ) (out : List Event)
    → p ≡ front ++ rest
    → q ≡ rest
    → answered out ≡ front
    → Removes (answered out) p q
front_removed p q front rest out e e' o = rw (o, e, e') (Removes-front front rest)

after_reject :
    (k code : ℕ) (reason : List ℕ) (p q front rest : List ℕ) (replies out : List Event)
    → contains k p ≡ true
    → remove k p ≡ front ++ rest
    → q ≡ rest
    → replies ≡ map answer_accepted front
    → out ≡ answer_rejected k code reason ∷ (replies ++ (prompt ∷ []))
    → Removes (answered out) p q
after_reject k code reason p q front rest replies out there e e' r o = rw o (
  there,
  front_removed (remove k p) q front rest (replies ++ (prompt ∷ [])) e e'
      (accepted_front front replies r),
)
  where
    accepted_front :
        (front : List ℕ) (replies : List Event)
        → replies ≡ map answer_accepted front
        → answered (replies ++ (prompt ∷ [])) ≡ front
    accepted_front front replies r =
        answered-append replies (prompt ∷ [])
        ∙ append-nil (answered replies)
        ∙ ap answered r
        ∙ answered-map front

stored-pending : (m : NewJob) (s s' : Session) → NewJobStored m s s' → s'.pending ≡ s.pending
stored-pending m s s' (inl (_, state)) = ap (λ t. t.pending) state
stored-pending m s s' (inr (t, _, go)) =
    let (header, _, _, state) = activate-ok m.job _ t s.jobs s s' go in ap (λ t. t.pending) state

last_of : (a b c : Bool) → (a && b && c) ≡ true → c ≡ true
last_of a b c h = ground arith

-- A message's answers, in order, take its shares out of the pending ones.
pub handle-Removes :
    (m : Message) (s s' : Session) (out : List Event)
    → handle m s ≡ ok (s', out)
    → Removes (answered out) s.pending s'.pending
unfolding handle
handle-Removes (setup_success m) s s' out e =
    let (f, _, _, state, events) = setup_success-ok m s s' out e in
    nothing s.pending s'.pending out (ap (λ t. t.pending) state) (ap answered events)
handle-Removes (open_success m) s s' out e =
    let (_, _, state, events) = open_success-ok m s s' out e in
    nothing s.pending s'.pending out (ap (λ t. t.pending) state) (ap answered events)
handle-Removes (new_job m) s s' out e =
    let (_, _, stored, events) = new_job-ok m s s' out e in
    nothing s.pending s'.pending out (stored-pending m s s' stored) (ap answered events)
handle-Removes (prev_hash m) s s' out e =
    let (selected, next, _, _, _, _, go, events) = prev_hash-ok m s s' out e in
    let (header, _, _, state) = activate-ok m.job selected m.ntime [] _ s' go in
    nothing s.pending s'.pending out (ap (λ t. t.pending) state) (ap answered events)
handle-Removes (target m) s s' out e =
    let (_, state, events) = target-ok m s s' out e in
    nothing s.pending s'.pending out (ap (λ t. t.pending) state) (ap answered events)
handle-Removes (accepted m) s s' out e =
    let (r, _, settled, state, events) = accepted-ok m s s' out e in
    let (front, split, replies) = settle-ok _ s.pending r settled in
    front_removed s.pending s'.pending front r.1 out split (ap (λ t. t.pending) state) (
      ap answered events
      ∙ answered-append r.2 (prompt ∷ [])
      ∙ append-nil (answered r.2)
      ∙ ap answered replies
      ∙ answered-map front)
handle-Removes (rejected m) s s' out e =
    let (r, test, settled, state, events) = rejected-ok m s s' out e in
    let (front, split, replies) = settle-ok _ (remove m.sequence s.pending) r settled in
    after_reject m.sequence _ m.reason s.pending s'.pending front r.1 r.2 out
      (last_of (s.phase == 3) (m.channel == s.channel) (contains m.sequence s.pending) test) split
      (ap (λ t. t.pending) state) replies events
handle-Removes (error m) s s' out e = cc
