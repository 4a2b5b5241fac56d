-- ===== src/Sv2/Session/Answers.antt =====
-- Every share that was submitted is answered once or still pending.
use mathlib.Core.List.{Perm}
use mathlib.Core.List.Perm
use supryolo.Base.{
  ℕ, ◌≡◌, refl, ap, ap₂, ◌∙◌, arith, List, [], ◌∷◌, ◌++◌, inl, inr, Bool, true, false, map, ltb,
  ◌==◌, ◌&&◌, ◌||◌, Result, ok, ◌>>=◌, append-nil, Bool-cases, ==_iff,
}
use supryolo.Job.{Job}
use supryolo.Sv2.Types.{
  Message, NewJob, setup_success, open_success, new_job, prev_hash, target, accepted, rejected,
  error,
}
use supryolo.Sv2.Session.{Session, handle, submit}
use supryolo.Sv2.Session.Settle.{
  Event, answer_accepted, answer_rejected, prompt, contains, remove, insert,
}
use supryolo.Sv2.Session.Settle.Laws.{answered, answered-append, answered-map, settle-ok}
use supryolo.Sv2.Session.Inversion.{
  activate-ok, setup_success-ok, open_success-ok, new_job-ok, prev_hash-ok, target-ok, accepted-ok,
  rejected-ok, NewJobStored,
}

contains-perm : (k : ℕ) (m : List ℕ) → contains k m ≡ true → Perm m (k ∷ remove k m)
unfolding contains remove
contains-perm k [] h = cc
contains-perm k (j ∷ m) h = elim (Bool-cases (j == k)) [
  | inl hit ↦ rw (hit, (==_iff j k).0 hit) (Perm.refl (k ∷ m))
  | inr miss ↦
      rw miss
        (Perm.trans (Perm.cons j (contains-perm k m (rw miss at h))) (Perm.swap k j (remove k m)))
]

other : (k j : ℕ) (b : Bool) → (j == k || b) ≡ false → (k == j) ≡ false
other k j b h = ground arith

later : (k j : ℕ) (b : Bool) → (j == k || b) ≡ false → b ≡ false
later k j b h = ground arith

pub insert-perm : (k : ℕ) (m : List ℕ) → contains k m ≡ false → Perm (insert k m) (k ∷ m)
unfolding contains insert
insert-perm k [] h = Perm.refl (k ∷ [])
insert-perm k (j ∷ m) h = elim (Bool-cases (ltb k j)) [
  | inl before ↦ rw before (Perm.refl (k ∷ j ∷ m))
  | inr behind ↦
      rw (behind, other k j (contains k m) h)
        (Perm.trans (Perm.cons j (insert-perm k m (later k j (contains k m) h))) (Perm.swap k j m))
]

-- What a handler leaves alone, it neither answers nor loses.
unchanged :
    (pending pending' : List ℕ) (out : List Event)
    → pending' ≡ pending
    → answered out ≡ []
    → Perm pending (answered out ++ pending')
unchanged pending pending' out e o = rw (o, e) (Perm.refl pending)

stored-pending : (m : NewJob) (s s' : Session) → NewJobStored m s s' → s'.pending ≡ s.pending
stored-pending m s s' (inl (_, state)) = ap (λ t. t.pending) state
stored-pending m s s' (inr (t, _, run)) =
    let (header, _, _, state) = activate-ok m.job _ t s.jobs s s' run in ap (λ t. t.pending) state

accepted-answers :
    (out replies : List Event) (front : List ℕ) (rest : List Event)
    → replies ≡ map answer_accepted front
    → out ≡ replies ++ rest
    → answered rest ≡ []
    → answered out ≡ front
accepted-answers out replies front rest r e n =
    ap answered e
    ∙ answered-append replies rest
    ∙ ap₂ (λ x y. x ++ y) (ap answered r ∙ answered-map front) n
    ∙ append-nil front

rejected-answers :
    (out replies : List Event) (k code : ℕ) (reason front : List ℕ)
    → replies ≡ map answer_accepted front
    → out ≡ answer_rejected k code reason ∷ (replies ++ (prompt ∷ []))
    → answered out ≡ k ∷ front
rejected-answers out replies k code reason front r e =
    ap answered e
    ∙ ap (◌∷◌ k)
        (accepted-answers (replies ++ (prompt ∷ [])) replies front (prompt ∷ []) r refl refl)

in_pending : (a b c : Bool) → (a && b && c) ≡ true → c ≡ true
in_pending a b c h = ground arith

settled-perm :
    (pending front rest answers pending' : List ℕ)
    → pending ≡ front ++ rest
    → answers ≡ front
    → pending' ≡ rest
    → Perm pending (answers ++ pending')
settled-perm pending front rest answers pending' p a q = rw (p, a, q) (Perm.refl (front ++ rest))

-- The shares pending before a message are those that it answers and those pending after it.
pub handle-answered :
    (m : Message) (s s' : Session) (out : List Event)
    → handle m s ≡ ok (s', out)
    → Perm s.pending (answered out ++ s'.pending)
unfolding handle
handle-answered (setup_success m) s s' out e =
    let (f, _, _, state, events) = setup_success-ok m s s' out e in
    unchanged s.pending s'.pending out (ap (λ t. t.pending) state) (ap answered events)
handle-answered (open_success m) s s' out e =
    let (_, _, state, events) = open_success-ok m s s' out e in
    unchanged s.pending s'.pending out (ap (λ t. t.pending) state) (ap answered events)
handle-answered (new_job m) s s' out e =
    let (_, _, stored, events) = new_job-ok m s s' out e in
    unchanged s.pending s'.pending out (stored-pending m s s' stored) (ap answered events)
handle-answered (prev_hash m) s s' out e =
    let (selected, next, _, _, _, _, run, events) = prev_hash-ok m s s' out e in
    let (header, _, _, state) = activate-ok m.job selected m.ntime [] _ s' run in
    unchanged s.pending s'.pending out (ap (λ t. t.pending) state) (ap answered events)
handle-answered (target m) s s' out e =
    let (_, state, events) = target-ok m s s' out e in
    unchanged s.pending s'.pending out (ap (λ t. t.pending) state) (ap answered events)
handle-answered (accepted m) s s' out e =
    let (r, _, settled, state, events) = accepted-ok m s s' out e in
    let (front, split, replies) = settle-ok _ s.pending r settled in
    settled-perm s.pending front r.1 (answered out) s'.pending split
      (accepted-answers out r.2 front (prompt ∷ []) replies events refl) (ap (λ t. t.pending) state)
handle-answered (rejected m) s s' out e =
    let (r, test, settled, state, events) = rejected-ok m s s' out e in
    let (front, split, replies) = settle-ok _ (remove m.sequence s.pending) r settled in
    Perm.trans
      (contains-perm m.sequence s.pending
        (in_pending (s.phase == 3) (m.channel == s.channel) (contains m.sequence s.pending) test))
      (settled-perm (m.sequence ∷ remove m.sequence s.pending) (m.sequence ∷ front) r.1
        (answered out) s'.pending (ap (◌∷◌ m.sequence) split)
        (rejected-answers out r.2 m.sequence _ m.reason front replies events)
        (ap (λ t. t.pending) state))
handle-answered (error m) s s' out e = cc

-- What happens to a session after the handshake: the pool sends a message, or a share is submitted.
pub data Action : Type 0 where
  receives : Message → Action
  submits : Job → ℕ → ℕ → Action

unfoldable pub step : Action → Session → Result (Session × List Event)
step (receives m) s = handle m s
step (submits j nonce sequence) s = do s' ← submit j nonce sequence s; ok (s', [])

unfoldable pub run : List Action → Session → Result (Session × List Event)
run [] s = ok (s, [])
run (a ∷ actions) s = do (s1, out1) ← step a s; (s2, out2) ← run actions s1; ok (s2, out1 ++ out2)

-- The sequence numbers that the actions submit.
abbrev pub submitted : List Action → List ℕ
submitted [] = []
submitted (receives m ∷ actions) = submitted actions
submitted (submits j nonce sequence ∷ actions) = sequence ∷ submitted actions
