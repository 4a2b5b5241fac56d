-- ===== src/Miner/Shares/Balance.antt =====
-- The miner's pending shares are the session's, and its counters count every answer.
use supryolo.Base.{
  ℕ, suc, ◌+◌, ◌^◌, ◌≤◌, ◌<◌, ◌≡◌, refl, sym, ap, subst, ◌∙◌, arith, List, [], ◌∷◌, ◌++◌, inl, inr,
  Bool, true, false, length, leb, ltb, ◌==◌, if◌then◌else◌, some, Bool-cases, ok, >>=-eq-ok,
  require, require-ok, ok-injective, leb→le, length-append,
}
use supryolo.Words.{store_le, overwrite}
use supryolo.Blake2b.{blake2b256}
use supryolo.Target.{meets}
use supryolo.Sv2.Types.{Message}
use supryolo.Sv2.Session.{Session, handle, submit, valid}
use supryolo.Sv2.Session.Settle.{
  Event, answer_accepted, answer_rejected, retarget, prompt, contains, remove,
}
use supryolo.Sv2.Session.Settle.Laws.{answered}
use supryolo.Sv2.Session.Order.{InOrder, handle-Keeps, submit-InOrder}
use supryolo.Miner.Worker.{Found}
use supryolo.Miner.Shares.{
  Counts, Board, count, find_row, erase, settle_share, respond, on_event, on_events, check_share,
  send_share, submit_found, next,
}
use supryolo.Miner.Shares.Answered.{Removes, handle-Removes}

abbrev pub keys : List (ℕ × ℕ) → List ℕ
keys [] = []
keys ((id, row) ∷ m) = id ∷ keys m

abbrev pub total : Counts → ℕ
total c = c.accepted + c.rejected + c.stale

-- Answers and pending shares make up the shares sent, numbered from 10 on, when the counters began
-- with `base` answers.
abbrev pub Summed : ℕ → Board → Type 0
Summed base b = (total b.view + length b.pending + 10 ≡ base + b.nextid) × (b.nextid ≤ 2 ^ 32)

erase-keys : (id : ℕ) (m : List (ℕ × ℕ)) → keys (erase id m) ≡ remove id (keys m)
unfolding erase remove
erase-keys id [] = refl
erase-keys id ((i, row) ∷ m) = elim (Bool-cases (i == id)) [
  | inl hit ↦ rw hit refl
  | inr miss ↦ rw miss (ap (◌∷◌ i) (erase-keys id m))
]

find_row-contains :
    (id : ℕ) (m : List (ℕ × ℕ))
    → contains id (keys m) ≡ true
    → (row : ℕ) × (find_row id m ≡ some row) × (length m ≡ suc (length (erase id m)))
unfolding find_row contains erase
find_row-contains id [] h = cc
find_row-contains id ((i, row) ∷ m) h = elim (Bool-cases (i == id)) [
  | inl hit ↦ (row, rw hit refl, rw hit refl)
  | inr miss ↦
      let (found, e, size) = find_row-contains id m (rw miss at h) in
      (found, rw miss e, rw miss (ap suc size))
]

count-total :
    (result : Bool) (code : ℕ) (c : Counts)
    → total c < 2 ^ 63 + 2 ^ 33
    → total (count result code c) ≡ total c + 1
unfolding count
count-total true code c h = omega arith
count-total false code c h = elim (Bool-cases (code == 21)) [
  | inl stale ↦ rw stale (omega arith)
  | inr other ↦ rw other (omega arith)
]

respond-Summed :
    (base id : ℕ) (result : Bool) (code : ℕ) (b : Board)
    → base ≤ 2 ^ 63
    → contains id (keys b.pending) ≡ true
    → Summed base b
    → (keys (respond id result code b).pending ≡ remove id (keys b.pending))
      × Summed base (respond id result code b)
unfolding respond settle_share
respond-Summed base id result code b small there (sum, bound) =
    let (row, found, size) = find_row-contains id b.pending there in
    rw found (
      erase-keys id b.pending,
      (omega (arith, count-total result code b.view (omega arith)), bound),
    )

on_events-Summed :
    (base : ℕ) (out : List Event) (b : Board) (q : List ℕ)
    → base ≤ 2 ^ 63
    → Removes (answered out) (keys b.pending) q
    → Summed base b
    → (keys (on_events out b).pending ≡ q) × Summed base (on_events out b)
unfolding on_events on_event
on_events-Summed base [] b q small r s = (r, s)
on_events-Summed base (answer_accepted id ∷ out) b q small (there, r) s =
    let (same, s1) = respond-Summed base id true 0 b small there s in
    on_events-Summed base out (respond id true 0 b) q small
      (subst (λ p. Removes (answered out) p q) (sym same) r) s1
on_events-Summed base (answer_rejected id code reason ∷ out) b q small (there, r) s =
    let (same, s1) = respond-Summed base id false code b small there s in
    on_events-Summed base out (respond id false code b) q small
      (subst (λ p. Removes (answered out) p q) (sym same) r) s1
on_events-Summed base (retarget t ∷ out) b q small r s = on_events-Summed base out b q small r s
on_events-Summed base (prompt ∷ out) b q small r s = on_events-Summed base out b q small r s

-- What the loop keeps: the session's order, its pending shares on the board, and the sum.
pub record Synced (base : ℕ) (s : Session) (b : Board) : Type 0 where
  pub order : InOrder s
  pub same : keys b.pending ≡ s.pending
  pub summed : Summed base b

pub handle-Synced :
    (base : ℕ) (m : Message) (s s' : Session) (out : List Event) (b : Board)
    → handle m s ≡ ok (s', out)
    → base ≤ 2 ^ 63
    → Synced base s b
    → Synced base s' (on_events out b)
handle-Synced base m s s' out b e small y =
    let (same, summed) =
      on_events-Summed base out b s'.pending small
        (subst (λ p. Removes (answered out) p s'.pending) (sym y.same)
          (handle-Removes m s s' out e))
        y.summed in
    record { order = (handle-Keeps m s s' out e y.order).0; same = same; summed = summed }

-- The check only counts candidates.
check_share-ok :
    (f : Found) (b b1 : Board)
    → check_share f b ≡ ok b1
    → (b1.pending ≡ b.pending) × (b1.view ≡ b.view) × (b1.nextid ≡ b.nextid)
unfolding check_share
check_share-ok f b b1 e =
    let (hash, _, e) =
      >>=-eq-ok (blake2b256 (overwrite f.job.work.header 32 (store_le f.nonce))) _ e in
    let (u, _, e) = >>=-eq-ok (require (meets hash f.job.work.target) _) _ e in
    candidate (meets hash f.job.network_target) (ok-injective e)
  where
    candidate :
        (t : Bool)
        → (if t then record b { block_candidates = next b.block_candidates } else b) ≡ b1
        → (b1.pending ≡ b.pending) × (b1.view ≡ b.view) × (b1.nextid ≡ b.nextid)
    candidate true e =
        (ap (λ t. t.pending) (sym e), ap (λ t. t.view) (sym e), ap (λ t. t.nextid) (sym e))
    candidate false e =
        (ap (λ t. t.pending) (sym e), ap (λ t. t.view) (sym e), ap (λ t. t.nextid) (sym e))

keys-last : (m : List (ℕ × ℕ)) (id row : ℕ) → keys (m ++ ((id, row) ∷ [])) ≡ keys m ++ (id ∷ [])
keys-last [] id row = refl
keys-last ((i, r) ∷ m) id row = ap (◌∷◌ i) (keys-last m id row)

send_share-Synced :
    (base : ℕ) (f : Found) (s s' : Session) (b b' : Board)
    → send_share f s b ≡ ok (s', b')
    → Synced base s b
    → Synced base s' b'
unfolding send_share
send_share-Synced base f s s' b b' e y =
    let (u, _, e) = >>=-eq-ok (require (ltb (length b.pending) 4096) _) _ e in
    let (b1, checked, e) = >>=-eq-ok (check_share f b) _ e in
    let (v, room, e) = >>=-eq-ok (require (leb b.nextid 0xffff_ffff) _) _ e in
    let (s1, sent, e) = >>=-eq-ok (submit f.job f.nonce b.nextid s) _ e in
    let (pending, view, nextid) = check_share-ok f b b1 checked in
    let session : s1 ≡ s' = ap (λ r. r.0) (ok-injective e) in
    let board = sym (ap (λ r. r.1) (ok-injective e)) in
    let (order, _, _, last) = submit-InOrder f.job f.nonce b.nextid s s1 sent y.order in
    let shares : b'.pending ≡ b.pending ++ ((b.nextid, f.row) ∷ []) =
      ap (λ t. t.pending) board ∙ ap (λ p. p ++ ((b.nextid, f.row) ∷ [])) pending in
    record {
      order = subst InOrder session order;
      same =
          ap keys shares
          ∙ keys-last b.pending b.nextid f.row
          ∙ ap (λ p. p ++ (b.nextid ∷ [])) y.same
          ∙ sym last
          ∙ ap (λ t. t.pending) session;
      summed =
          sent_sum base b b' (ap (λ t. t.view) board ∙ view) (ap (λ t. t.nextid) board)
            (ap length shares ∙ length-append b.pending ((b.nextid, f.row) ∷ []))
            (leb→le b.nextid 0xffff_ffff (require-ok _ _ room)) y.summed;
    }
  where
    sent_sum :
        (base : ℕ) (b b' : Board)
        → b'.view ≡ b.view
        → b'.nextid ≡ b.nextid + 1
        → length b'.pending ≡ length b.pending + 1
        → b.nextid ≤ 0xffff_ffff
        → Summed base b
        → Summed base b'
    sent_sum base b b' v n l bound (sum, _) = (omega (arith, ap total v, sum), omega arith)

pub submit_found-Synced :
    (base : ℕ) (f : Found) (s s' : Session) (b b' : Board)
    → submit_found f s b ≡ ok (s', b')
    → Synced base s b
    → Synced base s' b'
unfolding submit_found
submit_found-Synced base f s s' b b' e y = elim (Bool-cases (valid f.job s)) [
  | inl good ↦ send_share-Synced base f s s' b b' (rw good at e) y
  | inr stale ↦ let same = ok-injective (rw stale at e) in subst (λ r. Synced base r.0 r.1) same y
]
