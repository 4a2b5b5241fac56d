-- ===== src/Miner/Worker/Disjoint.antt =====
-- No two ranges that workers take of one job share a hash.
use supryolo.Base.{
  ℕ, ◌+◌, ◌-◌, ◌*◌, ◌%◌, ◌^◌, ◌≤◌, ◌<◌, ◌≡◌, refl, sym, ap, subst, ◌∙◌, arith, List, [], ◌∷◌, leb,
  ◌==◌, ==_refl, Result, ok, ◌>>=◌, >>=-eq-ok, require, require-ok, ok-injective, All, Bool-cases,
  inl, inr, ==_iff, leb→le,
}
use supryolo.Job.{Job}
use supryolo.Sv2.Partition.{Partition, partition}
use supryolo.Sv2.Partition.Laws.{partition_injective, partition-ok}
use supryolo.Miner.Worker.{Shared, renew, reserve, Range, place_slot}

-- Reservations of one job, in the order in which workers get the lock, each with its batch; what
-- each of them scans.
unfoldable pub reserve_all : Job → List ℕ → Shared → Result (Shared × List Partition)
reserve_all j [] s = ok (s, [])
reserve_all j (batch ∷ batches) s = do
  (s1, reserved) ← reserve j batch s
  p ← partition j.time32 0 reserved batch
  (s2, parts) ← reserve_all j batches s1
  ok (s2, p ∷ parts)

-- No hash of one has the nonce and the time of a hash of the other.
abbrev pub Apart : Partition → Partition → Type 0
Apart p q =
    (i k : ℕ) → i < p.count → k < q.count → p.nonce + i ≡ q.nonce + k → p.ntime ≡ q.ntime → ⊥

abbrev pub AllApart : List Partition → Type 0
AllApart [] = Unit {0}
AllApart (p ∷ parts) = All (Apart p) parts × AllApart parts

-- A partition of the job at a cursor from `lo` on.
abbrev IsFrom : ℕ → ℕ → Partition → Type 0
IsFrom time lo p = (c : ℕ) × (batch : ℕ) × (lo ≤ c) × (partition time 0 c batch ≡ ok p)

IsFrom-mono :
    (time lo hi : ℕ) (parts : List Partition)
    → lo ≤ hi
    → All (IsFrom time hi) parts
    → All (IsFrom time lo) parts
IsFrom-mono time lo hi [] h a = tt
IsFrom-mono time lo hi (p ∷ parts) h ((c, b, le, e), a) =
    ((c, b, omega arith, e), IsFrom-mono time lo hi parts h a)

apart :
    (time c batch : ℕ) (p : Partition) (parts : List Partition)
    → partition time 0 c batch ≡ ok p
    → All (IsFrom time (c + p.count)) parts
    → All (Apart p) parts
apart time c batch p [] e a = tt
apart time c batch p (q ∷ parts) e ((c', b', le, e'), a) = (
  λ i k hi hk n t.
      omega (arith, (partition_injective time 0 0 c c' batch b' i k p q e e' hi hk n t).1),
  apart time c batch p parts e a,
)

-- What one reservation gives.
reserve-ok :
    (j : Job) (batch : ℕ) (s s1 : Shared) (reserved : ℕ) (p : Partition)
    → reserve j batch s ≡ ok (s1, reserved)
    → partition j.time32 0 reserved batch ≡ ok p
    → (s1.cursor ≡ reserved + p.count)
      × (reserved ≡ (renew j s).cursor)
      × (s1.generation ≡ (renew j s).generation)
unfolding reserve
reserve-ok j batch s s1 reserved p e placed =
    let (q, got, e) = >>=-eq-ok (partition j.time32 0 (renew j s).cursor batch) _ e in
    let state = ap (λ r. r.0) (ok-injective e) in
    let cursor : (renew j s).cursor ≡ reserved = ap (λ r. r.1) (ok-injective e) in
    let same : q ≡ p =
      ok-injective (sym got ∙ ap (λ c. partition j.time32 0 c batch) cursor ∙ placed) in
    let (_, small, _, _, count) = partition-ok j.time32 0 (renew j s).cursor batch q got in
    (
      sym (ap (λ t. t.cursor) state)
          ∙ fits (renew j s).cursor reserved q.count p.count small (ap (λ t. t.count) same) cursor
              (short _ q.count count),
      sym cursor,
      sym (ap (λ t. t.generation) state),
    )
  where
    short : (r n : ℕ) → n ≡ r % 2 ^ 32 → n < 2 ^ 32
    short r n e = omega arith

    fits : (c r n m : ℕ) → c < 2 ^ 56 → n ≡ m → c ≡ r → n < 2 ^ 32 → (c + n) % 2 ^ 64 ≡ r + m
    fits c r n m h e e' k = omega arith

renew-generation : (j : Job) (s : Shared) → (renew j s).generation ≡ j.generation
renew-generation j s = elim (Bool-cases (s.generation == j.generation)) [
  | inl same ↦ rw same ((==_iff s.generation j.generation).0 same)
  | inr other ↦ rw other refl
]

renew_again : (j : Job) (s : Shared) → s.generation ≡ j.generation → renew j s ≡ s
renew_again j s e = rw (e, ==_refl j.generation) refl

-- All reservations of one job: from the cursor on, and apart.
reserve_all-IsFrom :
    (j : Job) (batches : List ℕ) (s s' : Shared) (parts : List Partition)
    → reserve_all j batches s ≡ ok (s', parts)
    → All (IsFrom j.time32 (renew j s).cursor) parts × AllApart parts
unfolding reserve_all
reserve_all-IsFrom j [] s s' parts e =
    let none_left : [] ≡ parts = ap (λ r. r.1) (ok-injective e) in
    subst (λ ps. All (IsFrom j.time32 (renew j s).cursor) ps × AllApart ps) none_left (tt, tt)
reserve_all-IsFrom j (batch ∷ batches) s s' parts e =
    let ((s1, reserved), first, e) = >>=-eq-ok (reserve j batch s) _ e in
    let (p, placed, e) = >>=-eq-ok (partition j.time32 0 reserved batch) _ e in
    let ((s2, rest), later, e) = >>=-eq-ok (reserve_all j batches s1) _ e in
    let whole : p ∷ rest ≡ parts = ap (λ r. r.1) (ok-injective e) in
    let (cursor, start, generation) = reserve-ok j batch s s1 reserved p first placed in
    let (from, apart_rest) = reserve_all-IsFrom j batches s1 s2 rest later in
    let again : renew j s1 ≡ s1 = renew_again j s1 (generation ∙ renew-generation j s) in
    let from : All (IsFrom j.time32 (reserved + p.count)) rest =
      subst (λ c. All (IsFrom j.time32 c) rest) (ap (λ t. t.cursor) again ∙ cursor) from in
    subst (λ ps. All (IsFrom j.time32 (renew j s).cursor) ps × AllApart ps) whole
      (
        (
          (reserved, batch, omega (arith, start), placed),
          IsFrom-mono j.time32 (renew j s).cursor (reserved + p.count) rest (omega (arith, start))
              from,
        ),
        (apart j.time32 reserved batch p rest placed from, apart_rest),
      )

-- However workers take turns, and whatever their batches, as long as no reservation fails: no two of
-- the ranges that they reserve of one Stratum V2 job hold a hash with the same nonce and the same time.
pub reserve_all-apart :
    (j : Job) (batches : List ℕ) (s s' : Shared) (parts : List Partition)
    → reserve_all j batches s ≡ ok (s', parts)
    → AllApart parts
reserve_all-apart j batches s s' parts e = (reserve_all-IsFrom j batches s s' parts e).1

slot_arith :
    (n n' c c' b b' i k : ℕ)
    → n < 256
    → n' < 256
    → c ≤ 2 ^ 56 - b
    → c' ≤ 2 ^ 56 - b'
    → i < b
    → k < b'
    → b < 2 ^ 32
    → b' < 2 ^ 32
    → n * 2 ^ 56 % 2 ^ 64 + c + i ≡ n' * 2 ^ 56 % 2 ^ 64 + c' + k
    → (n ≡ n') × (c + i ≡ c' + k)
slot_arith n n' c c' b b' i k h h' l l' hi hk w w' e = omega arith

place_slot-ok :
    (j : Job) (index cursor batch : ℕ) (r : Range)
    → place_slot j index cursor batch ≡ ok r
    → (cursor ≤ 2 ^ 56 - batch) × (r ≡ (j, index * 2 ^ 56 % 2 ^ 64 + cursor, batch))
unfolding place_slot
place_slot-ok j index cursor batch r e =
    let (u, test, e) = >>=-eq-ok (require (leb cursor (2 ^ 56 - batch)) _) _ e in
    (leb→le cursor (2 ^ 56 - batch) (require-ok _ _ test), sym (ok-injective e))

-- With Stratum V1 and at most 256 workers: two nonces that workers scan of one job are the same only
-- for the same worker at the same place of its own range, and no range wraps around.
pub place_slot_injective :
    (j : Job) (n n' c c' b b' i k : ℕ) (r r' : Range)
    → place_slot j n c b ≡ ok r
    → place_slot j n' c' b' ≡ ok r'
    → n < 256
    → n' < 256
    → b < 2 ^ 32
    → b' < 2 ^ 32
    → i < r.2
    → k < r'.2
    → r.1 + i ≡ r'.1 + k
    → (n ≡ n') × (c + i ≡ c' + k) × (r.1 + r.2 ≤ 2 ^ 64)
place_slot_injective j n n' c c' b b' i k r r' e e' h h' w w' hi hk same =
    let (l, state) = place_slot-ok j n c b r e in
    let (l', state') = place_slot-ok j n' c' b' r' e' in
    let start = ap (λ r. r.1) state in
    let count = ap (λ r. r.2) state in
    let start' = ap (λ r. r.1) state' in
    let count' = ap (λ r. r.2) state' in
    let (index, place) =
      slot_arith n n' c c' b b' i k h h' l l' (omega arith) (omega arith) w w' (omega arith) in
    (index, place, fits n c b r.1 r.2 h l w start count)
  where
    fits :
        (n c b start count : ℕ)
        → n < 256
        → c ≤ 2 ^ 56 - b
        → b < 2 ^ 32
        → start ≡ n * 2 ^ 56 % 2 ^ 64 + c
        → count ≡ b
        → start + count ≤ 2 ^ 64
    fits n c b start count h l w e e' = omega arith
