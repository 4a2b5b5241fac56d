-- ===== src/Stratum/Current.antt =====
-- The job that a message makes the current one.
use supryolo.Base.{
  ℕ, ◌+◌, ◌%◌, ◌^◌, ◌≡◌, refl, sym, ap, subst, ◌∙◌, arith, List, ◌∷◌, Bool, true, false, not, ◌&&◌,
  &&-true, Option, none, some, length, ltb, ◌==◌, ==_iff, ==_refl, if◌then◌else◌, Result, ok, err,
  require, ok-injective, >>=-eq-ok, ◌>>=◌, String,
}
use supryolo.Base.Bytes.{codes}
use supryolo.Hex.{unhex}
use supryolo.Job.{Job}
use supryolo.Sv2.Session.Settle.{text_eq}
use supryolo.Sv2.Session.Settle.Laws.{text_eq_self}
use supryolo.Stratum.{
  Json, State, look_up, equals, valid, got, is_int, cleaned, announce, job_parts, check_notify,
  text, set_difficulty, set_extranonce, extranonce, make_job, add_job, notify, on_method,
  subscribed, holds, on_answer, on_id, dispatch, receive,
}

-- A job that is returned is new, and stands in the state that is returned with it.
abbrev Announced : State → Option Job × State → Type 0
Announced s (none, s') = Unit {0}
Announced s (some j, s') =
    (s0 : State) × (j.epoch ≡ s0.epoch)
    × (j.generation ≡ (s.generation + 1) % 2 ^ 64)
    × (s' ≡ announce j s0)

abbrev Announces : State → Result (Option Job × State) → Type 0
Announces s (err why) = Unit {0}
Announces s (ok r) = Announced s r

>>=-Announces :
    {A : Type 0} (s : State) (m : Result A) (f : A → Result (Option Job × State))
    → ((a : A) → m ≡ ok a → Announces s (f a))
    → Announces s (m >>= f)
>>=-Announces s (err why) f h = tt
>>=-Announces s (ok a) f h = h a refl

either :
    (s : State) (b : Bool) (x y : Result (Option Job × State))
    → Announces s x
    → Announces s y
    → Announces s (if b then x else y)
either s true x y p q = p
either s false x y p q = q

cleaned-generation : (b : Bool) (s : State) → (cleaned b s).generation ≡ s.generation
unfolding cleaned
cleaned-generation true s = refl
cleaned-generation false s = refl

module _ {V : Type 0} (json : Json V) (difficulty_target : List ℕ → Result (List ℕ)) where
  make_job-fields :
      (p : V) (id : List ℕ) (s : State) (j : Job)
      → make_job json difficulty_target p id s ≡ ok j
      → (j.epoch ≡ s.epoch) × (j.generation ≡ (s.generation + 1) % 2 ^ 64)
  unfolding make_job
  make_job-fields p id s j e =
      let (parts, e1, made) = >>=-eq-ok (job_parts json difficulty_target p s) _ e in
      let same = sym (ok-injective made) in (ap (λ j. j.epoch) same, ap (λ j. j.generation) same)

  add_job-Announces :
      (p : V) (id : List ℕ) (s s0 : State)
      → s0.generation ≡ s.generation
      → Announces s (add_job json difficulty_target p id s0)
  unfolding add_job
  add_job-Announces p id s s0 same =
      >>=-Announces s (require (ltb (length s0.valid_ids) 1024) _) _ (λ u e.
        >>=-Announces s (make_job json difficulty_target p id s0) _ (λ j made.
          let (epoch, generation) = make_job-fields p id s0 j made in
          (s0, epoch, generation ∙ ap (λ n. (n + 1) % 2 ^ 64) same, refl)))

  notify-Announces : (p : V) (s : State) → Announces s (notify json difficulty_target p s)
  unfolding notify
  notify-Announces p s = >>=-Announces s (check_notify json difficulty_target p s) _ (λ checked e.
      add_job-Announces p checked.0 s (cleaned checked.1 s) (cleaned-generation checked.1 s))

  set_extranonce-Announces :
      (why : String) (a b : V) (s : State)
      → Announces s (set_extranonce json difficulty_target why a b s)
  unfolding set_extranonce
  set_extranonce-Announces why a b s = >>=-Announces s (text json difficulty_target a) _ (λ e h.
      >>=-Announces s (got (json.as_int b)) _ (λ n h.
        >>=-Announces s (unhex e) _ (λ bytes h.
          >>=-Announces s (require (length bytes == 4 && is_int 8 n) why) _ (λ u h. tt))))

  method-Announces :
      (method : List ℕ) (p : V) (s : State)
      → Announces s (on_method json difficulty_target method p s)
  unfolding on_method set_difficulty extranonce
  method-Announces method p s = either s (not (json.is_array p)) _ _ tt (
      either s (text_eq method (codes "mining.set_difficulty")) _ _
        (>>=-Announces s (require (json.size p == 1 && json.is_number (json.item 0 p)) _) _
          (λ u e. >>=-Announces s (difficulty_target (json.dump (json.item 0 p))) _ (λ t e. tt)))
        (either s (text_eq method (codes "mining.set_extranonce")) _ _
          (>>=-Announces s (require (json.size p == 2) _) _
            (λ u e. set_extranonce-Announces _ (json.item 0 p) (json.item 1 p) s))
          (either s (text_eq method (codes "mining.notify")) _ _ (notify-Announces p s) tt)))

  answer-Announces :
      (n : Bool × ℕ) (msg : V) (s : State) → Announces s (on_answer json difficulty_target n msg s)
  unfolding on_answer subscribed
  answer-Announces n msg s =
      either s (is_int 1 n) _ _
        (>>=-Announces s (got (json.member (codes "result") msg)) _ (λ r e.
          >>=-Announces s (require (json.is_array r && json.size r == 3) _) _
            (λ u e. set_extranonce-Announces _ (json.item 1 r) (json.item 2 r) s)))
        (either s (is_int 3 n) _ _
          (either s (holds json difficulty_target (json.member (codes "result") msg)) _ _ tt tt) tt)

  id-Announces :
      (o : Option V) (msg : V) (s : State) → Announces s (on_id json difficulty_target o msg s)
  unfolding on_id
  id-Announces none msg s = tt
  id-Announces (some id) msg s =
      either s (json.is_integer id) _ _
        (>>=-Announces s (got (json.as_int id)) _ (λ n e. answer-Announces n msg s)) tt

  dispatch-Announces :
      (o : Option V) (msg : V) (s : State) → Announces s (dispatch json difficulty_target o msg s)
  unfolding dispatch
  dispatch-Announces none msg s = id-Announces (json.member (codes "id") msg) msg s
  dispatch-Announces (some name) msg s =
      >>=-Announces s (text json difficulty_target name) _ (λ method e.
        >>=-Announces s (got (json.member (codes "params") msg)) _
          (λ p e. method-Announces method p s))

  receive-Announces : (msg : V) (s : State) → Announces s (receive json difficulty_target msg s)
  unfolding receive
  receive-Announces msg s =
      either s (json.is_object msg) _ _
        (dispatch-Announces (json.member (codes "method") msg) msg s) tt

abbrev after_and : (a b : Bool) → (a && b) ≡ true → b ≡ true
after_and a b h = (&&-true a b h).1

found_first : (id : List ℕ) (n : ℕ) (m : List (List ℕ × ℕ)) → look_up id ((id, n) ∷ m) ≡ some n
unfolding look_up
found_first id n m = rw (text_eq_self id) refl

-- When a message makes a job, whatever the JSON library reads from it: the job is the current one of
-- the state after the message, its generation is the next and is that of the state, and it is valid in that state exactly when
-- the session is authorized. Any job that is valid in that state has this job's epoch; and if it has
-- this job's identifier, then also its generation, so an older job with that identifier is not valid.
pub receive-current :
    {V : Type 0} (json : Json V) (difficulty_target : List ℕ → Result (List ℕ)) (msg : V)
    (s s' : State) (j : Job)
    → receive json difficulty_target msg s ≡ ok (some j, s')
    → (s'.current ≡ some j)
      × (j.generation ≡ (s.generation + 1) % 2 ^ 64)
      × (s'.generation ≡ j.generation)
      × (valid j s' ≡ s'.authorized)
      × ((o : Job)
          → valid o s' ≡ true
          → (o.epoch ≡ j.epoch) × (o.id ≡ j.id → o.generation ≡ j.generation))
unfolding valid
receive-current json difficulty_target msg s s' j e =
    let (s0, epoch, generation, state) =
      subst (Announces s) e (receive-Announces json difficulty_target msg s) in
    subst
      (λ t.
        (t.current ≡ some j)
        × (j.generation ≡ (s.generation + 1) % 2 ^ 64)
        × (t.generation ≡ j.generation)
        × (valid j t ≡ t.authorized)
        × ((o : Job)
            → valid o t ≡ true
            → (o.epoch ≡ j.epoch) × (o.id ≡ j.id → o.generation ≡ j.generation)))
      (sym state)
      (
        refl,
        generation,
        refl,
        is_valid j s0 epoch,
        λ o h.
            let at_epoch = after_and s0.authorized _ h in
            (
              (==_iff o.epoch s0.epoch).0 ((&&-true (o.epoch == s0.epoch) _ at_epoch).0)
                  ∙ sym epoch,
              λ same. newest o j s0 same (after_and (o.epoch == s0.epoch) _ at_epoch),
            ),
      )
  where
    and_true : (a b c : Bool) → b ≡ true → c ≡ true → (a && (b && c)) ≡ a
    and_true a b c h k = ground arith

    is_valid : (j : Job) (s0 : State) → j.epoch ≡ s0.epoch → valid j (announce j s0) ≡ s0.authorized
    is_valid j s0 epoch =
        and_true s0.authorized (j.epoch == s0.epoch) _ ((==_iff j.epoch s0.epoch).1 epoch)
          (ap (λ o. equals o j.generation) (found_first j.id j.generation _) ∙ ==_refl j.generation)

    newest :
        (o j : Job) (s0 : State)
        → o.id ≡ j.id
        → equals (look_up o.id (announce j s0).valid_ids) o.generation ≡ true
        → o.generation ≡ j.generation
    newest o j s0 same h = sym (
        (==_iff j.generation o.generation).0 (
          ap (λ f. equals f o.generation)
            (sym (
              ap (λ id. look_up id (announce j s0).valid_ids) same
              ∙ found_first j.id j.generation _))
          ∙ h))
