-- ===== src/CommandLine/Options/Accepted.antt =====
-- The options that the loop and its checks accept.
use supryolo.Base.{
  ℕ, ◌<◌, ◌≡◌, ap, refl, subst, arith, List, [], ◌∷◌, Bool, true, false, not, ◌&&◌, ◌||◌, inl, inr,
  Bool-cases, Option, All, ltb, ◌==◌, if◌then◌else◌, Result, ok, err, require, require-ok,
  ok-injective, >>=-eq-ok, ◌>>=◌,
}
use supryolo.Base.Bytes.{codes}
use supryolo.Sv2.Session.Settle.{text_eq}
use supryolo.Hardware.Nvml.{requested}
use supryolo.CommandLine.Options.{
  Parsed, nothing_parsed, Kind, flag, setting, version, unknown, table, find_kind, Outcome, stopped,
  parsed, apply_last, apply_kind, parse, check, is_empty, at_most_one, no_arguments, checked,
  arguments,
}
use supryolo.CommandLine.Options.InRange.{InRange}
use supryolo.CommandLine.Options.Kept.{Duration, Holds, HoldsIn, Keeps, table-Keeps}

abbrev HoldsOut : Result Outcome → Type 0
HoldsOut (ok (parsed p)) = Holds p
HoldsOut (ok stopped) = Unit {0}
HoldsOut (err why) = Unit {0}

find_kind-Keeps :
    (a : List ℕ) (t : List (List ℕ × Kind)) → All (λ e. Keeps e.1) t → Keeps (find_kind a t)
unfolding find_kind
find_kind-Keeps a [] h = tt
find_kind-Keeps a ((name, k) ∷ t) (h, hs) =
    chosen (text_eq a name) k (find_kind a t) h (find_kind-Keeps a t hs)
  where
    chosen : (b : Bool) (x y : Kind) → Keeps x → Keeps y → Keeps (if b then x else y)
    chosen true x y h k = h
    chosen false x y h k = k

last-Holds : (k : Kind) (p : Parsed) → Keeps k → Holds p → HoldsOut (apply_last k p)
unfolding apply_last
last-Holds (flag f) p keeps h = keeps p h
last-Holds (setting f) p keeps h = tt
last-Holds version p keeps h = tt
last-Holds unknown p keeps h = tt

kind-Holds :
    (next later : Parsed → Result Outcome) (k : Kind) (v : List ℕ) (p : Parsed)
    → ((p : Parsed) → Holds p → HoldsOut (next p))
    → ((p : Parsed) → Holds p → HoldsOut (later p))
    → Keeps k
    → Holds p
    → HoldsOut (apply_kind next later k v p)
unfolding apply_kind
kind-Holds next later (flag f) v p n l keeps h = n (f p) (keeps p h)
kind-Holds next later (setting f) v p n l keeps h = go (f v p) (keeps v p h)
  where
    go : (r : Result Parsed) → HoldsIn r → HoldsOut (r >>= later)
    go (ok p') h = l p' h
    go (err why) h = tt
kind-Holds next later version v p n l keeps h = tt
kind-Holds next later unknown v p n l keeps h = tt

parse-Holds :
    (stod : List ℕ → Option (ℕ × ℕ)) (args : List (List ℕ)) (p : Parsed)
    → Holds p
    → HoldsOut (parse stod args p)
unfolding parse
parse-Holds stod [] p h = h
parse-Holds stod (a ∷ []) p h =
    last-Holds (find_kind a (table stod)) p (find_kind-Keeps a (table stod) (table-Keeps stod)) h
parse-Holds stod (a ∷ (v ∷ rest)) p h =
    kind-Holds (parse stod (v ∷ rest)) (parse stod rest) (find_kind a (table stod)) v p
      (λ p h. parse-Holds stod (v ∷ rest) p h) (λ p h. parse-Holds stod rest p h)
      (find_kind-Keeps a (table stod) (table-Keeps stod)) h

abbrev Thresholds : Parsed → Type 0
Thresholds p =
    (0 < p.options.warn_temperature) × (p.options.warn_temperature < p.options.alarm_temperature)

parsed_of : Parsed → Outcome → Parsed
parsed_of p stopped = p
parsed_of p (parsed q) = q

check-Thresholds : (p q : Parsed) → check p ≡ ok (parsed q) → (p ≡ q) × Thresholds p
unfolding check parsed_of
check-Thresholds p q e =
    let (u1, e1, r1) =
      >>=-eq-ok (require (text_eq p.options.cpu_variant (codes "auto") || _) _) _ e in
    let (u2, e2, r2) = >>=-eq-ok (require (at_most_one p.bench p.demo p.list) _) _ r1 in
    let (u3, e3, r3) = >>=-eq-ok (require (not (p.list && requested p.options.controls)) _) _ r2 in
    let (u4, e4, r4) =
      >>=-eq-ok
        (require
          (ltb p.options.warn_temperature p.options.alarm_temperature
            && not (p.options.warn_temperature == 0))
          _)
        _ r3 in
    let (u5, e5, r5) =
      >>=-eq-ok (require (not ((p.bench || (p.demo || p.list)) && not (is_empty p.options.url))) _)
        _ r4 in
    (
      ap (parsed_of p) (ok-injective r5),
      ordered p.options.warn_temperature p.options.alarm_temperature (require-ok _ _ e4),
    )
  where
    ordered : (w a : ℕ) → (ltb w a && not (w == 0)) ≡ true → (0 < w) × (w < a)
    ordered w a h = ground arith

-- When the arguments are accepted and the program goes on with them, whatever `std::stod` reads: every
-- whole-number option is in its range, also each GPU and each hardware setting in the lists, no batch is
-- empty, the seconds are above 0 and finite when they are given and 0 otherwise, and the warning
-- temperature is above 0 and below the alarm temperature.
pub arguments-InRange :
    (stod : List ℕ → Option (ℕ × ℕ)) (args : List (List ℕ)) (p : Parsed)
    → arguments stod args ≡ ok (parsed p)
    → InRange p.options
      × Duration p
      × (0 < p.options.warn_temperature)
      × (p.options.warn_temperature < p.options.alarm_temperature)
unfolding arguments checked
arguments-InRange stod args p e =
    let (o, loop, rest) = >>=-eq-ok (parse stod args nothing_parsed) (checked args) e in
    go o (subst HoldsOut loop (parse-Holds stod args nothing_parsed initially)) rest
  where
    initially : Holds nothing_parsed
    initially = (
      (
        omega arith,
        tt,
        omega arith,
        omega arith,
        tt,
        (omega arith, omega arith),
        (omega arith, omega arith),
        omega arith,
        omega arith,
        omega arith,
        tt,
        tt,
        tt,
        tt,
      ),
      inl (refl, refl),
    )

    go :
        (o : Outcome)
        → HoldsOut (ok o)
        → checked args o ≡ ok (parsed p)
        → InRange p.options
          × Duration p
          × (0 < p.options.warn_temperature)
          × (p.options.warn_temperature < p.options.alarm_temperature)
    go stopped h e = cc
    go (parsed q) h e = elim (Bool-cases (q.help || no_arguments args)) [
      | inl usage ↦ cc (rw usage at e)
      | inr on ↦
          (let (same, (above, below)) = check-Thresholds q p (rw on at e) in
            subst
              (λ p.
                InRange p.options
                × Duration p
                × (0 < p.options.warn_temperature)
                × (p.options.warn_temperature < p.options.alarm_temperature))
              same (h.0, h.1, above, below))
    ]
