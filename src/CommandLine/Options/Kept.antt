-- ===== src/CommandLine/Options/Kept.antt =====
-- The ranges of the options, kept by every argument.
use supryolo.Base.{
  ℕ, ◌≤◌, ◌<◌, ◌≡◌, refl, arith, List, Bool, true, false, not, ◌&&◌, inl, inr, Bool-cases, ◌⊎◌,
  Option, none, some, All, length, ltb, ◌==◌, if◌then◌else◌, Result, ok, err, require, ◌>>=◌,
  String,
}
use supryolo.Hardware.Nvml.{GpuControls}
use supryolo.CommandLine.{integer, numbers}
use supryolo.CommandLine.Options.{
  MineOptions, Parsed, change, control, Kind, flag, setting, version, unknown, number, positive,
  values, set_devices, set_seconds, accept_seconds, to_set, table,
}
use supryolo.CommandLine.Options.InRange.{
  UpTo, InRange, integer-UpTo, numbers-UpTo, with_threads, with_devices, with_block, with_variant,
  with_opencl, with_batch, with_cpu_batch, with_port, with_warn, with_alarm, with_core, with_memory,
  with_power, with_fan,
}

-- Without `--seconds` the default of 0 stands; with it, the bits are of a double that is above 0 and finite.
abbrev pub Duration : Parsed → Type 0
Duration p =
    ((p.seconds_set ≡ false) × (p.options.seconds ≡ 0))
    ⊎ ((p.seconds_set ≡ true)
        × (0 < p.options.seconds)
        × (p.options.seconds < 0x7ff0_0000_0000_0000))

abbrev pub Holds : Parsed → Type 0
Holds p = InRange p.options × Duration p

abbrev pub HoldsIn : Result Parsed → Type 0
HoldsIn (ok p) = Holds p
HoldsIn (err why) = Unit {0}

-- A kind of argument that keeps the ranges.
abbrev pub Keeps : Kind → Type 0
Keeps (flag f) = (p : Parsed) → Holds p → Holds (f p)
Keeps (setting f) = (v : List ℕ) (p : Parsed) → Holds p → HoldsIn (f v p)
Keeps version = Unit {0}
Keeps unknown = Unit {0}

>>=-HoldsIn :
    {A : Type 0} (m : Result A) (f : A → Result Parsed)
    → ((a : A) → m ≡ ok a → HoldsIn (f a))
    → HoldsIn (m >>= f)
>>=-HoldsIn (err why) f h = tt
>>=-HoldsIn (ok a) f h = h a refl

number-Keeps :
    (maximum : ℕ) (f : ℕ → MineOptions → MineOptions)
    → ((n : ℕ) (p : Parsed) → n ≤ maximum → Holds p → Holds (change (f n) p))
    → Keeps (number maximum f)
number-Keeps maximum f h v p g =
    >>=-HoldsIn (integer v maximum) _ (λ n e. h n p (integer-UpTo v maximum n e) g)

positive-Keeps :
    (maximum : ℕ) (why : String) (f : ℕ → MineOptions → MineOptions)
    → ((n : ℕ) (p : Parsed) → n ≤ maximum → 0 < n → Holds p → Holds (change (f n) p))
    → Keeps (positive maximum why f)
positive-Keeps maximum why f h v p g =
    >>=-HoldsIn (integer v maximum) _
      (λ n e. chosen n (Bool-cases (n == 0)) (h n p (integer-UpTo v maximum n e)))
  where
    chosen :
        (n : ℕ)
        → ((n == 0) ≡ true) ⊎ ((n == 0) ≡ false)
        → (0 < n → Holds p → Holds (change (f n) p))
        → HoldsIn (if n == 0 then err why else ok (change (f n) p))
    chosen n (inl zero_) k = rw zero_ tt
    chosen n (inr more) k = rw more (k (ground arith) g)

values-Keeps :
    (maximum : ℕ) (f : List ℕ → GpuControls → GpuControls)
    → ((ns : List ℕ) (p : Parsed) → All (UpTo maximum) ns → Holds p → Holds (control (f ns) p))
    → Keeps (values maximum f)
values-Keeps maximum f h v p g =
    >>=-HoldsIn (numbers v maximum) _ (λ ns e. h ns p (numbers-UpTo v maximum ns e) g)

devices-Keeps : Keeps (setting set_devices)
unfolding set_devices
devices-Keeps v p g = >>=-HoldsIn (numbers v 255) _ (λ ds e.
    >>=-HoldsIn (require (length (to_set ds) == length ds) _) _
      (λ u e'. (with_devices p.options ds (numbers-UpTo v 255 ds e) g.0, g.1)))

seconds-Keeps : (stod : List ℕ → Option (ℕ × ℕ)) → Keeps (setting (set_seconds stod))
unfolding set_seconds accept_seconds
seconds-Keeps stod v p g = accepted (stod v)
  where
    positive_finite :
        (x : ℕ) (b : Bool)
        → (b && (not (x == 0) && ltb x 0x7ff0_0000_0000_0000)) ≡ true
        → (0 < x) × (x < 0x7ff0_0000_0000_0000)
    positive_finite x b h = ground arith

    accepted : (o : Option (ℕ × ℕ)) → HoldsIn (accept_seconds v p o)
    accepted none = tt
    accepted (some (x, used)) =
        elim (Bool-cases (used == length v && (not (x == 0) && ltb x 0x7ff0_0000_0000_0000))) [
          | inr refused ↦ rw refused tt
          | inl fine ↦
              (let (above, finite) = positive_finite x (used == length v) fine in
                rw fine (g.0, inr (refl, above, finite)))
        ]

pub table-Keeps : (stod : List ℕ → Option (ℕ × ℕ)) → All (λ e. Keeps e.1) (table stod)
table-Keeps stod = (
  (λ p g. g),
  (
    devices-Keeps,
    (
      devices-Keeps,
      (
        (λ v p g. g),
        (
          (λ p g. g),
          (
            (λ p g. g),
            (
              (λ p g. g),
              (
                (λ v p g. g),
                (
                  number-Keeps _ _ (λ n p h g. (with_threads p.options n h g.0, g.1)),
                  (
                    number-Keeps _ _ (λ n p h g. (with_block p.options n h g.0, g.1)),
                    (
                      number-Keeps _ _ (λ n p h g. (with_opencl p.options n h g.0, g.1)),
                      (
                        number-Keeps _ _ (λ n p h g. (with_variant p.options n h g.0, g.1)),
                        (
                          positive-Keeps _ _ _
                              (λ n p h more g. (with_batch p.options n (more, h) g.0, g.1)),
                          (
                            positive-Keeps _ _ _
                                (λ n p h more g. (with_cpu_batch p.options n (more, h) g.0, g.1)),
                            (
                              seconds-Keeps stod,
                              (
                                (λ v p g. g),
                                (
                                  (λ v p g. g),
                                  (
                                    (λ v p g. g),
                                    (
                                      (λ v p g. g),
                                      (
                                        number-Keeps _ _
                                            (λ n p h g. (with_port p.options n h g.0, g.1)),
                                        (
                                          (λ v p g. g),
                                          (
                                            values-Keeps _ _
                                                (λ ns p h g. (with_core p.options ns h g.0, g.1)),
                                            (
                                              values-Keeps _ _ (λ ns p h g.
                                                  (with_memory p.options ns h g.0, g.1)),
                                              (
                                                values-Keeps _ _ (λ ns p h g.
                                                    (with_power p.options ns h g.0, g.1)),
                                                (
                                                  values-Keeps _ _ (λ ns p h g.
                                                      (with_fan p.options ns h g.0, g.1)),
                                                  (
                                                    number-Keeps _ _ (λ n p h g.
                                                        (with_warn p.options n h g.0, g.1)),
                                                    (
                                                      number-Keeps _ _ (λ n p h g.
                                                          (with_alarm p.options n h g.0, g.1)),
                                                      (
                                                        (λ p g. g),
                                                        (
                                                          (λ p g. g),
                                                          (
                                                            (λ p g. g),
                                                            (
                                                            (λ p g. g),
                                                            (tt, ((λ p g. g), ((λ p g. g), tt))),
                                                            ),
                                                          ),
                                                        ),
                                                      ),
                                                    ),
                                                  ),
                                                ),
                                              ),
                                            ),
                                          ),
                                        ),
                                      ),
                                    ),
                                  ),
                                ),
                              ),
                            ),
                          ),
                        ),
                      ),
                    ),
                  ),
                ),
              ),
            ),
          ),
        ),
      ),
    ),
  ),
)
